-- ===== src/Favorites.antt =====
-- backend/src/modules/favorites/favorites.routes.ts: the listings that a user likes. The table has one
-- row at most for a user and a listing, so the row that is deleted by its identifier is that row.
pub mod Toggle
mod Tests
use hoyhel.Prelude.{
  ℕ, Bool, true, false, not, ◌&&◌, List, [], ◌∷◌, ◌++◌, none, some, ◌==◌, if◌then◌else◌, exists_row,
  find_first, find_many, delete_many,
}
use hoyhel.Schema.{Store, Favorite, Property}
use hoyhel.Bookings.{property_is, user_is}
use hoyhel.Service.{AppError, Action, throw_if, pure, gets, modify, ◌>>=◌, ◌>>◌}

abbrev pub likes : ℕ → ℕ → Favorite → Bool
likes user_id property_id f = f.user_id == user_id && f.property_id == property_id

abbrev pub new_favorite : ℕ → ℕ → Favorite
new_favorite user_id property_id = record { user_id = user_id; property_id = property_id }

abbrev pub set_favorites : (List Favorite → List Favorite) → Store → Store
set_favorites f s = record s { favorites = f s.favorites }

-- The rows that the two foreign keys of a favourite name.
abbrev pub has_references : ℕ → ℕ → Store → Bool
has_references user_id property_id s =
    exists_row (user_is user_id) s.users && exists_row (property_is property_id) s.properties

-- `toggleFavorite`: whether the listing is liked after it. Creating a row fails where a foreign key names none.
unfoldable pub toggle_favorite : ℕ → ℕ → Action Bool
toggle_favorite user_id property_id = do
  existing ← gets (λ s. exists_row (likes user_id property_id) s.favorites)
  known ← gets (has_references user_id property_id)
  throw_if (not existing && not known) AppError.reference_missing
  modify (
      set_favorites (λ fs.
        if existing
        then delete_many (likes user_id property_id) fs
        else fs ++ new_favorite user_id property_id ∷ []))
  pure (not existing)

-- `DELETE /:propertyId`
unfoldable pub remove_favorite : ℕ → ℕ → Store → Store
remove_favorite user_id property_id s = set_favorites (delete_many (likes user_id property_id)) s

abbrev pub liked_by : ℕ → Favorite → Bool
liked_by user_id f = f.user_id == user_id

-- `favorites.map((f) => f.property)`; a favourite whose listing is gone went with it.
unfoldable pub properties_of : List Property → List Favorite → List Property
properties_of ps [] = []
properties_of ps (f ∷ fs) = elim (find_first (property_is f.property_id) ps) [
  | none ↦ properties_of ps fs
  | some p ↦ p ∷ properties_of ps fs
]

-- `getUserFavorites`, in the order of the table
unfoldable pub get_user_favorites : ℕ → Store → List Property
get_user_favorites user_id s = properties_of s.properties (find_many (liked_by user_id) s.favorites)
