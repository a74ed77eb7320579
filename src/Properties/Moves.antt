-- ===== src/Properties/Moves.antt =====
-- What an allowed transition of a listing does.
use hoyhel.Prelude.{
  ℕ, ◌≡◌, [], ◌∷◌, ◌++◌, some, find_first, update_many, find_first-update_many, Text, arith,
}
use hoyhel.Schema.{Store, Property, PropertyStatus}
use hoyhel.Service.{Result, ok}
use hoyhel.Bookings.{property_is}
use hoyhel.Properties.{history_row, find_property}

-- The property has the new status, the change is the last row of the history, and pictures and
-- bookings are as they were.
pub record IsMoved (actor id : ℕ) (p : Property) (next : PropertyStatus) (s : Store)
    (r : Result Property × Store) : Type 0 where
  pub moved : Property
  pub reason : Text
  pub returned : r.0 ≡ ok moved
  pub status : moved.status ≡ next
  pub host : moved.host_id ≡ p.host_id
  pub found : find_property id r.1 ≡ some moved
  pub recorded :
      r.1.status_history ≡ s.status_history ++ history_row id p.status next actor reason ∷ []
  pub images : r.1.images ≡ s.images
  pub bookings : r.1.bookings ≡ s.bookings

module _ (id : ℕ) (s : Store) (p : Property) (found : find_property id s ≡ some p) where
  pub found_after :
      (f : Property → Property)
      → ((q : Property) → (f q).id ≡ q.id)
      → find_first (property_is id) (update_many (property_is id) f s.properties) ≡ some (f p)
  found_after f keep =
      find_first-update_many (property_is id) f s.properties p (λ q h. ground (arith, keep q)) found
