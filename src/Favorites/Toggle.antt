-- ===== src/Favorites/Toggle.antt =====
-- The favourites as a set of pairs.
use hoyhel.Prelude.{
  ℕ, ◌≡◌, inl, inr, ◌⊎◌, Bool, true, false, not, ◌&&◌, ◌||◌, List, [], ◌∷◌, ◌++◌, ◌==◌, ==_iff,
  ==_refl, ==_comm, if◌then◌else◌, exists_row, delete_many, Bool-cases, arith,
}
use hoyhel.Schema.{Store, Favorite}
use hoyhel.Service.{AppError, ok, err}
use hoyhel.Favorites.{likes, new_favorite, toggle_favorite}

-- The abstract view: which user likes which listing.
pub liked : Store → ℕ → ℕ → Bool
liked s user_id property_id = exists_row (likes user_id property_id) s.favorites

-- The set after a toggle of one pair.
abbrev pub flip : ℕ → ℕ → (ℕ → ℕ → Bool) → ℕ → ℕ → Bool
flip u p set v q = if v == u && q == p then not (set v q) else set v q

exists_row-append :
    (k : Favorite → Bool) (fs : List Favorite) (f : Favorite)
    → exists_row k (fs ++ f ∷ []) ≡ (exists_row k fs || k f)
unfolding exists_row
exists_row-append k [] f = ground arith
exists_row-append k (x ∷ fs) f = ground (arith, exists_row-append k fs f)

deleted :
    (u p v q : ℕ) (fs : List Favorite)
    → exists_row (likes v q) (delete_many (likes u p) fs)
      ≡ (if v == u && q == p then false else exists_row (likes v q) fs)
unfolding exists_row delete_many
deleted u p v q [] = ground arith
deleted u p v q (f ∷ fs) = ground (arith, deleted u p v q fs)

-- What a toggle of the pair leaves of the rows, where it is carried out.
abbrev toggled_rows : ℕ → ℕ → List Favorite → List Favorite
toggled_rows u p fs =
    if exists_row (likes u p) fs then delete_many (likes u p) fs else fs ++ new_favorite u p ∷ []

toggled_same :
    (u p : ℕ) (fs : List Favorite)
    → exists_row (likes u p) (toggled_rows u p fs) ≡ not (exists_row (likes u p) fs)
toggled_same u p fs = ground (
  arith,
  deleted u p u p fs,
  exists_row-append (likes u p) fs (new_favorite u p),
  ==_refl u,
  ==_refl p,
)

toggled_other :
    (u p v q : ℕ) (fs : List Favorite)
    → (v == u && q == p) ≡ false
    → exists_row (likes v q) (toggled_rows u p fs) ≡ exists_row (likes v q) fs
toggled_other u p v q fs apart = ground (
  arith,
  deleted u p v q fs,
  exists_row-append (likes v q) fs (new_favorite u p),
  ==_comm u v,
  ==_comm p q,
)

toggled :
    (u p v q : ℕ) (s : Store)
    → exists_row (likes v q) (toggled_rows u p s.favorites) ≡ flip u p (liked s) v q
unfolding liked
toggled u p v q s = elim (Bool-cases (v == u && q == p)) [
  | inl same ↦
      let one : v ≡ u = ground (arith, ==_iff v u) in
      let two : q ≡ p = ground (arith, ==_iff q p) in
      rw (same, one, two) (toggled_same u p s.favorites)
  | inr apart ↦ rw apart (toggled_other u p v q s.favorites apart)
]

-- A toggle that can be carried out: the listing is liked already, or the user and the listing are there.
abbrev pub can_toggle : ℕ → ℕ → Store → Bool
can_toggle u p s =
    liked s u p || exists_row (λ x. x.id == u) s.users && exists_row (λ x. x.id == p) s.properties

-- Where the pair is liked already, or the user and the listing are there, a toggle implements the flip of one pair of
-- the set, and answers whether the pair is in it then. Otherwise it fails, and nothing changes.
pub toggle-flip :
    (u p v q : ℕ) (s : Store)
    → let (out, t) = toggle_favorite u p s in
      ((can_toggle u p s ≡ true)
        × (out ≡ ok (liked t u p))
        × (liked t v q ≡ flip u p (liked s) v q))
      ⊎ ((can_toggle u p s ≡ false) × (out ≡ err AppError.reference_missing) × (t ≡ s))
unfolding toggle_favorite liked
toggle-flip u p v q s = elim (Bool-cases (can_toggle u p s)) [
  | inl can ↦
      inl (can, ground (arith, toggled_same u p s.favorites), ground (arith, toggled u p v q s))
  | inr cannot ↦ inr (cannot, ground arith, ground arith)
]
