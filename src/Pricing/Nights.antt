-- ===== src/Pricing/Nights.antt =====
-- The nights of a stay and the sum over them.
use hoyhel.Prelude.{
  ℕ, zero, suc, ◌+◌, ◌-◌, ◌*◌, ◌≤◌, ◌<◌, ◌≡◌, refl, List, [], ◌∷◌, none, All, arith,
}
use hoyhel.Schema.{Property, Availability, day_ms}
use hoyhel.Pricing.{nights_between, add_nights, availability_map, map_get, subtotal_of}

-- A stay has at least one night, its nights reach the check-out, and one night less does not.
pub nights_between_bounds :
    (check_in check_out : ℕ)
    → check_in < check_out
    → let n = nights_between check_in check_out in
      (1 ≤ n) × (check_out ≤ check_in + n * day_ms) × (check_in + (n - 1) * day_ms < check_out)
unfolding nights_between
nights_between_bounds i o h = omega arith

-- Every night costs between the least and the greatest nightly price.
pub add_nights_bounds :
    (cost : ℕ → ℕ) (lo hi n current subtotal : ℕ)
    → ((t : ℕ) → (lo ≤ cost t) × (cost t ≤ hi))
    → (subtotal + n * lo ≤ add_nights cost n current subtotal)
      × (add_nights cost n current subtotal ≤ subtotal + n * hi)
unfolding add_nights
add_nights_bounds cost lo hi zero current subtotal h = omega arith
add_nights_bounds cost lo hi (suc n) current subtotal h = grind (
  arith,
  add_nights_bounds cost lo hi n (current + day_ms) (subtotal + cost current) h,
  h current,
)

abbrev pub NoCustomPrice : Availability → Type 0
NoCustomPrice av = av.custom_price ≡ none

availability_map_plain :
    (avs : List Availability) → All NoCustomPrice avs → availability_map [] avs ≡ []
unfolding availability_map
availability_map_plain [] h = refl
availability_map_plain (av ∷ avs) h = ground (arith, availability_map_plain avs h.1)

-- Without a custom price on any of the dates the subtotal is the nights at the base price.
pub subtotal_of_plain :
    (p : Property) (avs : List Availability) (n check_in : ℕ)
    → All NoCustomPrice avs
    → subtotal_of p avs n check_in ≡ n * p.base_price
unfolding map_get
subtotal_of_plain p avs n check_in h = rw (availability_map_plain avs h) (
    omega (
      arith,
      add_nights_bounds (λ _. p.base_price) p.base_price p.base_price n check_in 0
          (λ _. omega arith),
    ))
