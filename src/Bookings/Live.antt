-- ===== src/Bookings/Live.antt =====
-- Bookings that hold their dates at an instant, and what keeps two of them from overlapping.
use hoyhel.Prelude.{
  ℕ, ◌≤◌, ◌≡◌, inl, inr, Bool, true, false, ◌&&◌, List, [], ◌∷◌, ◌++◌, ltb, ◌==◌, update_many,
  exists_row, exists_row-false, All, All-append, All-map, All-update_many, Bool-cases, arith,
}
use hoyhel.Schema.{Booking, is_active_booking, start_of_day}
use hoyhel.Bookings.{unexpired, overlaps_stay}

-- What the query for overlapping bookings counts: an active status, and no hold that has run out.
abbrev pub is_live : ℕ → Booking → Bool
is_live t b = is_active_booking b.status && unexpired t b.expires_at

abbrev pub share_dates : Booking → Booking → Bool
share_dates a b =
    a.property_id == b.property_id && ltb a.check_in b.check_out && ltb b.check_in a.check_out

-- Two bookings that hold the same dates of one property at an instant.
abbrev pub clash : ℕ → Booking → Booking → Bool
clash t a b = is_live t a && is_live t b && share_dates a b

abbrev pub Apart : ℕ → Booking → Booking → Type 0
Apart t a b = clash t a b ≡ false

-- No two rows clash.
abbrev pub NoClash : ℕ → List Booking → Type 0
NoClash t [] = Unit
NoClash t (b ∷ bs) = All (Apart t b) bs × NoClash t bs

-- A change of a row that may end its hold and neither starts one nor moves it.
pub record Releases (t : ℕ) (f : Booking → Booking) (b : Booking) : Type 0 where
  pub live_before : is_live t (f b) ≡ true → is_live t b ≡ true
  pub same_property : (f b).property_id ≡ b.property_id
  pub same_check_in : (f b).check_in ≡ b.check_in
  pub same_check_out : (f b).check_out ≡ b.check_out

Apart-Releases_right :
    (t : ℕ) (f : Booking → Booking) (a b : Booking) → Releases t f b → Apart t a b → Apart t a (f b)
Apart-Releases_right t f a b r h = ground arith

Apart-Releases_left :
    (t : ℕ) (f : Booking → Booking) (a b : Booking) → Releases t f a → Apart t a b → Apart t (f a) b
Apart-Releases_left t f a b r h = ground arith

-- Releasing rows makes no clash.
pub NoClash-update_many :
    (t : ℕ) (p : Booking → Bool) (f : Booking → Booking) (bs : List Booking)
    → ((b : Booking) → p b ≡ true → Releases t f b)
    → NoClash t bs
    → NoClash t (update_many p f bs)
unfolding update_many
NoClash-update_many t p f [] r h = tt
NoClash-update_many t p f (b ∷ bs) r (h, hs) =
    let rest = NoClash-update_many t p f bs r hs in
    let apart =
      All-update_many (Apart t b) p f bs (λ c k e. Apart-Releases_right t f b c (r c e) k) h in
    elim (Bool-cases (p b)) [
      | inl e ↦ rw e (
        All-map (Apart t b) (Apart t (f b)) (update_many p f bs)
            (λ c k. Apart-Releases_left t f b c (r b e) k) apart,
        rest,
      )
      | inr e ↦ rw e (apart, rest)
    ]

-- A booking that clashes with none may be added.
pub NoClash-append :
    (t : ℕ) (bs : List Booking) (c : Booking)
    → NoClash t bs
    → All (λ b. Apart t b c) bs
    → NoClash t (bs ++ c ∷ [])
NoClash-append t [] c h k = (tt, tt)
NoClash-append t (b ∷ bs) c (h, hs) (k, ks) =
    (All-append (Apart t b) bs (c ∷ []) h (k, tt), NoClash-append t bs c hs ks)

Apart-later : (t u : ℕ) (a b : Booking) → t ≤ u → Apart t a b → Apart u a b
Apart-later t u a b le h = ground arith

-- Time only ends holds.
pub NoClash-later : (t u : ℕ) (bs : List Booking) → t ≤ u → NoClash t bs → NoClash u bs
NoClash-later t u [] le h = tt
NoClash-later t u (b ∷ bs) le (h, hs) = (
  All-map (Apart t b) (Apart u b) bs (λ c k. Apart-later t u b c le k) h,
  NoClash-later t u bs le hs,
)

-- The query finds no overlapping booking: then a stay of the same days clashes with none.
pub Apart-new :
    (t i o : ℕ) (bs : List Booking) (c : Booking)
    → c.check_in ≡ start_of_day i
    → c.check_out ≡ start_of_day o
    → exists_row (overlaps_stay t c.property_id i o) bs ≡ false
    → All (λ b. Apart t b c) bs
Apart-new t i o bs c from to h =
    All-map (λ b. overlaps_stay t c.property_id i o b ≡ false) (λ b. Apart t b c) bs
      (λ b k. ground arith) (exists_row-false (overlaps_stay t c.property_id i o) bs h)
