-- ===== src/Lifecycle/Rows.antt =====
-- What may become of the rows of the table of bookings.
use hoyhel.Prelude.{
  ℕ, ◌≡◌, ◌∙◌, inl, inr, Bool, true, List, [], ◌∷◌, ◌++◌, update_many, All, Bool-cases, arith,
}
use hoyhel.Schema.{Booking, is_active_booking}
use hoyhel.Bookings.Live.{Apart, NoClash}

-- A booking keeps whose it is, for what dates of which listing, at what price and until when it holds them, and
-- one that is not active is not active again.
pub record Becomes (b c : Booking) : Type 0 where
  pub same_id : c.id ≡ b.id
  pub same_property : c.property_id ≡ b.property_id
  pub same_guest : c.guest_id ≡ b.guest_id
  pub same_check_in : c.check_in ≡ b.check_in
  pub same_check_out : c.check_out ≡ b.check_out
  pub same_price : c.total_price ≡ b.total_price
  pub same_hold : c.expires_at ≡ b.expires_at
  pub active_before : is_active_booking c.status ≡ true → is_active_booking b.status ≡ true

pub Becomes-refl : (b : Booking) → Becomes b b
Becomes-refl b = ground arith

Becomes-trans : (b c d : Booking) → Becomes b c → Becomes c d → Becomes b d
Becomes-trans b c d h k = record {
  same_id = k.same_id ∙ h.same_id;
  same_property = k.same_property ∙ h.same_property;
  same_guest = k.same_guest ∙ h.same_guest;
  same_check_in = k.same_check_in ∙ h.same_check_in;
  same_check_out = k.same_check_out ∙ h.same_check_out;
  same_price = k.same_price ∙ h.same_price;
  same_hold = k.same_hold ∙ h.same_hold;
  active_before = λ e. h.active_before (k.active_before e);
}

-- Row by row, with rows that are new at the end.
abbrev pub Evolves : List Booking → List Booking → Type 0
Evolves [] cs = Unit
Evolves (b ∷ bs) [] = ⊥
Evolves (b ∷ bs) (c ∷ cs) = Becomes b c × Evolves bs cs

-- Row by row, and no other row.
abbrev pub Pairwise : List Booking → List Booking → Type 0
Pairwise [] [] = Unit
Pairwise [] (c ∷ cs) = ⊥
Pairwise (b ∷ bs) [] = ⊥
Pairwise (b ∷ bs) (c ∷ cs) = Becomes b c × Pairwise bs cs

pub Evolves-trans : (bs cs ds : List Booking) → Evolves bs cs → Evolves cs ds → Evolves bs ds
Evolves-trans [] cs ds h k = tt
Evolves-trans (b ∷ bs) [] ds h k = absurd h
Evolves-trans (b ∷ bs) (c ∷ cs) [] h k = absurd k
Evolves-trans (b ∷ bs) (c ∷ cs) (d ∷ ds) (h, hs) (k, ks) =
    (Becomes-trans b c d h k, Evolves-trans bs cs ds hs ks)

pub Pairwise-refl : (bs : List Booking) → Pairwise bs bs
Pairwise-refl [] = tt
Pairwise-refl (b ∷ bs) = (Becomes-refl b, Pairwise-refl bs)

pub Pairwise-Evolves : (bs cs more : List Booking) → Pairwise bs cs → Evolves bs (cs ++ more)
Pairwise-Evolves [] cs more h = tt
Pairwise-Evolves (b ∷ bs) [] more h = absurd h
Pairwise-Evolves (b ∷ bs) (c ∷ cs) more (h, hs) = (h, Pairwise-Evolves bs cs more hs)

pub Pairwise-Evolves_all : (bs cs : List Booking) → Pairwise bs cs → Evolves bs cs
Pairwise-Evolves_all [] cs h = tt
Pairwise-Evolves_all (b ∷ bs) [] h = absurd h
Pairwise-Evolves_all (b ∷ bs) (c ∷ cs) (h, hs) = (h, Pairwise-Evolves_all bs cs hs)

pub Pairwise-update_many :
    (p : Booking → Bool) (f : Booking → Booking) (bs : List Booking)
    → All (λ b. p b ≡ true → Becomes b (f b)) bs
    → Pairwise bs (update_many p f bs)
unfolding update_many
Pairwise-update_many p f [] h = tt
Pairwise-update_many p f (b ∷ bs) (h, hs) = elim (Bool-cases (p b)) [
  | inl e ↦ rw e (h e, Pairwise-update_many p f bs hs)
  | inr e ↦ rw e (Becomes-refl b, Pairwise-update_many p f bs hs)
]

Apart-Becomes : (t : ℕ) (a b c d : Booking) → Becomes a c → Becomes b d → Apart t a b → Apart t c d
Apart-Becomes t a b c d h k apart = ground arith

Pairwise-Apart :
    (t : ℕ) (a c : Booking) (bs ds : List Booking)
    → Becomes a c
    → Pairwise bs ds
    → All (Apart t a) bs
    → All (Apart t c) ds
Pairwise-Apart t a c [] [] h k apart = tt
Pairwise-Apart t a c [] (d ∷ ds) h k apart = absurd k
Pairwise-Apart t a c (b ∷ bs) [] h k apart = absurd k
Pairwise-Apart t a c (b ∷ bs) (d ∷ ds) h (k, ks) (apart, rest) =
    (Apart-Becomes t a b c d h k apart, Pairwise-Apart t a c bs ds h ks rest)

-- Rows that only change so do not come to clash.
pub Pairwise-NoClash : (t : ℕ) (bs cs : List Booking) → Pairwise bs cs → NoClash t bs → NoClash t cs
Pairwise-NoClash t [] [] h k = tt
Pairwise-NoClash t [] (c ∷ cs) h k = absurd h
Pairwise-NoClash t (b ∷ bs) [] h k = absurd h
Pairwise-NoClash t (b ∷ bs) (c ∷ cs) (h, hs) (k, ks) =
    (Pairwise-Apart t b c bs cs h hs k, Pairwise-NoClash t bs cs hs ks)
