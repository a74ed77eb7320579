-- ===== src/Pages/Rows.antt =====
-- A page holds rows that pass its filter, and no others.
use hoyhel.Prelude.{
  ℕ, zero, suc, ◌-◌, ◌*◌, ◌≡◌, inl, inr, Bool, true, List, [], ◌∷◌, Option, take, drop, find_many,
  All, All-append, Bool-cases,
}
use hoyhel.Pricing.{or_num}
use hoyhel.Pages.{newest_first, insert_by, sort_by, page_of, paginate}

module _ {ℓ κ} {A : Type ℓ} (P : A → Type κ) where
  All-take : (n : ℕ) (xs : List A) → All P xs → All P (take n xs)
  All-take zero xs h = tt
  All-take (suc n) [] h = tt
  All-take (suc n) (x ∷ xs) (h, hs) = (h, All-take n xs hs)

  All-drop : (n : ℕ) (xs : List A) → All P xs → All P (drop n xs)
  All-drop zero xs h = h
  All-drop (suc n) [] h = tt
  All-drop (suc n) (x ∷ xs) (h, hs) = All-drop n xs hs

  pub All-newest_first : (xs : List A) → All P xs → All P (newest_first xs)
  unfolding newest_first
  All-newest_first [] h = tt
  All-newest_first (x ∷ xs) (h, hs) =
      All-append P (newest_first xs) (x ∷ []) (All-newest_first xs hs) (h, tt)

  All-insert_by :
      (before : A → A → Bool) (x : A) (xs : List A) → P x → All P xs → All P (insert_by before x xs)
  All-insert_by before x [] h hs = (h, tt)
  All-insert_by before x (y ∷ ys) h (k, ks) = elim (Bool-cases (before x y)) [
    | inl e ↦ rw e (h, (k, ks))
    | inr e ↦ rw e (k, All-insert_by before x ys h ks)
  ]

  pub All-sort_by : (before : A → A → Bool) (xs : List A) → All P xs → All P (sort_by before xs)
  unfolding sort_by
  All-sort_by before [] h = tt
  All-sort_by before (x ∷ xs) (h, hs) =
      All-insert_by before x (sort_by before xs) h (All-sort_by before xs hs)

  All-find_many :
      (p : A → Bool) (xs : List A) → ((a : A) → p a ≡ true → P a) → All P (find_many p xs)
  unfolding find_many
  All-find_many p [] h = tt
  All-find_many p (x ∷ xs) h = elim (Bool-cases (p x)) [
    | inl e ↦ rw e (h x e, All-find_many p xs h)
    | inr e ↦ rw e (All-find_many p xs h)
  ]

  -- Every row of a page has what the filter grants, if the order keeps it.
  pub All-paginate :
      (standard : ℕ) (page limit : Option ℕ) (p : A → Bool) (ordered : List A → List A)
      (xs : List A)
      → ((ys : List A) → All P ys → All P (ordered ys))
      → ((a : A) → p a ≡ true → P a)
      → All P (paginate standard page limit p ordered xs).rows
  unfolding paginate page_of
  All-paginate standard page limit p ordered xs keep grant =
      All-take (or_num limit standard)
        (drop ((or_num page 1 - 1) * or_num limit standard) (ordered (find_many p xs)))
        (All-drop ((or_num page 1 - 1) * or_num limit standard) (ordered (find_many p xs))
          (keep (find_many p xs) (All-find_many p xs grant)))
