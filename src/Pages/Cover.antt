-- ===== src/Pages/Cover.antt =====
-- The pages of a list hold its rows, each once and in order.
use hoyhel.Prelude.{
  ℕ, zero, suc, ◌+◌, ◌-◌, ◌*◌, ◌≤◌, ◌≡◌, refl, ap, ◌∙◌, Bool, List, [], ◌∷◌, ◌++◌, Option, none,
  some, length, length-append, take, drop, find_many, count, arith,
}
use Prim.Native.Nat.add
use native.Mathlib.Nat.{zero-add, lt-div-mul-add}
use hoyhel.Pricing.{or_num}
use hoyhel.Pages.{newest_first, insert_by, sort_by, page_of, total_pages_of, paginate}

module _ {ℓ} {A : Type ℓ} where
  pub length-newest_first : (xs : List A) → length (newest_first xs) ≡ length xs
  unfolding newest_first
  length-newest_first [] = refl
  length-newest_first (x ∷ xs) =
      omega (arith, length-append (newest_first xs) (x ∷ []), length-newest_first xs)

  length-insert_by :
      (before : A → A → Bool) (x : A) (xs : List A)
      → length (insert_by before x xs) ≡ suc (length xs)
  length-insert_by before x [] = refl
  length-insert_by before x (y ∷ ys) = ground (arith, length-insert_by before x ys)

  pub length-sort_by :
      (before : A → A → Bool) (xs : List A) → length (sort_by before xs) ≡ length xs
  unfolding sort_by
  length-sort_by before [] = refl
  length-sort_by before (x ∷ xs) =
      omega (arith, length-insert_by before x (sort_by before xs), length-sort_by before xs)

  pub length-find_many : (p : A → Bool) (xs : List A) → length (find_many p xs) ≡ count p xs
  unfolding find_many count
  length-find_many p [] = refl
  length-find_many p (x ∷ xs) = ground (arith, length-find_many p xs)

  take_all : (n : ℕ) (xs : List A) → length xs ≤ n → take n xs ≡ xs
  take_all zero [] h = refl
  take_all zero (x ∷ xs) h = absurd (omega (arith, h))
  take_all (suc n) [] h = refl
  take_all (suc n) (x ∷ xs) h = ap (◌∷◌ x) (take_all n xs (omega (arith, h)))

  take_append : (m n : ℕ) (xs : List A) → take m xs ++ take n (drop m xs) ≡ take (m + n) xs
  take_append zero n xs = rw zero-add
  take_append (suc m) zero [] = rw (add.suc m zero)
  take_append (suc m) (suc n) [] = rw (add.suc m (suc n))
  take_append (suc m) n (x ∷ xs) = rw (add.suc m n) (ap (◌∷◌ x) (take_append m n xs))

  -- The first pages, one after the other.
  unfoldable pub first_pages : (ℕ → List A) → ℕ → List A
  first_pages page zero = []
  first_pages page (suc n) = first_pages page n ++ page (suc n)

  first_pages-page_of :
      (f : ℕ → List A) (limit : ℕ) (xs : List A)
      → ((n : ℕ) → f (suc n) ≡ page_of limit (suc n) xs)
      → (n : ℕ) → first_pages f n ≡ take (n * limit) xs
  unfolding first_pages page_of
  first_pages-page_of f limit xs h zero =
      let none_yet : 0 * limit ≡ 0 = omega arith in rw none_yet refl
  first_pages-page_of f limit xs h (suc n) =
      let before : (suc n - 1) * limit ≡ n * limit = ap (λ k. k * limit) (omega arith) in
      let after : suc n * limit ≡ n * limit + limit = omega arith in
      rw (first_pages-page_of f limit xs h n, h n, before, after) (take_append (n * limit) limit xs)

given_one : (limit : Option ℕ) (standard : ℕ) → 1 ≤ standard → 1 ≤ or_num limit standard
given_one none standard h = h
given_one (some zero) standard h = h
given_one (some (suc n)) standard h = omega arith

covered : (limit total : ℕ) → 1 ≤ limit → total ≤ total_pages_of limit total * limit
unfolding total_pages_of
covered limit total h = omega (arith, lt-div-mul-add {a = total + (limit - 1)} {b = limit} h)

module _ {ℓ} {A : Type ℓ} (standard : ℕ) (limit : Option ℕ) (p : A → Bool)
    (ordered : List A → List A) (xs : List A) where
  -- The pages up to the last that is announced hold every row that passes, in the order asked for.
  pub paginate-all :
      1 ≤ standard
      → ((ys : List A) → length (ordered ys) ≡ length ys)
      → first_pages
          (λ k. (paginate standard (some k) limit p ordered xs).rows)
          (paginate standard none limit p ordered xs).total_pages
        ≡ ordered (find_many p xs)
  unfolding paginate
  paginate-all one same =
      let all = ordered (find_many p xs) in
      let width = or_num limit standard in
      let size : length all ≡ count p xs = same (find_many p xs) ∙ length-find_many p xs in
      first_pages-page_of (λ k. (paginate standard (some k) limit p ordered xs).rows) width all
        (λ n. refl) (total_pages_of width (count p xs))
      ∙ take_all (total_pages_of width (count p xs) * width) all
          (omega (arith, size, covered width (count p xs) (given_one limit standard one)))
