-- ===== src/Prelude/Table.antt =====
-- Tables as lists of rows, and the calls of the Prisma client on them: `findFirst`, `findMany`,
-- `count`, `updateMany`, `deleteMany` and `aggregate` with a `where` clause read as a test.
use Prim.Native.Nat.{ℕ, suc, ◌+◌}
use mathlib.Core.Path.{◌≡◌, refl, ap, subst}
use mathlib.Core.Logic.{inl, inr}
use mathlib.Core.Bool.{Bool, true, false}
use mathlib.Core.Option.{Option, none, some}
use mathlib.Core.List.{List, [], ◌∷◌, ◌++◌}
use native.Mathlib.Omega.{arith}
use hoyhel.Prelude.Tests.{if◌then◌else◌, Bool-cases}
use hoyhel.Prelude.Lists.{length, All}

module _ {ℓ} {A : Type ℓ} where
  unfoldable pub find_first : (A → Bool) → List A → Option A
  find_first p [] = none
  find_first p (x ∷ xs) = if p x then some x else find_first p xs

  unfoldable pub find_many : (A → Bool) → List A → List A
  find_many p [] = []
  find_many p (x ∷ xs) = if p x then x ∷ find_many p xs else find_many p xs

  unfoldable pub count : (A → Bool) → List A → ℕ
  count p [] = 0
  count p (x ∷ xs) = (if p x then 1 else 0) + count p xs

  unfoldable pub exists_row : (A → Bool) → List A → Bool
  exists_row p [] = false
  exists_row p (x ∷ xs) = if p x then true else exists_row p xs

  unfoldable pub update_many : (A → Bool) → (A → A) → List A → List A
  update_many p f [] = []
  update_many p f (x ∷ xs) = (if p x then f x else x) ∷ update_many p f xs

  unfoldable pub delete_many : (A → Bool) → List A → List A
  delete_many p [] = []
  delete_many p (x ∷ xs) = if p x then delete_many p xs else x ∷ delete_many p xs

  unfoldable pub sum_by : (A → ℕ) → List A → ℕ
  sum_by f [] = 0
  sum_by f (x ∷ xs) = f x + sum_by f xs

module _ {ℓ} {A : Type ℓ} where
  -- The row that is found passes the test.
  pub find_first_sound :
      (p : A → Bool) (xs : List A) (a : A) → find_first p xs ≡ some a → p a ≡ true
  unfolding find_first
  find_first_sound p [] a h = ground arith
  find_first_sound p (x ∷ xs) a h = ground (arith, find_first_sound p xs a)

  pub find_first-none :
      (p : A → Bool) (xs : List A) → find_first p xs ≡ none → All (λ a. p a ≡ false) xs
  unfolding find_first
  find_first-none p [] h = tt
  find_first-none p (x ∷ xs) h = ground (arith, find_first-none p xs)

  pub exists_row-false :
      (p : A → Bool) (xs : List A) → exists_row p xs ≡ false → All (λ a. p a ≡ false) xs
  unfolding exists_row
  exists_row-false p [] h = tt
  exists_row-false p (x ∷ xs) h = ground (arith, exists_row-false p xs)

  pub exists_row-true :
      (p : A → Bool) (xs : List A) (a : A) → find_first p xs ≡ some a → exists_row p xs ≡ true
  unfolding exists_row find_first
  exists_row-true p [] a h = ground arith
  exists_row-true p (x ∷ xs) a h = ground (arith, exists_row-true p xs a)

  pub count-update_many :
      (q p : A → Bool) (f : A → A) (xs : List A)
      → ((a : A) → p a ≡ true → q (f a) ≡ q a)
      → count q (update_many p f xs) ≡ count q xs
  unfolding count update_many
  count-update_many q p f [] h = refl
  count-update_many q p f (x ∷ xs) h = ground (arith, count-update_many q p f xs h, h x)

  pub count-append : (p : A → Bool) (xs ys : List A) → count p (xs ++ ys) ≡ count p xs + count p ys
  unfolding count
  count-append p [] ys = omega arith
  count-append p (x ∷ xs) ys = omega (arith, count-append p xs ys)

  pub length-update_many :
      (p : A → Bool) (f : A → A) (xs : List A) → length (update_many p f xs) ≡ length xs
  unfolding update_many
  length-update_many p f [] = refl
  length-update_many p f (x ∷ xs) = ap suc (length-update_many p f xs)

  -- An update whose rows then fail a test leaves none that pass it.
  pub count-update_many_zero :
      (q : A → Bool) (p : A → Bool) (f : A → A) (xs : List A)
      → ((a : A) → p a ≡ true → q (f a) ≡ false)
      → ((a : A) → p a ≡ false → q a ≡ false)
      → count q (update_many p f xs) ≡ 0
  unfolding count update_many
  count-update_many_zero q p f [] h k = refl
  count-update_many_zero q p f (x ∷ xs) h k =
      ground (arith, count-update_many_zero q p f xs h k, h x, k x)

module _ {ℓ κ} {A : Type ℓ} (P : A → Type κ) where
  pub All-update_many :
      (p : A → Bool) (f : A → A) (xs : List A)
      → ((a : A) → P a → p a ≡ true → P (f a))
      → All P xs
      → All P (update_many p f xs)
  unfolding update_many
  All-update_many p f [] k h = tt
  All-update_many p f (x ∷ xs) k (h, hs) = elim (Bool-cases (p x)) [
    | inl e ↦ rw e (k x h e, All-update_many p f xs k hs)
    | inr e ↦ rw e (h, All-update_many p f xs k hs)
  ]

  pub All-append : (xs ys : List A) → All P xs → All P ys → All P (xs ++ ys)
  All-append [] ys h k = k
  All-append (x ∷ xs) ys (h, hs) k = (h, All-append xs ys hs k)

  pub All-map {μ} : (Q : A → Type μ) (xs : List A) → ((a : A) → P a → Q a) → All P xs → All Q xs
  All-map Q [] k h = tt
  All-map Q (x ∷ xs) k (h, hs) = (k x h, All-map Q xs k hs)

  -- What holds of every row holds of the one that is found.
  pub find_first-All :
      (p : A → Bool) (xs : List A) (a : A) → All P xs → find_first p xs ≡ some a → P a
  unfolding find_first
  find_first-All p [] a hs h = cc
  find_first-All p (x ∷ xs) a (h, hs) e = elim (Bool-cases (p x)) [
    | inl yes_x ↦ subst P (ground arith) h
    | inr no_x ↦ find_first-All p xs a hs (ground arith)
  ]
