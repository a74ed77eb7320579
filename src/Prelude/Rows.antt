-- ===== src/Prelude/Rows.antt =====
-- How the calls on tables act together: what a search finds after an update, an insertion or a
-- deletion, and what a count says then.
use Prim.Native.Nat.{◌+◌, ◌≤◌}
use mathlib.Core.Path.{◌≡◌, refl}
use mathlib.Core.Logic.{inl, inr}
use mathlib.Core.Bool.{Bool, true, false}
use mathlib.Core.Option.{none, some}
use mathlib.Core.List.{List, [], ◌∷◌, ◌++◌}
use native.Mathlib.Omega.{arith}
use hoyhel.Prelude.Tests.{if◌then◌else◌, Bool-cases}
use hoyhel.Prelude.Table.{find_many, find_first, count, exists_row, update_many, delete_many}

module _ {ℓ} {A : Type ℓ} (p : A → Bool) where
  -- A change that keeps the key changes the row that is found.
  pub find_first-update_many :
      (f : A → A) (xs : List A) (a : A)
      → ((x : A) → p x ≡ true → p (f x) ≡ true)
      → find_first p xs ≡ some a
      → find_first p (update_many p f xs) ≡ some (f a)
  unfolding find_first update_many
  find_first-update_many f [] a k e = ground arith
  find_first-update_many f (x ∷ xs) a k e = ground (arith, k x, find_first-update_many f xs a k)

  pub find_first-append :
      (xs ys : List A) → find_first p xs ≡ none → find_first p (xs ++ ys) ≡ find_first p ys
  unfolding find_first
  find_first-append [] ys e = refl
  find_first-append (x ∷ xs) ys e = ground (arith, find_first-append xs ys)

  pub exists_row-none : (xs : List A) → exists_row p xs ≡ false → find_first p xs ≡ none
  unfolding exists_row find_first
  exists_row-none [] e = refl
  exists_row-none (x ∷ xs) e = ground (arith, exists_row-none xs)

  pub exists_row-some :
      (xs : List A) → exists_row p xs ≡ true → (a : A) × (find_first p xs ≡ some a)
  unfolding exists_row find_first
  exists_row-some [] e = absurd (ground arith)
  exists_row-some (x ∷ xs) e = elim (Bool-cases (p x)) [
    | inl here ↦ (x, ground arith)
    | inr there ↦ let (a, h) = exists_row-some xs (ground arith) in (a, ground arith)
  ]

  pub count-none : (xs : List A) → exists_row p xs ≡ false → count p xs ≡ 0
  unfolding exists_row count
  count-none [] e = refl
  count-none (x ∷ xs) e = ground (arith, count-none xs)

  pub count-delete_many : (xs : List A) → count p (delete_many p xs) ≡ 0
  unfolding count delete_many
  count-delete_many [] = refl
  count-delete_many (x ∷ xs) = ground (arith, count-delete_many xs)

  -- No row passes: an update leaves the table as it is.
  pub update_many-none :
      (f : A → A) (xs : List A) → exists_row p xs ≡ false → update_many p f xs ≡ xs
  unfolding exists_row update_many
  update_many-none f [] e = refl
  update_many-none f (x ∷ xs) e = ground (arith, update_many-none f xs)

  pub count-some : (xs : List A) → exists_row p xs ≡ true → 1 ≤ count p xs
  unfolding exists_row count
  count-some [] e = absurd (ground arith)
  count-some (x ∷ xs) e = ground (arith, count-some xs)

  -- One more row that passes.
  pub count-concat : (xs : List A) (a : A) → p a ≡ true → count p (xs ++ a ∷ []) ≡ count p xs + 1
  unfolding count
  count-concat [] a h = ground arith
  count-concat (x ∷ xs) a h = omega (arith, count-concat xs a h)

  pub find_first-concat :
      (xs : List A) (a : A)
      → exists_row p xs ≡ false
      → p a ≡ true
      → find_first p (xs ++ a ∷ []) ≡ some a
  unfolding find_first exists_row
  find_first-concat [] a e h = ground arith
  find_first-concat (x ∷ xs) a e h = ground (arith, find_first-concat xs a)

module _ {ℓ} {A : Type ℓ} where
  pub exists_row-update_many :
      (q p : A → Bool) (f : A → A) (xs : List A)
      → ((a : A) → p a ≡ true → q (f a) ≡ q a)
      → exists_row q (update_many p f xs) ≡ exists_row q xs
  unfolding exists_row update_many
  exists_row-update_many q p f [] h = refl
  exists_row-update_many q p f (x ∷ xs) h = ground (arith, h x, exists_row-update_many q p f xs h)

  -- An update that makes no row pass.
  pub exists_row-update_many-false :
      (q p : A → Bool) (f : A → A) (xs : List A)
      → ((a : A) → p a ≡ true → q a ≡ false → q (f a) ≡ false)
      → exists_row q xs ≡ false
      → exists_row q (update_many p f xs) ≡ false
  unfolding exists_row update_many
  exists_row-update_many-false q p f [] h e = refl
  exists_row-update_many-false q p f (x ∷ xs) h e =
      ground (arith, h x, exists_row-update_many-false q p f xs h)

  pub count-zero : (p : A → Bool) (xs : List A) → count p xs ≡ 0 → exists_row p xs ≡ false
  unfolding exists_row count
  count-zero p [] e = refl
  count-zero p (x ∷ xs) e = ground (arith, count-zero p xs)

  pub delete_many-none :
      (p : A → Bool) (xs : List A) → exists_row p xs ≡ false → delete_many p xs ≡ xs
  unfolding exists_row delete_many
  delete_many-none p [] e = refl
  delete_many-none p (x ∷ xs) e = ground (arith, delete_many-none p xs)

  -- A change that keeps what is searched for is seen in the row that is found.
  pub find_first-update_where :
      (p q : A → Bool) (f : A → A) (xs : List A) (a : A)
      → ((x : A) → p (f x) ≡ p x)
      → find_first p xs ≡ some a
      → find_first p (update_many q f xs) ≡ some (if q a then f a else a)
  unfolding find_first update_many
  find_first-update_where p q f [] a k e = absurd (ground arith)
  find_first-update_where p q f (x ∷ xs) a k e =
      ground (arith, k x, find_first-update_where p q f xs a k)

  -- What is found stays found when rows are added.
  pub find_first-append_some :
      (p : A → Bool) (xs ys : List A) (a : A)
      → find_first p xs ≡ some a
      → find_first p (xs ++ ys) ≡ some a
  unfolding find_first
  find_first-append_some p [] ys a e = absurd (ground arith)
  find_first-append_some p (x ∷ xs) ys a e = ground (arith, find_first-append_some p xs ys a)

  -- A change and an insertion of rows that are not searched for.
  pub find_first-update_apart :
      (p q : A → Bool) (f : A → A) (xs : List A)
      → ((a : A) → q a ≡ true → p a ≡ false)
      → ((a : A) → q a ≡ true → p (f a) ≡ false)
      → find_first p (update_many q f xs) ≡ find_first p xs
  unfolding find_first update_many
  find_first-update_apart p q f [] h k = refl
  find_first-update_apart p q f (x ∷ xs) h k =
      ground (arith, h x, k x, find_first-update_apart p q f xs h k)

  pub find_first-append_apart :
      (p : A → Bool) (xs : List A) (a : A)
      → p a ≡ false
      → find_first p (xs ++ a ∷ []) ≡ find_first p xs
  unfolding find_first
  find_first-append_apart p [] a h = ground arith
  find_first-append_apart p (x ∷ xs) a h = ground (arith, find_first-append_apart p xs a h)

  pub find_many-append_apart :
      (p : A → Bool) (xs : List A) (a : A)
      → p a ≡ false
      → find_many p (xs ++ a ∷ []) ≡ find_many p xs
  unfolding find_many
  find_many-append_apart p [] a h = ground arith
  find_many-append_apart p (x ∷ xs) a h = ground (arith, find_many-append_apart p xs a h)

  pub count-append_apart :
      (p : A → Bool) (xs : List A) (a : A) → p a ≡ false → count p (xs ++ a ∷ []) ≡ count p xs
  unfolding count
  count-append_apart p [] a h = ground arith
  count-append_apart p (x ∷ xs) a h = ground (arith, count-append_apart p xs a h)
