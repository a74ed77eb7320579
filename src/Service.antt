-- ===== src/Service.antt =====
-- backend/src/utils/errors.ts, and how a service method runs: it reads and writes the store, and it
-- returns or throws. What was written before a throw stays written, but for a transaction's.
use hoyhel.Prelude.{
  ℕ, ◌≡◌, refl, ◌⊎◌, inl, inr, Bool, Option, none, some, Text, if◌then◌else◌, arith,
}
use hoyhel.Schema.{Store}
use Prim.Native.String.{String}

-- Subclasses of `AppError`. Messages that the source interpolates are constructors of their own.
pub data AppError : Type 0 where
  validation : String → AppError
  auth : String → AppError
  forbidden : String → AppError
  not_found : String → AppError
  conflict : String → AppError
  payment : String → AppError
  -- `Guest count (…) exceeds property limit (…)`, a `ValidationError`
  too_many_guests : ℕ → ℕ → AppError
  -- `Booking subtotal must be at least $…`, a `ValidationError`
  below_promo_minimum : ℕ → AppError
  -- `Account Restricted: …`, a `ForbiddenError`
  account_restricted : Text → AppError
  -- P2002 of the Prisma client, which the error handler answers as a conflict
  unique_violation : AppError
  -- P2025 of the Prisma client: the row to change is not there
  record_missing : AppError
  -- P2003 of the Prisma client: a foreign key names no row
  reference_missing : AppError
  -- a plain `Error`
  internal : String → AppError

-- The status code that `errorHandler` answers.
pub status_code : AppError → ℕ
status_code (AppError.validation _) = 400
status_code (AppError.auth _) = 401
status_code (AppError.forbidden _) = 403
status_code (AppError.not_found _) = 404
status_code (AppError.conflict _) = 409
status_code (AppError.payment _) = 402
status_code (AppError.too_many_guests _ _) = 400
status_code (AppError.below_promo_minimum _) = 400
status_code (AppError.account_restricted _) = 403
status_code AppError.unique_violation = 409
status_code AppError.record_missing = 500
status_code AppError.reference_missing = 500
status_code (AppError.internal _) = 500

pub data Result (A : Type 0) : Type 0 where
  ok : A → Result A
  err : AppError → Result A

abbrev pub Action : Type 0 → Type 0
Action A = Store → Result A × Store

module _ {A : Type 0} where
  abbrev pub pure : A → Action A
  pure a s = (ok a, s)

  abbrev pub throw : AppError → Action A
  throw e s = (err e, s)

  abbrev pub gets : (Store → A) → Action A
  gets f s = (ok (f s), s)

  -- `if (!row) throw …`
  abbrev pub or_throw : Option A → AppError → Action A
  or_throw none e = throw e
  or_throw (some a) e = pure a

  -- `prisma.$transaction`: a throw inside undoes what was written inside.
  abbrev pub transaction : Action A → Action A
  transaction m s = let (r, s') = m s in elim r [ ok a ↦ (ok a, s') | err e ↦ (err e, s) ]

abbrev pub modify : (Store → Store) → Action (Unit {0})
modify f s = (ok tt, f s)

-- `if (c) throw e`
abbrev pub throw_if : Bool → AppError → Action (Unit {0})
throw_if c e s = (if c then err e else ok tt, s)

infixl 5 ◌>>=◌ ◌>>◌
abbrev pub ◌>>=◌ : {A B : Type 0} → Action A → (A → Action B) → Action B
◌>>=◌ m f s = let (r, s') = m s in elim r [ ok a ↦ f a s' | err e ↦ (err e, s') ]

abbrev pub ◌>>◌ : {A B : Type 0} → Action A → Action B → Action B
m >> k = m >>= λ _. k

pub Result-cases :
    {A : Type 0} (r : Result A) → ((a : A) × (r ≡ ok a)) ⊎ ((e : AppError) × (r ≡ err e))
Result-cases (ok a) = inl (a, refl)
Result-cases (err e) = inr (e, refl)

pub pair_eq :
    {A : Type 0} (x : Result A × Store) {r : Result A} {s : Store} → x.0 ≡ r → x.1 ≡ s → x ≡ (r, s)
pair_eq x p q = λ i. (p i, q i)

-- A sequence that returns has run its parts.
pub >>=-eq-ok :
    {A B : Type 0} (m : Action A) (f : A → Action B) {s t : Store} {b : B}
    → (m >>= f) s ≡ (ok b, t)
    → (a : A) × (u : Store) × (m s ≡ (ok a, u)) × (f a u ≡ (ok b, t))
>>=-eq-ok m f {s} e = elim (Result-cases (m s).0) [
  | inl (a, h) ↦ (a, (m s).1, pair_eq (m s) h refl, ground arith)
  | inr (x, h) ↦ absurd (ground arith)
]

pub transaction-eq-ok :
    {A : Type 0} (m : Action A) (s t : Store) (a : A)
    → transaction m s ≡ (ok a, t)
    → m s ≡ (ok a, t)
transaction-eq-ok m s t a e = elim (Result-cases (m s).0) [
  | inl (c, h) ↦ pair_eq (m s) (ground arith) (ground arith)
  | inr (x, h) ↦ absurd (ground arith)
]

pub or_throw-eq-ok :
    {A : Type 0} (o : Option A) (x : AppError) (s t : Store) (a : A)
    → or_throw o x s ≡ (ok a, t)
    → (o ≡ some a) × (t ≡ s)
or_throw-eq-ok none x s t a e = absurd (ground arith)
or_throw-eq-ok (some c) x s t a e = (ground arith, ground arith)

pub transaction-ok :
    {A : Type 0} (m : Action A) (s : Store) (a : A)
    → (m s).0 ≡ ok a
    → transaction m s ≡ (ok a, (m s).1)
transaction-ok m s a h = ground arith

pub transaction-err :
    {A : Type 0} (m : Action A) (s : Store) (x : AppError)
    → (m s).0 ≡ err x
    → transaction m s ≡ (err x, s)
transaction-err m s x h = ground arith
