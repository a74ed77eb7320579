-- ===== src/Auth/Guards.antt =====
-- backend/src/middleware/auth.middleware.ts: who may call a route.
use hoyhel.Prelude.{
  ℕ, ◌≡◌, inl, inr, Bool, true, List, Option, none, some, if◌then◌else◌, exists_row, same,
  Option-cases, Bool-cases, arith,
}
use hoyhel.Schema.{UserRoleType, UserRoleType-discrete}
use hoyhel.Service.{AppError, Result, ok, err}
use hoyhel.Password.{JwtPayload}

-- The token of a header that starts with `Bearer `, which may be empty, and that of the cookie.
pub record Credentials : Type 0 where
  pub bearer : Option (Option ℕ)
  pub cookie : Option ℕ

abbrev pub token_given : Credentials → Option ℕ
token_given c = elim c.bearer [ none ↦ c.cookie | some token ↦ token ]

-- `roles.some((role) => allowedRoles.includes(role))`
abbrev pub has_role : List UserRoleType → List UserRoleType → Bool
has_role allowed roles =
    exists_row (λ role. exists_row (same UserRoleType-discrete role) allowed) roles

-- `requireRoles`, of the user that a request carries
unfoldable pub require_roles : List UserRoleType → Option JwtPayload → Result (Unit {0})
require_roles allowed none = err (AppError.auth "Authentication required")
require_roles allowed (some user) =
    if has_role allowed user.roles
    then ok tt
    else err (AppError.forbidden "Access denied: requires one of the following roles")

-- `verifyAccessToken` of jsonwebtoken, which answers what a good token carries
module _ (verify : ℕ → Option JwtPayload) where
  -- `authenticate`
  unfoldable pub authenticate : Credentials → Result JwtPayload
  authenticate c = elim (token_given c) [
    | none ↦ err (AppError.auth "Authentication token missing")
    | some token ↦ elim (verify token) [
      | none ↦ err (AppError.auth "Invalid or expired authentication token")
      | some payload ↦ ok payload
    ]
  ]

  -- A route that authenticates and then asks for roles.
  unfoldable pub guard : List UserRoleType → Credentials → Result JwtPayload
  guard allowed c = elim (authenticate c) [
    | err x ↦ err x
    | ok user ↦ elim (require_roles allowed (some user)) [ err x ↦ err x | ok _ ↦ ok user ]
  ]

  -- A route that is guarded by roles is entered with a token that was given and is good, and that carries one of
  -- the roles.
  pub guard_sound :
      (allowed : List UserRoleType) (c : Credentials) (user : JwtPayload)
      → guard allowed c ≡ ok user
      → (token : ℕ) × (token_given c ≡ some token)
        × (verify token ≡ some user)
        × (has_role allowed user.roles ≡ true)
  unfolding guard authenticate require_roles
  guard_sound allowed c user e = elim (Option-cases (token_given c)) [
    | inl missing ↦ absurd (ground arith)
    | inr (token, given) ↦ elim (Option-cases (verify token)) [
      | inl bad ↦ absurd (ground arith)
      | inr (payload, good) ↦ elim (Bool-cases (has_role allowed payload.roles)) [
        | inl fit ↦ (token, given, ground arith, ground arith)
        | inr unfit ↦ absurd (ground arith)
      ]
    ]
  ]
