-- ===== src/Auth/Login.antt =====
-- Who can log in, and with which password.
use hoyhel.Prelude.{
  ℕ, ◌≡◌, ap, ◌∙◌, inl, inr, Bool, true, false, List, [], ◌∷◌, ◌++◌, none, some, if◌then◌else◌,
  find_first, find_first-append, exists_row-none, text_eq, text_eq_refl, exists_row, Option-cases,
  arith, Text, trim, to_lower_case,
}
use hoyhel.Schema.{Store, Env, User, UserRoleType}
use hoyhel.Service.{ok, Result-cases}
use hoyhel.Password.{Crypto, hash_password, validate_password_complexity}
use hoyhel.Auth.{
  has_email, has_token, session_with, save_login, payload_of, new_user, create_refresh_token,
  LoginResult, Registration, register, login,
}

-- A login that succeeds names an account with the e-mail address given (in lower case, without spaces
-- around it) and its password, and the account is active and not suspended.
pub login_sound :
    (c : Crypto) (env : Env) (email password : Text) (s : Store) (r : LoginResult)
    → (login c env email password s).0 ≡ ok r
    → (find_first (has_email (trim (to_lower_case email))) s.users ≡ some r.user)
      × (c.matches password r.user.password_hash ≡ true)
      × (r.user.is_active ≡ true)
      × (r.user.is_suspended ≡ false)
unfolding login save_login
login_sound c env email password s r e =
    elim (Option-cases (find_first (has_email (trim (to_lower_case email))) s.users)) [
      | inl missing ↦ absurd (ground arith)
      | inr (u, found) ↦ (ground arith, ground arith, ground arith, ground arith)
    ]

-- A login with the e-mail address and the password of an account that is active and not suspended is
-- granted, also when the account is blocked or banned, unless the
-- refresh token that would be issued is in the table of tokens or of sessions.
pub login_grants :
    (c : Crypto) (env : Env) (email password : Text) (s : Store) (u : User)
    → find_first (has_email (trim (to_lower_case email))) s.users ≡ some u
    → c.matches password u.password_hash ≡ true
    → u.is_active ≡ true
    → u.is_suspended ≡ false
    → exists_row (has_token (c.sign_refresh u.id env.now)) s.refresh_tokens ≡ false
    → exists_row (session_with (c.sign_refresh u.id env.now)) s.sessions ≡ false
    → (login c env email password s).0
      ≡ ok (record {
        user = u;
        access_token = c.sign_access (payload_of u) env.now;
        refresh_token = c.sign_refresh u.id env.now;
      })
unfolding login save_login
login_grants c env email password s u found right active free fresh new = ground arith

-- What a registration that succeeds has added.
register_adds :
    (c : Crypto) (env : Env) (d : Registration) (s : Store) (r : LoginResult)
    → (register c env d s).0 ≡ ok r
    → (exists_row (has_email (trim (to_lower_case d.email))) s.users ≡ false)
      × ((register c env d s).1.users ≡ s.users ++ r.user ∷ [])
      × (r.user ≡ new_user env d (c.hash (env.random 0) d.password))
unfolding register create_refresh_token hash_password
register_adds c env d s r e = elim (Result-cases (validate_password_complexity d.password)) [
  | inl (_, good) ↦ (ground arith, ground arith, ground arith)
  | inr (x, bad) ↦ absurd (ground arith)
]

-- The account that a registration makes is a guest's, whatever role is asked for, with its e-mail
-- address not verified.
pub register_guest :
    (c : Crypto) (env : Env) (d : Registration) (s : Store) (r : LoginResult)
    → (register c env d s).0 ≡ ok r
    → ((register c env d s).1.users ≡ s.users ++ r.user ∷ [])
      × (r.user.role ≡ UserRoleType.guest)
      × (r.user.is_email_verified ≡ false)
register_guest c env d s r e =
    let (_, added, made) = register_adds c env d s r e in
    (added, ap (λ u. u.role) made, ap (λ u. u.is_email_verified) made)

new_found :
    (p : User → Bool) (us : List User) (u : User)
    → exists_row p us ≡ false
    → p u ≡ true
    → find_first p (us ++ u ∷ []) ≡ some u
unfolding find_first
new_found p us u free here =
    find_first-append p us (u ∷ []) (exists_row-none p us free)
    ∙ ap (λ b. if b then some u else none) here

-- After a registration that succeeds, a login with the same e-mail address and password is granted for
-- the new account, if bcrypt accepts a password against its own hash and the refresh token that the
-- login would issue is in neither the table of tokens nor that of sessions.
pub register-login :
    (c : Crypto) (env later : Env) (d : Registration) (s : Store) (r : LoginResult)
    → ((salt : ℕ) (p : Text) → c.matches p (c.hash salt p) ≡ true)
    → (register c env d s).0 ≡ ok r
    → exists_row
        (has_token (c.sign_refresh r.user.id later.now))
        (register c env d s).1.refresh_tokens
      ≡ false
    → exists_row (session_with (c.sign_refresh r.user.id later.now)) (register c env d s).1.sessions
      ≡ false
    → (login c later d.email d.password (register c env d s).1).0
      ≡ ok (record {
        user = r.user;
        access_token = c.sign_access (payload_of r.user) later.now;
        refresh_token = c.sign_refresh r.user.id later.now;
      })
register-login c env later d s r accepts e fresh new =
    let (free, added, made) = register_adds c env d s r e in
    login_grants c later d.email d.password (register c env d s).1 r.user
      (ap (find_first (has_email (trim (to_lower_case d.email)))) added
        ∙ new_found (has_email (trim (to_lower_case d.email))) s.users r.user free (
            ap (λ u. text_eq u.email (trim (to_lower_case d.email))) made
            ∙ text_eq_refl (trim (to_lower_case d.email))))
      (ap (λ u. c.matches d.password u.password_hash) made ∙ accepts (env.random 0) d.password)
      (ap (λ u. u.is_active) made) (ap (λ u. u.is_suspended) made) fresh new
