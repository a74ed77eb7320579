-- ===== src/Accounts/Sessions.antt =====
-- A password that is changed, an account that is closed, and what is left of their sessions.
use hoyhel.Prelude.{
  ℕ, ◌≡◌, ap, sym, ◌∙◌, inl, inr, List, [], ◌∷◌, true, false, some, ==_iff, find_first,
  find_first-update_many, find_first-All, update_many, count, All, Option-cases, arith, Text, trim,
  to_lower_case,
}
use hoyhel.Schema.{Store, Env, User}
use hoyhel.Service.{AppError, ok, err, Result-cases}
use hoyhel.Password.{Crypto, hash_password, validate_password_complexity}
use hoyhel.Bookings.{user_is}
use hoyhel.Moderation.{end_sessions, set_user}
use hoyhel.Moderation.Flags.{usable_token_of, valid_session_of, end_sessions_ends}
use hoyhel.Auth.{has_email, login}
use hoyhel.Auth.Login.{login_sound}
use hoyhel.Auth.Recovery.{with_password}
use hoyhel.Accounts.{change_password, deactivate_account, deactivated}

-- What a change of password that returned has established.
pub record IsChanged (c : Crypto) (env : Env) (user_id : ℕ) (old new : Text) (s t : Store)
    : Type 0 where
  pub user : User
  pub found : find_first (user_is user_id) s.users ≡ some user
  pub right : c.matches old user.password_hash ≡ true
  pub strong : validate_password_complexity new ≡ ok tt
  pub after :
      t ≡ end_sessions user_id (set_user user_id (with_password (c.hash (env.random 0) new)) s)

changed :
    (c : Crypto) (env : Env) (user_id : ℕ) (old new : Text) (s : Store)
    → (change_password c env user_id old new s).0 ≡ ok tt
    → IsChanged c env user_id old new s (change_password c env user_id old new s).1
unfolding change_password hash_password
changed c env user_id old new s e = elim (Option-cases (find_first (user_is user_id) s.users)) [
  | inl missing ↦ absurd (ground arith)
  | inr (u, found) ↦ elim (Result-cases (validate_password_complexity new)) [
    | inr (x, weak) ↦ absurd (ground arith)
    | inl (_, strong) ↦ record {
      user = u;
      found = found;
      right = ground arith;
      strong = strong;
      after = ground arith;
    }
  ]
]

-- A change of password that succeeds was given the password of the account, and leaves it no refresh token
-- that is not revoked and no valid session, that of the request included.
pub change_password_ends :
    (c : Crypto) (env : Env) (user_id : ℕ) (old new : Text) (s : Store)
    → (change_password c env user_id old new s).0 ≡ ok tt
    → let t = (change_password c env user_id old new s).1 in
      ((u : User) × (find_first (user_is user_id) s.users ≡ some u)
        × (c.matches old u.password_hash ≡ true))
      × (count (usable_token_of user_id) t.refresh_tokens ≡ 0)
      × (count (valid_session_of user_id) t.sessions ≡ 0)
change_password_ends c env user_id old new s e =
    let w = changed c env user_id old new s e in
    let (tokens, sessions) = end_sessions_ends user_id s in
    (
      (w.user, w.found, w.right),
      ap (λ x. count (usable_token_of user_id) x.refresh_tokens) w.after ∙ tokens,
      ap (λ x. count (valid_session_of user_id) x.sessions) w.after ∙ sessions,
    )

found_set :
    (user_id password_hash : ℕ) (s : Store) (u : User)
    → find_first (user_is user_id) s.users ≡ some u
    → find_first (user_is user_id) (set_user user_id (with_password password_hash) s).users
      ≡ some (with_password password_hash u)
found_set user_id password_hash s u found =
    find_first-update_many (user_is user_id) (with_password password_hash) s.users u (λ x h. h)
      found

-- The new password is the current one: where bcrypt accepts a password against its own hash, a later change
-- that gives the new password succeeds for any password that is complex enough.
pub change_password-twice :
    (c : Crypto) (env later : Env) (user_id : ℕ) (old new third : Text) (s : Store)
    → ((salt : ℕ) (p : Text) → c.matches p (c.hash salt p) ≡ true)
    → (change_password c env user_id old new s).0 ≡ ok tt
    → validate_password_complexity third ≡ ok tt
    → (change_password c later user_id new third (change_password c env user_id old new s).1).0
      ≡ ok tt
unfolding change_password hash_password
change_password-twice c env later user_id old new third s accepts e strong =
    let w = changed c env user_id old new s e in
    let row =
      ap (λ x. find_first (user_is user_id) x.users) w.after
      ∙ found_set user_id (c.hash (env.random 0) new) s w.user w.found in
    ground (arith, accepts (env.random 0) new)

deactivated-All :
    (user_id : ℕ) (us : List User)
    → All (λ u. u.id ≡ user_id → u.is_active ≡ false) (update_many (user_is user_id) deactivated us)
unfolding update_many
deactivated-All user_id [] = tt
deactivated-All user_id (u ∷ us) = (ground (arith, ==_iff u.id user_id), deactivated-All user_id us)

deactivated_store :
    (user_id : ℕ) (s : Store)
    → (deactivate_account user_id s).0 ≡ ok tt
    → (deactivate_account user_id s).1 ≡ end_sessions user_id (set_user user_id deactivated s)
unfolding deactivate_account
deactivated_store user_id s e = elim (Option-cases (find_first (user_is user_id) s.users)) [
  | inl missing ↦ absurd (ground arith)
  | inr (u, found) ↦ ground arith
]

-- A closed account is not entered: after an account is deactivated it has no refresh token that is not revoked
-- and no valid session, and a login with its e-mail address is refused, whatever the password.
pub deactivate_locks :
    (c : Crypto) (later : Env) (user_id : ℕ) (email password : Text) (s : Store) (u : User)
    → (deactivate_account user_id s).0 ≡ ok tt
    → find_first (has_email (trim (to_lower_case email))) (deactivate_account user_id s).1.users
      ≡ some u
    → u.id ≡ user_id
    → let t = (deactivate_account user_id s).1 in
      (count (usable_token_of user_id) t.refresh_tokens ≡ 0)
      × (count (valid_session_of user_id) t.sessions ≡ 0)
      × ((x : AppError) × ((login c later email password t).0 ≡ err x))
deactivate_locks c later user_id email password s u e found same =
    let t = (deactivate_account user_id s).1 in
    let after = deactivated_store user_id s e in
    let (tokens, sessions) = end_sessions_ends user_id s in
    let closed : u.is_active ≡ false =
      find_first-All (λ u. u.id ≡ user_id → u.is_active ≡ false)
        (has_email (trim (to_lower_case email))) (update_many (user_is user_id) deactivated s.users)
        u (deactivated-All user_id s.users)
        (ap (λ x. find_first (has_email (trim (to_lower_case email))) x.users) (sym after) ∙ found)
        same in
    (
      ap (λ x. count (usable_token_of user_id) x.refresh_tokens) after ∙ tokens,
      ap (λ x. count (valid_session_of user_id) x.sessions) after ∙ sessions,
      elim (Result-cases (login c later email password t).0) [
        | inr (x, refused) ↦ (x, refused)
        | inl (r, granted) ↦
            let (known, right, active, free) = login_sound c later email password t r granted in
            absurd (ground arith)
      ],
    )
