-- ===== src/Auth/Reset.antt =====
-- One-time tokens serve once, and a new password ends the sessions of the account.
use hoyhel.Prelude.{
  ℕ, ◌≡◌, refl, ap, ◌∙◌, inl, inr, false, some, if◌then◌else◌, ==_refl, find_first, update_many,
  count, find_first-update_where, Option-cases, arith, Text,
}
use hoyhel.Schema.{Store, Env, OneTimeToken}
use hoyhel.Service.{AppError, ok, err, Result-cases}
use hoyhel.Password.{Crypto, hash_password}
use hoyhel.Moderation.{end_sessions, set_user}
use hoyhel.Moderation.Flags.{usable_token_of, valid_session_of, end_sessions_ends}
use hoyhel.Auth.Recovery.{has_secret, one_time_is, use_up, is_spent, with_password, reset_password}

-- The store after a password is reset with a token.
abbrev reset_with : OneTimeToken → ℕ → Store → Store
reset_with t password_hash s = end_sessions t.user_id (
    set_user t.user_id (with_password password_hash)
      (record s { reset_tokens = update_many (one_time_is t.id) use_up s.reset_tokens }))

reset_password-done :
    (c : Crypto) (env : Env) (token : ℕ) (password : Text) (s : Store)
    → (reset_password c env token password s).0 ≡ ok tt
    → (t : OneTimeToken) × (h : ℕ) × (find_first (has_secret token) s.reset_tokens ≡ some t)
      × (is_spent env.now t ≡ false)
      × ((reset_password c env token password s).1 ≡ reset_with t h s)
unfolding reset_password
reset_password-done c env token password s e =
    elim (Option-cases (find_first (has_secret token) s.reset_tokens)) [
      | inl missing ↦ absurd (ground arith)
      | inr (t, found) ↦ elim (Result-cases (hash_password c (env.random 0) password)) [
        | inl (h, strong) ↦ (t, h, found, ground arith, ground arith)
        | inr (x, weak) ↦ absurd (ground arith)
      ]
    ]

-- A password reset that succeeds leaves the account of its token without a refresh token that is not
-- revoked and without a valid session.
pub reset_password_ends :
    (c : Crypto) (env : Env) (token : ℕ) (password : Text) (s : Store)
    → (reset_password c env token password s).0 ≡ ok tt
    → (t : OneTimeToken) × (find_first (has_secret token) s.reset_tokens ≡ some t)
      × (count (usable_token_of t.user_id) (reset_password c env token password s).1.refresh_tokens
          ≡ 0)
      × (count (valid_session_of t.user_id) (reset_password c env token password s).1.sessions ≡ 0)
reset_password_ends c env token password s e =
    let (t, h, found, fresh, after) = reset_password-done c env token password s e in
    let (tokens, sessions) = end_sessions_ends t.user_id s in
    (
      t,
      found,
      ap (λ x. count (usable_token_of t.user_id) x.refresh_tokens) after ∙ tokens,
      ap (λ x. count (valid_session_of t.user_id) x.sessions) after ∙ sessions,
    )

-- A token resets a password once: after a reset that succeeded, the same token is refused at any later
-- request and whatever the new password, and that request changes nothing.
pub reset_password_once :
    (c : Crypto) (env later : Env) (token : ℕ) (password other : Text) (s : Store)
    → (reset_password c env token password s).0 ≡ ok tt
    → reset_password c later token other (reset_password c env token password s).1 ≡ (
      err (AppError.validation "Invalid, used, or expired password reset token"),
      (reset_password c env token password s).1,
    )
unfolding reset_password
reset_password_once c env later token password other s e =
    let (t, h, found, fresh, after) = reset_password-done c env token password s e in
    let row =
      ap (λ x. find_first (has_secret token) x.reset_tokens) after
      ∙ find_first-update_where (has_secret token) (one_time_is t.id) use_up s.reset_tokens t
          (λ _. refl) found
      ∙ ap (λ b. some (if b then use_up t else t)) (==_refl t.id) in
    ground arith
