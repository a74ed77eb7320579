-- ===== src/Auth/Recovery.antt =====
-- backend/src/modules/auth/auth.service.ts: one-time tokens, for e-mail addresses and for passwords.
use hoyhel.Prelude.{
  ℕ, Bool, true, ◌||◌, [], ◌∷◌, ◌++◌, none, some, ◌==◌, ltb, find_first, update_many, Text,
  to_lower_case,
}
use hoyhel.Schema.{Store, Env, User, OneTimeToken, day_ms}
use hoyhel.Service.{AppError, Action, pure, gets, modify, or_throw, throw_if, ◌>>=◌, ◌>>◌}
use hoyhel.Password.{Crypto, hash_password}
use hoyhel.Bookings.{user_is}
use hoyhel.Moderation.{set_user, end_sessions}
use hoyhel.Auth.{has_email, one_time_token, from_result}

abbrev pub has_secret : ℕ → OneTimeToken → Bool
has_secret token t = t.token == token

abbrev pub one_time_is : ℕ → OneTimeToken → Bool
one_time_is id t = t.id == id

abbrev pub use_up : OneTimeToken → OneTimeToken
use_up t = record t { is_used = true }

-- `!record || record.isUsed || record.expiresAt < new Date()`
abbrev pub is_spent : ℕ → OneTimeToken → Bool
is_spent now t = t.is_used || ltb t.expires_at now

abbrev verified : User → User
verified u = record u { is_email_verified = true }

-- `verifyEmail`
unfoldable pub verify_email : Env → ℕ → Action (Unit {0})
verify_email env token = do
  row ← gets (λ s. find_first (has_secret token) s.email_tokens)
  t ← or_throw row (AppError.validation "Invalid, used, or expired email verification token")
  throw_if (is_spent env.now t)
      (AppError.validation "Invalid, used, or expired email verification token")
  modify (λ s. record s { email_tokens = update_many (one_time_is t.id) use_up s.email_tokens })
  modify (set_user t.user_id verified)

-- `resendVerificationEmail`
unfoldable pub resend_verification_email : Env → ℕ → Action ℕ
resend_verification_email env user_id = do
  row ← gets (λ s. find_first (user_is user_id) s.users)
  u ← or_throw row (AppError.not_found "User")
  throw_if u.is_email_verified (AppError.validation "Email is already verified")
  modify (λ s. record s { email_tokens = s.email_tokens ++ one_time_token env user_id day_ms ∷ [] })
  pure (env.uuid 2)

-- 60 * 60 * 1000
abbrev hour_ms : ℕ
hour_ms = 3600000

-- `forgotPassword`: the answer is the same whether or not the account exists. (In development it also
-- shows the token.)
unfoldable pub forgot_password : Env → Text → Store → Store
forgot_password env email s = elim (find_first (has_email (to_lower_case email)) s.users) [
  | none ↦ s
  | some u ↦ record s { reset_tokens = s.reset_tokens ++ one_time_token env u.id hour_ms ∷ [] }
]

abbrev pub with_password : ℕ → User → User
with_password password_hash u = record u { password_hash = password_hash }

module _ (c : Crypto) where
  -- `resetPassword`
  unfoldable pub reset_password : Env → ℕ → Text → Action (Unit {0})
  reset_password env token new_password = do
    row ← gets (λ s. find_first (has_secret token) s.reset_tokens)
    t ← or_throw row (AppError.validation "Invalid, used, or expired password reset token")
    throw_if (is_spent env.now t)
        (AppError.validation "Invalid, used, or expired password reset token")
    password_hash ← from_result (hash_password c (env.random 0) new_password)
    modify (λ s. record s { reset_tokens = update_many (one_time_is t.id) use_up s.reset_tokens })
    modify (set_user t.user_id (with_password password_hash))
    modify (end_sessions t.user_id)
