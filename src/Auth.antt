-- ===== src/Auth.antt =====
-- backend/src/modules/auth/auth.service.ts.
pub mod Recovery
pub mod Guards
pub mod Rotation
pub mod Login
pub mod Reset
mod Tests
use hoyhel.Prelude.{
  ℕ, ◌+◌, ◌*◌, Bool, true, false, not, ◌&&◌, ◌||◌, List, [], ◌∷◌, ◌++◌, Option, none, some, ◌==◌,
  ltb, if◌then◌else◌, find_first, exists_row, update_many, Text, text_eq, trim, to_lower_case,
  or_null,
}
use hoyhel.Schema.{
  Store, Env, User, UserSession, RefreshToken, OneTimeToken, UserRoleType, UserStatus, is_guest,
  day_ms,
}
use hoyhel.Service.{
  AppError, Result, Action, ok, err, pure, throw, gets, modify, or_throw, throw_if, ◌>>=◌, ◌>>◌,
}
use hoyhel.Password.{Crypto, JwtPayload, hash_password}
use hoyhel.Bookings.{user_is}
use hoyhel.Moderation.{set_user, end_sessions, revoke, invalidate}

abbrev pub has_email : Text → User → Bool
has_email email u = text_eq u.email email

abbrev pub from_result : {A : Type 0} → Result A → Action A
from_result r s = (r, s)

pub record Registration : Type 0 where
  pub email : Text
  pub password : Text
  pub first_name : Text
  pub last_name : Text
  pub role : Option UserRoleType
  pub phone : Option Text

-- 7 * 24 * 60 * 60 * 1000
abbrev pub week_ms : ℕ
week_ms = 7 * day_ms

abbrev pub new_refresh_token : Env → ℕ → ℕ → ℕ → RefreshToken
new_refresh_token env id user_id token = record {
  id = id;
  user_id = user_id;
  token = token;
  is_revoked = false;
  expires_at = env.now + week_ms;
}

abbrev pub has_token : ℕ → RefreshToken → Bool
has_token token t = t.token == token

abbrev pub token_row_is : ℕ → RefreshToken → Bool
token_row_is id t = t.id == id

-- `prisma.refreshToken.create`: the column `token` is unique.
unfoldable pub create_refresh_token : RefreshToken → Action (Unit {0})
create_refresh_token t = do
  taken ← gets (λ s. exists_row (has_token t.token) s.refresh_tokens)
  throw_if taken AppError.unique_violation
  modify (λ s. record s { refresh_tokens = s.refresh_tokens ++ t ∷ [] })

abbrev new_session : Env → ℕ → ℕ → UserSession
new_session env user_id token = record {
  id = env.uuid 5;
  user_id = user_id;
  token = token;
  is_valid = true;
  expires_at = env.now + week_ms;
}

abbrev pub session_with : ℕ → UserSession → Bool
session_with token t = t.token == token

-- `Promise.all` of the two rows of a login: each is added unless its token is in its table, where the
-- column is unique, and one that is not added fails the request.
unfoldable pub save_login : RefreshToken → UserSession → Action (Unit {0})
save_login t session = do
  token_taken ← gets (λ s. exists_row (has_token t.token) s.refresh_tokens)
  session_taken ← gets (λ s. exists_row (session_with session.token) s.sessions)
  modify (λ s. record s {
    refresh_tokens = if token_taken then s.refresh_tokens else s.refresh_tokens ++ t ∷ [];
    sessions = if session_taken then s.sessions else s.sessions ++ session ∷ [];
  })
  throw_if (token_taken || session_taken) AppError.unique_violation

abbrev pub new_user : Env → Registration → ℕ → User
new_user env d password_hash = record {
  id = env.uuid 0;
  email = trim (to_lower_case d.email);
  password_hash = password_hash;
  first_name = trim d.first_name;
  last_name = trim d.last_name;
  phone = or_null d.phone;
  avatar_url = none;
  bio = none;
  role = UserRoleType.guest;
  status = UserStatus.active;
  is_email_verified = false;
  is_active = true;
  is_suspended = false;
  suspension_reason = none;
  is_blocked = false;
  blocked_reason = none;
  is_banned = false;
  ban_reason = none;
  last_login_at = none;
  created_at = env.now;
}

abbrev pub one_time_token : Env → ℕ → ℕ → OneTimeToken
one_time_token env user_id lifetime = record {
  id = env.uuid 1;
  user_id = user_id;
  token = env.uuid 2;
  expires_at = env.now + lifetime;
  is_used = false;
}

-- `data.role && data.role !== GUEST`
abbrev asks_for_more : Option UserRoleType → Bool
asks_for_more none = false
asks_for_more (some role) = not (is_guest role)

pub record LoginResult : Type 0 where
  pub user : User
  pub access_token : ℕ
  pub refresh_token : ℕ

abbrev pub payload_of : User → JwtPayload
payload_of u = record { user_id = u.id; email = u.email; roles = u.role ∷ [] }

module _ (c : Crypto) where
  -- `register`
  unfoldable pub register : Env → Registration → Action LoginResult
  register env d = do
    throw_if (asks_for_more d.role) (
        AppError.forbidden
          "Self-registration is restricted to GUEST. Host accounts must go through onboarding.")
    taken ← gets (λ s. exists_row (has_email (trim (to_lower_case d.email))) s.users)
    throw_if taken (AppError.conflict "An account with this email address already exists")
    password_hash ← from_result (hash_password c (env.random 0) d.password)
    let u = new_user env d password_hash
    modify (λ s. record s {
      users = s.users ++ u ∷ [];
      email_tokens = s.email_tokens ++ one_time_token env u.id day_ms ∷ [];
    })
    create_refresh_token (new_refresh_token env (env.uuid 3) u.id (c.sign_refresh u.id env.now))
    pure (record {
      user = u;
      access_token = c.sign_access (payload_of u) env.now;
      refresh_token = c.sign_refresh u.id env.now;
    })

  abbrev pub note_login : Env → User → User
  note_login env u = record u { last_login_at = some env.now }

  -- `login`
  unfoldable pub login : Env → Text → Text → Action LoginResult
  login env email password = do
    row ← gets (λ s. find_first (has_email (trim (to_lower_case email))) s.users)
    u ← or_throw row (AppError.auth "Invalid email or password")
    throw_if (not u.is_active) (AppError.auth "Account is deactivated. Please contact support.")
    throw_if u.is_suspended (AppError.auth "Account suspended")
    throw_if (not (c.matches password u.password_hash)) (AppError.auth "Invalid email or password")
    modify (set_user u.id (note_login env))
    save_login (new_refresh_token env (env.uuid 3) u.id (c.sign_refresh u.id env.now))
        (new_session env u.id (c.sign_refresh u.id env.now))
    pure (record {
      user = u;
      access_token = c.sign_access (payload_of u) env.now;
      refresh_token = c.sign_refresh u.id env.now;
    })

  -- `refreshTokens`. The user of a token is its row's; the writes are no transaction.
  unfoldable pub refresh_tokens : Env → ℕ → Action (ℕ × ℕ)
  refresh_tokens env token = do
    decoded ←
        or_throw (c.verify_refresh token env.now) (AppError.auth "Invalid or expired refresh token")
    row ← gets (λ s. find_first (has_token token) s.refresh_tokens)
    stored ← or_throw row (AppError.auth "Refresh token revoked or expired")
    throw_if (stored.is_revoked || ltb stored.expires_at env.now)
        (AppError.auth "Refresh token revoked or expired")
    user_row ← gets (λ s. find_first (user_is stored.user_id) s.users)
    u ← or_throw user_row (AppError.internal "every token has its user")
    throw_if (not u.is_active || u.is_suspended) (AppError.auth "Account inactive or suspended")
    modify (λ s. record s {
      refresh_tokens = update_many (token_row_is stored.id) revoke s.refresh_tokens;
    })
    create_refresh_token (new_refresh_token env (env.uuid 3) u.id (c.sign_refresh u.id env.now))
    pure (c.sign_access (payload_of u) env.now, c.sign_refresh u.id env.now)

-- `logout`
unfoldable pub logout : Option ℕ → Store → Store
logout none s = s
logout (some token) s = record s {
  refresh_tokens = update_many (has_token token) revoke s.refresh_tokens;
  sessions = update_many (session_with token) invalidate s.sessions;
}

-- `logoutAll`
unfoldable pub logout_all : ℕ → Store → Store
logout_all user_id s = end_sessions user_id s

-- `getCurrentUser`
unfoldable pub get_current_user : ℕ → Action User
get_current_user user_id = do
  row ← gets (λ s. find_first (user_is user_id) s.users)
  or_throw row (AppError.not_found "User")
