-- ===== src/Auth/Tests.antt =====
-- Witnesses and tests for logins and tokens. The functions of bcryptjs and jsonwebtoken are played by
-- a hash that is the length of the password and by tokens that number the user and the time.
use hoyhel.Prelude.{
  ◌≡◌, ◌+◌, ◌*◌, ◌/◌, refl, true, false, [], ◌∷◌, none, some, ◌==◌, ==_refl, length, exists_row,
  find_first, update_many, Text, text_eq, trim, to_lower_case, or_null,
}
use hoyhel.Schema.{Store, Env, User, RefreshToken, OneTimeToken}
use hoyhel.Service.{AppError, ok, err}
use hoyhel.Password.{Crypto, hash_password, validate_password_complexity}
use hoyhel.Bookings.{user_is}
use hoyhel.Auth.{
  has_email, has_token, session_with, LoginResult, Registration, register, login,
  create_refresh_token, refresh_tokens,
}
use hoyhel.Auth.Recovery.{reset_password}
use hoyhel.Auth.Rotation.{refresh_once}
use hoyhel.Auth.Login.{login_sound, login_grants, register-login}
use hoyhel.Auth.Reset.{reset_password_once}
use hoyhel.Samples.{env, guest, shop}

abbrev toy : Crypto
toy = record {
  hash = λ salt p. length p;
  matches = λ p h. length p == h;
  sign_access = λ payload now. payload.user_id;
  sign_refresh = λ user_id now. 10 * (now / 1000) + user_id;
  verify_refresh = λ token now. some 2;
}

abbrev token_row : RefreshToken
token_row = record {
  id = 90;
  user_id = 2;
  token = 7;
  is_revoked = false;
  expires_at = 1728000103600;
}

abbrev token_shop : Store
token_shop = record shop { refresh_tokens = token_row ∷ [] }

refreshed : (refresh_tokens toy env 7 token_shop).0 ≡ ok (2, 17280000032)
unfolding refresh_tokens create_refresh_token find_first exists_row update_many
refreshed = refl

refresh_once_example :
    (x : AppError) × (refresh_tokens toy env 7 (refresh_tokens toy env 7 token_shop).1
      ≡ (err x, (refresh_tokens toy env 7 token_shop).1))
refresh_once_example = refresh_once toy env env 7 token_shop (2, 17280000032) refreshed

-- The token that was issued in the same second.
abbrev fresh_row : RefreshToken
fresh_row = record token_row { token = 17280000032 }

abbrev fresh_shop : Store
fresh_shop = record shop { refresh_tokens = fresh_row ∷ [] }

fresh_found : find_first (has_token 17280000032) fresh_shop.refresh_tokens ≡ some fresh_row
unfolding find_first
fresh_found = refl

guest_found : find_first (user_is 2) fresh_shop.users ≡ some guest
unfolding find_first
guest_found = refl

row_found : find_first (has_token 7) token_shop.refresh_tokens ≡ some token_row
unfolding find_first
row_found = refl

-- The sample guest's address is `a` and the character 2; the hash of the password is its length, 42.
abbrev mail : Text
mail = 97 ∷ 2 ∷ []

abbrev easy_guest : User
easy_guest = record guest { password_hash = 1; is_blocked = true }

abbrev easy_shop : Store
easy_shop = record shop { users = easy_guest ∷ [] }

easy_found : find_first (has_email (trim (to_lower_case mail))) easy_shop.users ≡ some easy_guest
unfolding find_first trim to_lower_case text_eq
easy_found = refl

easy_fits : toy.matches (65 ∷ []) 1 ≡ true
easy_fits = refl

no_token : exists_row (has_token (toy.sign_refresh 2 env.now)) easy_shop.refresh_tokens ≡ false
unfolding exists_row
no_token = refl

no_session : exists_row (session_with (toy.sign_refresh 2 env.now)) easy_shop.sessions ≡ false
unfolding exists_row
no_session = refl

abbrev easy_login : LoginResult
easy_login = record { user = easy_guest; access_token = 2; refresh_token = 17280000032 }

-- The account is blocked, and its login is granted.
blocked_granted : (login toy env mail (65 ∷ []) easy_shop).0 ≡ ok easy_login
blocked_granted =
    login_grants toy env mail (65 ∷ []) easy_shop easy_guest easy_found easy_fits refl refl no_token
      no_session

login_sound_example :
    (find_first (has_email (trim (to_lower_case mail))) easy_shop.users ≡ some easy_guest)
    × (toy.matches (65 ∷ []) 1 ≡ true)
    × (easy_guest.is_active ≡ true)
    × (easy_guest.is_suspended ≡ false)
login_sound_example = login_sound toy env mail (65 ∷ []) easy_shop easy_login blocked_granted

-- Passw0rd!
abbrev password : Text
password = 80 ∷ 97 ∷ 115 ∷ 115 ∷ 119 ∷ 48 ∷ 114 ∷ 100 ∷ 33 ∷ []

abbrev registration : Registration
registration = record {
  email = 65 ∷ 98 ∷ [];
  password = password;
  first_name = 65 ∷ [];
  last_name = 66 ∷ [];
  role = none;
  phone = none;
}

abbrev registered_user : User
registered_user = record guest {
  id = 900;
  email = 97 ∷ 98 ∷ [];
  password_hash = 9;
  is_email_verified = false;
  created_at = 1728000003600;
}

abbrev registered : LoginResult
registered = record { user = registered_user; access_token = 900; refresh_token = 17280000930 }

register_run : (register toy env registration shop).0 ≡ ok registered
unfolding register create_refresh_token hash_password validate_password_complexity exists_row trim
    to_lower_case text_eq or_null
register_run = refl

-- The next day.
abbrev tomorrow : Env
tomorrow = record env { now = 1728086403600 }

no_such_token :
    exists_row
      (has_token (toy.sign_refresh 900 tomorrow.now))
      (register toy env registration shop).1.refresh_tokens
    ≡ false
unfolding register create_refresh_token hash_password validate_password_complexity exists_row trim
    to_lower_case text_eq or_null
no_such_token = refl

no_such_session :
    exists_row
      (session_with (toy.sign_refresh 900 tomorrow.now))
      (register toy env registration shop).1.sessions
    ≡ false
unfolding register create_refresh_token hash_password validate_password_complexity exists_row trim
    to_lower_case text_eq
no_such_session = refl

register-login_example :
    (login toy tomorrow (65 ∷ 98 ∷ []) password (register toy env registration shop).1).0
    ≡ ok (record { user = registered_user; access_token = 900; refresh_token = 17280864930 })
register-login_example =
    register-login toy env tomorrow registration shop registered (λ salt p. ==_refl (length p))
      register_run no_such_token no_such_session

abbrev secret_row : OneTimeToken
secret_row = record {
  id = 95;
  user_id = 2;
  token = 55;
  expires_at = 1728003603600;
  is_used = false;
}

abbrev secret_shop : Store
secret_shop = record token_shop { reset_tokens = secret_row ∷ [] }

reset_done : (reset_password toy env 55 password secret_shop).0 ≡ ok tt
unfolding reset_password hash_password validate_password_complexity exists_row find_first
reset_done = refl

reset_password_once_example :
    reset_password toy tomorrow 55 (65 ∷ []) (reset_password toy env 55 password secret_shop).1 ≡ (
      err (AppError.validation "Invalid, used, or expired password reset token"),
      (reset_password toy env 55 password secret_shop).1,
    )
reset_password_once_example =
    reset_password_once toy env tomorrow 55 password (65 ∷ []) secret_shop reset_done
