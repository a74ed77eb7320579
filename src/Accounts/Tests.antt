-- ===== src/Accounts/Tests.antt =====
-- Witnesses and tests for accounts. A hash is the length of the password.
use hoyhel.Prelude.{
  ◌≡◌, refl, [], ◌∷◌, none, some, true, false, ◌==◌, ==_refl, Text, length, text_eq, count,
  find_first, exists_row, update_many, arith, trim, to_lower_case,
}
use hoyhel.Schema.{
  Store, UserSession, RefreshToken, UserRoleType, HostApplication, HostApplicationStatus,
}
use hoyhel.Service.{AppError, ok, err}
use hoyhel.Bookings.{user_is}
use hoyhel.Password.{Crypto, hash_password, validate_password_complexity}
use hoyhel.Moderation.{has_admin_role, with_role}
use hoyhel.Moderation.Flags.{usable_token_of, valid_session_of}
use hoyhel.Auth.{has_email, login}
use hoyhel.Accounts.{
  change_password, deactivate_account, apply_for_host, review_host_application, reviewed,
  application_is,
}
use hoyhel.Accounts.Sessions.{change_password-twice, deactivate_locks}
use hoyhel.Accounts.Applications.{IsSingle, applications-IsSingle, approval_demotes}
use hoyhel.Samples.{env, guest, admin, shop}

abbrev toy : Crypto
toy = record {
  hash = λ salt p. length p;
  matches = λ p h. length p == h;
  sign_access = λ payload now. payload.user_id;
  sign_refresh = λ user_id now. user_id;
  verify_refresh = λ token now. some 2;
}

-- `x`, `Aa1!aaaa` and `Aa1!aaaaa`
abbrev old_password : Text
old_password = 120 ∷ []

abbrev new_password : Text
new_password = 65 ∷ 97 ∷ 49 ∷ 33 ∷ 97 ∷ 97 ∷ 97 ∷ 97 ∷ []

abbrev third_password : Text
third_password = 65 ∷ 97 ∷ 49 ∷ 33 ∷ 97 ∷ 97 ∷ 97 ∷ 97 ∷ 97 ∷ []

abbrev session : UserSession
session = record { id = 70; user_id = 2; token = 71; is_valid = true; expires_at = 1728000903600 }

abbrev token_row : RefreshToken
token_row = record {
  id = 90;
  user_id = 2;
  token = 7;
  is_revoked = false;
  expires_at = 1728000903600;
}

abbrev desk : Store
desk = record shop {
  users = record guest { password_hash = 1 } ∷ admin ∷ [];
  sessions = session ∷ [];
  refresh_tokens = token_row ∷ [];
}

password_changed : (change_password toy env 2 old_password new_password desk).0 ≡ ok tt
unfolding change_password hash_password validate_password_complexity find_first exists_row
password_changed = refl

third_strong : validate_password_complexity third_password ≡ ok tt
unfolding validate_password_complexity exists_row
third_strong = refl

change_password-twice_example :
    (change_password toy env 2 new_password third_password
      (change_password toy env 2 old_password new_password desk).1).0
    ≡ ok tt
change_password-twice_example =
    change_password-twice toy env env 2 old_password new_password third_password desk
      (λ salt p. ==_refl (length p)) password_changed third_strong

closed : (deactivate_account 2 desk).0 ≡ ok tt
unfolding deactivate_account find_first
closed = refl

abbrev mail : Text
mail = 97 ∷ 2 ∷ []

closed_found :
    find_first (has_email (trim (to_lower_case mail))) (deactivate_account 2 desk).1.users
    ≡ some (record guest { password_hash = 1; is_active = false })
unfolding deactivate_account find_first update_many text_eq trim to_lower_case
closed_found = refl

deactivate_locks_example :
    let t = (deactivate_account 2 desk).1 in
    (count (usable_token_of 2) t.refresh_tokens ≡ 0)
    × (count (valid_session_of 2) t.sessions ≡ 0)
    × ((x : AppError) × ((login toy env mail old_password t).0 ≡ err x))
deactivate_locks_example =
    deactivate_locks toy env 2 mail old_password desk
      (record guest { password_hash = 1; is_active = false }) closed closed_found refl

abbrev application : HostApplication
application = record {
  id = 95;
  user_id = 4;
  status = HostApplicationStatus.pending;
  rejection_reason = none;
  reviewed_by = none;
  reviewed_at = none;
}

abbrev applied_shop : Store
applied_shop = record shop { host_applications = application ∷ [] }

one_waits : IsSingle (application ∷ [])
unfolding count
one_waits user_id = ground arith

applications-IsSingle_example :
    IsSingle (apply_for_host env 2 applied_shop).1.host_applications
    × IsSingle (review_host_application env 4 95 true none applied_shop).1.host_applications
applications-IsSingle_example = applications-IsSingle env 2 4 95 true none applied_shop one_waits

application_found : find_first (application_is 95) applied_shop.host_applications ≡ some application
unfolding find_first
application_found = refl

admin_found : find_first (user_is 4) applied_shop.users ≡ some admin
unfolding find_first
admin_found = refl

approval_demotes_example :
    let (out, t) = review_host_application env 4 95 true none applied_shop in
    (out ≡ ok (reviewed env 4 true none application))
    × (find_first (user_is 4) t.users ≡ some (with_role UserRoleType.host admin))
    × (count has_admin_role t.users ≡ 0)
approval_demotes_example =
    approval_demotes env 4 95 none applied_shop application admin application_found admin_found
      (λ h. ground arith, (λ h. ground arith, (λ h. ground arith, (λ _. refl, tt))))
