-- ===== src/Accounts.antt =====
-- backend/src/modules/users/user.service.ts: what users do to their own accounts, and the review of their
-- applications, reviewHostApplication of backend/src/modules/admin/admin.service.ts.
pub mod Sessions
pub mod Applications
mod Tests
use hoyhel.Prelude.{
  ℕ, Bool, true, false, not, ◌&&◌, List, [], ◌∷◌, ◌++◌, Option, none, some, ◌==◌, find_first,
  find_many, exists_row, update_many, Text, is_empty, or_null, if◌then◌else◌,
}
use hoyhel.Schema.{
  Store, Env, User, UserSession, UserRoleType, HostApplication, HostApplicationStatus,
  NotificationType, NotificationPriority, is_host, is_application_pending,
}
use hoyhel.Service.{
  AppError, Action, pure, gets, modify, or_throw, throw_if, transaction, ◌>>=◌, ◌>>◌,
}
use hoyhel.Notifications.{new_notification, insert_notification, notify_admins}
use hoyhel.Bookings.{user_is}
use hoyhel.Password.{Crypto, hash_password}
use hoyhel.Moderation.{set_user, end_sessions, invalidate, with_role}
use hoyhel.Moderation.Flags.{valid_session_of}
use hoyhel.Auth.{from_result}
use hoyhel.Auth.Recovery.{with_password}

module _ (c : Crypto) where
  -- `changePassword`
  unfoldable pub change_password : Env → ℕ → Text → Text → Action (Unit {0})
  change_password env user_id current_pass new_pass = do
    row ← gets (λ s. find_first (user_is user_id) s.users)
    u ← or_throw row (AppError.not_found "User")
    throw_if (not (c.matches current_pass u.password_hash))
        (AppError.validation "Current password provided is incorrect")
    password_hash ← from_result (hash_password c (env.random 0) new_pass)
    modify (set_user user_id (with_password password_hash))
    modify (end_sessions user_id)

-- `data` of `updateProfile`; `none` is undefined.
pub record ProfileUpdate : Type 0 where
  pub first_name : Option Text
  pub last_name : Option Text
  pub phone : Option Text
  pub avatar_url : Option Text
  pub bio : Option Text

-- `data.firstName ? { firstName } : {}`
abbrev pub or_kept : Option Text → Text → Text
or_kept none old = old
or_kept (some name) old = if is_empty name then old else name

-- `data.phone !== undefined ? { phone } : {}`
abbrev pub if_given : Option Text → Option Text → Option Text
if_given none old = old
if_given (some v) old = some v

abbrev pub with_profile : ProfileUpdate → User → User
with_profile d u = record u {
  first_name = or_kept d.first_name u.first_name;
  last_name = or_kept d.last_name u.last_name;
  phone = if_given d.phone u.phone;
  avatar_url = if_given d.avatar_url u.avatar_url;
  bio = if_given d.bio u.bio;
}

-- `prisma.user.update`, which wants the row
abbrev pub update_user : ℕ → (User → User) → Action User
update_user user_id f = do
  row ← gets (λ s. find_first (user_is user_id) s.users)
  u ← or_throw row AppError.record_missing
  modify (set_user user_id f)
  pure (f u)

-- `updateProfile`
unfoldable pub update_profile : ℕ → ProfileUpdate → Action User
update_profile user_id d = update_user user_id (with_profile d)

abbrev pub is_pending_of : ℕ → HostApplication → Bool
is_pending_of user_id a = a.user_id == user_id && is_application_pending a.status

abbrev pub new_application : Env → ℕ → HostApplication
new_application env user_id = record {
  id = env.uuid 0;
  user_id = user_id;
  status = HostApplicationStatus.pending;
  rejection_reason = none;
  reviewed_by = none;
  reviewed_at = none;
}

-- `applyForHost`. The descriptive columns of the application are not kept.
unfoldable pub apply_for_host : Env → ℕ → Action HostApplication
apply_for_host env user_id = do
  row ← gets (λ s. find_first (user_is user_id) s.users)
  u ← or_throw row (AppError.not_found "User")
  throw_if (is_host u.role) (AppError.conflict "User is already a registered Host")
  waiting ← gets (λ s. exists_row (is_pending_of user_id) s.host_applications)
  throw_if waiting
      (AppError.conflict "You already have a pending Host onboarding application under review")
  modify (λ s. record s {
    host_applications = s.host_applications ++ new_application env user_id ∷ [];
  })
  notify_admins env 1 NotificationType.host_application_submitted NotificationPriority.high
  pure (new_application env user_id)

-- `getUserSessions`, in the order of the table
unfoldable pub get_user_sessions : ℕ → Store → List UserSession
get_user_sessions user_id s = find_many (valid_session_of user_id) s.sessions

abbrev pub session_is : ℕ → UserSession → Bool
session_is session_id t = t.id == session_id

-- `revokeSession`
unfoldable pub revoke_session : ℕ → ℕ → Action (Unit {0})
revoke_session user_id session_id = do
  row ← gets (λ s. find_first (session_is session_id) s.sessions)
  t ← or_throw row (AppError.not_found "Session")
  throw_if (not (t.user_id == user_id)) (AppError.forbidden "Access denied to session")
  modify (λ s. record s { sessions = update_many (session_is session_id) invalidate s.sessions })

abbrev pub deactivated : User → User
deactivated u = record u { is_active = false }

-- `deactivateAccount`
unfoldable pub deactivate_account : ℕ → Action (Unit {0})
deactivate_account user_id =
    transaction do u ← update_user user_id deactivated; modify (end_sessions user_id)

-- `getProfile`
unfoldable pub get_profile : ℕ → Action User
get_profile user_id = do
  row ← gets (λ s. find_first (user_is user_id) s.users)
  or_throw row (AppError.not_found "User")

abbrev pub application_is : ℕ → HostApplication → Bool
application_is application_id a = a.id == application_id

abbrev pub verdict_of : Bool → HostApplicationStatus
verdict_of is_approved =
    if is_approved then HostApplicationStatus.approved else HostApplicationStatus.rejected

abbrev pub reviewed : Env → ℕ → Bool → Option Text → HostApplication → HostApplication
reviewed env admin_id is_approved rejection_reason a = record a {
  status = verdict_of is_approved;
  rejection_reason = or_null rejection_reason;
  reviewed_by = some admin_id;
  reviewed_at = some env.now;
}

abbrev pub tell_applicant : Env → ℕ → NotificationType → Store → Store
tell_applicant env user_id kind =
    insert_notification (new_notification env (env.uuid 0) user_id kind NotificationPriority.high)

abbrev pub settle_application : Env → ℕ → Bool → Action (Unit {0})
settle_application env user_id true = do
  u ← update_user user_id (with_role UserRoleType.host)
  modify (tell_applicant env user_id NotificationType.host_application_approved)
settle_application env user_id false =
    modify (tell_applicant env user_id NotificationType.host_application_rejected)

-- `reviewHostApplication`
unfoldable pub review_host_application : Env → ℕ → ℕ → Bool → Option Text → Action HostApplication
review_host_application env admin_id application_id is_approved rejection_reason = do
  row ← gets (λ s. find_first (application_is application_id) s.host_applications)
  a ← or_throw row (AppError.not_found "HostApplication")
  transaction do
    modify (λ s. record s {
      host_applications =
          update_many (application_is application_id)
            (reviewed env admin_id is_approved rejection_reason) s.host_applications;
    })
    settle_application env a.user_id is_approved
    pure (reviewed env admin_id is_approved rejection_reason a)
