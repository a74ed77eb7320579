-- ===== src/Moderation.antt =====
-- backend/src/modules/admin/admin.service.ts: what administrators do to accounts.
pub mod Guards
pub mod Flags
pub mod Demotion
mod Tests
use hoyhel.Prelude.{
  ℕ, Bool, true, false, not, ◌&&◌, ◌||◌, List, [], ◌∷◌, ◌++◌, Option, none, some, ◌==◌, leb,
  if◌then◌else◌, find_first, count, update_many, delete_many, Text, text, or_text, trim, is_empty,
}
use hoyhel.Schema.{
  Store, Env, User, UserSession, RefreshToken, UserRoleType, UserStatus, UserWarning, UserReport,
  ReportStatus, WarningSeverity, HostApplication, HostApplicationStatus, NotificationType,
  NotificationPriority, Event, is_admin,
}
use hoyhel.Service.{AppError, Action, pure, gets, modify, or_throw, throw_if, ◌>>=◌, ◌>>◌}
use hoyhel.Notifications.{new_notification, insert_notification, emit}
use hoyhel.Bookings.{user_is}
use hoyhel.Properties.{add_audit}

pub data ModerationAction : Type 0 where
  suspend unsuspend block unblock ban unban deactivate reactivate : ModerationAction

-- `['SUSPEND', 'BLOCK', 'BAN', 'DEACTIVATE'].includes(action)`
abbrev pub restricts : ModerationAction → Bool
restricts ModerationAction.suspend = true
restricts ModerationAction.block = true
restricts ModerationAction.ban = true
restricts ModerationAction.deactivate = true
restricts _ = false

-- An administrator that is active, and neither suspended nor blocked nor banned.
abbrev pub is_active_admin : User → Bool
is_active_admin u =
    is_admin u.role && u.is_active && not u.is_suspended && not u.is_blocked && not u.is_banned

abbrev after_unsuspend : User → UserStatus
after_unsuspend u =
    if u.is_blocked
    then UserStatus.blocked
    else if u.is_banned
    then UserStatus.banned
    else UserStatus.active

abbrev after_unblock : User → UserStatus
after_unblock u =
    if u.is_suspended
    then UserStatus.suspended
    else if u.is_banned
    then UserStatus.banned
    else UserStatus.active

-- `updateData` of each action. What it reads of the account, it read before the transaction.
abbrev pub moderate : ModerationAction → Option Text → User → User
moderate ModerationAction.suspend reason u = record u {
  is_suspended = true;
  suspension_reason = some (or_text reason (text "Account suspended by administrator"));
  status = UserStatus.suspended;
}
moderate ModerationAction.unsuspend reason u = record u {
  is_suspended = false;
  suspension_reason = none;
  status = after_unsuspend u;
}
moderate ModerationAction.block reason u = record u {
  is_blocked = true;
  blocked_reason = some (or_text reason (text "Account blocked by administrator"));
  status = UserStatus.blocked;
}
moderate ModerationAction.unblock reason u = record u {
  is_blocked = false;
  blocked_reason = none;
  status = after_unblock u;
}
moderate ModerationAction.ban reason u = record u {
  is_active = false;
  is_banned = true;
  ban_reason = some (or_text reason (text "Account permanently banned"));
  status = UserStatus.banned;
}
moderate ModerationAction.unban reason u = record u {
  is_active = true;
  is_banned = false;
  ban_reason = none;
  status = UserStatus.active;
}
moderate ModerationAction.deactivate reason u = record u {
  is_active = false;
  status = UserStatus.deactivated;
}
moderate ModerationAction.reactivate reason u = record u {
  is_active = true;
  is_suspended = false;
  is_blocked = false;
  is_banned = false;
  status = UserStatus.active;
}

abbrev audit_action : ModerationAction → Text
audit_action ModerationAction.suspend = text "USER_SUSPENDED"
audit_action ModerationAction.unsuspend = text "USER_UNSUSPENDED"
audit_action ModerationAction.block = text "USER_BLOCKED"
audit_action ModerationAction.unblock = text "USER_UNBLOCKED"
audit_action ModerationAction.ban = text "USER_BANNED"
audit_action ModerationAction.unban = text "USER_UNBANNED"
audit_action ModerationAction.deactivate = text "USER_DEACTIVATED"
audit_action ModerationAction.reactivate = text "USER_REACTIVATED"

abbrev notice_of : ModerationAction → NotificationType
notice_of ModerationAction.suspend = NotificationType.account_suspended
notice_of ModerationAction.unsuspend = NotificationType.account_reactivated
notice_of ModerationAction.block = NotificationType.account_blocked
notice_of ModerationAction.unblock = NotificationType.account_restored
notice_of ModerationAction.ban = NotificationType.account_banned
notice_of ModerationAction.unban = NotificationType.account_restored
notice_of ModerationAction.deactivate = NotificationType.account_suspended
notice_of ModerationAction.reactivate = NotificationType.account_reactivated

abbrev pub token_of : ℕ → RefreshToken → Bool
token_of user_id t = t.user_id == user_id

abbrev pub session_of : ℕ → UserSession → Bool
session_of user_id t = t.user_id == user_id

abbrev pub revoke : RefreshToken → RefreshToken
revoke t = record t { is_revoked = true }

abbrev pub invalidate : UserSession → UserSession
invalidate t = record t { is_valid = false }

-- The two `updateMany` calls that end every session of an account.
abbrev pub end_sessions : ℕ → Store → Store
end_sessions user_id s = record s {
  refresh_tokens = update_many (token_of user_id) revoke s.refresh_tokens;
  sessions = update_many (session_of user_id) invalidate s.sessions;
}

abbrev pub set_user : ℕ → (User → User) → Store → Store
set_user user_id f s = record s { users = update_many (user_is user_id) f s.users }

abbrev tell_user : Env → ℕ → NotificationType → Store → Store
tell_user env user_id kind s = emit (Event.to_user user_id kind) (
    insert_notification (new_notification env (env.uuid 0) user_id kind NotificationPriority.high)
      s)

-- `updateUserModerationStatus`
unfoldable pub update_user_moderation_status :
    Env → ℕ → ℕ → ModerationAction → Option Text → Action User
update_user_moderation_status env admin_id target_id action reason = do
  throw_if (admin_id == target_id && restricts action)
      (AppError.forbidden "You cannot restrict your own administrator account")
  row ← gets (λ s. find_first (user_is target_id) s.users)
  target ← or_throw row (AppError.not_found "User")
  admins ← gets (λ s. count is_active_admin s.users)
  throw_if (is_admin target.role && restricts action && leb admins 1)
      (AppError.forbidden "Cannot restrict the last active Administrator on the platform")
  modify (set_user target_id (moderate action reason))
  modify (λ s. if restricts action then end_sessions target_id s else s)
  modify (add_audit admin_id (audit_action action) (text "User") target_id)
  modify (tell_user env target_id (notice_of action))
  pure (moderate action reason target)

abbrev user_warning : Env → ℕ → ℕ → Text → Option WarningSeverity → UserWarning
user_warning env admin_id target_id reason severity = record {
  id = env.uuid 1;
  user_id = target_id;
  admin_id = admin_id;
  reason = trim reason;
  severity = elim severity [ none ↦ WarningSeverity.medium | some v ↦ v ];
}

-- `issueUserWarning`
unfoldable pub issue_user_warning : Env → ℕ → ℕ → Text → Option WarningSeverity → Action UserWarning
issue_user_warning env admin_id target_id reason severity = do
  row ← gets (λ s. find_first (user_is target_id) s.users)
  target ← or_throw row (AppError.not_found "User")
  throw_if (is_empty (trim reason))
      (AppError.validation "A reason is required when issuing a user warning")
  let w = user_warning env admin_id target_id reason severity
  modify (λ s. record s { warnings = s.warnings ++ w ∷ [] })
  modify (add_audit admin_id (text "USER_WARNED") (text "User") target_id)
  modify (tell_user env target_id NotificationType.account_warned)
  pure w

abbrev pub report_is : ℕ → UserReport → Bool
report_is report_id r = r.id == report_id

abbrev pub review_report : Env → ℕ → ReportStatus → Option Text → UserReport → UserReport
review_report env admin_id status notes r = record r {
  status = status;
  admin_notes = notes;
  reviewed_by = some admin_id;
  reviewed_at = some env.now;
}

-- `updateReportStatus`
unfoldable pub update_report_status : Env → ℕ → ℕ → ReportStatus → Option Text → Action UserReport
update_report_status env admin_id report_id status notes = do
  row ← gets (λ s. find_first (report_is report_id) s.reports)
  r ← or_throw row (AppError.not_found "UserReport")
  modify (λ s. record s {
    reports = update_many (report_is report_id) (review_report env admin_id status notes) s.reports;
  })
  modify (add_audit admin_id (text "REPORT_UPDATED") (text "UserReport") report_id)
  pure (review_report env admin_id status notes r)

-- The columns that `updateUserStatus` may be given.
pub record StatusUpdate : Type 0 where
  pub is_active : Option Bool
  pub is_suspended : Option Bool
  pub suspension_reason : Option Text

abbrev pub apply_status : StatusUpdate → User → User
apply_status d u = record u {
  is_active = elim d.is_active [ none ↦ u.is_active | some b ↦ b ];
  is_suspended = elim d.is_suspended [ none ↦ u.is_suspended | some b ↦ b ];
  suspension_reason = elim d.suspension_reason [ none ↦ u.suspension_reason | some r ↦ some r ];
}

-- `data.isSuspended || data.isActive === false`
abbrev pub locks_out : StatusUpdate → Bool
locks_out d =
    elim d.is_suspended [ none ↦ false | some b ↦ b ]
    || elim d.is_active [ none ↦ false | some b ↦ not b ]

-- `updateUserStatus`
unfoldable pub update_user_status : ℕ → StatusUpdate → Action User
update_user_status user_id d = do
  row ← gets (λ s. find_first (user_is user_id) s.users)
  u ← or_throw row (AppError.not_found "User")
  modify (set_user user_id (apply_status d))
  modify (λ s. if locks_out d then end_sessions user_id s else s)
  pure (apply_status d u)

-- What `updateUserRole` counts.
abbrev pub is_open_admin : User → Bool
is_open_admin u = is_admin u.role && u.is_active && not u.is_suspended

abbrev pub with_role : UserRoleType → User → User
with_role role u = record u { role = role }

-- `updateUserRole`
unfoldable pub update_user_role : ℕ → ℕ → UserRoleType → Action User
update_user_role admin_id target_id role = do
  row ← gets (λ s. find_first (user_is target_id) s.users)
  target ← or_throw row (AppError.not_found "User")
  admins ← gets (λ s. count is_open_admin s.users)
  throw_if (is_admin target.role && not (is_admin role) && leb admins 1)
      (AppError.forbidden "Cannot demote the last active Administrator on the platform")
  modify (set_user target_id (with_role role))
  pure (with_role role target)

abbrev pub has_admin_role : User → Bool
has_admin_role u = is_admin u.role

-- `deleteUser`. What the foreign keys then delete in other tables is left out.
unfoldable pub delete_user : ℕ → ℕ → Action (Unit {0})
delete_user admin_id target_id = do
  throw_if (admin_id == target_id) (AppError.forbidden "You cannot delete your own admin account")
  row ← gets (λ s. find_first (user_is target_id) s.users)
  target ← or_throw row (AppError.not_found "User")
  admins ← gets (λ s. count has_admin_role s.users)
  throw_if (is_admin target.role && leb admins 1)
      (AppError.forbidden "Cannot delete the last Administrator on the platform")
  modify (λ s. record s { users = delete_many (user_is target_id) s.users })
