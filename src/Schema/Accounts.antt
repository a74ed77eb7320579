-- ===== src/Schema/Accounts.antt =====
-- The rows of prisma/schema.prisma about accounts. Identifiers and tokens are opaque texts that the
-- program only compares: numbers here. Instants are milliseconds since the epoch.
use hoyhel.Prelude.{ℕ, Bool, Option, Text}
use hoyhel.Schema.Enums.{
  UserRoleType, UserStatus, HostApplicationStatus, WarningSeverity, ReportStatus,
}

pub record User : Type 0 where
  pub id : ℕ
  pub email : Text
  pub password_hash : ℕ
  pub first_name : Text
  pub last_name : Text
  pub phone : Option Text
  pub avatar_url : Option Text
  pub bio : Option Text
  pub role : UserRoleType
  pub status : UserStatus
  pub is_email_verified : Bool
  pub is_active : Bool
  pub is_suspended : Bool
  pub suspension_reason : Option Text
  pub is_blocked : Bool
  pub blocked_reason : Option Text
  pub is_banned : Bool
  pub ban_reason : Option Text
  pub last_login_at : Option ℕ
  pub created_at : ℕ

pub record UserSession : Type 0 where
  pub id : ℕ
  pub user_id : ℕ
  pub token : ℕ
  pub is_valid : Bool
  pub expires_at : ℕ

pub record RefreshToken : Type 0 where
  pub id : ℕ
  pub user_id : ℕ
  pub token : ℕ
  pub is_revoked : Bool
  pub expires_at : ℕ

-- EmailVerificationToken and PasswordResetToken have the same columns.
pub record OneTimeToken : Type 0 where
  pub id : ℕ
  pub user_id : ℕ
  pub token : ℕ
  pub expires_at : ℕ
  pub is_used : Bool

pub record HostApplication : Type 0 where
  pub id : ℕ
  pub user_id : ℕ
  pub status : HostApplicationStatus
  pub rejection_reason : Option Text
  pub reviewed_by : Option ℕ
  pub reviewed_at : Option ℕ

pub record UserWarning : Type 0 where
  pub id : ℕ
  pub user_id : ℕ
  pub admin_id : ℕ
  pub reason : Text
  pub severity : WarningSeverity

pub record UserReport : Type 0 where
  pub id : ℕ
  pub reporter_id : ℕ
  pub reported_user_id : ℕ
  pub reason : Text
  pub details : Option Text
  pub status : ReportStatus
  pub admin_notes : Option Text
  pub reviewed_by : Option ℕ
  pub reviewed_at : Option ℕ

-- `resource` is the text that the source gives; `details` is not kept.
pub record AuditLog : Type 0 where
  pub user_id : ℕ
  pub action : Text
  pub resource : Text
  pub resource_id : ℕ
