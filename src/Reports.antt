-- ===== src/Reports.antt =====
-- backend/src/modules/reports/reports.service.ts: a user reports another.
pub mod Filed
mod Tests
use hoyhel.Prelude.{
  ℕ, Bool, List, [], ◌∷◌, ◌++◌, Option, none, some, ◌==◌, find_first, find_many, Text, text, trim,
  is_empty,
}
use hoyhel.Schema.{Store, Env, UserReport, ReportStatus}
use hoyhel.Service.{
  AppError, Action, pure, gets, modify, or_throw, throw_if, transaction, ◌>>=◌, ◌>>◌,
}
use hoyhel.Bookings.{user_is}
use hoyhel.Properties.{add_audit}

-- `data.details ? data.details.trim() : null`
abbrev pub details_of : Option Text → Option Text
details_of none = none
details_of (some []) = none
details_of (some (c ∷ cs)) = some (trim (c ∷ cs))

abbrev pub new_report : Env → ℕ → ℕ → Text → Option Text → UserReport
new_report env reporter_id reported_user_id reason details = record {
  id = env.uuid 0;
  reporter_id = reporter_id;
  reported_user_id = reported_user_id;
  reason = trim reason;
  details = details_of details;
  status = ReportStatus.pending;
  admin_notes = none;
  reviewed_by = none;
  reviewed_at = none;
}

-- `createReport`
unfoldable pub create_report : Env → ℕ → ℕ → Text → Option Text → Action UserReport
create_report env reporter_id reported_user_id reason details = do
  throw_if (reporter_id == reported_user_id)
      (AppError.validation "You cannot submit a report against yourself")
  throw_if (is_empty (trim reason))
      (AppError.validation "A reason must be provided for filing a report")
  row ← gets (λ s. find_first (user_is reported_user_id) s.users)
  u ← or_throw row (AppError.not_found "Reported user does not exist")
  transaction do
    modify (λ s. record s {
      reports = s.reports ++ new_report env reporter_id reported_user_id reason details ∷ [];
    })
    modify (add_audit reporter_id (text "REPORT_SUBMITTED") (text "UserReport") (env.uuid 0))
    pure (new_report env reporter_id reported_user_id reason details)

abbrev pub filed_by : ℕ → UserReport → Bool
filed_by user_id r = r.reporter_id == user_id

-- `getUserSubmittedReports`, in the order of the table
unfoldable pub get_user_submitted_reports : ℕ → Store → List UserReport
get_user_submitted_reports user_id s = find_many (filed_by user_id) s.reports
