-- ===== src/Administration/Lists/More.antt =====
-- backend/src/modules/admin/admin.service.ts: reports, listings, applications and the audit log.
use hoyhel.Prelude.{
  ℕ, Bool, true, false, ◌&&◌, ◌||◌, List, Option, none, some, ◌==◌, leb, find_many, count, sum_by,
  map, same, Text, contains_insensitive,
}
use hoyhel.Schema.{
  Store, Env, Booking, BookingStatus, Property, PropertyStatus, UserReport, ReportStatus,
  HostApplication, HostApplicationStatus, AuditLog, ReportStatus-discrete, PropertyStatus-discrete,
  HostApplicationStatus-discrete, is_completed, is_removal_requested,
}
use hoyhel.Pages.{Page, newest_first, sort_by, paginate}
use hoyhel.Administration.Lists.{when_given, when_searched, of_row, holder}

pub record ReportQuery : Type 0 where
  pub status : Option ReportStatus
  pub search : Option Text
  pub page : Option ℕ
  pub limit : Option ℕ

abbrev mentions : Text → Option Text → Bool
mentions q none = false
mentions q (some details) = contains_insensitive q details

abbrev pub report_matches : Store → Text → UserReport → Bool
report_matches s q r =
    contains_insensitive q r.reason
    || mentions q r.details
    || of_row (holder r.reporter_id s) (λ u. contains_insensitive q u.email)
    || of_row (holder r.reported_user_id s) (λ u. contains_insensitive q u.email)

unfoldable pub report_where : ReportQuery → Store → UserReport → Bool
report_where q s r =
    when_given q.status (same ReportStatus-discrete r.status)
    && when_searched q.search (λ t. report_matches s t r)

-- `getUserReports`
unfoldable pub get_user_reports : ReportQuery → Store → Page UserReport
get_user_reports q s = paginate 20 q.page q.limit (report_where q s) newest_first s.reports

-- A listing whose removal is asked for, with its figures.
pub record RemovalRow : Type 0 where
  pub property : Property
  pub upcoming_bookings_count : ℕ
  pub completed_bookings_count : ℕ
  pub total_revenue : ℕ

abbrev is_confirmed_or_pending : BookingStatus → Bool
is_confirmed_or_pending BookingStatus.confirmed = true
is_confirmed_or_pending BookingStatus.pending = true
is_confirmed_or_pending _ = false

abbrev pub upcoming_at : ℕ → ℕ → Booking → Bool
upcoming_at now property_id b =
    b.property_id == property_id && is_confirmed_or_pending b.status && leb now b.check_out

abbrev pub completed_at : ℕ → Booking → Bool
completed_at property_id b = b.property_id == property_id && is_completed b.status

abbrev pub removal_row : Env → Store → Property → RemovalRow
removal_row env s p = record {
  property = p;
  upcoming_bookings_count = count (upcoming_at env.now p.id) s.bookings;
  completed_bookings_count = count (completed_at p.id) s.bookings;
  total_revenue = sum_by (λ b. b.total_price) (find_many (completed_at p.id) s.bookings);
}

-- `removalRequestedAt: 'desc'`: nulls come first.
abbrev pub asked_later : Property → Property → Bool
asked_later p q = elim p.removal_requested_at [
  | none ↦ true
  | some a ↦ elim q.removal_requested_at [ none ↦ false | some b ↦ leb b a ]
]

-- `getRemovalRequests`
unfoldable pub get_removal_requests : Env → Option ℕ → Option ℕ → Store → Page RemovalRow
get_removal_requests env page limit s =
    let found =
      paginate 20 page limit (λ p. is_removal_requested p.status) (sort_by asked_later)
        s.properties in
    record {
      rows = map (removal_row env s) found.rows;
      total = found.total;
      page = found.page;
      total_pages = found.total_pages;
    }

-- `getAdminProperties`
unfoldable pub get_admin_properties :
    Option PropertyStatus → Option ℕ → Option ℕ → Store → Page Property
get_admin_properties status page limit s =
    paginate 20 page limit (λ p. when_given status (same PropertyStatus-discrete p.status))
      newest_first s.properties

-- `getAuditLogs`
unfoldable pub get_audit_logs : Option ℕ → Option ℕ → Store → Page AuditLog
get_audit_logs page limit s = paginate 20 page limit (λ _. true) newest_first s.audit_logs

-- `getHostApplications`
unfoldable pub get_host_applications : Option HostApplicationStatus → Store → List HostApplication
get_host_applications status s = newest_first (
    find_many (λ a. when_given status (same HostApplicationStatus-discrete a.status))
      s.host_applications)
