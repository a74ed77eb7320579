-- ===== src/Administration.antt =====
-- backend/src/modules/admin/admin.service.ts: the figures and lists that administrators are shown. Money is in
-- cents.
pub mod Lists
pub mod Figures
mod Tests
use hoyhel.Prelude.{
  ℕ, ◌+◌, ◌-◌, ◌/◌, Bool, true, false, not, ◌&&◌, ◌||◌, List, Option, none, some, ◌==◌, leb,
  if◌then◌else◌, length, find_first, find_many, count, sum_by, Text,
}
use hoyhel.Schema.{
  Store, Env, User, Booking, BookingStatus, Property, PropertyStatus, is_host, is_stay,
  is_completed, is_cancelled, is_refunded, is_earning, is_active_booking, is_confirmed,
}
use hoyhel.Service.{AppError, Action, gets, or_throw, ◌>>=◌, ◌>>◌}
use hoyhel.Pricing.{round_div}
use hoyhel.Bookings.{user_is}
use hoyhel.Bookings.Cancel.{update_expired_bookings}

pub record Analytics : Type 0 where
  pub total_users : ℕ
  pub total_hosts : ℕ
  pub total_properties : ℕ
  pub pending_properties : ℕ
  pub total_bookings : ℕ
  pub confirmed_bookings : ℕ
  pub completed_bookings : ℕ
  pub cancelled_bookings : ℕ
  pub refunded_bookings : ℕ
  pub total_revenue : ℕ
  pub platform_fees : ℕ
  pub host_earnings : ℕ
  pub refunded_amount : ℕ
  pub net_platform_revenue : ℕ
  pub audit_logs_count : ℕ

abbrev is_pending_approval : PropertyStatus → Bool
is_pending_approval PropertyStatus.pending_approval = true
is_pending_approval _ = false

unfoldable pub gross_revenue : Store → ℕ
gross_revenue s = sum_by (λ b. b.total_price) (find_many (λ b. is_earning b.status) s.bookings)

unfoldable pub fee_sum : Store → ℕ
fee_sum s = sum_by (λ b. b.service_fee) (find_many (λ b. is_earning b.status) s.bookings)

-- `serviceFee || Math.round(grossRevenue * 0.10 * 100) / 100`
unfoldable pub platform_fees_of : Store → ℕ
unfolding round_div
platform_fees_of s = if fee_sum s == 0 then round_div (gross_revenue s) 10 else fee_sum s

abbrev pub analytics : Store → Analytics
analytics s = record {
  total_users = length s.users;
  total_hosts = count (λ u. is_host u.role) s.users;
  total_properties = length s.properties;
  pending_properties = count (λ p. is_pending_approval p.status) s.properties;
  total_bookings = length s.bookings;
  confirmed_bookings = count (λ b. is_stay b.status) s.bookings;
  completed_bookings = count (λ b. is_completed b.status) s.bookings;
  cancelled_bookings = count (λ b. is_cancelled b.status) s.bookings;
  refunded_bookings = count (λ b. is_refunded b.status) s.bookings;
  total_revenue = gross_revenue s;
  platform_fees = platform_fees_of s;
  host_earnings = gross_revenue s - platform_fees_of s;
  refunded_amount = round_div (sum_by (λ b. b.refunded_amount) s.bookings) 100;
  net_platform_revenue = platform_fees_of s;
  audit_logs_count = length s.audit_logs;
}

-- `getDashboardAnalytics`
unfoldable pub get_dashboard_analytics : Env → Action Analytics
get_dashboard_analytics env = do update_expired_bookings env; gets analytics

abbrev pub booked_by : ℕ → Booking → Bool
booked_by user_id b = b.guest_id == user_id

-- `in: [CONFIRMED, CHECKED_IN, PENDING_PAYMENT]`
abbrev is_ongoing : BookingStatus → Bool
is_ongoing BookingStatus.confirmed = true
is_ongoing BookingStatus.checked_in = true
is_ongoing BookingStatus.pending_payment = true
is_ongoing _ = false

-- `stats`; the listings, of which at most ten are read, are counted as far as they are read.
pub record UserStats : Type 0 where
  pub total_bookings : ℕ
  pub active_bookings : ℕ
  pub completed_bookings : ℕ
  pub total_spent : ℕ
  pub hosted_properties_count : ℕ
  pub warnings_count : ℕ
  pub reports_received_count : ℕ

abbrev at_most_ten : ℕ → ℕ
at_most_ten n = if leb n 10 then n else 10

abbrev pub stats_of : ℕ → Store → UserStats
stats_of user_id s = record {
  total_bookings = count (booked_by user_id) s.bookings;
  active_bookings = count (λ b. b.guest_id == user_id && is_ongoing b.status) s.bookings;
  completed_bookings = count (λ b. b.guest_id == user_id && is_completed b.status) s.bookings;
  total_spent =
      sum_by (λ b. b.total_price)
        (find_many (λ b. b.guest_id == user_id && is_earning b.status) s.bookings);
  hosted_properties_count = at_most_ten (count (λ p. p.host_id == user_id) s.properties);
  warnings_count = count (λ w. w.user_id == user_id) s.warnings;
  reports_received_count = count (λ r. r.reported_user_id == user_id) s.reports;
}

-- `getUserById`: the account and its figures
unfoldable pub get_user_by_id : ℕ → Action (User × UserStats)
get_user_by_id user_id = do
  row ← gets (λ s. find_first (user_is user_id) s.users)
  u ← or_throw row (AppError.not_found "User")
  gets (λ s. (u, stats_of user_id s))
