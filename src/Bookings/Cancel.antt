-- ===== src/Bookings/Cancel.antt =====
-- backend/src/modules/bookings/booking.service.ts: who may see a booking, completed stays and
-- cancellation. A refund is in hundredths of a cent, for half of an odd number of cents is exact.
use hoyhel.Prelude.{
  ℕ, zero, suc, ◌+◌, ◌-◌, ◌*◌, ◌/◌, Bool, false, not, ◌&&◌, ◌||◌, List, Option, none, some, ltb,
  leb, ◌==◌, if◌then◌else◌, find_first, find_many, count, update_many, exists_row, Text, text,
  or_text,
}
use hoyhel.Schema.{
  Store, Env, Booking, BookingStatus, Payment, CancellationPolicy, NotificationType,
  NotificationPriority, UserRoleType, is_stay, is_cancelled, is_completed, is_admin, is_success,
  day_ms, start_of_day,
}
use hoyhel.Service.{AppError, Action, pure, gets, modify, or_throw, throw_if, ◌>>=◌, ◌>>◌}
use hoyhel.Notifications.{create_notification}
use hoyhel.Bookings.{booking_is, property_is, pays_for}

-- The host of the property that a booking is for.
unfoldable pub host_of : Store → Booking → Option ℕ
host_of s b = elim (find_first (property_is b.property_id) s.properties) [
  | none ↦ none
  | some p ↦ some p.host_id
]

abbrev pub hosts : ℕ → Option ℕ → Bool
hosts user_id none = false
hosts user_id (some host) = host == user_id

-- `getBookingById`
unfoldable pub get_booking_by_id : ℕ → ℕ → List UserRoleType → Action Booking
get_booking_by_id booking_id user_id roles = do
  row ← gets (λ s. find_first (booking_is booking_id) s.bookings)
  b ← or_throw row (AppError.not_found "Booking")
  host ← gets (λ s. host_of s b)
  throw_if
      (not (b.guest_id == user_id) && not (hosts user_id host) && not (exists_row is_admin roles))
      (AppError.forbidden "You are not authorized to view this booking")
  pure b

abbrev pub is_over : ℕ → Booking → Bool
is_over now b = is_stay b.status && ltb b.check_out (start_of_day now)

abbrev pub complete : Booking → Booking
complete b = record b { status = BookingStatus.completed }

-- `updateExpiredBookings`
unfoldable pub update_expired_bookings : Env → Action ℕ
update_expired_bookings env = do
  n ← gets (λ s. count (is_over env.now) s.bookings)
  modify (λ s. record s { bookings = update_many (is_over env.now) complete s.bookings })
  pure n

-- `Math.ceil((checkIn - now) / day)`, which is not positive from the check-in on.
unfoldable pub days_before : ℕ → ℕ → ℕ
days_before check_in now = (check_in - now + (day_ms - 1)) / day_ms

-- The refund in percent.
unfoldable pub refund_percent : CancellationPolicy → ℕ → ℕ
refund_percent CancellationPolicy.flexible d = if leb 1 d then 100 else 50
refund_percent CancellationPolicy.moderate d = if leb 5 d then 100 else if leb 2 d then 50 else 0
refund_percent CancellationPolicy.strict d = if leb 14 d then 100 else if leb 7 d then 50 else 0

abbrev paid : Option Payment → Bool
paid none = false
paid (some p) = is_success p.status

unfoldable pub eligible_refund : Option Payment → ℕ → ℕ → ℕ
eligible_refund payment total_price percent = if paid payment then total_price * percent else 0

abbrev pub cancel : ℕ → Option Text → ℕ → Booking → Booking
cancel now reason refund b = record b {
  status = BookingStatus.cancelled;
  cancellation_reason = some (or_text reason (text "Cancelled by user"));
  cancelled_at = some now;
  refunded_amount = refund;
}

-- `if (eligibleRefund > 0)`
abbrev notify_refund : Env → ℕ → ℕ → Action (Unit {0})
notify_refund env guest_id zero = pure tt
notify_refund env guest_id (suc _) = do
  create_notification env (env.uuid 2) guest_id NotificationType.refund_completed
      NotificationPriority.normal
  pure tt

pub record Cancellation : Type 0 where
  pub booking : Booking
  pub eligible_refund : ℕ
  pub refund_percent : ℕ

-- `cancelBooking`
unfoldable pub cancel_booking : Env → ℕ → ℕ → Option Text → Action Cancellation
cancel_booking env booking_id user_id reason = do
  row ← gets (λ s. find_first (booking_is booking_id) s.bookings)
  b ← or_throw row (AppError.not_found "Booking")
  property_row ← gets (λ s. find_first (property_is b.property_id) s.properties)
  property ← or_throw property_row (AppError.internal "every booking has its property")
  payment ← gets (λ s. find_first (pays_for b.id) s.payments)
  throw_if (not (b.guest_id == user_id) && not (property.host_id == user_id))
      (AppError.forbidden "You cannot cancel this booking")
  throw_if (is_cancelled b.status || is_completed b.status)
      (AppError.validation "Cannot cancel booking in its state")
  let percent = refund_percent property.cancellation_policy (days_before b.check_in env.now)
  let refund = eligible_refund payment b.total_price percent
  modify (λ s. record s {
    bookings = update_many (booking_is booking_id) (cancel env.now reason refund) s.bookings;
  })
  create_notification env (env.uuid 0) b.guest_id NotificationType.booking_cancelled
      NotificationPriority.normal
  create_notification env (env.uuid 1) property.host_id NotificationType.booking_cancelled
      NotificationPriority.normal
  notify_refund env b.guest_id refund
  pure (record {
    booking = cancel env.now reason refund b;
    eligible_refund = refund;
    refund_percent = percent;
  })

-- `role`, by default a guest's
pub data BookingView : Type 0 where
  as_guest as_host : BookingView

abbrev pub viewed_as : BookingView → ℕ → Store → Booking → Bool
viewed_as BookingView.as_guest user_id s b = b.guest_id == user_id
viewed_as BookingView.as_host user_id s b = hosts user_id (host_of s b)

-- `getUserBookings`, in the order of the table, after the stays that are over are completed
unfoldable pub get_user_bookings : Env → ℕ → BookingView → Action (List Booking)
get_user_bookings env user_id view = do
  update_expired_bookings env
  gets (λ s. find_many (viewed_as view user_id s) s.bookings)
