-- ===== src/Bookings.antt =====
-- backend/src/modules/bookings/booking.service.ts. Dates and instants are milliseconds.
pub mod Cancel
pub mod ByAdmin
pub mod FullRefund
mod RefundTests
pub mod Live
pub mod Expiry
pub mod Create
pub mod Reservations
pub mod Given
pub mod Refunds
pub mod Tests
use hoyhel.Prelude.{
  ℕ, zero, suc, ◌+◌, ◌-◌, ◌*◌, ◌/◌, ◌≤◌, max, Bool, true, false, not, ◌&&◌, ◌||◌, List, [], ◌∷◌,
  ◌++◌, Option, none, some, ltb, leb, ◌==◌, if◌then◌else◌, find_first, find_many, count,
  update_many, exists_row, Text, text, or_text, or_null,
}
use hoyhel.Schema.{
  Store, Env, User, Property, Availability, Booking, BookingStatus, Payment, NotificationType,
  NotificationPriority, UserRoleType, is_hold, is_active_booking, is_stay, is_published, is_admin,
  hold_ms, start_of_day,
}
use hoyhel.Service.{
  AppError, Action, pure, gets, modify, or_throw, throw_if, transaction, ◌>>=◌, ◌>>◌,
}
use hoyhel.Notifications.{create_notification}
use hoyhel.Pricing.{PriceBreakdown, calculate_booking_price, or_num}

-- `{ expiresAt: { lt: t } }`: no row without a date.
abbrev pub expires_before : ℕ → Option ℕ → Bool
expires_before t none = false
expires_before t (some e) = ltb e t

-- `OR: [{ expiresAt: null }, { expiresAt: { gt: t } }]`
abbrev pub unexpired : ℕ → Option ℕ → Bool
unexpired t none = true
unexpired t (some e) = ltb t e

abbrev pub pays_for : ℕ → Payment → Bool
pays_for booking_id p = p.booking_id == booking_id

-- The `where` of `expirePendingBookings`.
abbrev pub is_abandoned : ℕ → List Payment → Booking → Bool
is_abandoned now payments b =
    is_hold b.status
    && (expires_before now b.expires_at || ltb b.created_at (now - hold_ms))
    && not (exists_row (pays_for b.id) payments)

abbrev pub expire : ℕ → Booking → Booking
expire now b = record b {
  status = BookingStatus.expired;
  cancellation_reason =
      some (text "Payment timeout - temporary booking hold expired automatically");
  cancelled_at = some now;
}

-- `expirePendingBookings`, which answers the number of rows it changed.
unfoldable pub expire_pending_bookings : Env → Action ℕ
expire_pending_bookings env = do
  n ← gets (λ s. count (is_abandoned env.now s.payments) s.bookings)
  modify (λ s. record s {
    bookings = update_many (is_abandoned env.now s.payments) (expire env.now) s.bookings;
  })
  pure n

-- The body of a request to book. Party sizes are naturals; dates are `none` where they are invalid.
pub record BookingRequest : Type 0 where
  pub property_id : ℕ
  pub check_in : Option ℕ
  pub check_out : Option ℕ
  pub adults_count : Option ℕ
  pub children_count : Option ℕ
  pub infants_count : Option ℕ
  pub pets_count : Option ℕ
  pub guests_count : Option ℕ
  pub special_requests : Option Text
  pub estimated_arrival : Option Text
  pub emergency_name : Option Text
  pub emergency_phone : Option Text
  pub emergency_relation : Option Text
  pub promo_code : Option Text

abbrev pub adults_of : BookingRequest → ℕ
adults_of r = max 1 (or_num r.adults_count (or_num r.guests_count 1))

abbrev pub total_guests_of : BookingRequest → ℕ
total_guests_of r = adults_of r + or_num r.children_count 0

abbrev pub user_is : ℕ → User → Bool
user_is user_id u = u.id == user_id

-- `!isActive || isSuspended || isBlocked || isBanned`
abbrev pub is_restricted : User → Bool
is_restricted u = not u.is_active || u.is_suspended || u.is_blocked || u.is_banned

-- The reason that a restricted account is told.
abbrev pub restriction_reason : User → Text → Text
restriction_reason u standard =
    or_text u.suspension_reason (or_text u.blocked_reason (or_text u.ban_reason standard))

abbrev booking_restriction : Text
booking_restriction =
    text
      "Your account is currently restricted from creating new reservations. Please contact support."

-- `if (!guestUser || …) throw new ForbiddenError(…)`
abbrev require_unrestricted : Option User → Action (Unit {0})
require_unrestricted none = throw_if true (AppError.account_restricted booking_restriction)
require_unrestricted (some u) =
    throw_if (is_restricted u)
      (AppError.account_restricted (restriction_reason u booking_restriction))

abbrev pub property_is : ℕ → Property → Bool
property_is property_id p = p.id == property_id

abbrev pub booking_is : ℕ → Booking → Bool
booking_is booking_id b = b.id == booking_id

-- The `where` of the query for blocked dates. The column is a date, so the bounds are cut to the day.
abbrev pub blocks_stay : ℕ → ℕ → ℕ → Availability → Bool
blocks_stay property_id check_in check_out av =
    av.property_id == property_id
    && leb (start_of_day check_in) av.date
    && ltb av.date (start_of_day check_out)
    && av.is_blocked

-- The `where` of the query for overlapping bookings. The bounds are cut to the day, as the columns are.
abbrev pub overlaps_stay : ℕ → ℕ → ℕ → ℕ → Booking → Bool
overlaps_stay now property_id check_in check_out b =
    b.property_id == property_id
    && is_active_booking b.status
    && unexpired now b.expires_at
    && ltb b.check_in (start_of_day check_out)
    && ltb (start_of_day check_in) b.check_out

abbrev pub has_number : ℕ → Booking → Bool
has_number n b = b.booking_number == n

abbrev comma : Text → Text → Text
comma a b = a ++ text ", " ++ b

-- The row that `tx.booking.create` leaves: the database keeps the day of the two dates.
abbrev pub new_booking : Env → ℕ → BookingRequest → Property → PriceBreakdown → ℕ → ℕ → Booking
new_booking env guest_id r p price check_in check_out = record {
  id = env.uuid 0;
  booking_number = env.random 0;
  property_id = r.property_id;
  guest_id = guest_id;
  property_name = p.title;
  property_address = comma p.address (comma p.city p.country);
  cancellation_policy_snapshot = p.cancellation_policy;
  check_in = start_of_day check_in;
  check_out = start_of_day check_out;
  guests_count = total_guests_of r;
  nights = price.nights;
  nightly_price = price.avg_nightly_price;
  subtotal = price.subtotal;
  cleaning_fee = price.cleaning_fee;
  service_fee = price.service_fee;
  taxes = price.taxes;
  discount = price.discount;
  total_price = price.total_price;
  adults_count = adults_of r;
  children_count = or_num r.children_count 0;
  infants_count = or_num r.infants_count 0;
  pets_count = or_num r.pets_count 0;
  estimated_arrival = or_null r.estimated_arrival;
  emergency_name = or_null r.emergency_name;
  emergency_phone = or_null r.emergency_phone;
  emergency_relation = or_null r.emergency_relation;
  expires_at = some (env.now + hold_ms);
  status = BookingStatus.pending_payment;
  cancellation_reason = none;
  cancelled_at = none;
  refunded_amount = 0;
  special_requests = or_null r.special_requests;
  created_at = env.now;
}

abbrev pub insert_booking : Booking → Store → Store
insert_booking b s = record s { bookings = s.bookings ++ b ∷ [] }

-- The checks of the transaction, in the order of the source: what it reads of the property.
unfoldable pub check_booking : Env → ℕ → BookingRequest → ℕ → ℕ → Action Property
check_booking env guest_id r check_in check_out = do
  row ← gets (λ s. find_first (property_is r.property_id) s.properties)
  property ← or_throw row (AppError.not_found "Property")
  throw_if (not (is_published property.status))
      (AppError.validation "Cannot book a property that is not published")
  guest ← gets (λ s. find_first (user_is guest_id) s.users)
  require_unrestricted guest
  throw_if (property.host_id == guest_id)
      (AppError.forbidden "Hosts cannot book their own properties")
  throw_if (ltb property.max_guests (total_guests_of r))
      (AppError.too_many_guests (total_guests_of r) property.max_guests)
  blocked ← gets (λ s. exists_row (blocks_stay r.property_id check_in check_out) s.availabilities)
  throw_if blocked
      (AppError.conflict "Property is not available for one or more of the selected dates")
  taken ← gets (λ s. exists_row (overlaps_stay env.now r.property_id check_in check_out) s.bookings)
  throw_if taken (AppError.conflict "Property has already been reserved for the selected dates")
  pure property

-- The body of the transaction.
unfoldable pub reserve : Env → ℕ → BookingRequest → PriceBreakdown → ℕ → ℕ → Action Booking
reserve env guest_id r price check_in check_out = do
  property ← check_booking env guest_id r check_in check_out
  let b = new_booking env guest_id r property price check_in check_out
  clash ← gets (λ s. exists_row (has_number b.booking_number) s.bookings)
  throw_if clash AppError.unique_violation
  modify (insert_booking b)
  create_notification env (env.uuid 1) property.host_id NotificationType.booking_created
      NotificationPriority.high
  create_notification env (env.uuid 2) guest_id NotificationType.booking_created
      NotificationPriority.normal
  pure b

-- `createBooking`. The dates are read again from the request, where pricing has accepted them.
unfoldable pub create_booking : Env → ℕ → BookingRequest → Action Booking
create_booking env guest_id r = do
  expire_pending_bookings env
  price ←
      calculate_booking_price env r.property_id r.check_in r.check_out (total_guests_of r)
        r.promo_code
  check_in ← or_throw r.check_in (AppError.validation "Invalid check-in or check-out date format")
  check_out ← or_throw r.check_out (AppError.validation "Invalid check-in or check-out date format")
  transaction (reserve env guest_id r price check_in check_out)
