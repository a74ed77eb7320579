-- ===== src/Worker.antt =====
-- worker/src/processors/bookingExpiry.processor.ts: the job that the worker runs every five minutes.
pub mod Misses
mod Tests
use hoyhel.Prelude.{ℕ, ◌-◌, Bool, true, false, ◌&&◌, some, ltb, update_many, text}
use hoyhel.Schema.{Store, Env, Booking, BookingStatus, hold_ms}

-- `status: PENDING`
abbrev is_plain_pending : BookingStatus → Bool
is_plain_pending BookingStatus.pending = true
is_plain_pending _ = false

-- The `where` of the job; 15 minutes are `hold_ms`.
abbrev pub is_overdue : ℕ → Booking → Bool
is_overdue now b = is_plain_pending b.status && ltb b.created_at (now - hold_ms)

abbrev pub time_out : ℕ → Booking → Booking
time_out now b = record b {
  status = BookingStatus.cancelled;
  cancellation_reason = some (text "Payment window expired (15 minutes limit)");
  cancelled_at = some now;
}

-- `processBookingExpiryJob`
unfoldable pub process_booking_expiry_job : Env → Store → Store
process_booking_expiry_job env s = record s {
  bookings = update_many (is_overdue env.now) (time_out env.now) s.bookings;
}
