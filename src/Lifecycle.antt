-- ===== src/Lifecycle.antt =====
-- The requests that change bookings, of backend/src/modules/bookings/booking.service.ts,
-- payments/payments.service.ts and admin/admin.service.ts, and of worker/src/processors/bookingExpiry.processor.ts, as steps of a clock and a store.
pub mod Rows
pub mod Moves
pub mod Paid
pub mod Runs
mod Tests
use hoyhel.Prelude.{ℕ, ◌≤◌, ◌≡◌, true, All, Option, Text}
use hoyhel.Schema.{Store, Env, UserRoleType, is_active_booking}
use hoyhel.Bookings.{BookingRequest, booking_is, create_booking, expire_pending_bookings}
use hoyhel.Bookings.Cancel.{BookingView, get_user_bookings, cancel_booking}
use hoyhel.Bookings.ByAdmin.{cancel_booking_by_admin}
use hoyhel.Worker.{process_booking_expiry_job}
use hoyhel.Payments.{PaymentRequest, process_booking_payment}

-- The booking that is paid for is active: what the code does for others is another theorem.
abbrev pub PaysActive : PaymentRequest → Store → Type 0
PaysActive r s =
    All (λ b. booking_is r.booking_id b ≡ true → is_active_booking b.status ≡ true) s.bookings

-- A request at an instant: what store it leaves. The clock does not run backwards.
pub data Step (env : Env) (s : Store) : Store → Type 0 where
  create : (guest_id : ℕ) (r : BookingRequest) → Step env s (create_booking env guest_id r s).1
  sweep : Step env s (expire_pending_bookings env s).1
  list : (user_id : ℕ) (view : BookingView) → Step env s (get_user_bookings env user_id view s).1
  work : Step env s (process_booking_expiry_job env s)
  cancel :
      (booking_id user_id : ℕ) (reason : Option Text)
      → Step env s (cancel_booking env booking_id user_id reason s).1
  cancel_by_admin :
      (booking_id : ℕ) (reason : Option Text)
      → Step env s (cancel_booking_by_admin env booking_id reason s).1
  pay :
      (user_id : ℕ) (r : PaymentRequest)
      → PaysActive r s
      → Step env s (process_booking_payment env user_id r s).1

-- Requests one after the other, from an instant and a store to a later instant and store.
pub data Run (t : ℕ) (s : Store) : ℕ → Store → Type 0 where
  here : Run t s t s
  next :
      {u : ℕ} {v w : Store}
      → Run t s u v
      → (env : Env) → u ≤ env.now
      → Step env v w
      → Run t s env.now w
