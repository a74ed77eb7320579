-- ===== src/Bookings/Refunds.antt =====
-- What a cancellation refunds, and what it does to the booking.
use hoyhel.Prelude.{
  ℕ, ◌*◌, ◌≤◌, ◌≡◌, ◌⊎◌, true, false, ◌||◌, Option, some, find_first, Text, none, arith,
}
use hoyhel.Schema.{
  Store, Env, Booking, Property, Payment, PaymentStatus, is_success, CancellationPolicy,
  is_cancelled, is_completed,
}
use hoyhel.Service.{AppError, err}
use hoyhel.Bookings.{booking_is, property_is, pays_for}
use hoyhel.Bookings.Cancel.{days_before, refund_percent, eligible_refund, cancel_booking}

days_before_mono :
    (check_in now later : ℕ) → now ≤ later → days_before check_in later ≤ days_before check_in now
unfolding days_before
days_before_mono check_in now later h = omega arith

percents :
    (policy : CancellationPolicy) (d e : ℕ)
    → e ≤ d
    → (refund_percent policy e ≤ refund_percent policy d)
      × (refund_percent policy d ≤ 100)
      × (refund_percent CancellationPolicy.strict d ≤ refund_percent CancellationPolicy.moderate d)
      × (refund_percent CancellationPolicy.moderate d
          ≤ refund_percent CancellationPolicy.flexible d)
unfolding refund_percent
percents CancellationPolicy.flexible d e h = ground arith
percents CancellationPolicy.moderate d e h = ground arith
percents CancellationPolicy.strict d e h = ground arith

-- The part of the price that a policy refunds is at most the whole, never grows as the cancellation comes
-- later, and is under a strict policy at most that under a moderate one, and that at most that under a flexible one.
pub refund_percent_order :
    (policy : CancellationPolicy) (check_in now later : ℕ)
    → now ≤ later
    → (refund_percent policy (days_before check_in later)
        ≤ refund_percent policy (days_before check_in now))
      × (refund_percent policy (days_before check_in now) ≤ 100)
      × (refund_percent CancellationPolicy.strict (days_before check_in now)
          ≤ refund_percent CancellationPolicy.moderate (days_before check_in now))
      × (refund_percent CancellationPolicy.moderate (days_before check_in now)
          ≤ refund_percent CancellationPolicy.flexible (days_before check_in now))
unfolding refund_percent
refund_percent_order policy check_in now later h =
    percents policy (days_before check_in now) (days_before check_in later)
      (days_before_mono check_in now later h)

-- A booking and its property, as a cancellation finds them.
pub record IsCancellable (user_id booking_id : ℕ) (s : Store) (b : Booking) (p : Property)
    : Type 0 where
  pub booking_found : find_first (booking_is booking_id) s.bookings ≡ some b
  pub property_found : find_first (property_is b.property_id) s.properties ≡ some p
  pub party : (b.guest_id ≡ user_id) ⊎ (p.host_id ≡ user_id)
  pub status_open : (is_cancelled b.status || is_completed b.status) ≡ false

-- What a cancellation may refund: the percentage of the price where the payment succeeded, otherwise nothing.
abbrev pub GivesBack : Option Payment → ℕ → ℕ → ℕ → Type 0
GivesBack none total percent refund = refund ≡ 0
GivesBack (some q) total percent refund =
    ((q.status ≡ PaymentStatus.success) × (refund ≡ total * percent))
    ⊎ ((is_success q.status ≡ false) × (refund ≡ 0))

-- The refund that the policy of the property grants.
abbrev pub refund_of : ℕ → Store → Booking → Property → ℕ
refund_of now s b p =
    eligible_refund (find_first (pays_for b.id) s.payments) b.total_price
      (refund_percent p.cancellation_policy (days_before b.check_in now))

-- A booking that is cancelled or completed stays as it is: the request is refused and nothing changes.
pub cancel_booking_closed :
    (env : Env) (booking_id user_id : ℕ) (reason : Option Text) (s : Store) (b : Booking)
    (p : Property)
    → find_first (booking_is booking_id) s.bookings ≡ some b
    → find_first (property_is b.property_id) s.properties ≡ some p
    → (b.guest_id ≡ user_id) ⊎ (p.host_id ≡ user_id)
    → (is_cancelled b.status || is_completed b.status) ≡ true
    → cancel_booking env booking_id user_id reason s
      ≡ (err (AppError.validation "Cannot cancel booking in its state"), s)
unfolding cancel_booking
cancel_booking_closed env booking_id user_id reason s b p fb fp party closed = ground arith
