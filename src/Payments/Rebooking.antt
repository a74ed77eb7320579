-- ===== src/Payments/Rebooking.antt =====
-- Confirmed stays whose hold timestamp has passed: a payment leaves the timestamp of the hold on the
-- booking, and the query for overlapping bookings asks for an unexpired one.
use hoyhel.Prelude.{
  ℕ, refl, ◌≤◌, ◌<◌, ◌≡◌, true, List, [], ◌∷◌, some, find_first, update_many, All, ◌==◌,
  exists_row-true, find_first-update_many, arith,
}
use hoyhel.Schema.{Store, Booking, BookingStatus, Payment, PaymentStatus, start_of_day}
use hoyhel.Service.{ok}
use hoyhel.Bookings.{booking_is, pays_for}
use hoyhel.Payments.{WebhookEvent, confirm, mark_paid, process_webhook}

-- A confirmed booking that overlaps the days of a request, whose hold timestamp is not after `now`.
pub record IsLapsed (now : ℕ) (property_id check_in check_out : ℕ) (b : Booking) : Type 0 where
  pub until : ℕ
  pub status : b.status ≡ BookingStatus.confirmed
  pub hold : b.expires_at ≡ some until
  pub passed : until ≤ now
  pub property : b.property_id ≡ property_id
  pub starts : b.check_in < start_of_day check_out
  pub ends : start_of_day check_in < b.check_out

marked :
    (booking_id : ℕ) (ps : List Payment)
    → All
        (λ p. (p.booking_id == booking_id) ≡ true → p.status ≡ PaymentStatus.success)
        (update_many (pays_for booking_id) mark_paid ps)
unfolding update_many
marked booking_id [] = tt
marked booking_id (p ∷ ps) = (λ h. ground arith, marked booking_id ps)

-- A success event of the payment provider gives a booking the status confirmed, whatever its status was, and changes
-- nothing else of it: one that was cancelled or expired is confirmed again. Every payment of that booking has
-- succeeded then, one that was refunded too.
pub webhook_revives :
    (booking_id : ℕ) (s : Store) (b : Booking)
    → find_first (booking_is booking_id) s.bookings ≡ some b
    → let (out, t) = process_webhook (WebhookEvent.payment_intent_succeeded (some booking_id)) s in
      (out ≡ ok tt)
      × All (λ p. (p.booking_id == booking_id) ≡ true → p.status ≡ PaymentStatus.success) t.payments
      × (find_first (booking_is booking_id) t.bookings
          ≡ some (record b { status = BookingStatus.confirmed }))
unfolding process_webhook
webhook_revives booking_id s b found =
    let there = exists_row-true (booking_is booking_id) s.bookings b found in
    let kept =
      find_first-update_many (booking_is booking_id) confirm s.bookings b (λ c h. h) found in
    let same : process_webhook (WebhookEvent.payment_intent_succeeded (some booking_id)) s ≡ (
      ok tt,
      record s {
        payments = update_many (pays_for booking_id) mark_paid s.payments;
        bookings = update_many (booking_is booking_id) confirm s.bookings;
      },
    ) =
      ground (arith, there) in
    rw same (refl, marked booking_id s.payments, kept)
