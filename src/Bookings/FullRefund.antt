-- ===== src/Bookings/FullRefund.antt =====
-- What an administrator's cancellation does to the booking and its payment.
use hoyhel.Prelude.{
  ℕ, ◌*◌, ◌≡◌, refl, ap, ◌∙◌, false, ◌||◌, [], ◌∷◌, ◌++◌, Option, some, ==_refl, if◌then◌else◌,
  find_first, text, or_text, find_first-update_many, find_first-update_where, Text, arith,
}
use hoyhel.Schema.{
  Store, Env, Booking, Payment, BookingStatus, PaymentStatus, is_cancelled, is_refunded,
}
use hoyhel.Service.{AppError, ok, err}
use hoyhel.Bookings.{booking_is, pays_for}
use hoyhel.Bookings.Live.{is_live}
use hoyhel.Bookings.ByAdmin.{cancel_in_full, payment_is, refund_payment, cancel_booking_by_admin}

-- A cancellation by an administrator, of a booking that is neither cancelled nor refunded, records a full refund
-- where the booking has a payment, whatever became of that payment: the booking has the status cancelled and is refunded
-- its whole price, in hundredths of a cent, it holds its dates no longer, the payment of the booking has the status
-- refunded, and a refund of the whole price to that payment is added.
-- A second cancellation is refused and changes nothing.
pub cancel_by_admin_refunds :
    (env later : Env) (booking_id : ℕ) (reason other : Option Text) (s : Store) (b : Booking)
    (p : Payment)
    → find_first (booking_is booking_id) s.bookings ≡ some b
    → (is_cancelled b.status || is_refunded b.status) ≡ false
    → find_first (pays_for b.id) s.payments ≡ some p
    → let (out, t) = cancel_booking_by_admin env booking_id reason s in
      let c = record b {
        status = BookingStatus.cancelled;
        cancellation_reason = some (or_text reason (text "Cancelled by System Administrator"));
        cancelled_at = some env.now;
        refunded_amount = b.total_price * 100;
      } in
      (out ≡ ok c)
      × (find_first (booking_is booking_id) t.bookings ≡ some c)
      × (is_live env.now c ≡ false)
      × (find_first (pays_for b.id) t.payments
          ≡ some (record p { status = PaymentStatus.refunded }))
      × (t.refunds
          ≡ s.refunds
            ++ record {
              id = env.uuid 0;
              booking_id = b.id;
              payment_id = p.id;
              amount = b.total_price * 100;
              reason = or_text reason (text "Full administrative refund");
            }
              ∷ [])
      × (cancel_booking_by_admin later booking_id other t
          ≡ (err (AppError.validation "Booking is already in its state"), t))
unfolding cancel_booking_by_admin
cancel_by_admin_refunds env later booking_id reason other s b p found shut paid =
    let row =
      find_first-update_many (booking_is booking_id) (cancel_in_full env.now reason) s.bookings b
        (λ _ h. h) found in
    let money =
      find_first-update_where (pays_for b.id) (payment_is p.id) refund_payment s.payments p
        (λ _. refl) paid
      ∙ ap (λ x. some (if x then refund_payment p else p)) (==_refl p.id) in
    (
      ground arith,
      ground (arith, row),
      refl,
      ground (arith, money),
      ground arith,
      ground (arith, row),
    )
