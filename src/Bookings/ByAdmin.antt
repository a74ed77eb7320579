-- ===== src/Bookings/ByAdmin.antt =====
-- backend/src/modules/admin/admin.service.ts: the cancellation of a booking by an administrator.
use hoyhel.Prelude.{
  ℕ, ◌*◌, Bool, ◌||◌, [], ◌∷◌, ◌++◌, Option, none, some, ◌==◌, find_first, update_many, Text, text,
  or_text,
}
use hoyhel.Schema.{
  Store, Env, Booking, BookingStatus, Payment, PaymentStatus, Refund, is_cancelled, is_refunded,
}
use hoyhel.Service.{AppError, Action, pure, gets, modify, or_throw, throw_if, ◌>>=◌, ◌>>◌}
use hoyhel.Bookings.{booking_is, pays_for}

-- A refund is in hundredths of a cent, as that of any other cancellation.
abbrev pub cancel_in_full : ℕ → Option Text → Booking → Booking
cancel_in_full now reason b = record b {
  status = BookingStatus.cancelled;
  cancellation_reason = some (or_text reason (text "Cancelled by System Administrator"));
  cancelled_at = some now;
  refunded_amount = b.total_price * 100;
}

abbrev pub payment_is : ℕ → Payment → Bool
payment_is payment_id p = p.id == payment_id

abbrev pub refund_payment : Payment → Payment
refund_payment p = record p { status = PaymentStatus.refunded }

abbrev pub full_refund : Env → Booking → Payment → Option Text → Refund
full_refund env b p reason = record {
  id = env.uuid 0;
  booking_id = b.id;
  payment_id = p.id;
  amount = b.total_price * 100;
  reason = or_text reason (text "Full administrative refund");
}

-- `if (booking.payment)`
abbrev pub refund_in_full : Env → Booking → Option Text → Option Payment → Store → Store
refund_in_full env b reason none s = s
refund_in_full env b reason (some p) s = record s {
  payments = update_many (payment_is p.id) refund_payment s.payments;
  refunds = s.refunds ++ full_refund env b p reason ∷ [];
}

-- `cancelBookingByAdmin`
unfoldable pub cancel_booking_by_admin : Env → ℕ → Option Text → Action Booking
cancel_booking_by_admin env booking_id reason = do
  row ← gets (λ s. find_first (booking_is booking_id) s.bookings)
  b ← or_throw row (AppError.not_found "Booking")
  payment ← gets (λ s. find_first (pays_for b.id) s.payments)
  throw_if (is_cancelled b.status || is_refunded b.status)
      (AppError.validation "Booking is already in its state")
  modify (λ s. record s {
    bookings = update_many (booking_is booking_id) (cancel_in_full env.now reason) s.bookings;
  })
  modify (refund_in_full env b reason payment)
  pure (cancel_in_full env.now reason b)
