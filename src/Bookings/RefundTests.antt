-- ===== src/Bookings/RefundTests.antt =====
-- Witness for the cancellation of a booking by an administrator.
use hoyhel.Prelude.{◌*◌, ◌≡◌, refl, false, [], ◌∷◌, none, some, find_first, text, or_text}
use hoyhel.Schema.{Store, BookingStatus, PaymentStatus, Payment}
use hoyhel.Service.{AppError, ok, err}
use hoyhel.Bookings.{booking_is, pays_for}
use hoyhel.Bookings.Live.{is_live}
use hoyhel.Bookings.ByAdmin.{cancel_booking_by_admin}
use hoyhel.Bookings.FullRefund.{cancel_by_admin_refunds}
use hoyhel.Samples.{env, stay, card, shop}

-- A payment that failed.
abbrev failed_card : Payment
failed_card = record card { status = PaymentStatus.failed }

abbrev unpaid_shop : Store
unpaid_shop = record shop { bookings = stay ∷ []; payments = failed_card ∷ [] }

stay_found : find_first (booking_is 80) unpaid_shop.bookings ≡ some stay
unfolding find_first
stay_found = refl

payment_found : find_first (pays_for 80) unpaid_shop.payments ≡ some failed_card
unfolding find_first
payment_found = refl

cancel_by_admin_refunds_example :
    let (out, t) = cancel_booking_by_admin env 80 none unpaid_shop in
    let c = record stay {
      status = BookingStatus.cancelled;
      cancellation_reason = some (text "Cancelled by System Administrator");
      cancelled_at = some env.now;
      refunded_amount = 26260 * 100;
    } in
    (out ≡ ok c)
    × (find_first (booking_is 80) t.bookings ≡ some c)
    × (is_live env.now c ≡ false)
    × (find_first (pays_for 80) t.payments
        ≡ some (record failed_card { status = PaymentStatus.refunded }))
    × (t.refunds
        ≡ record {
          id = env.uuid 0;
          booking_id = 80;
          payment_id = 81;
          amount = 26260 * 100;
          reason = text "Full administrative refund";
        }
          ∷ [])
    × (cancel_booking_by_admin env 80 none t
        ≡ (err (AppError.validation "Booking is already in its state"), t))
unfolding text or_text
cancel_by_admin_refunds_example =
    cancel_by_admin_refunds env env 80 none none unpaid_shop stay failed_card stay_found refl
      payment_found
