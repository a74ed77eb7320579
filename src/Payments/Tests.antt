-- ===== src/Payments/Tests.antt =====
-- Witnesses and tests for payments.
use hoyhel.Prelude.{
  ◌⊎◌, ◌≡◌, refl, true, false, [], ◌∷◌, none, some, exists_row, find_first, All, ◌==◌,
}
use hoyhel.Schema.{Store, Env, Booking, BookingStatus, Payment, PaymentStatus, PaymentMethodType}
use hoyhel.Service.{AppError, ok, err}
use hoyhel.Bookings.{BookingRequest, booking_is, pays_for}
use hoyhel.Payments.{
  PaymentRequest, PaymentOutcome, collides, WebhookEvent, stripe_intent, process_booking_payment,
  process_webhook, replay_of,
}
use hoyhel.Payments.Confirm.{CanPay, IsPaid, card_row, pay_confirms}
use hoyhel.Payments.Decides.{IsOwn, IsTooLate, IsReplayed, IsPaidAlready, IsProcessed, pay_decides}
use hoyhel.Payments.Rebooking.{webhook_revives}
use hoyhel.Samples.{env, villa, shop, held_shop, paid_shop, stay, card}

abbrev request : PaymentRequest
request = record {
  booking_id = 80;
  payment_method = PaymentMethodType.credit_card;
  phone = none;
  idempotency_key = some 10;
}

held-CanPay : CanPay env 2 request held_shop stay
unfolding find_first replay_of
held-CanPay = record {
  property = villa;
  booking_found = refl;
  property_found = refl;
  own = refl;
  in_force = refl;
  fresh = refl;
  unpaid = refl;
  by_card = refl;
}

pay_confirms_example :
    let (out, t) = process_booking_payment env 2 request held_shop in
    let taken = exists_row (collides (card_row env 2 request stay held_shop)) held_shop.payments in
    ((taken ≡ false)
      × (p : Payment) × (out ≡ ok (PaymentOutcome.processed p (stripe_intent env)))
      × IsPaid env request held_shop stay p t)
    ⊎ ((taken ≡ true) × (out ≡ err AppError.unique_violation) × (t ≡ held_shop))
pay_confirms_example = pay_confirms env 2 request held_shop stay held-CanPay

unused_transaction :
    exists_row (collides (card_row env 2 request stay held_shop)) held_shop.payments ≡ false
unfolding exists_row
unused_transaction = refl

-- Twenty minutes after the booking.
abbrev late : Env
late = record env { now = 1728001203600 }

held-IsOwn : IsOwn 2 request held_shop stay
unfolding find_first
held-IsOwn = record { property = villa; booking_found = refl; property_found = refl; own = refl }

abbrev paid_stay : Booking
paid_stay = record stay { status = BookingStatus.confirmed }

abbrev again : PaymentRequest
again = record request { idempotency_key = some 9 }

again-IsOwn : IsOwn 2 again paid_shop paid_stay
unfolding find_first
again-IsOwn = record { property = villa; booking_found = refl; property_found = refl; own = refl }

card_replayed : replay_of (some 9) paid_shop ≡ some card
unfolding replay_of find_first
card_replayed = refl

paid-IsOwn : IsOwn 2 request paid_shop paid_stay
unfolding find_first
paid-IsOwn = record { property = villa; booking_found = refl; property_found = refl; own = refl }

new_key : replay_of (some 10) paid_shop ≡ none
unfolding replay_of find_first
new_key = refl

card_found : find_first (pays_for 80) paid_shop.payments ≡ some card
unfolding find_first
card_found = refl

abbrev cancelled_shop : Store
cancelled_shop = record shop {
  bookings = record stay { status = BookingStatus.cancelled } ∷ [];
  payments = card ∷ [];
}

cancelled_found :
    find_first (booking_is 80) cancelled_shop.bookings
    ≡ some (record stay { status = BookingStatus.cancelled })
unfolding find_first
cancelled_found = refl

webhook_revives_example :
    let (out, t) =
      process_webhook (WebhookEvent.payment_intent_succeeded (some 80)) cancelled_shop in
    (out ≡ ok tt)
    × All (λ p. (p.booking_id == 80) ≡ true → p.status ≡ PaymentStatus.success) t.payments
    × (find_first (booking_is 80) t.bookings
        ≡ some (record stay { status = BookingStatus.confirmed }))
webhook_revives_example =
    webhook_revives 80 cancelled_shop (record stay { status = BookingStatus.cancelled })
      cancelled_found

-- The dates of the stay that is paid, twenty minutes after it was booked.
abbrev same_dates : BookingRequest
same_dates = record {
  property_id = 50;
  check_in = some 1728864000000;
  check_out = some 1729036800000;
  adults_count = some 2;
  children_count = none;
  infants_count = none;
  pets_count = none;
  guests_count = none;
  special_requests = none;
  estimated_arrival = none;
  emergency_name = none;
  emergency_phone = none;
  emergency_relation = none;
  promo_code = none;
}

pay_decides_example :
    IsTooLate late 2 request held_shop stay
    ⊎ IsReplayed late 2 request held_shop stay
    ⊎ IsPaidAlready late 2 request held_shop stay
    ⊎ IsProcessed late 2 request held_shop stay
pay_decides_example = pay_decides late 2 request held_shop stay held-IsOwn
