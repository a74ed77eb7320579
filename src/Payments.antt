-- ===== src/Payments.antt =====
-- backend/src/modules/payments/payments.service.ts with the providers of payments.provider.ts. The
-- identifiers that the providers draw are those of the runtime.
pub mod Confirm
pub mod Decides
pub mod Rebooking
mod Tests
use hoyhel.Prelude.{
  ℕ, Bool, true, false, not, ◌&&◌, ◌||◌, List, [], ◌∷◌, ◌++◌, Option, none, some, ltb, ◌==◌,
  if◌then◌else◌, find_first, update_many, exists_row, Text, text,
}
use hoyhel.Schema.{
  Store, Env, Property, Booking, BookingStatus, Payment, PaymentStatus, PaymentMethodType,
  NotificationType, NotificationPriority, is_expired, is_cancelled, is_confirmed, is_success,
}
use hoyhel.Service.{
  AppError, Action, ok, pure, throw, gets, modify, or_throw, throw_if, transaction, ◌>>=◌, ◌>>◌,
}
use hoyhel.Notifications.{create_notification}
use hoyhel.Bookings.{booking_is, property_is, pays_for, expires_before}

pub data IntentStatus : Type 0 where
  succeeded_intent pending_intent : IntentStatus

pub record PaymentIntentResult : Type 0 where
  pub transaction_id : ℕ
  pub status : IntentStatus

-- `StripePaymentProvider.createPaymentIntent`
abbrev pub stripe_intent : Env → PaymentIntentResult
stripe_intent env = record { transaction_id = env.random 1; status = IntentStatus.succeeded_intent }

-- `MpesaPaymentProvider.processMpesaStkPush`
abbrev pub mpesa_push : Env → PaymentIntentResult
mpesa_push env = record { transaction_id = env.random 1; status = IntentStatus.pending_intent }

-- An idempotency key is `none` where the request has none.
pub record PaymentRequest : Type 0 where
  pub booking_id : ℕ
  pub payment_method : PaymentMethodType
  pub phone : Option Text
  pub idempotency_key : Option ℕ

pub data PaymentOutcome : Type 0 where
  replayed : Payment → PaymentOutcome
  processed : Payment → PaymentIntentResult → PaymentOutcome

-- The hold of a booking has run out, or the booking is given up.
abbrev pub hold_is_over : ℕ → Booking → Bool
hold_is_over now b =
    is_expired b.status
    || is_cancelled b.status
    || (expires_before now b.expires_at && not (is_confirmed b.status))

abbrev pub lapse : Booking → Booking
lapse b = record b {
  status = BookingStatus.expired;
  cancellation_reason = some (text "Payment hold expired prior to payment completion");
}

abbrev pub set_booking : ℕ → (Booking → Booking) → Store → Store
set_booking booking_id f s = record s {
  bookings = update_many (booking_is booking_id) f s.bookings;
}

-- The hold check: a booking whose hold is over is marked so, and the payment is refused.
unfoldable pub check_hold : Env → Booking → Action (Unit {0})
check_hold env b s =
    if hold_is_over env.now b
    then ((if is_expired b.status then pure tt else modify (set_booking b.id lapse))
          >> throw (
              AppError.validation
                "Your temporary booking hold has expired. Please re-select your dates and try again."))
        s
    else (ok tt, s)

abbrev has_key : ℕ → Payment → Bool
has_key k p = elim p.idempotency_key [ none ↦ false | some j ↦ j == k ]

-- The payment that was made with the key of the request, if it has one.
unfoldable pub replay_of : Option ℕ → Store → Option Payment
replay_of none s = none
replay_of (some k) s = find_first (has_key k) s.payments

abbrev pub paid_already : Option Payment → Bool
paid_already none = false
paid_already (some p) = is_success p.status

-- `upsert({ where: { bookingId } })`
unfoldable pub upsert_payment : (Payment → Payment) → Payment → List Payment → List Payment
upsert_payment change created payments =
    if exists_row (pays_for created.booking_id) payments
    then update_many (pays_for created.booking_id) change payments
    else payments ++ created ∷ []

-- The row of the upsert.
abbrev pub written_payment : (Payment → Payment) → Payment → List Payment → Payment
written_payment change created payments = elim (find_first (pays_for created.booking_id) payments) [
  | none ↦ created
  | some old ↦ change old
]

abbrev pub same_key : Option ℕ → Option ℕ → Bool
same_key (some j) (some k) = j == k
same_key _ _ = false

-- The payment of another booking has the transaction or the key of a row: both columns are unique.
abbrev pub collides : Payment → Payment → Bool
collides written p =
    not (p.booking_id == written.booking_id)
    && (p.transaction_id == written.transaction_id
        || same_key p.idempotency_key written.idempotency_key)

abbrev set_payments : (List Payment → List Payment) → Store → Store
set_payments f s = record s { payments = f s.payments }

-- `prisma.payment.upsert`, which answers the row
unfoldable pub write_payment : (Payment → Payment) → Payment → Action Payment
write_payment change created = do
  p ← gets (λ s. written_payment change created s.payments)
  taken ← gets (λ s. exists_row (collides p) s.payments)
  throw_if taken AppError.unique_violation
  modify (set_payments (upsert_payment change created))
  pure p

abbrev the_payment : ℕ → Store → Option Payment
the_payment booking_id s = find_first (pays_for booking_id) s.payments

abbrev key_of : Env → PaymentRequest → Option ℕ
key_of env r = elim r.idempotency_key [ none ↦ some (env.random 2) | some k ↦ some k ]

abbrev pub mpesa_update : Env → PaymentRequest → Payment → Payment
mpesa_update env r p = record p {
  status = PaymentStatus.processing;
  mpesa_checkout_id = some (mpesa_push env).transaction_id;
  idempotency_key = key_of env r;
}

abbrev pub mpesa_payment : Env → ℕ → PaymentRequest → Booking → Payment
mpesa_payment env user_id r b = record {
  id = env.uuid 0;
  booking_id = b.id;
  user_id = user_id;
  amount = b.total_price;
  status = PaymentStatus.processing;
  payment_method = PaymentMethodType.mpesa;
  transaction_id = (mpesa_push env).transaction_id;
  stripe_payment_intent_id = none;
  mpesa_checkout_id = none;
  idempotency_key = key_of env r;
}

abbrev pub has_phone : Option Text → Bool
has_phone none = false
has_phone (some []) = false
has_phone (some (c ∷ cs)) = true

-- The branch for M-Pesa, which leaves the booking as it is.
unfoldable pub pay_by_mpesa : Env → ℕ → PaymentRequest → Booking → Action PaymentOutcome
pay_by_mpesa env user_id r b = do
  throw_if (not (has_phone r.phone))
      (AppError.validation "Phone number is required for M-Pesa payments")
  p ← write_payment (mpesa_update env r) (mpesa_payment env user_id r b)
  pure (PaymentOutcome.processed p (mpesa_push env))

abbrev pub card_update : Env → Payment → Payment
card_update env p = record p {
  status = PaymentStatus.success;
  transaction_id = (stripe_intent env).transaction_id;
  stripe_payment_intent_id = some (stripe_intent env).transaction_id;
}

abbrev pub card_payment : Env → ℕ → PaymentRequest → Booking → Payment
card_payment env user_id r b = record {
  id = env.uuid 0;
  booking_id = b.id;
  user_id = user_id;
  amount = b.total_price;
  status = PaymentStatus.success;
  payment_method = PaymentMethodType.credit_card;
  transaction_id = (stripe_intent env).transaction_id;
  stripe_payment_intent_id = some (stripe_intent env).transaction_id;
  mpesa_checkout_id = none;
  idempotency_key = key_of env r;
}

abbrev pub confirm : Booking → Booking
confirm b = record b { status = BookingStatus.confirmed }

-- The branch for cards, and for every other method.
unfoldable pub pay_by_card : Env → ℕ → PaymentRequest → Booking → Property → Action PaymentOutcome
pay_by_card env user_id r b property = transaction do
  p ← write_payment (card_update env) (card_payment env user_id r b)
  modify (set_booking b.id confirm)
  create_notification env (env.uuid 1) b.guest_id NotificationType.booking_confirmed
      NotificationPriority.high
  create_notification env (env.uuid 2) b.guest_id NotificationType.payment_success
      NotificationPriority.normal
  create_notification env (env.uuid 3) property.host_id NotificationType.booking_confirmed
      NotificationPriority.high
  pure (PaymentOutcome.processed p (stripe_intent env))

abbrev pub pay_by :
    PaymentMethodType → Env → ℕ → PaymentRequest → Booking → Property → Action PaymentOutcome
pay_by PaymentMethodType.mpesa env user_id r b property = pay_by_mpesa env user_id r b
pay_by _ env user_id r b property = pay_by_card env user_id r b property

-- What follows the hold check: a replay, a refusal or a payment.
unfoldable pub settle : Env → ℕ → PaymentRequest → Booking → Property → Action PaymentOutcome
settle env user_id r b property s = elim (replay_of r.idempotency_key s) [
  | some p ↦ (ok (PaymentOutcome.replayed p), s)
  | none ↦
      (throw_if (paid_already (the_payment b.id s))
            (AppError.conflict "Booking has already been paid for")
          >> pay_by r.payment_method env user_id r b property)
        s
]

-- `processBookingPayment`
unfoldable pub process_booking_payment : Env → ℕ → PaymentRequest → Action PaymentOutcome
process_booking_payment env user_id r = do
  row ← gets (λ s. find_first (booking_is r.booking_id) s.bookings)
  b ← or_throw row (AppError.not_found "Booking")
  property_row ← gets (λ s. find_first (property_is b.property_id) s.properties)
  property ← or_throw property_row (AppError.internal "every booking has its property")
  throw_if (not (b.guest_id == user_id))
      (AppError.validation "You can only pay for your own booking")
  check_hold env b
  settle env user_id r b property

-- An event of the payment provider; the booking is that of its metadata.
pub data WebhookEvent : Type 0 where
  payment_intent_succeeded : Option ℕ → WebhookEvent
  other_event : WebhookEvent

abbrev pub mark_paid : Payment → Payment
mark_paid p = record p { status = PaymentStatus.success }

-- `processWebhook`. `booking.update` throws where the row is missing, and undoes the payment.
unfoldable pub process_webhook : WebhookEvent → Action (Unit {0})
process_webhook (WebhookEvent.payment_intent_succeeded (some booking_id)) = transaction do
  modify (set_payments (update_many (pays_for booking_id) mark_paid))
  found ← gets (λ s. exists_row (booking_is booking_id) s.bookings)
  throw_if (not found) AppError.record_missing
  modify (set_booking booking_id confirm)
process_webhook (WebhookEvent.payment_intent_succeeded none) = pure tt
process_webhook WebhookEvent.other_event = pure tt
