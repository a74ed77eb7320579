-- ===== src/Payments/Decides.antt =====
-- What a request to pay comes to.
use hoyhel.Prelude.{
  ℕ, ◌≡◌, refl, sym, subst, inl, inr, ◌⊎◌, true, false, List, Option, none, some, ==_iff,
  find_first, find_first_sound, update_many, find_first-update_many, Bool-cases, Option-cases,
  arith,
}
use hoyhel.Schema.{Store, Env, Property, Booking, Payment, is_expired, is_success}
use hoyhel.Service.{AppError, ok, err}
use hoyhel.Bookings.{booking_is, property_is, pays_for}
use hoyhel.Payments.{
  PaymentRequest, PaymentOutcome, hold_is_over, lapse, check_hold, replay_of, paid_already, pay_by,
  settle, process_booking_payment,
}

-- The guest's own booking, as the start of a payment finds it.
pub record IsOwn (user_id : ℕ) (r : PaymentRequest) (s : Store) (b : Booking) : Type 0 where
  pub property : Property
  pub booking_found : find_first (booking_is r.booking_id) s.bookings ≡ some b
  pub property_found : find_first (property_is b.property_id) s.properties ≡ some property
  pub own : b.guest_id ≡ user_id

-- The row that a change by its own identifier leaves under the identifier that it was found by.
pub found_changed :
    (id : ℕ) (f : Booking → Booking) (bs : List Booking) (b : Booking)
    → ((c : Booking) → (f c).id ≡ c.id)
    → find_first (booking_is id) bs ≡ some b
    → find_first (booking_is id) (update_many (booking_is b.id) f bs) ≡ some (f b)
found_changed id f bs b keep found =
    let same : b.id ≡ id = (==_iff b.id id).0 (find_first_sound (booking_is id) bs b found) in
    let kept = find_first-update_many (booking_is id) f bs b (λ c h. rw (keep c) h) found in
    subst (λ k. find_first (booking_is id) (update_many (booking_is k) f bs) ≡ some (f b))
      (sym same) kept

-- A payment after the hold is over, or for a cancelled booking, is refused, the booking is then
-- expired, and no payment is made.
pub pay_over :
    (env : Env) (user_id : ℕ) (r : PaymentRequest) (s : Store) (b : Booking)
    → IsOwn user_id r s b
    → hold_is_over env.now b ≡ true
    → let (out, t) = process_booking_payment env user_id r s in
      (out
        ≡ err (
            AppError.validation
              "Your temporary booking hold has expired. Please re-select your dates and try again."))
      × (t.payments ≡ s.payments)
      × ((c : Booking) × (find_first (booking_is r.booking_id) t.bookings ≡ some c)
          × (is_expired c.status ≡ true))
unfolding process_booking_payment check_hold
pay_over env user_id r s b w over = elim (Bool-cases (is_expired b.status)) [
  | inl done ↦ (ground arith, ground arith, (b, ground arith, done))
  | inr open_hold ↦ (
    ground arith,
    ground arith,
    (
      lapse b,
      ground (arith, found_changed r.booking_id lapse s.bookings b (λ _. refl) w.booking_found),
      refl,
    ),
  )
]

-- A request with a key that a payment was made with answers that payment and changes nothing.
pub pay_replay :
    (env : Env) (user_id : ℕ) (r : PaymentRequest) (s : Store) (b : Booking) (p : Payment)
    → IsOwn user_id r s b
    → hold_is_over env.now b ≡ false
    → replay_of r.idempotency_key s ≡ some p
    → process_booking_payment env user_id r s ≡ (ok (PaymentOutcome.replayed p), s)
unfolding process_booking_payment settle check_hold
pay_replay env user_id r s b p w over found = ground arith

-- A booking that has a successful payment is not charged again: the request is refused and changes
-- nothing.
pub pay_twice :
    (env : Env) (user_id : ℕ) (r : PaymentRequest) (s : Store) (b : Booking) (p : Payment)
    → IsOwn user_id r s b
    → hold_is_over env.now b ≡ false
    → replay_of r.idempotency_key s ≡ none
    → find_first (pays_for b.id) s.payments ≡ some p
    → is_success p.status ≡ true
    → process_booking_payment env user_id r s
      ≡ (err (AppError.conflict "Booking has already been paid for"), s)
unfolding process_booking_payment settle check_hold
pay_twice env user_id r s b p w over fresh found done = ground arith

-- What a request to pay for the guest's own booking comes to.
pub record IsTooLate (env : Env) (user_id : ℕ) (r : PaymentRequest) (s : Store) (b : Booking)
    : Type 0 where
  pub over : hold_is_over env.now b ≡ true
  pub refused :
      (process_booking_payment env user_id r s).0
      ≡ err (
          AppError.validation
            "Your temporary booking hold has expired. Please re-select your dates and try again.")
  pub payments : (process_booking_payment env user_id r s).1.payments ≡ s.payments
  pub row : Booking
  pub found :
      find_first (booking_is r.booking_id) (process_booking_payment env user_id r s).1.bookings
      ≡ some row
  pub expired : is_expired row.status ≡ true

pub record IsReplayed (env : Env) (user_id : ℕ) (r : PaymentRequest) (s : Store) (b : Booking)
    : Type 0 where
  pub held : hold_is_over env.now b ≡ false
  pub payment : Payment
  pub replay : replay_of r.idempotency_key s ≡ some payment
  pub answer : process_booking_payment env user_id r s ≡ (ok (PaymentOutcome.replayed payment), s)

pub record IsPaidAlready (env : Env) (user_id : ℕ) (r : PaymentRequest) (s : Store) (b : Booking)
    : Type 0 where
  pub held : hold_is_over env.now b ≡ false
  pub fresh : replay_of r.idempotency_key s ≡ none
  pub payment : Payment
  pub found : find_first (pays_for b.id) s.payments ≡ some payment
  pub succeeded : is_success payment.status ≡ true
  pub answer :
      process_booking_payment env user_id r s
      ≡ (err (AppError.conflict "Booking has already been paid for"), s)

pub record IsProcessed (env : Env) (user_id : ℕ) (r : PaymentRequest) (s : Store) (b : Booking)
    : Type 0 where
  pub held : hold_is_over env.now b ≡ false
  pub fresh : replay_of r.idempotency_key s ≡ none
  pub unpaid : paid_already (find_first (pays_for b.id) s.payments) ≡ false
  pub property : Property
  pub answer :
      process_booking_payment env user_id r s ≡ pay_by r.payment_method env user_id r b property s

paid_row :
    (o : Option Payment)
    → paid_already o ≡ true
    → (p : Payment) × (o ≡ some p) × (is_success p.status ≡ true)
paid_row none h = absurd (ground arith)
paid_row (some p) h = (p, refl, h)

processed :
    (env : Env) (user_id : ℕ) (r : PaymentRequest) (s : Store) (b : Booking)
    → IsOwn user_id r s b
    → hold_is_over env.now b ≡ false
    → replay_of r.idempotency_key s ≡ none
    → paid_already (find_first (pays_for b.id) s.payments) ≡ false
    → IsProcessed env user_id r s b
unfolding process_booking_payment settle check_hold
processed env user_id r s b w held fresh unpaid = record {
  held = held;
  fresh = fresh;
  unpaid = unpaid;
  property = w.property;
  answer = ground arith;
}

-- A request to pay for the guest's own booking is decided in this order. Where the hold is over or the booking is
-- cancelled, it is refused, the booking is then expired, and no payment is made. Where a payment was made with the
-- key of the request, that payment is answered and nothing changes. Where the booking has a payment that succeeded,
-- the request is refused and nothing changes. Otherwise the method of payment is carried out.
pub pay_decides :
    (env : Env) (user_id : ℕ) (r : PaymentRequest) (s : Store) (b : Booking)
    → IsOwn user_id r s b
    → IsTooLate env user_id r s b
      ⊎ IsReplayed env user_id r s b
      ⊎ IsPaidAlready env user_id r s b
      ⊎ IsProcessed env user_id r s b
pay_decides env user_id r s b w = elim (Bool-cases (hold_is_over env.now b)) [
  | inl over ↦
      let (refused, payments, (c, found, expired)) = pay_over env user_id r s b w over in
      inl (record {
        over = over;
        refused = refused;
        payments = payments;
        row = c;
        found = found;
        expired = expired;
      })
  | inr held ↦ elim (Option-cases (replay_of r.idempotency_key s)) [
    | inr (p, replay) ↦ inr (
        inl (record {
          held = held;
          payment = p;
          replay = replay;
          answer = pay_replay env user_id r s b p w held replay;
        }))
    | inl fresh ↦ elim (Bool-cases (paid_already (find_first (pays_for b.id) s.payments))) [
      | inr unpaid ↦ inr (inr (inr (processed env user_id r s b w held fresh unpaid)))
      | inl paid ↦
          let (p, found, done) = paid_row (find_first (pays_for b.id) s.payments) paid in
          inr (
            inr (
              inl (record {
                held = held;
                fresh = fresh;
                payment = p;
                found = found;
                succeeded = done;
                answer = pay_twice env user_id r s b p w held fresh found done;
              })))
    ]
  ]
]
