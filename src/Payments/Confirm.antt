-- ===== src/Payments/Confirm.antt =====
-- What a payment does to the booking and to the payments.
use hoyhel.Prelude.{
  ℕ, ap, ◌∙◌, ◌⊎◌, max, ◌≡◌, refl, inl, inr, true, false, List, none, some, ==_refl, find_first,
  exists_row, update_many, count, find_first-update_many, exists_row-some, exists_row-none,
  count-update_many, count-concat, count-none, count-some, find_first-concat, Bool-cases,
  Option-cases, arith, ◌==◌,
}
use hoyhel.Schema.{
  Store, Env, Property, Booking, BookingStatus, Payment, PaymentStatus, PaymentMethodType,
}
use hoyhel.Service.{AppError, ok, err}
use hoyhel.Notifications.{create_notification}
use hoyhel.Bookings.{booking_is, property_is, pays_for}
use hoyhel.Payments.{
  PaymentRequest, PaymentOutcome, written_payment, write_payment, collides, hold_is_over,
  check_hold, replay_of, paid_already, upsert_payment, card_update, card_payment, confirm,
  pay_by_card, settle, process_booking_payment, stripe_intent,
}
use hoyhel.Payments.Decides.{found_changed}

-- What the two forms of the upsert agree on.
record IsUpserted (change : Payment → Payment) (created : Payment) (before after : List Payment)
    : Type 0 where
  found :
      find_first (pays_for created.booking_id) after ≡ some (written_payment change created before)
  tally :
      count (pays_for created.booking_id) after ≡ max 1 (count (pays_for created.booking_id) before)

module _ (change : Payment → Payment) (created : Payment) (ps : List Payment)
    (keep : (p : Payment) → (change p).booking_id ≡ p.booking_id) where
  upsert_old :
      exists_row (pays_for created.booking_id) ps ≡ true
      → IsUpserted change created ps (upsert_payment change created ps)
  unfolding upsert_payment
  upsert_old e =
      let (old, found) = exists_row-some (pays_for created.booking_id) ps e in
      let same =
        count-update_many (pays_for created.booking_id) (pays_for created.booking_id) change ps
          (λ p _. ground (arith, keep p)) in
      rw e record {
        found = ground (
          arith,
          found,
          find_first-update_many (pays_for created.booking_id) change ps old
              (λ p h. ground (arith, keep p)) found,
        );
        tally = omega (arith, same, count-some (pays_for created.booking_id) ps e);
      }

  upsert_new :
      exists_row (pays_for created.booking_id) ps ≡ false
      → IsUpserted change created ps (upsert_payment change created ps)
  unfolding upsert_payment
  upsert_new e = rw e record {
    found = ground (
      arith,
      exists_row-none (pays_for created.booking_id) ps e,
      find_first-concat (pays_for created.booking_id) ps created e (==_refl created.booking_id),
    );
    tally = omega (
      arith,
      count-concat (pays_for created.booking_id) ps created (==_refl created.booking_id),
      count-none (pays_for created.booking_id) ps e,
    );
  }

  upsert-IsUpserted : IsUpserted change created ps (upsert_payment change created ps)
  upsert-IsUpserted = elim (Bool-cases (exists_row (pays_for created.booking_id) ps)) [
    | inl e ↦ upsert_old e
    | inr e ↦ upsert_new e
  ]

-- The row that a card payment writes.
abbrev pub card_row : Env → ℕ → PaymentRequest → Booking → Store → Payment
card_row env user_id r b s =
    written_payment (card_update env) (card_payment env user_id r b) s.payments

-- A card payment that nothing but the payment of another booking can stand against.
pub record CanPay (env : Env) (user_id : ℕ) (r : PaymentRequest) (s : Store) (b : Booking)
    : Type 0 where
  pub property : Property
  pub booking_found : find_first (booking_is r.booking_id) s.bookings ≡ some b
  pub property_found : find_first (property_is b.property_id) s.properties ≡ some property
  pub own : b.guest_id ≡ user_id
  pub in_force : hold_is_over env.now b ≡ false
  pub fresh : replay_of r.idempotency_key s ≡ none
  pub unpaid : paid_already (find_first (pays_for b.id) s.payments) ≡ false
  pub by_card : r.payment_method ≡ PaymentMethodType.credit_card

-- The store after a card payment. The payment is that of the booking before it, or one of the price.
pub record IsPaid (env : Env) (r : PaymentRequest) (s : Store) (b : Booking) (p : Payment)
    (t : Store) : Type 0 where
  pub payment_found : find_first (pays_for b.id) t.payments ≡ some p
  pub succeeded : p.status ≡ PaymentStatus.success
  pub tally : count (pays_for b.id) t.payments ≡ max 1 (count (pays_for b.id) s.payments)
  pub transaction : p.transaction_id ≡ env.random 1
  pub amount : p.amount ≡ elim (find_first (pays_for b.id) s.payments) [
    | none ↦ b.total_price
    | some old ↦ old.amount
  ]
  pub confirmed :
      find_first (booking_is r.booking_id) t.bookings
      ≡ some (record b { status = BookingStatus.confirmed })
  pub others :
      t.bookings
      ≡ update_many
          (λ c. c.id == b.id)
          (λ c. record c { status = BookingStatus.confirmed })
          s.bookings

module _ (env : Env) (user_id : ℕ) (r : PaymentRequest) (b : Booking) (property : Property)
    (s : Store) where
  upserted :
      IsUpserted
        (card_update env)
        (card_payment env user_id r b)
        s.payments
        (upsert_payment (card_update env) (card_payment env user_id r b) s.payments)
  upserted =
      upsert-IsUpserted (card_update env) (card_payment env user_id r b) s.payments (λ p. refl)

  card_facts :
      ((card_row env user_id r b s).status ≡ PaymentStatus.success)
      × ((card_row env user_id r b s).transaction_id ≡ env.random 1)
      × ((card_row env user_id r b s).amount ≡ elim (find_first (pays_for b.id) s.payments) [
        | none ↦ b.total_price
        | some old ↦ old.amount
      ])
  card_facts = elim (Option-cases (find_first (pays_for b.id) s.payments)) [
    | inl none_yet ↦ (ground arith, ground arith, ground arith)
    | inr (old, found) ↦ (ground arith, ground arith, ground arith)
  ]

  card_paid :
      exists_row (collides (card_row env user_id r b s)) s.payments ≡ false
      → let (out, t) = pay_by_card env user_id r b property s in
        (out ≡ ok (PaymentOutcome.processed (card_row env user_id r b s) (stripe_intent env)))
        × (t.payments ≡ upsert_payment (card_update env) (card_payment env user_id r b) s.payments)
        × (t.bookings ≡ update_many (booking_is b.id) confirm s.bookings)
  unfolding pay_by_card write_payment create_notification
  card_paid unused = ground arith

  card_refused :
      exists_row (collides (card_row env user_id r b s)) s.payments ≡ true
      → pay_by_card env user_id r b property s ≡ (err AppError.unique_violation, s)
  unfolding pay_by_card write_payment
  card_refused taken = ground arith

  card-IsPaid :
      find_first (booking_is r.booking_id) s.bookings ≡ some b
      → exists_row (collides (card_row env user_id r b s)) s.payments ≡ false
      → IsPaid env r s b (card_row env user_id r b s) (pay_by_card env user_id r b property s).1
  card-IsPaid found unused =
      let (done, payments, bookings) = card_paid unused in
      let (success, transaction, amount) = card_facts in
      record {
        payment_found = rw payments upserted.found;
        succeeded = success;
        tally = rw payments upserted.tally;
        transaction = transaction;
        amount = amount;
        confirmed = rw bookings (found_changed r.booking_id confirm s.bookings b (λ _. refl) found);
        others = bookings;
      }

-- A card payment for the guest's own booking, where its hold is in force, no payment has the key of the request and
-- none of the booking succeeded, is decided by the unique columns of the payments. Where no payment of another booking
-- has the transaction or the key that is to be written, it returns: the payment of the booking has succeeded then with
-- that transaction, a row for the price of the booking is added only where the booking had none, and the booking has the
-- status confirmed and is otherwise what it was, as are the others. Where one has, it fails and nothing changes.
pub pay_confirms :
    (env : Env) (user_id : ℕ) (r : PaymentRequest) (s : Store) (b : Booking)
    → CanPay env user_id r s b
    → let (out, t) = process_booking_payment env user_id r s in
      let taken = exists_row (collides (card_row env user_id r b s)) s.payments in
      ((taken ≡ false)
        × (p : Payment) × (out ≡ ok (PaymentOutcome.processed p (stripe_intent env)))
        × IsPaid env r s b p t)
      ⊎ ((taken ≡ true) × (out ≡ err AppError.unique_violation) × (t ≡ s))
unfolding process_booking_payment settle check_hold
pay_confirms env user_id r s b w =
    let same : process_booking_payment env user_id r s ≡ pay_by_card env user_id r b w.property s =
      ground arith in
    elim (Bool-cases (exists_row (collides (card_row env user_id r b s)) s.payments)) [
      | inl taken ↦
          let refused = card_refused env user_id r b w.property s taken in
          inr (taken, ap (λ x. x.0) (same ∙ refused), ap (λ x. x.1) (same ∙ refused))
      | inr unused ↦ inl (
        unused,
        card_row env user_id r b s,
        rw same (card_paid env user_id r b w.property s unused).0,
        rw same (card-IsPaid env user_id r b w.property s w.booking_found unused),
      )
    ]
