-- ===== src/Lifecycle/Paid.antt =====
-- What a request to pay does to the rows of the table of bookings.
use hoyhel.Prelude.{
  ℕ, ◌≡◌, refl, inl, inr, ◌⊎◌, true, List, some, ◌==◌, ==_iff, find_first, find_first_sound,
  update_many, All, All-map, Bool-cases, Option-cases, arith,
}
use hoyhel.Schema.{Store, Env, Booking, Property, PaymentMethodType, is_active_booking, is_expired}
use hoyhel.Notifications.{create_notification}
use hoyhel.Bookings.{booking_is, property_is, pays_for}
use hoyhel.Payments.{
  PaymentRequest, lapse, confirm, check_hold, paid_already, settle, pay_by, pay_by_card,
  pay_by_mpesa, write_payment, replay_of, process_booking_payment, hold_is_over,
}
use hoyhel.Lifecycle.{PaysActive}
use hoyhel.Lifecycle.Rows.{Becomes, Pairwise, Pairwise-refl, Pairwise-update_many}
use hoyhel.Lifecycle.Moves.{changed}

-- What the payment of a booking does to the rows, once the booking and its listing are found.
by_card :
    (env : Env) (user_id : ℕ) (r : PaymentRequest) (b : Booking) (p : Property) (s : Store)
    → ((pay_by_card env user_id r b p s).1.bookings ≡ s.bookings)
      ⊎ ((pay_by_card env user_id r b p s).1.bookings
          ≡ update_many (booking_is b.id) confirm s.bookings)
unfolding pay_by_card write_payment create_notification
by_card env user_id r b p s = ground arith

by_mpesa :
    (env : Env) (user_id : ℕ) (r : PaymentRequest) (b : Booking) (s : Store)
    → (pay_by_mpesa env user_id r b s).1.bookings ≡ s.bookings
unfolding pay_by_mpesa write_payment
by_mpesa env user_id r b s = ground arith

by_method :
    (m : PaymentMethodType) (env : Env) (user_id : ℕ) (r : PaymentRequest) (b : Booking)
    (p : Property) (s : Store)
    → ((pay_by m env user_id r b p s).1.bookings ≡ s.bookings)
      ⊎ ((pay_by m env user_id r b p s).1.bookings
          ≡ update_many (booking_is b.id) confirm s.bookings)
by_method PaymentMethodType.mpesa env user_id r b p s = inl (by_mpesa env user_id r b s)
by_method PaymentMethodType.credit_card env user_id r b p s = by_card env user_id r b p s
by_method PaymentMethodType.bank_transfer env user_id r b p s = by_card env user_id r b p s

settled :
    (env : Env) (user_id : ℕ) (r : PaymentRequest) (b : Booking) (p : Property) (s : Store)
    → ((settle env user_id r b p s).1.bookings ≡ s.bookings)
      ⊎ ((settle env user_id r b p s).1.bookings ≡ update_many (booking_is b.id) confirm s.bookings)
unfolding settle
settled env user_id r b p s = elim (Option-cases (replay_of r.idempotency_key s)) [
  | inr (old, replay) ↦ inl (ground arith)
  | inl fresh ↦ elim (Bool-cases (paid_already (find_first (pays_for b.id) s.payments))) [
    | inl paid ↦ inl (ground arith)
    | inr unpaid ↦ elim (by_method r.payment_method env user_id r b p s) [
      | inl e ↦ inl (ground arith)
      | inr e ↦ inr (ground arith)
    ]
  ]
]

paid_rows :
    (env : Env) (user_id : ℕ) (r : PaymentRequest) (b : Booking) (s : Store)
    → find_first (booking_is r.booking_id) s.bookings ≡ some b
    → ((process_booking_payment env user_id r s).1.bookings ≡ s.bookings)
      ⊎ ((process_booking_payment env user_id r s).1.bookings
          ≡ update_many (booking_is b.id) lapse s.bookings)
      ⊎ ((process_booking_payment env user_id r s).1.bookings
          ≡ update_many (booking_is b.id) confirm s.bookings)
unfolding process_booking_payment check_hold
paid_rows env user_id r b s found =
    elim (Option-cases (find_first (property_is b.property_id) s.properties)) [
      | inl gone ↦ inl (ground arith)
      | inr (p, known) ↦ elim (Bool-cases (b.guest_id == user_id)) [
        | inr stranger ↦ inl (ground arith)
        | inl own ↦ elim (Bool-cases (hold_is_over env.now b)) [
          | inl over ↦ elim (Bool-cases (is_expired b.status)) [
            | inl done ↦ inl (ground arith)
            | inr late ↦ inr (inl (ground arith))
          ]
          | inr held ↦ elim (settled env user_id r b p s) [
            | inl e ↦ inl (ground arith)
            | inr e ↦ inr (inr (ground arith))
          ]
        ]
      ]
    ]

confirmable :
    (booking_id : ℕ) (b : Booking) (bs : List Booking)
    → b.id ≡ booking_id
    → All (λ c. booking_is booking_id c ≡ true → is_active_booking c.status ≡ true) bs
    → All (λ c. booking_is b.id c ≡ true → Becomes c (confirm c)) bs
confirmable booking_id b bs same h = rw same (
    All-map (λ c. booking_is booking_id c ≡ true → is_active_booking c.status ≡ true)
      (λ c. booking_is booking_id c ≡ true → Becomes c (confirm c)) bs
      (λ c k e. record {
        same_id = refl;
        same_property = refl;
        same_guest = refl;
        same_check_in = refl;
        same_check_out = refl;
        same_price = refl;
        same_hold = refl;
        active_before = λ _. k e;
      })
      h)

pub pay-Pairwise :
    (env : Env) (user_id : ℕ) (r : PaymentRequest) (s : Store)
    → PaysActive r s
    → Pairwise s.bookings (process_booking_payment env user_id r s).1.bookings
unfolding process_booking_payment
pay-Pairwise env user_id r s active =
    elim (Option-cases (find_first (booking_is r.booking_id) s.bookings)) [
      | inl missing ↦
          let same : (process_booking_payment env user_id r s).1.bookings ≡ s.bookings =
            ground arith in
          rw same (Pairwise-refl s.bookings)
      | inr (b, found) ↦ elim (paid_rows env user_id r b s found) [
        | inl same ↦ rw same (Pairwise-refl s.bookings)
        | inr (inl lapsed) ↦
            rw lapsed (changed (booking_is b.id) lapse (λ c. ground arith) s.bookings)
        | inr (inr done) ↦ rw done (
            Pairwise-update_many (booking_is b.id) confirm s.bookings (
              confirmable r.booking_id b s.bookings
                ((==_iff b.id r.booking_id).0
                  (find_first_sound (booking_is r.booking_id) s.bookings b found))
                active))
      ]
    ]
