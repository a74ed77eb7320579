-- ===== src/Lifecycle/Moves.antt =====
-- What each request does to the rows of the table of bookings.
use hoyhel.Prelude.{
  ℕ, ◌≡◌, refl, inl, inr, ◌⊎◌, Bool, true, ◌||◌, ◌&&◌, not, List, [], ◌∷◌, Option, Text, ◌==◌,
  find_first, update_many, All, Bool-cases, Option-cases, arith,
}
use hoyhel.Schema.{Store, Env, Booking, is_cancelled, is_completed}
use hoyhel.Service.{Result-cases, transaction-ok, transaction-err, pair_eq}
use hoyhel.Notifications.{create_notification}
use hoyhel.Bookings.{
  BookingRequest, booking_is, property_is, pays_for, is_abandoned, expire, expire_pending_bookings,
  create_booking, reserve,
}
use hoyhel.Bookings.Cancel.{
  BookingView, is_over, complete, get_user_bookings, update_expired_bookings, cancel,
  cancel_booking,
}
use hoyhel.Bookings.Refunds.{refund_of}
use hoyhel.Bookings.ByAdmin.{cancel_in_full, cancel_booking_by_admin}
use hoyhel.Bookings.Create.{reserve-IsRow}
use hoyhel.Bookings.Reservations.{swept, create_booking-cases}
use hoyhel.Worker.{is_overdue, time_out, process_booking_expiry_job}
use hoyhel.Lifecycle.Rows.{
  Becomes, Evolves, Pairwise, Pairwise-refl, Pairwise-Evolves, Pairwise-Evolves_all,
  Pairwise-update_many,
}

always {ℓ κ} : {A : Type ℓ} (P : A → Type κ) (xs : List A) → ((a : A) → P a) → All P xs
always P [] h = tt
always P (x ∷ xs) h = (h x, always P xs h)

-- A change of rows that is fit for every row.
module _ (p : Booking → Bool) (f : Booking → Booking) (fit : (b : Booking) → Becomes b (f b)) where
  pub changed : (bs : List Booking) → Pairwise bs (update_many p f bs)
  changed bs =
      Pairwise-update_many p f bs (always (λ b. p b ≡ true → Becomes b (f b)) bs (λ b _. fit b))

pub sweep-Pairwise :
    (env : Env) (s : Store) → Pairwise s.bookings (expire_pending_bookings env s).1.bookings
unfolding expire_pending_bookings
sweep-Pairwise env s =
    changed (is_abandoned env.now s.payments) (expire env.now) (λ b. ground arith) s.bookings

pub list-Pairwise :
    (env : Env) (user_id : ℕ) (view : BookingView) (s : Store)
    → Pairwise s.bookings (get_user_bookings env user_id view s).1.bookings
unfolding get_user_bookings update_expired_bookings
list-Pairwise env user_id view s = changed (is_over env.now) complete (λ b. ground arith) s.bookings

pub work-Pairwise :
    (env : Env) (s : Store) → Pairwise s.bookings (process_booking_expiry_job env s).bookings
unfolding process_booking_expiry_job
work-Pairwise env s = changed (is_overdue env.now) (time_out env.now) (λ b. ground arith) s.bookings

cancelled :
    (env : Env) (booking_id user_id : ℕ) (reason : Option Text) (s : Store)
    → ((cancel_booking env booking_id user_id reason s).1.bookings ≡ s.bookings)
      ⊎ ((refund : ℕ) × ((cancel_booking env booking_id user_id reason s).1.bookings
            ≡ update_many (booking_is booking_id) (cancel env.now reason refund) s.bookings))
unfolding cancel_booking create_notification
cancelled env booking_id user_id reason s =
    elim (Option-cases (find_first (booking_is booking_id) s.bookings)) [
      | inl missing ↦ inl (ground arith)
      | inr (b, found) ↦ elim (Option-cases (find_first (property_is b.property_id) s.properties)) [
        | inl gone ↦ inl (ground arith)
        | inr (p, known) ↦
            elim (Bool-cases (not (b.guest_id == user_id) && not (p.host_id == user_id))) [
              | inl stranger ↦ inl (ground arith)
              | inr party ↦ elim (Bool-cases (is_cancelled b.status || is_completed b.status)) [
                | inl shut ↦ inl (ground arith)
                | inr still_open ↦ inr (refund_of env.now s b p, ground arith)
              ]
            ]
      ]
    ]

cancelled_by_admin :
    (env : Env) (booking_id : ℕ) (reason : Option Text) (s : Store)
    → ((cancel_booking_by_admin env booking_id reason s).1.bookings ≡ s.bookings)
      ⊎ ((cancel_booking_by_admin env booking_id reason s).1.bookings
          ≡ update_many (booking_is booking_id) (cancel_in_full env.now reason) s.bookings)
unfolding cancel_booking_by_admin
cancelled_by_admin env booking_id reason s =
    elim (Option-cases (find_first (booking_is booking_id) s.bookings)) [
      | inl missing ↦ inl (ground arith)
      | inr (b, found) ↦ elim (Option-cases (find_first (pays_for b.id) s.payments)) [
        | inl unpaid ↦ ground arith
        | inr (p, paid) ↦ ground arith
      ]
    ]

pub cancel-Pairwise :
    (env : Env) (booking_id user_id : ℕ) (reason : Option Text) (s : Store)
    → Pairwise s.bookings (cancel_booking env booking_id user_id reason s).1.bookings
cancel-Pairwise env booking_id user_id reason s = elim (cancelled env booking_id user_id reason s) [
  | inl same ↦ rw same (Pairwise-refl s.bookings)
  | inr (refund, moved) ↦ rw moved (
      changed (booking_is booking_id) (cancel env.now reason refund) (λ b. ground arith) s.bookings)
]

pub cancel_by_admin-Pairwise :
    (env : Env) (booking_id : ℕ) (reason : Option Text) (s : Store)
    → Pairwise s.bookings (cancel_booking_by_admin env booking_id reason s).1.bookings
cancel_by_admin-Pairwise env booking_id reason s =
    elim (cancelled_by_admin env booking_id reason s) [
      | inl same ↦ rw same (Pairwise-refl s.bookings)
      | inr moved ↦ rw moved (
          changed (booking_is booking_id) (cancel_in_full env.now reason) (λ b. ground arith)
            s.bookings)
    ]

pub create-Evolves :
    (env : Env) (guest_id : ℕ) (r : BookingRequest) (s : Store)
    → Evolves s.bookings (create_booking env guest_id r s).1.bookings
create-Evolves env guest_id r s = elim (create_booking-cases env guest_id r s) [
  | inl (x, refused) ↦
      rw refused (Pairwise-Evolves_all s.bookings (swept env s).bookings (sweep-Pairwise env s))
  | inr (w, same) ↦
      elim (Result-cases
        (reserve env guest_id r w.price w.quote.first w.quote.last (swept env s)).0) [
          | inl (b, made) ↦
              let row =
                reserve-IsRow env guest_id r w.price w.quote.first w.quote.last (swept env s)
                  (reserve env guest_id r w.price w.quote.first w.quote.last (swept env s)).1 b
                  (pair_eq (reserve env guest_id r w.price w.quote.first w.quote.last (swept env s))
                    made refl) in
              rw
                (
                  same,
                  transaction-ok (reserve env guest_id r w.price w.quote.first w.quote.last)
                      (swept env s) b made,
                  row.added,
                )
                (Pairwise-Evolves s.bookings (swept env s).bookings (b ∷ []) (sweep-Pairwise env s))
          | inr (x, refused) ↦
              rw
                (
                  same,
                  transaction-err (reserve env guest_id r w.price w.quote.first w.quote.last)
                      (swept env s) x refused,
                )
                (Pairwise-Evolves_all s.bookings (swept env s).bookings (sweep-Pairwise env s))
        ]
]
