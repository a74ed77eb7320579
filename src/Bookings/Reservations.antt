-- ===== src/Bookings/Reservations.antt =====
-- The theorems about `createBooking` as a whole.
use hoyhel.Prelude.{ℕ, ◌≡◌, refl, sym, ◌∙◌, inl, inr, ◌⊎◌, some, arith}
use hoyhel.Schema.{Store, Env, Booking}
use hoyhel.Service.{
  AppError, Action, ok, err, transaction, Result-cases, pair_eq, transaction-eq-ok, transaction-ok,
  transaction-err,
}
use hoyhel.Pricing.{PriceBreakdown, calculate_booking_price}
use hoyhel.Pricing.Quote.{IsQuote, calculate-IsQuote, calculate-store}
use hoyhel.Bookings.{
  BookingRequest, total_guests_of, new_booking, reserve, expire_pending_bookings, create_booking,
}
use hoyhel.Bookings.Live.{NoClash, NoClash-append, Apart-new}
use hoyhel.Bookings.Expiry.{expire_pending-NoClash}
use hoyhel.Bookings.Create.{IsRow, reserve-IsRow}

-- The store that a reservation is made in: abandoned holds are swept first.
abbrev pub swept : Env → Store → Store
swept env s = (expire_pending_bookings env s).1

abbrev pub quote_of : Env → BookingRequest → Action PriceBreakdown
quote_of env r =
    calculate_booking_price env r.property_id r.check_in r.check_out (total_guests_of r)
      r.promo_code

-- With dates and a price the request comes down to the transaction, in the swept store.
pub create_booking-transaction :
    (env : Env) (guest_id : ℕ) (r : BookingRequest) (i o : ℕ) (price : PriceBreakdown) (s : Store)
    → r.check_in ≡ some i
    → r.check_out ≡ some o
    → (quote_of env r (swept env s)).0 ≡ ok price
    → create_booking env guest_id r s ≡ transaction (reserve env guest_id r price i o) (swept env s)
unfolding create_booking expire_pending_bookings
create_booking-transaction env guest_id r i o price s ei eo eq = ground (
  arith,
  calculate-store env r.property_id r.check_in r.check_out (total_guests_of r) r.promo_code
      (swept env s),
)

-- Without a price there is no booking.
create_booking-no_price :
    (env : Env) (guest_id : ℕ) (r : BookingRequest) (x : AppError) (s : Store)
    → (quote_of env r (swept env s)).0 ≡ err x
    → create_booking env guest_id r s ≡ (err x, swept env s)
unfolding create_booking expire_pending_bookings
create_booking-no_price env guest_id r x s eq = ground (
  arith,
  calculate-store env r.property_id r.check_in r.check_out (total_guests_of r) r.promo_code
      (swept env s),
)

-- A request whose price is given, with the dates that the quote read.
pub record IsPriced (env : Env) (r : BookingRequest) (s : Store) : Type 0 where
  pub price : PriceBreakdown
  pub quote :
      IsQuote env r.property_id r.check_in r.check_out
        (total_guests_of r)
        r.promo_code
        (swept env s)
        price
  pub granted : (quote_of env r (swept env s)).0 ≡ ok price

-- Either no price is given, and only the sweep is done, or the transaction decides.
pub create_booking-cases :
    (env : Env) (guest_id : ℕ) (r : BookingRequest) (s : Store)
    → ((x : AppError) × (create_booking env guest_id r s ≡ (err x, swept env s)))
      ⊎ ((w : IsPriced env r s) × (create_booking env guest_id r s
            ≡ transaction
                (reserve env guest_id r w.price w.quote.first w.quote.last)
                (swept env s)))
create_booking-cases env guest_id r s = elim (Result-cases (quote_of env r (swept env s)).0) [
  | inl (price, granted) ↦
      let quoted =
        calculate-IsQuote env r.property_id r.check_in r.check_out (total_guests_of r) r.promo_code
          (swept env s) (swept env s) price
          (pair_eq (quote_of env r (swept env s)) granted (
            calculate-store env r.property_id r.check_in r.check_out (total_guests_of r)
              r.promo_code (swept env s))) in
      inr (
        record { price = price; quote = quoted; granted = granted },
        create_booking-transaction env guest_id r quoted.first quoted.last price s
            quoted.first_given quoted.last_given granted,
      )
  | inr (x, refused) ↦ inl (x, create_booking-no_price env guest_id r x s refused)
]

-- A booking that was made, the price that it was made at, and the store that it left.
pub record IsReserved (env : Env) (guest_id : ℕ) (r : BookingRequest) (s : Store) (b : Booking)
    (t : Store) : Type 0 where
  pub priced : IsPriced env r s
  pub row : IsRow env guest_id r priced.price priced.quote.first priced.quote.last (swept env s) b t

-- Every booking that is made was quoted at its price for the dates of the request, passed the checks of the
-- transaction (published property, unrestricted guest who is not the host, party that fits, and over the dates cut
-- to the day no blocked date and no active booking in force) and was added to the bookings that the sweep of
-- abandoned holds left. Its row has the guest, the listing, the days, the party and the amounts of the quote, and is
-- pending payment for fifteen minutes.
pub create_booking-IsReserved :
    (env : Env) (guest_id : ℕ) (r : BookingRequest) (s t : Store) (b : Booking)
    → create_booking env guest_id r s ≡ (ok b, t)
    → IsReserved env guest_id r s b t
create_booking-IsReserved env guest_id r s t b e = elim (create_booking-cases env guest_id r s) [
  | inl (x, refused) ↦ absurd (ground arith)
  | inr (w, same) ↦ record {
    priced = w;
    row = reserve-IsRow env guest_id r w.price w.quote.first w.quote.last (swept env s) t b (
        transaction-eq-ok (reserve env guest_id r w.price w.quote.first w.quote.last) (swept env s)
          t b (sym same ∙ e));
  }
]

reserved-NoClash :
    (env : Env) (guest_id : ℕ) (r : BookingRequest) (price : PriceBreakdown) (i o : ℕ) (s : Store)
    → NoClash env.now s.bookings
    → NoClash env.now (transaction (reserve env guest_id r price i o) s).1.bookings
reserved-NoClash env guest_id r price i o s h =
    elim (Result-cases (reserve env guest_id r price i o s).0) [
      | inl (b, made) ↦
          let w =
            reserve-IsRow env guest_id r price i o s (reserve env guest_id r price i o s).1 b
              (pair_eq (reserve env guest_id r price i o s) made refl) in
          let c = new_booking env guest_id r w.property price i o in
          rw (transaction-ok (reserve env guest_id r price i o) s b made, w.added, w.row)
            (NoClash-append env.now s.bookings c h
              (Apart-new env.now i o s.bookings c refl refl w.cleared.free))
      | inr (x, refused) ↦ rw (transaction-err (reserve env guest_id r price i o) s x refused) h
    ]

-- Where no two active bookings that are in force overlap at the instant of a
-- request, none do after it, whether it returns a booking or throws.
pub create_booking-NoClash :
    (env : Env) (guest_id : ℕ) (r : BookingRequest) (s : Store)
    → NoClash env.now s.bookings
    → NoClash env.now (create_booking env guest_id r s).1.bookings
create_booking-NoClash env guest_id r s h =
    let clean = expire_pending-NoClash env.now env s h in
    elim (create_booking-cases env guest_id r s) [
      | inl (x, refused) ↦ rw refused clean
      | inr (w, same) ↦
          rw same
            (reserved-NoClash env guest_id r w.price w.quote.first w.quote.last (swept env s) clean)
    ]
