-- ===== src/Bookings/Create.antt =====
-- What `createBooking` guarantees when it returns a booking.
use hoyhel.Prelude.{
  ℕ, max, ◌+◌, ◌*◌, ◌/◌, refl, sym, subst, ◌≤◌, ◌≡◌, ◌≢◌, inl, inr, true, false, [], ◌∷◌, ◌++◌,
  some, find_first, exists_row, Option-cases, arith,
}
use hoyhel.Schema.{Store, Env, User, Property, Booking, BookingStatus, is_published}
use hoyhel.Service.{ok, Result-cases}
use hoyhel.Notifications.{create_notification}
use hoyhel.Pricing.{PriceBreakdown, or_num}
use hoyhel.Bookings.{
  BookingRequest, total_guests_of, user_is, is_restricted, property_is, blocks_stay, overlaps_stay,
  new_booking, check_booking, reserve,
}

-- What the checks of the transaction establish of the property that they return.
pub record IsCleared (env : Env) (guest_id : ℕ) (r : BookingRequest) (check_in check_out : ℕ)
    (s : Store) (p : Property) : Type 0 where
  pub guest : User
  pub property_found : find_first (property_is r.property_id) s.properties ≡ some p
  pub published : is_published p.status ≡ true
  pub guest_found : find_first (user_is guest_id) s.users ≡ some guest
  pub unrestricted : is_restricted guest ≡ false
  pub not_host : p.host_id ≢ guest_id
  pub fits : total_guests_of r ≤ p.max_guests
  pub unblocked : exists_row (blocks_stay r.property_id check_in check_out) s.availabilities ≡ false
  pub free : exists_row (overlaps_stay env.now r.property_id check_in check_out) s.bookings ≡ false

check_booking-store :
    (env : Env) (guest_id : ℕ) (r : BookingRequest) (i o : ℕ) (s : Store)
    → (check_booking env guest_id r i o s).1 ≡ s
unfolding check_booking
check_booking-store env guest_id r i o s =
    elim (Option-cases (find_first (property_is r.property_id) s.properties)) [
      | inl missing ↦ ground arith
      | inr (q, found) ↦ elim (Option-cases (find_first (user_is guest_id) s.users)) [
        | inl stranger ↦ ground arith
        | inr (u, known) ↦ ground arith
      ]
    ]

check_booking-IsCleared :
    (env : Env) (guest_id : ℕ) (r : BookingRequest) (i o : ℕ) (s : Store) (p : Property)
    → (check_booking env guest_id r i o s).0 ≡ ok p
    → IsCleared env guest_id r i o s p
unfolding check_booking
check_booking-IsCleared env guest_id r i o s p e =
    elim (Option-cases (find_first (property_is r.property_id) s.properties)) [
      | inl missing ↦ absurd (ground arith)
      | inr (q, found) ↦ elim (Option-cases (find_first (user_is guest_id) s.users)) [
        | inl stranger ↦ absurd (ground arith)
        | inr (u, known) ↦ record {
          guest = u;
          property_found = ground arith;
          published = ground arith;
          guest_found = known;
          unrestricted = ground arith;
          not_host = ground arith;
          fits = ground arith;
          unblocked = ground arith;
          free = ground arith;
        }
      ]
    ]

-- The row that a request is booked with, field by field.
pub record IsBooked (env : Env) (guest_id : ℕ) (r : BookingRequest) (p : Property)
    (price : PriceBreakdown) (i o : ℕ) (b : Booking) : Type 0 where
  pub guest : b.guest_id ≡ guest_id
  pub property : b.property_id ≡ r.property_id
  pub first_day : b.check_in ≡ i / 86400000 * 86400000
  pub last_day : b.check_out ≡ o / 86400000 * 86400000
  pub adults : b.adults_count ≡ max 1 (or_num r.adults_count (or_num r.guests_count 1))
  pub guests : b.guests_count ≡ b.adults_count + b.children_count
  pub nights : b.nights ≡ price.nights
  pub subtotal : b.subtotal ≡ price.subtotal
  pub cleaning_fee : b.cleaning_fee ≡ price.cleaning_fee
  pub service_fee : b.service_fee ≡ price.service_fee
  pub taxes : b.taxes ≡ price.taxes
  pub discount : b.discount ≡ price.discount
  pub total_price : b.total_price ≡ price.total_price
  pub policy : b.cancellation_policy_snapshot ≡ p.cancellation_policy
  pub held : b.status ≡ BookingStatus.pending_payment
  pub hold : b.expires_at ≡ some (env.now + 15 * 60 * 1000)
  pub unrefunded : b.refunded_amount ≡ 0
  pub created : b.created_at ≡ env.now

pub new_booking-IsBooked :
    (env : Env) (guest_id : ℕ) (r : BookingRequest) (p : Property) (price : PriceBreakdown)
    (i o : ℕ)
    → IsBooked env guest_id r p price i o (new_booking env guest_id r p price i o)
new_booking-IsBooked env guest_id r p price i o = record {
  guest = refl;
  property = refl;
  first_day = refl;
  last_day = refl;
  adults = refl;
  guests = refl;
  nights = refl;
  subtotal = refl;
  cleaning_fee = refl;
  service_fee = refl;
  taxes = refl;
  discount = refl;
  total_price = refl;
  policy = refl;
  held = refl;
  hold = refl;
  unrefunded = refl;
  created = refl;
}

-- What the transaction leaves when it returns a booking.

pub record IsRow (env : Env) (guest_id : ℕ) (r : BookingRequest) (price : PriceBreakdown) (i o : ℕ)
    (s : Store) (b : Booking) (t : Store) : Type 0 where
  pub property : Property
  pub cleared : IsCleared env guest_id r i o s property
  pub row : b ≡ new_booking env guest_id r property price i o
  pub booked : IsBooked env guest_id r property price i o b
  pub added : t.bookings ≡ s.bookings ++ b ∷ []

pub reserve-IsRow :
    (env : Env) (guest_id : ℕ) (r : BookingRequest) (price : PriceBreakdown) (i o : ℕ) (s t : Store)
    (b : Booking)
    → reserve env guest_id r price i o s ≡ (ok b, t)
    → IsRow env guest_id r price i o s b t
unfolding reserve create_notification
reserve-IsRow env guest_id r price i o s t b e =
    elim (Result-cases (check_booking env guest_id r i o s).0) [
      | inl (p, fine) ↦
          let made : b ≡ new_booking env guest_id r p price i o = ground arith in
          record {
            property = p;
            cleared = check_booking-IsCleared env guest_id r i o s p fine;
            row = made;
            booked =
                subst (IsBooked env guest_id r p price i o) (sym made)
                  (new_booking-IsBooked env guest_id r p price i o);
            added = ground (arith, check_booking-store env guest_id r i o s);
          }
      | inr (x, refused) ↦ absurd (ground arith)
    ]
