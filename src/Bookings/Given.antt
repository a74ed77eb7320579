-- ===== src/Bookings/Given.antt =====
-- When `createBooking` returns a booking and when it refuses.
use hoyhel.Prelude.{
  ◌⊎◌, inl, inr, Bool-cases, ℕ, ◌≤◌, ◌<◌, ◌≡◌, ◌≢◌, refl, ◌∙◌, inl, inr, true, false, [], ◌∷◌, ◌++◌,
  none, some, find_first, exists_row, exists_row-update_many, arith,
}
use hoyhel.Schema.{Store, Env, User, Property, Booking, is_published, start_of_day}
use hoyhel.Service.{AppError, ok, err, transaction}
use hoyhel.Notifications.{create_notification}
use hoyhel.Pricing.{PriceBreakdown, totals, nights_between}
use hoyhel.Pricing.Quote.{quote_given, quoted_subtotal}
use hoyhel.Bookings.{
  BookingRequest, total_guests_of, user_is, is_restricted, property_is, blocks_stay, overlaps_stay,
  has_number, is_abandoned, expire, new_booking, check_booking, reserve, expire_pending_bookings,
  create_booking,
}
use hoyhel.Bookings.Create.{IsBooked, new_booking-IsBooked}
use hoyhel.Bookings.Reservations.{swept, quote_of, create_booking-transaction}

-- A request, without a promotion code, that only the bookings of others can stand against.
pub record IsBookable (env : Env) (guest_id : ℕ) (r : BookingRequest) (check_in check_out : ℕ)
    (s : Store) (p : Property) (guest : User) : Type 0 where
  pub given_in : r.check_in ≡ some check_in
  pub given_out : r.check_out ≡ some check_out
  pub no_code : r.promo_code ≡ none
  pub in_order : check_in < check_out
  pub not_past : start_of_day env.now ≤ check_in
  pub property_found : find_first (property_is r.property_id) s.properties ≡ some p
  pub published : is_published p.status ≡ true
  pub guest_found : find_first (user_is guest_id) s.users ≡ some guest
  pub unrestricted : is_restricted guest ≡ false
  pub not_host : p.host_id ≢ guest_id
  pub fits : total_guests_of r ≤ p.max_guests
  pub unblocked : exists_row (blocks_stay r.property_id check_in check_out) s.availabilities ≡ false
  pub number_free : exists_row (has_number (env.random 0)) s.bookings ≡ false

module _ (env : Env) (guest_id : ℕ) (r : BookingRequest) (i o : ℕ) (s : Store) (p : Property)
    (guest : User) (w : IsBookable env guest_id r i o s p guest) where
  bookable_price : (price : PriceBreakdown) × ((quote_of env r (swept env s)).0 ≡ ok price)
  unfolding expire_pending_bookings
  bookable_price =
      let e =
        quote_given env r.property_id i o (total_guests_of r) (swept env s) p w.in_order w.not_past
          w.property_found w.fits in
      (
        totals (nights_between i o) (quoted_subtotal r.property_id i o (swept env s) p)
            p.cleaning_fee 0 none,
        ground (arith, e),
      )

  number_free_swept : exists_row (has_number (env.random 0)) (swept env s).bookings ≡ false
  unfolding expire_pending_bookings
  number_free_swept =
      exists_row-update_many (has_number (env.random 0)) (is_abandoned env.now s.payments)
        (expire env.now) s.bookings (λ b _. refl)
      ∙ w.number_free

  reserve_free :
      (price : PriceBreakdown)
      → exists_row (overlaps_stay env.now r.property_id i o) (swept env s).bookings ≡ false
      → ((transaction (reserve env guest_id r price i o) (swept env s)).0
          ≡ ok (new_booking env guest_id r p price i o))
        × ((transaction (reserve env guest_id r price i o) (swept env s)).1.bookings
            ≡ (swept env s).bookings ++ new_booking env guest_id r p price i o ∷ [])
  unfolding reserve check_booking create_notification expire_pending_bookings
  reserve_free price free = ground (arith, number_free_swept)

  reserve_taken :
      (price : PriceBreakdown)
      → exists_row (overlaps_stay env.now r.property_id i o) (swept env s).bookings ≡ true
      → transaction (reserve env guest_id r price i o) (swept env s) ≡ (
        err (AppError.conflict "Property has already been reserved for the selected dates"),
        swept env s,
      )
  unfolding reserve check_booking expire_pending_bookings
  reserve_taken price taken = ground arith

  -- Where no active booking in force overlaps the dates, the booking is made: it is the row for the
  -- request, added to the bookings that the sweep left.
  pub create_free :
      exists_row (overlaps_stay env.now r.property_id i o) (swept env s).bookings ≡ false
      → (price : PriceBreakdown) × ((quote_of env r (swept env s)).0 ≡ ok price)
        × ((create_booking env guest_id r s).0 ≡ ok (new_booking env guest_id r p price i o))
        × ((create_booking env guest_id r s).1.bookings
            ≡ (swept env s).bookings ++ new_booking env guest_id r p price i o ∷ [])
  create_free free =
      let (price, granted) = bookable_price in
      let made = reserve_free price free in
      let same =
        create_booking-transaction env guest_id r i o price s w.given_in w.given_out granted in
      (price, granted, rw same made.0, rw same made.1)

  -- Where one does, the request is refused and nothing is added.
  pub create_taken :
      exists_row (overlaps_stay env.now r.property_id i o) (swept env s).bookings ≡ true
      → create_booking env guest_id r s ≡ (
        err (AppError.conflict "Property has already been reserved for the selected dates"),
        swept env s,
      )
  create_taken taken =
      let (price, granted) = bookable_price in
      create_booking-transaction env guest_id r i o price s w.given_in w.given_out granted
      ∙ reserve_taken price taken

-- A request without a promotion code that nothing but other bookings can stand against is granted
-- exactly where no active booking in force overlaps its dates, cut to the day, once abandoned holds are swept.
-- Granted, it is booked at the price of its quote, with the guest, the listing, the days, the party and the
-- amounts spelled out in IsBooked, and added to what the sweep left; otherwise it is a conflict, and nothing is added.
pub create_decides :
    (env : Env) (guest_id : ℕ) (r : BookingRequest) (i o : ℕ) (s : Store) (p : Property)
    (guest : User)
    → IsBookable env guest_id r i o s p guest
    → ((exists_row (overlaps_stay env.now r.property_id i o) (swept env s).bookings ≡ false)
        × (price : PriceBreakdown) × (b : Booking) × ((quote_of env r (swept env s)).0 ≡ ok price)
        × IsBooked env guest_id r p price i o b
        × ((create_booking env guest_id r s).0 ≡ ok b)
        × ((create_booking env guest_id r s).1.bookings ≡ (swept env s).bookings ++ b ∷ []))
      ⊎ ((exists_row (overlaps_stay env.now r.property_id i o) (swept env s).bookings ≡ true)
          × (create_booking env guest_id r s ≡ (
            err (AppError.conflict "Property has already been reserved for the selected dates"),
            swept env s,
          )))
create_decides env guest_id r i o s p guest w =
    elim (Bool-cases
      (exists_row (overlaps_stay env.now r.property_id i o) (swept env s).bookings)) [
        | inl taken ↦ inr (taken, create_taken env guest_id r i o s p guest w taken)
        | inr free ↦
            let (price, quoted, made, added) = create_free env guest_id r i o s p guest w free in
            inl (
              free,
              price,
              new_booking env guest_id r p price i o,
              quoted,
              new_booking-IsBooked env guest_id r p price i o,
              made,
              added,
            )
      ]
