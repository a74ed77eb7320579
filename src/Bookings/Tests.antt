-- ===== src/Bookings/Tests.antt =====
-- Witnesses and tests for bookings.
use hoyhel.Prelude.{
  ◌≤◌, ◌⊎◌, ◌≡◌, refl, true, false, [], ◌∷◌, ◌++◌, none, some, arith, count, exists_row, find_first,
  update_many, find_many,
}
use hoyhel.Schema.{Store, Booking, BookingStatus, CancellationPolicy}
use hoyhel.Service.{AppError, ok, err, pair_eq}
use hoyhel.Pricing.{
  PriceBreakdown, totals, nights_between, calculate_booking_price, promo_discount_of, round_div,
  add_nights, availability_map, map_get,
}
use hoyhel.Notifications.{create_notification}
use hoyhel.Bookings.{
  booking_is, property_is, BookingRequest, overlaps_stay, new_booking, expire_pending_bookings,
  create_booking, check_booking, reserve,
}
use hoyhel.Bookings.Cancel.{days_before, refund_percent, eligible_refund}
use hoyhel.Bookings.Refunds.{refund_of, refund_percent_order}
use hoyhel.Bookings.Create.{IsBooked}
use hoyhel.Bookings.Reservations.{IsReserved, swept, quote_of, create_booking-IsReserved}
use hoyhel.Bookings.Given.{IsBookable, create_decides}
use hoyhel.Samples.{env, other_guest, villa, shop, held_shop, paid_shop, stay}

abbrev request : BookingRequest
request = record {
  property_id = 50;
  check_in = some 1728950400000;
  check_out = some 1729123200000;
  adults_count = some 2;
  children_count = none;
  infants_count = none;
  pets_count = none;
  guests_count = none;
  special_requests = none;
  estimated_arrival = none;
  emergency_name = none;
  emergency_phone = none;
  emergency_relation = none;
  promo_code = none;
}

abbrev pub later_request : BookingRequest
later_request = record request { check_in = some 1729036800000; check_out = some 1729209600000 }

later-IsBookable :
    IsBookable env 3 later_request 1729036800000 1729209600000 held_shop villa other_guest
unfolding find_first exists_row
later-IsBookable = ground arith

create_decides_example :
    ((exists_row
          (overlaps_stay 1728000003600 50 1729036800000 1729209600000)
          (swept env held_shop).bookings
        ≡ false)
      × (price : PriceBreakdown) × (b : Booking) × ((quote_of env later_request
            (swept env held_shop)).0
          ≡ ok price)
      × IsBooked env 3 later_request villa price 1729036800000 1729209600000 b
      × ((create_booking env 3 later_request held_shop).0 ≡ ok b)
      × ((create_booking env 3 later_request held_shop).1.bookings
          ≡ (swept env held_shop).bookings ++ b ∷ []))
    ⊎ ((exists_row
            (overlaps_stay 1728000003600 50 1729036800000 1729209600000)
            (swept env held_shop).bookings
          ≡ true)
        × (create_booking env 3 later_request held_shop ≡ (
          err (AppError.conflict "Property has already been reserved for the selected dates"),
          swept env held_shop,
        )))
create_decides_example =
    create_decides env 3 later_request 1729036800000 1729209600000 held_shop villa other_guest
      later-IsBookable

-- The dates after the stay are free, so the request is granted.
abbrev pub granted_booking : Booking
granted_booking =
    new_booking env 3 later_request villa (totals 2 20000 2500 0 none) 1729036800000 1729209600000

pub later_granted : (create_booking env 3 later_request held_shop).0 ≡ ok granted_booking
unfolding create_booking expire_pending_bookings calculate_booking_price reserve check_booking
    find_first exists_row update_many count find_many promo_discount_of totals nights_between
    round_div add_nights availability_map map_get create_notification
later_granted = refl

create_booking-IsReserved_example :
    IsReserved env 3 later_request held_shop granted_booking
      (create_booking env 3 later_request held_shop).1
create_booking-IsReserved_example =
    create_booking-IsReserved env 3 later_request held_shop
      (create_booking env 3 later_request held_shop).1 granted_booking
      (pair_eq (create_booking env 3 later_request held_shop) later_granted refl)

-- The dates of the stay are taken.
overlap_refused :
    (create_booking env 3 request held_shop).0
    ≡ err (AppError.conflict "Property has already been reserved for the selected dates")
unfolding create_booking expire_pending_bookings calculate_booking_price reserve check_booking
    find_first exists_row update_many count find_many promo_discount_of totals nights_between
    round_div add_nights availability_map map_get create_notification
overlap_refused = refl

-- Eight days before the stay and six days before it.
refund_percent_order_example :
    (refund_percent CancellationPolicy.moderate (days_before 1728864000000 1728345600000)
      ≤ refund_percent CancellationPolicy.moderate (days_before 1728864000000 1728172800000))
    × (refund_percent CancellationPolicy.moderate (days_before 1728864000000 1728172800000) ≤ 100)
    × (refund_percent CancellationPolicy.strict (days_before 1728864000000 1728172800000)
        ≤ refund_percent CancellationPolicy.moderate (days_before 1728864000000 1728172800000))
    × (refund_percent CancellationPolicy.moderate (days_before 1728864000000 1728172800000)
        ≤ refund_percent CancellationPolicy.flexible (days_before 1728864000000 1728172800000))
refund_percent_order_example =
    refund_percent_order CancellationPolicy.moderate 1728864000000 1728172800000 1728345600000
      (omega arith)

abbrev paid_stay : Booking
paid_stay = record stay { status = BookingStatus.confirmed }

-- Ten days before the stay the moderate policy gives back the whole price.
whole_refund : refund_of env.now paid_shop paid_stay villa ≡ 2626000
unfolding refund_percent eligible_refund find_first days_before
whole_refund = refl

abbrev closed_shop : Store
closed_shop = record shop { bookings = record stay { status = BookingStatus.completed } ∷ [] }

closed_found :
    find_first (booking_is 80) closed_shop.bookings
    ≡ some (record stay { status = BookingStatus.completed })
unfolding find_first
closed_found = refl

villa_found : find_first (property_is 50) closed_shop.properties ≡ some villa
unfolding find_first
villa_found = refl
