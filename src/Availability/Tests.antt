-- ===== src/Availability/Tests.antt =====
-- Witnesses and tests for the calendar.
use hoyhel.Prelude.{
  count, find_many, ◌==◌, ◌≡◌, ◌⊎◌, refl, true, false, List, [], ◌∷◌, none, some, find_first,
  exists_row, update_many, arith,
}
use hoyhel.Schema.{Store, Availability}
use hoyhel.Service.{AppError, ok, err}
use hoyhel.Pricing.{
  totals, nights_between, calculate_booking_price, promo_discount_of, round_div, add_nights,
  availability_map, map_get,
}
use hoyhel.Notifications.{create_notification}
use hoyhel.Bookings.{
  BookingRequest, property_is, expire_pending_bookings, check_booking, reserve, create_booking,
}
use hoyhel.Availability.{
  check_dates, DateUpdate, upsert_date, upsert_dates, set_availabilities, update_date_availability,
}
use hoyhel.Availability.Calendar.{cell, replay, upsert_dates-replay}
use hoyhel.Availability.Blocked.{takes_stay, update_decides, blocked_unbookable}
use hoyhel.Samples.{env, villa, shop, held_shop}

-- The day after the stay: blocked, then priced.
abbrev block : DateUpdate
block = record {
  date = some 1729036800000;
  is_blocked = some true;
  custom_price = none;
  min_stay = none;
  max_stay = none;
  note = none;
}

abbrev price : DateUpdate
price = record block { is_blocked = none; custom_price = some (some 15000) }

abbrev blocked_day : Availability
blocked_day = record {
  property_id = 50;
  date = 1729036800000;
  is_blocked = true;
  custom_price = some 15000;
  min_stay = none;
  max_stay = none;
  note = none;
}

both_written : upsert_dates 50 (block ∷ price ∷ []) [] ≡ some (blocked_day ∷ [])
unfolding upsert_dates upsert_date exists_row update_many
both_written = refl

upsert_dates-replay_example :
    cell 50 1729036800000 (blocked_day ∷ []) ≡ replay 50 1729036800000 (block ∷ price ∷ []) none
unfolding find_first
upsert_dates-replay_example =
    upsert_dates-replay 50 1729036800000 (block ∷ price ∷ []) [] (blocked_day ∷ []) both_written

villa_found : find_first (property_is 50) held_shop.properties ≡ some villa
unfolding find_first
villa_found = refl

update_decides_example :
    ((exists_row (takes_stay env.now 50 held_shop.bookings) (block ∷ []) ≡ false)
      × (after : List Availability) × (upsert_dates 50 (block ∷ []) [] ≡ some after)
      × (update_date_availability env 1 50 (block ∷ []) held_shop
          ≡ (ok 1, set_availabilities after held_shop)))
    ⊎ ((exists_row (takes_stay env.now 50 held_shop.bookings) (block ∷ []) ≡ true)
        × (update_date_availability env 1 50 (block ∷ []) held_shop ≡ (
          err (AppError.conflict "These dates already contain a confirmed guest reservation"),
          held_shop,
        )))
update_decides_example =
    update_decides env 1 50 (block ∷ []) held_shop villa villa_found refl
      ((1729036800000, refl), tt)

-- The first night of the stay cannot be blocked.
stay_kept :
    update_date_availability env 1 50 (record block { date = some 1728864000000 } ∷ []) held_shop
    ≡ (
      err (AppError.conflict "These dates already contain a confirmed guest reservation"),
      held_shop,
    )
unfolding update_date_availability find_first exists_row check_dates
stay_kept = refl

abbrev blocked_shop : Store
blocked_shop = record shop { availabilities = blocked_day ∷ [] }

day_found : cell 50 1729036800000 blocked_shop.availabilities ≡ some blocked_day
unfolding find_first
day_found = refl

abbrev request : BookingRequest
request = record {
  property_id = 50;
  check_in = some 1728950400000;
  check_out = some 1729209600000;
  adults_count = some 2;
  children_count = none;
  infants_count = none;
  pets_count = none;
  guests_count = none;
  special_requests = none;
  estimated_arrival = none;
  emergency_name = none;
  emergency_phone = none;
  emergency_relation = none;
  promo_code = none;
}

blocked_unbookable_example :
    (x : AppError) × ((create_booking env 2 request blocked_shop).0 ≡ err x)
blocked_unbookable_example =
    blocked_unbookable env 2 1729036800000 1728950400000 1729209600000 request blocked_shop
      blocked_day day_found refl refl refl (omega arith) (omega arith)

-- A stay from the start of the blocked day to noon is booked, and stored without a night.
abbrev half_day : BookingRequest
half_day = record request { check_in = some 1729036800000; check_out = some 1729080000000 }

half_day_booked :
    count (λ b. b.check_in == b.check_out) (create_booking env 2 half_day blocked_shop).1.bookings
    ≡ 1
unfolding create_booking expire_pending_bookings calculate_booking_price reserve check_booking
    find_first exists_row update_many count find_many promo_discount_of totals nights_between
    round_div add_nights availability_map map_get create_notification
half_day_booked = refl
