-- ===== src/Pricing.antt =====
-- backend/src/modules/bookings/pricing.service.ts. Amounts are whole cents, percentages whole, and
-- `Math.round(x * 100) / 100` is the rounding of an exact quotient to the nearest cent, halves up.
pub mod Totals
pub mod Nights
pub mod Quote
mod Tests
use hoyhel.Prelude.{
  ℕ, zero, suc, ◌+◌, ◌-◌, ◌*◌, ◌/◌, ◌<◌, min, Bool, true, false, not, ◌&&◌, ◌||◌, List, [], ◌∷◌,
  Option, none, some, ltb, leb, ◌==◌, if◌then◌else◌, find_first, find_many, Text, text_eq, trim,
  to_upper_case,
}
use hoyhel.Schema.{Store, Env, Property, Availability, DiscountCode, day_ms, start_of_day}
use hoyhel.Service.{AppError, Action, pure, throw, gets, or_throw, throw_if, ◌>>=◌, ◌>>◌}

pub record PriceBreakdown : Type 0 where
  pub nights : ℕ
  pub avg_nightly_price : ℕ
  pub subtotal : ℕ
  pub cleaning_fee : ℕ
  pub service_fee : ℕ
  pub taxes : ℕ
  pub discount : ℕ
  pub promo_discount : ℕ
  pub total_price : ℕ
  pub promo_code_applied : Option Text

-- `Math.round(a / b)`
unfoldable pub round_div : ℕ → ℕ → ℕ
round_div a b = (2 * a + b) / (2 * b)

-- `Math.ceil(diffTime / (1000 * 60 * 60 * 24))`
unfoldable pub nights_between : ℕ → ℕ → ℕ
nights_between check_in check_out = (check_out - check_in + (day_ms - 1)) / day_ms

-- `date.toISOString().split('T')[0]`, as the number of the day
abbrev pub date_key : ℕ → ℕ
date_key t = t / day_ms

-- `availabilityMap`: a later row overwrites an earlier one.
unfoldable pub availability_map : List (ℕ × ℕ) → List Availability → List (ℕ × ℕ)
availability_map m [] = m
availability_map m (av ∷ avs) =
    availability_map
      (elim av.custom_price [ none ↦ m | some price ↦ (date_key av.date, price) ∷ m ]) avs

unfoldable pub map_get : ℕ → List (ℕ × ℕ) → Option ℕ
map_get k [] = none
map_get k ((j, v) ∷ m) = if j == k then some v else map_get k m

-- `a || b` on a number that may be missing: zero counts as missing.
abbrev pub or_num : Option ℕ → ℕ → ℕ
or_num none d = d
or_num (some zero) d = d
or_num (some (suc n)) d = suc n

abbrev pub nightly_cost : List (ℕ × ℕ) → ℕ → ℕ → ℕ
nightly_cost m base_price t = or_num (map_get (date_key t) m) base_price

-- The loop over the nights: the rounds left, the date, and the sum so far.
unfoldable pub add_nights : (ℕ → ℕ) → ℕ → ℕ → ℕ → ℕ
add_nights cost zero current subtotal = subtotal
add_nights cost (suc n) current subtotal =
    add_nights cost n (current + day_ms) (subtotal + cost current)

-- 10% platform service fee, 8% occupancy tax on what includes it, 10% off from a week on
unfoldable pub service_fee_of : ℕ → ℕ
unfolding round_div
service_fee_of subtotal = round_div (subtotal * 10) 100

unfoldable pub taxes_of : ℕ → ℕ → ℕ
unfolding round_div
taxes_of subtotal service_fee = round_div ((subtotal + service_fee) * 8) 100

unfoldable pub duration_discount_of : ℕ → ℕ → ℕ
unfolding round_div
duration_discount_of nights subtotal = if leb 7 nights then round_div (subtotal * 10) 100 else 0

abbrev is_past : ℕ → Option ℕ → Bool
is_past now none = false
is_past now (some t) = ltb t now

-- What an accepted code takes off.
unfoldable pub code_discount : DiscountCode → ℕ → ℕ
unfolding round_div
code_discount c subtotal = elim (or_num c.discount_percent 0) [
  | suc p ↦ round_div (subtotal * suc p) 100
  | zero ↦ elim (or_num c.discount_amount 0) [ zero ↦ 0 | suc a ↦ min subtotal (suc a) ]
]

abbrev code_is : Text → DiscountCode → Bool
code_is code c = text_eq c.code (to_upper_case (trim code))

unfoldable pub check_code : Env → Text → ℕ → Action ℕ
unfolding code_discount
check_code env code subtotal = do
  record_found ← gets (λ s. find_first (code_is code) s.discount_codes)
  c ← or_throw record_found (AppError.validation "Invalid or inactive promo code")
  throw_if (not c.is_active) (AppError.validation "Invalid or inactive promo code")
  throw_if (is_past env.now c.expires_at) (AppError.validation "Promo code has expired")
  throw_if (leb c.max_uses c.used_count)
      (AppError.validation "Promo code usage limit has been reached")
  throw_if (ltb subtotal c.min_booking_amount) (AppError.below_promo_minimum c.min_booking_amount)
  pure (code_discount c subtotal)

-- `if (promoCode)`: an empty code is none.
unfoldable pub promo_discount_of : Env → Option Text → ℕ → Action ℕ
unfolding check_code
promo_discount_of env none subtotal = pure 0
promo_discount_of env (some []) subtotal = pure 0
promo_discount_of env (some (u ∷ us)) subtotal = check_code env (u ∷ us) subtotal

abbrev applied_code : Option Text → Option Text
applied_code none = none
applied_code (some []) = none
applied_code (some (u ∷ us)) = some (to_upper_case (trim (u ∷ us)))

-- The totals, from the nights, the subtotal, the cleaning fee and the promotion's discount.
unfoldable pub totals : ℕ → ℕ → ℕ → ℕ → Option Text → PriceBreakdown
unfolding service_fee_of taxes_of duration_discount_of
totals nights subtotal cleaning_fee promo_discount promo_code = record {
  nights = nights;
  avg_nightly_price = round_div subtotal nights;
  subtotal = subtotal;
  cleaning_fee = cleaning_fee;
  service_fee = service_fee_of subtotal;
  taxes = taxes_of subtotal (service_fee_of subtotal);
  discount = duration_discount_of nights subtotal + promo_discount;
  promo_discount = promo_discount;
  total_price =
      subtotal
      + cleaning_fee
      + service_fee_of subtotal
      + taxes_of subtotal (service_fee_of subtotal)
      - (duration_discount_of nights subtotal + promo_discount);
  promo_code_applied = applied_code promo_code;
}

abbrev pub has_id : ℕ → Property → Bool
has_id property_id p = p.id == property_id

-- `availabilities: { where: { date: { gte: checkIn, lt: checkOut } } }`
abbrev in_stay : ℕ → ℕ → ℕ → Availability → Bool
in_stay property_id check_in check_out av =
    av.property_id == property_id
    && leb (start_of_day check_in) av.date
    && ltb av.date (start_of_day check_out)

abbrev pub subtotal_of : Property → List Availability → ℕ → ℕ → ℕ
subtotal_of property avs nights check_in =
    add_nights (nightly_cost (availability_map [] avs) property.base_price) nights check_in 0

-- `calculateBookingPrice`. A date is `none` where `new Date(…)` is invalid.
unfoldable pub calculate_booking_price :
    Env → ℕ → Option ℕ → Option ℕ → ℕ → Option Text → Action PriceBreakdown
calculate_booking_price env property_id check_in_date check_out_date guests_count promo_code = do
  check_in ←
      or_throw check_in_date (AppError.validation "Invalid check-in or check-out date format")
  check_out ←
      or_throw check_out_date (AppError.validation "Invalid check-in or check-out date format")
  throw_if (leb check_out check_in)
      (AppError.validation "Check-out date must be after check-in date")
  throw_if (ltb check_in (start_of_day env.now))
      (AppError.validation "Check-in date cannot be in the past")
  row ← gets (λ s. find_first (has_id property_id) s.properties)
  property ← or_throw row (AppError.not_found "Property")
  avs ← gets (λ s. find_many (in_stay property_id check_in check_out) s.availabilities)
  throw_if (ltb property.max_guests guests_count)
      (AppError.too_many_guests guests_count property.max_guests)
  let nights = nights_between check_in check_out
  let subtotal = subtotal_of property avs nights check_in
  promo ← promo_discount_of env promo_code subtotal
  pure (totals nights subtotal property.cleaning_fee promo promo_code)
