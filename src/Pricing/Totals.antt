-- ===== src/Pricing/Totals.antt =====
-- The totals of a quote: the sum is never clipped at zero.
use hoyhel.Prelude.{ℕ, ◌+◌, ◌≤◌, ◌<◌, ◌≡◌, Option, Text, arith}
use hoyhel.Schema.{DiscountCode}
use hoyhel.Pricing.Nights.{nights_between_bounds}
use hoyhel.Pricing.{
  nights_between, round_div, service_fee_of, duration_discount_of, code_discount, totals, or_num,
}

duration-le-service_fee :
    (nights subtotal : ℕ) → duration_discount_of nights subtotal ≤ service_fee_of subtotal
unfolding duration_discount_of service_fee_of
duration-le-service_fee nights subtotal = ground arith

-- The discounts of a quote fit in what they are taken from.
pub totals-sum :
    (nights subtotal cleaning_fee promo : ℕ) (code : Option Text)
    → promo ≤ subtotal
    → let q = totals nights subtotal cleaning_fee promo code in
      q.total_price + q.discount ≡ q.subtotal + q.cleaning_fee + q.service_fee + q.taxes
unfolding totals
totals-sum nights subtotal cleaning_fee promo code h =
    omega (arith, duration-le-service_fee nights subtotal)

-- A code that takes off at most 100% takes off at most the subtotal.
pub code_discount-le :
    (c : DiscountCode) (subtotal : ℕ)
    → or_num c.discount_percent 0 ≤ 100
    → code_discount c subtotal ≤ subtotal
unfolding code_discount round_div
code_discount-le c subtotal h = grind arith

pub totals_nights :
    (check_in check_out subtotal cleaning_fee promo : ℕ) (code : Option Text)
    → check_in < check_out
    → 1 ≤ (totals (nights_between check_in check_out) subtotal cleaning_fee promo code).nights
unfolding totals
totals_nights i o subtotal cleaning_fee promo code h = (nights_between_bounds i o h).0
