-- ===== src/Pricing/Tests.antt =====
-- Witnesses and tests for quotes.
use hoyhel.Prelude.{
  ◌+◌, ◌≤◌, ◌≡◌, refl, [], ◌∷◌, true, none, some, find_first, find_many, text_eq, to_upper_case,
  trim, arith,
}
use hoyhel.Schema.{Store, Property, DiscountCode}
use hoyhel.Service.{ok, pair_eq}
use hoyhel.Pricing.{
  PriceBreakdown, totals, has_id, nights_between, check_code, promo_discount_of, round_div,
  availability_map, map_get, add_nights, calculate_booking_price,
}
use hoyhel.Pricing.Quote.{quote_sum}
use hoyhel.Samples.{env, villa, shop}

-- Twenty percent off.
abbrev summer : DiscountCode
summer = record {
  code = 83 ∷ 85 ∷ [];
  discount_percent = some 20;
  discount_amount = none;
  max_uses = 100;
  used_count = 0;
  min_booking_amount = 0;
  expires_at = none;
  is_active = true;
}

abbrev fair : Store
fair = record shop { discount_codes = summer ∷ [] }

-- A week's stay with the code, written in lower case: 10% and 20% off 700.00.
abbrev week_quote : PriceBreakdown
week_quote = totals 7 70000 2500 14000 (some (115 ∷ 117 ∷ []))

week_quoted :
    (calculate_booking_price env 50
      (some 1728864000000)
      (some 1729468800000)
      2
      (some (115 ∷ 117 ∷ []))
      fair).0
    ≡ ok week_quote
unfolding calculate_booking_price promo_discount_of check_code totals nights_between round_div
    add_nights availability_map map_get find_first find_many text_eq to_upper_case trim
week_quoted = refl

week_total : week_quote.total_price ≡ 64660
unfolding totals round_div
week_total = refl

quote_sum_example :
    (week_quote.total_price + week_quote.discount
      ≡ week_quote.subtotal + week_quote.cleaning_fee + week_quote.service_fee + week_quote.taxes)
    × (1 ≤ week_quote.nights)
    × ((p : Property) × (find_first (has_id 50) fair.properties ≡ some p) × (2 ≤ p.max_guests))
    × ((calculate_booking_price env 50
          (some 1728864000000)
          (some 1729468800000)
          2
          (some (115 ∷ 117 ∷ []))
          fair).1
        ≡ fair)
quote_sum_example =
    quote_sum env 50 (some 1728864000000) (some 1729468800000) 2 (some (115 ∷ 117 ∷ [])) fair
      (calculate_booking_price env 50 (some 1728864000000) (some 1729468800000) 2
        (some (115 ∷ 117 ∷ [])) fair).1
      week_quote (omega arith, tt)
      (pair_eq
        (calculate_booking_price env 50 (some 1728864000000) (some 1729468800000) 2
          (some (115 ∷ 117 ∷ [])) fair)
        week_quoted refl)

villa_found : find_first (has_id 50) shop.properties ≡ some villa
unfolding find_first
villa_found = refl
