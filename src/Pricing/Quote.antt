-- ===== src/Pricing/Quote.antt =====
-- When a quote is given, and what it says.
use hoyhel.Prelude.{
  ℕ, ◌+◌, ◌≤◌, ◌<◌, ◌≡◌, refl, sym, ap, ◌∙◌, inl, inr, Option-cases, Option, none, some, [], ◌∷◌,
  Text, find_first, find_many, find_first-All, All, arith,
}
use hoyhel.Schema.{Store, Env, Property, DiscountCode, start_of_day}
use hoyhel.Service.{ok, Result, Result-cases}
use hoyhel.Pricing.{
  PriceBreakdown, or_num, totals, has_id, in_stay, nights_between, subtotal_of, code_is, check_code,
  promo_discount_of, calculate_booking_price,
}
use hoyhel.Pricing.Totals.{totals-sum, totals_nights, code_discount-le}

-- No code takes off more than the whole.
abbrev pub AtMostAll : DiscountCode → Type 0
AtMostAll c = or_num c.discount_percent 0 ≤ 100

pub promo_discount_of-store :
    (env : Env) (code : Option Text) (subtotal : ℕ) (s : Store)
    → (promo_discount_of env code subtotal s).1 ≡ s
unfolding promo_discount_of check_code
promo_discount_of-store env none subtotal s = ground arith
promo_discount_of-store env (some []) subtotal s = ground arith
promo_discount_of-store env (some (u ∷ us)) subtotal s = ground arith

pub promo_discount_of-le :
    (env : Env) (code : Option Text) (subtotal d : ℕ) (s : Store)
    → All AtMostAll s.discount_codes
    → (promo_discount_of env code subtotal s).0 ≡ ok d
    → d ≤ subtotal
unfolding promo_discount_of check_code
promo_discount_of-le env none subtotal d s h e = ground arith
promo_discount_of-le env (some []) subtotal d s h e = ground arith
promo_discount_of-le env (some (u ∷ us)) subtotal d s h e =
    elim (Option-cases (find_first (code_is (u ∷ us)) s.discount_codes)) [
      | inl missing ↦ absurd (ground arith)
      | inr (c, found) ↦ ground (
        arith,
        code_discount-le c subtotal
            (find_first-All AtMostAll (code_is (u ∷ us)) s.discount_codes c h found),
      )
    ]

abbrev pub quoted_subtotal : ℕ → ℕ → ℕ → Store → Property → ℕ
quoted_subtotal property_id check_in check_out s p =
    subtotal_of p (find_many (in_stay property_id check_in check_out) s.availabilities)
      (nights_between check_in check_out) check_in

-- A quote that is given, taken apart.
pub record IsQuote (env : Env) (property_id : ℕ) (check_in check_out : Option ℕ) (guests : ℕ)
    (code : Option Text) (s : Store) (q : PriceBreakdown) : Type 0 where
  pub first : ℕ
  pub last : ℕ
  pub property : Property
  pub promo : ℕ
  pub first_given : check_in ≡ some first
  pub last_given : check_out ≡ some last
  pub in_order : first < last
  pub not_past : start_of_day env.now ≤ first
  pub found : find_first (has_id property_id) s.properties ≡ some property
  pub fits : guests ≤ property.max_guests
  pub granted :
      (promo_discount_of env code (quoted_subtotal property_id first last s property) s).0
      ≡ ok promo
  pub quoted :
      q
      ≡ totals
          (nights_between first last)
          (quoted_subtotal property_id first last s property)
          property.cleaning_fee
          promo
          code

pub calculate-IsQuote :
    (env : Env) (property_id : ℕ) (check_in check_out : Option ℕ) (guests : ℕ) (code : Option Text)
    (s t : Store) (q : PriceBreakdown)
    → calculate_booking_price env property_id check_in check_out guests code s ≡ (ok q, t)
    → IsQuote env property_id check_in check_out guests code s q
unfolding calculate_booking_price
calculate-IsQuote env property_id none check_out guests code s t q e = ground arith
calculate-IsQuote env property_id (some i) none guests code s t q e = ground arith
calculate-IsQuote env property_id (some i) (some o) guests code s t q e =
    elim (Option-cases (find_first (has_id property_id) s.properties)) [
      | inl missing ↦ absurd (ground arith)
      | inr (p, found) ↦
          elim (Result-cases
            (promo_discount_of env code (quoted_subtotal property_id i o s p) s).0) [
              | inl (d, granted) ↦ record {
                first = i;
                last = o;
                property = p;
                promo = d;
                first_given = refl;
                last_given = refl;
                in_order = ground arith;
                not_past = ground arith;
                found = found;
                fits = ground arith;
                granted = granted;
                quoted = ground arith;
              }
              | inr (x, refused) ↦ absurd (ground arith)
            ]
    ]

pub calculate-store :
    (env : Env) (property_id : ℕ) (check_in check_out : Option ℕ) (guests : ℕ) (code : Option Text)
    (s : Store)
    → (calculate_booking_price env property_id check_in check_out guests code s).1 ≡ s
unfolding calculate_booking_price
calculate-store env property_id none check_out guests code s = ground arith
calculate-store env property_id (some i) none guests code s = ground arith
calculate-store env property_id (some i) (some o) guests code s =
    elim (Option-cases (find_first (has_id property_id) s.properties)) [
      | inl missing ↦ ground arith
      | inr (p, found) ↦
          ground (arith, promo_discount_of-store env code (quoted_subtotal property_id i o s p) s)
    ]

-- Where no discount code takes off more than 100%, the total of every quote that is given and its
-- discount add up to the subtotal, the cleaning fee, the service fee and the taxes (so the cut at
-- zero is never reached), there is at least one night, the party fits, and the store is unchanged.
pub quote_sum :
    (env : Env) (property_id : ℕ) (check_in check_out : Option ℕ) (guests : ℕ) (code : Option Text)
    (s t : Store) (q : PriceBreakdown)
    → All AtMostAll s.discount_codes
    → calculate_booking_price env property_id check_in check_out guests code s ≡ (ok q, t)
    → (q.total_price + q.discount ≡ q.subtotal + q.cleaning_fee + q.service_fee + q.taxes)
      × (1 ≤ q.nights)
      × ((p : Property) × (find_first (has_id property_id) s.properties ≡ some p)
          × (guests ≤ p.max_guests))
      × (t ≡ s)
quote_sum env property_id check_in check_out guests code s t q h e =
    let w = calculate-IsQuote env property_id check_in check_out guests code s t q e in
    let n = nights_between w.first w.last in
    let subtotal = quoted_subtotal property_id w.first w.last s w.property in
    let fits = promo_discount_of-le env code subtotal w.promo s h w.granted in
    let sum = totals-sum n subtotal w.property.cleaning_fee w.promo code fits in
    (
      rw w.quoted sum,
      rw w.quoted
          (totals_nights w.first w.last subtotal w.property.cleaning_fee w.promo code w.in_order),
      (w.property, w.found, w.fits),
      sym (ap (λ (x : Result PriceBreakdown × Store). x.1) e)
          ∙ calculate-store env property_id check_in check_out guests code s,
    )

-- Where the dates are in order and not past, the property exists and the party fits, a quote without
-- a promotion code is given, for the nights between the dates at the prices of the calendar.
pub quote_given :
    (env : Env) (property_id i o guests : ℕ) (s : Store) (p : Property)
    → i < o
    → start_of_day env.now ≤ i
    → find_first (has_id property_id) s.properties ≡ some p
    → guests ≤ p.max_guests
    → calculate_booking_price env property_id (some i) (some o) guests none s ≡ (
      ok (totals (nights_between i o) (quoted_subtotal property_id i o s p) p.cleaning_fee 0 none),
      s,
    )
unfolding calculate_booking_price promo_discount_of
quote_given env property_id i o guests s p order today found fits = ground arith
