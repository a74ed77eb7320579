-- ===== src/Administration/Figures.antt =====
-- The figures of the dashboard add up.
use hoyhel.Prelude.{
  ◌+◌, ◌≤◌, ◌≡◌, refl, List, [], ◌∷◌, if◌then◌else◌, length, find_many, count, sum_by, update_many,
  count-update_many_zero, All, All-update_many, arith,
}
use hoyhel.Schema.{
  Store, Env, Booking, BookingStatus, is_stay, is_completed, is_cancelled, is_refunded, is_earning,
}
use hoyhel.Service.{ok}
use hoyhel.Pricing.{round_div}
use hoyhel.Bookings.Cancel.{is_over, complete, update_expired_bookings}
use hoyhel.Administration.{
  Analytics, analytics, gross_revenue, fee_sum, platform_fees_of, get_dashboard_analytics,
}

-- The fee of a booking is part of its price.
abbrev pub IsCharged : Booking → Type 0
IsCharged b = b.service_fee ≤ b.total_price

fees_in_gross :
    (bs : List Booking)
    → All IsCharged bs
    → sum_by (λ b. b.service_fee) (find_many (λ b. is_earning b.status) bs)
      ≤ sum_by (λ b. b.total_price) (find_many (λ b. is_earning b.status) bs)
unfolding sum_by find_many
fees_in_gross [] h = omega arith
fees_in_gross (b ∷ bs) (h, hs) = ground (arith, fees_in_gross bs hs)

platform_fees-le : (s : Store) → All IsCharged s.bookings → platform_fees_of s ≤ gross_revenue s
unfolding platform_fees_of fee_sum gross_revenue round_div
platform_fees-le s h = ground (arith, fees_in_gross s.bookings h)

one_of_four :
    (x : BookingStatus)
    → (if is_stay x then 1 else 0)
        + (if is_completed x then 1 else 0)
        + (if is_cancelled x then 1 else 0)
        + (if is_refunded x then 1 else 0)
      ≤ 1
one_of_four x = ground arith

four_kinds :
    (bs : List Booking)
    → count (λ b. is_stay b.status) bs
        + count (λ b. is_completed b.status) bs
        + count (λ b. is_cancelled b.status) bs
        + count (λ b. is_refunded b.status) bs
      ≤ length bs
unfolding count
four_kinds [] = omega arith
four_kinds (b ∷ bs) = omega (arith, one_of_four b.status, four_kinds bs)

-- Where no booking's fee exceeds its price, the dashboard splits the revenue into the fees of the platform and the
-- earnings of the hosts without rest, the bookings that it counts as confirmed, completed, cancelled and
-- refunded are at most all of them, and no confirmed stay whose check-out lies before today is left.
pub dashboard_adds_up :
    (env : Env) (s : Store)
    → All IsCharged s.bookings
    → let (out, t) = get_dashboard_analytics env s in
      (a : Analytics) × (out ≡ ok a)
      × (a.host_earnings + a.platform_fees ≡ a.total_revenue)
      × (a.confirmed_bookings + a.completed_bookings + a.cancelled_bookings + a.refunded_bookings
          ≤ a.total_bookings)
      × (count (is_over env.now) t.bookings ≡ 0)
unfolding get_dashboard_analytics update_expired_bookings
dashboard_adds_up env s h =
    let t = record s { bookings = update_many (is_over env.now) complete s.bookings } in
    let charged = All-update_many IsCharged (is_over env.now) complete s.bookings (λ b k _. k) h in
    (
      analytics t,
      refl,
      omega (arith, platform_fees-le t charged),
      four_kinds t.bookings,
      count-update_many_zero (is_over env.now) (is_over env.now) complete s.bookings
          (λ b _. ground arith) (λ b e. e),
    )
