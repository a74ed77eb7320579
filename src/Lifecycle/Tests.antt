-- ===== src/Lifecycle/Tests.antt =====
-- Witnesses for the histories of bookings: a hold that is paid by card, another guest's booking after it, and
-- the cancellation of the first.
use hoyhel.Prelude.{
  refl, ◌≡◌, none, some, arith, count, exists_row, find_first, update_many, find_many,
}
use hoyhel.Schema.{Store, PaymentMethodType}
use hoyhel.Pricing.{
  totals, nights_between, calculate_booking_price, promo_discount_of, round_div, add_nights,
  availability_map, map_get,
}
use hoyhel.Notifications.{create_notification}
use hoyhel.Bookings.{create_booking, expire_pending_bookings, check_booking, reserve}
use hoyhel.Bookings.Tests.{later_request}
use hoyhel.Bookings.Cancel.{cancel_booking}
use hoyhel.Bookings.Live.{NoClash, is_live}
use hoyhel.Payments.{
  PaymentRequest, process_booking_payment, check_hold, settle, replay_of, pay_by_card,
  write_payment, upsert_payment,
}
use hoyhel.Lifecycle.{create, cancel, pay, Run, here, next}
use hoyhel.Lifecycle.Rows.{Evolves}
use hoyhel.Lifecycle.Runs.{Run-NoClash, Run-Evolves}
use hoyhel.Samples.{env, held_shop}

abbrev order : PaymentRequest
order = record {
  booking_id = 80;
  payment_method = PaymentMethodType.credit_card;
  phone = none;
  idempotency_key = some 9;
}

abbrev paid : Store
paid = (process_booking_payment env 2 order held_shop).1

-- Another guest books the days after the stay.
abbrev shared : Store
shared = (create_booking env 3 later_request paid).1

abbrev given_up : Store
given_up = (cancel_booking env 80 2 none shared).1

two_stays : Run 1728000003600 held_shop 1728000003600 shared
two_stays =
    next (next here env (omega arith) (pay 2 order (λ _. refl, tt))) env (omega arith)
      (create 3 later_request)

-- Both bookings are in force then.
two_in_force : count (is_live 1728000003600) shared.bookings ≡ 2
unfolding create_booking expire_pending_bookings calculate_booking_price reserve check_booking
    find_first exists_row update_many count find_many promo_discount_of totals nights_between
    round_div add_nights availability_map map_get create_notification process_booking_payment
    check_hold settle replay_of pay_by_card write_payment upsert_payment
two_in_force = refl

Run-NoClash_example : NoClash 1728000003600 shared.bookings
Run-NoClash_example = Run-NoClash 1728000003600 held_shop 1728000003600 shared two_stays (tt, tt)

Run-Evolves_example : Evolves held_shop.bookings given_up.bookings
Run-Evolves_example =
    Run-Evolves 1728000003600 held_shop 1728000003600 given_up
      (next two_stays env (omega arith) (cancel 80 2 none))
