-- ===== src/Payouts/Tests.antt =====
-- Witnesses and tests for payouts.
use hoyhel.Prelude.{◌≡◌, refl, none, find_first, find_many, exists_row, sum_by, arith}
use hoyhel.Service.{AppError, err}
use hoyhel.Bookings.Cancel.{host_of}
use hoyhel.Payouts.{gross_of, completed_of, pending_of, get_host_earnings_dashboard, request_payout}
use hoyhel.Payouts.Balance.{IsSolvent, request-IsSolvent}
use hoyhel.Samples.{env, paid_shop}

-- The stay earned its subtotal and cleaning fee.
earned : gross_of 1 paid_shop ≡ 22500
unfolding gross_of host_of find_first find_many sum_by
earned = refl

shop-IsSolvent : IsSolvent 1 paid_shop
unfolding gross_of completed_of pending_of host_of find_first find_many sum_by
shop-IsSolvent = omega arith

request-IsSolvent_example : IsSolvent 1 (request_payout env 1 22500 none paid_shop).1
request-IsSolvent_example = request-IsSolvent env 1 22500 1 none paid_shop shop-IsSolvent

-- A second request for the whole is refused.
twice_refused :
    (request_payout env 1 22500 none (request_payout env 1 22500 none paid_shop).1).0
    ≡ err (AppError.internal "Requested amount exceeds available balance")
unfolding request_payout get_host_earnings_dashboard gross_of completed_of pending_of host_of
    find_first find_many sum_by exists_row
twice_refused = refl
