-- ===== src/Payouts.antt =====
-- backend/src/modules/payouts/payouts.service.ts. An amount is in cents; zero stands for every amount
-- that is not positive.
pub mod Balance
mod Tests
use hoyhel.Prelude.{
  ℕ, ◌+◌, ◌-◌, Bool, true, false, not, ◌&&◌, ◌||◌, List, [], ◌∷◌, ◌++◌, Option, none, some, ◌==◌,
  ltb, if◌then◌else◌, find_many, exists_row, sum_by, Text, text, or_text,
}
use hoyhel.Schema.{
  Store, Env, Booking, Payout, PayoutStatus, is_earning, is_payout_completed, is_payout_pending,
}
use hoyhel.Service.{AppError, Action, pure, gets, modify, throw_if, ◌>>=◌, ◌>>◌}
use hoyhel.Bookings.Cancel.{host_of, hosts}

pub record Earnings : Type 0 where
  pub total_gross : ℕ
  pub total_platform_fees : ℕ
  pub net_earnings : ℕ
  pub available_balance : ℕ
  pub pending_payouts_sum : ℕ
  pub completed_payouts_sum : ℕ
  pub payouts : List Payout

-- The `where` of the bookings that earn.
abbrev pub earns : ℕ → Store → Booking → Bool
earns host_id s b = hosts host_id (host_of s b) && is_earning b.status

abbrev pub paid_to : ℕ → Payout → Bool
paid_to host_id p = p.host_id == host_id

abbrev pub completed_to : ℕ → Payout → Bool
completed_to host_id p = p.host_id == host_id && is_payout_completed p.status

abbrev pub pending_to : ℕ → Payout → Bool
pending_to host_id p = p.host_id == host_id && is_payout_pending p.status

unfoldable pub gross_of : ℕ → Store → ℕ
gross_of host_id s =
    sum_by (λ b. b.subtotal + b.cleaning_fee) (find_many (earns host_id s) s.bookings)

unfoldable pub fees_of : ℕ → Store → ℕ
fees_of host_id s = sum_by (λ b. b.service_fee) (find_many (earns host_id s) s.bookings)

unfoldable pub completed_of : ℕ → Store → ℕ
completed_of host_id s = sum_by (λ p. p.amount) (find_many (completed_to host_id) s.payouts)

unfoldable pub pending_of : ℕ → Store → ℕ
pending_of host_id s = sum_by (λ p. p.amount) (find_many (pending_to host_id) s.payouts)

-- `getHostEarningsDashboard`. The payouts are in the order of the table.
unfoldable pub get_host_earnings_dashboard : ℕ → Store → Earnings
get_host_earnings_dashboard host_id s = record {
  total_gross = gross_of host_id s;
  total_platform_fees = fees_of host_id s;
  net_earnings = gross_of host_id s;
  available_balance = gross_of host_id s - completed_of host_id s - pending_of host_id s;
  pending_payouts_sum = pending_of host_id s;
  completed_payouts_sum = completed_of host_id s;
  payouts = find_many (paid_to host_id) s.payouts;
}

abbrev pub new_payout : Env → ℕ → ℕ → Option Text → Payout
new_payout env host_id amount destination_account = record {
  id = env.uuid 0;
  host_id = host_id;
  amount = amount;
  status = PayoutStatus.pending;
  destination_account = or_text destination_account (text "Standard Bank Account (*4920)");
  reference_number = env.random 0;
}

abbrev has_reference : ℕ → Payout → Bool
has_reference n p = p.reference_number == n

-- `requestPayout`. The reference number, of the clock and a random number, is unique in the table.
unfoldable pub request_payout : Env → ℕ → ℕ → Option Text → Action Payout
unfolding get_host_earnings_dashboard
request_payout env host_id amount destination_account = do
  dashboard ← gets (get_host_earnings_dashboard host_id)
  throw_if (amount == 0 || ltb dashboard.available_balance amount)
      (AppError.internal "Requested amount exceeds available balance")
  used ← gets (λ s. exists_row (has_reference (env.random 0)) s.payouts)
  throw_if used AppError.unique_violation
  modify (λ s. record s {
    payouts = s.payouts ++ new_payout env host_id amount destination_account ∷ [];
  })
  pure (new_payout env host_id amount destination_account)
