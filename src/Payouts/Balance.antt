-- ===== src/Payouts/Balance.antt =====
-- Payouts stay within what a host has earned.
use hoyhel.Prelude.{
  ℕ, ◌+◌, ◌≤◌, ◌≡◌, ◌⊎◌, if◌then◌else◌, refl, subst, inl, inr, Bool, List, [], ◌∷◌, ◌++◌, Option,
  ◌==◌, ==_iff, find_many, sum_by, Bool-cases, Text, arith,
}
use hoyhel.Schema.{Store, Env, Payout}
use hoyhel.Service.{AppError, ok, err, Result-cases}
use hoyhel.Bookings.Cancel.{host_of}
use hoyhel.Payouts.{
  completed_to, pending_to, gross_of, completed_of, pending_of, new_payout, request_payout,
}

-- What was paid out and what is asked for is covered by the earnings.
abbrev pub IsSolvent : ℕ → Store → Type 0
IsSolvent host_id s = completed_of host_id s + pending_of host_id s ≤ gross_of host_id s

sum_where_append :
    (p : Payout → Bool) (ps : List Payout) (a : Payout)
    → sum_by (λ q. q.amount) (find_many p (ps ++ a ∷ []))
      ≡ sum_by (λ q. q.amount) (find_many p ps) + (if p a then a.amount else 0)
unfolding sum_by find_many
sum_where_append p [] a = ground arith
sum_where_append p (x ∷ ps) a = ground (arith, sum_where_append p ps a)

-- A request is granted within the balance, or refused.
requested :
    (env : Env) (host_id amount : ℕ) (account : Option Text) (s : Store)
    → ((p : Payout) × ((request_payout env host_id amount account s).0 ≡ ok p)
        × (1 ≤ amount)
        × (amount + completed_of host_id s + pending_of host_id s ≤ gross_of host_id s)
        × ((request_payout env host_id amount account s).1
            ≡ record s { payouts = s.payouts ++ new_payout env host_id amount account ∷ [] }))
      ⊎ ((x : AppError) × (request_payout env host_id amount account s ≡ (err x, s)))
unfolding request_payout
requested env host_id amount account s =
    elim (Result-cases (request_payout env host_id amount account s).0) [
      | inl (p, made) ↦ inl (p, ground arith, ground arith, ground arith, ground arith)
      | inr (x, refused) ↦ inr (x, ground arith)
    ]

abbrev with_payout : Payout → Store → Store
with_payout p s = record s { payouts = s.payouts ++ p ∷ [] }

-- The sums after a payout is added.
sums_after :
    (env : Env) (host_id amount other : ℕ) (account : Option Text) (s : Store)
    → let t = with_payout (new_payout env host_id amount account) s in
      (completed_of other t ≡ completed_of other s)
      × (pending_of other t ≡ pending_of other s + (if host_id == other then amount else 0))
      × (gross_of other t ≡ gross_of other s)
unfolding completed_of pending_of gross_of host_of
sums_after env host_id amount other account s = (
  ground (
    arith,
    sum_where_append (completed_to other) s.payouts (new_payout env host_id amount account),
  ),
  ground (
    arith,
    sum_where_append (pending_to other) s.payouts (new_payout env host_id amount account),
  ),
  refl,
)

-- A request, whether it is granted or refused, keeps the payouts of every host, completed and asked for,
-- within what the host's bookings earned.
pub request-IsSolvent :
    (env : Env) (host_id amount other : ℕ) (account : Option Text) (s : Store)
    → IsSolvent other s
    → IsSolvent other (request_payout env host_id amount account s).1
request-IsSolvent env host_id amount other account s h =
    elim (requested env host_id amount account s) [
      | inl (p, made, positive, within, after) ↦
          let (done, asked, earned) = sums_after env host_id amount other account s in
          rw after (elim (Bool-cases (host_id == other)) [
            | inl same ↦
                let covered =
                  subst (λ k. amount + completed_of k s + pending_of k s ≤ gross_of k s)
                    ((==_iff host_id other).0 same) within in
                ground arith
            | inr apart ↦ ground arith
          ])
      | inr (x, refused) ↦ rw refused h
    ]
