-- ===== src/Lifecycle/Runs.antt =====
-- What holds of the bookings however requests follow one another.
use hoyhel.Prelude.{ℕ}
use hoyhel.Schema.{Store, Env}
use hoyhel.Bookings.Live.{NoClash, NoClash-later}
use hoyhel.Bookings.Reservations.{create_booking-NoClash}
use hoyhel.Lifecycle.{
  Step, create, sweep, list, work, cancel, cancel_by_admin, pay, Run, here, next,
}
use hoyhel.Lifecycle.Rows.{
  Evolves, Evolves-trans, Pairwise-refl, Pairwise-Evolves_all, Pairwise-NoClash,
}
use hoyhel.Lifecycle.Paid.{pay-Pairwise}
use hoyhel.Lifecycle.Moves.{
  sweep-Pairwise, work-Pairwise, list-Pairwise, cancel-Pairwise, cancel_by_admin-Pairwise,
  create-Evolves,
}

Step-NoClash :
    {env : Env} {s t : Store}
    → Step env s t
    → NoClash env.now s.bookings
    → NoClash env.now t.bookings
Step-NoClash {env} {s} (create guest_id r) h = create_booking-NoClash env guest_id r s h
Step-NoClash {env} {s} {t} sweep h =
    Pairwise-NoClash env.now s.bookings t.bookings (sweep-Pairwise env s) h
Step-NoClash {env} {s} {t} (list user_id view) h =
    Pairwise-NoClash env.now s.bookings t.bookings (list-Pairwise env user_id view s) h
Step-NoClash {env} {s} {t} work h =
    Pairwise-NoClash env.now s.bookings t.bookings (work-Pairwise env s) h
Step-NoClash {env} {s} {t} (cancel booking_id user_id reason) h =
    Pairwise-NoClash env.now s.bookings t.bookings (cancel-Pairwise env booking_id user_id reason s)
      h
Step-NoClash {env} {s} {t} (cancel_by_admin booking_id reason) h =
    Pairwise-NoClash env.now s.bookings t.bookings
      (cancel_by_admin-Pairwise env booking_id reason s) h
Step-NoClash {env} {s} {t} (pay user_id r active) h =
    Pairwise-NoClash env.now s.bookings t.bookings (pay-Pairwise env user_id r s active) h

Step-Evolves : {env : Env} {s t : Store} → Step env s t → Evolves s.bookings t.bookings
Step-Evolves {env} {s} (create guest_id r) = create-Evolves env guest_id r s
Step-Evolves {env} {s} {t} sweep = Pairwise-Evolves_all s.bookings t.bookings (sweep-Pairwise env s)
Step-Evolves {env} {s} {t} (list user_id view) =
    Pairwise-Evolves_all s.bookings t.bookings (list-Pairwise env user_id view s)
Step-Evolves {env} {s} {t} work = Pairwise-Evolves_all s.bookings t.bookings (work-Pairwise env s)
Step-Evolves {env} {s} {t} (cancel booking_id user_id reason) =
    Pairwise-Evolves_all s.bookings t.bookings (cancel-Pairwise env booking_id user_id reason s)
Step-Evolves {env} {s} {t} (cancel_by_admin booking_id reason) =
    Pairwise-Evolves_all s.bookings t.bookings (cancel_by_admin-Pairwise env booking_id reason s)
Step-Evolves {env} {s} {t} (pay user_id r active) =
    Pairwise-Evolves_all s.bookings t.bookings (pay-Pairwise env user_id r s active)

-- Where no two bookings that count at an instant share days of a listing, none do after any sequence of creations, sweeps,
-- jobs of the worker, lists of bookings, cancellations by users and administrators, and payments for active bookings, at
-- instants that do not go back. A booking counts while its status is active and the end of its hold, which a payment does not
-- move, has not passed: bookings whose hold has passed, confirmed ones too, are outside, and so are events of the payment provider.
pub Run-NoClash :
    (t : ℕ) (s : Store) (u : ℕ) (v : Store)
    → Run t s u v
    → NoClash t s.bookings
    → NoClash u v.bookings
Run-NoClash t s u v here h = h
Run-NoClash t s u v (next {u = u'} {v = v'} run env le step) h =
    Step-NoClash step (NoClash-later u' env.now v'.bookings le (Run-NoClash t s u' v' run h))

-- In any sequence of creations, sweeps, jobs of the worker, lists of bookings, cancellations and payments for active
-- bookings every booking stays in its place with its guest, listing, dates, price and the end of its
-- hold, and one that is not active (completed, cancelled, refunded, expired or failed) is never active again.
pub Run-Evolves :
    (t : ℕ) (s : Store) (u : ℕ) (v : Store) → Run t s u v → Evolves s.bookings v.bookings
Run-Evolves t s u v here = Pairwise-Evolves_all s.bookings s.bookings (Pairwise-refl s.bookings)
Run-Evolves t s u v (next {v = v'} run env le step) =
    Evolves-trans s.bookings v'.bookings v.bookings (Run-Evolves t s _ v' run) (Step-Evolves step)
