-- ===== src/Worker/Misses.antt =====
-- Which bookings the job of the worker leaves alone.
use hoyhel.Prelude.{ℕ, ◌≡◌, ap, ◌∙◌, false, List, [], ◌∷◌, ◌++◌, update_many, if◌then◌else◌}
use hoyhel.Schema.{Store, Env, Booking}
use hoyhel.Service.{ok}
use hoyhel.Bookings.{BookingRequest, create_booking}
use hoyhel.Bookings.Reservations.{swept, create_booking-IsReserved}
use hoyhel.Worker.{is_overdue, time_out, process_booking_expiry_job}

passed_over :
    (now : ℕ) (bs : List Booking) (c : Booking)
    → is_overdue now c ≡ false
    → update_many (is_overdue now) (time_out now) (bs ++ c ∷ [])
      ≡ update_many (is_overdue now) (time_out now) bs ++ c ∷ []
unfolding update_many
passed_over now [] c h = ap (λ x. (if x then time_out now c else c) ∷ []) h
passed_over now (b ∷ bs) c h =
    ap (◌∷◌ (if is_overdue now b then time_out now b else b)) (passed_over now bs c h)

-- The job does not see the holds that are made: a booking that was created, and awaits its payment, is left as it
-- is by the job, however much later it runs.
pub job_misses_holds :
    (env later : Env) (guest_id : ℕ) (r : BookingRequest) (s t : Store) (b : Booking)
    → create_booking env guest_id r s ≡ (ok b, t)
    → (t.bookings ≡ (swept env s).bookings ++ b ∷ [])
      × ((process_booking_expiry_job later t).bookings
          ≡ update_many (is_overdue later.now) (time_out later.now) (swept env s).bookings
            ++ b ∷ [])
unfolding process_booking_expiry_job
job_misses_holds env later guest_id r s t b e =
    let w = create_booking-IsReserved env guest_id r s t b e in
    (
      w.row.added,
      ap (update_many (is_overdue later.now) (time_out later.now)) w.row.added
          ∙ passed_over later.now (swept env s).bookings b (ap (is_overdue later.now) w.row.row),
    )
