-- ===== src/Worker/Tests.antt =====
-- Witnesses and tests for the job of the worker.
use hoyhel.Prelude.{◌≡◌, refl, [], ◌∷◌, ◌++◌, update_many}
use hoyhel.Schema.{Env, BookingStatus}
use hoyhel.Service.{pair_eq}
use hoyhel.Bookings.{create_booking}
use hoyhel.Bookings.Reservations.{swept}
use hoyhel.Bookings.Tests.{later_request, granted_booking, later_granted}
use hoyhel.Worker.{is_overdue, time_out, process_booking_expiry_job}
use hoyhel.Worker.Misses.{job_misses_holds}
use hoyhel.Samples.{env, stay, held_shop}

-- A day later.
abbrev next_day : Env
next_day = record env { now = 1728087303600 }

job_misses_holds_example :
    let t = (create_booking env 3 later_request held_shop).1 in
    (t.bookings ≡ (swept env held_shop).bookings ++ granted_booking ∷ [])
    × ((process_booking_expiry_job next_day t).bookings
        ≡ update_many
            (is_overdue 1728087303600)
            (time_out 1728087303600)
            (swept env held_shop).bookings
          ++ granted_booking ∷ [])
job_misses_holds_example =
    job_misses_holds env next_day 3 later_request held_shop
      (create_booking env 3 later_request held_shop).1 granted_booking
      (pair_eq (create_booking env 3 later_request held_shop) later_granted refl)

plain_pending_ends :
    (process_booking_expiry_job next_day (record held_shop {
      bookings = record stay { status = BookingStatus.pending } ∷ [];
    })).bookings
    ≡ time_out 1728087303600 (record stay { status = BookingStatus.pending }) ∷ []
unfolding process_booking_expiry_job update_many
plain_pending_ends = refl
