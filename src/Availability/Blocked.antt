-- ===== src/Availability/Blocked.antt =====
-- When the calendar may be changed, and that a blocked date is not booked.
use hoyhel.Prelude.{
  ℕ, ◌≤◌, ◌<◌, ◌≡◌, refl, sym, ◌∙◌, inl, inr, ◌⊎◌, Bool, true, false, ◌&&◌, List, [], ◌∷◌, none,
  some, ==_iff, if◌then◌else◌, length, find_first, exists_row, All, Bool-cases, arith,
}
use hoyhel.Schema.{Store, Env, Property, Booking, Availability, start_of_day}
use hoyhel.Service.{AppError, ok, err, pair_eq, Result-cases}
use hoyhel.Bookings.{
  BookingRequest, property_is, blocks_stay, expire_pending_bookings, create_booking,
}
use hoyhel.Bookings.Reservations.{swept, create_booking-IsReserved}
use hoyhel.Availability.{
  DateUpdate, covers, asks_block, is_date, check_dates, upsert_date, upsert_dates,
  set_availabilities, update_date_availability,
}
use hoyhel.Availability.Calendar.{cell}

-- An update that asks to block a date which a booking holds.
abbrev pub takes_stay : ℕ → ℕ → List Booking → DateUpdate → Bool
takes_stay now property_id bookings d =
    asks_block d
    && elim d.date [ none ↦ false | some date ↦ exists_row (covers now property_id date) bookings ]

abbrev pub IsDated : DateUpdate → Type 0
IsDated d = (date : ℕ) × (d.date ≡ some date)

check_dates_lem :
    (env : Env) (id : ℕ) (ds : List DateUpdate) (s : Store)
    → All IsDated ds
    → check_dates env id ds s ≡ (
      if exists_row (takes_stay env.now id s.bookings) ds
          then err (AppError.conflict "These dates already contain a confirmed guest reservation")
          else ok tt,
      s,
    )
unfolding check_dates exists_row
check_dates_lem env id [] s h = refl
check_dates_lem env id (d ∷ ds) s ((date, given), hs) =
    ground (arith, check_dates_lem env id ds s hs)

upsert_dates_total :
    (id : ℕ) (ds : List DateUpdate) (rows : List Availability)
    → All IsDated ds
    → (after : List Availability) × (upsert_dates id ds rows ≡ some after)
unfolding upsert_dates
upsert_dates_total id [] rows h = (rows, refl)
upsert_dates_total id (d ∷ ds) rows ((date, given), hs) =
    rw given (upsert_dates_total id ds (upsert_date id (start_of_day date) d rows) hs)

-- The host's update of dates that are valid is carried out exactly where none of the dates to be blocked
-- is held by an active booking in force: the calendar is then that after the upserts and nothing else changes.
-- Otherwise it is a conflict, and nothing changes.
pub update_decides :
    (env : Env) (host_id id : ℕ) (ds : List DateUpdate) (s : Store) (p : Property)
    → find_first (property_is id) s.properties ≡ some p
    → p.host_id ≡ host_id
    → All IsDated ds
    → ((exists_row (takes_stay env.now id s.bookings) ds ≡ false)
        × (after : List Availability) × (upsert_dates id ds s.availabilities ≡ some after)
        × (update_date_availability env host_id id ds s
            ≡ (ok (length ds), set_availabilities after s)))
      ⊎ ((exists_row (takes_stay env.now id s.bookings) ds ≡ true)
          × (update_date_availability env host_id id ds s ≡ (
            err (AppError.conflict "These dates already contain a confirmed guest reservation"),
            s,
          )))
unfolding update_date_availability
update_decides env host_id id ds s p found own dated =
    let (after, written) = upsert_dates_total id ds s.availabilities dated in
    let checked = check_dates_lem env id ds s dated in
    elim (Bool-cases (exists_row (takes_stay env.now id s.bookings) ds)) [
      | inl taken ↦ inr (taken, ground arith)
      | inr free ↦ inl (free, after, written, ground arith)
    ]

-- A row that blocks a date stands against every stay over the date.
blocks_stays :
    (id date i o : ℕ) (rows : List Availability) (a : Availability)
    → cell id date rows ≡ some a
    → a.is_blocked ≡ true
    → start_of_day i ≤ date
    → date < start_of_day o
    → exists_row (blocks_stay id i o) rows ≡ true
unfolding find_first exists_row
blocks_stays id date i o [] a found blocked from to = absurd (ground arith)
blocks_stays id date i o (x ∷ xs) a found blocked from to = elim (Bool-cases (is_date id date x)) [
  | inl here ↦ ground (arith, ==_iff x.date date)
  | inr there ↦ ground (arith, blocks_stays id date i o xs a)
]

swept_calendar : (env : Env) (s : Store) → (swept env s).availabilities ≡ s.availabilities
unfolding expire_pending_bookings
swept_calendar env s = refl

-- Where the calendar blocks a day of a listing, no stay whose dates, cut to the day as the database stores them,
-- are over that day is booked: every such request is refused, whoever makes it, at any time and under whatever conditions.
pub blocked_unbookable :
    (env : Env) (guest_id date i o : ℕ) (r : BookingRequest) (s : Store) (a : Availability)
    → cell r.property_id date s.availabilities ≡ some a
    → a.is_blocked ≡ true
    → r.check_in ≡ some i
    → r.check_out ≡ some o
    → start_of_day i ≤ date
    → date < start_of_day o
    → (x : AppError) × ((create_booking env guest_id r s).0 ≡ err x)
blocked_unbookable env guest_id date i o r s a found blocked given_in given_out from to =
    elim (Result-cases (create_booking env guest_id r s).0) [
      | inl (b, made) ↦
          let w =
            create_booking-IsReserved env guest_id r s (create_booking env guest_id r s).1 b
              (pair_eq (create_booking env guest_id r s) made refl) in
          let shut = blocks_stays r.property_id date i o s.availabilities a found blocked from to in
          let clear = w.row.cleared.unblocked in
          let q = w.priced.quote in
          let start : q.first ≡ i = ground (arith, q.first_given) in
          let end : q.last ≡ o = ground (arith, q.last_given) in
          let shown : exists_row (blocks_stay r.property_id i o) s.availabilities ≡ false =
            (λ k.
              exists_row (blocks_stay r.property_id (sym start k) (sym end k))
                (sym (swept_calendar env s) k))
            ∙ clear in
          absurd (ground arith)
      | inr (x, refused) ↦ (x, refused)
    ]
