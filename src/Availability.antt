-- ===== src/Availability.antt =====
-- backend/src/modules/availability/availability.service.ts: the calendar of a listing. An absent field
-- of a request is `none`, and one that is null is `some none`.
pub mod Calendar
pub mod Blocked
mod Tests
use hoyhel.Prelude.{
  ℕ, Bool, true, false, not, ◌&&◌, List, [], ◌∷◌, ◌++◌, Option, none, some, ◌==◌, leb, ltb,
  if◌then◌else◌, find_first, find_many, exists_row, update_many, length, Text, or_null,
}
use hoyhel.Schema.{Store, Env, Property, Availability, Booking, is_active_booking, start_of_day}
use hoyhel.Service.{AppError, Action, pure, throw, gets, modify, or_throw, throw_if, ◌>>=◌, ◌>>◌}
use hoyhel.Bookings.{property_is, unexpired}

pub record DateUpdate : Type 0 where
  pub date : Option ℕ
  pub is_blocked : Option Bool
  pub custom_price : Option (Option ℕ)
  pub min_stay : Option (Option ℕ)
  pub max_stay : Option (Option ℕ)
  pub note : Option (Option Text)

pub record PropertyCalendar : Type 0 where
  pub base_price : ℕ
  pub availabilities : List Availability
  pub bookings : List Booking

-- The `where` clauses of `getPropertyCalendar`.
abbrev pub in_range : ℕ → ℕ → ℕ → Availability → Bool
in_range property_id first last a =
    a.property_id == property_id
    && leb (start_of_day first) a.date
    && leb a.date (start_of_day last)

abbrev pub touches_range : ℕ → ℕ → ℕ → ℕ → Booking → Bool
touches_range now property_id first last b =
    b.property_id == property_id
    && is_active_booking b.status
    && unexpired now b.expires_at
    && leb b.check_in (start_of_day last)
    && leb (start_of_day first) b.check_out

-- `getPropertyCalendar`. The database refuses an invalid date.
unfoldable pub get_property_calendar : Env → ℕ → Option ℕ → Option ℕ → Action PropertyCalendar
get_property_calendar env property_id start_date end_date = do
  row ← gets (λ s. find_first (property_is property_id) s.properties)
  p ← or_throw row (AppError.not_found "Property")
  first ← or_throw start_date (AppError.internal "invalid date")
  last ← or_throw end_date (AppError.internal "invalid date")
  gets (λ s. record {
    base_price = p.base_price;
    availabilities = find_many (in_range property_id first last) s.availabilities;
    bookings = find_many (touches_range env.now property_id first last) s.bookings;
  })

-- A booking that holds a date.
abbrev pub covers : ℕ → ℕ → ℕ → Booking → Bool
covers now property_id date b =
    b.property_id == property_id
    && is_active_booking b.status
    && unexpired now b.expires_at
    && leb b.check_in (start_of_day date)
    && ltb (start_of_day date) b.check_out

abbrev pub asks_block : DateUpdate → Bool
asks_block d = elim d.is_blocked [ none ↦ false | some blocked ↦ blocked ]

-- One round of the loop over the dates that are to be blocked.
abbrev pub check_date : Env → ℕ → Option ℕ → Action (Unit {0})
check_date env property_id none = throw (AppError.internal "invalid date")
check_date env property_id (some date) = do
  taken ← gets (λ s. exists_row (covers env.now property_id date) s.bookings)
  throw_if taken (AppError.conflict "These dates already contain a confirmed guest reservation")

unfoldable pub check_dates : Env → ℕ → List DateUpdate → Action (Unit {0})
check_dates env property_id [] = pure tt
check_dates env property_id (d ∷ ds) = do
  if asks_block d then check_date env property_id d.date else pure tt
  check_dates env property_id ds

-- `x !== undefined ? x : undefined`: what the update leaves unset stays.
abbrev pub given {ℓ} : {A : Type ℓ} → Option A → A → A
given none old = old
given (some new) old = new

abbrev pub change : DateUpdate → Availability → Availability
change d a = record a {
  is_blocked = given d.is_blocked a.is_blocked;
  custom_price = given d.custom_price a.custom_price;
  min_stay = given d.min_stay a.min_stay;
  max_stay = given d.max_stay a.max_stay;
  note = given d.note a.note;
}

-- `x || null` on a number that may be missing.
abbrev pub number_or_null : Option (Option ℕ) → Option ℕ
number_or_null (some (some n)) = if n == 0 then none else some n
number_or_null _ = none

abbrev pub text_or_null : Option (Option Text) → Option Text
text_or_null (some note) = or_null note
text_or_null none = none

abbrev pub new_date : ℕ → ℕ → DateUpdate → Availability
new_date property_id date d = record {
  property_id = property_id;
  date = date;
  is_blocked = asks_block d;
  custom_price = number_or_null d.custom_price;
  min_stay = number_or_null d.min_stay;
  max_stay = number_or_null d.max_stay;
  note = text_or_null d.note;
}

-- The unique key of the table.
abbrev pub is_date : ℕ → ℕ → Availability → Bool
is_date property_id date a = a.property_id == property_id && a.date == date

-- `prisma.availability.upsert`
unfoldable pub upsert_date : ℕ → ℕ → DateUpdate → List Availability → List Availability
upsert_date property_id date d rows =
    if exists_row (is_date property_id date) rows
    then update_many (is_date property_id date) (change d) rows
    else rows ++ new_date property_id date d ∷ []

-- `prisma.$transaction(ops)`: all of the upserts in turn, or none where a date is invalid. The column of
-- the date keeps its day.
unfoldable pub upsert_dates : ℕ → List DateUpdate → List Availability → Option (List Availability)
upsert_dates property_id [] rows = some rows
upsert_dates property_id (d ∷ ds) rows = elim d.date [
  | none ↦ none
  | some date ↦ upsert_dates property_id ds (upsert_date property_id (start_of_day date) d rows)
]

abbrev pub set_availabilities : List Availability → Store → Store
set_availabilities rows s = record s { availabilities = rows }

-- `updateDateAvailability`
unfoldable pub update_date_availability : Env → ℕ → ℕ → List DateUpdate → Action ℕ
update_date_availability env host_id property_id dates = do
  row ← gets (λ s. find_first (property_is property_id) s.properties)
  p ← or_throw row (AppError.not_found "Property")
  throw_if (not (p.host_id == host_id))
      (AppError.forbidden "Only property host can manage calendar availability")
  check_dates env property_id dates
  written ← gets (λ s. upsert_dates property_id dates s.availabilities)
  rows ← or_throw written (AppError.internal "invalid date")
  modify (set_availabilities rows)
  pure (length dates)
