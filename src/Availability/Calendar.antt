-- ===== src/Availability/Calendar.antt =====
-- The calendar as a function of the date: what an update makes of each cell.
use hoyhel.Prelude.{
  ℕ, zero, suc, Bool, refl, ◌≡◌, ap, ◌∙◌, inl, inr, true, false, List, [], ◌∷◌, Option, none, some,
  ◌==◌, ==_iff, ==_refl, if◌then◌else◌, find_first, exists_row, exists_row-none, exists_row-some,
  find_first-update_many, find_first-concat, find_first-update_apart, find_first-append_apart,
  Bool-cases, Option-cases, arith,
}
use hoyhel.Schema.{Availability, start_of_day}
use hoyhel.Availability.{
  DateUpdate, given, number_or_null, text_or_null, change, new_date, is_date, upsert_date,
  upsert_dates,
}

-- A cell of the calendar, if the date has a row.
abbrev pub cell : ℕ → ℕ → List Availability → Option Availability
cell property_id date rows = find_first (is_date property_id date) rows

-- A field of a request: what it gives, or what was there where it gives nothing.
abbrev pub or_kept {ℓ} : {A : Type ℓ} → Option A → A → A
or_kept (some new) old = new
or_kept none old = old

-- A number of a new row, where neither null nor 0 counts as one.
abbrev pub positive : Option (Option ℕ) → Option ℕ
positive none = none
positive (some none) = none
positive (some (some zero)) = none
positive (some (some (suc n))) = some (suc n)

-- What one update makes of its cell: a row where there was none, otherwise the fields that it gives.
abbrev pub change_cell : ℕ → ℕ → DateUpdate → Option Availability → Option Availability
change_cell property_id date d none = some (record {
  property_id = property_id;
  date = date;
  is_blocked = or_kept d.is_blocked false;
  custom_price = positive d.custom_price;
  min_stay = positive d.min_stay;
  max_stay = positive d.max_stay;
  note = text_or_null d.note;
})
change_cell property_id date d (some a) = some (record {
  property_id = a.property_id;
  date = a.date;
  is_blocked = or_kept d.is_blocked a.is_blocked;
  custom_price = or_kept d.custom_price a.custom_price;
  min_stay = or_kept d.min_stay a.min_stay;
  max_stay = or_kept d.max_stay a.max_stay;
  note = or_kept d.note a.note;
})

number_positive : (n : Option (Option ℕ)) → number_or_null n ≡ positive n
number_positive none = refl
number_positive (some none) = refl
number_positive (some (some zero)) = refl
number_positive (some (some (suc n))) = ground arith

asked : (o : Option Bool) → elim o [ none ↦ false | some b ↦ b ] ≡ or_kept o false
asked none = refl
asked (some b) = refl

kept {ℓ} : {A : Type ℓ} → (o : Option A) → (old : A) → given o old ≡ or_kept o old
kept none old = refl
kept (some new) old = refl

changed_cell :
    (property_id date : ℕ) (d : DateUpdate) (a : Availability)
    → some (change d a) ≡ change_cell property_id date d (some a)
changed_cell property_id date d a = cc (
  kept d.is_blocked a.is_blocked,
  kept d.custom_price a.custom_price,
  kept d.min_stay a.min_stay,
  kept d.max_stay a.max_stay,
  kept d.note a.note,
)

new_cell :
    (property_id date : ℕ) (d : DateUpdate)
    → some (new_date property_id date d) ≡ change_cell property_id date d none
new_cell property_id date d = cc (
  asked d.is_blocked,
  number_positive d.custom_price,
  number_positive d.min_stay,
  number_positive d.max_stay,
)

-- The updates of one date, in turn.
pub replay : ℕ → ℕ → List DateUpdate → Option Availability → Option Availability
replay property_id date [] c = c
replay property_id date (d ∷ ds) c = replay property_id date ds (elim d.date [
  | none ↦ c
  | some other ↦ if start_of_day other == date then change_cell property_id date d c else c
])

upsert_same :
    (property_id date : ℕ) (d : DateUpdate) (rows : List Availability)
    → cell property_id date (upsert_date property_id date d rows)
      ≡ change_cell property_id date d (cell property_id date rows)
unfolding upsert_date
upsert_same property_id date d rows =
    elim (Bool-cases (exists_row (is_date property_id date) rows)) [
      | inl old ↦
          let (a, found) = exists_row-some (is_date property_id date) rows old in
          rw (old, found)
            (find_first-update_many (is_date property_id date) (change d) rows a (λ _ h. h) found
              ∙ changed_cell property_id date d a)
      | inr fresh ↦
          rw (fresh, exists_row-none (is_date property_id date) rows fresh)
            (find_first-concat (is_date property_id date) rows (new_date property_id date d) fresh
                (ground (arith, ==_refl property_id, ==_refl date))
              ∙ new_cell property_id date d)
    ]

elsewhere :
    (property_id date other : ℕ) (a : Availability)
    → (other == date) ≡ false
    → is_date property_id other a ≡ true
    → is_date property_id date a ≡ false
elsewhere property_id date other a apart h = elim (Bool-cases (a.date == date)) [
  | inl here ↦ absurd (ground (arith, ==_iff a.date date, ==_iff a.date other, ==_iff other date))
  | inr there ↦ ground arith
]

upsert_other :
    (property_id date other : ℕ) (d : DateUpdate) (rows : List Availability)
    → (other == date) ≡ false
    → cell property_id date (upsert_date property_id other d rows) ≡ cell property_id date rows
unfolding upsert_date
upsert_other property_id date other d rows apart =
    elim (Bool-cases (exists_row (is_date property_id other) rows)) [
      | inl old ↦ rw old (
          find_first-update_apart (is_date property_id date) (is_date property_id other) (change d)
            rows (λ a h. elsewhere property_id date other a apart h)
            (λ a h. elsewhere property_id date other a apart h))
      | inr fresh ↦ rw fresh (
          find_first-append_apart (is_date property_id date) rows (new_date property_id other d)
            (ground arith))
    ]

upsert_cell :
    (property_id date other : ℕ) (d : DateUpdate) (rows : List Availability)
    → cell property_id date (upsert_date property_id other d rows) ≡ (
        if other == date
        then change_cell property_id date d (cell property_id date rows)
        else cell property_id date rows)
upsert_cell property_id date other d rows = elim (Bool-cases (other == date)) [
  | inl same ↦ rw (same, (==_iff other date).0 same) (upsert_same property_id date d rows)
  | inr apart ↦ rw apart (upsert_other property_id date other d rows apart)
]

-- The calendar implements a function of the day: after the upserts, whatever their number and order, the cell of
-- a day is what the updates whose date, cut to the day, is that day make of the cell before, in turn; the others
-- leave it. An update of a cell changes the fields that it gives and keeps the rest; where there is no cell it makes
-- one, unblocked unless it asks for a block, and without the prices and lengths of stay that are null or 0.
pub upsert_dates-replay :
    (property_id date : ℕ) (ds : List DateUpdate) (rows after : List Availability)
    → upsert_dates property_id ds rows ≡ some after
    → cell property_id date after ≡ replay property_id date ds (cell property_id date rows)
unfolding upsert_dates replay
upsert_dates-replay property_id date [] rows after e = ground arith
upsert_dates-replay property_id date (d ∷ ds) rows after e = elim (Option-cases d.date) [
  | inl missing ↦ absurd (ground arith)
  | inr (other, given) ↦
      let rest =
        upsert_dates-replay property_id date ds
          (upsert_date property_id (start_of_day other) d rows) after (ground arith) in
      rw given (
        rest
        ∙ ap (replay property_id date ds)
            (upsert_cell property_id date (start_of_day other) d rows))
]
