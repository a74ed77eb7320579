-- ===== src/Properties/Shown.antt =====
-- What a search shows.
use hoyhel.Prelude.{
  ℕ, ◌/◌, ◌*◌, ◌≡◌, refl, Bool, true, false, ◌&&◌, ◌==◌, List, some, leb, ltb, exists_row-false,
  All, All-map, arith,
}
use hoyhel.Schema.{Store, Property, Booking, BookingStatus, Availability, is_published}
use hoyhel.Service.{ok}
use hoyhel.Pages.{Page, paginate}
use hoyhel.Pages.Rows.{All-newest_first, All-sort_by, All-paginate}
use hoyhel.Bookings.{blocks_stay}
use hoyhel.Properties.Search.{
  Details, SearchQuery, SortBy, if_number, hides, stays_over, ordered_by, search_where,
  search_properties,
}

-- A booking in one of the statuses that keep a listing out of a search.
abbrev pub keeps_out : BookingStatus → Bool
keeps_out BookingStatus.confirmed = true
keeps_out BookingStatus.checked_in = true
keeps_out BookingStatus.pending = true
keeps_out _ = false

hides-keeps_out : (k : BookingStatus) → hides k ≡ keeps_out k
hides-keeps_out k = ground arith

-- A blocked day of a listing from the day of `i` to the day before that of `o`.
abbrev pub is_shut : ℕ → ℕ → ℕ → Availability → Bool
is_shut property_id i o a =
    a.is_blocked
    && a.property_id == property_id
    && leb (i / 86400000 * 86400000) a.date
    && ltb a.date (o / 86400000 * 86400000)

-- A booking of a listing that keeps it out and has a night in common with those days.
abbrev pub is_let : ℕ → ℕ → ℕ → Booking → Bool
is_let property_id i o b =
    keeps_out b.status
    && b.property_id == property_id
    && ltb b.check_in (o / 86400000 * 86400000)
    && ltb (i / 86400000 * 86400000) b.check_out

-- What is promised of a listing for dates: it is published, within the bounds that were given, and free.
pub record IsShown (q : SearchQuery) (i o : ℕ) (s : Store) (p : Property) : Type 0 where
  pub published : is_published p.status ≡ true
  pub roomy : if_number q.guests (λ n. leb n p.max_guests) ≡ true
  pub dear_enough : if_number q.min_price (λ n. leb n p.base_price) ≡ true
  pub cheap_enough : if_number q.max_price (λ n. leb p.base_price n) ≡ true
  pub liked_enough : if_number q.min_rating (λ n. leb n p.average_rating) ≡ true
  pub unblocked : All (λ a. is_shut p.id i o a ≡ false) s.availabilities
  pub vacant : All (λ b. is_let p.id i o b ≡ false) s.bookings

ordered-All {κ} :
    (P : Property → Type κ) (sort_order : SortBy) (ps : List Property)
    → All P ps
    → All P (ordered_by sort_order ps)
ordered-All P SortBy.newest ps h = All-newest_first P ps h
ordered-All P SortBy.price_asc ps h = All-sort_by P (λ a b. leb a.base_price b.base_price) ps h
ordered-All P SortBy.price_desc ps h = All-sort_by P (λ a b. leb b.base_price a.base_price) ps h
ordered-All P SortBy.rating_desc ps h =
    All-sort_by P (λ a b. leb b.average_rating a.average_rating) ps h

search_where-IsShown :
    (d : Details) (q : SearchQuery) (i o : ℕ) (s : Store) (p : Property)
    → search_where d q (some (i, o)) s p ≡ true
    → IsShown q i o s p
unfolding search_where
search_where-IsShown d q i o s p h = record {
  published = ground arith;
  roomy = ground arith;
  dear_enough = ground arith;
  cheap_enough = ground arith;
  liked_enough = ground arith;
  unblocked =
      All-map (λ a. blocks_stay p.id i o a ≡ false) (λ a. is_shut p.id i o a ≡ false)
        s.availabilities (λ a k. ground arith)
        (exists_row-false (blocks_stay p.id i o) s.availabilities (ground arith));
  vacant =
      All-map (λ b. stays_over p.id i o b ≡ false) (λ b. is_let p.id i o b ≡ false) s.bookings
        (λ b k. ground (arith, hides-keeps_out b.status))
        (exists_row-false (stays_over p.id i o) s.bookings (ground arith));
}

-- A search for two valid dates is answered, and every listing that it shows, on any page and in any order, is
-- published, takes the guests, keeps to the bounds on price and rating that were given, and has no blocked day from the
-- day of the first date to the one before that of the second, and no booking over those that is confirmed, checked in or pending.
pub search-IsShown :
    (d : Details) (q : SearchQuery) (i o : ℕ) (s : Store)
    → q.check_in ≡ some (some i)
    → q.check_out ≡ some (some o)
    → (found : Page Property) × (search_properties d q s ≡ (ok found, s))
      × All (IsShown q i o s) found.rows
unfolding search_properties
search-IsShown d q i o s ei eo = (
  paginate 12 q.page q.limit (search_where d q (some (i, o)) s) (ordered_by q.sort_order)
      s.properties,
  rw (ei, eo) refl,
  All-paginate (IsShown q i o s) 12 q.page q.limit (search_where d q (some (i, o)) s)
      (ordered_by q.sort_order) s.properties (ordered-All (IsShown q i o s) q.sort_order)
      (search_where-IsShown d q i o s),
)
