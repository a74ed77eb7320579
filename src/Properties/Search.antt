-- ===== src/Properties/Search.antt =====
-- backend/src/modules/properties/properties.service.ts: searchProperties and getPropertyById.
use hoyhel.Prelude.{
  ℕ, zero, suc, Bool, true, false, not, ◌&&◌, ◌||◌, List, [], ◌∷◌, Option, none, some, ◌==◌, leb,
  ltb, find_first, exists_row, Text, contains_insensitive,
}
use hoyhel.Schema.{Store, Property, Booking, BookingStatus, is_published, start_of_day}
use hoyhel.Service.{AppError, Action, pure, gets, or_throw, ◌>>=◌}
use hoyhel.Pages.{Page, newest_first, sort_by, paginate}
use hoyhel.Bookings.{property_is, blocks_stay}

-- The columns of a listing that its row leaves out, by its identifier; a type and an amenity are numbers.
pub record Details : Type 0 where
  pub description : ℕ → Text
  pub bedrooms : ℕ → ℕ
  pub bathrooms : ℕ → ℕ
  pub property_type : ℕ → ℕ
  pub amenities : ℕ → List ℕ

pub data SortBy : Type 0 where
  newest price_asc price_desc rating_desc : SortBy

-- The parameters. A date that is given and invalid is `some none`; a rating is in hundredths.
pub record SearchQuery : Type 0 where
  pub city : Option Text
  pub country : Option Text
  pub search : Option Text
  pub check_in : Option (Option ℕ)
  pub check_out : Option (Option ℕ)
  pub guests : Option ℕ
  pub bedrooms : Option ℕ
  pub bathrooms : Option ℕ
  pub property_type : Option ℕ
  pub min_price : Option ℕ
  pub max_price : Option ℕ
  pub min_rating : Option ℕ
  pub amenities : List ℕ
  pub page : Option ℕ
  pub limit : Option ℕ
  pub sort_order : SortBy

-- A test that is made only where its parameter is truthy.
abbrev pub if_text : Option Text → (Text → Bool) → Bool
if_text none p = true
if_text (some []) p = true
if_text (some (c ∷ cs)) p = p (c ∷ cs)

abbrev pub if_number : Option ℕ → (ℕ → Bool) → Bool
if_number none p = true
if_number (some zero) p = true
if_number (some (suc n)) p = p (suc n)

abbrev pub if_listed : {A : Type 0} → Option A → (A → Bool) → Bool
if_listed none p = true
if_listed (some a) p = p a

-- `amenityId: { in: params.amenities }` of some row, where any is asked for
abbrev pub has_amenity : List ℕ → List ℕ → Bool
has_amenity [] has = true
has_amenity (a ∷ rest) has = exists_row (λ h. exists_row (λ w. w == h) (a ∷ rest)) has

-- `status: { in: ['CONFIRMED', 'CHECKED_IN', 'PENDING'] }`
abbrev pub hides : BookingStatus → Bool
hides BookingStatus.confirmed = true
hides BookingStatus.checked_in = true
hides BookingStatus.pending = true
hides _ = false

abbrev pub stays_over : ℕ → ℕ → ℕ → Booking → Bool
stays_over property_id check_in check_out b =
    b.property_id == property_id
    && hides b.status
    && ltb b.check_in (start_of_day check_out)
    && ltb (start_of_day check_in) b.check_out

-- The filter by dates, where both are given.
abbrev pub is_vacant : Option (ℕ × ℕ) → Store → Property → Bool
is_vacant none s p = true
is_vacant (some (check_in, check_out)) s p =
    not (exists_row (blocks_stay p.id check_in check_out) s.availabilities)
    && not (exists_row (stays_over p.id check_in check_out) s.bookings)

unfoldable pub search_where : Details → SearchQuery → Option (ℕ × ℕ) → Store → Property → Bool
search_where d q dates s p =
    is_published p.status
    && if_text q.city (λ t. contains_insensitive t p.city)
    && if_text q.country (λ t. contains_insensitive t p.country)
    && if_text q.search (λ t.
      contains_insensitive t p.title
      || contains_insensitive t (d.description p.id)
      || contains_insensitive t p.city)
    && if_number q.guests (λ n. leb n p.max_guests)
    && if_number q.bedrooms (λ n. leb n (d.bedrooms p.id))
    && if_number q.bathrooms (λ n. leb n (d.bathrooms p.id))
    && if_listed q.property_type (λ k. d.property_type p.id == k)
    && if_number q.min_price (λ n. leb n p.base_price)
    && if_number q.max_price (λ n. leb p.base_price n)
    && if_number q.min_rating (λ n. leb n p.average_rating)
    && has_amenity q.amenities (d.amenities p.id)
    && is_vacant dates s p

abbrev pub ordered_by : SortBy → List Property → List Property
ordered_by SortBy.newest ps = newest_first ps
ordered_by SortBy.price_asc ps = sort_by (λ a b. leb a.base_price b.base_price) ps
ordered_by SortBy.price_desc ps = sort_by (λ a b. leb b.base_price a.base_price) ps
ordered_by SortBy.rating_desc ps = sort_by (λ a b. leb b.average_rating a.average_rating) ps

-- `if (params.checkIn && params.checkOut)`; the database refuses an invalid date.
abbrev pub dates_of : Option (Option ℕ) → Option (Option ℕ) → Action (Option (ℕ × ℕ))
dates_of none check_out = pure none
dates_of (some i) none = pure none
dates_of (some i) (some o) = do
  check_in ← or_throw i (AppError.internal "invalid date")
  check_out ← or_throw o (AppError.internal "invalid date")
  pure (some (check_in, check_out))

-- `searchProperties`
unfoldable pub search_properties : Details → SearchQuery → Action (Page Property)
search_properties d q = do
  dates ← dates_of q.check_in q.check_out
  gets (λ s.
      paginate 12 q.page q.limit (search_where d q dates s) (ordered_by q.sort_order) s.properties)

-- `getPropertyById`
unfoldable pub get_property_by_id : ℕ → Action Property
get_property_by_id property_id = do
  row ← gets (λ s. find_first (property_is property_id) s.properties)
  or_throw row (AppError.not_found "Property")
