-- ===== src/Properties/SearchTests.antt =====
-- Witness for the search of listings.
use hoyhel.Prelude.{◌≡◌, refl, [], none, some, All}
use hoyhel.Schema.{Property}
use hoyhel.Service.{ok}
use hoyhel.Pages.{Page}
use hoyhel.Properties.Search.{Details, SearchQuery, SortBy, search_properties}
use hoyhel.Properties.Shown.{IsShown, search-IsShown}
use hoyhel.Samples.{shop}

abbrev details : Details
details = record {
  description = λ _. [];
  bedrooms = λ _. 2;
  bathrooms = λ _. 1;
  property_type = λ _. 0;
  amenities = λ _. [];
}

abbrev query : SearchQuery
query = record {
  city = none;
  country = none;
  search = none;
  check_in = some (some 1728864000000);
  check_out = some (some 1729036800000);
  guests = some 2;
  bedrooms = some 1;
  bathrooms = none;
  property_type = none;
  min_price = none;
  max_price = some 20000;
  min_rating = none;
  amenities = [];
  page = none;
  limit = none;
  sort_order = SortBy.price_asc;
}

search-IsShown_example :
    (found : Page Property) × (search_properties details query shop ≡ (ok found, shop))
    × All (IsShown query 1728864000000 1729036800000 shop) found.rows
search-IsShown_example = search-IsShown details query 1728864000000 1729036800000 shop refl refl
