-- ===== src/Administration/Tests.antt =====
-- Witnesses and tests for the figures and lists of administrators.
use hoyhel.Prelude.{
  ◌+◌, ◌≤◌, ◌≡◌, refl, true, [], ◌∷◌, none, some, find_many, count, text, contains_insensitive,
  first_part, other_parts, trim_start, is_space, to_lower_case, starts_with, arith,
}
use hoyhel.Service.{ok}
use hoyhel.Bookings.Cancel.{is_over}
use hoyhel.Pages.{newest_first, total_pages_of}
use hoyhel.Pages.Cover.{first_pages}
use hoyhel.Administration.{Analytics, get_dashboard_analytics}
use hoyhel.Administration.Figures.{dashboard_adds_up}
use hoyhel.Administration.Lists.{Spelling, UserQuery, user_where, get_users}
use hoyhel.Administration.Lists.Found.{get_users-pages}
use hoyhel.Samples.{env, shop, paid_shop}

dashboard_adds_up_example :
    let (out, t) = get_dashboard_analytics env paid_shop in
    (a : Analytics) × (out ≡ ok a)
    × (a.host_earnings + a.platform_fees ≡ a.total_revenue)
    × (a.confirmed_bookings + a.completed_bookings + a.cancelled_bookings + a.refunded_bookings
        ≤ a.total_bookings)
    × (count (is_over env.now) t.bookings ≡ 0)
dashboard_adds_up_example = dashboard_adds_up env paid_shop (omega arith, tt)

abbrev spell : Spelling
spell = record { user_id = λ n. n ∷ []; booking_number = λ n. n ∷ [] }

abbrev query : UserQuery
query = record {
  search = none;
  role = none;
  status_filter = some (text "active");
  is_suspended = none;
  page = none;
  limit = some 3;
}

get_users-pages_example :
    first_pages
      (λ k. (get_users spell (record query { page = some k }) shop).rows)
      (get_users spell (record query { page = none }) shop).total_pages
    ≡ newest_first (find_many (user_where spell query) shop.users)
get_users-pages_example = get_users-pages spell query shop

two_pages : total_pages_of 3 4 ≡ 2
unfolding total_pages_of
two_pages = refl

first_name_of_search : first_part (text "Ann  Lee B") ≡ text "Ann"
unfolding first_part text is_space
first_name_of_search = refl

last_name_of_search : other_parts (text "Ann  Lee  B") ≡ text "Lee B"
unfolding other_parts text trim_start is_space
last_name_of_search = refl

any_case : contains_insensitive (text "NAIRO") (text "in Nairobi") ≡ true
unfolding contains_insensitive text to_lower_case starts_with
any_case = refl
