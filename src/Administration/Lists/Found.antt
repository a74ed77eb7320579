-- ===== src/Administration/Lists/Found.antt =====
-- What the pages of accounts show.
use hoyhel.Prelude.{◌≡◌, none, some, find_many, arith}
use hoyhel.Schema.{Store}
use hoyhel.Pages.{newest_first}
use hoyhel.Pages.Cover.{first_pages, paginate-all, length-newest_first}
use hoyhel.Administration.Lists.{Spelling, UserQuery, user_where, get_users}

-- The pages of accounts, from the first to the last that is announced, hold every account that passes the filters
-- once, the newest first, and no other, whatever the limit of a page.
pub get_users-pages :
    (spell : Spelling) (q : UserQuery) (s : Store)
    → first_pages
        (λ k. (get_users spell (record q { page = some k }) s).rows)
        (get_users spell (record q { page = none }) s).total_pages
      ≡ newest_first (find_many (user_where spell q) s.users)
unfolding get_users user_where
get_users-pages spell q s =
    paginate-all 20 q.limit (user_where spell q) newest_first s.users (omega arith)
      length-newest_first
