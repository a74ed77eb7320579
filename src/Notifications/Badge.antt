-- ===== src/Notifications/Badge.antt =====
-- The number of unread notifications, and the page that lists them.
use hoyhel.Prelude.{
  ℕ, ◌≡◌, refl, ap, ◌∙◌, true, List, [], ◌∷◌, Option, none, some, find_many, count, length, arith,
}
use hoyhel.Schema.{Store, Notification}
use hoyhel.Notifications.{is_unread_of, get_unread_count}
use hoyhel.Notifications.Listed.{is_listed, unread_first, get_user_notifications}
use hoyhel.Pages.{sort_by}
use hoyhel.Pages.Cover.{first_pages, paginate-all, length-sort_by, length-find_many}

counted :
    (user_id : ℕ) (ns : List Notification)
    → count (is_listed user_id true) ns ≡ count (is_unread_of user_id) ns
unfolding count
counted user_id [] = refl
counted user_id (n ∷ ns) = ground (arith, counted user_id ns)

-- The pages of what is unread, up to the last that is announced, hold as many notifications as the count of
-- unread ones that each page shows, and all of them, the newest first.
pub unread_pages :
    (user_id : ℕ) (limit : Option ℕ) (s : Store)
    → let all =
        first_pages
          (λ k. (get_user_notifications user_id (some k) limit true s).listed.rows)
          (get_user_notifications user_id none limit true s).listed.total_pages in
      (all ≡ sort_by unread_first (find_many (is_listed user_id true) s.notifications))
      × (length all ≡ (get_user_notifications user_id none limit true s).unread_count)
unfolding get_user_notifications get_unread_count
unread_pages user_id limit s =
    let same =
      paginate-all 20 limit (is_listed user_id true) (sort_by unread_first) s.notifications
        (omega arith) (length-sort_by unread_first) in
    (
      same,
      ap length same
          ∙ length-sort_by unread_first (find_many (is_listed user_id true) s.notifications)
          ∙ length-find_many (is_listed user_id true) s.notifications
          ∙ counted user_id s.notifications,
    )
