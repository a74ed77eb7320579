-- ===== src/Notifications/Listed.antt =====
-- backend/src/modules/notifications/notifications.service.ts: the page of notifications of a user.
use hoyhel.Prelude.{ℕ, Bool, not, ◌&&◌, ◌||◌, Option, leb, ◌==◌}
use hoyhel.Schema.{Store, Notification}
use hoyhel.Notifications.{get_unread_count}
use hoyhel.Pages.{Page, sort_by, paginate}

pub record NotificationPage : Type 0 where
  pub listed : Page Notification
  pub unread_count : ℕ

abbrev pub is_listed : ℕ → Bool → Notification → Bool
is_listed user_id unread_only n = n.user_id == user_id && not (unread_only && n.is_read)

-- `[{ isRead: 'asc' }, { createdAt: 'desc' }]`: what is not read comes first, and then what is newer.
abbrev pub unread_first : Notification → Notification → Bool
unread_first m n =
    (not m.is_read && n.is_read)
    || ((m.is_read && n.is_read || not m.is_read && not n.is_read) && leb n.created_at m.created_at)

-- `getUserNotifications`
unfoldable pub get_user_notifications : ℕ → Option ℕ → Option ℕ → Bool → Store → NotificationPage
get_user_notifications user_id page limit unread_only s = record {
  listed =
      paginate 20 page limit (is_listed user_id unread_only) (sort_by unread_first) s.notifications;
  unread_count = get_unread_count user_id s;
}
