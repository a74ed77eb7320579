-- ===== src/Notifications.antt =====
-- backend/src/modules/notifications/notifications.service.ts.
pub mod Keeps
pub mod Unread
pub mod Listed
pub mod Badge
mod Tests
use hoyhel.Prelude.{
  ℕ, Bool, true, not, ◌&&◌, List, [], ◌∷◌, ◌++◌, Option, none, some, ◌==◌, if◌then◌else◌, find_many,
  count, update_many, delete_many,
}
use hoyhel.Schema.{
  Store, Env, User, Notification, NotificationType, NotificationPriority, Event, is_admin,
}
use hoyhel.Service.{Action, pure, gets, modify, ◌>>=◌, ◌>>◌}

-- A row as `prisma.notification.create` makes it.
abbrev pub new_notification : Env → ℕ → ℕ → NotificationType → NotificationPriority → Notification
new_notification env id user_id kind priority = record {
  id = id;
  user_id = user_id;
  kind = kind;
  priority = priority;
  is_read = Bool.false;
  read_at = none;
  created_at = env.now;
}

abbrev pub insert_notification : Notification → Store → Store
insert_notification n s = record s { notifications = s.notifications ++ n ∷ [] }

abbrev pub emit : Event → Store → Store
emit e s = record s { events = s.events ++ e ∷ [] }

-- `createNotification`: the row, and a socket event to the user.
unfoldable pub create_notification :
    Env → ℕ → ℕ → NotificationType → NotificationPriority → Action Notification
create_notification env id user_id kind priority = do
  let n = new_notification env id user_id kind priority
  modify (insert_notification n)
  modify (emit (Event.to_user user_id kind))
  pure n

-- The rows for the administrators, each with the next identifier.
abbrev pub admin_notifications :
    Env → ℕ → NotificationType → NotificationPriority → List User → List Notification
admin_notifications env k kind priority [] = []
admin_notifications env k kind priority (u ∷ us) =
    new_notification env (env.uuid k) u.id kind priority
    ∷ admin_notifications env (ℕ.suc k) kind priority us

abbrev pub announce : NotificationType → List Notification → Store → Store
announce kind [] s = s
announce kind (n ∷ ns) s = record s {
  notifications = s.notifications ++ n ∷ ns;
  events = s.events ++ Event.to_admins kind ∷ [];
}

-- `notifyAdmins`: nothing where there is no administrator. `k` is the first identifier to use.
unfoldable pub notify_admins :
    Env → ℕ → NotificationType → NotificationPriority → Action (List Notification)
notify_admins env k kind priority = do
  admins ← gets (λ s. find_many (λ u. is_admin u.role) s.users)
  let rows = admin_notifications env k kind priority admins
  modify (announce kind rows)
  pure rows

abbrev pub is_unread_of : ℕ → Notification → Bool
is_unread_of user_id n = n.user_id == user_id && not n.is_read

-- `getUnreadCount`
unfoldable pub get_unread_count : ℕ → Store → ℕ
get_unread_count user_id s = count (is_unread_of user_id) s.notifications

abbrev pub mark_read : Env → Notification → Notification
mark_read env n = record n { is_read = true; read_at = some env.now }

abbrev pub is_of : ℕ → ℕ → Notification → Bool
is_of notification_id user_id n = n.id == notification_id && n.user_id == user_id

-- `markAsRead`
unfoldable pub mark_as_read : Env → ℕ → ℕ → Store → Store
mark_as_read env notification_id user_id s = record s {
  notifications = update_many (is_of notification_id user_id) (mark_read env) s.notifications;
}

-- `markAllAsRead`
unfoldable pub mark_all_as_read : Env → ℕ → Store → Store
mark_all_as_read env user_id s = record s {
  notifications = update_many (is_unread_of user_id) (mark_read env) s.notifications;
}

-- `deleteNotification`
unfoldable pub delete_notification : ℕ → ℕ → Store → Store
delete_notification notification_id user_id s = record s {
  notifications = delete_many (is_of notification_id user_id) s.notifications;
}
