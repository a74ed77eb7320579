-- ===== src/Notifications/Keeps.antt =====
-- Sending notifications changes the notifications and the events, and nothing else.
use hoyhel.Prelude.{ℕ, ◌≡◌, refl, List, [], ◌∷◌, arith, find_many}
use hoyhel.Schema.{Store, Env, Notification, NotificationType, NotificationPriority, is_admin}
use hoyhel.Service.{ok}
use hoyhel.Notifications.{notify_admins, admin_notifications, announce}

-- What an operation that only notifies leaves alone.
pub record IsQuiet (s t : Store) : Type 0 where
  pub users : t.users ≡ s.users
  pub properties : t.properties ≡ s.properties
  pub images : t.images ≡ s.images
  pub status_history : t.status_history ≡ s.status_history
  pub bookings : t.bookings ≡ s.bookings
  pub payments : t.payments ≡ s.payments
  pub host_applications : t.host_applications ≡ s.host_applications

announce-IsQuiet :
    (kind : NotificationType) (ns : List Notification) (s : Store) → IsQuiet s (announce kind ns s)
announce-IsQuiet kind [] s = ground arith
announce-IsQuiet kind (n ∷ ns) s = ground arith

pub notify_admins-IsQuiet :
    (env : Env) (k : ℕ) (kind : NotificationType) (priority : NotificationPriority) (s : Store)
    → IsQuiet s (notify_admins env k kind priority s).1
unfolding notify_admins
notify_admins-IsQuiet env k kind priority s =
    announce-IsQuiet kind
      (admin_notifications env k kind priority (find_many (λ u. is_admin u.role) s.users)) s

pub notify_admins-ok :
    (env : Env) (k : ℕ) (kind : NotificationType) (priority : NotificationPriority) (s : Store)
    → (ns : List Notification) × ((notify_admins env k kind priority s).0 ≡ ok ns)
unfolding notify_admins
notify_admins-ok env k kind priority s =
    (admin_notifications env k kind priority (find_many (λ u. is_admin u.role) s.users), refl)
