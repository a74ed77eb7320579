-- ===== src/Notifications/Tests.antt =====
-- Witnesses and tests for notifications.
use hoyhel.Prelude.{ℕ, ◌≢◌, [], ◌∷◌, arith}
use hoyhel.Schema.{Store, NotificationType, NotificationPriority}
use hoyhel.Notifications.{new_notification}
use hoyhel.Samples.{env, shop}

-- One unread notification of user 2 and one of user 3.
abbrev inbox : Store
inbox = record shop {
  notifications =
      new_notification env 10 2 NotificationType.booking_created NotificationPriority.high
      ∷ new_notification env 11 3 NotificationType.booking_created NotificationPriority.high
      ∷ [];
}

apart : ◌≢◌ {A = ℕ} 3 2
apart e = omega (arith, e)
