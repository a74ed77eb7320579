-- ===== src/Schema/Social.antt =====
-- The rows of prisma/schema.prisma about reviews, messages and notifications. A notification keeps
-- whom it is for, its type and priority and whether it was read; its wording is not kept.
use hoyhel.Prelude.{ℕ, Bool, Option, Text}
use hoyhel.Schema.Enums.{NotificationType, NotificationPriority}

pub record Review : Type 0 where
  pub id : ℕ
  pub property_id : ℕ
  pub booking_id : ℕ
  pub author_id : ℕ
  pub rating : ℕ
  pub cleanliness : ℕ
  pub communication : ℕ
  pub location : ℕ
  pub accuracy : ℕ
  pub value : ℕ
  pub comment : Text

pub record Conversation : Type 0 where
  pub id : ℕ
  pub property_id : Option ℕ
  pub guest_id : ℕ
  pub host_id : ℕ
  pub booking_id : Option ℕ
  pub last_message_at : ℕ

pub record Message : Type 0 where
  pub id : ℕ
  pub conversation_id : ℕ
  pub sender_id : ℕ
  pub body : Text
  pub is_read : Bool
  pub read_at : Option ℕ
  pub created_at : ℕ

pub record Notification : Type 0 where
  pub id : ℕ
  pub user_id : ℕ
  pub kind : NotificationType
  pub priority : NotificationPriority
  pub is_read : Bool
  pub read_at : Option ℕ
  pub created_at : ℕ

-- What the websocket layer is asked to emit.
pub data Event : Type 0 where
  to_user : ℕ → NotificationType → Event
  to_admins : NotificationType → Event
  new_message : ℕ → Event
  messages_read : ℕ → ℕ → Event
