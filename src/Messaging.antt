-- ===== src/Messaging.antt =====
-- backend/src/modules/messaging/messaging.service.ts: conversations of a guest and a host, and their
-- messages. A list is in the order of its table.
pub mod Unread
pub mod Threads
mod Tests
use hoyhel.Prelude.{
  ℕ, zero, suc, Bool, true, false, not, ◌&&◌, ◌||◌, List, [], ◌∷◌, ◌++◌, Option, none, some, ◌==◌,
  if◌then◌else◌, find_first, find_many, exists_row, update_many, count, map, Text, text, trim,
  is_empty,
}
use hoyhel.Schema.{
  Store, Env, User, Property, Conversation, Message, Event, NotificationType, NotificationPriority,
  is_admin, is_host,
}
use hoyhel.Service.{
  AppError, Action, pure, gets, modify, or_throw, throw_if, transaction, ◌>>=◌, ◌>>◌,
}
use hoyhel.Notifications.{create_notification, emit}
use hoyhel.Bookings.{property_is, user_is, is_restricted, restriction_reason}

-- `propertyId ? { propertyId } : {}`
abbrev pub about : Option ℕ → Conversation → Bool
about none c = true
about (some property_id) c = elim c.property_id [ none ↦ false | some k ↦ k == property_id ]

-- The two users, in either role, and the listing where one is given.
abbrev pub between : ℕ → ℕ → Option ℕ → Conversation → Bool
between a b property_id c =
    (c.guest_id == a && c.host_id == b || c.guest_id == b && c.host_id == a) && about property_id c

-- The other participant: the one named, or the host of the listing.
unfoldable pub recipient_of : Option ℕ → Option ℕ → Action ℕ
recipient_of (some target) property_id = pure target
recipient_of none none =
    throw_if true
      (AppError.validation "A recipient host or property must be specified to start a conversation")
    >> pure 0
recipient_of none (some property_id) = do
  row ← gets (λ s. find_first (property_is property_id) s.properties)
  p ← or_throw row (AppError.not_found "Property not found")
  pure p.host_id

-- The starter is the guest, unless a host.
abbrev pub new_conversation : Env → User → ℕ → Option ℕ → Option ℕ → Conversation
new_conversation env a other property_id booking_id = record {
  id = env.uuid 0;
  property_id = property_id;
  guest_id = if is_host a.role then other else a.id;
  host_id = if is_host a.role then a.id else other;
  booking_id = booking_id;
  last_message_at = env.now;
}

abbrev pub start_conversation : Env → ℕ → ℕ → Option ℕ → Option ℕ → Action Conversation
start_conversation env a b property_id booking_id = do
  user_a ← gets (λ s. find_first (user_is a) s.users)
  user_b ← gets (λ s. find_first (user_is b) s.users)
  u ← or_throw user_a (AppError.not_found "User participant not found")
  v ← or_throw user_b (AppError.not_found "User participant not found")
  modify (λ s. record s {
    conversations = s.conversations ++ new_conversation env u b property_id booking_id ∷ [];
  })
  pure (new_conversation env u b property_id booking_id)

abbrev pub keep_or_start : Option Conversation → Action Conversation → Action Conversation
keep_or_start none start = start
keep_or_start (some c) start = pure c

-- `getOrCreateConversation`
unfoldable pub get_or_create_conversation :
    Env → ℕ → Option ℕ → Option ℕ → Option ℕ → Action Conversation
get_or_create_conversation env a target property_id booking_id = do
  b ← recipient_of target property_id
  throw_if (a == b) (AppError.validation "You cannot start a conversation with yourself")
  existing ← gets (λ s. find_first (between a b property_id) s.conversations)
  keep_or_start existing (start_conversation env a b property_id booking_id)

abbrev pub conversation_is : ℕ → Conversation → Bool
conversation_is conversation_id c = c.id == conversation_id

abbrev pub takes_part : ℕ → Conversation → Bool
takes_part user_id c = c.guest_id == user_id || c.host_id == user_id

abbrev pub is_administrator : Option User → Bool
is_administrator none = false
is_administrator (some u) = is_admin u.role

-- The messages of a conversation that others sent and that are not read.
abbrev pub is_unread_in : ℕ → ℕ → Message → Bool
is_unread_in conversation_id user_id m =
    m.conversation_id == conversation_id && not (m.sender_id == user_id) && not m.is_read

unfoldable pub unread_in : ℕ → ℕ → Store → ℕ
unread_in conversation_id user_id s = count (is_unread_in conversation_id user_id) s.messages

-- `findUnique`, and the check of who may look at it.
unfoldable pub open_conversation : ℕ → ℕ → Action Conversation
open_conversation conversation_id user_id = do
  row ← gets (λ s. find_first (conversation_is conversation_id) s.conversations)
  c ← or_throw row (AppError.not_found "Conversation")
  viewer ← gets (λ s. find_first (user_is user_id) s.users)
  throw_if (not (takes_part user_id c) && not (is_administrator viewer))
      (AppError.forbidden "Access denied to conversation")
  pure c

-- `getConversationById`: the conversation and the number of unread messages in it.
unfoldable pub get_conversation_by_id : ℕ → ℕ → Action (Conversation × ℕ)
get_conversation_by_id conversation_id user_id = do
  c ← open_conversation conversation_id user_id
  n ← gets (unread_in c.id user_id)
  pure (c, n)

-- `getUserConversations`, each with the number of its unread messages
unfoldable pub get_user_conversations : ℕ → Store → List (Conversation × ℕ)
get_user_conversations user_id s =
    map (λ c. (c, unread_in c.id user_id s)) (find_many (takes_part user_id) s.conversations)

-- The `where` on the conversation of a message.
abbrev pub in_conversation_of : ℕ → Store → Message → Bool
in_conversation_of user_id s m =
    elim (find_first (conversation_is m.conversation_id) s.conversations) [
      | none ↦ false
      | some c ↦ takes_part user_id c
    ]

-- `getUserUnreadMessageCount`
unfoldable pub get_user_unread_message_count : ℕ → Store → ℕ
get_user_unread_message_count user_id s =
    count (λ m. in_conversation_of user_id s m && not (m.sender_id == user_id) && not m.is_read)
      s.messages

abbrev pub mark_seen : Env → Message → Message
mark_seen env m = record m { is_read = true; read_at = some env.now }

-- `if (updated.count > 0) emitToConversation(…)`
abbrev pub tell_read : ℕ → ℕ → ℕ → Store → Store
tell_read zero conversation_id user_id s = s
tell_read (suc _) conversation_id user_id s = emit (Event.messages_read conversation_id user_id) s

-- `markConversationAsRead`
unfoldable pub mark_conversation_as_read : Env → ℕ → ℕ → Action ℕ
mark_conversation_as_read env conversation_id user_id = do
  n ← gets (unread_in conversation_id user_id)
  modify (λ s. record s {
    messages = update_many (is_unread_in conversation_id user_id) (mark_seen env) s.messages;
  })
  modify (tell_read n conversation_id user_id)
  pure n

abbrev pub message_in : ℕ → Message → Bool
message_in conversation_id m = m.conversation_id == conversation_id

-- `getConversationMessages`
unfoldable pub get_conversation_messages : Env → ℕ → ℕ → Action (List Message)
get_conversation_messages env conversation_id user_id = do
  c ← open_conversation conversation_id user_id
  n ← mark_conversation_as_read env conversation_id user_id
  gets (λ s. find_many (message_in conversation_id) s.messages)

abbrev messaging_restriction : Text
messaging_restriction = text "Your account is currently restricted from sending messages."

abbrev require_sender : Option User → Action (Unit {0})
require_sender none = throw_if true (AppError.account_restricted messaging_restriction)
require_sender (some u) =
    throw_if (is_restricted u)
      (AppError.account_restricted (restriction_reason u messaging_restriction))

abbrev pub new_text : Env → ℕ → ℕ → Text → Message
new_text env conversation_id sender_id words = record {
  id = env.uuid 0;
  conversation_id = conversation_id;
  sender_id = sender_id;
  body = trim words;
  is_read = false;
  read_at = none;
  created_at = env.now;
}

abbrev touch : Env → Conversation → Conversation
touch env c = record c { last_message_at = env.now }

abbrev pub other_party : ℕ → Conversation → ℕ
other_party user_id c = if c.guest_id == user_id then c.host_id else c.guest_id

-- `sendMessage`
unfoldable pub send_message : Env → ℕ → ℕ → Text → Action Message
send_message env conversation_id sender_id words = do
  throw_if (is_empty (trim words)) (AppError.validation "Message content cannot be empty")
  row ← gets (λ s. find_first (conversation_is conversation_id) s.conversations)
  c ← or_throw row (AppError.not_found "Conversation")
  throw_if (not (takes_part sender_id c))
      (AppError.forbidden "You are not a participant in this conversation")
  sender ← gets (λ s. find_first (user_is sender_id) s.users)
  require_sender sender
  modify (λ s. record s {
    messages = s.messages ++ new_text env conversation_id sender_id words ∷ [];
    conversations = update_many (conversation_is conversation_id) (touch env) s.conversations;
  })
  modify (emit (Event.new_message conversation_id))
  create_notification env (env.uuid 1) (other_party sender_id c) NotificationType.new_message
      NotificationPriority.normal
  pure (new_text env conversation_id sender_id words)
