-- ===== src/Messaging/Tests.antt =====
-- Witnesses and tests for conversations and messages.
use hoyhel.Prelude.{
  List, ◌+◌, ◌≡◌, refl, [], ◌∷◌, none, some, true, false, length, count, find_first, find_many,
  update_many, trim, arith,
}
use hoyhel.Schema.{Store, Conversation, Message}
use hoyhel.Service.{ok}
use hoyhel.Notifications.{create_notification}
use hoyhel.Messaging.{
  unread_in, open_conversation, recipient_of, get_or_create_conversation, mark_conversation_as_read,
  get_conversation_messages, send_message,
}
use hoyhel.Messaging.Threads.{conversation_once}
use hoyhel.Messaging.Unread.{IsSent, send_raises, view_clears, IsOnlooker, admin_view_clears}
use hoyhel.Samples.{env, shop, admin}

abbrev thread : Conversation
thread = record {
  id = 900;
  property_id = some 50;
  guest_id = 2;
  host_id = 1;
  booking_id = none;
  last_message_at = 1728000003600;
}

started : (get_or_create_conversation env 2 (some 1) (some 50) none shop).0 ≡ ok thread
unfolding get_or_create_conversation recipient_of find_first
started = refl

conversation_once_example :
    let t = (get_or_create_conversation env 2 (some 1) (some 50) none shop).1 in
    (get_or_create_conversation env 2 (some 1) (some 50) none t ≡ (ok thread, t))
    × (get_or_create_conversation env 1 (some 2) (some 50) none t ≡ (ok thread, t))
conversation_once_example = conversation_once env env 2 1 (some 50) none none shop thread started

abbrev hello : Message
hello = record {
  id = 900;
  conversation_id = 900;
  sender_id = 2;
  body = 104 ∷ [];
  is_read = false;
  read_at = none;
  created_at = 1728000003600;
}

abbrev chat : Store
chat = record shop { conversations = thread ∷ [] }

abbrev told : Store
told = record chat { messages = hello ∷ [] }

hello_sent : (send_message env 900 2 (32 ∷ 104 ∷ []) chat).0 ≡ ok hello
unfolding send_message create_notification find_first trim
hello_sent = refl

send_raises_example :
    let t = (send_message env 900 2 (32 ∷ 104 ∷ []) chat).1 in
    IsSent env 900 2 (32 ∷ 104 ∷ []) chat t hello
    × (unread_in 900 1 t ≡ unread_in 900 1 chat + 1)
    × (unread_in 900 2 t ≡ unread_in 900 2 chat)
send_raises_example = send_raises env 900 2 1 (32 ∷ 104 ∷ []) chat hello hello_sent (omega arith)

viewed_by_host :
    (get_conversation_messages env 900 1 told).0
    ≡ ok (record hello { is_read = true; read_at = some 1728000003600 } ∷ [])
unfolding get_conversation_messages mark_conversation_as_read open_conversation unread_in find_first
    find_many update_many count
viewed_by_host = refl

view_clears_example :
    let t = (get_conversation_messages env 900 1 told).1 in
    (unread_in 900 1 t ≡ 0)
    × (length t.messages ≡ length told.messages)
    × (unread_in 901 2 t ≡ unread_in 901 2 told)
view_clears_example =
    view_clears env 900 901 1 2 told
      (record hello { is_read = true; read_at = some 1728000003600 } ∷ []) viewed_by_host
      (omega arith)

admin-IsOnlooker : IsOnlooker 900 4 told
unfolding find_first
admin-IsOnlooker = record {
  account = admin;
  conversation = thread;
  known = refl;
  admin = refl;
  found = refl;
  outside = refl;
  silent = (refl, tt);
}

-- The host did not read the message, and is shown none unread.
admin_view_clears_example :
    let (out, t) = get_conversation_messages env 900 4 told in
    (ms : List Message) × (out ≡ ok ms) × (unread_in 900 1 t ≡ 0)
admin_view_clears_example = admin_view_clears env 900 4 1 told admin-IsOnlooker
