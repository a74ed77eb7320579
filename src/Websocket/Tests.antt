-- ===== src/Websocket/Tests.antt =====
-- Witness and tests for the websocket.
use hoyhel.Prelude.{◌+◌, ◌≡◌, refl, [], ◌∷◌, none, some, false, find_first, trim, count}
use hoyhel.Schema.{Store, Conversation, Message, UserRoleType}
use hoyhel.Service.{ok}
use hoyhel.Password.{JwtPayload}
use hoyhel.Notifications.{create_notification}
use hoyhel.Messaging.{send_message}
use hoyhel.Websocket.{connect, join_conversation, on_send_message}
use hoyhel.Websocket.Overheard.{brings_message, overheard_twice}
use hoyhel.Samples.{env, shop}

abbrev thread : Conversation
thread = record {
  id = 900;
  property_id = some 50;
  guest_id = 2;
  host_id = 1;
  booking_id = none;
  last_message_at = 0;
}

abbrev chat : Store
chat = record shop { conversations = thread ∷ [] }

abbrev hello : Message
hello = record {
  id = 900;
  conversation_id = 900;
  sender_id = 2;
  body = 104 ∷ [];
  is_read = false;
  read_at = none;
  created_at = 1728000003600;
}

hello_sent : (send_message env 900 2 (104 ∷ []) chat).0 ≡ ok hello
unfolding send_message create_notification find_first trim
hello_sent = refl

-- User 3 takes no part in the conversation.
abbrev stranger : JwtPayload
stranger = record { user_id = 3; email = []; roles = UserRoleType.guest ∷ [] }

overheard_twice_example :
    count
      (brings_message 900 (join_conversation 900 (connect 5 stranger)))
      (on_send_message env 900 2 (104 ∷ []) chat).events
    ≡ count (brings_message 900 (join_conversation 900 (connect 5 stranger))) chat.events + 2
overheard_twice_example = overheard_twice env 900 2 5 stranger (104 ∷ []) chat hello hello_sent
