-- ===== src/Websocket.antt =====
-- backend/src/websocket/socket.ts: connected clients, their rooms, and what is emitted to them.
pub mod Overheard
mod Tests
use hoyhel.Prelude.{
  ℕ, Bool, true, false, not, ◌&&◌, List, [], ◌∷◌, ◌++◌, ◌==◌, if◌then◌else◌, exists_row,
  delete_many, Text,
}
use hoyhel.Schema.{Store, Env, Event, Message, UserRoleType, is_admin}
use hoyhel.Service.{Result, ok, err}
use hoyhel.Password.{JwtPayload}
use hoyhel.Notifications.{emit}
use hoyhel.Messaging.{send_message}

pub data Room : Type 0 where
  user_room : ℕ → Room
  admin_room : Room
  conversation_room : ℕ → Room

abbrev pub room_eq : Room → Room → Bool
room_eq (Room.user_room a) (Room.user_room b) = a == b
room_eq Room.admin_room Room.admin_room = true
room_eq (Room.conversation_room a) (Room.conversation_room b) = a == b
room_eq _ _ = false

pub record Client : Type 0 where
  pub id : ℕ
  pub user : JwtPayload
  pub rooms : List Room

-- `socket.join`: a room is joined once.
abbrev pub join : Room → List Room → List Room
join room rooms = if exists_row (room_eq room) rooms then rooms else rooms ++ room ∷ []

-- The handler of `connection`, of a client whose token was accepted.
unfoldable pub connect : ℕ → JwtPayload → Client
connect id user = record {
  id = id;
  user = user;
  rooms =
      if exists_row is_admin user.roles
      then join Room.admin_room (Room.user_room user.user_id ∷ [])
      else Room.user_room user.user_id ∷ [];
}

-- The handler of `join_conversation`
unfoldable pub join_conversation : ℕ → Client → Client
join_conversation conversation_id c = record c {
  rooms = join (Room.conversation_room conversation_id) c.rooms;
}

-- The handler of `leave_conversation`
unfoldable pub leave_conversation : ℕ → Client → Client
leave_conversation conversation_id c = record c {
  rooms = delete_many (room_eq (Room.conversation_room conversation_id)) c.rooms;
}

-- The rooms of `emitToUser`, `emitToAdmins` and `emitToConversation`.
abbrev pub room_of : Event → Room
room_of (Event.to_user user_id kind) = Room.user_room user_id
room_of (Event.to_admins kind) = Room.admin_room
room_of (Event.new_message conversation_id) = Room.conversation_room conversation_id
room_of (Event.messages_read conversation_id user_id) = Room.conversation_room conversation_id

unfoldable pub receives : Client → Event → Bool
receives c e = exists_row (room_eq (room_of e)) c.rooms

-- The handler of `send_message`: an error is told to the client alone.
unfoldable pub on_send_message : Env → ℕ → ℕ → Text → Store → Store
on_send_message env conversation_id user_id words s =
    let (out, t) = send_message env conversation_id user_id words s in
    elim out [ ok m ↦ emit (Event.new_message conversation_id) t | err x ↦ t ]
