-- ===== src/Websocket/Overheard.antt =====
-- Who hears the messages of a conversation, and how often.
use hoyhel.Prelude.{
  ℕ, ◌+◌, ◌≡◌, inl, inr, Bool, true, false, ◌&&◌, List, [], ◌∷◌, ◌++◌, ◌==◌, ==_refl, exists_row,
  find_first, count, count-append, Option-cases, Bool-cases, Text, arith,
}
use hoyhel.Schema.{Store, Env, Event, Message, NotificationType}
use hoyhel.Service.{ok}
use hoyhel.Password.{JwtPayload}
use hoyhel.Notifications.{create_notification}
use hoyhel.Bookings.{user_is}
use hoyhel.Messaging.{conversation_is, other_party, send_message}
use hoyhel.Websocket.{
  Room, room_eq, join, Client, connect, join_conversation, receives, on_send_message,
}

-- The arrival of a message of a conversation at a client.
abbrev pub brings_message : ℕ → Client → Event → Bool
brings_message conversation_id c (Event.new_message k) =
    k == conversation_id && receives c (Event.new_message k)
brings_message conversation_id c _ = false

added :
    (room : Room) (rooms : List Room)
    → room_eq room room ≡ true
    → exists_row (room_eq room) (rooms ++ room ∷ []) ≡ true
unfolding exists_row
added room [] h = ground arith
added room (r ∷ rooms) h = ground (arith, added room rooms h)

joined :
    (room : Room) (rooms : List Room)
    → room_eq room room ≡ true
    → exists_row (room_eq room) (join room rooms) ≡ true
joined room rooms h = elim (Bool-cases (exists_row (room_eq room) rooms)) [
  | inl there ↦ rw there there
  | inr absent ↦ rw absent (added room rooms h)
]

hears :
    (conversation_id : ℕ) (c : Client)
    → receives (join_conversation conversation_id c) (Event.new_message conversation_id) ≡ true
unfolding receives join_conversation
hears conversation_id c =
    joined (Room.conversation_room conversation_id) c.rooms (==_refl conversation_id)

sent_events :
    (env : Env) (conversation_id user_id : ℕ) (words : Text) (s : Store) (m : Message)
    → (send_message env conversation_id user_id words s).0 ≡ ok m
    → (k : ℕ) × ((on_send_message env conversation_id user_id words s).events
        ≡ ((s.events ++ Event.new_message conversation_id ∷ [])
            ++ Event.to_user k NotificationType.new_message ∷ [])
          ++ Event.new_message conversation_id ∷ [])
unfolding on_send_message send_message create_notification
sent_events env conversation_id user_id words s m e =
    elim (Option-cases (find_first (conversation_is conversation_id) s.conversations)) [
      | inl missing ↦ absurd (ground arith)
      | inr (c, found) ↦ elim (Option-cases (find_first (user_is user_id) s.users)) [
        | inl stranger ↦ absurd (ground arith)
        | inr (u, known) ↦ (other_party user_id c, ground arith)
      ]
    ]

-- Any client that asks for the room of a conversation hears it, whoever its user is: a message that is sent
-- through the socket then reaches that client, and reaches it twice.
pub overheard_twice :
    (env : Env) (conversation_id sender_id id : ℕ) (user : JwtPayload) (words : Text) (s : Store)
    (m : Message)
    → (send_message env conversation_id sender_id words s).0 ≡ ok m
    → let c = join_conversation conversation_id (connect id user) in
      count
        (brings_message conversation_id c)
        (on_send_message env conversation_id sender_id words s).events
      ≡ count (brings_message conversation_id c) s.events + 2
unfolding count
overheard_twice env conversation_id sender_id id user words s m e =
    let c = join_conversation conversation_id (connect id user) in
    let news = Event.new_message conversation_id in
    let (k, after) = sent_events env conversation_id sender_id words s m e in
    let notice = Event.to_user k NotificationType.new_message in
    rw after (
      ground (
        arith,
        hears conversation_id (connect id user),
        ==_refl conversation_id,
        count-append (brings_message conversation_id c) ((s.events ++ news ∷ []) ++ notice ∷ [])
            (news ∷ []),
        count-append (brings_message conversation_id c) (s.events ++ news ∷ []) (notice ∷ []),
        count-append (brings_message conversation_id c) s.events (news ∷ []),
      ))
