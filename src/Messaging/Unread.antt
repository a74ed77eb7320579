-- ===== src/Messaging/Unread.antt =====
-- How the number of unread messages of a conversation moves.
use hoyhel.Prelude.{
  ℕ, ◌+◌, ◌≡◌, ◌≢◌, refl, ap, sym, ◌∙◌, inl, inr, true, false, not, ◌&&◌, List, [], ◌∷◌, ◌++◌, some,
  ◌==◌, zero, suc, ==_iff, ==_refl, find_first, find_many, update_many, count, length,
  length-update_many, count-append, count-update_many_zero, count-update_many, Bool-cases,
  Option-cases, Text, trim, is_empty, All, arith,
}
use hoyhel.Schema.{Store, Env, User, Conversation, Message, is_admin}
use hoyhel.Service.{Action, gets, ◌>>=◌, ok, >>=-eq-ok, pair_eq}
use hoyhel.Notifications.{create_notification}
use hoyhel.Bookings.{user_is, is_restricted}
use hoyhel.Messaging.{
  conversation_is, takes_part, is_unread_in, unread_in, open_conversation, mark_seen, tell_read,
  mark_conversation_as_read, get_conversation_messages, message_in, new_text, send_message,
}

-- A message that is sent: by whom, to which conversation, and what it writes.
pub record IsSent (env : Env) (conversation_id sender_id : ℕ) (words : Text) (s t : Store)
    (m : Message) : Type 0 where
  pub conversation : Conversation
  pub sender : User
  pub found : find_first (conversation_is conversation_id) s.conversations ≡ some conversation
  pub part : takes_part sender_id conversation ≡ true
  pub known : find_first (user_is sender_id) s.users ≡ some sender
  pub free : is_restricted sender ≡ false
  pub worded : is_empty (trim words) ≡ false
  pub row : m ≡ new_text env conversation_id sender_id words
  pub messages : t.messages ≡ s.messages ++ m ∷ []

sent :
    (env : Env) (conversation_id sender_id : ℕ) (words : Text) (s : Store) (m : Message)
    → (send_message env conversation_id sender_id words s).0 ≡ ok m
    → IsSent env conversation_id sender_id words s
        (send_message env conversation_id sender_id words s).1
        m
unfolding send_message create_notification
sent env conversation_id sender_id words s m e =
    elim (Option-cases (find_first (conversation_is conversation_id) s.conversations)) [
      | inl missing ↦ absurd (ground arith)
      | inr (c, found) ↦ elim (Option-cases (find_first (user_is sender_id) s.users)) [
        | inl stranger ↦ absurd (ground arith)
        | inr (u, known) ↦ record {
          conversation = c;
          sender = u;
          found = found;
          part = ground arith;
          known = known;
          free = ground arith;
          worded = ground arith;
          row = ground arith;
          messages = ground arith;
        }
      ]
    ]

-- A message that is sent is by a participant whose account is not restricted, and has words. It is one more
-- unread message of the conversation for everyone but the sender, whose number stays.
pub send_raises :
    (env : Env) (conversation_id sender_id reader : ℕ) (words : Text) (s : Store) (m : Message)
    → (send_message env conversation_id sender_id words s).0 ≡ ok m
    → sender_id ≢ reader
    → let t = (send_message env conversation_id sender_id words s).1 in
      IsSent env conversation_id sender_id words s t m
      × (unread_in conversation_id reader t ≡ unread_in conversation_id reader s + 1)
      × (unread_in conversation_id sender_id t ≡ unread_in conversation_id sender_id s)
unfolding unread_in count
send_raises env conversation_id sender_id reader words s m e apart =
    let w = sent env conversation_id sender_id words s m e in
    let row = new_text env conversation_id sender_id words in
    (
      w,
      rw (w.messages, w.row)
          (ground (
            arith,
            count-append (is_unread_in conversation_id reader) s.messages (row ∷ []),
            ==_refl conversation_id,
            ==_iff sender_id reader,
          )),
      rw (w.messages, w.row)
          (ground (
            arith,
            count-append (is_unread_in conversation_id sender_id) s.messages (row ∷ []),
            ==_refl sender_id,
          )),
    )

tell_read_messages :
    (n conversation_id user_id : ℕ) (s : Store)
    → (tell_read n conversation_id user_id s).messages ≡ s.messages
tell_read_messages zero conversation_id user_id s = refl
tell_read_messages (suc n) conversation_id user_id s = refl

marked :
    (env : Env) (conversation_id user_id : ℕ) (s : Store)
    → (mark_conversation_as_read env conversation_id user_id s).1.messages
      ≡ update_many (is_unread_in conversation_id user_id) (mark_seen env) s.messages
unfolding mark_conversation_as_read
marked env conversation_id user_id s =
    tell_read_messages (unread_in conversation_id user_id s) conversation_id user_id (record s {
      messages = update_many (is_unread_in conversation_id user_id) (mark_seen env) s.messages;
    })

open_store :
    (conversation_id user_id : ℕ) (s : Store) → (open_conversation conversation_id user_id s).1 ≡ s
unfolding open_conversation
open_store conversation_id user_id s =
    elim (Option-cases (find_first (conversation_is conversation_id) s.conversations)) [
      | inl missing ↦ ground arith
      | inr (c, found) ↦ ground arith
    ]

-- A look at a conversation that is allowed marks what others sent as read.
viewed :
    (env : Env) (conversation_id viewer : ℕ) (s : Store) (ms : List Message)
    → (get_conversation_messages env conversation_id viewer s).0 ≡ ok ms
    → (get_conversation_messages env conversation_id viewer s).1.messages
      ≡ update_many (is_unread_in conversation_id viewer) (mark_seen env) s.messages
unfolding get_conversation_messages
viewed env conversation_id viewer s ms e =
    let t = (get_conversation_messages env conversation_id viewer s).1 in
    let answer_all : ℕ → Action (List Message) =
      λ n. gets (λ x. find_many (message_in conversation_id) x.messages) in
    let (c, u, look, rest) =
      >>=-eq-ok (open_conversation conversation_id viewer)
        (λ c. mark_conversation_as_read env conversation_id viewer >>= answer_all)
        (pair_eq (get_conversation_messages env conversation_id viewer s) e refl) in
    let (n, v, mark, answer) =
      >>=-eq-ok (mark_conversation_as_read env conversation_id viewer) answer_all rest in
    let same : u ≡ s = ap (λ x. x.1) (sym look) ∙ open_store conversation_id viewer s in
    let last : t.messages ≡ (mark_conversation_as_read env conversation_id viewer u).1.messages =
      ap (λ x. x.1.messages) (sym answer) ∙ ap (λ x. x.1.messages) (sym mark) in
    last
    ∙ ap (λ x. (mark_conversation_as_read env conversation_id viewer x).1.messages) same
    ∙ marked env conversation_id viewer s

elsewhere :
    (conversation_id other viewer reader : ℕ) (m : Message)
    → other ≢ conversation_id
    → is_unread_in conversation_id viewer m ≡ true
    → (m.conversation_id == other && not (m.sender_id == reader) && false)
      ≡ is_unread_in other reader m
elsewhere conversation_id other viewer reader m apart h =
    elim (Bool-cases (m.conversation_id == other)) [
      | inl here ↦
          absurd (
            ground
              (arith, ==_iff m.conversation_id other, ==_iff m.conversation_id conversation_id))
      | inr there ↦ ground arith
    ]

seen-All :
    (env : Env) (conversation_id viewer reader : ℕ) (ms : List Message)
    → All (λ m. (m.conversation_id == conversation_id && m.sender_id == viewer) ≡ false) ms
    → count
        (is_unread_in conversation_id reader)
        (update_many (is_unread_in conversation_id viewer) (mark_seen env) ms)
      ≡ 0
unfolding count update_many
seen-All env conversation_id viewer reader [] h = refl
seen-All env conversation_id viewer reader (m ∷ ms) (h, hs) =
    ground (arith, seen-All env conversation_id viewer reader ms hs)

-- Opening a conversation leaves the viewer no unread message in it and keeps every message; the numbers of the
-- other users stay in conversations other than this one.
pub view_clears :
    (env : Env) (conversation_id other viewer reader : ℕ) (s : Store) (ms : List Message)
    → (get_conversation_messages env conversation_id viewer s).0 ≡ ok ms
    → other ≢ conversation_id
    → let t = (get_conversation_messages env conversation_id viewer s).1 in
      (unread_in conversation_id viewer t ≡ 0)
      × (length t.messages ≡ length s.messages)
      × (unread_in other reader t ≡ unread_in other reader s)
unfolding unread_in
view_clears env conversation_id other viewer reader s ms e apart =
    rw (viewed env conversation_id viewer s ms e) (
      count-update_many_zero (is_unread_in conversation_id viewer)
          (is_unread_in conversation_id viewer) (mark_seen env) s.messages (λ m h. ground arith)
          (λ m h. h),
      length-update_many (is_unread_in conversation_id viewer) (mark_seen env) s.messages,
      count-update_many (is_unread_in other reader) (is_unread_in conversation_id viewer)
          (mark_seen env) s.messages
          (λ m h. elsewhere conversation_id other viewer reader m apart h),
    )

-- An administrator who takes no part in the conversation and has sent no message of it.
pub record IsOnlooker (conversation_id viewer : ℕ) (s : Store) : Type 0 where
  pub account : User
  pub conversation : Conversation
  pub known : find_first (user_is viewer) s.users ≡ some account
  pub admin : is_admin account.role ≡ true
  pub found : find_first (conversation_is conversation_id) s.conversations ≡ some conversation
  pub outside : takes_part viewer conversation ≡ false
  pub silent :
      All (λ m. (m.conversation_id == conversation_id && m.sender_id == viewer) ≡ false) s.messages

shown :
    (env : Env) (conversation_id viewer : ℕ) (s : Store)
    → IsOnlooker conversation_id viewer s
    → (ms : List Message) × ((get_conversation_messages env conversation_id viewer s).0 ≡ ok ms)
unfolding get_conversation_messages open_conversation mark_conversation_as_read
shown env conversation_id viewer s w = (
  find_many (message_in conversation_id)
      (mark_conversation_as_read env conversation_id viewer s).1.messages,
  ground (arith, w.known, w.found, w.admin, w.outside),
)

-- An administrator who takes no part in a conversation, and has sent no message of it, is shown its messages, and
-- leaves no message of it unread for either participant, whoever was to read them.
pub admin_view_clears :
    (env : Env) (conversation_id viewer reader : ℕ) (s : Store)
    → IsOnlooker conversation_id viewer s
    → let (out, t) = get_conversation_messages env conversation_id viewer s in
      (ms : List Message) × (out ≡ ok ms) × (unread_in conversation_id reader t ≡ 0)
unfolding unread_in
admin_view_clears env conversation_id viewer reader s w =
    let (ms, e) = shown env conversation_id viewer s w in
    (
      ms,
      e,
      rw (viewed env conversation_id viewer s ms e)
          (seen-All env conversation_id viewer reader s.messages w.silent),
    )
