-- ===== src/Messaging/Threads.antt =====
-- Two users have one conversation about a listing.
use hoyhel.Prelude.{
  ℕ, ◌≡◌, refl, ◌∙◌, inl, inr, true, false, List, [], ◌∷◌, ◌++◌, Option, none, some, ◌==◌, ==_iff,
  ==_refl, ==_comm, find_first, find_first_sound, find_first-append, Option-cases, arith,
}
use hoyhel.Schema.{Store, Env, User, Conversation}
use hoyhel.Service.{ok}
use hoyhel.Bookings.{user_is}
use hoyhel.Messaging.{between, recipient_of, new_conversation, get_or_create_conversation}

-- A conversation that is there is answered, and nothing changes.
answers :
    (env : Env) (a b : ℕ) (target property_id booking_id : Option ℕ) (s : Store) (c : Conversation)
    → recipient_of target property_id s ≡ (ok b, s)
    → (a == b) ≡ false
    → find_first (between a b property_id) s.conversations ≡ some c
    → get_or_create_conversation env a target property_id booking_id s ≡ (ok c, s)
unfolding get_or_create_conversation
answers env a b target property_id booking_id s c named apart found = ground arith

-- What a request that returned has established.
record IsOpened (a b : ℕ) (property_id : Option ℕ) (s t : Store) (c : Conversation) : Type 0 where
  apart : (a == b) ≡ false
  rows : List Conversation
  after : t ≡ record s { conversations = rows }
  found : find_first (between a b property_id) rows ≡ some c

new_between :
    (env : Env) (a b : ℕ) (property_id booking_id : Option ℕ) (u : User)
    → u.id ≡ a
    → between a b property_id (new_conversation env u b property_id booking_id) ≡ true
new_between env a b none booking_id u me = ground (arith, ==_refl a, ==_refl b)
new_between env a b (some p) booking_id u me = ground (arith, ==_refl a, ==_refl b, ==_refl p)

started :
    (env : Env) (a b : ℕ) (property_id booking_id : Option ℕ) (s : Store) (u : User)
    → find_first (between a b property_id) s.conversations ≡ none
    → u.id ≡ a
    → find_first
        (between a b property_id)
        (s.conversations ++ new_conversation env u b property_id booking_id ∷ [])
      ≡ some (new_conversation env u b property_id booking_id)
unfolding find_first
started env a b property_id booking_id s u fresh me =
    find_first-append (between a b property_id) s.conversations
      (new_conversation env u b property_id booking_id ∷ []) fresh
    ∙ rw (new_between env a b property_id booking_id u me)

opened :
    (env : Env) (a b : ℕ) (target property_id booking_id : Option ℕ) (s : Store) (c : Conversation)
    → recipient_of target property_id s ≡ (ok b, s)
    → (get_or_create_conversation env a target property_id booking_id s).0 ≡ ok c
    → IsOpened a b property_id s
        (get_or_create_conversation env a target property_id booking_id s).1
        c
unfolding get_or_create_conversation
opened env a b target property_id booking_id s c named e =
    elim (Option-cases (find_first (between a b property_id) s.conversations)) [
      | inr (k, found) ↦ record {
        apart = ground arith;
        rows = s.conversations;
        after = ground arith;
        found = ground arith;
      }
      | inl fresh ↦ elim (Option-cases (find_first (user_is a) s.users)) [
        | inl stranger ↦ absurd (ground arith)
        | inr (u, known) ↦ elim (Option-cases (find_first (user_is b) s.users)) [
          | inl stranger ↦ absurd (ground arith)
          | inr (v, met) ↦ record {
            apart = ground arith;
            rows = s.conversations ++ new_conversation env u b property_id booking_id ∷ [];
            after = ground arith;
            found =
                started env a b property_id booking_id s u fresh
                  ((==_iff u.id a).0 (find_first_sound (user_is a) s.users u known))
                ∙ ground arith;
          }
        ]
      ]
    ]

between_comm :
    (a b : ℕ) (property_id : Option ℕ) (cs : List Conversation)
    → find_first (between a b property_id) cs ≡ find_first (between b a property_id) cs
unfolding find_first
between_comm a b property_id [] = refl
between_comm a b property_id (c ∷ cs) = ground (arith, between_comm a b property_id cs)

-- Two users have one conversation about a listing: once a request of one of them returned it, any later request
-- of the same user for the same other user, and any of the other user that names the first, answers the
-- same conversation and changes nothing.
pub conversation_once :
    (env later : Env) (a b : ℕ) (property_id booking_id booking_id' : Option ℕ) (s : Store)
    (c : Conversation)
    → (get_or_create_conversation env a (some b) property_id booking_id s).0 ≡ ok c
    → let t = (get_or_create_conversation env a (some b) property_id booking_id s).1 in
      (get_or_create_conversation later a (some b) property_id booking_id' t ≡ (ok c, t))
      × (get_or_create_conversation later b (some a) property_id booking_id' t ≡ (ok c, t))
unfolding recipient_of
conversation_once env later a b property_id booking_id booking_id' s c e =
    let t = (get_or_create_conversation env a (some b) property_id booking_id s).1 in
    let w = opened env a b (some b) property_id booking_id s c refl e in
    let here : find_first (between a b property_id) t.conversations ≡ some c = rw w.after w.found in
    (
      answers later a b (some b) property_id booking_id' t c refl w.apart here,
      answers later b a (some a) property_id booking_id' t c refl (==_comm b a ∙ w.apart)
          (between_comm b a property_id t.conversations ∙ here),
    )
