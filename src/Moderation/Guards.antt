-- ===== src/Moderation/Guards.antt =====
-- The platform keeps an active administrator.
use hoyhel.Prelude.{
  ℕ, ◌+◌, ◌≤◌, ◌≡◌, inl, inr, Bool, false, List, [], ◌∷◌, Option, some, ◌==◌, if◌then◌else◌,
  find_first, count, update_many, delete_many, exists_row, count-zero, update_many-none,
  delete_many-none, subst, Text, Bool-cases, Option-cases, arith,
}
use hoyhel.Schema.{Store, Env, User, UserRoleType}
use hoyhel.Bookings.{user_is}
use hoyhel.Moderation.{
  ModerationAction, moderate, is_active_admin, is_open_admin, has_admin_role, with_role,
  update_user_moderation_status, update_user_role, delete_user,
}

-- Identifiers are the table's key: no two rows share one.
abbrev pub Unique : List User → Type 0
Unique [] = Unit
Unique (u ∷ us) = (count (user_is u.id) us ≡ 0) × Unique us

abbrev pub bit : Bool → ℕ
bit b = if b then 1 else 0

none_left :
    (id : ℕ) (u : User) (us : List User)
    → u.id ≡ id
    → count (user_is u.id) us ≡ 0
    → exists_row (user_is id) us ≡ false
none_left id u us e h =
    subst (λ k. exists_row (user_is k) us ≡ false) e (count-zero (user_is u.id) us h)

-- Changing the one row with an identifier moves a count by what the change does to that row.
pub count-update_found :
    (p : User → Bool) (f : User → User) (id : ℕ) (us : List User) (t : User)
    → Unique us
    → find_first (user_is id) us ≡ some t
    → count p (update_many (user_is id) f us) + bit (p t) ≡ count p us + bit (p (f t))
unfolding count update_many find_first
count-update_found p f id [] t h e = absurd (ground arith)
count-update_found p f id (u ∷ us) t (h, hs) e = elim (Bool-cases (u.id == id)) [
  | inl same ↦
      ground (arith, update_many-none (user_is id) f us (none_left id u us (ground arith) h))
  | inr other ↦ ground (arith, count-update_found p f id us t hs)
]

-- Deleting the one row with an identifier takes it out of a count.
pub count-delete_found :
    (p : User → Bool) (id : ℕ) (us : List User) (t : User)
    → Unique us
    → find_first (user_is id) us ≡ some t
    → count p (delete_many (user_is id) us) + bit (p t) ≡ count p us
unfolding count delete_many find_first
count-delete_found p id [] t h e = absurd (ground arith)
count-delete_found p id (u ∷ us) t (h, hs) e = elim (Bool-cases (u.id == id)) [
  | inl same ↦ ground (arith, delete_many-none (user_is id) us (none_left id u us (ground arith) h))
  | inr other ↦ ground (arith, count-delete_found p id us t hs)
]

-- While there is an active administrator, moderation leaves one: whatever the action and the accounts,
-- and whether the request is carried out or refused.
pub moderation_keeps_admin :
    (env : Env) (admin_id target_id : ℕ) (action : ModerationAction) (reason : Option Text)
    (s : Store)
    → Unique s.users
    → 1 ≤ count is_active_admin s.users
    → 1
      ≤ count is_active_admin
          (update_user_moderation_status env admin_id target_id action reason s).1.users
unfolding update_user_moderation_status
moderation_keeps_admin env admin_id target_id action reason s unique some_admin =
    elim (Option-cases (find_first (user_is target_id) s.users)) [
      | inl missing ↦ ground arith
      | inr (t, found) ↦
          let moved =
            count-update_found is_active_admin (moderate action reason) target_id s.users t unique
              found in
          ground (arith, moved)
    ]

-- While there is an administrator that is active and not suspended, a change of role leaves one: whatever
-- the role and the accounts, and whether the request is carried out or refused.
pub role_keeps_admin :
    (admin_id target_id : ℕ) (role : UserRoleType) (s : Store)
    → Unique s.users
    → 1 ≤ count is_open_admin s.users
    → 1 ≤ count is_open_admin (update_user_role admin_id target_id role s).1.users
unfolding update_user_role
role_keeps_admin admin_id target_id role s unique some_admin =
    elim (Option-cases (find_first (user_is target_id) s.users)) [
      | inl missing ↦ ground arith
      | inr (t, found) ↦ ground (
        arith,
        count-update_found is_open_admin (with_role role) target_id s.users t unique found,
      )
    ]

-- While there is an administrator, a deletion leaves one: whatever the account, and whether the request is
-- carried out or refused.
pub delete_keeps_admin :
    (admin_id target_id : ℕ) (s : Store)
    → Unique s.users
    → 1 ≤ count has_admin_role s.users
    → 1 ≤ count has_admin_role (delete_user admin_id target_id s).1.users
unfolding delete_user
delete_keeps_admin admin_id target_id s unique some_admin =
    elim (Option-cases (find_first (user_is target_id) s.users)) [
      | inl missing ↦ ground arith
      | inr (t, found) ↦
          ground (arith, count-delete_found has_admin_role target_id s.users t unique found)
    ]

-- The three guards, each with its own notion of an administrator, keep one of the kind that they count. Moderation
-- keeps one that is neither suspended, blocked nor banned and is active, where there is such a one; a change of role
-- keeps one that is active and not suspended, blocked and banned ones included; a deletion keeps one with the role, whatever its state.
-- This holds whatever the accounts, the action and the role, and whether the requests are carried out or refused.
pub admin_remains :
    (env : Env) (admin_id target_id : ℕ) (action : ModerationAction) (reason : Option Text)
    (role : UserRoleType) (s : Store)
    → Unique s.users
    → 1 ≤ count is_active_admin s.users
    → 1 ≤ count is_open_admin s.users
    → 1 ≤ count has_admin_role s.users
    → (1
        ≤ count is_active_admin
            (update_user_moderation_status env admin_id target_id action reason s).1.users)
      × (1 ≤ count is_open_admin (update_user_role admin_id target_id role s).1.users)
      × (1 ≤ count has_admin_role (delete_user admin_id target_id s).1.users)
admin_remains env admin_id target_id action reason role s unique active_one open_one one = (
  moderation_keeps_admin env admin_id target_id action reason s unique active_one,
  role_keeps_admin admin_id target_id role s unique open_one,
  delete_keeps_admin admin_id target_id s unique one,
)
