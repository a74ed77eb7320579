-- ===== src/Moderation/Flags.antt =====
-- The status column against the flags, and the sessions of a restricted account.
use hoyhel.Prelude.{
  ℕ, ◌≡◌, refl, inl, inr, ◌⊎◌, Bool, true, not, ◌&&◌, Option, some, ◌==◌, find_first, count,
  update_many, count-update_many_zero, All, All-update_many, Text, Option-cases, arith,
}
use hoyhel.Schema.{Store, Env, User, UserStatus, UserSession, RefreshToken}
use hoyhel.Service.{ok}
use hoyhel.Bookings.{user_is}
use hoyhel.Moderation.{
  ModerationAction, restricts, moderate, token_of, session_of, revoke, invalidate, end_sessions,
  update_user_moderation_status,
}

-- A status that names a restriction names one that is in force.
pub record IsHonest (u : User) : Type 0 where
  pub suspended : u.status ≡ UserStatus.suspended → u.is_suspended ≡ true
  pub blocked : u.status ≡ UserStatus.blocked → u.is_blocked ≡ true
  pub banned : u.status ≡ UserStatus.banned → u.is_banned ≡ true

moderate-IsHonest :
    (action : ModerationAction) (reason : Option Text) (u : User)
    → IsHonest u
    → IsHonest (moderate action reason u)
moderate-IsHonest ModerationAction.suspend reason u h = ground arith
moderate-IsHonest ModerationAction.unsuspend reason u h = ground arith
moderate-IsHonest ModerationAction.block reason u h = ground arith
moderate-IsHonest ModerationAction.unblock reason u h = ground arith
moderate-IsHonest ModerationAction.ban reason u h = ground arith
moderate-IsHonest ModerationAction.unban reason u h = ground arith
moderate-IsHonest ModerationAction.deactivate reason u h = ground arith
moderate-IsHonest ModerationAction.reactivate reason u h = ground arith

users_after :
    (env : Env) (admin_id target_id : ℕ) (action : ModerationAction) (reason : Option Text)
    (s : Store)
    → ((update_user_moderation_status env admin_id target_id action reason s).1.users ≡ s.users)
      ⊎ ((update_user_moderation_status env admin_id target_id action reason s).1.users
          ≡ update_many (user_is target_id) (moderate action reason) s.users)
unfolding update_user_moderation_status
users_after env admin_id target_id action reason s =
    elim (Option-cases (find_first (user_is target_id) s.users)) [
      | inl missing ↦ inl (ground arith)
      | inr (t, found) ↦ ground arith
    ]

-- Moderation keeps every account's status honest: it never names a suspension, a block or a ban whose
-- flag is not set.
pub moderation-IsHonest :
    (env : Env) (admin_id target_id : ℕ) (action : ModerationAction) (reason : Option Text)
    (s : Store)
    → All IsHonest s.users
    → All IsHonest (update_user_moderation_status env admin_id target_id action reason s).1.users
moderation-IsHonest env admin_id target_id action reason s h =
    elim (users_after env admin_id target_id action reason s) [
      | inl same ↦ rw same h
      | inr moved ↦ rw moved (
          All-update_many IsHonest (user_is target_id) (moderate action reason) s.users
            (λ u k _. moderate-IsHonest action reason u k) h)
    ]

abbrev pub usable_token_of : ℕ → RefreshToken → Bool
usable_token_of user_id t = t.user_id == user_id && not t.is_revoked

abbrev pub valid_session_of : ℕ → UserSession → Bool
valid_session_of user_id t = t.user_id == user_id && t.is_valid

pub end_sessions_ends :
    (user_id : ℕ) (s : Store)
    → (count (usable_token_of user_id) (end_sessions user_id s).refresh_tokens ≡ 0)
      × (count (valid_session_of user_id) (end_sessions user_id s).sessions ≡ 0)
end_sessions_ends user_id s = (
  count-update_many_zero (usable_token_of user_id) (token_of user_id) revoke s.refresh_tokens
      (λ t h. ground arith) (λ t h. ground arith),
  count-update_many_zero (valid_session_of user_id) (session_of user_id) invalidate s.sessions
      (λ t h. ground arith) (λ t h. ground arith),
)

-- A suspension, block, ban or deactivation that is carried out leaves the account without a refresh
-- token that is not revoked and without a valid session.
pub restriction_ends_sessions :
    (env : Env) (admin_id target_id : ℕ) (action : ModerationAction) (reason : Option Text)
    (s : Store) (u : User)
    → restricts action ≡ true
    → (update_user_moderation_status env admin_id target_id action reason s).0 ≡ ok u
    → let t = (update_user_moderation_status env admin_id target_id action reason s).1 in
      (count (usable_token_of target_id) t.refresh_tokens ≡ 0)
      × (count (valid_session_of target_id) t.sessions ≡ 0)
unfolding update_user_moderation_status
restriction_ends_sessions env admin_id target_id action reason s u hard e =
    elim (Option-cases (find_first (user_is target_id) s.users)) [
      | inl missing ↦ absurd (ground arith)
      | inr (t, found) ↦ ground (arith, end_sessions_ends target_id s)
    ]

-- Lifting a ban sets the status to ACTIVE, also of an account that stays suspended or blocked.
pub unban_hides_restrictions :
    (env : Env) (admin_id target_id : ℕ) (reason : Option Text) (s : Store) (u : User)
    → find_first (user_is target_id) s.users ≡ some u
    → let out =
        (update_user_moderation_status env admin_id target_id ModerationAction.unban reason s).0 in
      (v : User) × (out ≡ ok v)
      × (v.status ≡ UserStatus.active)
      × (v.is_suspended ≡ u.is_suspended)
      × (v.is_blocked ≡ u.is_blocked)
unfolding update_user_moderation_status
unban_hides_restrictions env admin_id target_id reason s u found =
    (moderate ModerationAction.unban reason u, ground arith, refl, refl, refl)
