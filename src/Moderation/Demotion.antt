-- ===== src/Moderation/Demotion.antt =====
-- The guards count different administrators: a demotion may leave none that is active.
use hoyhel.Prelude.{ℕ, ◌≤◌, ◌≡◌, true, false, some, find_first, count, arith}
use hoyhel.Schema.{Store, User, UserRoleType, is_admin}
use hoyhel.Service.{ok}
use hoyhel.Bookings.{user_is}
use hoyhel.Moderation.{is_active_admin, is_open_admin, with_role, update_user_role}
use hoyhel.Moderation.Guards.{Unique, count-update_found}

-- Where the guard of `updateUserRole` counts a second administrator that is blocked or banned, the only
-- administrator who is neither suspended nor blocked nor banned can be demoted, and none is left.
pub demotes_last_active :
    (admin_id target_id : ℕ) (role : UserRoleType) (s : Store) (t : User)
    → Unique s.users
    → find_first (user_is target_id) s.users ≡ some t
    → is_active_admin t ≡ true
    → count is_active_admin s.users ≡ 1
    → 2 ≤ count is_open_admin s.users
    → is_admin role ≡ false
    → let (out, u) = update_user_role admin_id target_id role s in
      (out ≡ ok (with_role role t)) × (count is_active_admin u.users ≡ 0)
unfolding update_user_role
demotes_last_active admin_id target_id role s t unique found active one two lower =
    let moved =
      count-update_found is_active_admin (with_role role) target_id s.users t unique found in
    (ground arith, ground (arith, moved))
