-- ===== src/Moderation/Tests.antt =====
-- Witnesses and tests for the moderation of accounts.
use hoyhel.Prelude.{ℕ, ◌≡◌, ◌≤◌, refl, true, [], ◌∷◌, none, some, count, find_first, arith}
use hoyhel.Schema.{Store, User, UserRoleType, UserStatus}
use hoyhel.Service.{ok}
use hoyhel.Bookings.{user_is}
use hoyhel.Moderation.{
  ModerationAction, is_active_admin, is_open_admin, has_admin_role, moderate,
  update_user_moderation_status, update_user_role, delete_user,
}
use hoyhel.Moderation.Guards.{Unique, admin_remains}
use hoyhel.Moderation.Flags.{IsHonest}
use hoyhel.Samples.{env, host, guest, admin, user, shop}

shop-Unique : Unique shop.users
unfolding count
shop-Unique = (refl, (refl, (refl, (refl, tt))))

one_admin : 1 ≤ count is_active_admin shop.users
unfolding count
one_admin = omega arith

one_open_admin : 1 ≤ count is_open_admin shop.users
unfolding count
one_open_admin = omega arith

one_role : 1 ≤ count has_admin_role shop.users
unfolding count
one_role = omega arith

honest : (id : ℕ) (role : UserRoleType) → IsHonest (user id role)
honest id role = ground arith

guest_suspended :
    (update_user_moderation_status env 4 2 ModerationAction.suspend none shop).0
    ≡ ok (moderate ModerationAction.suspend none guest)
unfolding update_user_moderation_status find_first
guest_suspended = refl

-- A guest that is banned and blocked.
abbrev outcast : User
outcast = record guest { status = UserStatus.banned; is_banned = true; is_blocked = true }

abbrev strict_shop : Store
strict_shop = record shop { users = host ∷ outcast ∷ admin ∷ [] }

outcast_found : find_first (user_is 2) strict_shop.users ≡ some outcast
unfolding find_first
outcast_found = refl

-- A second administrator, who is blocked.
abbrev blocked_admin : User
blocked_admin = record (user 5 UserRoleType.admin) {
  status = UserStatus.blocked;
  is_blocked = true;
}

abbrev two_admins : Store
two_admins = record shop { users = admin ∷ blocked_admin ∷ [] }

admins-Unique : Unique two_admins.users
unfolding count
admins-Unique = (refl, (refl, tt))

admin_found : find_first (user_is 4) two_admins.users ≡ some admin
unfolding find_first
admin_found = refl

one_active : count is_active_admin two_admins.users ≡ 1
unfolding count
one_active = refl

two_open : 2 ≤ count is_open_admin two_admins.users
unfolding count
two_open = omega arith

admin_remains_example :
    (1
      ≤ count is_active_admin
          (update_user_moderation_status env 4 4 ModerationAction.ban none shop).1.users)
    × (1 ≤ count is_open_admin (update_user_role 4 4 UserRoleType.guest shop).1.users)
    × (1 ≤ count has_admin_role (delete_user 4 4 shop).1.users)
admin_remains_example =
    admin_remains env 4 4 ModerationAction.ban none UserRoleType.guest shop shop-Unique one_admin
      one_open_admin one_role
