-- ===== src/Accounts/Applications.antt =====
-- Applications to become a host.
use hoyhel.Prelude.{
  ℕ, ◌≤◌, ◌≡◌, refl, inl, inr, ◌⊎◌, List, [], ◌∷◌, ◌++◌, Bool, true, false, Option, some, ==_iff,
  find_first, find_first-update_many, All, exists_row, update_many, count, count-none, count-append,
  Option-cases, Bool-cases, arith, Text,
}
use hoyhel.Schema.{
  Store, Env, User, UserRoleType, HostApplication, NotificationType, NotificationPriority, is_host,
}
use hoyhel.Service.{ok}
use hoyhel.Bookings.{user_is}
use hoyhel.Moderation.{has_admin_role, with_role}
use hoyhel.Notifications.Keeps.{notify_admins-IsQuiet, notify_admins-ok}
use hoyhel.Accounts.{
  is_pending_of, new_application, apply_for_host, application_is, reviewed, review_host_application,
}

-- At most one application of an account waits.
abbrev pub IsSingle : List HostApplication → Type 0
IsSingle rows = (user_id : ℕ) → count (is_pending_of user_id) rows ≤ 1

-- A review settles applications, and makes none wait.
settles :
    (env : Env) (admin_id application_id user_id : ℕ) (is_approved : Bool) (reason : Option Text)
    (rows : List HostApplication)
    → count (is_pending_of user_id) (
        update_many (application_is application_id) (reviewed env admin_id is_approved reason) rows)
      ≤ count (is_pending_of user_id) rows
unfolding count update_many
settles env admin_id application_id user_id is_approved reason [] = omega arith
settles env admin_id application_id user_id is_approved reason (a ∷ rows) =
    ground (arith, settles env admin_id application_id user_id is_approved reason rows)

applied :
    (env : Env) (user_id : ℕ) (s : Store)
    → ((apply_for_host env user_id s).1.host_applications ≡ s.host_applications)
      ⊎ ((exists_row (is_pending_of user_id) s.host_applications ≡ false)
          × ((apply_for_host env user_id s).1.host_applications
              ≡ s.host_applications ++ new_application env user_id ∷ []))
unfolding apply_for_host
applied env user_id s =
    let t = record s {
      host_applications = s.host_applications ++ new_application env user_id ∷ [];
    } in
    let (ns, sent) =
      notify_admins-ok env 1 NotificationType.host_application_submitted NotificationPriority.high
        t in
    let quiet =
      notify_admins-IsQuiet env 1 NotificationType.host_application_submitted
        NotificationPriority.high t in
    elim (Option-cases (find_first (user_is user_id) s.users)) [
      | inl missing ↦ inl (ground arith)
      | inr (u, found) ↦ elim (Bool-cases (is_host u.role)) [
        | inl host ↦ inl (ground arith)
        | inr guest ↦ elim (Bool-cases (exists_row (is_pending_of user_id) s.host_applications)) [
          | inl waits ↦ inl (ground arith)
          | inr free ↦ inr (free, ground (arith, sent, quiet.host_applications))
        ]
      ]
    ]

files :
    (env : Env) (user_id other : ℕ) (rows : List HostApplication)
    → exists_row (is_pending_of user_id) rows ≡ false
    → count (is_pending_of other) rows ≤ 1
    → count (is_pending_of other) (rows ++ new_application env user_id ∷ []) ≤ 1
unfolding count
files env user_id other rows free h = ground (
  arith,
  count-append (is_pending_of other) rows (new_application env user_id ∷ []),
  count-none (is_pending_of user_id) rows free,
  ==_iff user_id other,
)

reviewed_rows :
    (env : Env) (admin_id application_id : ℕ) (is_approved : Bool) (reason : Option Text)
    (s : Store)
    → ((review_host_application env admin_id application_id is_approved reason
          s).1.host_applications
        ≡ s.host_applications)
      ⊎ ((review_host_application env admin_id application_id is_approved reason
            s).1.host_applications
          ≡ update_many
              (application_is application_id)
              (reviewed env admin_id is_approved reason)
              s.host_applications)
unfolding review_host_application
reviewed_rows env admin_id application_id is_approved reason s =
    elim (Option-cases (find_first (application_is application_id) s.host_applications)) [
      | inl missing ↦ inl (ground arith)
      | inr (a, found) ↦ elim (Bool-cases is_approved) [
        | inr refused ↦ inr (ground arith)
        | inl granted ↦ elim (Option-cases (find_first (user_is a.user_id) s.users)) [
          | inl gone ↦ inl (ground arith)
          | inr (u, known) ↦ inr (ground arith)
        ]
      ]
    ]

-- At most one application of every account waits: neither an application nor a review, granted or refused,
-- makes it two.
pub applications-IsSingle :
    (env : Env) (user_id admin_id application_id : ℕ) (is_approved : Bool) (reason : Option Text)
    (s : Store)
    → IsSingle s.host_applications
    → IsSingle (apply_for_host env user_id s).1.host_applications
      × IsSingle
          (review_host_application env admin_id application_id is_approved reason
            s).1.host_applications
applications-IsSingle env user_id admin_id application_id is_approved reason s h = (
  λ other. elim (applied env user_id s) [
    | inl same ↦ rw same (h other)
    | inr (free, added) ↦ rw added (files env user_id other s.host_applications free (h other))
  ],
  λ other. elim (reviewed_rows env admin_id application_id is_approved reason s) [
    | inl same ↦ rw same (h other)
    | inr moved ↦ rw moved (
        omega (
          arith,
          h other,
          settles env admin_id application_id other is_approved reason s.host_applications,
        ))
  ],
)

demoted :
    (user_id : ℕ) (us : List User)
    → All (λ v. has_admin_role v ≡ true → v.id ≡ user_id) us
    → count has_admin_role (update_many (user_is user_id) (with_role UserRoleType.host) us) ≡ 0
unfolding count update_many
demoted user_id [] h = refl
demoted user_id (u ∷ us) (h, hs) = elim (Bool-cases (has_admin_role u)) [
  | inl rules ↦ ground (arith, demoted user_id us hs, h rules, ==_iff u.id user_id)
  | inr lower ↦ ground (arith, demoted user_id us hs)
]

-- Where nobody but the author of an application has the role of administrator, its approval is carried out, makes the
-- author a host and leaves nobody with that role.
pub approval_demotes :
    (env : Env) (admin_id application_id : ℕ) (reason : Option Text) (s : Store)
    (a : HostApplication) (u : User)
    → find_first (application_is application_id) s.host_applications ≡ some a
    → find_first (user_is a.user_id) s.users ≡ some u
    → All (λ v. has_admin_role v ≡ true → v.id ≡ a.user_id) s.users
    → let (out, t) = review_host_application env admin_id application_id true reason s in
      (out ≡ ok (reviewed env admin_id true reason a))
      × (find_first (user_is a.user_id) t.users ≡ some (with_role UserRoleType.host u))
      × (count has_admin_role t.users ≡ 0)
unfolding review_host_application
approval_demotes env admin_id application_id reason s a u found known only =
    let row =
      find_first-update_many (user_is a.user_id) (with_role UserRoleType.host) s.users u (λ x h. h)
        known in
    let none_left = demoted a.user_id s.users only in
    (ground arith, ground (arith, row), ground (arith, none_left))
