-- ===== src/Notifications/Unread.antt =====
-- What the operations do to the number of unread notifications.
use hoyhel.Prelude.{
  ℕ, ◌+◌, ◌≡◌, ◌≢◌, true, false, ◌&&◌, [], ◌∷◌, ◌==◌, ==_iff, ==_refl, length, count,
  count-update_many, count-update_many_zero, length-update_many, count-append, Bool-cases, inl, inr,
  arith,
}
use hoyhel.Schema.{Store, Env, Notification, NotificationType, NotificationPriority}
use hoyhel.Notifications.{
  create_notification, new_notification, is_unread_of, get_unread_count, mark_read,
  mark_all_as_read,
}

differ : (a b : ℕ) → b ≢ a → (a == b) ≡ false
differ a b apart = elim (Bool-cases (a == b)) [
  | inl e ↦ absurd (ground (arith, ==_iff a b))
  | inr e ↦ e
]

someone_else :
    (user_id other : ℕ) (n : Notification)
    → other ≢ user_id
    → is_unread_of user_id n ≡ true
    → (n.user_id == other && false) ≡ is_unread_of other n
someone_else user_id other n apart h = elim (Bool-cases (n.user_id == other)) [
  | inl e ↦ absurd (ground (arith, ==_iff n.user_id other, ==_iff n.user_id user_id))
  | inr e ↦ ground arith
]

-- Marking all notifications of a user as read leaves that user none unread, changes no other user's number of
-- unread ones, and keeps every notification.
pub mark_all_clears :
    (env : Env) (user_id other : ℕ) (s : Store)
    → other ≢ user_id
    → let t = mark_all_as_read env user_id s in
      (get_unread_count user_id t ≡ 0)
      × (get_unread_count other t ≡ get_unread_count other s)
      × (length t.notifications ≡ length s.notifications)
unfolding mark_all_as_read get_unread_count
mark_all_clears env user_id other s apart = (
  count-update_many_zero (is_unread_of user_id) (is_unread_of user_id) (mark_read env)
      s.notifications (λ n h. ground arith) (λ n h. h),
  count-update_many (is_unread_of other) (is_unread_of user_id) (mark_read env) s.notifications
      (λ n h. someone_else user_id other n apart h),
  length-update_many (is_unread_of user_id) (mark_read env) s.notifications,
)

-- A notification that is created is unread: it raises the number of its user by one, and no other user's.
pub create_raises :
    (env : Env) (id user_id other : ℕ) (kind : NotificationType) (priority : NotificationPriority)
    (s : Store)
    → other ≢ user_id
    → let t = (create_notification env id user_id kind priority s).1 in
      (get_unread_count user_id t ≡ get_unread_count user_id s + 1)
      × (get_unread_count other t ≡ get_unread_count other s)
unfolding create_notification get_unread_count count
create_raises env id user_id other kind priority s apart =
    let n = new_notification env id user_id kind priority in
    (
      ground (arith, count-append (is_unread_of user_id) s.notifications (n ∷ []), ==_refl user_id),
      ground (
        arith,
        count-append (is_unread_of other) s.notifications (n ∷ []),
        differ user_id other apart,
      ),
    )
