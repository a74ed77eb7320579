-- ===== src/Properties/Review.antt =====
-- backend/src/modules/admin/admin.service.ts: the administrator's side of a listing's life.
use hoyhel.Prelude.{
  ℕ, Bool, not, ◌||◌, ◌++◌, Option, none, some, ◌==◌, exists_row, delete_many, Text, text, trim,
  is_empty, or_text,
}
use hoyhel.Schema.{
  Store, Env, Property, PropertyStatus, PropertyStatusHistory, Availability, Review,
  NotificationType, NotificationPriority, Event, is_removal_requested,
}
use hoyhel.Service.{AppError, Action, pure, gets, modify, or_throw, throw_if, ◌>>=◌, ◌>>◌}
use hoyhel.Notifications.{new_notification, insert_notification, emit}
use hoyhel.Properties.{
  set_property, with_status, history_row, add_history, add_audit, has_image, find_property,
  of_property, booking_of, drop_removal, drop_property,
}

-- `findUnique`, and `if (!property) throw`.
abbrev listed : ℕ → Action Property
listed property_id = do
  row ← gets (find_property property_id)
  or_throw row (AppError.not_found "Property")

-- The notification to the host, and the socket event after the transaction.
abbrev tell_host : Env → Property → NotificationType → Store → Store
tell_host env p kind s = emit (Event.to_user p.host_id kind) (
    insert_notification (new_notification env (env.uuid 0) p.host_id kind NotificationPriority.high)
      s)

abbrev pub mark_approved : Env → ℕ → Property → Property
mark_approved env admin_id p = record p {
  status = PropertyStatus.published;
  rejection_reason = none;
  reviewed_by = some admin_id;
  reviewed_at = some env.now;
}

-- `approveProperty`
unfoldable pub approve_property : Env → ℕ → ℕ → Action Property
approve_property env admin_id property_id = do
  p ← listed property_id
  pictured ← gets (has_image property_id)
  throw_if (not pictured)
      (AppError.validation "Cannot approve and publish a property that has no uploaded images")
  modify (set_property property_id (mark_approved env admin_id))
  modify (
      add_history (
        history_row property_id p.status PropertyStatus.published admin_id
          (text "Approved by Administrator")))
  modify (add_audit admin_id (text "PROPERTY_APPROVED") (text "Property") property_id)
  modify (tell_host env p NotificationType.property_approved)
  pure (mark_approved env admin_id p)

abbrev pub mark_rejected : Env → ℕ → Text → Property → Property
mark_rejected env admin_id reason p = record p {
  status = PropertyStatus.rejected;
  rejection_reason = some (trim reason);
  reviewed_by = some admin_id;
  reviewed_at = some env.now;
}

-- `rejectProperty`
unfoldable pub reject_property : Env → ℕ → ℕ → Text → Action Property
reject_property env admin_id property_id reason = do
  p ← listed property_id
  throw_if (is_empty (trim reason))
      (AppError.validation "A reason must be provided when rejecting a property listing")
  modify (set_property property_id (mark_rejected env admin_id reason))
  modify (
      add_history (
        history_row property_id p.status PropertyStatus.rejected admin_id
          (text "Rejected by Admin: " ++ trim reason)))
  modify (add_audit admin_id (text "PROPERTY_REJECTED") (text "Property") property_id)
  modify (tell_host env p NotificationType.property_rejected)
  pure (mark_rejected env admin_id reason p)

-- `approveRemovalRequest`
unfoldable pub approve_removal_request : Env → ℕ → ℕ → Action Property
approve_removal_request env admin_id property_id = do
  p ← listed property_id
  throw_if (not (is_removal_requested p.status))
      (AppError.validation "Property is not currently in REMOVAL_REQUESTED state")
  modify (set_property property_id (with_status PropertyStatus.archived))
  modify (
      add_history (
        history_row property_id PropertyStatus.removal_requested PropertyStatus.archived admin_id
          (text "Removal Request Approved by Administrator")))
  modify (add_audit admin_id (text "PROPERTY_REMOVAL_APPROVED") (text "Property") property_id)
  modify (tell_host env p NotificationType.property_removal_approved)
  pure (with_status PropertyStatus.archived p)

-- `rejectRemovalRequest`
unfoldable pub reject_removal_request : Env → ℕ → ℕ → Text → Action Property
reject_removal_request env admin_id property_id reason = do
  p ← listed property_id
  throw_if (not (is_removal_requested p.status))
      (AppError.validation "Property is not currently in REMOVAL_REQUESTED state")
  throw_if (is_empty (trim reason))
      (AppError.validation "A reason must be provided when rejecting a property removal request")
  modify (set_property property_id drop_removal)
  modify (
      add_history (
        history_row property_id PropertyStatus.removal_requested PropertyStatus.published admin_id
          (text "Removal Request Rejected by Admin: " ++ trim reason)))
  modify (add_audit admin_id (text "PROPERTY_REMOVAL_REJECTED") (text "Property") property_id)
  modify (tell_host env p NotificationType.property_removal_rejected)
  pure (drop_removal p)

-- `archiveProperty`
unfoldable pub archive_property : ℕ → ℕ → Option Text → Action Property
archive_property admin_id property_id reason = do
  p ← listed property_id
  modify (set_property property_id (with_status PropertyStatus.archived))
  modify (
      add_history (
        history_row property_id p.status PropertyStatus.archived admin_id
          (or_text reason (text "Archived by Administrator"))))
  modify (add_audit admin_id (text "PROPERTY_ARCHIVED") (text "Property") property_id)
  pure (with_status PropertyStatus.archived p)

-- `restoreProperty`
unfoldable pub restore_property : ℕ → ℕ → Action Property
restore_property admin_id property_id = do
  p ← listed property_id
  modify (set_property property_id (with_status PropertyStatus.draft))
  modify (
      add_history (
        history_row property_id p.status PropertyStatus.draft admin_id
          (text "Restored from archive by Administrator (Set to DRAFT for review)")))
  modify (add_audit admin_id (text "PROPERTY_RESTORED") (text "Property") property_id)
  pure (with_status PropertyStatus.draft p)

abbrev review_of : ℕ → Review → Bool
review_of property_id r = r.property_id == property_id

abbrev dated_of : ℕ → Availability → Bool
dated_of property_id a = a.property_id == property_id

abbrev logged_of : ℕ → PropertyStatusHistory → Bool
logged_of property_id h = h.property_id == property_id

-- The rows that are deleted before a property that is deleted for good.
abbrev pub purge : ℕ → Store → Store
purge property_id s = record s {
  images = delete_many (of_property property_id) s.images;
  availabilities = delete_many (dated_of property_id) s.availabilities;
  status_history = delete_many (logged_of property_id) s.status_history;
}

-- `hardDeleteProperty`
unfoldable pub hard_delete_property : ℕ → ℕ → Action (Unit {0})
hard_delete_property admin_id property_id = do
  p ← listed property_id
  kept ← gets (λ s.
      exists_row (booking_of property_id) s.bookings
      || exists_row (review_of property_id) s.reviews)
  throw_if kept (
      AppError.validation
        "Cannot hard delete property. Use Archive instead to preserve historical financial records.")
  modify (purge property_id)
  modify (drop_property property_id)
  modify (add_audit admin_id (text "PROPERTY_HARD_DELETED") (text "Property") property_id)
