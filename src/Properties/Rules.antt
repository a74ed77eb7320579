-- ===== src/Properties/Rules.antt =====
-- backend/src/utils/propertyRules.ts: the rules of listings, which the services do not call.
use hoyhel.Prelude.{ℕ, Bool, true, false, not, ◌&&◌, ◌==◌, if◌then◌else◌}
use hoyhel.Schema.{PropertyStatus, UserRoleType, is_admin, is_published}

abbrev pub is_archived : PropertyStatus → Bool
is_archived PropertyStatus.archived = true
is_archived _ = false

abbrev editable : PropertyStatus → Bool
editable PropertyStatus.draft = true
editable PropertyStatus.rejected = true
editable PropertyStatus.published = true
editable PropertyStatus.unpublished = true
editable _ = false

-- `canEditProperty`
unfoldable pub can_edit_property : PropertyStatus → UserRoleType → Bool
can_edit_property status role = if is_admin role then true else editable status

-- `canSubmitForApproval`
unfoldable pub can_submit_for_approval : PropertyStatus → Bool
can_submit_for_approval PropertyStatus.draft = true
can_submit_for_approval PropertyStatus.rejected = true
can_submit_for_approval _ = false

-- `canUnpublishProperty`
unfoldable pub can_unpublish_property : PropertyStatus → Bool
can_unpublish_property status = is_published status

-- `canRepublishProperty`
unfoldable pub can_republish_property : PropertyStatus → Bool
can_republish_property PropertyStatus.unpublished = true
can_republish_property _ = false

-- `canRequestRemoval`
unfoldable pub can_request_removal : PropertyStatus → Bool
can_request_removal PropertyStatus.published = true
can_request_removal PropertyStatus.unpublished = true
can_request_removal PropertyStatus.draft = true
can_request_removal PropertyStatus.rejected = true
can_request_removal _ = false

-- `canArchiveProperty`
unfoldable pub can_archive_property : PropertyStatus → UserRoleType → Bool
can_archive_property status role = if is_admin role then not (is_archived status) else false

abbrev restorable : PropertyStatus → Bool
restorable PropertyStatus.archived = true
restorable PropertyStatus.rejected = true
restorable PropertyStatus.suspended = true
restorable _ = false

-- `canRestoreProperty`
unfoldable pub can_restore_property : PropertyStatus → UserRoleType → Bool
can_restore_property status role = if is_admin role then restorable status else false

-- `canHardDeleteProperty`
unfoldable pub can_hard_delete_property : ℕ → ℕ → ℕ → Bool
can_hard_delete_property booking_count payment_count review_count =
    booking_count == 0 && payment_count == 0 && review_count == 0

-- `canReceiveBookings`
unfoldable pub can_receive_bookings : PropertyStatus → Bool
can_receive_bookings status = is_published status
