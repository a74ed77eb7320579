-- ===== src/Properties.antt =====
-- backend/src/modules/properties/properties.service.ts: the host's side of a listing's life. Amenities
-- and the descriptive columns that no check reads are not kept.
pub mod Review
pub mod Images
pub mod Search
pub mod Shown
mod SearchTests
pub mod Cover
pub mod Machine
pub mod Moves
pub mod HostMoves
pub mod AdminMoves
pub mod Recorded
pub mod Bypass
pub mod Rules
pub mod Unruled
mod Tests
use hoyhel.Prelude.{
  ℕ, zero, suc, Bool, true, false, not, ◌&&◌, ◌||◌, List, [], ◌∷◌, ◌++◌, Option, none, some, ltb,
  ◌==◌, if◌then◌else◌, find_first, find_many, count, update_many, delete_many, exists_row, Text,
  text, trim, is_empty,
}
use hoyhel.Schema.{
  Store, Env, User, Property, PropertyImage, PropertyStatus, PropertyStatusHistory,
  CancellationPolicy, AuditLog, Booking, Conversation, UserRoleType, NotificationType,
  NotificationPriority, is_admin, is_host, is_published, is_removal_requested,
}
use Prim.Native.String.{String}
use hoyhel.Service.{
  AppError, Action, pure, throw, gets, modify, or_throw, throw_if, transaction, ◌>>=◌, ◌>>◌,
}
use hoyhel.Notifications.{notify_admins}
use hoyhel.Bookings.{property_is, user_is, is_restricted, restriction_reason}

abbrev pub set_property : ℕ → (Property → Property) → Store → Store
set_property property_id f s = record s {
  properties = update_many (property_is property_id) f s.properties;
}

abbrev pub with_status : PropertyStatus → Property → Property
with_status status p = record p { status = status }

abbrev pub history_row : ℕ → PropertyStatus → PropertyStatus → ℕ → Text → PropertyStatusHistory
history_row property_id previous next changed_by reason = record {
  property_id = property_id;
  previous_status = previous;
  new_status = next;
  changed_by = changed_by;
  reason = reason;
}

-- `tx.propertyStatusHistory.create`
abbrev pub add_history : PropertyStatusHistory → Store → Store
add_history row s = record s { status_history = s.status_history ++ row ∷ [] }

-- `tx.auditLog.create`
abbrev pub add_audit : ℕ → Text → Text → ℕ → Store → Store
add_audit user_id action resource resource_id s = record s {
  audit_logs =
      s.audit_logs
      ++ record {
        user_id = user_id;
        action = action;
        resource = resource;
        resource_id = resource_id;
      }
        ∷ [];
}

abbrev pub of_property : ℕ → PropertyImage → Bool
of_property property_id i = i.property_id == property_id

abbrev pub has_image : ℕ → Store → Bool
has_image property_id s = exists_row (of_property property_id) s.images

abbrev pub find_property : ℕ → Store → Option Property
find_property property_id s = find_first (property_is property_id) s.properties

-- `findUnique`, `if (!property) throw`, and the check that the host owns it.
abbrev pub owned : ℕ → ℕ → String → Action Property
owned host_id property_id refusal = do
  row ← gets (find_property property_id)
  p ← or_throw row (AppError.not_found "Property")
  throw_if (not (p.host_id == host_id)) (AppError.forbidden refusal)
  pure p

-- What a host gives for a new listing.
pub record PropertyDraft : Type 0 where
  pub title : Text
  pub cancellation_policy : CancellationPolicy
  pub base_price : ℕ
  pub cleaning_fee : ℕ
  pub max_guests : ℕ
  pub address : Text
  pub city : Text
  pub country : Text

abbrev new_property : Env → ℕ → PropertyDraft → Property
new_property env host_id d = record {
  id = env.uuid 0;
  host_id = host_id;
  title = d.title;
  status = PropertyStatus.pending_approval;
  cancellation_policy = d.cancellation_policy;
  base_price = d.base_price;
  cleaning_fee = d.cleaning_fee;
  max_guests = d.max_guests;
  address = d.address;
  city = d.city;
  country = d.country;
  removal_reason = none;
  removal_requested_at = none;
  removal_requested_by = none;
  rejection_reason = none;
  reviewed_by = none;
  reviewed_at = none;
  average_rating = 0;
  review_count = 0;
}

abbrev is_approved_host : Option User → Bool
is_approved_host none = false
is_approved_host (some u) = is_host u.role

abbrev listing_restriction : Text
listing_restriction =
    text "Your host account is currently restricted from creating property listings"

-- `createProperty`
unfoldable pub create_property : Env → ℕ → PropertyDraft → Action Property
create_property env host_id d = do
  row ← gets (λ s. find_first (user_is host_id) s.users)
  host ← or_throw row (AppError.forbidden "Only approved hosts can create property listings")
  throw_if (not (is_host host.role))
      (AppError.forbidden "Only approved hosts can create property listings")
  throw_if (is_restricted host)
      (AppError.account_restricted (restriction_reason host listing_restriction))
  modify (λ s. record s { properties = s.properties ++ new_property env host_id d ∷ [] })
  pure (new_property env host_id d)

-- The columns that an update may give.
pub record PropertyUpdate : Type 0 where
  pub status : Option PropertyStatus
  pub title : Option Text
  pub base_price : Option ℕ
  pub cleaning_fee : Option ℕ
  pub max_guests : Option ℕ
  pub cancellation_policy : Option CancellationPolicy

abbrev given {ℓ} : {A : Type ℓ} → Option A → A → A
given none a = a
given (some b) a = b

abbrev pub apply_update : PropertyUpdate → Property → Property
apply_update d p = record p {
  status = given d.status p.status;
  title = given d.title p.title;
  base_price = given d.base_price p.base_price;
  cleaning_fee = given d.cleaning_fee p.cleaning_fee;
  max_guests = given d.max_guests p.max_guests;
  cancellation_policy = given d.cancellation_policy p.cancellation_policy;
}

abbrev publishes : Option PropertyStatus → Bool
publishes none = false
publishes (some status) = is_published status

-- `updateProperty`
unfoldable pub update_property : ℕ → ℕ → PropertyUpdate → List UserRoleType → Action Property
update_property host_id property_id d roles = do
  row ← gets (find_property property_id)
  p ← or_throw row (AppError.not_found "Property")
  throw_if (not (p.host_id == host_id) && not (exists_row is_admin roles))
      (AppError.forbidden "You can only modify properties you host")
  pictured ← gets (has_image property_id)
  throw_if (publishes d.status && not pictured)
      (AppError.validation "A property cannot be published without at least one property image")
  modify (set_property property_id (apply_update d))
  pure (apply_update d p)

abbrev pub booking_of : ℕ → Booking → Bool
booking_of property_id b = b.property_id == property_id

abbrev forget_listing : ℕ → Conversation → Conversation
forget_listing property_id c = record c { property_id = none }

abbrev about_listing : ℕ → Conversation → Bool
about_listing property_id c = elim c.property_id [ none ↦ false | some k ↦ k == property_id ]

-- `property.delete`, with what the foreign keys of the schema delete or clear.
abbrev pub drop_property : ℕ → Store → Store
drop_property property_id s = record s {
  properties = delete_many (property_is property_id) s.properties;
  images = delete_many (of_property property_id) s.images;
  availabilities = delete_many (λ a. a.property_id == property_id) s.availabilities;
  bookings = delete_many (booking_of property_id) s.bookings;
  reviews = delete_many (λ r. r.property_id == property_id) s.reviews;
  favorites = delete_many (λ f. f.property_id == property_id) s.favorites;
  status_history = delete_many (λ h. h.property_id == property_id) s.status_history;
  conversations =
      update_many (about_listing property_id) (forget_listing property_id) s.conversations;
}

-- `deleteProperty`: archived where it has bookings, and deleted otherwise.
unfoldable pub delete_property : ℕ → ℕ → List UserRoleType → Action (Unit {0})
delete_property host_id property_id roles = do
  row ← gets (find_property property_id)
  p ← or_throw row (AppError.not_found "Property")
  throw_if (not (p.host_id == host_id) && not (exists_row is_admin roles))
      (AppError.forbidden "You can only delete properties you host")
  booked ← gets (λ s. exists_row (booking_of property_id) s.bookings)
  modify (λ s.
      if booked
      then add_history
          (history_row property_id p.status PropertyStatus.archived host_id
            (text "Soft-archived by host (historical bookings exist)"))
          (set_property property_id (with_status PropertyStatus.archived) s)
      else drop_property property_id s)

-- `submitForApproval`
unfoldable pub submit_for_approval : Env → ℕ → ℕ → Action Property
submit_for_approval env host_id property_id = do
  p ← owned host_id property_id "Only the host owner can submit this property for approval"
  pictured ← gets (has_image property_id)
  throw_if (not pictured) (
      AppError.validation "Cannot submit property for approval without at least one uploaded image")
  modify (set_property property_id (with_status PropertyStatus.pending_approval))
  modify (
      add_history (
        history_row property_id p.status PropertyStatus.pending_approval host_id
          (text "Submitted for Admin Approval")))
  modify (add_audit host_id (text "PROPERTY_SUBMITTED_FOR_APPROVAL") (text "Property") property_id)
  notify_admins env 0 NotificationType.property_submitted NotificationPriority.high
  pure (with_status PropertyStatus.pending_approval p)

-- `unpublishProperty`
unfoldable pub unpublish_property : ℕ → ℕ → Action Property
unpublish_property host_id property_id = do
  p ← owned host_id property_id "Only the host owner can unpublish this property"
  throw_if (not (is_published p.status))
      (AppError.validation "Only published properties can be unpublished")
  modify (set_property property_id (with_status PropertyStatus.unpublished))
  modify (
      add_history (
        history_row property_id PropertyStatus.published PropertyStatus.unpublished host_id
          (text "Unpublished by Host")))
  modify (add_audit host_id (text "PROPERTY_UNPUBLISHED") (text "Property") property_id)
  pure (with_status PropertyStatus.unpublished p)

-- `republishProperty`
unfoldable pub republish_property : ℕ → ℕ → Action Property
republish_property host_id property_id = do
  p ← owned host_id property_id "Only the host owner can republish this property"
  pictured ← gets (has_image property_id)
  throw_if (not pictured)
      (AppError.validation "Cannot publish a property without at least one property image")
  modify (set_property property_id (with_status PropertyStatus.published))
  modify (
      add_history (
        history_row property_id p.status PropertyStatus.published host_id
          (text "Republished by Host")))
  pure (with_status PropertyStatus.published p)

abbrev pub ask_removal : Env → ℕ → Text → Property → Property
ask_removal env host_id reason p = record p {
  status = PropertyStatus.removal_requested;
  removal_reason = some (trim reason);
  removal_requested_at = some env.now;
  removal_requested_by = some host_id;
}

-- `requestPropertyRemoval`
unfoldable pub request_property_removal : Env → ℕ → ℕ → Text → Action Property
request_property_removal env host_id property_id reason = do
  p ← owned host_id property_id "You can only request removal for properties you own"
  throw_if (is_empty (trim reason))
      (AppError.validation "A reason must be provided when requesting property removal")
  modify (set_property property_id (ask_removal env host_id reason))
  modify (
      add_history (
        history_row property_id p.status PropertyStatus.removal_requested host_id
          (text "Removal requested: " ++ trim reason)))
  modify (add_audit host_id (text "PROPERTY_REMOVAL_REQUESTED") (text "Property") property_id)
  notify_admins env 0 NotificationType.property_removal_requested NotificationPriority.high
  pure (ask_removal env host_id reason p)

abbrev pub drop_removal : Property → Property
drop_removal p = record p {
  status = PropertyStatus.published;
  removal_reason = none;
  removal_requested_at = none;
  removal_requested_by = none;
}

-- `cancelRemovalRequest`
unfoldable pub cancel_removal_request : ℕ → ℕ → Action Property
cancel_removal_request host_id property_id = do
  p ← owned host_id property_id "Only the property host can cancel a removal request"
  throw_if (not (is_removal_requested p.status))
      (AppError.validation "Property is not currently in REMOVAL_REQUESTED state")
  modify (set_property property_id drop_removal)
  modify (
      add_history (
        history_row property_id PropertyStatus.removal_requested PropertyStatus.published host_id
          (text "Removal request cancelled by Host")))
  pure (drop_removal p)

abbrev of_listing : ℕ → PropertyStatusHistory → Bool
of_listing property_id h = h.property_id == property_id

-- `getPropertyStatusHistory`
unfoldable pub get_property_status_history :
    ℕ → ℕ → List UserRoleType → Action (List PropertyStatusHistory)
get_property_status_history property_id user_id roles = do
  row ← gets (find_property property_id)
  p ← or_throw row (AppError.not_found "Property")
  throw_if (not (p.host_id == user_id) && not (exists_row is_admin roles))
      (AppError.forbidden "You do not have permission to view this property status history")
  gets (λ s. find_many (of_listing property_id) s.status_history)
