-- ===== src/Properties/Machine.antt =====
-- The life of a listing as a state machine: eleven transitions, when each is allowed, and the status
-- that it leads to.
use hoyhel.Prelude.{ℕ, Bool, true, not, ◌&&◌, Option, Text, trim, is_empty, ◌==◌}
use hoyhel.Schema.{Env, Property, PropertyStatus, is_published, is_removal_requested}
use hoyhel.Service.{Action}
use hoyhel.Properties.{
  submit_for_approval, unpublish_property, republish_property, request_property_removal,
  cancel_removal_request,
}
use hoyhel.Properties.Review.{
  approve_property, reject_property, approve_removal_request, reject_removal_request,
  archive_property, restore_property,
}

pub data Transition : Type 0 where
  submits unpublishes republishes cancels_removal : Transition
  requests_removal : Text → Transition
  approves approves_removal restores : Transition
  rejects rejects_removal : Text → Transition
  archives : Option Text → Transition

-- The operation of the services for each transition.
unfoldable pub run : Transition → Env → ℕ → ℕ → Action Property
run Transition.submits env actor id = submit_for_approval env actor id
run Transition.unpublishes env actor id = unpublish_property actor id
run Transition.republishes env actor id = republish_property actor id
run Transition.cancels_removal env actor id = cancel_removal_request actor id
run (Transition.requests_removal reason) env actor id = request_property_removal env actor id reason
run Transition.approves env actor id = approve_property env actor id
run Transition.approves_removal env actor id = approve_removal_request env actor id
run Transition.restores env actor id = restore_property actor id
run (Transition.rejects reason) env actor id = reject_property env actor id reason
run (Transition.rejects_removal reason) env actor id = reject_removal_request env actor id reason
run (Transition.archives reason) env actor id = archive_property actor id reason

-- The status that a transition leads to.
abbrev pub target : Transition → PropertyStatus
target Transition.submits = PropertyStatus.pending_approval
target Transition.unpublishes = PropertyStatus.unpublished
target Transition.republishes = PropertyStatus.published
target Transition.cancels_removal = PropertyStatus.published
target (Transition.requests_removal reason) = PropertyStatus.removal_requested
target Transition.approves = PropertyStatus.published
target Transition.approves_removal = PropertyStatus.archived
target Transition.restores = PropertyStatus.draft
target (Transition.rejects reason) = PropertyStatus.rejected
target (Transition.rejects_removal reason) = PropertyStatus.published
target (Transition.archives reason) = PropertyStatus.archived

-- When a transition is allowed, by the actor, the property and whether it has an image.
abbrev pub is_allowed : Transition → ℕ → Property → Bool → Bool
is_allowed Transition.submits actor p pictured = p.host_id == actor && pictured
is_allowed Transition.unpublishes actor p pictured = p.host_id == actor && is_published p.status
is_allowed Transition.republishes actor p pictured = p.host_id == actor && pictured
is_allowed Transition.cancels_removal actor p pictured =
    p.host_id == actor && is_removal_requested p.status
is_allowed (Transition.requests_removal reason) actor p pictured =
    p.host_id == actor && not (is_empty (trim reason))
is_allowed Transition.approves actor p pictured = pictured
is_allowed Transition.approves_removal actor p pictured = is_removal_requested p.status
is_allowed Transition.restores actor p pictured = true
is_allowed (Transition.rejects reason) actor p pictured = not (is_empty (trim reason))
is_allowed (Transition.rejects_removal reason) actor p pictured =
    is_removal_requested p.status && not (is_empty (trim reason))
is_allowed (Transition.archives reason) actor p pictured = true
