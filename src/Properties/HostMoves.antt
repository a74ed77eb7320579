-- ===== src/Properties/HostMoves.antt =====
-- The transitions of the host, one by one.
use hoyhel.Prelude.{ℕ, ◌≡◌, refl, true, ◌++◌, some, Text, text, trim, arith}
use hoyhel.Schema.{Store, Env, Property, PropertyStatus, NotificationType, NotificationPriority}
use hoyhel.Notifications.Keeps.{notify_admins-IsQuiet, notify_admins-ok}
use hoyhel.Properties.{
  set_property, with_status, history_row, add_history, add_audit, has_image, find_property,
  ask_removal, drop_removal, submit_for_approval, unpublish_property, republish_property,
  request_property_removal, cancel_removal_request,
}
use hoyhel.Properties.Machine.{Transition, is_allowed}
use hoyhel.Properties.Moves.{IsMoved, found_after}

module _ (env : Env) (actor id : ℕ) (s : Store) (p : Property)
    (found : find_property id s ≡ some p) where
  pub unpublishes-IsMoved :
      is_allowed Transition.unpublishes actor p (has_image id s) ≡ true
      → IsMoved actor id p PropertyStatus.unpublished s (unpublish_property actor id s)
  unfolding unpublish_property
  unpublishes-IsMoved allowed = record {
    moved = with_status PropertyStatus.unpublished p;
    reason = text "Unpublished by Host";
    returned = ground arith;
    status = refl;
    host = refl;
    found =
        ground
          (arith, found_after id s p found (with_status PropertyStatus.unpublished) (λ _. refl));
    recorded = ground arith;
    images = ground arith;
    bookings = ground arith;
  }

  pub republishes-IsMoved :
      is_allowed Transition.republishes actor p (has_image id s) ≡ true
      → IsMoved actor id p PropertyStatus.published s (republish_property actor id s)
  unfolding republish_property
  republishes-IsMoved allowed = record {
    moved = with_status PropertyStatus.published p;
    reason = text "Republished by Host";
    returned = ground arith;
    status = refl;
    host = refl;
    found =
        ground (arith, found_after id s p found (with_status PropertyStatus.published) (λ _. refl));
    recorded = ground arith;
    images = ground arith;
    bookings = ground arith;
  }

  pub cancels_removal-IsMoved :
      is_allowed Transition.cancels_removal actor p (has_image id s) ≡ true
      → IsMoved actor id p PropertyStatus.published s (cancel_removal_request actor id s)
  unfolding cancel_removal_request
  cancels_removal-IsMoved allowed = record {
    moved = drop_removal p;
    reason = text "Removal request cancelled by Host";
    returned = ground arith;
    status = refl;
    host = refl;
    found = ground (arith, found_after id s p found (drop_removal) (λ _. refl));
    recorded = ground arith;
    images = ground arith;
    bookings = ground arith;
  }

  pub submits-IsMoved :
      is_allowed Transition.submits actor p (has_image id s) ≡ true
      → IsMoved actor id p PropertyStatus.pending_approval s (submit_for_approval env actor id s)
  unfolding submit_for_approval
  submits-IsMoved allowed =
      let mid : Store =
        add_audit actor (text "PROPERTY_SUBMITTED_FOR_APPROVAL") (text "Property") id (
          add_history
            (history_row id p.status PropertyStatus.pending_approval actor
              (text "Submitted for Admin Approval"))
            (set_property id (with_status PropertyStatus.pending_approval) s)) in
      let quiet =
        notify_admins-IsQuiet env 0 NotificationType.property_submitted NotificationPriority.high
          mid in
      let (sent, sending) =
        notify_admins-ok env 0 NotificationType.property_submitted NotificationPriority.high mid in
      record {
        moved = with_status PropertyStatus.pending_approval p;
        reason = text "Submitted for Admin Approval";
        returned = ground (arith, sending);
        status = refl;
        host = refl;
        found = ground (
          arith,
          sending,
          quiet.properties,
          found_after id s p found (with_status PropertyStatus.pending_approval) (λ _. refl),
        );
        recorded = ground (arith, sending, quiet.status_history);
        images = ground (arith, sending, quiet.images);
        bookings = ground (arith, sending, quiet.bookings);
      }

  pub requests_removal-IsMoved :
      (reason : Text)
      → is_allowed (Transition.requests_removal reason) actor p (has_image id s) ≡ true
      → IsMoved actor id p PropertyStatus.removal_requested s
          (request_property_removal env actor id reason s)
  unfolding request_property_removal
  requests_removal-IsMoved reason allowed =
      let mid : Store = add_audit actor (text "PROPERTY_REMOVAL_REQUESTED") (text "Property") id (
        add_history
          (history_row id p.status PropertyStatus.removal_requested actor
            (text "Removal requested: " ++ trim reason))
          (set_property id (ask_removal env actor reason) s)) in
      let quiet =
        notify_admins-IsQuiet env 0 NotificationType.property_removal_requested
          NotificationPriority.high mid in
      let (sent, sending) =
        notify_admins-ok env 0 NotificationType.property_removal_requested NotificationPriority.high
          mid in
      record {
        moved = ask_removal env actor reason p;
        reason = text "Removal requested: " ++ trim reason;
        returned = ground (arith, sending);
        status = refl;
        host = refl;
        found = ground (
          arith,
          sending,
          quiet.properties,
          found_after id s p found (ask_removal env actor reason) (λ _. refl),
        );
        recorded = ground (arith, sending, quiet.status_history);
        images = ground (arith, sending, quiet.images);
        bookings = ground (arith, sending, quiet.bookings);
      }
