-- ===== src/Properties/AdminMoves.antt =====
-- The transitions of the administrator, one by one.
use hoyhel.Prelude.{ℕ, ◌≡◌, refl, true, ◌++◌, Option, some, or_text, Text, text, trim, arith}
use hoyhel.Schema.{Store, Env, Property, PropertyStatus}
use hoyhel.Properties.{with_status, has_image, find_property, drop_removal}
use hoyhel.Properties.Review.{
  mark_approved, mark_rejected, approve_property, reject_property, approve_removal_request,
  reject_removal_request, archive_property, restore_property,
}
use hoyhel.Properties.Machine.{Transition, is_allowed}
use hoyhel.Properties.Moves.{IsMoved, found_after}

module _ (env : Env) (actor id : ℕ) (s : Store) (p : Property)
    (found : find_property id s ≡ some p) where
  pub approves-IsMoved :
      is_allowed Transition.approves actor p (has_image id s) ≡ true
      → IsMoved actor id p PropertyStatus.published s (approve_property env actor id s)
  unfolding approve_property
  approves-IsMoved allowed = record {
    moved = mark_approved env actor p;
    reason = text "Approved by Administrator";
    returned = ground arith;
    status = refl;
    host = refl;
    found = ground (arith, found_after id s p found (mark_approved env actor) (λ _. refl));
    recorded = ground arith;
    images = ground arith;
    bookings = ground arith;
  }

  pub approves_removal-IsMoved :
      is_allowed Transition.approves_removal actor p (has_image id s) ≡ true
      → IsMoved actor id p PropertyStatus.archived s (approve_removal_request env actor id s)
  unfolding approve_removal_request
  approves_removal-IsMoved allowed = record {
    moved = with_status PropertyStatus.archived p;
    reason = text "Removal Request Approved by Administrator";
    returned = ground arith;
    status = refl;
    host = refl;
    found =
        ground (arith, found_after id s p found (with_status PropertyStatus.archived) (λ _. refl));
    recorded = ground arith;
    images = ground arith;
    bookings = ground arith;
  }

  pub restores-IsMoved :
      is_allowed Transition.restores actor p (has_image id s) ≡ true
      → IsMoved actor id p PropertyStatus.draft s (restore_property actor id s)
  unfolding restore_property
  restores-IsMoved allowed = record {
    moved = with_status PropertyStatus.draft p;
    reason = text "Restored from archive by Administrator (Set to DRAFT for review)";
    returned = ground arith;
    status = refl;
    host = refl;
    found = ground (arith, found_after id s p found (with_status PropertyStatus.draft) (λ _. refl));
    recorded = ground arith;
    images = ground arith;
    bookings = ground arith;
  }

  pub rejects-IsMoved :
      (reason : Text)
      → is_allowed (Transition.rejects reason) actor p (has_image id s) ≡ true
      → IsMoved actor id p PropertyStatus.rejected s (reject_property env actor id reason s)
  unfolding reject_property
  rejects-IsMoved reason allowed = record {
    moved = mark_rejected env actor reason p;
    reason = text "Rejected by Admin: " ++ trim reason;
    returned = ground arith;
    status = refl;
    host = refl;
    found = ground (arith, found_after id s p found (mark_rejected env actor reason) (λ _. refl));
    recorded = ground arith;
    images = ground arith;
    bookings = ground arith;
  }

  pub rejects_removal-IsMoved :
      (reason : Text)
      → is_allowed (Transition.rejects_removal reason) actor p (has_image id s) ≡ true
      → IsMoved actor id p PropertyStatus.published s (reject_removal_request env actor id reason s)
  unfolding reject_removal_request
  rejects_removal-IsMoved reason allowed = record {
    moved = drop_removal p;
    reason = text "Removal Request Rejected by Admin: " ++ trim reason;
    returned = ground arith;
    status = refl;
    host = refl;
    found = ground (arith, found_after id s p found (drop_removal) (λ _. refl));
    recorded = ground arith;
    images = ground arith;
    bookings = ground arith;
  }

  pub archives-IsMoved :
      (reason : Option Text)
      → is_allowed (Transition.archives reason) actor p (has_image id s) ≡ true
      → IsMoved actor id p PropertyStatus.archived s (archive_property actor id reason s)
  unfolding archive_property
  archives-IsMoved reason allowed = record {
    moved = with_status PropertyStatus.archived p;
    reason = or_text reason (text "Archived by Administrator");
    returned = ground arith;
    status = refl;
    host = refl;
    found =
        ground (arith, found_after id s p found (with_status PropertyStatus.archived) (λ _. refl));
    recorded = ground arith;
    images = ground arith;
    bookings = ground arith;
  }
