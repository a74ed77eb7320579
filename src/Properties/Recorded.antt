-- ===== src/Properties/Recorded.antt =====
-- Every transition that is allowed happens and is recorded, and every other is refused.
use hoyhel.Prelude.{ℕ, ◌≡◌, ◌⊎◌, inl, inr, true, false, some, ◌==◌, Bool-cases, arith}
use hoyhel.Schema.{Store, Env, Property, is_removal_requested}
use hoyhel.Service.{AppError, err}
use hoyhel.Properties.{
  has_image, find_property, submit_for_approval, unpublish_property, republish_property,
  request_property_removal, cancel_removal_request,
}
use hoyhel.Properties.Review.{
  approve_property, reject_property, approve_removal_request, reject_removal_request,
  archive_property, restore_property,
}
use hoyhel.Properties.Machine.{Transition, run, target, is_allowed}
use hoyhel.Properties.Moves.{IsMoved}
use hoyhel.Properties.HostMoves.{
  unpublishes-IsMoved, republishes-IsMoved, cancels_removal-IsMoved, submits-IsMoved,
  requests_removal-IsMoved,
}
use hoyhel.Properties.AdminMoves.{
  approves-IsMoved, approves_removal-IsMoved, restores-IsMoved, rejects-IsMoved,
  rejects_removal-IsMoved, archives-IsMoved,
}

module _ (env : Env) (actor id : ℕ) (s : Store) (p : Property)
    (found : find_property id s ≡ some p) where
  pub run-IsMoved :
      (t : Transition)
      → is_allowed t actor p (has_image id s) ≡ true
      → IsMoved actor id p (target t) s (run t env actor id s)
  unfolding run
  run-IsMoved Transition.submits = submits-IsMoved env actor id s p found
  run-IsMoved Transition.unpublishes = unpublishes-IsMoved env actor id s p found
  run-IsMoved Transition.republishes = republishes-IsMoved env actor id s p found
  run-IsMoved Transition.cancels_removal = cancels_removal-IsMoved env actor id s p found
  run-IsMoved (Transition.requests_removal reason) =
      requests_removal-IsMoved env actor id s p found reason
  run-IsMoved Transition.approves = approves-IsMoved env actor id s p found
  run-IsMoved Transition.approves_removal = approves_removal-IsMoved env actor id s p found
  run-IsMoved Transition.restores = restores-IsMoved env actor id s p found
  run-IsMoved (Transition.rejects reason) = rejects-IsMoved env actor id s p found reason
  run-IsMoved (Transition.rejects_removal reason) =
      rejects_removal-IsMoved env actor id s p found reason
  run-IsMoved (Transition.archives reason) = archives-IsMoved env actor id s p found reason

  refused_by :
      (t : Transition)
      → is_allowed t actor p (has_image id s) ≡ false
      → (x : AppError) × (run t env actor id s ≡ (err x, s))
  unfolding run submit_for_approval unpublish_property republish_property request_property_removal
      cancel_removal_request approve_property reject_property approve_removal_request
      reject_removal_request archive_property restore_property
  refused_by Transition.submits denied = elim (Bool-cases (p.host_id == actor)) [
    | inl own ↦ (
      AppError.validation "Cannot submit property for approval without at least one uploaded image",
      ground arith,
    )
    | inr other ↦ (
      AppError.forbidden "Only the host owner can submit this property for approval",
      ground arith,
    )
  ]
  refused_by Transition.unpublishes denied = elim (Bool-cases (p.host_id == actor)) [
    | inl own ↦ (AppError.validation "Only published properties can be unpublished", ground arith)
    | inr other ↦
        (AppError.forbidden "Only the host owner can unpublish this property", ground arith)
  ]
  refused_by Transition.republishes denied = elim (Bool-cases (p.host_id == actor)) [
    | inl own ↦ (
      AppError.validation "Cannot publish a property without at least one property image",
      ground arith,
    )
    | inr other ↦
        (AppError.forbidden "Only the host owner can republish this property", ground arith)
  ]
  refused_by Transition.cancels_removal denied = elim (Bool-cases (p.host_id == actor)) [
    | inl own ↦
        (AppError.validation "Property is not currently in REMOVAL_REQUESTED state", ground arith)
    | inr other ↦
        (AppError.forbidden "Only the property host can cancel a removal request", ground arith)
  ]
  refused_by (Transition.requests_removal reason) denied = elim (Bool-cases (p.host_id == actor)) [
    | inl own ↦ (
      AppError.validation "A reason must be provided when requesting property removal",
      ground arith,
    )
    | inr other ↦
        (AppError.forbidden "You can only request removal for properties you own", ground arith)
  ]
  refused_by Transition.approves denied = (
    AppError.validation "Cannot approve and publish a property that has no uploaded images",
    ground arith,
  )
  refused_by Transition.approves_removal denied =
      (AppError.validation "Property is not currently in REMOVAL_REQUESTED state", ground arith)
  refused_by Transition.restores denied = absurd (ground arith)
  refused_by (Transition.rejects reason) denied = (
    AppError.validation "A reason must be provided when rejecting a property listing",
    ground arith,
  )
  refused_by (Transition.rejects_removal reason) denied =
      elim (Bool-cases (is_removal_requested p.status)) [
        | inl asked ↦ (
          AppError.validation "A reason must be provided when rejecting a property removal request",
          ground arith,
        )
        | inr never ↦ (
          AppError.validation "Property is not currently in REMOVAL_REQUESTED state",
          ground arith,
        )
      ]
  refused_by (Transition.archives reason) denied = absurd (ground arith)

  -- For a property that is listed: a transition that is allowed returns the property in the status that
  -- it leads to, stores it, and adds one row to the history with the status before, the status after and
  -- the actor, without touching pictures or bookings; a transition that is not allowed is refused and
  -- changes nothing.
  pub run_recorded :
      (t : Transition)
      → ((is_allowed t actor p (has_image id s) ≡ true)
          × IsMoved actor id p (target t) s (run t env actor id s))
        ⊎ ((is_allowed t actor p (has_image id s) ≡ false)
            × (x : AppError) × (run t env actor id s ≡ (err x, s)))
  run_recorded t = elim (Bool-cases (is_allowed t actor p (has_image id s))) [
    | inl met ↦ inl (met, run-IsMoved t met)
    | inr failed ↦ let (x, same) = refused_by t failed in inr (failed, x, same)
  ]
