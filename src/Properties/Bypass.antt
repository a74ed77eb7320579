-- ===== src/Properties/Bypass.antt =====
-- A way to publish without an approval: ask for removal, then take the request back.
use hoyhel.Prelude.{ℕ, ◌≡◌, false, some, Text, trim, is_empty, arith}
use hoyhel.Schema.{Store, Env, Property, PropertyStatus}
use hoyhel.Service.{ok}
use hoyhel.Properties.{find_property}
use hoyhel.Properties.Machine.{Transition, run}
use hoyhel.Properties.Recorded.{run-IsMoved}

-- The host of a property publishes it from any status, with or without a picture and without an
-- administrator, by a removal request with a reason that is not blank and its withdrawal.
pub removal_publishes :
    (env : Env) (host id : ℕ) (reason : Text) (s : Store) (p : Property)
    → find_property id s ≡ some p
    → p.host_id ≡ host
    → is_empty (trim reason) ≡ false
    → let t = (run (Transition.requests_removal reason) env host id s).1 in
      (q : Property) × ((run Transition.cancels_removal env host id t).0 ≡ ok q)
      × (q.status ≡ PropertyStatus.published)
      × (find_property id (run Transition.cancels_removal env host id t).1 ≡ some q)
removal_publishes env host id reason s p found own given =
    let ask =
      run-IsMoved env host id s p found (Transition.requests_removal reason) (ground arith) in
    let t = (run (Transition.requests_removal reason) env host id s).1 in
    let back =
      run-IsMoved env host id t ask.moved ask.found Transition.cancels_removal
        (ground (arith, ask.status, ask.host)) in
    (back.moved, back.returned, back.status, back.found)
