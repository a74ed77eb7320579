-- ===== src/Properties/Unruled.antt =====
-- The rules of listings against what the services of a host ask.
use hoyhel.Prelude.{ℕ, ◌≡◌, true, some, if◌then◌else◌, ==_iff, find_first-update_many, arith}
use hoyhel.Schema.{Store, Property, PropertyStatus}
use hoyhel.Service.{AppError, ok, err}
use hoyhel.Bookings.{property_is}
use hoyhel.Properties.{
  find_property, has_image, with_status, unpublish_property, republish_property,
}
use hoyhel.Properties.Rules.{can_unpublish_property}

-- The host of a listing with a picture publishes it in one request whatever its status, so also one that was never
-- approved, was rejected or is suspended. A request to unpublish it is granted exactly where the rule
-- allows it.
pub republish_unruled :
    (host_id property_id : ℕ) (s : Store) (p : Property)
    → find_property property_id s ≡ some p
    → p.host_id ≡ host_id
    → has_image property_id s ≡ true
    → let (out, t) = republish_property host_id property_id s in
      (out ≡ ok (with_status PropertyStatus.published p))
      × (find_property property_id t ≡ some (with_status PropertyStatus.published p))
      × ((unpublish_property host_id property_id s).0 ≡ (
          if can_unpublish_property p.status
          then ok (with_status PropertyStatus.unpublished p)
          else err (AppError.validation "Only published properties can be unpublished")))
unfolding republish_property unpublish_property can_unpublish_property
republish_unruled host_id property_id s p found own pictured =
    let row =
      find_first-update_many (property_is property_id) (with_status PropertyStatus.published)
        s.properties p (λ _ h. h) found in
    (
      ground (arith, ==_iff p.host_id host_id),
      ground (arith, row, ==_iff p.host_id host_id),
      ground (arith, ==_iff p.host_id host_id),
    )
