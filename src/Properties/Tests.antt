-- ===== src/Properties/Tests.antt =====
-- Witnesses and tests for listings.
use hoyhel.Prelude.{
  ◌≤◌, exists_row, count, arith, ◌≡◌, ◌⊎◌, refl, true, false, [], ◌∷◌, some, find_first,
}
use hoyhel.Schema.{Store, Property, PropertyStatus, PropertyImage}
use hoyhel.Service.{AppError, ok, err}
use hoyhel.Properties.{
  find_property, has_image, of_property, with_status, republish_property, unpublish_property,
}
use hoyhel.Properties.Images.{image_is, upload_property_image, set_cover_image}
use hoyhel.Properties.Cover.{IsCovered, upload-IsCovered}
use hoyhel.Properties.Moves.{IsMoved}
use hoyhel.Properties.Machine.{Transition, run, target, is_allowed}
use hoyhel.Properties.Recorded.{run_recorded}
use hoyhel.Properties.Rules.{can_unpublish_property}
use hoyhel.Properties.Unruled.{republish_unruled}
use hoyhel.Samples.{env, villa, picture, shop}

villa_found : find_property 50 shop ≡ some villa
unfolding find_first
villa_found = refl

run_recorded_example :
    ((is_allowed Transition.unpublishes 1 villa (has_image 50 shop) ≡ true)
      × IsMoved 1 50 villa
          (target Transition.unpublishes)
          shop
          (run Transition.unpublishes env 1 50 shop))
    ⊎ ((is_allowed Transition.unpublishes 1 villa (has_image 50 shop) ≡ false)
        × (x : AppError) × (run Transition.unpublishes env 1 50 shop ≡ (err x, shop)))
run_recorded_example = run_recorded env 1 50 shop villa villa_found Transition.unpublishes

-- A listing that an administrator has rejected.
abbrev rejected : Property
rejected = record villa { status = PropertyStatus.rejected }

abbrev rejected_shop : Store
rejected_shop = record shop { properties = rejected ∷ []; images = [] }

rejected_found : find_property 50 rejected_shop ≡ some rejected
unfolding find_first
rejected_found = refl

abbrev pictured_shop : Store
pictured_shop = record rejected_shop { images = picture ∷ [] }

rejected_there : find_property 50 pictured_shop ≡ some rejected
unfolding find_first
rejected_there = refl

rejected_pictured : has_image 50 pictured_shop ≡ true
unfolding exists_row
rejected_pictured = refl

republish_unruled_example :
    let (out, t) = republish_property 1 50 pictured_shop in
    (out ≡ ok (with_status PropertyStatus.published rejected))
    × (find_property 50 t ≡ some (with_status PropertyStatus.published rejected))
    × ((unpublish_property 1 50 pictured_shop).0
        ≡ err (AppError.validation "Only published properties can be unpublished"))
unfolding can_unpublish_property
republish_unruled_example =
    republish_unruled 1 50 pictured_shop rejected rejected_there refl rejected_pictured

-- Two pictures of the villa, the first its cover.
abbrev second : PropertyImage
second = record picture { id = 61; is_main = false }

abbrev album : Store
album = record shop { images = picture ∷ second ∷ [] }

two_pictures : count (of_property 50) album.images ≤ 10
unfolding count
two_pictures = omega arith

album-IsCovered : IsCovered 50 album.images
unfolding count
album-IsCovered = refl

upload-IsCovered_example :
    let t = (upload_property_image env 1 50 [] true album).1 in
    (count (of_property 50) t.images ≤ 10) × IsCovered 50 t.images
upload-IsCovered_example = upload-IsCovered env 1 50 [] true album two_pictures album-IsCovered

one_second : count (image_is 61) album.images ≡ 1
unfolding count
one_second = refl

cover_set : (set_cover_image 1 50 61 album).0 ≡ ok tt
unfolding set_cover_image find_first
cover_set = refl
