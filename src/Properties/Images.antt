-- ===== src/Properties/Images.antt =====
-- backend/src/modules/properties/properties.service.ts: the pictures of a listing, one of which is its
-- cover. The URLs that the storage service answers are arguments.
use hoyhel.Prelude.{
  ℕ, ◌+◌, Bool, true, false, not, ◌&&◌, ◌||◌, List, [], ◌∷◌, ◌++◌, Option, none, some, ◌==◌, leb,
  ltb, if◌then◌else◌, length, find_first, count, exists_row, update_many, delete_many, Text,
}
use hoyhel.Schema.{Store, Env, PropertyImage}
use hoyhel.Service.{AppError, Action, pure, gets, modify, or_throw, throw_if, ◌>>=◌, ◌>>◌}
use Prim.Native.String.{String}
use hoyhel.Properties.{find_property, of_property, owned}

abbrev pub image_is : ℕ → PropertyImage → Bool
image_is image_id i = i.id == image_id

abbrev pub is_cover_of : ℕ → PropertyImage → Bool
is_cover_of property_id i = i.property_id == property_id && i.is_main

abbrev pub as_main : Bool → PropertyImage → PropertyImage
as_main main i = record i { is_main = main }

abbrev pub new_image : ℕ → ℕ → Text → ℕ → Bool → PropertyImage
new_image id property_id url sort_order main = record {
  id = id;
  property_id = property_id;
  url = url;
  sort_order = sort_order;
  is_main = main;
}

abbrev pub set_images : (List PropertyImage → List PropertyImage) → Store → Store
set_images f s = record s { images = f s.images }

-- `uploadPropertyImage`
unfoldable pub upload_property_image : Env → ℕ → ℕ → Text → Bool → Action PropertyImage
upload_property_image env host_id property_id url main = do
  p ← owned host_id property_id "Only the host can upload property images"
  n ← gets (λ s. count (of_property property_id) s.images)
  throw_if (leb 10 n) (AppError.validation "Maximum 10 images allowed per property")
  modify (λ s.
      if main then set_images (update_many (of_property property_id) (as_main false)) s else s)
  modify (set_images (λ xs. xs ++ new_image (env.uuid 0) property_id url n (main || n == 0) ∷ []))
  pure (new_image (env.uuid 0) property_id url n (main || n == 0))

-- The rows of several files, from the `i`-th on.
unfoldable pub new_images : Env → ℕ → ℕ → ℕ → ℕ → List Text → List PropertyImage
new_images env property_id existing main_index i [] = []
new_images env property_id existing main_index i (url ∷ urls) =
    new_image (env.uuid i) property_id url (existing + i) (existing == 0 && i == main_index)
    ∷ new_images env property_id existing main_index (i + 1) urls

abbrev pub promote : ℕ → List PropertyImage → List PropertyImage
promote image_id xs = update_many (image_is image_id) (as_main true) xs

-- `createdImages[0].isMain = true`
abbrev head_main : List PropertyImage → List PropertyImage
head_main [] = []
head_main (x ∷ xs) = as_main true x ∷ xs

abbrev promote_head : List PropertyImage → List PropertyImage → List PropertyImage
promote_head [] xs = xs
promote_head (x ∷ _) xs = promote x.id xs

-- `uploadPropertyImages`
unfoldable pub upload_property_images : Env → ℕ → ℕ → List Text → ℕ → Action (List PropertyImage)
upload_property_images env host_id property_id urls main_index = do
  p ← owned host_id property_id "Only the host can upload property images"
  throw_if (length urls == 0) (AppError.validation "At least one image file is required")
  n ← gets (λ s. count (of_property property_id) s.images)
  throw_if (ltb 10 (n + length urls)) (AppError.validation "Maximum 10 images allowed per property")
  let rows = new_images env property_id n main_index 0 urls
  modify (set_images (λ xs. xs ++ rows))
  covered ← gets (λ s. exists_row (is_cover_of property_id) s.images)
  modify (λ s. if covered then s else set_images (promote_head rows) s)
  pure (if covered then rows else head_main rows)

-- `findUnique` of a picture with its property, and the check that the host owns it.
abbrev pub owned_image : ℕ → ℕ → String → Action PropertyImage
owned_image host_id image_id refusal = do
  row ← gets (λ s. find_first (image_is image_id) s.images)
  i ← or_throw row (AppError.not_found "Image")
  property_row ← gets (find_property i.property_id)
  p ← or_throw property_row (AppError.internal "every image has its property")
  throw_if (not (p.host_id == host_id)) (AppError.forbidden refusal)
  pure i

-- `setCoverImage`
unfoldable pub set_cover_image : ℕ → ℕ → ℕ → Action (Unit {0})
set_cover_image host_id property_id image_id = do
  row ← gets (λ s. find_first (image_is image_id) s.images)
  i ← or_throw row (AppError.not_found "Image")
  throw_if (not (i.property_id == property_id))
      (AppError.validation "Image does not belong to this property")
  _ ← owned_image host_id image_id "Only the host can update property cover image"
  modify (
      set_images
        (λ xs. promote image_id (update_many (of_property property_id) (as_main false) xs)))

abbrev promote_next : Option PropertyImage → List PropertyImage → List PropertyImage
promote_next none xs = xs
promote_next (some next) xs = promote next.id xs

-- `deletePropertyImage`
unfoldable pub delete_property_image : ℕ → ℕ → ℕ → Action (Unit {0})
delete_property_image host_id property_id image_id = do
  i ← owned_image host_id image_id "Only host can delete images"
  modify (set_images (delete_many (image_is image_id)))
  next ← gets (λ s. find_first (of_property property_id) s.images)
  modify (λ s. if i.is_main then set_images (promote_next next) s else s)
