-- ===== src/Properties/Cover.antt =====
-- How many pictures a listing has, and which is its cover.
use hoyhel.Prelude.{
  ℕ, ◌≤◌, ◌≡◌, refl, ap, ◌∙◌, inl, inr, Bool, true, false, ◌&&◌, ◌||◌, List, [], ◌∷◌, ◌++◌, some,
  ◌==◌, ==_refl, length, length-update_many, find_first-update_where, find_first-update_many, ◌⊎◌,
  min, leb, if◌then◌else◌, find_first, count, update_many, count-append, count-update_many,
  count-update_many_zero, Option-cases, Bool-cases, arith, Text,
}
use hoyhel.Schema.{Store, Env, PropertyImage}
use hoyhel.Service.{ok}
use hoyhel.Properties.{find_property, of_property}
use hoyhel.Properties.Images.{
  image_is, is_cover_of, as_main, new_image, promote, upload_property_image, set_cover_image,
}

-- A listing with pictures has one cover, and one without has none.
abbrev pub IsCovered : ℕ → List PropertyImage → Type 0
IsCovered property_id xs =
    count (is_cover_of property_id) xs ≡ min 1 (count (of_property property_id) xs)

covers-le :
    (id : ℕ) (xs : List PropertyImage) → count (is_cover_of id) xs ≤ count (of_property id) xs
unfolding count
covers-le id [] = ground arith
covers-le id (x ∷ xs) = ground (arith, covers-le id xs)

cleared :
    (id : ℕ) (xs : List PropertyImage)
    → count (is_cover_of id) (update_many (of_property id) (as_main false) xs) ≡ 0
cleared id xs =
    count-update_many_zero (is_cover_of id) (of_property id) (as_main false) xs
      (λ i h. ground arith) (λ i h. ground arith)

-- The pictures after an upload that is carried out.
abbrev added : ℕ → ℕ → Text → Bool → List PropertyImage → List PropertyImage
added new id url main xs =
    (if main then update_many (of_property id) (as_main false) xs else xs)
    ++ new_image new id url (count (of_property id) xs) (main || count (of_property id) xs == 0)
      ∷ []

uploaded :
    (env : Env) (host_id id : ℕ) (url : Text) (main : Bool) (s : Store)
    → let t = (upload_property_image env host_id id url main s).1 in
      (t.images ≡ s.images)
      ⊎ ((count (of_property id) s.images ≤ 9)
          × (t.images ≡ added (env.uuid 0) id url main s.images))
unfolding upload_property_image
uploaded env host_id id url main s = elim (Option-cases (find_property id s)) [
  | inl missing ↦ inl (ground arith)
  | inr (p, found) ↦
      elim (Bool-cases (p.host_id == host_id && leb (count (of_property id) s.images) 9)) [
        | inl room ↦
            inr
              (ground arith, elim (Bool-cases main) [ inl e ↦ ground arith | inr e ↦ ground arith ])
        | inr full ↦ inl (ground arith)
      ]
]

added-IsCovered :
    (new id : ℕ) (url : Text) (main : Bool) (xs : List PropertyImage)
    → count (of_property id) xs ≤ 9
    → IsCovered id xs
    → (count (of_property id) (added new id url main xs) ≤ 10)
      × IsCovered id (added new id url main xs)
unfolding count
added-IsCovered new id url true xs few covered =
    let wiped = update_many (of_property id) (as_main false) xs in
    let row = new_image new id url (count (of_property id) xs) true in
    let kept =
      count-update_many (of_property id) (of_property id) (as_main false) xs (λ i h. refl) in
    let all = count-append (of_property id) wiped (row ∷ []) in
    let covers = count-append (is_cover_of id) wiped (row ∷ []) in
    (
      ground (arith, ==_refl id, kept, all),
      ground (arith, ==_refl id, kept, all, covers, cleared id xs),
    )
added-IsCovered new id url false xs few covered =
    let row = new_image new id url (count (of_property id) xs) (count (of_property id) xs == 0) in
    let all = count-append (of_property id) xs (row ∷ []) in
    let covers = count-append (is_cover_of id) xs (row ∷ []) in
    (ground (arith, ==_refl id, all), ground (arith, ==_refl id, all, covers, covers-le id xs))

-- An upload, whether it is carried out or refused, leaves at most ten pictures where there were, and one
-- cover where there was one or no picture.
pub upload-IsCovered :
    (env : Env) (host_id id : ℕ) (url : Text) (main : Bool) (s : Store)
    → count (of_property id) s.images ≤ 10
    → IsCovered id s.images
    → let t = (upload_property_image env host_id id url main s).1 in
      (count (of_property id) t.images ≤ 10) × IsCovered id t.images
upload-IsCovered env host_id id url main s few covered = elim (uploaded env host_id id url main s) [
  | inl same ↦ rw same (few, covered)
  | inr (room, after) ↦ rw after (added-IsCovered (env.uuid 0) id url main s.images room covered)
]

-- The covers after one picture is made the cover.
covers_after :
    (image_id id : ℕ) (xs : List PropertyImage)
    → count (is_cover_of id) (promote image_id (update_many (of_property id) (as_main false) xs))
      ≡ count (λ i. i.id == image_id && i.property_id == id) xs
unfolding count update_many
covers_after image_id id [] = refl
covers_after image_id id (x ∷ xs) = ground (arith, covers_after image_id id xs)

none_of :
    (image_id id : ℕ) (xs : List PropertyImage)
    → count (image_is image_id) xs ≡ 0
    → count (λ i. i.id == image_id && i.property_id == id) xs ≡ 0
unfolding count
none_of image_id id [] e = refl
none_of image_id id (x ∷ xs) e = ground (arith, none_of image_id id xs)

just_one :
    (image_id id : ℕ) (xs : List PropertyImage) (i : PropertyImage)
    → find_first (image_is image_id) xs ≡ some i
    → count (image_is image_id) xs ≡ 1
    → i.property_id ≡ id
    → count (λ j. j.id == image_id && j.property_id == id) xs ≡ 1
unfolding count find_first
just_one image_id id [] i found one home = absurd (ground arith)
just_one image_id id (x ∷ xs) i found one home = elim (Bool-cases (x.id == image_id)) [
  | inl here ↦ ground (arith, none_of image_id id xs, ==_refl id)
  | inr there ↦ ground (arith, just_one image_id id xs i)
]

set_cover-done :
    (host_id id image_id : ℕ) (s : Store)
    → (set_cover_image host_id id image_id s).0 ≡ ok tt
    → (i : PropertyImage) × (find_first (image_is image_id) s.images ≡ some i)
      × (i.property_id ≡ id)
      × ((set_cover_image host_id id image_id s).1.images
          ≡ promote image_id (update_many (of_property id) (as_main false) s.images))
unfolding set_cover_image
set_cover-done host_id id image_id s e =
    elim (Option-cases (find_first (image_is image_id) s.images)) [
      | inl missing ↦ absurd (ground arith)
      | inr (i, found) ↦ elim (Option-cases (find_property i.property_id s)) [
        | inl homeless ↦ absurd (ground arith)
        | inr (p, home) ↦ elim (Bool-cases (i.property_id == id && p.host_id == host_id)) [
          | inl mine ↦ (i, found, ground arith, ground arith)
          | inr other ↦ absurd (ground arith)
        ]
      ]
    ]

promoted :
    (id image_id : ℕ) (xs : List PropertyImage) (i : PropertyImage)
    → find_first (image_is image_id) xs ≡ some i
    → (j : PropertyImage) × (find_first
          (image_is image_id)
          (promote image_id (update_many (of_property id) (as_main false) xs))
        ≡ some j)
      × (j.is_main ≡ true)
promoted id image_id xs i found =
    let wiped =
      find_first-update_where (image_is image_id) (of_property id) (as_main false) xs i (λ _. refl)
        found in
    (
      as_main true (if of_property id i then as_main false i else i),
      find_first-update_many (image_is image_id) (as_main true)
          (update_many (of_property id) (as_main false) xs)
          (if of_property id i then as_main false i else i) (λ _ h. h) wiped,
      refl,
    )

-- A change of the cover that is carried out leaves the listing with one cover, the picture chosen, where
-- no other picture has its identifier, and as many pictures as it had.
pub set_cover_one :
    (host_id id image_id : ℕ) (s : Store)
    → count (image_is image_id) s.images ≡ 1
    → (set_cover_image host_id id image_id s).0 ≡ ok tt
    → let t = (set_cover_image host_id id image_id s).1 in
      (count (is_cover_of id) t.images ≡ 1)
      × ((i : PropertyImage) × (find_first (image_is image_id) t.images ≡ some i)
          × (i.is_main ≡ true))
      × (length t.images ≡ length s.images)
set_cover_one host_id id image_id s one e =
    let (i, found, home, after) = set_cover-done host_id id image_id s e in
    let xs = update_many (of_property id) (as_main false) s.images in
    (
      ap (count (is_cover_of id)) after
          ∙ covers_after image_id id s.images
          ∙ just_one image_id id s.images i found one home,
      rw after (promoted id image_id s.images i found),
      ap length after
          ∙ length-update_many (image_is image_id) (as_main true) xs
          ∙ length-update_many (of_property id) (as_main false) s.images,
    )
