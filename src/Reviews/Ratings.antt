-- ===== src/Reviews/Ratings.antt =====
-- The rating of a listing is that of its reviews, and a stay is reviewed once.
use hoyhel.Prelude.{
  ℕ, ◌≡◌, refl, ◌∙◌, inl, inr, true, false, List, [], ◌∷◌, ◌++◌, some, ◌==◌, ==_refl, find_first,
  exists_row, exists_row-true, find_many-append_apart, count-append_apart, ==_comm,
  find_first-concat, update_many, All, Bool-cases, Option-cases, arith,
}
use hoyhel.Schema.{Store, Env, Property, Booking, Review}
use hoyhel.Service.{AppError, ok, err, Result-cases}
use hoyhel.Bookings.{booking_is, property_is}
use hoyhel.Reviews.{
  ReviewDraft, reviews_booking, reviews_property, new_review, review_count_of, average_rating_of,
  rate, is_reviewable, create_property_review,
}

-- A listing shows the number and the average of its reviews.
abbrev pub IsRated : List Review → Property → Type 0
IsRated rs p =
    (p.review_count ≡ review_count_of p.id rs) × (p.average_rating ≡ average_rating_of p.id rs)

-- A review that is accepted: whose, of which stay, and what it writes.
pub record IsReviewed (env : Env) (author_id : ℕ) (d : ReviewDraft) (s t : Store) (r : Review)
    : Type 0 where
  pub booking : Booking
  pub found : find_first (booking_is d.booking_id) s.bookings ≡ some booking
  pub guest : booking.guest_id ≡ author_id
  pub over : is_reviewable env.now booking ≡ true
  pub first : exists_row (reviews_booking booking.id) s.reviews ≡ false
  pub row : r ≡ new_review env author_id d booking
  pub reviews : t.reviews ≡ s.reviews ++ r ∷ []
  pub properties :
      t.properties ≡ update_many (property_is booking.property_id) (rate t.reviews) s.properties
  pub bookings : t.bookings ≡ s.bookings

review-IsReviewed :
    (env : Env) (author_id : ℕ) (d : ReviewDraft) (s : Store) (r : Review)
    → (create_property_review env author_id d s).0 ≡ ok r
    → IsReviewed env author_id d s (create_property_review env author_id d s).1 r
unfolding create_property_review
review-IsReviewed env author_id d s r e =
    elim (Option-cases (find_first (booking_is d.booking_id) s.bookings)) [
      | inl missing ↦ absurd (ground arith)
      | inr (b, found) ↦ record {
        booking = b;
        found = found;
        guest = ground arith;
        over = ground arith;
        first = ground arith;
        row = ground arith;
        reviews = ground arith;
        properties = ground arith;
        bookings = ground arith;
      }
    ]

review_refused :
    (env : Env) (author_id : ℕ) (d : ReviewDraft) (s : Store) (x : AppError)
    → (create_property_review env author_id d s).0 ≡ err x
    → (create_property_review env author_id d s).1 ≡ s
unfolding create_property_review
review_refused env author_id d s x e =
    elim (Option-cases (find_first (booking_is d.booking_id) s.bookings)) [
      | inl missing ↦ ground arith
      | inr (b, found) ↦ ground arith
    ]

-- A review of another listing.
IsRated-apart :
    (rs : List Review) (r : Review) (p : Property)
    → (r.property_id == p.id) ≡ false
    → IsRated rs p
    → IsRated (rs ++ r ∷ []) p
unfolding review_count_of average_rating_of
IsRated-apart rs r p apart (counted, averaged) =
    rw
      (
        count-append_apart (reviews_property p.id) rs r apart,
        find_many-append_apart (reviews_property p.id) rs r apart,
      )
      (counted, averaged)

rate-IsRated :
    (rs : List Review) (r : Review) (ps : List Property)
    → All (IsRated rs) ps
    → All
        (IsRated (rs ++ r ∷ []))
        (update_many (property_is r.property_id) (rate (rs ++ r ∷ [])) ps)
unfolding update_many
rate-IsRated rs r [] h = tt
rate-IsRated rs r (p ∷ ps) (h, hs) = elim (Bool-cases (p.id == r.property_id)) [
  | inl same ↦ rw same ((refl, refl), rate-IsRated rs r ps hs)
  | inr apart ↦
      rw apart
        (IsRated-apart rs r p (==_comm r.property_id p.id ∙ apart) h, rate-IsRated rs r ps hs)
]

-- Where every listing shows the number and the average of its reviews, every listing does after a request to
-- review a stay, whether it is accepted or refused.
pub review-IsRated :
    (env : Env) (author_id : ℕ) (d : ReviewDraft) (s : Store)
    → All (IsRated s.reviews) s.properties
    → let t = (create_property_review env author_id d s).1 in All (IsRated t.reviews) t.properties
review-IsRated env author_id d s h =
    elim (Result-cases (create_property_review env author_id d s).0) [
      | inl (r, made) ↦
          let w = review-IsReviewed env author_id d s r made in
          rw (w.properties, w.reviews, w.row)
            (rate-IsRated s.reviews (new_review env author_id d w.booking) s.properties h)
      | inr (x, refused) ↦ rw (review_refused env author_id d s x refused) h
    ]

review_again :
    (env : Env) (author_id : ℕ) (d : ReviewDraft) (s : Store) (b : Booking)
    → find_first (booking_is d.booking_id) s.bookings ≡ some b
    → exists_row (reviews_booking b.id) s.reviews ≡ true
    → (x : AppError) × (create_property_review env author_id d s ≡ (err x, s))
unfolding create_property_review
review_again env author_id d s b found reviewed = elim (Bool-cases (b.guest_id == author_id)) [
  | inl own ↦
      (AppError.conflict "A review has already been submitted for this booking", ground arith)
  | inr other ↦
      (AppError.forbidden "Only the guest who completed this stay can leave a review", ground arith)
]

-- A review that is accepted is by the guest of a stay that is completed or past its check-out and that
-- had no review. The same stay is not reviewed again, by whom or whenever: a later request is refused and changes nothing.
pub review_once :
    (env later : Env) (author_id other : ℕ) (d e : ReviewDraft) (s : Store) (r : Review)
    → (create_property_review env author_id d s).0 ≡ ok r
    → e.booking_id ≡ d.booking_id
    → let t = (create_property_review env author_id d s).1 in
      IsReviewed env author_id d s t r
      × ((x : AppError) × (create_property_review later other e t ≡ (err x, t)))
review_once env later author_id other d e s r made same =
    let w = review-IsReviewed env author_id d s r made in
    let t = (create_property_review env author_id d s).1 in
    let b = w.booking in
    let here : exists_row (reviews_booking b.id) (s.reviews ++ new_review env author_id d b ∷ [])
        ≡ true =
      exists_row-true (reviews_booking b.id) (s.reviews ++ new_review env author_id d b ∷ [])
        (new_review env author_id d b)
        (find_first-concat (reviews_booking b.id) s.reviews (new_review env author_id d b) w.first
          (==_refl b.id)) in
    (w, review_again later other e t b (rw (w.bookings, same) w.found) (rw (w.reviews, w.row) here))
