-- ===== src/Reviews.antt =====
-- backend/src/modules/reviews/reviews.service.ts. Ratings are in hundredths, and not negative.
pub mod Ratings
mod Tests
use hoyhel.Prelude.{
  ℕ, Bool, true, false, not, ◌&&◌, ◌||◌, List, [], ◌∷◌, ◌++◌, Option, none, some, ◌==◌, ltb,
  if◌then◌else◌, find_first, find_many, exists_row, update_many, count, sum_by, Text,
}
use hoyhel.Schema.{Store, Env, Property, Booking, Review, is_completed, start_of_day}
use hoyhel.Service.{
  AppError, Action, pure, gets, modify, or_throw, throw_if, transaction, ◌>>=◌, ◌>>◌,
}
use hoyhel.Pricing.{round_div}
use hoyhel.Bookings.{booking_is, property_is}

pub record ReviewDraft : Type 0 where
  pub booking_id : ℕ
  pub rating : ℕ
  pub cleanliness : ℕ
  pub communication : ℕ
  pub location : ℕ
  pub accuracy : ℕ
  pub value : ℕ
  pub comment : Text

abbrev pub reviews_booking : ℕ → Review → Bool
reviews_booking booking_id r = r.booking_id == booking_id

abbrev pub reviews_property : ℕ → Review → Bool
reviews_property property_id r = r.property_id == property_id

abbrev pub new_review : Env → ℕ → ReviewDraft → Booking → Review
new_review env author_id d b = record {
  id = env.uuid 0;
  property_id = b.property_id;
  booking_id = b.id;
  author_id = author_id;
  rating = d.rating;
  cleanliness = d.cleanliness;
  communication = d.communication;
  location = d.location;
  accuracy = d.accuracy;
  value = d.value;
  comment = d.comment;
}

-- `_avg: { rating: true }` and `_count` of the reviews of a property, the average rounded to hundredths.
unfoldable pub review_count_of : ℕ → List Review → ℕ
review_count_of property_id rs = count (reviews_property property_id) rs

unfoldable pub average_rating_of : ℕ → List Review → ℕ
average_rating_of property_id rs =
    if count (reviews_property property_id) rs == 0
    then 0
    else round_div (sum_by (λ r. r.rating) (find_many (reviews_property property_id) rs))
        (count (reviews_property property_id) rs)

abbrev pub rate : List Review → Property → Property
rate rs p = record p {
  average_rating = average_rating_of p.id rs;
  review_count = review_count_of p.id rs;
}

-- The stay is marked as completed, or its check-out is not after the start of today.
abbrev pub is_reviewable : ℕ → Booking → Bool
is_reviewable now b = is_completed b.status || not (ltb (start_of_day now) b.check_out)

-- `createPropertyReview`
unfoldable pub create_property_review : Env → ℕ → ReviewDraft → Action Review
create_property_review env author_id d = do
  row ← gets (λ s. find_first (booking_is d.booking_id) s.bookings)
  b ← or_throw row (AppError.not_found "Booking")
  throw_if (not (b.guest_id == author_id))
      (AppError.forbidden "Only the guest who completed this stay can leave a review")
  reviewed ← gets (λ s. exists_row (reviews_booking b.id) s.reviews)
  throw_if reviewed (AppError.conflict "A review has already been submitted for this booking")
  throw_if (not (is_reviewable env.now b)) (
      AppError.validation
        "You can only review a property after your stay check-out date has passed")
  transaction do
    modify (λ s. record s { reviews = s.reviews ++ new_review env author_id d b ∷ [] })
    modify (λ s. record s {
      properties = update_many (property_is b.property_id) (rate s.reviews) s.properties;
    })
    pure (new_review env author_id d b)

-- `getPropertyReviews`, in the order of the table.
unfoldable pub get_property_reviews : ℕ → Store → List Review
get_property_reviews property_id s = find_many (reviews_property property_id) s.reviews
