-- ===== src/Reviews/Tests.antt =====
-- Witnesses and tests for reviews.
use hoyhel.Prelude.{◌≡◌, refl, [], ◌∷◌, All, count, exists_row, find_first, find_many, sum_by}
use hoyhel.Schema.{Env, Review}
use hoyhel.Service.{AppError, ok, err}
use hoyhel.Pricing.{round_div}
use hoyhel.Reviews.{ReviewDraft, review_count_of, average_rating_of, create_property_review}
use hoyhel.Reviews.Ratings.{IsRated, IsReviewed, review-IsRated, review_once}
use hoyhel.Samples.{env, paid_shop}

-- 4.50
abbrev draft : ReviewDraft
draft = record {
  booking_id = 80;
  rating = 450;
  cleanliness = 500;
  communication = 500;
  location = 500;
  accuracy = 500;
  value = 500;
  comment = 71 ∷ [];
}

-- The day after the check-out.
abbrev later : Env
later = record env { now = 1729126800000 }

shop-IsRated : All (IsRated []) paid_shop.properties
unfolding review_count_of average_rating_of count
shop-IsRated = ((refl, refl), tt)

review-IsRated_example :
    let t = (create_property_review later 2 draft paid_shop).1 in
    All (IsRated t.reviews) t.properties
review-IsRated_example = review-IsRated later 2 draft paid_shop shop-IsRated

abbrev row : Review
row = record {
  id = 900;
  property_id = 50;
  booking_id = 80;
  author_id = 2;
  rating = 450;
  cleanliness = 500;
  communication = 500;
  location = 500;
  accuracy = 500;
  value = 500;
  comment = 71 ∷ [];
}

reviewed : (create_property_review later 2 draft paid_shop).0 ≡ ok row
unfolding create_property_review find_first exists_row
reviewed = refl

review_once_example :
    let t = (create_property_review later 2 draft paid_shop).1 in
    IsReviewed later 2 draft paid_shop t row
    × ((x : AppError) × (create_property_review later 2 draft t ≡ (err x, t)))
review_once_example = review_once later later 2 2 draft draft paid_shop row reviewed refl

-- 4.00, 4.50 and 5.00, and 4.00, 4.00 and 5.00, which is rounded.
rounded :
    average_rating_of 50 (row ∷ record row { rating = 400 } ∷ record row { rating = 500 } ∷ [])
    ≡ 450
unfolding average_rating_of count find_many sum_by round_div
rounded = refl
