-- ===== src/Schema/Listings.antt =====
-- The rows of prisma/schema.prisma about properties. Money is in cents, ratings in hundredths.
use hoyhel.Prelude.{ℕ, Bool, Option, Text}
use hoyhel.Schema.Enums.{PropertyStatus, CancellationPolicy}

pub record Property : Type 0 where
  pub id : ℕ
  pub host_id : ℕ
  pub title : Text
  pub status : PropertyStatus
  pub cancellation_policy : CancellationPolicy
  pub base_price : ℕ
  pub cleaning_fee : ℕ
  pub max_guests : ℕ
  pub address : Text
  pub city : Text
  pub country : Text
  pub removal_reason : Option Text
  pub removal_requested_at : Option ℕ
  pub removal_requested_by : Option ℕ
  pub rejection_reason : Option Text
  pub reviewed_by : Option ℕ
  pub reviewed_at : Option ℕ
  pub average_rating : ℕ
  pub review_count : ℕ

pub record PropertyImage : Type 0 where
  pub id : ℕ
  pub property_id : ℕ
  pub url : Text
  pub sort_order : ℕ
  pub is_main : Bool

pub record Availability : Type 0 where
  pub property_id : ℕ
  pub date : ℕ
  pub is_blocked : Bool
  pub custom_price : Option ℕ
  pub min_stay : Option ℕ
  pub max_stay : Option ℕ
  pub note : Option Text

pub record PropertyStatusHistory : Type 0 where
  pub property_id : ℕ
  pub previous_status : PropertyStatus
  pub new_status : PropertyStatus
  pub changed_by : ℕ
  pub reason : Text

pub record Favorite : Type 0 where
  pub user_id : ℕ
  pub property_id : ℕ
