-- ===== src/Schema/Stays.antt =====
-- The rows of prisma/schema.prisma about bookings and money. Money is in cents.
use hoyhel.Prelude.{ℕ, Bool, Option, Text}
use hoyhel.Schema.Enums.{
  BookingStatus, CancellationPolicy, PaymentStatus, PaymentMethodType, PayoutStatus,
}

pub record Booking : Type 0 where
  pub id : ℕ
  pub booking_number : ℕ
  pub property_id : ℕ
  pub guest_id : ℕ
  pub property_name : Text
  pub property_address : Text
  pub cancellation_policy_snapshot : CancellationPolicy
  pub check_in : ℕ
  pub check_out : ℕ
  pub guests_count : ℕ
  pub nights : ℕ
  pub nightly_price : ℕ
  pub subtotal : ℕ
  pub cleaning_fee : ℕ
  pub service_fee : ℕ
  pub taxes : ℕ
  pub discount : ℕ
  pub total_price : ℕ
  pub adults_count : ℕ
  pub children_count : ℕ
  pub infants_count : ℕ
  pub pets_count : ℕ
  pub estimated_arrival : Option Text
  pub emergency_name : Option Text
  pub emergency_phone : Option Text
  pub emergency_relation : Option Text
  pub expires_at : Option ℕ
  pub status : BookingStatus
  pub cancellation_reason : Option Text
  pub cancelled_at : Option ℕ
  pub refunded_amount : ℕ
  pub special_requests : Option Text
  pub created_at : ℕ

pub record Payment : Type 0 where
  pub id : ℕ
  pub booking_id : ℕ
  pub user_id : ℕ
  pub amount : ℕ
  pub status : PaymentStatus
  pub payment_method : PaymentMethodType
  pub transaction_id : ℕ
  pub stripe_payment_intent_id : Option ℕ
  pub mpesa_checkout_id : Option ℕ
  pub idempotency_key : Option ℕ

pub record Refund : Type 0 where
  pub id : ℕ
  pub booking_id : ℕ
  pub payment_id : ℕ
  pub amount : ℕ
  pub reason : Text

pub record Payout : Type 0 where
  pub id : ℕ
  pub host_id : ℕ
  pub amount : ℕ
  pub status : PayoutStatus
  pub destination_account : Text
  pub reference_number : ℕ

pub record DiscountCode : Type 0 where
  pub code : Text
  pub discount_percent : Option ℕ
  pub discount_amount : Option ℕ
  pub max_uses : ℕ
  pub used_count : ℕ
  pub min_booking_amount : ℕ
  pub expires_at : Option ℕ
  pub is_active : Bool
