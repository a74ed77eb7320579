-- ===== src/Samples.antt =====
-- Data for the tests and the witnesses: a host with one published villa, two guests, and a clock.
use hoyhel.Prelude.{ℕ, ◌*◌, ◌+◌, true, false, [], ◌∷◌, none, some}
use hoyhel.Schema.{
  Store, Env, User, Property, PropertyImage, Booking, BookingStatus, Payment, PaymentStatus,
  PaymentMethodType, UserRoleType, UserStatus, PropertyStatus, CancellationPolicy, day_ms,
}

abbrev pub empty_store : Store
empty_store = record {
  users = [];
  sessions = [];
  refresh_tokens = [];
  email_tokens = [];
  reset_tokens = [];
  host_applications = [];
  warnings = [];
  reports = [];
  audit_logs = [];
  properties = [];
  images = [];
  availabilities = [];
  status_history = [];
  favorites = [];
  bookings = [];
  payments = [];
  refunds = [];
  payouts = [];
  discount_codes = [];
  reviews = [];
  conversations = [];
  messages = [];
  notifications = [];
  events = [];
}

-- The start of a day.
abbrev pub day : ℕ → ℕ
day n = n * day_ms

abbrev pub env : Env
env = record { now = 1728000003600; uuid = λ k. 900 + k; random = λ k. 700 + k }

abbrev pub user : ℕ → UserRoleType → User
user id role = record {
  id = id;
  email = 97 ∷ id ∷ [];
  password_hash = 40 + id;
  first_name = 65 ∷ [];
  last_name = 66 ∷ [];
  phone = none;
  avatar_url = none;
  bio = none;
  role = role;
  status = UserStatus.active;
  is_email_verified = true;
  is_active = true;
  is_suspended = false;
  suspension_reason = none;
  is_blocked = false;
  blocked_reason = none;
  is_banned = false;
  ban_reason = none;
  last_login_at = none;
  created_at = 0;
}

abbrev pub host : User
host = user 1 UserRoleType.host

abbrev pub guest : User
guest = user 2 UserRoleType.guest

abbrev pub other_guest : User
other_guest = user 3 UserRoleType.guest

abbrev pub admin : User
admin = user 4 UserRoleType.admin

abbrev pub villa : Property
villa = record {
  id = 50;
  host_id = 1;
  title = 86 ∷ [];
  status = PropertyStatus.published;
  cancellation_policy = CancellationPolicy.moderate;
  base_price = 10000;
  cleaning_fee = 2500;
  max_guests = 4;
  address = 67 ∷ [];
  city = 68 ∷ [];
  country = 69 ∷ [];
  removal_reason = none;
  removal_requested_at = none;
  removal_requested_by = none;
  rejection_reason = none;
  reviewed_by = none;
  reviewed_at = none;
  average_rating = 0;
  review_count = 0;
}

abbrev pub picture : PropertyImage
picture = record { id = 60; property_id = 50; url = 47 ∷ []; sort_order = 0; is_main = true }

abbrev pub shop : Store
shop = record empty_store {
  users = host ∷ guest ∷ other_guest ∷ admin ∷ [];
  properties = villa ∷ [];
  images = picture ∷ [];
}

-- A stay of guest 2 in the villa from day 20010 to day 20012, made at the clock's time.
abbrev pub stay : Booking
stay = record {
  id = 80;
  booking_number = 12345;
  property_id = 50;
  guest_id = 2;
  property_name = 86 ∷ [];
  property_address = [];
  cancellation_policy_snapshot = CancellationPolicy.moderate;
  check_in = 1728864000000;
  check_out = 1729036800000;
  guests_count = 2;
  nights = 2;
  nightly_price = 10000;
  subtotal = 20000;
  cleaning_fee = 2500;
  service_fee = 2000;
  taxes = 1760;
  discount = 0;
  total_price = 26260;
  adults_count = 2;
  children_count = 0;
  infants_count = 0;
  pets_count = 0;
  estimated_arrival = none;
  emergency_name = none;
  emergency_phone = none;
  emergency_relation = none;
  expires_at = some 1728000903600;
  status = BookingStatus.pending_payment;
  cancellation_reason = none;
  cancelled_at = none;
  refunded_amount = 0;
  special_requests = none;
  created_at = 1728000003600;
}

abbrev pub held_shop : Store
held_shop = record shop { bookings = stay ∷ [] }

-- The payment of that stay.
abbrev pub card : Payment
card = record {
  id = 81;
  booking_id = 80;
  user_id = 2;
  amount = 26260;
  status = PaymentStatus.success;
  payment_method = PaymentMethodType.credit_card;
  transaction_id = 5;
  stripe_payment_intent_id = some 5;
  mpesa_checkout_id = none;
  idempotency_key = some 9;
}

abbrev pub paid_shop : Store
paid_shop = record shop {
  bookings = record stay { status = BookingStatus.confirmed } ∷ [];
  payments = card ∷ [];
}
