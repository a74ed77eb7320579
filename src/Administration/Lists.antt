-- ===== src/Administration/Lists.antt =====
-- backend/src/modules/admin/admin.service.ts: the lists. `mode: 'insensitive'` is contains_insensitive.
pub mod More
pub mod Found
use hoyhel.Prelude.{
  ℕ, Bool, true, false, not, ◌&&◌, ◌||◌, List, [], ◌∷◌, Option, none, some, ◌==◌, if◌then◌else◌,
  find_first, same, same_flag, Text, text, text_eq, trim, to_upper_case, contains_insensitive,
  first_part, other_parts, has_space,
}
use hoyhel.Schema.{
  Store, Env, User, UserRoleType, Booking, BookingStatus, Payment, PaymentStatus, Property,
  PropertyStatus, UserRoleType-discrete, BookingStatus-discrete, PaymentStatus-discrete,
}
use hoyhel.Service.{AppError, Action, gets, or_throw, ◌>>=◌, ◌>>◌}
use hoyhel.Pages.{Page, newest_first, paginate}
use hoyhel.Bookings.{booking_is, property_is, user_is, pays_for}
use hoyhel.Bookings.Cancel.{update_expired_bookings}

-- What the tables keep as text of what is opaque here.
pub record Spelling : Type 0 where
  pub user_id : ℕ → Text
  pub booking_number : ℕ → Text

-- A `where` that is set only where its parameter is given.
abbrev pub when_given {ℓ} : {A : Type ℓ} → Option A → (A → Bool) → Bool
when_given none p = true
when_given (some a) p = p a

-- `if (params.search)`, with `q` trimmed: an empty text is none.
abbrev pub when_searched : Option Text → (Text → Bool) → Bool
when_searched none p = true
when_searched (some []) p = true
when_searched (some (c ∷ cs)) p = p (trim (c ∷ cs))

-- A `where` on a row that another refers to.
abbrev pub of_row {ℓ} : {A : Type ℓ} → Option A → (A → Bool) → Bool
of_row none p = false
of_row (some a) p = p a

abbrev pub holder : ℕ → Store → Option User
holder user_id s = find_first (user_is user_id) s.users

abbrev pub listing : ℕ → Store → Option Property
listing property_id s = find_first (property_is property_id) s.properties

pub record UserQuery : Type 0 where
  pub search : Option Text
  pub role : Option UserRoleType
  pub status_filter : Option Text
  pub is_suspended : Option Bool
  pub page : Option ℕ
  pub limit : Option ℕ

abbrev pub user_matches : Spelling → Text → User → Bool
user_matches spell q u =
    contains_insensitive q u.email
    || contains_insensitive q u.first_name
    || contains_insensitive q u.last_name
    || text_eq (spell.user_id u.id) q

-- The filter by a status named in capitals; any other name filters nothing.
unfoldable pub has_filtered_status : Text → User → Bool
has_filtered_status name u =
    if text_eq name (text "SUSPENDED")
    then u.is_suspended
    else if text_eq name (text "BLOCKED")
    then u.is_blocked
    else if text_eq name (text "BANNED")
    then u.is_banned
    else if text_eq name (text "DEACTIVATED")
    then not u.is_active
    else if text_eq name (text "ACTIVE")
    then u.is_active && not u.is_suspended && not u.is_blocked && not u.is_banned
    else true

-- `if (params.statusFilter) … else if (params.isSuspended !== undefined) …`
abbrev pub passes_status : Option Text → Option Bool → User → Bool
passes_status (some (c ∷ cs)) suspended u = has_filtered_status (to_upper_case (c ∷ cs)) u
passes_status (some []) suspended u = when_given suspended (λ b. same_flag u.is_suspended b)
passes_status none suspended u = when_given suspended (λ b. same_flag u.is_suspended b)

unfoldable pub user_where : Spelling → UserQuery → User → Bool
user_where spell q u =
    when_searched q.search (λ t. user_matches spell t u)
    && when_given q.role (same UserRoleType-discrete u.role)
    && passes_status q.status_filter q.is_suspended u

-- `getUsers`
unfoldable pub get_users : Spelling → UserQuery → Store → Page User
get_users spell q s = paginate 20 q.page q.limit (user_where spell q) newest_first s.users

pub record BookingQuery : Type 0 where
  pub search : Option Text
  pub status : Option BookingStatus
  pub payment_status : Option PaymentStatus
  pub page : Option ℕ
  pub limit : Option ℕ

-- The first and the last name, in the two parts of a search of several words.
abbrev pub is_named : Text → User → Bool
is_named q u =
    contains_insensitive (first_part q) u.first_name
    && contains_insensitive (other_parts q) u.last_name

abbrev pub knows_user : Text → User → Bool
knows_user q u =
    contains_insensitive q u.email
    || contains_insensitive q u.first_name
    || contains_insensitive q u.last_name
    || (has_space q && is_named q u)

unfoldable pub booking_matches : Spelling → Store → Text → Booking → Bool
booking_matches spell s q b =
    contains_insensitive q (spell.booking_number b.booking_number)
    || of_row (holder b.guest_id s) (knows_user q)
    || of_row (listing b.property_id s) (λ p.
      contains_insensitive q p.title
      || contains_insensitive q p.city
      || contains_insensitive q p.country
      || of_row (holder p.host_id s) (knows_user q))

unfoldable pub booking_where : Spelling → BookingQuery → Store → Booking → Bool
booking_where spell q s b =
    when_searched q.search (λ t. booking_matches spell s t b)
    && when_given q.status (same BookingStatus-discrete b.status)
    && when_given q.payment_status (λ status.
      of_row (find_first (pays_for b.id) s.payments)
        (λ p. same PaymentStatus-discrete p.status status))

-- `getAdminBookings`, after the stays that are over are completed
unfoldable pub get_admin_bookings : Env → Spelling → BookingQuery → Action (Page Booking)
get_admin_bookings env spell q = do
  update_expired_bookings env
  gets (λ s. paginate 20 q.page q.limit (booking_where spell q s) newest_first s.bookings)

-- `getAdminBookingById`
unfoldable pub get_admin_booking_by_id : Env → ℕ → Action Booking
get_admin_booking_by_id env booking_id = do
  update_expired_bookings env
  row ← gets (λ s. find_first (booking_is booking_id) s.bookings)
  or_throw row (AppError.not_found "Booking")
