-- ===== src/Schema/Database.antt =====
-- The database as one value, with the events emitted so far, and what the runtime supplies to one
-- request: the clock, fresh identifiers and random numbers.
use hoyhel.Prelude.{ℕ, ◌/◌, ◌*◌, List}
use hoyhel.Schema.Accounts.{
  User, UserSession, RefreshToken, OneTimeToken, HostApplication, UserWarning, UserReport, AuditLog,
}
use hoyhel.Schema.Listings.{Property, PropertyImage, Availability, PropertyStatusHistory, Favorite}
use hoyhel.Schema.Stays.{Booking, Payment, Refund, Payout, DiscountCode}
use hoyhel.Schema.Social.{Review, Conversation, Message, Notification, Event}

pub record Store : Type 0 where
  pub users : List User
  pub sessions : List UserSession
  pub refresh_tokens : List RefreshToken
  pub email_tokens : List OneTimeToken
  pub reset_tokens : List OneTimeToken
  pub host_applications : List HostApplication
  pub warnings : List UserWarning
  pub reports : List UserReport
  pub audit_logs : List AuditLog
  pub properties : List Property
  pub images : List PropertyImage
  pub availabilities : List Availability
  pub status_history : List PropertyStatusHistory
  pub favorites : List Favorite
  pub bookings : List Booking
  pub payments : List Payment
  pub refunds : List Refund
  pub payouts : List Payout
  pub discount_codes : List DiscountCode
  pub reviews : List Review
  pub conversations : List Conversation
  pub messages : List Message
  pub notifications : List Notification
  pub events : List Event

pub record Env : Type 0 where
  pub now : ℕ
  pub uuid : ℕ → ℕ
  pub random : ℕ → ℕ

-- 24 * 60 * 60 * 1000
abbrev pub day_ms : ℕ
day_ms = 86400000

-- 15 * 60 * 1000
abbrev pub hold_ms : ℕ
hold_ms = 900000

-- `today.setHours(0, 0, 0, 0)`, in a process whose time zone is UTC, and what a column that is a date
-- keeps of an instant.
abbrev pub start_of_day : ℕ → ℕ
start_of_day t = t / day_ms * day_ms
