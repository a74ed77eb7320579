-- ===== src/Schema/Enums.antt =====
-- The enumerations of prisma/schema.prisma, with the sets of values that `where` clauses name.
use hoyhel.Prelude.{Bool, true, false}

pub data UserRoleType : Type 0 where
  guest host admin property_manager support_agent : UserRoleType

pub data UserStatus : Type 0 where
  active suspended blocked banned deactivated pending_verification : UserStatus

pub data HostApplicationStatus : Type 0 where
  pending approved rejected : HostApplicationStatus

pub data PropertyStatus : Type 0 where
  draft pending_approval published unpublished : PropertyStatus
  suspended rejected removal_requested archived : PropertyStatus

pub data CancellationPolicy : Type 0 where
  flexible moderate strict : CancellationPolicy

pub data BookingStatus : Type 0 where
  pending_payment pending confirmed cancelled rejected : BookingStatus
  checked_in completed no_show refunded expired : BookingStatus

pub data PaymentStatus : Type 0 where
  pending processing success failed refunded partially_refunded : PaymentStatus

pub data PaymentMethodType : Type 0 where
  credit_card mpesa bank_transfer : PaymentMethodType

pub data PayoutStatus : Type 0 where
  pending processing completed failed : PayoutStatus

pub data NotificationPriority : Type 0 where
  low normal high critical : NotificationPriority

-- The notification types that the modelled code sends.
pub data NotificationType : Type 0 where
  host_application_submitted host_application_approved host_application_rejected : NotificationType
  property_submitted property_approved property_rejected : NotificationType
  property_removal_requested property_removal_approved : NotificationType
  property_removal_rejected : NotificationType
  booking_created booking_confirmed booking_cancelled : NotificationType
  payment_success refund_completed new_message : NotificationType
  account_suspended account_reactivated account_warned : NotificationType
  account_blocked account_banned account_restored : NotificationType

pub data WarningSeverity : Type 0 where
  low medium high severe : WarningSeverity

pub data ReportStatus : Type 0 where
  open_report under_review pending resolved dismissed : ReportStatus

pub UserRoleType-discrete : Discrete UserRoleType
UserRoleType-discrete = hlevel

pub HostApplicationStatus-discrete : Discrete HostApplicationStatus
HostApplicationStatus-discrete = hlevel

pub PropertyStatus-discrete : Discrete PropertyStatus
PropertyStatus-discrete = hlevel

pub BookingStatus-discrete : Discrete BookingStatus
BookingStatus-discrete = hlevel

pub PaymentStatus-discrete : Discrete PaymentStatus
PaymentStatus-discrete = hlevel

pub ReportStatus-discrete : Discrete ReportStatus
ReportStatus-discrete = hlevel

abbrev pub is_admin : UserRoleType → Bool
is_admin UserRoleType.admin = true
is_admin _ = false

abbrev pub is_host : UserRoleType → Bool
is_host UserRoleType.host = true
is_host _ = false

abbrev pub is_guest : UserRoleType → Bool
is_guest UserRoleType.guest = true
is_guest _ = false

abbrev pub is_published : PropertyStatus → Bool
is_published PropertyStatus.published = true
is_published _ = false

abbrev pub is_removal_requested : PropertyStatus → Bool
is_removal_requested PropertyStatus.removal_requested = true
is_removal_requested _ = false

abbrev pub is_success : PaymentStatus → Bool
is_success PaymentStatus.success = true
is_success _ = false

-- `status: { in: [PENDING_PAYMENT, PENDING] }`
abbrev pub is_hold : BookingStatus → Bool
is_hold BookingStatus.pending_payment = true
is_hold BookingStatus.pending = true
is_hold _ = false

-- `status: { in: [CONFIRMED, PENDING_PAYMENT, PENDING, CHECKED_IN] }`
abbrev pub is_active_booking : BookingStatus → Bool
is_active_booking BookingStatus.confirmed = true
is_active_booking BookingStatus.pending_payment = true
is_active_booking BookingStatus.pending = true
is_active_booking BookingStatus.checked_in = true
is_active_booking _ = false

-- `status: { in: [CONFIRMED, CHECKED_IN] }`
abbrev pub is_stay : BookingStatus → Bool
is_stay BookingStatus.confirmed = true
is_stay BookingStatus.checked_in = true
is_stay _ = false

-- `status: { in: [CONFIRMED, CHECKED_IN, COMPLETED] }`
abbrev pub is_earning : BookingStatus → Bool
is_earning BookingStatus.confirmed = true
is_earning BookingStatus.checked_in = true
is_earning BookingStatus.completed = true
is_earning _ = false

abbrev pub is_confirmed : BookingStatus → Bool
is_confirmed BookingStatus.confirmed = true
is_confirmed _ = false

abbrev pub is_completed : BookingStatus → Bool
is_completed BookingStatus.completed = true
is_completed _ = false

abbrev pub is_cancelled : BookingStatus → Bool
is_cancelled BookingStatus.cancelled = true
is_cancelled _ = false

abbrev pub is_expired : BookingStatus → Bool
is_expired BookingStatus.expired = true
is_expired _ = false

abbrev pub is_refunded : BookingStatus → Bool
is_refunded BookingStatus.refunded = true
is_refunded _ = false

abbrev pub is_payout_completed : PayoutStatus → Bool
is_payout_completed PayoutStatus.completed = true
is_payout_completed _ = false

-- `p.status === PENDING || p.status === PROCESSING`
abbrev pub is_payout_pending : PayoutStatus → Bool
is_payout_pending PayoutStatus.pending = true
is_payout_pending PayoutStatus.processing = true
is_payout_pending _ = false

abbrev pub is_application_pending : HostApplicationStatus → Bool
is_application_pending HostApplicationStatus.pending = true
is_application_pending _ = false
