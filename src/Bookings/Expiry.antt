-- ===== src/Bookings/Expiry.antt =====
-- Expiry of abandoned holds and completion of stays that are over.
use hoyhel.Prelude.{ℕ, ◌≡◌, refl, ap, count, count-update_many_zero, arith}
use hoyhel.Schema.{Store, Env, Booking}
use hoyhel.Service.{ok}
use hoyhel.Bookings.{is_abandoned, expire, expire_pending_bookings}
use hoyhel.Bookings.Cancel.{is_over, complete, update_expired_bookings}
use hoyhel.Bookings.Live.{Releases, NoClash, NoClash-update_many}

expire-Releases : (t now : ℕ) (b : Booking) → Releases t (expire now) b
expire-Releases t now b = ground arith

complete-Releases : (t : ℕ) (b : Booking) → Releases t complete b
complete-Releases t b = ground arith

pub expire_pending-NoClash :
    (t : ℕ) (env : Env) (s : Store)
    → NoClash t s.bookings
    → NoClash t (expire_pending_bookings env s).1.bookings
unfolding expire_pending_bookings
expire_pending-NoClash t env s h =
    NoClash-update_many t (is_abandoned env.now s.payments) (expire env.now) s.bookings
      (λ b _. expire-Releases t env.now b) h

pub update_expired-NoClash :
    (t : ℕ) (env : Env) (s : Store)
    → NoClash t s.bookings
    → NoClash t (update_expired_bookings env s).1.bookings
unfolding update_expired_bookings
update_expired-NoClash t env s h =
    NoClash-update_many t (is_over env.now) complete s.bookings (λ b _. complete-Releases t b) h

-- The sweep leaves no abandoned hold behind, and counts what it changed: a second sweep at the same
-- instant answers 0.
pub expire_pending_clears :
    (env : Env) (s : Store)
    → let t = (expire_pending_bookings env s).1 in
      (count (is_abandoned env.now t.payments) t.bookings ≡ 0)
      × ((expire_pending_bookings env t).0 ≡ ok 0)
      × (t.payments ≡ s.payments)
unfolding expire_pending_bookings
expire_pending_clears env s =
    let none_left =
      count-update_many_zero (is_abandoned env.now s.payments) (is_abandoned env.now s.payments)
        (expire env.now) s.bookings (λ b _. ground arith) (λ b e. e) in
    (none_left, ap ok none_left, refl)
