-- ===== src/Password/Complexity.antt =====
-- When a password is accepted.
use hoyhel.Prelude.{◌≡◌, true, ◌↔◌, ◌≤◌, length, exists_row, arith, Text}
use hoyhel.Service.{ok}
use hoyhel.Password.{is_upper, is_lower, is_digit, is_special, validate_password_complexity}

-- A password is accepted just when it has eight characters or more, an upper-case letter, a lower-case
-- letter, a digit and a special character.
pub validate_iff :
    (p : Text)
    → (validate_password_complexity p ≡ ok tt) ↔ (
        (8 ≤ length p)
        × (exists_row is_upper p ≡ true)
        × (exists_row is_lower p ≡ true)
        × (exists_row is_digit p ≡ true)
        × (exists_row is_special p ≡ true))
unfolding validate_password_complexity
validate_iff p = (
  λ e. (ground arith, ground arith, ground arith, ground arith, ground arith),
  λ (n, u, l, d, x). ground arith,
)
