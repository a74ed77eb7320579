-- ===== src/Password.antt =====
-- backend/src/utils/password.ts and backend/src/utils/jwt.ts. The hash function of bcryptjs and the tokens of jsonwebtoken are
-- parameters: the laws that a theorem needs of them are its hypotheses.
pub mod Complexity
mod Tests
use hoyhel.Prelude.{
  ℕ, Bool, true, false, not, ◌&&◌, ◌||◌, List, [], ◌∷◌, Option, none, some, ◌==◌, leb, ltb,
  if◌then◌else◌, length, exists_row, Text,
}
use hoyhel.Schema.{UserRoleType}
use hoyhel.Service.{AppError, Result, ok, err}

pub record JwtPayload : Type 0 where
  pub user_id : ℕ
  pub email : Text
  pub roles : List UserRoleType

pub record Crypto : Type 0 where
  -- bcrypt.hash, of a salt and a password
  pub hash : ℕ → Text → ℕ
  -- bcrypt.compare
  pub matches : Text → ℕ → Bool
  -- jwt.sign of the payload and the time of signing
  pub sign_access : JwtPayload → ℕ → ℕ
  pub sign_refresh : ℕ → ℕ → ℕ
  -- jwt.verify of a token at a time: the user, if the token is good
  pub verify_refresh : ℕ → ℕ → Option ℕ

abbrev pub is_upper : ℕ → Bool
is_upper c = leb b'A' c && leb c b'Z'

abbrev pub is_lower : ℕ → Bool
is_lower c = leb b'a' c && leb c b'z'

abbrev pub is_digit : ℕ → Bool
is_digit c = leb b'0' c && leb c b'9'

-- The class of the last test: the printable ASCII characters that are no letter, digit or space, but
-- for the backquote and the tilde.
abbrev pub is_special : ℕ → Bool
is_special c =
    (leb 33 c && leb c 47)
    || (leb 58 c && leb c 64)
    || (leb 91 c && leb c 95)
    || (leb 123 c && leb c 125)

-- `validatePasswordComplexity`
unfoldable pub validate_password_complexity : Text → Result (Unit {0})
validate_password_complexity p =
    if ltb (length p) 8
    then err (AppError.validation "Password must be at least 8 characters long")
    else if not (exists_row is_upper p)
    then err (AppError.validation "Password must contain at least one uppercase letter")
    else if not (exists_row is_lower p)
    then err (AppError.validation "Password must contain at least one lowercase letter")
    else if not (exists_row is_digit p)
    then err (AppError.validation "Password must contain at least one number")
    else if not (exists_row is_special p)
    then err (AppError.validation "Password must contain at least one special character")
    else ok tt

-- `hashPassword`, with the salt that bcrypt draws
unfoldable pub hash_password : Crypto → ℕ → Text → Result ℕ
unfolding validate_password_complexity
hash_password c salt p = elim (validate_password_complexity p) [
  | ok _ ↦ ok (c.hash salt p)
  | err e ↦ err e
]
