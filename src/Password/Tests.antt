-- ===== src/Password/Tests.antt =====
-- Witnesses and tests for passwords.
use hoyhel.Prelude.{◌≡◌, refl, [], ◌∷◌, Text, exists_row}
use hoyhel.Service.{ok}
use hoyhel.Password.{validate_password_complexity}

-- Passw0rd!
abbrev good : Text
good = 80 ∷ 97 ∷ 115 ∷ 115 ∷ 119 ∷ 48 ∷ 114 ∷ 100 ∷ 33 ∷ []

good_accepted : validate_password_complexity good ≡ ok tt
unfolding validate_password_complexity exists_row
good_accepted = refl
