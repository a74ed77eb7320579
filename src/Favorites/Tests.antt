-- ===== src/Favorites/Tests.antt =====
-- Witnesses and tests for favourites.
use hoyhel.Prelude.{◌≡◌, ◌⊎◌, true, false}
use hoyhel.Service.{AppError, ok, err}
use hoyhel.Favorites.{toggle_favorite}
use hoyhel.Favorites.Toggle.{liked, flip, can_toggle, toggle-flip}
use hoyhel.Samples.{shop}

toggle-flip_example :
    let (out, t) = toggle_favorite 2 50 shop in
    ((can_toggle 2 50 shop ≡ true)
      × (out ≡ ok (liked t 2 50))
      × (liked t 3 50 ≡ flip 2 50 (liked shop) 3 50))
    ⊎ ((can_toggle 2 50 shop ≡ false) × (out ≡ err AppError.reference_missing) × (t ≡ shop))
toggle-flip_example = toggle-flip 2 50 3 50 shop
