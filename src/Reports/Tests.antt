-- ===== src/Reports/Tests.antt =====
-- Witnesses for reports.
use hoyhel.Prelude.{◌≡◌, refl, [], ◌∷◌, none, false, find_first, exists_row, trim}
use hoyhel.Service.{ok}
use hoyhel.Moderation.{report_is}
use hoyhel.Reports.{new_report, create_report}
use hoyhel.Samples.{env, shop}

filed :
    (create_report env 2 1 (114 ∷ 32 ∷ []) none shop).0
    ≡ ok (new_report env 2 1 (114 ∷ 32 ∷ []) none)
unfolding create_report find_first trim
filed = refl

no_report : exists_row (report_is 900) shop.reports ≡ false
unfolding exists_row
no_report = refl
