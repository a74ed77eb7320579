-- ===== src/Reports/Filed.antt =====
-- What a report that is filed leads to, through its review.
use hoyhel.Prelude.{
  ℕ, ◌≡◌, ap, ◌∙◌, inl, inr, false, [], ◌∷◌, ◌++◌, Option, some, ◌==◌, ==_refl, find_first, Text,
  trim, is_empty, exists_row, find_first-concat, Option-cases, arith,
}
use hoyhel.Schema.{Store, Env, User, UserReport, ReportStatus}
use hoyhel.Service.{ok}
use hoyhel.Bookings.{user_is}
use hoyhel.Moderation.{report_is, review_report, update_report_status}
use hoyhel.Reports.{new_report, create_report}

-- A report that was filed: by whom, of whom, and what was written.
pub record IsFiled (env : Env) (reporter_id reported_user_id : ℕ) (reason : Text)
    (details : Option Text) (s t : Store) (r : UserReport) : Type 0 where
  pub reported : User
  pub known : find_first (user_is reported_user_id) s.users ≡ some reported
  pub apart : (reporter_id == reported_user_id) ≡ false
  pub worded : is_empty (trim reason) ≡ false
  pub row : r ≡ new_report env reporter_id reported_user_id reason details
  pub reports : t.reports ≡ s.reports ++ r ∷ []
  pub users : t.users ≡ s.users

create_report-IsFiled :
    (env : Env) (reporter_id reported_user_id : ℕ) (reason : Text) (details : Option Text)
    (s : Store) (r : UserReport)
    → (create_report env reporter_id reported_user_id reason details s).0 ≡ ok r
    → IsFiled env reporter_id reported_user_id reason details s
        (create_report env reporter_id reported_user_id reason details s).1
        r
unfolding create_report
create_report-IsFiled env reporter_id reported_user_id reason details s r e =
    elim (Option-cases (find_first (user_is reported_user_id) s.users)) [
      | inl stranger ↦ absurd (ground arith)
      | inr (u, known) ↦ record {
        reported = u;
        known = known;
        apart = ground arith;
        worded = ground arith;
        row = ground arith;
        reports = ground arith;
        users = ground arith;
      }
    ]

-- A report that is filed is of another user, who exists, with a reason, and is added with that reason, pending;
-- where its identifier is new, a review of it then is carried out and answers that report with the status and
-- the notes of the administrator.
pub report_reviewed :
    (env later : Env) (reporter_id reported_user_id admin_id : ℕ) (reason : Text)
    (details notes : Option Text) (status : ReportStatus) (s : Store) (r : UserReport)
    → exists_row (report_is (env.uuid 0)) s.reports ≡ false
    → (create_report env reporter_id reported_user_id reason details s).0 ≡ ok r
    → let t = (create_report env reporter_id reported_user_id reason details s).1 in
      IsFiled env reporter_id reported_user_id reason details s t r
      × ((update_report_status later admin_id r.id status notes t).0
          ≡ ok (review_report later admin_id status notes r))
unfolding update_report_status
report_reviewed env later reporter_id reported_user_id admin_id reason details notes status s r
      fresh e =
    let w = create_report-IsFiled env reporter_id reported_user_id reason details s r e in
    let mine = new_report env reporter_id reported_user_id reason details in
    let found =
      ap (find_first (report_is (env.uuid 0))) (w.reports ∙ ap (λ x. s.reports ++ x ∷ []) w.row)
      ∙ find_first-concat (report_is (env.uuid 0)) s.reports mine fresh (==_refl (env.uuid 0)) in
    (w, rw w.row (ground (arith, found)))
