-- ===== src/Moderation/Abuse/Again.antt =====
-- `create` of apps/api/src/reports/reports.service.ts: the same report a second time.
use buyseekk.Prelude.{ℕ, ◌≡◌, true, Option, List, ◌∷◌, Text, arith}
use buyseekk.Shared.Effect.{ok, err}
use buyseekk.Moderation.Rows.{AutoAction, Report, ReportError, State, CreateReportDto}
use buyseekk.Moderation.Reports.{
  create_report, is_repeated, has_target, reported_user, report_weight, new_report, known_id,
  primary_target_where,
}
use buyseekk.Moderation.Filed.{file_report-reports, create_report-eq-ok}

fits_again :
    (reporter_id : ℕ) (dto : CreateReportDto) (state : State) (weight : ℕ) (ip : Option Text)
    (actions : List AutoAction) (rs : List Report)
    → has_target dto ≡ true
    → known_id state.accounts dto.reported_user_id ≡ dto.reported_user_id
    → is_repeated reporter_id dto (new_report reporter_id dto weight ip state actions ∷ rs) ≡ true
unfolding primary_target_where reported_user
fits_again reporter_id dto state weight ip actions rs h known = ground arith

-- Nobody reports a content twice: after a report that is accepted, the same user's report of the same
-- targets, from any address, is refused as already made and changes nothing. The reported user, when one is named, has
-- to exist.
pub create_report_again :
    (reporter_id : ℕ) (dto : CreateReportDto) (ip ip' : Option Text) (state after : State)
    → create_report reporter_id dto ip state ≡ (ok tt, after)
    → known_id state.accounts dto.reported_user_id ≡ dto.reported_user_id
    → create_report reporter_id dto ip' after ≡ (err ReportError.already_reported, after)
unfolding create_report
create_report_again reporter_id dto ip ip' state after h known =
    let (target, fresh, reporter, e, made) = create_report-eq-ok reporter_id dto ip state after h in
    let (actions, rows) = file_report-reports reporter_id reporter dto ip state in
    ground (
      arith,
      fits_again reporter_id dto state (report_weight reporter dto ip state.reports) ip actions
          state.reports target known,
    )
