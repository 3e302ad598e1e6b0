-- ===== src/Moderation/Justified/Calls.antt =====
-- Runs of `create` of apps/api/src/reports/reports.service.ts: what is hidden and suspended in the end.
use buyseekk.Prelude.{
  ℕ, refl, inl, inr, Option, List, [], ◌∷◌, ◌==◌, get_elem?, Text, Option-cases, Bool-cases,
}
use buyseekk.Moderation.Rows.{
  AutoAction, Report, Reporter, State, CreateReportDto, on_request, on_offer, on_user,
}
use buyseekk.Moderation.Thresholds.{evaluate}
use buyseekk.Moderation.Reports.{
  mark_first, file_report, Call, create_all, create_report, is_repeated, has_target, report_weight,
  meant_target, with_report,
}
use buyseekk.Moderation.Counting.{HasReporters, cons-HasReporters, mark-HasReporters}
use buyseekk.Moderation.Justified.{IsJustified, evaluate-IsJustified}

-- Reports that have the reporters of those before keep what was done on those.
more-IsJustified :
    (state : State) (reports : List Report)
    → ((id n : ℕ)
        → HasReporters n (on_request id) state.reports
        → HasReporters n (on_request id) reports)
    → ((id n : ℕ)
        → HasReporters n (on_offer id) state.reports
        → HasReporters n (on_offer id) reports)
    → ((id n : ℕ) → HasReporters n (on_user id) state.reports → HasReporters n (on_user id) reports)
    → IsJustified state
    → IsJustified (record state { reports = reports })
more-IsJustified state reports r o u h = record {
  requests_held = λ j c row hidden. r j 15 (h.requests_held j c row hidden);
  offers_held = λ j c row hidden. o j 15 (h.offers_held j c row hidden);
  suspensions_earned = λ j a row suspended. u j 25 (h.suspensions_earned j a row suspended);
}

filed-IsJustified :
    (state : State) (r : Report)
    → IsJustified state
    → IsJustified (record state { reports = r ∷ state.reports })
filed-IsJustified state r =
    more-IsJustified state (r ∷ state.reports)
      (λ id n. cons-HasReporters (on_request id) r state.reports)
      (λ id n. cons-HasReporters (on_offer id) r state.reports)
      (λ id n. cons-HasReporters (on_user id) r state.reports)

marked-IsJustified :
    (state : State) (actions : List AutoAction)
    → IsJustified state
    → IsJustified (record state { reports = mark_first actions state.reports })
marked-IsJustified state actions =
    more-IsJustified state (mark_first actions state.reports)
      (λ id n. mark-HasReporters (on_request id) actions (λ r. refl) state.reports)
      (λ id n. mark-HasReporters (on_offer id) actions (λ r. refl) state.reports)
      (λ id n. mark-HasReporters (on_user id) actions (λ r. refl) state.reports)

file_report-IsJustified :
    (reporter_id : ℕ) (reporter : Reporter) (dto : CreateReportDto) (ip : Option Text)
    (state : State)
    → IsJustified state
    → IsJustified (file_report reporter_id reporter dto ip state)
unfolding file_report
file_report-IsJustified reporter_id reporter dto ip state h =
    elim (Bool-cases (report_weight reporter dto ip state.reports == 1)) [
      | inl t ↦ rw t (
          marked-IsJustified (evaluate (meant_target dto state) filed).1
            (evaluate (meant_target dto state) filed).0
            (evaluate-IsJustified (meant_target dto state) filed (filed-IsJustified state _ h)))
      | inr f ↦ rw f (filed-IsJustified state _ h)
    ]
  where
    filed : State
    filed = with_report reporter_id dto (report_weight reporter dto ip state.reports) ip state

create_report-IsJustified :
    (reporter_id : ℕ) (dto : CreateReportDto) (ip : Option Text) (state : State)
    → IsJustified state
    → IsJustified (create_report reporter_id dto ip state).1
unfolding create_report
create_report-IsJustified reporter_id dto ip state h = elim (Bool-cases (has_target dto)) [
  | inr t ↦ rw t h
  | inl t ↦ elim (Bool-cases (is_repeated reporter_id dto state.reports)) [
    | inl again ↦ rw t (rw again h)
    | inr fresh ↦ elim (Option-cases (get_elem? state.accounts reporter_id)) [
      | inl e ↦ rw t (rw fresh (rw e h))
      | inr (reporter, e) ↦
          rw t (rw fresh (rw e (file_report-IsJustified reporter_id reporter dto ip state h)))
    ]
  ]
]

-- Whatever users report, in any number and order, whether a call fails or not: from a state in which at least 15
-- different users reported each hidden request and each hidden offer with weight, and at least 25 each suspended
-- account, the calls lead to such a state.
pub create_all-IsJustified :
    (calls : List Call) (state : State) → IsJustified state → IsJustified (create_all calls state)
create_all-IsJustified [] state h = h
create_all-IsJustified ((reporter_id, (dto, ip)) ∷ calls) state h =
    create_all-IsJustified calls (create_report reporter_id dto ip state).1
      (create_report-IsJustified reporter_id dto ip state h)
