-- ===== src/Moderation/Filed.antt =====
-- What `create` of apps/api/src/reports/reports.service.ts leaves in the table of the reports.
use buyseekk.Prelude.{
  ℕ, ◌≡◌, ◌⊎◌, refl, inl, inr, Bool, true, false, not, Option, none, some, if◌then◌else◌, List, [],
  ◌∷◌, ◌==◌, get_elem?, Text, arith, Bool-cases,
}
use buyseekk.Shared.Effect.{Outcome, ok, err}
use buyseekk.Moderation.Rows.{AutoAction, Reporter, ReportError, State, CreateReportDto}
use buyseekk.Moderation.Thresholds.{
  evaluate_request, evaluate_offer, evaluate_user, evaluate_if, evaluate,
}
use buyseekk.Moderation.Reports.{
  file_report, create_report, is_repeated, has_target, report_weight, meant_target, new_report,
  with_report,
}

abbrev KeepsReports : (State → List AutoAction × State) → Type 0
KeepsReports m = (state : State) → (m state).1.reports ≡ state.reports

evaluate_request-reports : (id : ℕ) → KeepsReports (evaluate_request id)
unfolding evaluate_request
evaluate_request-reports id state = ground arith

evaluate_offer-reports : (id : ℕ) → KeepsReports (evaluate_offer id)
unfolding evaluate_offer
evaluate_offer-reports id state = ground arith

evaluate_user-reports : (id : ℕ) → KeepsReports (evaluate_user id)
unfolding evaluate_user
evaluate_user-reports id state = ground arith

evaluate_if-reports :
    (o : Option ℕ) (f : ℕ → State → List AutoAction × State)
    → ((id : ℕ) → KeepsReports (f id))
    → (before : List AutoAction × State) → (evaluate_if o f before).1.reports ≡ before.1.reports
evaluate_if-reports none f k (actions, state) = refl
evaluate_if-reports (some id) f k (actions, state) = k id state

pub evaluate-reports : (dto : CreateReportDto) → KeepsReports (evaluate dto)
unfolding evaluate
evaluate-reports dto state = cc (
  evaluate_if-reports dto.request_id evaluate_request evaluate_request-reports ([], state),
  evaluate_if-reports dto.offer_id evaluate_offer evaluate_offer-reports
      (evaluate_if dto.request_id evaluate_request ([], state)),
  evaluate_if-reports dto.reported_user_id evaluate_user evaluate_user-reports (
      evaluate_if dto.offer_id evaluate_offer
        (evaluate_if dto.request_id evaluate_request ([], state))),
)

-- The reports after one that is accepted: it stands first, and the others are as before.
pub file_report-reports :
    (reporter_id : ℕ) (reporter : Reporter) (dto : CreateReportDto) (ip : Option Text)
    (state : State)
    → (actions : List AutoAction) × ((file_report reporter_id reporter dto ip state).reports
        ≡ new_report reporter_id dto (report_weight reporter dto ip state.reports) ip state actions
          ∷ state.reports)
unfolding file_report
file_report-reports reporter_id reporter dto ip state =
    elim (Bool-cases (report_weight reporter dto ip state.reports == 1)) [
      | inl t ↦ (
        (evaluate (meant_target dto state) filed).0,
        rw t (rw (evaluate-reports (meant_target dto state) filed) refl),
      )
      | inr f ↦ ([], rw f refl)
    ]
  where
    filed : State
    filed = with_report reporter_id dto (report_weight reporter dto ip state.reports) ip state

-- The tests of `create`, apart from what they test.
guarded-eq-ok :
    (has again : Bool) (o : Option Reporter) (f : Reporter → State) (state after : State)
    → (let out : Outcome ReportError (Unit {0}) × State =
          if not has
          then (err ReportError.no_target, state)
          else if again
          then (err ReportError.already_reported, state)
          else elim o [
            | none ↦ (err ReportError.broken_reference, state)
            | some r ↦ (ok tt, f r)
          ] in
        out ≡ (ok tt, after))
    → (has ≡ true) × (again ≡ false) × (r : Reporter) × (o ≡ some r) × (after ≡ f r)
guarded-eq-ok false again o f state after h = cc
guarded-eq-ok true true o f state after h = cc
guarded-eq-ok true false none f state after h = cc
guarded-eq-ok true false (some r) f state after h = (refl, refl, r, refl, cc)

pub create_report-eq-ok :
    (reporter_id : ℕ) (dto : CreateReportDto) (ip : Option Text) (state after : State)
    → create_report reporter_id dto ip state ≡ (ok tt, after)
    → (has_target dto ≡ true)
      × (is_repeated reporter_id dto state.reports ≡ false)
      × (reporter : Reporter) × (get_elem? state.accounts reporter_id ≡ some reporter)
      × (after ≡ file_report reporter_id reporter dto ip state)
unfolding create_report
create_report-eq-ok reporter_id dto ip state after h =
    guarded-eq-ok (has_target dto) (is_repeated reporter_id dto state.reports)
      (get_elem? state.accounts reporter_id)
      (λ reporter. file_report reporter_id reporter dto ip state) state after h

pub create_report-rows :
    (reporter_id : ℕ) (dto : CreateReportDto) (ip : Option Text) (state : State)
    → ((create_report reporter_id dto ip state).1 ≡ state)
      ⊎ ((reporter : Reporter) × (get_elem? state.accounts reporter_id ≡ some reporter)
          × ((create_report reporter_id dto ip state).1
              ≡ file_report reporter_id reporter dto ip state))
unfolding create_report
create_report-rows reporter_id dto ip state =
    guarded (has_target dto) (is_repeated reporter_id dto state.reports)
      (get_elem? state.accounts reporter_id) refl
  where
    guarded :
        (has again : Bool) (o : Option Reporter)
        → get_elem? state.accounts reporter_id ≡ o
        → let out : Outcome ReportError (Unit {0}) × State =
            if not has
            then (err ReportError.no_target, state)
            else if again
            then (err ReportError.already_reported, state)
            else elim o [
              | none ↦ (err ReportError.broken_reference, state)
              | some reporter ↦ (ok tt, file_report reporter_id reporter dto ip state)
            ] in
          (out.1 ≡ state)
          ⊎ ((reporter : Reporter) × (get_elem? state.accounts reporter_id ≡ some reporter)
              × (out.1 ≡ file_report reporter_id reporter dto ip state))
    guarded false again o e = inl refl
    guarded true true o e = inl refl
    guarded true false none e = inl refl
    guarded true false (some reporter) e = inr (reporter, e, refl)
