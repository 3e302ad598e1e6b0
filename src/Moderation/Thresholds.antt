-- ===== src/Moderation/Thresholds.antt =====
-- The thresholds of apps/api/src/reports/moderation.config.ts and what apps/api/src/reports/reports.service.ts does at them.
use buyseekk.Prelude.{
  ℕ, ◌+◌, Bool, true, not, Option, none, some, List, [], ◌∷◌, ◌++◌, ◌==◌, ◌&&◌, ◌||◌, leb,
  get_elem?, modify, some_of, if◌then◌else◌,
}
use buyseekk.Access.{is_admin}
use buyseekk.Moderation.Rows.{
  AutoAction, Content, CreateReportDto, Report, State, on_offer, on_request, on_user,
}

-- MODERATION_THRESHOLDS of moderation.config.ts
abbrev pub review_required : ℕ
review_required = 10

abbrev pub hide_content : ℕ
hide_content = 15

abbrev pub suspend_user : ℕ
suspend_user = 25

-- `groupBy(['reporterId'])` over the reports with weight that fit.
unfoldable pub count_unique_reporters : (Report → Bool) → List Report → ℕ
count_unique_reporters p [] = 0
count_unique_reporters p (r ∷ rs) =
    let rest = count_unique_reporters p rs in
    if p r
      && leb 1 r.weight
      && not (some_of (λ s. p s && leb 1 s.weight && s.reporter_id == r.reporter_id) rs)
    then 1 + rest
    else rest

pub data Verdict : Type 0 where
  hide review : Verdict

-- The two thresholds of `evaluateContent`.
unfoldable pub verdict : ℕ → Content → Option Verdict
verdict count c =
    if leb hide_content count && not c.hidden_by_moderation
    then some Verdict.hide
    else if leb review_required count && not c.moderation_review_required
    then some Verdict.review
    else none

abbrev pub judged : Verdict → Content → Content
judged Verdict.hide c = record c { hidden_by_moderation = true; moderation_review_required = true }
judged Verdict.review c = record c { moderation_review_required = true }

abbrev log_action : AutoAction → ℕ → State → State
log_action a user_id state = record state { log = state.log ++ (a, user_id) ∷ [] }

abbrev request_action : Verdict → AutoAction
request_action Verdict.hide = AutoAction.auto_hide_request
request_action Verdict.review = AutoAction.auto_review_triggered

abbrev offer_action : Verdict → AutoAction
offer_action Verdict.hide = AutoAction.auto_hide_offer
offer_action Verdict.review = AutoAction.auto_review_triggered

unfoldable pub evaluate_request : ℕ → State → List AutoAction × State
unfolding count_unique_reporters verdict
evaluate_request id state = elim (get_elem? state.requests id) [
  | none ↦ ([], state)
  | some c ↦ elim (verdict (count_unique_reporters (on_request id) state.reports) c) [
    | none ↦ ([], state)
    | some v ↦ (
      request_action v ∷ [],
      log_action (request_action v) c.owner_id
          (record state { requests = modify state.requests id (judged v) }),
    )
  ]
]

unfoldable pub evaluate_offer : ℕ → State → List AutoAction × State
unfolding count_unique_reporters verdict
evaluate_offer id state = elim (get_elem? state.offers id) [
  | none ↦ ([], state)
  | some c ↦ elim (verdict (count_unique_reporters (on_offer id) state.reports) c) [
    | none ↦ ([], state)
    | some v ↦ (
      offer_action v ∷ [],
      log_action (offer_action v) c.owner_id
          (record state { offers = modify state.offers id (judged v) }),
    )
  ]
]

-- An administrator and a blocked account are left alone.
unfoldable pub evaluate_user : ℕ → State → List AutoAction × State
unfolding count_unique_reporters
evaluate_user id state = elim (get_elem? state.accounts id) [
  | none ↦ ([], state)
  | some a ↦
      if is_admin a.role || a.blocked
      then ([], state)
      else if leb suspend_user (count_unique_reporters (on_user id) state.reports)
          && not a.suspended
      then (
        AutoAction.auto_suspend_user ∷ [],
        log_action AutoAction.auto_suspend_user id (record state {
          accounts = modify state.accounts id (λ b. record b { suspended = true });
        }),
      )
      else ([], state)
]

abbrev pub evaluate_if :
    Option ℕ
    → (ℕ → State → List AutoAction × State)
    → List AutoAction × State
    → List AutoAction × State
evaluate_if none f (actions, state) = (actions, state)
evaluate_if (some id) f (actions, state) =
    let (more, state') = f id state in (actions ++ more, state')

-- What a report with weight sets off, in the order of the code.
unfoldable pub evaluate : CreateReportDto → State → List AutoAction × State
unfolding evaluate_request evaluate_offer evaluate_user
evaluate dto state = evaluate_if dto.reported_user_id evaluate_user (
    evaluate_if dto.offer_id evaluate_offer
      (evaluate_if dto.request_id evaluate_request ([], state)))
