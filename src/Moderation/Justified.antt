-- ===== src/Moderation/Justified.antt =====
-- What `create` of apps/api/src/reports/reports.service.ts hides and suspends.
pub mod Calls
use buyseekk.Prelude.{
  ℕ, ◌≤◌, ◌≡◌, refl, inl, inr, Bool, true, false, not, Option, none, some, List, [], ◌∷◌, ◌++◌,
  ◌==◌, ◌||◌, ◌&&◌, leb, get_elem?, modify, get_elem?-modify_cases, Text, arith, Option-cases,
  Bool-cases, subst,
}
use buyseekk.Access.{is_admin}
use buyseekk.Moderation.Rows.{
  AutoAction, Report, Reporter, Content, State, CreateReportDto, on_request, on_offer, on_user,
}
use buyseekk.Moderation.Thresholds.{
  Verdict, hide_content, suspend_user, count_unique_reporters, verdict, judged, evaluate_request,
  evaluate_offer, evaluate_user, evaluate_if, evaluate,
}
use buyseekk.Moderation.Reports.{
  mark_first, file_report, create_report, is_repeated, has_target, reported_user, report_weight,
  meant_target, with_report, with_mark,
}
use buyseekk.Moderation.Counting.{HasReporters, count-HasReporters}

-- What is hidden was reported by fifteen different users, and who is suspended by twenty-five.
abbrev pub IsHeld : (on : ℕ → Report → Bool) → List Report → List Content → Type 0
IsHeld on reports contents =
    (j : ℕ) (c : Content)
    → get_elem? contents j ≡ some c
    → c.hidden_by_moderation ≡ true
    → HasReporters 15 (on j) reports

abbrev pub IsEarned : List Report → List Reporter → Type 0
IsEarned reports accounts =
    (j : ℕ) (a : Reporter)
    → get_elem? accounts j ≡ some a
    → a.suspended ≡ true
    → HasReporters 25 (on_user j) reports

pub record IsJustified (state : State) : Type 0 where
  pub requests_held : IsHeld on_request state.reports state.requests
  pub offers_held : IsHeld on_offer state.reports state.offers
  pub suspensions_earned : IsEarned state.reports state.accounts

judged-IsHeld :
    (on : ℕ → Report → Bool) (reports : List Report) (contents : List Content) (id : ℕ)
    {c : Content} (v : Verdict)
    → get_elem? contents id ≡ some c
    → verdict (count_unique_reporters (on id) reports) c ≡ some v
    → IsHeld on reports contents
    → IsHeld on reports (modify contents id (judged v))
unfolding verdict
judged-IsHeld on reports contents id {c} v at e held j b row hidden =
    elim (get_elem?-modify_cases contents id j (judged v) row) [
      | inl (same, (a, old, made)) ↦ earned v e a old made same
      | inr (ne, old) ↦ held j b old hidden
    ]
  where
    reached :
        verdict (count_unique_reporters (on id) reports) c ≡ some Verdict.hide
        → 15 ≤ count_unique_reporters (on id) reports
    reached e = ground arith

    earned :
        (v : Verdict)
        → verdict (count_unique_reporters (on id) reports) c ≡ some v
        → (a : Content) → get_elem? contents id ≡ some a
        → b ≡ judged v a
        → id ≡ j
        → HasReporters 15 (on j) reports
    earned Verdict.hide e a old made same =
        subst (λ k. HasReporters 15 (on k) reports) same
          (count-HasReporters (on id) 15 reports (reached e))
    earned Verdict.review e a old made same =
        held j a (subst (λ k. get_elem? contents k ≡ some a) same old) (ground arith)

suspended-IsEarned :
    (reports : List Report) (accounts : List Reporter) (id : ℕ)
    → 25 ≤ count_unique_reporters (on_user id) reports
    → IsEarned reports accounts
    → IsEarned reports (modify accounts id (λ b. record b { suspended = true }))
suspended-IsEarned reports accounts id enough earned j b row suspended =
    elim (get_elem?-modify_cases accounts id j (λ b. record b { suspended = true }) row) [
      | inl (same, _) ↦
          subst (λ k. HasReporters 25 (on_user k) reports) same
            (count-HasReporters (on_user id) 25 reports enough)
      | inr (ne, old) ↦ earned j b old suspended
    ]

abbrev pub Keeps : (State → List AutoAction × State) → Type 0
Keeps m = (state : State) → IsJustified state → IsJustified (m state).1

evaluate_request-IsJustified : (id : ℕ) → Keeps (evaluate_request id)
unfolding evaluate_request
evaluate_request-IsJustified id state h = elim (Option-cases (get_elem? state.requests id)) [
  | inl e ↦ rw (e, evaluate_request) h
  | inr (c, e) ↦
      elim (Option-cases (verdict (count_unique_reporters (on_request id) state.reports) c)) [
        | inl n ↦ rw (e, evaluate_request) (rw n h)
        | inr (v, w) ↦
            rw (e, evaluate_request)
              (rw w (record {
                requests_held =
                    judged-IsHeld on_request state.reports state.requests id v e w h.requests_held;
                offers_held = h.offers_held;
                suspensions_earned = h.suspensions_earned;
              }))
      ]
]

evaluate_offer-IsJustified : (id : ℕ) → Keeps (evaluate_offer id)
unfolding evaluate_offer
evaluate_offer-IsJustified id state h = elim (Option-cases (get_elem? state.offers id)) [
  | inl e ↦ rw (e, evaluate_offer) h
  | inr (c, e) ↦
      elim (Option-cases (verdict (count_unique_reporters (on_offer id) state.reports) c)) [
        | inl n ↦ rw (e, evaluate_offer) (rw n h)
        | inr (v, w) ↦
            rw (e, evaluate_offer)
              (rw w (record {
                requests_held = h.requests_held;
                offers_held =
                    judged-IsHeld on_offer state.reports state.offers id v e w h.offers_held;
                suspensions_earned = h.suspensions_earned;
              }))
      ]
]

evaluate_user-IsJustified : (id : ℕ) → Keeps (evaluate_user id)
unfolding evaluate_user
evaluate_user-IsJustified id state h = elim (Option-cases (get_elem? state.accounts id)) [
  | inl e ↦ rw (e, evaluate_user) h
  | inr (a, e) ↦ elim (Bool-cases (is_admin a.role || a.blocked)) [
    | inl t ↦ rw (e, evaluate_user) (rw t h)
    | inr t ↦
        elim (Bool-cases (
          leb suspend_user (count_unique_reporters (on_user id) state.reports)
          && not a.suspended)) [
            | inr f ↦ rw (e, evaluate_user) (rw t (rw f h))
            | inl f ↦
                rw (e, evaluate_user)
                  (rw t (
                    rw f (record {
                      requests_held = h.requests_held;
                      offers_held = h.offers_held;
                      suspensions_earned =
                          suspended-IsEarned state.reports state.accounts id (ground arith)
                            h.suspensions_earned;
                    })))
          ]
  ]
]

evaluate_if-IsJustified :
    (o : Option ℕ) (f : ℕ → State → List AutoAction × State)
    → ((id : ℕ) → Keeps (f id))
    → (before : List AutoAction × State) → IsJustified before.1
    → IsJustified (evaluate_if o f before).1
evaluate_if-IsJustified none f k (actions, state) h = h
evaluate_if-IsJustified (some id) f k (actions, state) h = k id state h

pub evaluate-IsJustified : (dto : CreateReportDto) → Keeps (evaluate dto)
unfolding evaluate
evaluate-IsJustified dto state h =
    evaluate_if-IsJustified dto.reported_user_id evaluate_user evaluate_user-IsJustified _ (
      evaluate_if-IsJustified dto.offer_id evaluate_offer evaluate_offer-IsJustified _ (
        evaluate_if-IsJustified dto.request_id evaluate_request evaluate_request-IsJustified
          ([], state) h))
