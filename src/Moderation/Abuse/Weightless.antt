-- ===== src/Moderation/Abuse/Weightless.antt =====
-- `create` of apps/api/src/reports/reports.service.ts: the reports without weight.
use buyseekk.Prelude.{
  ℕ, ◌≡◌, ◌⊎◌, refl, inl, inr, sym, subst, ◌∙◌, Bool, true, false, not, Option, none, some, List,
  ◌∷◌, ◌&&◌, get_elem?, some_of, is_empty, Text, arith,
}
use buyseekk.Moderation.Rows.{Report, Reporter, State, CreateReportDto}
use buyseekk.Moderation.Thresholds.{count_unique_reporters}
use buyseekk.Moderation.Reports.{
  file_report, create_report, report_weight, with_report, is_eligible, same_address,
  content_target_where,
}
use buyseekk.Moderation.Filed.{create_report-rows}

unweighted :
    (reporter_id : ℕ) (reporter : Reporter) (dto : CreateReportDto) (ip : Option Text)
    (state : State)
    → report_weight reporter dto ip state.reports ≡ 0
    → file_report reporter_id reporter dto ip state ≡ with_report reporter_id dto 0 ip state
unfolding file_report
unweighted reporter_id reporter dto ip state h = rw h refl

-- What automatic moderation reads of a state: all but the rows of the reports, of which it reads the counts.
pub record IsUntouched (state after : State) : Type 0 where
  pub same_accounts : after.accounts ≡ state.accounts
  pub same_requests : after.requests ≡ state.requests
  pub same_offers : after.offers ≡ state.offers
  pub same_log : after.log ≡ state.log
  pub same_counts :
      (p : Report → Bool)
      → count_unique_reporters p after.reports ≡ count_unique_reporters p state.reports

-- What stands in a table for a report without weight.
count_unique_reporters-weightless :
    (p : Report → Bool) (r : Report) (rs : List Report)
    → r.weight ≡ 0
    → count_unique_reporters p (r ∷ rs) ≡ count_unique_reporters p rs
unfolding count_unique_reporters
count_unique_reporters-weightless p r rs h = ground arith

abbrev address_counted : Option Text → CreateReportDto → List Report → Bool
address_counted none dto reports = false
address_counted (some a) dto reports =
    not (is_empty a) && some_of (same_address (content_target_where dto) a) reports

report_weight-zero :
    (reporter : Reporter) (dto : CreateReportDto) (ip : Option Text) (reports : List Report)
    → (is_eligible reporter ≡ false) ⊎ (address_counted ip dto reports ≡ true)
    → report_weight reporter dto ip reports ≡ 0
unfolding report_weight
report_weight-zero reporter dto none reports h = ground arith
report_weight-zero reporter dto (some a) reports h = ground arith

-- A report of someone who is not verified, is blocked or is suspended, and one from an address that already counts
-- for the content, hides nothing, suspends nobody and logs nothing, and no count of reporters changes,
-- whatever is counted.
pub create_report_weightless :
    (reporter_id : ℕ) (reporter : Reporter) (dto : CreateReportDto) (ip : Option Text)
    (state : State)
    → get_elem? state.accounts reporter_id ≡ some reporter
    → (is_eligible reporter ≡ false) ⊎ (address_counted ip dto state.reports ≡ true)
    → IsUntouched state (create_report reporter_id dto ip state).1
create_report_weightless reporter_id reporter dto ip state e h =
    elim (create_report-rows reporter_id dto ip state) [
      | inl same ↦ subst (IsUntouched state) (sym same) (record {
        same_accounts = refl;
        same_requests = refl;
        same_offers = refl;
        same_log = refl;
        same_counts = λ p. refl;
      })
      | inr (other, e', made) ↦
          subst (IsUntouched state)
            (sym (
              made
              ∙ (swap other e'
                  ∙ unweighted reporter_id reporter dto ip state
                      (report_weight-zero reporter dto ip state.reports h))))
            (record {
              same_accounts = refl;
              same_requests = refl;
              same_offers = refl;
              same_log = refl;
              same_counts = λ p. count_unique_reporters-weightless p _ state.reports refl;
            })
    ]
  where
    swap :
        (other : Reporter)
        → get_elem? state.accounts reporter_id ≡ some other
        → file_report reporter_id other dto ip state ≡ file_report reporter_id reporter dto ip state
    swap other e' = cc
