-- ===== src/Moderation/Abuse/Addresses.antt =====
-- `create` of apps/api/src/reports/reports.service.ts: the reports from one address.
use buyseekk.Prelude.{
  ℕ, ◌≤◌, ◌≡◌, refl, inl, inr, sym, subst, Bool, true, false, not, Option, some, if◌then◌else◌,
  List, [], ◌∷◌, ◌&&◌, leb, some_of, count_where, is_empty, Text, arith, Option-cases, Bool-cases,
}
use buyseekk.Shared.TextOrder.{text_eq_sound}
use buyseekk.Shared.Keyed.Counting.{count_where-some_of}
use buyseekk.Moderation.Rows.{AutoAction, Report, Reporter, State, CreateReportDto, on_offer}
use buyseekk.Moderation.Reports.{
  create_report, report_weight, meant_target, new_report, Call, create_all, is_eligible,
  same_address, content_target_where,
}
use buyseekk.Moderation.Filed.{file_report-reports, create_report-rows}

-- For each offer, an address has at most one report with weight.
abbrev pub IsOncePerAddress : List Report → Type 0
IsOncePerAddress reports =
    (offer_id : ℕ) (a : Text)
    → is_empty a ≡ false
    → count_where (same_address (some (on_offer offer_id)) a) reports ≤ 1

content_target_where-offer :
    (dto : CreateReportDto) (offer_id : ℕ)
    → dto.offer_id ≡ some offer_id
    → content_target_where dto ≡ some (on_offer offer_id)
unfolding content_target_where
content_target_where-offer dto offer_id e = rw e refl

first_from_address :
    (reporter : Reporter) (dto : CreateReportDto) (a : Text) (offer_id : ℕ) (reports : List Report)
    → dto.offer_id ≡ some offer_id
    → is_empty a ≡ false
    → leb 1 (report_weight reporter dto (some a) reports) ≡ true
    → some_of (same_address (some (on_offer offer_id)) a) reports ≡ false
unfolding report_weight
first_from_address reporter dto a offer_id reports e full h =
    elim (Bool-cases (some_of (same_address (some (on_offer offer_id)) a) reports)) [
      | inl t ↦
          absurd
            (refuted (content_target_where dto) (content_target_where-offer dto offer_id e) h t)
      | inr f ↦ f
    ]
  where
    refuted :
        (on : Option (Report → Bool))
        → on ≡ some (on_offer offer_id)
        → leb 1 (
            if not (is_eligible reporter)
            then 0
            else if not (is_empty a) && some_of (same_address on a) reports
            then 0
            else 1)
          ≡ true
        → some_of (same_address (some (on_offer offer_id)) a) reports ≡ true
        → ⊥
    refuted on e h t = ground arith

added-IsOnce :
    (r : Report) (reports : List Report)
    → IsOncePerAddress reports
    → ((offer_id : ℕ) (a : Text)
        → is_empty a ≡ false
        → same_address (some (on_offer offer_id)) a r ≡ true
        → some_of (same_address (some (on_offer offer_id)) a) reports ≡ false)
    → IsOncePerAddress (r ∷ reports)
added-IsOnce r reports once fresh offer_id a full =
    elim (Bool-cases (same_address (some (on_offer offer_id)) a r)) [
      | inr f ↦ rw f (omega (arith, once offer_id a full))
      | inl t ↦
          rw
            (
              t,
              count_where-some_of (same_address (some (on_offer offer_id)) a) reports
                  (fresh offer_id a full t),
            )
            (omega arith)
    ]

-- What a row that counts for an offer and an address says of the report.
same_address-parts :
    (target : CreateReportDto) (ip : Option Text) (weight reporter_id offer_id : ℕ) (a : Text)
    (actions : List AutoAction)
    → same_address (some (on_offer offer_id)) a (record {
      reporter_id = reporter_id;
      target = target;
      weight = weight;
      reporter_ip = ip;
      auto_triggered_action = actions;
    })
      ≡ true
    → (target.offer_id ≡ some offer_id) × (ip ≡ some a) × (leb 1 weight ≡ true)
same_address-parts target ip weight reporter_id offer_id a actions h =
    elim (Option-cases target.offer_id) [
      | inl n ↦ ground arith
      | inr (o, e) ↦ elim (Option-cases ip) [
        | inl n ↦ ground arith
        | inr (b, at) ↦ (ground arith, ground (arith, text_eq_sound b a), ground arith)
      ]
    ]

new-IsOnce :
    (reporter_id : ℕ) (reporter : Reporter) (dto : CreateReportDto) (ip : Option Text)
    (state : State) (actions : List AutoAction)
    → IsOncePerAddress state.reports
    → IsOncePerAddress (
        new_report reporter_id dto (report_weight reporter dto ip state.reports) ip state actions
        ∷ state.reports)
new-IsOnce reporter_id reporter dto ip state actions once =
    added-IsOnce
      (new_report reporter_id dto (report_weight reporter dto ip state.reports) ip state actions)
      state.reports once fresh
  where
    fresh :
        (offer_id : ℕ) (a : Text)
        → is_empty a ≡ false
        → same_address (some (on_offer offer_id)) a (
            new_report reporter_id dto
              (report_weight reporter dto ip state.reports)
              ip
              state
              actions)
          ≡ true
        → some_of (same_address (some (on_offer offer_id)) a) state.reports ≡ false
    fresh offer_id a full t =
        let (on, at, counted) =
          same_address-parts (meant_target dto state) ip
            (report_weight reporter dto ip state.reports) reporter_id offer_id a actions t in
        first_from_address reporter dto a offer_id state.reports on full
          (subst (λ i. leb 1 (report_weight reporter dto i state.reports) ≡ true) at counted)

create_report-IsOnce :
    (reporter_id : ℕ) (dto : CreateReportDto) (ip : Option Text) (state : State)
    → IsOncePerAddress state.reports
    → IsOncePerAddress (create_report reporter_id dto ip state).1.reports
create_report-IsOnce reporter_id dto ip state h =
    elim (create_report-rows reporter_id dto ip state) [
      | inl same ↦ rw same h
      | inr (reporter, e, made) ↦
          let (actions, rows) = file_report-reports reporter_id reporter dto ip state in
          subst (λ s. IsOncePerAddress s.reports) (sym made)
            (subst IsOncePerAddress (sym rows)
              (new-IsOnce reporter_id reporter dto ip state actions h))
    ]

-- Whatever is reported, in any number and order, under any number of accounts: an address counts at most once for an offer,
-- if that was so before the calls.
pub create_all-IsOncePerAddress :
    (calls : List Call) (state : State)
    → IsOncePerAddress state.reports
    → IsOncePerAddress (create_all calls state).reports
create_all-IsOncePerAddress [] state h = h
create_all-IsOncePerAddress ((reporter_id, (dto, ip)) ∷ calls) state h =
    create_all-IsOncePerAddress calls (create_report reporter_id dto ip state).1
      (create_report-IsOnce reporter_id dto ip state h)
