-- ===== src/Moderation/Reports.antt =====
-- `create` of apps/api/src/reports/reports.service.ts: whom and what a report is about, its weight, its row and what it sets off.
use buyseekk.Prelude.{
  ℕ, Bool, false, not, Option, none, some, is_some, List, [], ◌∷◌, ◌==◌, ◌&&◌, ◌||◌, leb, get_elem?,
  some_of, is_empty, Text, text_eq, if◌then◌else◌,
}
use buyseekk.Shared.Effect.{ok, err, Effect}
use buyseekk.Moderation.Rows.{
  AutoAction, Content, CreateReportDto, Report, ReportError, Reporter, State, on_chat, on_message,
  on_offer, on_request, on_user,
}
use buyseekk.Moderation.Thresholds.{evaluate}

-- `if (a) return p(a); return rest`
abbrev by_id : Option ℕ → (ℕ → Report → Bool) → Option (Report → Bool) → Option (Report → Bool)
by_id none p rest = rest
by_id (some id) p rest = some (p id)

-- `primaryTargetWhere` less the reporter: the content that one user reports once.
unfoldable pub primary_target_where : CreateReportDto → Option (Report → Bool)
primary_target_where dto = by_id dto.message_id on_message (
    by_id dto.offer_id on_offer (
      by_id dto.request_id on_request
        (by_id dto.chat_id on_chat (by_id dto.reported_user_id on_user none))))

-- The content that one address reports once with weight.
unfoldable pub content_target_where : CreateReportDto → Option (Report → Bool)
content_target_where dto = by_id dto.offer_id on_offer (
    by_id dto.request_id on_request (
      by_id dto.message_id on_message
        (by_id dto.chat_id on_chat (by_id dto.reported_user_id on_user none))))

abbrev pub is_eligible : Reporter → Bool
is_eligible a = a.email_verified && not a.blocked && not a.suspended

-- A report from the address that counts already for the content.
abbrev pub same_address : Option (Report → Bool) → Text → Report → Bool
same_address none ip r = false
same_address (some on_target) ip r =
    on_target r && leb 1 r.weight && elim r.reporter_ip [ none ↦ false | some a ↦ text_eq a ip ]

unfoldable pub report_weight : Reporter → CreateReportDto → Option Text → List Report → ℕ
unfolding content_target_where
report_weight reporter dto ip reports = if not (is_eligible reporter) then 0 else elim ip [
  | none ↦ 1
  | some a ↦
      if not (is_empty a) && some_of (same_address (content_target_where dto) a) reports
      then 0
      else 1
]

abbrev owner_of : Option ℕ → List Content → Option ℕ
owner_of none contents = none
owner_of (some id) contents = elim (get_elem? contents id) [
  | none ↦ none
  | some c ↦ some c.owner_id
]

abbrev or_id : Option ℕ → Option ℕ → Option ℕ
or_id none b = b
or_id (some a) _ = some a

abbrev pub known_id : List Reporter → Option ℕ → Option ℕ
known_id accounts none = none
known_id accounts (some id) = if is_some (get_elem? accounts id) then some id else none

-- The user who is meant: named, or the owner of the offer or of the request; an unknown one is dropped.
unfoldable pub reported_user : CreateReportDto → State → Option ℕ
reported_user dto state = known_id state.accounts (
    or_id dto.reported_user_id
      (or_id (owner_of dto.offer_id state.offers) (owner_of dto.request_id state.requests)))

abbrev pub mark_first : List AutoAction → List Report → List Report
mark_first actions [] = []
mark_first actions (r ∷ rs) = record r { auto_triggered_action = actions } ∷ rs

abbrev pub has_target : CreateReportDto → Bool
has_target dto =
    is_some dto.reported_user_id
    || is_some dto.request_id
    || is_some dto.offer_id
    || is_some dto.chat_id
    || is_some dto.message_id

abbrev pub is_repeated : ℕ → CreateReportDto → List Report → Bool
is_repeated reporter_id dto reports = elim (primary_target_where dto) [
  | none ↦ false
  | some on_target ↦ some_of (λ r. r.reporter_id == reporter_id && on_target r) reports
]

abbrev pub meant_target : CreateReportDto → State → CreateReportDto
meant_target dto state = record dto { reported_user_id = reported_user dto state }

-- The row of a report, with the user who is meant.
abbrev pub new_report : ℕ → CreateReportDto → ℕ → Option Text → State → List AutoAction → Report
new_report reporter_id dto weight ip state actions = record {
  reporter_id = reporter_id;
  target = meant_target dto state;
  weight = weight;
  reporter_ip = ip;
  auto_triggered_action = actions;
}

abbrev pub with_report : ℕ → CreateReportDto → ℕ → Option Text → State → State
with_report reporter_id dto weight ip state = record state {
  reports = new_report reporter_id dto weight ip state [] ∷ state.reports;
}

abbrev pub with_mark : List AutoAction × State → State
with_mark (actions, state) = record state { reports = mark_first actions state.reports }

unfoldable pub file_report : ℕ → Reporter → CreateReportDto → Option Text → State → State
unfolding report_weight reported_user evaluate
file_report reporter_id reporter dto ip state =
    let weight = report_weight reporter dto ip state.reports in
    let filed = with_report reporter_id dto weight ip state in
    if weight == 1 then with_mark (evaluate (meant_target dto state) filed) else filed

unfoldable pub create_report :
    ℕ → CreateReportDto → Option Text → Effect State ReportError (Unit {0})
unfolding file_report primary_target_where
create_report reporter_id dto ip state =
    if not (has_target dto)
    then (err ReportError.no_target, state)
    else if is_repeated reporter_id dto state.reports
    then (err ReportError.already_reported, state)
    else elim (get_elem? state.accounts reporter_id) [
      | none ↦ (err ReportError.broken_reference, state)
      | some reporter ↦ (ok tt, file_report reporter_id reporter dto ip state)
    ]

-- A call of `create`: who reports, what, and from which address.
abbrev pub Call : Type 0
Call = ℕ × (CreateReportDto × Option Text)

abbrev pub create_all : List Call → State → State
create_all [] state = state
create_all ((reporter_id, (dto, ip)) ∷ calls) state =
    create_all calls (create_report reporter_id dto ip state).1
