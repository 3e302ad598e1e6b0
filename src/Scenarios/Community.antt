-- ===== src/Scenarios/Community.antt =====
-- Fifteen users who report one request, and what else they try.
use buyseekk.Prelude.{
  ℕ, zero, suc, ◌≡◌, refl, inr, Bool, true, false, Option, none, some, List, [], ◌∷◌, get_elem?,
  Text, arith,
}
use buyseekk.Shared.Effect.{err}
use buyseekk.Shared.UserMode.{UserRole}
use buyseekk.Moderation.Rows.{Reporter, ReportError, Content, State, CreateReportDto}
use buyseekk.Moderation.Reports.{create_report, Call, create_all}
use buyseekk.Moderation.Justified.{IsJustified}
use buyseekk.Moderation.Justified.Calls.{create_all-IsJustified}
use buyseekk.Moderation.Abuse.Again.{create_report_again}
use buyseekk.Moderation.Abuse.Weightless.{IsUntouched, create_report_weightless}
use buyseekk.Moderation.Abuse.Addresses.{IsOncePerAddress, create_all-IsOncePerAddress}

abbrev verified_user : Reporter
verified_user = record {
  role = UserRole.buyer;
  email_verified = true;
  blocked = false;
  suspended = false;
}

abbrev users : ℕ → List Reporter
users zero = []
users (suc n) = verified_user ∷ users n

abbrev visible_content : Content
visible_content = record {
  owner_id = 0;
  hidden_by_moderation = false;
  moderation_review_required = false;
}

abbrev quiet_place : State
quiet_place = record {
  accounts = users 20;
  requests = visible_content ∷ [];
  offers = visible_content ∷ [];
  reports = [];
  log = [];
}

abbrev spam_request : CreateReportDto
spam_request = record {
  reported_user_id = none;
  request_id = some 0;
  offer_id = none;
  chat_id = none;
  message_id = none;
}

abbrev spam_offer : CreateReportDto
spam_offer = record spam_request { request_id = none; offer_id = some 0 }

abbrev calls_on : CreateReportDto → Option Text → ℕ → List Call
calls_on dto ip zero = []
calls_on dto ip (suc n) = (suc n, (dto, ip)) ∷ calls_on dto ip n

abbrev is_hidden : Option Content → Bool
is_hidden none = false
is_hidden (some c) = c.hidden_by_moderation

fourteen_reports :
    is_hidden (get_elem? (create_all (calls_on spam_request none 14) quiet_place).requests 0)
    ≡ false
unfolding create_report
fourteen_reports = refl

fifteen_reports :
    is_hidden (get_elem? (create_all (calls_on spam_request none 15) quiet_place).requests 0) ≡ true
unfolding create_report
fifteen_reports = refl

-- From one address, fifteen accounts count once.
one_address :
    is_hidden
      (get_elem? (create_all (calls_on spam_offer (some (49 ∷ [])) 15) quiet_place).offers 0)
    ≡ false
unfolding create_report
one_address = refl

quiet_place-IsJustified : IsJustified quiet_place
quiet_place-IsJustified = record {
  requests_held = λ j c row hidden. none_hidden _ j c row hidden;
  offers_held = λ j c row hidden. none_hidden _ j c row hidden;
  suspensions_earned = λ j a row suspended. none_suspended _ 20 j a row suspended;
}
  where
    none_hidden :
        (P : Type 0) (j : ℕ) (c : Content)
        → get_elem? (visible_content ∷ []) j ≡ some c
        → c.hidden_by_moderation ≡ true
        → P
    none_hidden P zero c row hidden = absurd (shown (ground arith))
      where
        shown : false ≡ true → ⊥
        shown e = cc
    none_hidden P (suc j) c row hidden = cc

    none_suspended :
        (P : Type 0) (n j : ℕ) (a : Reporter)
        → get_elem? (users n) j ≡ some a
        → a.suspended ≡ true
        → P
    none_suspended P zero j a row suspended = cc
    none_suspended P (suc n) zero a row suspended = absurd (active (ground arith))
      where
        active : false ≡ true → ⊥
        active e = cc
    none_suspended P (suc n) (suc j) a row suspended = none_suspended P n j a row suspended

create_all-IsJustified_example :
    IsJustified (create_all (calls_on spam_request none 15) quiet_place)
create_all-IsJustified_example =
    create_all-IsJustified (calls_on spam_request none 15) quiet_place quiet_place-IsJustified

create_all-IsOncePerAddress_example :
    IsOncePerAddress (create_all (calls_on spam_offer (some (49 ∷ [])) 15) quiet_place).reports
create_all-IsOncePerAddress_example =
    create_all-IsOncePerAddress (calls_on spam_offer (some (49 ∷ [])) 15) quiet_place
      (λ offer_id a full. omega arith)

abbrev once_reported : State
once_reported = (create_report 3 spam_offer (some (49 ∷ [])) quiet_place).1

create_report_again_example :
    create_report 3 spam_offer none once_reported
    ≡ (err ReportError.already_reported, once_reported)
unfolding create_report
create_report_again_example =
    create_report_again 3 spam_offer (some (49 ∷ [])) none quiet_place once_reported refl refl

create_report_weightless_example :
    IsUntouched once_reported (create_report 4 spam_offer (some (49 ∷ [])) once_reported).1
unfolding create_report
create_report_weightless_example =
    create_report_weightless 4 verified_user spam_offer (some (49 ∷ [])) once_reported refl
      (inr refl)
