-- ===== src/Moderation/Rows.antt =====
-- The columns that apps/api/src/reports/reports.service.ts reads and writes. Ids are positions in the
-- tables; the reports stand with the newest first, and none is read by its id. The reason, the
-- details and the user agent are left out. An empty id stands for a missing one; the code keeps an empty
-- reportedUserId that no offer or request replaces, and the database then refuses the row.
use buyseekk.Prelude.{ℕ, Bool, false, Option, none, some, List, ◌==◌, Text}
use buyseekk.Shared.UserMode.{UserRole}

pub record Reporter : Type 0 where
  pub role : UserRole
  pub email_verified : Bool
  pub blocked : Bool
  pub suspended : Bool

-- A request or an offer, with the user who published it.
pub record Content : Type 0 where
  pub owner_id : ℕ
  pub hidden_by_moderation : Bool
  pub moderation_review_required : Bool

pub data AutoAction : Type 0 where
  auto_hide_request auto_hide_offer auto_review_triggered auto_suspend_user : AutoAction

pub record CreateReportDto : Type 0 where
  pub reported_user_id : Option ℕ
  pub request_id : Option ℕ
  pub offer_id : Option ℕ
  pub chat_id : Option ℕ
  pub message_id : Option ℕ

pub record Report : Type 0 where
  pub reporter_id : ℕ
  pub target : CreateReportDto
  pub weight : ℕ
  pub reporter_ip : Option Text
  pub auto_triggered_action : List AutoAction

pub record State : Type 0 where
  pub accounts : List Reporter
  pub requests : List Content
  pub offers : List Content
  pub reports : List Report
  pub log : List (AutoAction × ℕ)

pub data ReportError : Type 0 where
  no_target already_reported broken_reference : ReportError

abbrev pub is_id : Option ℕ → ℕ → Bool
is_id none id = false
is_id (some a) id = a == id

abbrev pub on_message : ℕ → Report → Bool
on_message id r = is_id r.target.message_id id

abbrev pub on_offer : ℕ → Report → Bool
on_offer id r = is_id r.target.offer_id id

abbrev pub on_request : ℕ → Report → Bool
on_request id r = is_id r.target.request_id id

abbrev pub on_chat : ℕ → Report → Bool
on_chat id r = is_id r.target.chat_id id

abbrev pub on_user : ℕ → Report → Bool
on_user id r = is_id r.target.reported_user_id id
