-- ===== src/Auth/State.antt =====
-- The tables of apps/api/prisma/schema.prisma that apps/api/src/auth/auth.service.ts writes: User as far as it is used there,
-- RefreshToken, EmailVerificationToken, PasswordResetToken and SecurityLog. A user's id is the position in the table.
use buyseekk.Prelude.{ℕ, Bool, Option, List, Text, text_eq}
use buyseekk.Shared.UserMode.{UserMode, SellerProfileFields}
use buyseekk.Shared.Money.{Currency}
use buyseekk.Shared.Keyed.{find_first}
use buyseekk.Shared.Effect.{Effect}
use buyseekk.Db.Schema.{Country, Locale}

pub data RefreshClientType : Type 0 where
  web ios android : RefreshClientType

pub record Account : Type 0 where
  pub email : Text
  pub password_hash : Text
  pub profile : SellerProfileFields
  pub active_mode : UserMode
  pub preferred_mode : Option UserMode
  pub country : Country
  pub locale : Locale
  pub currency : Currency
  pub blocked : Bool
  pub suspended : Bool
  pub email_verified : Bool
  pub email_verified_at : Option ℕ

pub record RefreshSessionMeta : Type 0 where
  pub client_type : RefreshClientType
  pub device_id : Option Text
  pub device_label : Option Text

pub record RefreshToken : Type 0 where
  pub user_id : ℕ
  pub token_hash : Text
  pub expires_at : ℕ
  pub revoked_at : Option ℕ
  pub last_used_at : Option ℕ
  pub meta : RefreshSessionMeta

pub record EmailVerificationToken : Type 0 where
  pub user_id : ℕ
  pub token_hash : Text
  pub expires_at : ℕ

pub record PasswordResetToken : Type 0 where
  pub user_id : ℕ
  pub token_hash : Text
  pub expires_at : ℕ
  pub used_at : Option ℕ

pub data SecurityEvent : Type 0 where
  user_registered login_success logout email_verified : (user_id : ℕ) → SecurityEvent
  password_reset_requested password_changed : (user_id : ℕ) → SecurityEvent
  login_failed : (user_id : Option ℕ) → SecurityEvent

pub record State : Type 0 where
  pub accounts : List Account
  pub refresh_tokens : List RefreshToken
  pub verification_tokens : List EmailVerificationToken
  pub reset_tokens : List PasswordResetToken
  pub log : List SecurityEvent

pub data AuthError : Type 0 where
  session_expired invalid_credentials unauthorized : AuthError
  email_taken sellers_only country_not_available market_closed : AuthError
  account_blocked account_suspended : AuthError
  invalid_verification already_verified invalid_reset unique_violation broken_reference : AuthError

abbrev pub Action : Type 0 → Type 0
Action A = Effect State AuthError A

-- What comes from outside: Node's hash, bcrypt, `toLowerCase`, PostgreSQL's comparison that ignores
-- case, and the settings JWT_REFRESH_EXPIRES and LAUNCH_COUNTRY as they are parsed. A password's hash depends on a
-- salt.
pub record Env : Type 0 where
  pub hash_token : Text → Text
  pub hash_password : (password salt : Text) → Text
  pub compare_password : (password hash : Text) → Bool
  pub to_lower : Text → Text
  pub same_ignoring_case : Text → Text → Bool
  pub refresh_expires : Text
  pub launch_country : Option Country

abbrev pub has_hash : Text → RefreshToken → Bool
has_hash hash t = text_eq t.token_hash hash

abbrev pub find_refresh_token : Text → State → Option RefreshToken
find_refresh_token hash state = find_first (has_hash hash) state.refresh_tokens
