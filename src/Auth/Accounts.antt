-- ===== src/Auth/Accounts.antt =====
-- The account operations of apps/api/src/auth/auth.service.ts, and the cleanup of apps/api/src/auth/auth-token-cleanup.scheduler.ts.
-- Mails are sent outside: a failure of one is swallowed by the code. Texts of new tokens and the salt of a password are arguments.
pub mod Endings
use buyseekk.Prelude.{
  ℕ, ◌+◌, ◌*◌, Bool, true, false, Option, none, some, is_some, is_none, or_else, List, [], ◌∷◌,
  ◌++◌, ◌==◌, ◌&&◌, ◌||◌, not, ltb, length, get_elem?, modify, select, update_where, Text, text_eq,
  trim, if◌then◌else◌,
}
use buyseekk.Shared.Effect.{
  Outcome, pure, raise, gets, or_raise, raise_if, write, ◌>>=◌, ◌>>◌, ok, err,
}
use buyseekk.Shared.Keyed.{find_first, best_from}
use buyseekk.Shared.UserMode.{UserRole, UserMode, SellerType, RequestCategory}
use buyseekk.Shared.Money.{Currency}
use buyseekk.Db.Schema.{Country, Locale}
use buyseekk.Auth.State.{
  Account, RefreshSessionMeta, RefreshToken, EmailVerificationToken, PasswordResetToken,
  SecurityEvent, State, AuthError, Action, Env,
}
use buyseekk.Auth.Sessions.{
  Session, log, issue_tokens, is_closed_market, assert_may_use, normalize_session_user, revoke,
}

unfoldable pub canonicalize_email : Env → Text → Text
canonicalize_email env email = env.to_lower (trim email)

-- A row that fits, with its position.
abbrev find_account : (Account → Bool) → List Account → Option (ℕ × Account)
find_account p accounts = best_from (λ _ _. false) p 0 accounts

abbrev or_account : Option (ℕ × Account) → Option (ℕ × Account) → Option (ℕ × Account)
or_account none second = second
or_account (some a) _ = some a

unfoldable pub find_user_by_email : Env → Text → State → Option (ℕ × Account)
unfolding canonicalize_email
find_user_by_email env email state =
    let canonical = canonicalize_email env email in
    or_account (find_account (λ a. text_eq a.email canonical) state.accounts)
      (find_account (λ a. env.same_ignoring_case a.email canonical) state.accounts)

abbrev set_account : ℕ → (Account → Account) → State → State
set_account id f state = record state { accounts = modify state.accounts id f }

abbrev drop_verifications : ℕ → State → State
drop_verifications user_id state = record state {
  verification_tokens = select (λ t. not (t.user_id == user_id)) state.verification_tokens;
}

-- The user's one verification token, for a day. The unique column refuses a hash that another user has.
unfoldable pub send_verification_email : Env → ℕ → ℕ → Text → Action (Unit {0})
send_verification_email env now user_id plain state =
    let hash = env.hash_token plain in
    let state' = drop_verifications user_id state in
    if is_some (find_first (λ t. text_eq t.token_hash hash) state'.verification_tokens)
    then (err AuthError.unique_violation, state')
    else (
      ok tt,
      record state' {
        verification_tokens =
            state'.verification_tokens
            ++ record {
              user_id = user_id;
              token_hash = hash;
              expires_at = now + 24 * 60 * 60 * 1000;
            }
              ∷ [];
      },
    )

pub record RegisterDto : Type 0 where
  pub email : Text
  pub password : Text
  pub role : UserRole
  pub seller_type : Option SellerType
  pub seller_category : Option RequestCategory
  pub country : Country
  pub currency : Option Currency
  pub locale : Option Locale

abbrev is_seller_role : UserRole → Bool
is_seller_role UserRole.seller = true
is_seller_role UserRole.both = true
is_seller_role _ = false

abbrev default_locale_for_country : Country → Locale
default_locale_for_country Country.us = Locale.en
default_locale_for_country Country.ar = Locale.es

abbrev default_currency_for_country : Country → Currency
default_currency_for_country Country.us = Currency.usd
default_currency_for_country Country.ar = Currency.ars

-- `resolveRegisterCountry` and `resolveRegisterCurrency` of launch-country.config.ts
unfoldable pub resolve_register_country : Env → Country → Country
resolve_register_country env country = or_else env.launch_country country

unfoldable pub resolve_register_currency : Env → Country → Option Currency → Currency
unfolding resolve_register_country
resolve_register_currency env country currency =
    let resolved = resolve_register_country env country in
    if is_some env.launch_country
    then default_currency_for_country resolved
    else or_else currency (default_currency_for_country resolved)

unfoldable pub new_account : Env → RegisterDto → Text → Account
unfolding canonicalize_email resolve_register_country resolve_register_currency
new_account env dto salt =
    let is_seller = is_seller_role dto.role in
    let has_profile = is_seller && is_some dto.seller_type && is_some dto.seller_category in
    let country = resolve_register_country env dto.country in
    record {
      email = canonicalize_email env dto.email;
      password_hash = env.hash_password dto.password salt;
      profile = record {
        role = if has_profile then UserRole.both else UserRole.buyer;
        seller_type = if has_profile then dto.seller_type else none;
        seller_category = if has_profile then dto.seller_category else none;
        business_name = none;
        state = none;
        city = none;
      };
      active_mode = if has_profile then UserMode.seller else UserMode.buyer;
      preferred_mode = some (if is_seller then UserMode.seller else UserMode.buyer);
      country = country;
      locale = or_else dto.locale (default_locale_for_country country);
      currency = resolve_register_currency env dto.country dto.currency;
      blocked = false;
      suspended = false;
      email_verified = false;
      email_verified_at = none;
    }

unfoldable pub register :
    Env → ℕ → RegisterDto → RefreshSessionMeta → (salt mail_token fresh : Text) → Action Session
unfolding find_user_by_email canonicalize_email new_account send_verification_email issue_tokens
register env now dto meta salt mail_token fresh = do
  existing ← gets (find_user_by_email env (canonicalize_email env dto.email))
  raise_if (is_some existing) AuthError.email_taken
  raise_if
      (not (is_seller_role dto.role) && (is_some dto.seller_type || is_some dto.seller_category))
      AuthError.sellers_only
  raise_if (is_closed_market env.launch_country dto.country) AuthError.country_not_available
  user_id ← gets (λ state. length state.accounts)
  write (λ state. record state { accounts = state.accounts ++ new_account env dto salt ∷ [] })
  send_verification_email env now user_id mail_token
  write (log (SecurityEvent.user_registered user_id))
  issue_tokens env now user_id meta fresh

-- The password of a user who was found; a failure is logged.
abbrev check_password : Env → Text → Option (ℕ × Account) → Action (ℕ × Account)
check_password env password none state =
    (err AuthError.invalid_credentials, log (SecurityEvent.login_failed none) state)
check_password env password (some (id, account)) state =
    if env.compare_password password account.password_hash
    then (ok (id, account), state)
    else (err AuthError.invalid_credentials, log (SecurityEvent.login_failed (some id)) state)

unfoldable pub login :
    Env → ℕ → (email password : Text) → RefreshSessionMeta → Text → Action Session
unfolding find_user_by_email canonicalize_email assert_may_use normalize_session_user issue_tokens
login env now email password meta fresh = do
  found ← gets (find_user_by_email env (canonicalize_email env email))
  user ← check_password env password found
  assert_may_use env user.1
  write (log (SecurityEvent.login_success user.0))
  write (normalize_session_user user.0)
  issue_tokens env now user.0 meta fresh

abbrev live_verification : ℕ → Option EmailVerificationToken → Option EmailVerificationToken
live_verification now none = none
live_verification now (some t) = if ltb t.expires_at now then none else some t

abbrev mark_verified : ℕ → Account → Account
mark_verified now a = record a { email_verified = true; email_verified_at = some now }

-- The answer is whether the address was verified before.
unfoldable pub verify_email : Env → ℕ → Text → Action Bool
verify_email env now token = do
  let hash = env.hash_token token
  found ← gets (λ state. find_first (λ t. text_eq t.token_hash hash) state.verification_tokens)
  stored ← or_raise (live_verification now found) AuthError.invalid_verification
  accounts ← gets (λ state. state.accounts)
  account ← or_raise (get_elem? accounts stored.user_id) AuthError.broken_reference
  write λ state.
      if account.email_verified
      then record state {
        verification_tokens =
            select (λ t. not (text_eq t.token_hash hash)) state.verification_tokens;
      }
      else log (SecurityEvent.email_verified stored.user_id)
          (drop_verifications stored.user_id (set_account stored.user_id (mark_verified now) state))
  pure account.email_verified

unfoldable pub resend_verification : Env → ℕ → ℕ → Text → Action (Unit {0})
unfolding send_verification_email
resend_verification env now user_id mail_token = do
  accounts ← gets (λ state. state.accounts)
  account ← or_raise (get_elem? accounts user_id) AuthError.unauthorized
  raise_if account.email_verified AuthError.already_verified
  send_verification_email env now user_id mail_token

-- The user's one reset token, for an hour; for an address with no account nothing is written.
unfoldable pub forgot_password : Env → ℕ → Text → Text → Action (Unit {0})
unfolding find_user_by_email canonicalize_email
forgot_password env now email plain state =
    elim (find_user_by_email env (canonicalize_email env email) state) [
      | none ↦ (ok tt, state)
      | some (user_id, _) ↦
          let hash = env.hash_token plain in
          let kept = select (λ t. not (t.user_id == user_id)) state.reset_tokens in
          if is_some (find_first (λ t. text_eq t.token_hash hash) kept)
          then (err AuthError.unique_violation, record state { reset_tokens = kept })
          else (
            ok tt,
            log (SecurityEvent.password_reset_requested user_id) (record state {
              reset_tokens =
                  kept
                  ++ record {
                    user_id = user_id;
                    token_hash = hash;
                    expires_at = now + 60 * 60 * 1000;
                    used_at = none;
                  }
                    ∷ [];
            }),
          )
    ]

abbrev pub live_reset : ℕ → Option PasswordResetToken → Option PasswordResetToken
live_reset now none = none
live_reset now (some t) = if is_some t.used_at || ltb t.expires_at now then none else some t

abbrev pub is_live_of : ℕ → RefreshToken → Bool
is_live_of user_id t = t.user_id == user_id && is_none t.revoked_at

-- The transaction: the password, the token, and every session of the user.
unfoldable pub commit_reset : ℕ → ℕ → Text → Text → State → State
commit_reset now user_id hash password_hash state = record state {
  accounts = modify state.accounts user_id (λ a. record a { password_hash = password_hash });
  reset_tokens =
      update_where (λ t. text_eq t.token_hash hash) (λ t. record t { used_at = some now })
        state.reset_tokens;
  refresh_tokens = update_where (is_live_of user_id) (revoke now) state.refresh_tokens;
}

-- The user whose password was set.
unfoldable pub reset_password : Env → ℕ → (token password salt : Text) → Action ℕ
unfolding commit_reset
reset_password env now token password salt = do
  let hash = env.hash_token token
  found ← gets (λ state. find_first (λ t. text_eq t.token_hash hash) state.reset_tokens)
  stored ← or_raise (live_reset now found) AuthError.invalid_reset
  write (commit_reset now stored.user_id hash (env.hash_password password salt))
  write (log (SecurityEvent.password_changed stored.user_id))
  pure stored.user_id

unfoldable pub me : ℕ → Action ℕ
unfolding normalize_session_user
me user_id = do
  accounts ← gets (λ state. state.accounts)
  raise_if (is_none (get_elem? accounts user_id)) AuthError.unauthorized
  write (normalize_session_user user_id)
  pure user_id

-- auth-token-cleanup.scheduler.ts
unfoldable pub purge_expired_tokens : ℕ → State → State
purge_expired_tokens now state = record state {
  refresh_tokens =
      select (λ t. not (ltb t.expires_at now || is_some t.revoked_at)) state.refresh_tokens;
  verification_tokens = select (λ t. not (ltb t.expires_at now)) state.verification_tokens;
  reset_tokens = select (λ t. not (ltb t.expires_at now || is_some t.used_at)) state.reset_tokens;
}
