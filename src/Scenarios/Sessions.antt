-- ===== src/Scenarios/Sessions.antt =====
-- A user who logs in, renews the session, logs out and resets the password.
use buyseekk.Prelude.{
  ℕ, ◌*◌, ◌≡◌, refl, true, false, none, some, List, [], ◌∷◌, ◌++◌, Text, text_eq, arith,
}
use buyseekk.Shared.Effect.{Outcome, ok}
use buyseekk.Shared.UserMode.{UserRole, UserMode}
use buyseekk.Shared.Money.{Currency}
use buyseekk.Db.Schema.{Country, Locale}
use buyseekk.Auth.State.{RefreshClientType, RefreshSessionMeta, AuthError, State, Env}
use buyseekk.Auth.Duration.{parse_duration_ms}
use buyseekk.Auth.Duration.Laws.{
  TimeUnit, print_duration, milliseconds, parse_duration_ms-print_duration,
}
use buyseekk.Auth.Sessions.{Session, refresh}
use buyseekk.Auth.Accounts.{reset_password}
use buyseekk.Auth.Runs.{Call, perform_all}
use buyseekk.Auth.Runs.Revoked.{Attempt, IsRefused, refresh_once, reset_ends}

parse_duration_ms-print_duration_example :
    parse_duration_ms (print_duration 15 TimeUnit.minutes) ≡ 15 * milliseconds TimeUnit.minutes
parse_duration_ms-print_duration_example = parse_duration_ms-print_duration 15 TimeUnit.minutes

abbrev plain_auth : Env
plain_auth = record {
  hash_token = λ t. 104 ∷ t;
  hash_password = λ password salt. password ++ salt;
  compare_password = λ password hash. text_eq password hash;
  to_lower = λ t. t;
  same_ignoring_case = text_eq;
  refresh_expires = 49 ∷ 100 ∷ [];
  launch_country = some Country.us;
}

abbrev browser : RefreshSessionMeta
browser = record { client_type = RefreshClientType.web; device_id = none; device_label = none }

abbrev old_token : Text
old_token = 1 ∷ []

abbrev known : State
known = record {
  accounts =
      record {
        email = 97 ∷ [];
        password_hash = 112 ∷ [];
        profile = record {
          role = UserRole.buyer;
          seller_type = none;
          seller_category = none;
          business_name = none;
          state = none;
          city = none;
        };
        active_mode = UserMode.buyer;
        preferred_mode = some UserMode.buyer;
        country = Country.us;
        locale = Locale.en;
        currency = Currency.usd;
        blocked = false;
        suspended = false;
        email_verified = true;
        email_verified_at = none;
      }
      ∷ [];
  refresh_tokens =
      record {
        user_id = 0;
        token_hash = 104 ∷ old_token;
        expires_at = 5000;
        revoked_at = none;
        last_used_at = none;
        meta = browser;
      }
      ∷ [];
  verification_tokens = [];
  reset_tokens =
      record { user_id = 0; token_hash = 104 ∷ 8 ∷ []; expires_at = 5000; used_at = none } ∷ [];
  log = [];
}

-- Another login, and the renewal of the session that it began.
abbrev later_calls : List Call
later_calls =
    Call.logging_in 300 (97 ∷ []) (112 ∷ []) browser (3 ∷ [])
    ∷ Call.refreshing 400 (3 ∷ []) none none (4 ∷ [])
    ∷ Call.purging 500
    ∷ []

abbrev again : Attempt
again = record { now = 600; device_id = none; device_label = none; fresh = 5 ∷ [] }

abbrev renewed : Outcome AuthError Session × State
renewed = refresh plain_auth 200 (some old_token) none none (2 ∷ []) known

renewed_ok : renewed.0 ≡ ok (record { user_id = 0; refresh_token = 2 ∷ [] })
unfolding refresh
renewed_ok = refl

refresh_once_example :
    IsRefused plain_auth old_token again (perform_all plain_auth later_calls renewed.1)
refresh_once_example =
    refresh_once plain_auth old_token later_calls again refl 200 none none (2 ∷ []) known
      (omega arith) refl renewed_ok

abbrev reset : Outcome AuthError ℕ × State
reset = reset_password plain_auth 200 (8 ∷ []) (9 ∷ []) [] known

reset_ok : reset.0 ≡ ok 0
unfolding reset_password
reset_ok = refl

reset_ends_example :
    IsRefused plain_auth old_token again (perform_all plain_auth later_calls reset.1)
reset_ends_example =
    reset_ends plain_auth old_token later_calls again refl 200 (8 ∷ []) (9 ∷ []) [] known reset_ok
      refl
