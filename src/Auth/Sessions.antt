-- ===== src/Auth/Sessions.antt =====
-- Refresh tokens in apps/api/src/auth/auth.service.ts: how a session is issued, renewed and ended.
-- The text of a new token, which Node draws at random, is an argument.
pub mod Revocation
use buyseekk.Prelude.{
  ℕ, ◌+◌, Bool, true, false, Option, none, some, is_some, List, [], ◌∷◌, ◌++◌, ◌==◌, ◌&&◌, ◌||◌,
  not, ltb, get_elem?, modify, is_empty, Text, if◌then◌else◌,
}
use buyseekk.Shared.Effect.{pure, raise, gets, or_raise, raise_if, write, ◌>>=◌, ◌>>◌, ok, err}
use buyseekk.Shared.Keyed.{modify_first}
use buyseekk.Shared.UserMode.{UserMode, resolve_session_active_mode}
use buyseekk.Db.Schema.{Country}
use buyseekk.Auth.State.{
  Account, RefreshSessionMeta, RefreshToken, SecurityEvent, State, AuthError, Action, Env, has_hash,
  find_refresh_token,
}
use buyseekk.Auth.Duration.{parse_duration_ms}

-- What a client gets: whose session it is, and the refresh token. The access token is signed outside.
pub record Session : Type 0 where
  pub user_id : ℕ
  pub refresh_token : Text

abbrev pub log : SecurityEvent → State → State
log event state = record state { log = state.log ++ event ∷ [] }

abbrev pub new_token : Env → ℕ → ℕ → RefreshSessionMeta → Text → RefreshToken
new_token env now user_id meta plain = record {
  user_id = user_id;
  token_hash = env.hash_token plain;
  expires_at = now + parse_duration_ms env.refresh_expires;
  revoked_at = none;
  last_used_at = none;
  meta = meta;
}

-- `issueRefreshToken` and `issueTokens`; the unique column refuses a hash that is there already.
unfoldable pub issue_tokens : Env → ℕ → ℕ → RefreshSessionMeta → Text → Action Session
issue_tokens env now user_id meta plain state =
    if is_some (find_refresh_token (env.hash_token plain) state)
    then (err AuthError.unique_violation, state)
    else (
      ok (record { user_id = user_id; refresh_token = plain }),
      record state {
        refresh_tokens = state.refresh_tokens ++ new_token env now user_id meta plain ∷ [];
      },
    )

abbrev same_country : Country → Country → Bool
same_country Country.ar Country.ar = true
same_country Country.us Country.us = true
same_country _ _ = false

-- `launch && userCountry !== launch`
abbrev pub is_closed_market : Option Country → Country → Bool
is_closed_market none country = false
is_closed_market (some launch) country = not (same_country country launch)

-- launch-country.config.ts and assert-not-blocked.ts
unfoldable pub assert_may_use : Env → Account → Action (Unit {0})
assert_may_use env account = do
  raise_if (is_closed_market env.launch_country account.country) AuthError.market_closed
  raise_if account.blocked AuthError.account_blocked
  raise_if account.suspended AuthError.account_suspended

-- The mode is written only where it differs; writing it as it is changes nothing.
unfoldable pub normalize_session_user : ℕ → State → State
normalize_session_user user_id state = record state {
  accounts = modify state.accounts user_id (λ a. record a {
    active_mode = resolve_session_active_mode a.profile a.active_mode a.preferred_mode;
  });
}

abbrev pub revoke : ℕ → RefreshToken → RefreshToken
revoke now t = record t { revoked_at = some now }

abbrev pub use_up : ℕ → RefreshToken → RefreshToken
use_up now t = record t { revoked_at = some now; last_used_at = some now }

abbrev pub update_token : Text → (RefreshToken → RefreshToken) → State → State
update_token hash f state = record state {
  refresh_tokens = modify_first (has_hash hash) f state.refresh_tokens;
}

-- `patch ?? stored ?? undefined`
abbrev pub patched : Option Text → Option Text → Option Text
patched none stored = stored
patched (some t) _ = some t

-- `stored.revokedAt || stored.expiresAt < now`
abbrev pub is_spent : ℕ → RefreshToken → Bool
is_spent now t = is_some t.revoked_at || ltb t.expires_at now

abbrev usable : ℕ → Option RefreshToken → Option RefreshToken
usable now none = none
usable now (some t) = if is_spent now t then none else some t

abbrev pub given_token : Option Text → Option Text
given_token none = none
given_token (some t) = if is_empty t then none else some t

unfoldable pub refresh :
    Env → ℕ → Option Text → (device_id device_label : Option Text) → Text → Action Session
unfolding assert_may_use issue_tokens normalize_session_user
refresh env now plain device_id device_label fresh = do
  token ← or_raise (given_token plain) AuthError.session_expired
  let hash = env.hash_token token
  found ← gets (find_refresh_token hash)
  stored ← or_raise (usable now found) AuthError.session_expired
  accounts ← gets (λ state. state.accounts)
  account ← or_raise (get_elem? accounts stored.user_id) AuthError.broken_reference
  assert_may_use env account
  write (update_token hash (use_up now))
  write (normalize_session_user stored.user_id)
  issue_tokens env now stored.user_id
      (record {
        client_type = stored.meta.client_type;
        device_id = patched device_id stored.meta.device_id;
        device_label = patched device_label stored.meta.device_label;
      })
      fresh

-- A token that is not there, or revoked already, is logged out without a word.
abbrev end_session : ℕ → Text → Option RefreshToken → State → State
end_session now hash none state = state
end_session now hash (some t) state =
    if is_some t.revoked_at
    then state
    else log (SecurityEvent.logout t.user_id) (update_token hash (revoke now) state)

unfoldable pub logout : Env → ℕ → Option Text → State → State
logout env now plain state = elim (given_token plain) [
  | none ↦ state
  | some token ↦
      let hash = env.hash_token token in end_session now hash (find_refresh_token hash state) state
]
