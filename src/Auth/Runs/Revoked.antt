-- ===== src/Auth/Runs/Revoked.antt =====
-- A refresh token that was used, logged out, or ended by a new password stays useless.
use buyseekk.Prelude.{
  ℕ, ◌≡◌, false, Option, some, List, [], ◌∷◌, some_of, is_empty, Text, text_eq, arith,
}
use buyseekk.Shared.Effect.{ok, err}
use buyseekk.Auth.State.{State, AuthError, Env}
use buyseekk.Auth.Sessions.{Session, refresh, logout}
use buyseekk.Auth.Sessions.Revocation.{
  IsDead, IsUnique, refresh_of_dead, refresh_token-IsDead, refresh-IsDead, logout-IsDead,
  logout_token-IsDead,
}
use buyseekk.Auth.Accounts.{reset_password}
use buyseekk.Auth.Accounts.Endings.{
  login-KeepsDead, register-KeepsDead, verify_email-KeepsDead, resend-KeepsDead, forgot-KeepsDead,
  me-KeepsDead, reset-KeepsDead, purge-IsDead, IsOwned, reset_owned-IsDead,
}
use buyseekk.Auth.Runs.{Call, perform, perform_all, draws}

module _ (env : Env) (hash : Text) where
  perform-IsDead :
      (call : Call) (state : State)
      → draws env hash call ≡ false
      → IsDead hash state
      → IsDead hash (perform env call state)
  unfolding perform
  perform-IsDead (Call.registering now dto meta salt mail_token fresh) state d dead =
      register-KeepsDead hash env now dto meta salt mail_token fresh d state dead
  perform-IsDead (Call.logging_in now email password meta fresh) state d dead =
      login-KeepsDead hash env now email password meta fresh d state dead
  perform-IsDead (Call.refreshing now token device_id device_label fresh) state d dead =
      refresh-IsDead env now device_id device_label fresh state token hash d dead
  perform-IsDead (Call.logging_out now plain) state d dead =
      logout-IsDead env now plain state hash dead
  perform-IsDead (Call.verifying now token) state d dead =
      verify_email-KeepsDead hash env now token state dead
  perform-IsDead (Call.resending now user_id mail_token) state d dead =
      resend-KeepsDead hash env now user_id mail_token state dead
  perform-IsDead (Call.forgetting now email plain) state d dead =
      forgot-KeepsDead hash env now email plain state dead
  perform-IsDead (Call.resetting now token password salt) state d dead =
      reset-KeepsDead hash env now token password salt state dead
  perform-IsDead (Call.reading user_id) state d dead = me-KeepsDead hash user_id state dead
  perform-IsDead (Call.purging now) state d dead = purge-IsDead hash now state dead

  perform_all-IsDead :
      (calls : List Call) (state : State)
      → some_of (draws env hash) calls ≡ false
      → IsDead hash state
      → IsDead hash (perform_all env calls state)
  perform_all-IsDead [] state d dead = dead
  perform_all-IsDead (call ∷ calls) state d dead =
      perform_all-IsDead calls (perform env call state) (ground arith)
        (perform-IsDead call state (ground arith) dead)

-- A later attempt with the token: its time, the device it names, and the text that would be drawn.
pub record Attempt : Type 0 where
  pub now : ℕ
  pub device_id : Option Text
  pub device_label : Option Text
  pub fresh : Text

abbrev pub IsRefused : Env → Text → Attempt → State → Type 0
IsRefused env token attempt state =
    refresh env attempt.now (some token) attempt.device_id attempt.device_label attempt.fresh state
    ≡ (err AuthError.session_expired, state)

module _ (env : Env) (token : Text) (calls : List Call) (attempt : Attempt)
    (undrawn : some_of (draws env (env.hash_token token)) calls ≡ false) where
  dead_forever :
      (state : State)
      → IsDead (env.hash_token token) state
      → IsRefused env token attempt (perform_all env calls state)
  dead_forever state dead =
      refresh_of_dead env attempt.now attempt.device_id attempt.device_label attempt.fresh
        (perform_all env calls state) token
        (perform_all-IsDead env (env.hash_token token) calls state undrawn dead)

  -- A refresh token works once. After a renewal that went through, and any calls to the API in any order, none of
  -- which draws a token with the same hash, the token is refused and the attempt changes nothing. Its
  -- hash had one row, and the token drawn by the renewal has another hash.
  pub refresh_once :
      (now : ℕ) (device_id device_label : Option Text) (fresh : Text) (state : State)
      {session : Session}
      → IsUnique (env.hash_token token) state
      → text_eq (env.hash_token fresh) (env.hash_token token) ≡ false
      → (refresh env now (some token) device_id device_label fresh state).0 ≡ ok session
      → IsRefused env token attempt (
          perform_all env calls (refresh env now (some token) device_id device_label fresh state).1)
  refresh_once now device_id device_label fresh state unique other h =
      dead_forever (refresh env now (some token) device_id device_label fresh state).1
        (refresh_token-IsDead env now device_id device_label fresh state token other unique h)

  -- A refresh token that was logged out is refused from then on, after any calls to the API that draw no
  -- token with the same hash. Its hash had at most one row.
  pub logout_ends :
      (now : ℕ) (state : State)
      → is_empty token ≡ false
      → IsUnique (env.hash_token token) state
      → IsRefused env token attempt (perform_all env calls (logout env now (some token) state))
  logout_ends now state given unique =
      dead_forever (logout env now (some token) state)
        (logout_token-IsDead env now token state given unique)

  -- A password that is reset ends the sessions of its user: a refresh token of that user is refused from
  -- then on, after any calls to the API that draw no token with the same hash.
  pub reset_ends :
      (now : ℕ) (mail_token password salt : Text) (state : State) {user_id : ℕ}
      → (reset_password env now mail_token password salt state).0 ≡ ok user_id
      → IsOwned (env.hash_token token) user_id state
      → IsRefused env token attempt
          (perform_all env calls (reset_password env now mail_token password salt state).1)
  reset_ends now mail_token password salt state h owned =
      dead_forever (reset_password env now mail_token password salt state).1
        (reset_owned-IsDead (env.hash_token token) env now mail_token password salt state h owned)
