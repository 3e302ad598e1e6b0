-- ===== src/Auth/Runs.antt =====
-- Sequences of requests to the API's account routes, and the daily cleanup, in any order.
pub mod Revoked
use buyseekk.Prelude.{ℕ, Bool, false, Option, some, none, List, [], ◌∷◌, Text, text_eq}
use buyseekk.Auth.State.{RefreshSessionMeta, State, Env}
use buyseekk.Auth.Sessions.{refresh, logout}
use buyseekk.Auth.Accounts.{
  RegisterDto, register, login, verify_email, resend_verification, forgot_password, reset_password,
  me, purge_expired_tokens,
}

-- A call with the time, what the client sends and the texts that are drawn for it.
pub data Call : Type 0 where
  registering : (now : ℕ) → RegisterDto → RefreshSessionMeta → (salt mail_token fresh : Text) → Call
  logging_in : (now : ℕ) → (email password : Text) → RefreshSessionMeta → (fresh : Text) → Call
  refreshing :
      (now : ℕ) → (token : Text) → (device_id device_label : Option Text) → (fresh : Text) → Call
  logging_out : (now : ℕ) → Option Text → Call
  verifying : (now : ℕ) → (token : Text) → Call
  resending : (now user_id : ℕ) → (mail_token : Text) → Call
  forgetting : (now : ℕ) → (email plain : Text) → Call
  resetting : (now : ℕ) → (token password salt : Text) → Call
  reading : (user_id : ℕ) → Call
  purging : (now : ℕ) → Call

-- What a call leaves, whatever it answers.
unfoldable pub perform : Env → Call → State → State
perform env (Call.registering now dto meta salt mail_token fresh) state =
    (register env now dto meta salt mail_token fresh state).1
perform env (Call.logging_in now email password meta fresh) state =
    (login env now email password meta fresh state).1
perform env (Call.refreshing now token device_id device_label fresh) state =
    (refresh env now (some token) device_id device_label fresh state).1
perform env (Call.logging_out now plain) state = logout env now plain state
perform env (Call.verifying now token) state = (verify_email env now token state).1
perform env (Call.resending now user_id mail_token) state =
    (resend_verification env now user_id mail_token state).1
perform env (Call.forgetting now email plain) state = (forgot_password env now email plain state).1
perform env (Call.resetting now token password salt) state =
    (reset_password env now token password salt state).1
perform env (Call.reading user_id) state = (me user_id state).1
perform env (Call.purging now) state = purge_expired_tokens now state

abbrev pub perform_all : Env → List Call → State → State
perform_all env [] state = state
perform_all env (call ∷ calls) state = perform_all env calls (perform env call state)

-- Does a call draw a refresh token with this hash?
abbrev pub draws : Env → Text → Call → Bool
draws env hash (Call.registering now dto meta salt mail_token fresh) =
    text_eq (env.hash_token fresh) hash
draws env hash (Call.logging_in now email password meta fresh) = text_eq (env.hash_token fresh) hash
draws env hash (Call.refreshing now token device_id device_label fresh) =
    text_eq (env.hash_token fresh) hash
draws env hash _ = false
