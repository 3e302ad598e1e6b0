-- ===== src/Auth/Accounts/Endings.antt =====
-- What the account operations do to a refresh token that is dead, and to the tokens of a user whose
-- password is reset.
use buyseekk.Prelude.{
  ℕ, ◌≡◌, refl, inl, inr, Bool, true, false, not, Option, none, some, is_some, List, [], ◌∷◌, ◌++◌,
  ◌&&◌, ◌||◌, ◌==◌, length, select, update_where, count_where, ltb, Text, text_eq, arith,
  Option-cases,
}
use buyseekk.Shared.Effect.{Outcome, ok, err, write, ◌>>=◌, ◌>>◌}
use buyseekk.Shared.Keyed.{find_first}
use buyseekk.Auth.State.{
  Account, RefreshSessionMeta, RefreshToken, SecurityEvent, State, AuthError, Action, Env,
}
use buyseekk.Auth.Sessions.{
  Session, log, issue_tokens, assert_may_use, normalize_session_user, revoke,
}
use buyseekk.Auth.Sessions.Revocation.{
  is_live, IsDead, issue-IsDead, normalize-IsDead, may_use-cases,
}
use buyseekk.Auth.Accounts.{
  canonicalize_email, find_user_by_email, send_verification_email, RegisterDto, new_account,
  register, check_password, login, verify_email, resend_verification, forgot_password, is_live_of,
  live_reset, commit_reset, reset_password, me, purge_expired_tokens,
}

module _ (hash : Text) where
  abbrev KeepsDead : {A : Type 0} → Action A → Type 0
  KeepsDead m = (state : State) → IsDead hash state → IsDead hash (m state).1

  bind-KeepsDead :
      {A B : Type 0} (m : Action A) (f : A → Action B)
      → KeepsDead m
      → ((a : A) → KeepsDead (f a))
      → KeepsDead (m >>= f)
  bind-KeepsDead {A} {B} m f q r state dead = after (m state).0 (m state).1 (q state dead)
    where
      after :
          (o : Outcome AuthError A) (state' : State)
          → IsDead hash state'
          → let out : Outcome AuthError B × State = elim o [
            | ok a ↦ f a state'
            | err e ↦ (err e, state')
          ] in
            IsDead hash out.1
      after (ok a) state' d = r a state' d
      after (err e) state' d = d

  select-dead :
      (p : RefreshToken → Bool) (ts : List RefreshToken)
      → count_where (is_live hash) ts ≡ 0
      → count_where (is_live hash) (select p ts) ≡ 0
  select-dead p [] h = refl
  select-dead p (t ∷ ts) h = ground (arith, select-dead p ts)

  update-dead :
      (now : ℕ) (p : RefreshToken → Bool) (ts : List RefreshToken)
      → count_where (is_live hash) ts ≡ 0
      → count_where (is_live hash) (update_where p (revoke now) ts) ≡ 0
  update-dead now p [] h = refl
  update-dead now p (t ∷ ts) h = ground (arith, update-dead now p ts)

  send-KeepsDead :
      (env : Env) (now user_id : ℕ) (plain : Text)
      → KeepsDead (send_verification_email env now user_id plain)
  unfolding send_verification_email
  send-KeepsDead env now user_id plain state dead = ground arith

  may_use-KeepsDead : (env : Env) (a : Account) → KeepsDead (assert_may_use env a)
  may_use-KeepsDead env a state dead = elim (may_use-cases env a state) [
    | inl (e, h) ↦ rw h dead
    | inr h ↦ rw h dead
  ]

  check-KeepsDead :
      (env : Env) (password : Text) (found : Option (ℕ × Account))
      → KeepsDead (check_password env password found)
  check-KeepsDead env password none state dead = dead
  check-KeepsDead env password (some (id, a)) state dead = ground arith

  -- What a login does once the user may log in.
  abbrev session_of : Env → ℕ → ℕ → RefreshSessionMeta → Text → Action Session
  session_of env now user_id meta fresh =
      write (log (SecurityEvent.login_success user_id))
      >> (write (normalize_session_user user_id) >> issue_tokens env now user_id meta fresh)

  pub login-KeepsDead :
      (env : Env) (now : ℕ) (email password : Text) (meta : RefreshSessionMeta) (fresh : Text)
      → text_eq (env.hash_token fresh) hash ≡ false
      → KeepsDead (login env now email password meta fresh)
  unfolding login
  login-KeepsDead env now email password meta fresh other state dead =
      bind-KeepsDead
        (check_password env password (find_user_by_email env (canonicalize_email env email) state))
        (λ user. assert_may_use env user.1 >> session_of env now user.0 meta fresh)
        (check-KeepsDead env password (find_user_by_email env (canonicalize_email env email) state))
        (λ user.
          bind-KeepsDead (assert_may_use env user.1) (λ _. session_of env now user.0 meta fresh)
            (may_use-KeepsDead env user.1)
            (λ _ state' d.
              let welcome =
                normalize_session_user user.0 (log (SecurityEvent.login_success user.0) state') in
              issue-IsDead env now user.0 meta fresh hash welcome other
                (normalize-IsDead hash user.0 (log (SecurityEvent.login_success user.0) state') d)))
        state dead

  abbrev with_account : Env → RegisterDto → Text → State → State
  with_account env dto salt state = record state {
    accounts = state.accounts ++ new_account env dto salt ∷ [];
  }

  pub register-KeepsDead :
      (env : Env) (now : ℕ) (dto : RegisterDto) (meta : RefreshSessionMeta)
      (salt mail_token fresh : Text)
      → text_eq (env.hash_token fresh) hash ≡ false
      → KeepsDead (register env now dto meta salt mail_token fresh)
  unfolding register
  register-KeepsDead env now dto meta salt mail_token fresh other state dead = ground (
    arith,
    bind-KeepsDead (send_verification_email env now (length state.accounts) mail_token)
        (λ _.
          write (log (SecurityEvent.user_registered (length state.accounts)))
          >> issue_tokens env now (length state.accounts) meta fresh)
        (send-KeepsDead env now (length state.accounts) mail_token)
        (λ _ state' d. issue-IsDead env now (length state.accounts) meta fresh hash _ other d)
        (with_account env dto salt state) dead,
  )

  pub verify_email-KeepsDead :
      (env : Env) (now : ℕ) (token : Text) → KeepsDead (verify_email env now token)
  unfolding verify_email
  verify_email-KeepsDead env now token state dead = ground arith

  pub resend-KeepsDead :
      (env : Env) (now user_id : ℕ) (mail_token : Text)
      → KeepsDead (resend_verification env now user_id mail_token)
  unfolding resend_verification
  resend-KeepsDead env now user_id mail_token state dead =
      ground (arith, send-KeepsDead env now user_id mail_token state dead)

  pub forgot-KeepsDead :
      (env : Env) (now : ℕ) (email plain : Text) → KeepsDead (forgot_password env now email plain)
  unfolding forgot_password
  forgot-KeepsDead env now email plain state dead = ground arith

  pub me-KeepsDead : (user_id : ℕ) → KeepsDead (me user_id)
  unfolding me
  me-KeepsDead user_id state dead = ground (arith, normalize-IsDead hash user_id state dead)

  commit-IsDead :
      (now user_id : ℕ) (reset password_hash : Text) (state : State)
      → IsDead hash state
      → IsDead hash (commit_reset now user_id reset password_hash state)
  unfolding commit_reset
  commit-IsDead now user_id reset password_hash state dead =
      update-dead now (is_live_of user_id) state.refresh_tokens dead

  pub reset-KeepsDead :
      (env : Env) (now : ℕ) (token password salt : Text)
      → KeepsDead (reset_password env now token password salt)
  unfolding reset_password
  reset-KeepsDead env now token password salt state dead =
      elim (Option-cases (
        live_reset now
          (find_first (λ t. text_eq t.token_hash (env.hash_token token)) state.reset_tokens))) [
            | inl e ↦ ground arith
            | inr (stored, e) ↦ ground (
              arith,
              commit-IsDead now stored.user_id (env.hash_token token)
                  (env.hash_password password salt) state dead,
            )
          ]

  pub purge-IsDead :
      (now : ℕ) (state : State) → IsDead hash state → IsDead hash (purge_expired_tokens now state)
  unfolding purge_expired_tokens
  purge-IsDead now state dead =
      select-dead (λ t. not (ltb t.expires_at now || is_some t.revoked_at)) state.refresh_tokens
        dead

-- No row with the hash is another user's.
abbrev pub IsOwned : Text → ℕ → State → Type 0
IsOwned hash user_id state =
    count_where (λ t. text_eq t.token_hash hash && not (t.user_id == user_id)) state.refresh_tokens
    ≡ 0

revoke_all-dead :
    (hash : Text) (now user_id : ℕ) (ts : List RefreshToken)
    → count_where (λ t. text_eq t.token_hash hash && not (t.user_id == user_id)) ts ≡ 0
    → count_where (is_live hash) (update_where (is_live_of user_id) (revoke now) ts) ≡ 0
revoke_all-dead hash now user_id [] h = refl
revoke_all-dead hash now user_id (t ∷ ts) h = ground (arith, revoke_all-dead hash now user_id ts)

commit_owned-IsDead :
    (hash : Text) (now user_id : ℕ) (reset password_hash : Text) (state : State)
    → IsOwned hash user_id state
    → IsDead hash (commit_reset now user_id reset password_hash state)
unfolding commit_reset
commit_owned-IsDead hash now user_id reset password_hash state owned =
    revoke_all-dead hash now user_id state.refresh_tokens owned

-- A password that was reset has ended every session of its user.
pub reset_owned-IsDead :
    (hash : Text) (env : Env) (now : ℕ) (token password salt : Text) (state : State) {user_id : ℕ}
    → (reset_password env now token password salt state).0 ≡ ok user_id
    → IsOwned hash user_id state
    → IsDead hash (reset_password env now token password salt state).1
unfolding reset_password
reset_owned-IsDead hash env now token password salt state {user_id} h owned =
    elim (Option-cases (
      live_reset now
        (find_first (λ t. text_eq t.token_hash (env.hash_token token)) state.reset_tokens))) [
          | inl e ↦ absurd (cc (refused e))
          | inr (stored, e) ↦ ground (
            arith,
            commit_owned-IsDead hash now user_id (env.hash_token token)
                (env.hash_password password salt) state owned,
          )
        ]
  where
    refused :
        live_reset now
            (find_first (λ t. text_eq t.token_hash (env.hash_token token)) state.reset_tokens)
          ≡ none
        → false ≡ true
    refused e = ground arith
