-- ===== src/Auth/Sessions/Revocation.antt =====
-- Tokens that are dead: no row with the hash can be used. What each session operation does to them.
use buyseekk.Prelude.{
  ℕ, ◌≤◌, ◌≡◌, ◌⊎◌, refl, sym, subst, inl, inr, Bool, true, false, Option, none, some, is_some,
  is_none, List, [], ◌∷◌, ◌++◌, ◌&&◌, get_elem?, count_where, count_where-append, Text, text_eq,
  is_empty, arith, Bool-cases, Option-cases,
}
use buyseekk.Shared.Effect.{Outcome, ok, err}
use buyseekk.Shared.Keyed.{find_first, modify_first}
use buyseekk.Auth.State.{
  Account, RefreshSessionMeta, RefreshToken, State, AuthError, Env, has_hash, find_refresh_token,
}
use buyseekk.Auth.Sessions.{
  Session, new_token, issue_tokens, assert_may_use, normalize_session_user, revoke, use_up,
  update_token, is_closed_market, is_spent, given_token, patched, refresh, logout,
}

-- A row with the hash that is not revoked.
abbrev pub is_live : Text → RefreshToken → Bool
is_live hash t = text_eq t.token_hash hash && is_none t.revoked_at

abbrev pub IsDead : Text → State → Type 0
IsDead hash state = count_where (is_live hash) state.refresh_tokens ≡ 0

-- At most one row has the hash, as the unique column demands.
abbrev pub IsUnique : Text → State → Type 0
IsUnique hash state = count_where (has_hash hash) state.refresh_tokens ≤ 1

pub no_hash-dead :
    (hash : Text) (ts : List RefreshToken)
    → count_where (has_hash hash) ts ≡ 0
    → count_where (is_live hash) ts ≡ 0
no_hash-dead hash [] h = refl
no_hash-dead hash (t ∷ ts) h = ground (arith, no_hash-dead hash ts)

-- Revoking a row revives none, and leaves the rest as they are.
module _ (hash : Text) (f : RefreshToken → RefreshToken)
    (revokes : (t : RefreshToken) → is_some (f t).revoked_at ≡ true) where
  pub modify_first-dead :
      (p : RefreshToken → Bool) (ts : List RefreshToken)
      → count_where (is_live hash) ts ≡ 0
      → count_where (is_live hash) (modify_first p f ts) ≡ 0
  modify_first-dead p [] h = refl
  modify_first-dead p (t ∷ ts) h = ground (arith, revokes t, modify_first-dead p ts)

  -- The only row with the hash, once revoked.
  pub modify_first-revoked :
      (ts : List RefreshToken)
      → count_where (has_hash hash) ts ≤ 1
      → count_where (is_live hash) (modify_first (has_hash hash) f ts) ≡ 0
  modify_first-revoked [] h = refl
  modify_first-revoked (t ∷ ts) h =
      ground (arith, revokes t, modify_first-revoked ts, no_hash-dead hash ts)

find_dead :
    (hash : Text) (ts : List RefreshToken) {t : RefreshToken}
    → count_where (is_live hash) ts ≡ 0
    → find_first (has_hash hash) ts ≡ some t
    → is_some t.revoked_at ≡ true
find_dead hash [] h e = cc
find_dead hash (x ∷ ts) {t} h e = ground (arith, find_dead hash ts {t = t})

find_none :
    (hash : Text) (ts : List RefreshToken)
    → find_first (has_hash hash) ts ≡ none
    → count_where (is_live hash) ts ≡ 0
find_none hash [] e = refl
find_none hash (t ∷ ts) e = ground (arith, find_none hash ts)

-- The only row with the hash is revoked already.
unique_revoked :
    (hash : Text) (ts : List RefreshToken) {t : RefreshToken}
    → count_where (has_hash hash) ts ≤ 1
    → find_first (has_hash hash) ts ≡ some t
    → is_some t.revoked_at ≡ true
    → count_where (is_live hash) ts ≡ 0
unique_revoked hash [] h e r = refl
unique_revoked hash (x ∷ ts) {t} h e r =
    ground (arith, unique_revoked hash ts {t = t}, no_hash-dead hash ts)

append-dead :
    (hash : Text) (t : RefreshToken) (ts : List RefreshToken)
    → text_eq t.token_hash hash ≡ false
    → count_where (is_live hash) ts ≡ 0
    → count_where (is_live hash) (ts ++ t ∷ []) ≡ 0
append-dead hash t ts other h = ground (arith, count_where-append (is_live hash) ts (t ∷ []))

pub may_use-cases :
    (env : Env) (a : Account) (state : State)
    → ((e : AuthError) × (assert_may_use env a state ≡ (err e, state)))
      ⊎ (assert_may_use env a state ≡ (ok tt, state))
unfolding assert_may_use
may_use-cases env a state = elim (Bool-cases (is_closed_market env.launch_country a.country)) [
  | inl e ↦ inl (AuthError.market_closed, ground arith)
  | inr e ↦ elim (Bool-cases a.blocked) [
    | inl b ↦ inl (AuthError.account_blocked, ground arith)
    | inr b ↦ elim (Bool-cases a.suspended) [
      | inl c ↦ inl (AuthError.account_suspended, ground arith)
      | inr c ↦ inr (ground arith)
    ]
  ]
]

module _ (env : Env) (now : ℕ) (device_id device_label : Option Text) (fresh : Text)
    (state : State) where
  -- A token that is dead opens nothing.
  pub refresh_of_dead :
      (token : Text)
      → IsDead (env.hash_token token) state
      → refresh env now (some token) device_id device_label fresh state
        ≡ (err AuthError.session_expired, state)
  unfolding refresh
  refresh_of_dead token dead = elim (Bool-cases (is_empty token)) [
    | inl e ↦ ground arith
    | inr e ↦ elim (Option-cases (find_refresh_token (env.hash_token token) state)) [
      | inl none_found ↦ ground arith
      | inr (t, found) ↦
          ground (arith, find_dead (env.hash_token token) state.refresh_tokens dead found)
    ]
  ]

  -- What a renewal does: it throws and changes nothing, or spends the token and issues the next one.
  pub record Renewal (token : Text) : Type 0 where
    pub stored : RefreshToken
    pub next : RefreshSessionMeta
    pub found : find_refresh_token (env.hash_token token) state ≡ some stored
    pub fit : is_spent now stored ≡ false
    pub result :
        refresh env now (some token) device_id device_label fresh state
        ≡ issue_tokens env now stored.user_id next fresh (
            normalize_session_user stored.user_id
              (update_token (env.hash_token token) (use_up now) state))

  abbrev Unchanged : Option Text → Type 0
  Unchanged plain =
      (e : AuthError) × (refresh env now plain device_id device_label fresh state ≡ (err e, state))

  refresh_found :
      (token : Text) (stored : RefreshToken)
      → is_empty token ≡ false
      → find_refresh_token (env.hash_token token) state ≡ some stored
      → is_spent now stored ≡ false
      → Unchanged (some token) ⊎ Renewal token
  unfolding refresh
  refresh_found token stored given found fit =
      elim (Option-cases (get_elem? state.accounts stored.user_id)) [
        | inl e ↦ inl (AuthError.broken_reference, ground arith)
        | inr (account, known) ↦ elim (may_use-cases env account state) [
          | inl (e, refused) ↦ inl (e, ground arith)
          | inr allowed ↦ inr (record {
            stored = stored;
            next = record {
              client_type = stored.meta.client_type;
              device_id = patched device_id stored.meta.device_id;
              device_label = patched device_label stored.meta.device_label;
            };
            found = found;
            fit = fit;
            result = ground arith;
          })
        ]
      ]

  refresh-cases : (token : Text) → Unchanged (some token) ⊎ Renewal token
  unfolding refresh
  refresh-cases token = elim (Bool-cases (is_empty token)) [
    | inl e ↦ inl (AuthError.session_expired, ground arith)
    | inr given ↦ elim (Option-cases (find_refresh_token (env.hash_token token) state)) [
      | inl e ↦ inl (AuthError.session_expired, ground arith)
      | inr (stored, found) ↦ elim (Bool-cases (is_spent now stored)) [
        | inl e ↦ inl (AuthError.session_expired, ground arith)
        | inr fit ↦ refresh_found token stored given found fit
      ]
    ]
  ]

-- The tables after a session was issued: one more row, or the same ones.
module _ (env : Env) (now user_id : ℕ) (meta : RefreshSessionMeta) (plain : Text) where
  pub issue-IsDead :
      (hash : Text) (state : State)
      → text_eq (env.hash_token plain) hash ≡ false
      → IsDead hash state
      → IsDead hash (issue_tokens env now user_id meta plain state).1
  unfolding issue_tokens
  issue-IsDead hash state other dead = ground (
    arith,
    append-dead hash (new_token env now user_id meta plain) state.refresh_tokens other dead,
  )

pub normalize-IsDead :
    (hash : Text) (user_id : ℕ) (state : State)
    → IsDead hash state
    → IsDead hash (normalize_session_user user_id state)
unfolding normalize_session_user
normalize-IsDead hash user_id state dead = dead

-- A renewal that went through has spent the token.
module _ (env : Env) (now : ℕ) (device_id device_label : Option Text) (fresh : Text) (state : State)
    (token : Text) where
  abbrev renewed : Outcome AuthError Session × State
  renewed = refresh env now (some token) device_id device_label fresh state

  pub refresh_token-IsDead :
      {session : Session}
      → text_eq (env.hash_token fresh) (env.hash_token token) ≡ false
      → IsUnique (env.hash_token token) state
      → renewed.0 ≡ ok session
      → IsDead (env.hash_token token) renewed.1
  refresh_token-IsDead other unique h =
      elim (refresh-cases env now device_id device_label fresh state token) [
        | inl (e, failed) ↦ absurd (cc (h, failed))
        | inr done ↦
            subst (λ (x : Outcome AuthError Session × State). IsDead (env.hash_token token) x.1)
              (sym done.result)
              (issue-IsDead env now done.stored.user_id done.next fresh (env.hash_token token) _
                other (spent done.stored.user_id))
      ]
    where
      spent :
          (user_id : ℕ)
          → IsDead (env.hash_token token) (
              normalize_session_user user_id
                (update_token (env.hash_token token) (use_up now) state))
      spent user_id = normalize-IsDead (env.hash_token token) user_id _ (
          modify_first-revoked (env.hash_token token) (use_up now) (λ t. refl) state.refresh_tokens
            unique)

  pub refresh-IsDead :
      (hash : Text)
      → text_eq (env.hash_token fresh) hash ≡ false
      → IsDead hash state
      → IsDead hash renewed.1
  refresh-IsDead hash other dead =
      elim (refresh-cases env now device_id device_label fresh state token) [
        | inl (e, failed) ↦ rw failed dead
        | inr done ↦
            subst (λ (x : Outcome AuthError Session × State). IsDead hash x.1) (sym done.result)
              (issue-IsDead env now done.stored.user_id done.next fresh hash _ other (
                normalize-IsDead hash done.stored.user_id _ (
                  modify_first-dead hash (use_up now) (λ t. refl) (has_hash (env.hash_token token))
                    state.refresh_tokens dead)))
      ]

pub logout-IsDead :
    (env : Env) (now : ℕ) (plain : Option Text) (state : State) (hash : Text)
    → IsDead hash state
    → IsDead hash (logout env now plain state)
unfolding logout
logout-IsDead env now plain state hash dead = elim (Option-cases (given_token plain)) [
  | inl e ↦ ground arith
  | inr (token, e) ↦ ground (
    arith,
    modify_first-dead hash (revoke now) (λ t. refl) (has_hash (env.hash_token token))
        state.refresh_tokens dead,
  )
]

pub logout_token-IsDead :
    (env : Env) (now : ℕ) (token : Text) (state : State)
    → is_empty token ≡ false
    → IsUnique (env.hash_token token) state
    → IsDead (env.hash_token token) (logout env now (some token) state)
unfolding logout
logout_token-IsDead env now token state given unique =
    elim (Option-cases (find_refresh_token (env.hash_token token) state)) [
      | inl e ↦ ground (arith, find_none (env.hash_token token) state.refresh_tokens e)
      | inr (t, e) ↦ ground (
        arith,
        modify_first-revoked (env.hash_token token) (revoke now) (λ t. refl) state.refresh_tokens
            unique,
        unique_revoked (env.hash_token token) state.refresh_tokens unique e,
      )
    ]
