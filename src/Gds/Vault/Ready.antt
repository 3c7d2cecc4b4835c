-- ===== src/Gds/Vault/Ready.antt =====
-- The token that `ensure_token` returns.
use opcua_implementaion.Prelude.{
  ℕ, ◌+◌, ◌-◌, ◌<◌, String, Bool, true, false, Option, none, some, leb, ◌==◌, string_eq,
  if◌then◌else◌, ◌≡◌, ◌⊎◌, refl, arith, inl, inr, Bool-cases,
}
use opcua_implementaion.Gds.Vault.Token.{
  Auth, Lookup, Response, TokenState, Attempt, got, sealed, failed, is_sealed_response, request,
  mark_success, mark_sealed, is_success, token_text, or_flag, refreshed, Answers, take_token,
  take_auth, login_answered, login_approle, renewed_with, renew_self, returned, or_relogin,
  renew_or_login, after_lookup, lookup_failed, with_lookup, lookup_answered, ensure_token,
}

module _ (answers : Answers) where
  -- Why a token may be used: it has more time left than the margin, or the Vault has just given it or
  -- just renewed it.
  pub data IsFresh (state : TokenState) : Type 0 where
    lasts : answers.now + answers.margin < state.expire_time_epoch → IsFresh state
    given :
        (res : Response) (auth : Auth) (at : ℕ)
        → (answers.login ≡ some res) ⊎ (answers.relogin ≡ some res)
        → res.auth ≡ some auth
        → state.token ≡ auth.client_token
        → state.expire_time_epoch ≡ at + auth.lease_duration
        → IsFresh state
    renewed :
        (res : Response) (auth : Auth)
        → answers.renew ≡ some res
        → res.auth ≡ some auth
        → state.expire_time_epoch ≡ answers.renew_at + auth.lease_duration
        → IsFresh state

  -- A step that did not raise leaves a token, an open Vault, and a reason to use the token.
  pub record IsReady (state : TokenState) : Type 0 where
    pub has_token : (token_text state.token == "") ≡ false
    pub unsealed : state.vault_sealed ≡ false
    pub fresh : IsFresh state

  abbrev Settles : Attempt Unit × TokenState → Type 0
  Settles step = step.0 ≡ got tt → IsReady step.1

  either-Settles :
      (b : Bool) (left right : Attempt Unit × TokenState)
      → (b ≡ true → Settles left)
      → (b ≡ false → Settles right)
      → Settles (if b then left else right)
  either-Settles true left right l r = l refl
  either-Settles false left right l r = r refl

  raised-Settles : (state : TokenState) → Settles (failed, state)
  raised-Settles state h = absurd (ground arith)

  sealed-Settles : (state : TokenState) → Settles (sealed, state)
  sealed-Settles state h = absurd (ground arith)

  take-Settles :
      (res : Response) (auth : Auth) (at : ℕ) (state : TokenState)
      → (answers.login ≡ some res) ⊎ (answers.relogin ≡ some res)
      → res.auth ≡ some auth
      → state.vault_sealed ≡ false
      → Settles (take_token auth at state)
  unfolding take_token
  take-Settles res auth at state from has_auth is_open =
      elim (Bool-cases (token_text auth.client_token == "")) [
        | inl blank ↦ rw blank (raised-Settles state)
        | inr given_token ↦
            (let ready : (h : Attempt.got tt ≡ got tt)
                  → IsReady (record state {
                    token = auth.client_token;
                    renewable = or_flag auth.renewable false;
                    expire_time_epoch = at + auth.lease_duration;
                    last_error = none;
                  }) =
                λ h. record {
                  has_token = given_token;
                  unsealed = is_open;
                  fresh = IsFresh.given res auth at from has_auth refl refl;
                } in
              rw given_token ready)
      ]

  auth-Settles :
      (res : Response) (auth : Option Auth) (at : ℕ) (state : TokenState)
      → (answers.login ≡ some res) ⊎ (answers.relogin ≡ some res)
      → res.auth ≡ auth
      → state.vault_sealed ≡ false
      → Settles (take_auth auth at state)
  auth-Settles res none at state from has_auth is_open = raised-Settles state
  auth-Settles res (some auth) at state from has_auth is_open =
      take-Settles res auth at state from has_auth is_open

  login_request-Settles :
      (answer : Option Response) (at : ℕ) (state : TokenState)
      → (answers.login ≡ answer) ⊎ (answers.relogin ≡ answer)
      → Settles (login_answered (request answer state) at)
  unfolding request mark_success
  login_request-Settles none at state from = raised-Settles state
  login_request-Settles (some res) at state from = elim (Bool-cases (is_sealed_response res)) [
    | inl shut ↦ rw shut (sealed-Settles (mark_sealed state))
    | inr answered ↦ elim (Bool-cases (is_success res)) [
      | inr bad ↦ rw (answered, bad) (raised-Settles (mark_success state))
      | inl ok ↦
          rw (answered, ok) (auth-Settles res res.auth at (mark_success state) from refl refl)
    ]
  ]

  login-Settles :
      (files_read : Bool) (answer : Option Response) (at : ℕ) (state : TokenState)
      → (answers.login ≡ answer) ⊎ (answers.relogin ≡ answer)
      → Settles (login_approle files_read answer at state)
  unfolding login_approle
  login-Settles true answer at state from = login_request-Settles answer at state from
  login-Settles false answer at state from = raised-Settles state

  -- A state in which the client has a token.
  abbrev HasToken : TokenState → Type 0
  HasToken state = (token_text state.token == "") ≡ false

  renewed-Settles :
      (res : Response) (auth : Option Auth) (state : TokenState)
      → answers.renew ≡ some res
      → res.auth ≡ auth
      → HasToken state
      → state.vault_sealed ≡ false
      → Settles (renewed_with auth answers.renew_at state)
  renewed-Settles res none state from has_auth present is_open = raised-Settles state
  renewed-Settles res (some auth) state from has_auth present is_open = λ h. record {
    has_token = present;
    unsealed = is_open;
    fresh = IsFresh.renewed res auth from has_auth refl;
  }

  renew-Settles :
      (answer : Option Response) (state : TokenState)
      → answers.renew ≡ answer
      → HasToken state
      → Settles (renew_self answer answers.renew_at state)
  unfolding renew_self request mark_success
  renew-Settles none state from present = raised-Settles state
  renew-Settles (some res) state from present = elim (Bool-cases (is_sealed_response res)) [
    | inl shut ↦ rw shut (sealed-Settles (mark_sealed state))
    | inr answered ↦ elim (Bool-cases (is_success res)) [
      | inr bad ↦ rw (answered, bad) (raised-Settles (mark_success state))
      | inl ok ↦
          rw (answered, ok)
            (renewed-Settles res res.auth (mark_success state) from refl present refl)
    ]
  ]

  relogin-Settles :
      (step : Attempt Unit × TokenState) → Settles step → Settles (or_relogin answers step)
  relogin-Settles (got u, state) ready = ready
  relogin-Settles (sealed, state) ready = sealed-Settles state
  relogin-Settles (failed, state) ready =
      login-Settles answers.files_read answers.relogin answers.relogin_at _ (inr refl)

  renew_or_login-Settles :
      (state : TokenState) → HasToken state → Settles (renew_or_login answers state)
  unfolding renew_or_login
  renew_or_login-Settles state present =
      let renewal = renew-Settles answers.renew state refl present in
      let login =
        login-Settles answers.files_read answers.login answers.login_at state (inl refl) in
      relogin-Settles _ (either-Settles state.renewable _ _ (λ e. renewal) (λ e. login))

  lookup_failed-Settles : (state : TokenState) → Settles (lookup_failed answers state)
  unfolding lookup_failed
  lookup_failed-Settles state =
      login-Settles answers.files_read answers.login answers.login_at _ (inl refl)

  after_lookup-Settles :
      (found : Lookup) (state : TokenState)
      → HasToken state
      → state.vault_sealed ≡ false
      → Settles (after_lookup answers found state)
  unfolding after_lookup
  after_lookup-Settles found state present is_open =
      either-Settles (leb ((answers.now + found.ttl) - answers.now) answers.margin) _ _
        (λ e. renew_or_login-Settles (refreshed answers found state) present)
        (λ e h. record {
          has_token = present;
          unsealed = is_open;
          fresh = IsFresh.lasts (ground arith);
        })

  lookup-Settles :
      (res : Response) (found : Option Lookup) (state : TokenState)
      → HasToken state
      → state.vault_sealed ≡ false
      → Settles (with_lookup answers found state)
  lookup-Settles res none state present is_open = lookup_failed-Settles state
  lookup-Settles res (some found) state present is_open =
      after_lookup-Settles found state present is_open

  answered-Settles :
      (answer : Option Response) (state : TokenState)
      → HasToken state
      → Settles (lookup_answered answers (request answer state))
  unfolding request mark_success
  answered-Settles none state present = lookup_failed-Settles state
  answered-Settles (some res) state present = elim (Bool-cases (is_sealed_response res)) [
    | inl shut ↦ rw shut (sealed-Settles (mark_sealed state))
    | inr answered ↦ elim (Bool-cases (is_success res)) [
      | inr bad ↦ rw (answered, bad) (lookup_failed-Settles (mark_success state))
      | inl ok ↦ rw (answered, ok) (lookup-Settles res res.lookup (mark_success state) present refl)
    ]
  ]

  returned-IsReady :
      (step : Attempt Unit × TokenState) (t : String)
      → Settles step
      → (returned step).0 ≡ got t
      → IsReady (returned step).1 × (t ≡ token_text (returned step).1.token)
  returned-IsReady (got u, state) t ready h = (ready refl, ground arith)
  returned-IsReady (sealed, state) t ready h = absurd (ground arith)
  returned-IsReady (failed, state) t ready h = absurd (ground arith)

  -- A token that is returned is the state's and is not empty, the Vault was not sealed, and the token
  -- lasts longer than the margin, or was just given or renewed by the Vault.
  pub ensure_token-IsReady :
      (state : TokenState) (t : String)
      → (ensure_token answers state).0 ≡ got t
      → IsReady (ensure_token answers state).1
        × (t ≡ token_text (ensure_token answers state).1.token)
  unfolding ensure_token
  ensure_token-IsReady state t h =
      returned-IsReady _ t
        (either-Settles (token_text state.token == "") _ _
          (λ e. login-Settles answers.files_read answers.login answers.login_at state (inl refl))
          (λ e. answered-Settles answers.lookup state e))
        h
