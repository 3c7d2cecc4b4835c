-- ===== src/Gds/Vault/Token.antt =====
-- `_request`, `_login_approle`, `_renew_self` and `ensure_token` of gds/app/vault_client.py. The answers of the
-- Vault come read, and the event of `_mark_success` in the audit table is left out.
use opcua_implementaion.Prelude.{
  ℕ, ◌+◌, ◌-◌, String, Bool, true, false, ◌&&◌, ◌||◌, Option, none, some, leb, ltb, ◌==◌, string_eq,
  number_eq, if◌then◌else◌,
}
use opcua_implementaion.Prelude.Text.{lower, has_text, take_text}

-- The object `auth` of an answer, where `lease_duration` is 0 and the token is `none` if it has not.
pub record Auth : Type 0 where
  pub client_token : Option String
  pub lease_duration : ℕ
  pub renewable : Option Bool

-- The object `data` of a lookup.
pub record Lookup : Type 0 where
  pub ttl : ℕ
  pub renewable : Option Bool

-- An answer, whose JSON is `none` where it cannot be read.
pub record Response : Type 0 where
  pub status_code : ℕ
  pub text : String
  pub auth : Option Auth
  pub lookup : Option Lookup

pub record TokenState : Type 0 where
  pub token : Option String
  pub renewable : Bool
  pub expire_time_epoch : ℕ
  pub last_error : Option String
  pub vault_sealed : Bool

-- What a call gives, VaultSealedError, or another exception.
pub data Attempt (A : Type 0) : Type 0 where
  got : A → Attempt A
  sealed failed : Attempt A

unfoldable pub is_sealed_response : Response → Bool
is_sealed_response res =
    res.status_code == 503 || has_text "vault is sealed" (lower (take_text 4096 res.text))

unfoldable pub mark_sealed : TokenState → TokenState
mark_sealed state = record state { vault_sealed = true; last_error = some "vault_sealed" }

unfoldable pub mark_success : TokenState → TokenState
mark_success state = record state { vault_sealed = false }

-- `_request`, by the answer or `none` for an error of the transport.
unfoldable pub request : Option Response → TokenState → Attempt Response × TokenState
request none state = (failed, state)
request (some res) state =
    if is_sealed_response res then (sealed, mark_sealed state) else (got res, mark_success state)

-- `raise_for_status`
abbrev pub is_success : Response → Bool
is_success res = leb 200 res.status_code && ltb res.status_code 300

abbrev pub or_flag : Option Bool → Bool → Bool
or_flag none default = default
or_flag (some b) default = b

abbrev pub token_text : Option String → String
token_text none = ""
token_text (some t) = t

-- What a call of `ensure_token` meets: the files of the role, the answers to each request that it may
-- make, and the times, in whole seconds, at its start and after each answer.
pub record Answers : Type 0 where
  pub files_read : Bool
  pub login : Option Response
  pub relogin : Option Response
  pub lookup : Option Response
  pub renew : Option Response
  pub now : ℕ
  pub login_at : ℕ
  pub relogin_at : ℕ
  pub renew_at : ℕ
  pub margin : ℕ

unfoldable pub take_token : Auth → ℕ → TokenState → Attempt Unit × TokenState
take_token auth at state = if token_text auth.client_token == "" then (failed, state) else (
  got tt,
  record state {
    token = auth.client_token;
    renewable = or_flag auth.renewable false;
    expire_time_epoch = at + auth.lease_duration;
    last_error = none;
  },
)

abbrev pub take_auth : Option Auth → ℕ → TokenState → Attempt Unit × TokenState
take_auth none at state = (failed, state)
take_auth (some auth) at state = take_token auth at state

abbrev pub login_answered : Attempt Response × TokenState → ℕ → Attempt Unit × TokenState
login_answered (got res, state) at =
    if is_success res then take_auth res.auth at state else (failed, state)
login_answered (sealed, state) at = (sealed, state)
login_answered (failed, state) at = (failed, state)

-- `_login_approle`, by its answer and the time after it.
unfoldable pub login_approle : Bool → Option Response → ℕ → TokenState → Attempt Unit × TokenState
login_approle files_read answer at state =
    if files_read then login_answered (request answer state) at else (failed, state)

abbrev pub renewed_with : Option Auth → ℕ → TokenState → Attempt Unit × TokenState
renewed_with none at state = (failed, state)
renewed_with (some auth) at state = (
  got tt,
  record state {
    renewable = or_flag auth.renewable state.renewable;
    expire_time_epoch = at + auth.lease_duration;
    last_error = none;
  },
)

abbrev pub renew_answered : Attempt Response × TokenState → ℕ → Attempt Unit × TokenState
renew_answered (got res, state) at =
    if is_success res then renewed_with res.auth at state else (failed, state)
renew_answered (sealed, state) at = (sealed, state)
renew_answered (failed, state) at = (failed, state)

-- `_renew_self`
unfoldable pub renew_self : Option Response → ℕ → TokenState → Attempt Unit × TokenState
renew_self answer at state = renew_answered (request answer state) at

-- `return self._state.token or ""` after a step that did not raise.
abbrev pub returned : Attempt Unit × TokenState → Attempt String × TokenState
returned (got u, state) = (got (token_text state.token), state)
returned (sealed, state) = (sealed, state)
returned (failed, state) = (failed, state)

module _ (answers : Answers) where
  -- The login after a renewal, or another login, that failed.
  abbrev pub or_relogin : Attempt Unit × TokenState → Attempt Unit × TokenState
  or_relogin (got u, state) = (got u, state)
  or_relogin (sealed, state) = (sealed, state)
  or_relogin (failed, state) =
      login_approle answers.files_read answers.relogin answers.relogin_at
        (record state { last_error = some "token_renew_failed" })

  unfoldable pub renew_or_login : TokenState → Attempt Unit × TokenState
  renew_or_login state = or_relogin (
      if state.renewable
      then renew_self answers.renew answers.renew_at state
      else login_approle answers.files_read answers.login answers.login_at state)

  -- The state after a lookup that could be read.
  abbrev pub refreshed : Lookup → TokenState → TokenState
  refreshed found state = record state {
    renewable = or_flag found.renewable state.renewable;
    expire_time_epoch = answers.now + found.ttl;
    last_error = none;
  }

  unfoldable pub after_lookup : Lookup → TokenState → Attempt Unit × TokenState
  after_lookup found state =
      let current = refreshed found state in
      if leb (current.expire_time_epoch - answers.now) answers.margin
      then renew_or_login current
      else (got tt, current)

  unfoldable pub lookup_failed : TokenState → Attempt Unit × TokenState
  lookup_failed state =
      login_approle answers.files_read answers.login answers.login_at
        (record state { last_error = some "token_lookup_failed" })

  abbrev pub with_lookup : Option Lookup → TokenState → Attempt Unit × TokenState
  with_lookup none state = lookup_failed state
  with_lookup (some found) state = after_lookup found state

  abbrev pub lookup_answered : Attempt Response × TokenState → Attempt Unit × TokenState
  lookup_answered (got res, state) =
      if is_success res then with_lookup res.lookup state else lookup_failed state
  lookup_answered (sealed, state) = (sealed, state)
  lookup_answered (failed, state) = lookup_failed state

  unfoldable pub ensure_token : TokenState → Attempt String × TokenState
  ensure_token state = returned (
      if token_text state.token == ""
      then login_approle answers.files_read answers.login answers.login_at state
      else lookup_answered (request answers.lookup state))
