-- ===== src/Gds/Auth/Grants.antt =====
-- When the service grants a pull, and what it records.
use opcua_implementaion.Prelude.{
  String, true, ◌||◌, Option, none, some, [], ◌∷◌, ◌++◌, ◌==◌, string_eq, number_eq, if◌then◌else◌,
  ◌≡◌, ◌≢◌, inl, inr, refl, arith, eq_iff, Bool-cases, Option-cases,
}
use opcua_implementaion.Prelude.Text.{strip}
use opcua_implementaion.Gds.Db.{Db, AuditEvent, Details, audit}
use opcua_implementaion.Gds.Auth.Policies.{AgentPolicy}
use opcua_implementaion.Gds.Auth.Store.{AgentAuthStore, Looked, failed, found, get_policy}
use opcua_implementaion.Gds.Auth.Authorize.{
  Request, AuthSettings, Pull, Answer, granted, denied, type_error, verify_token, allowed, judge,
  answer, refuse, authorize_agent_pull, deny_agent_on_admin_endpoint,
}

verify_token_same :
    (policy : AgentPolicy) (token : String)
    → verify_token policy token ≡ some true
    → policy.token ≡ token
unfolding verify_token
verify_token_same policy token h = ground (arith, eq_iff policy.token token)

-- What a grant needs: the agent's policy, its very token, and a pull within its scope.
pub record Entitled (request : Request) (pull : Pull) (looked : Looked) : Type 0 where
  pub policy : AgentPolicy
  pub of_agent : looked ≡ found (some policy)
  pub of_token : policy.token ≡ strip request.agent_token
  pub in_scope : allowed policy pull ≡ true

judge_grants :
    (request : Request) (pull : Pull) (policy : AgentPolicy) (db : Db)
    → (judge request pull policy db).0 ≡ granted
    → (verify_token policy (strip request.agent_token) ≡ some true) × (allowed policy pull ≡ true)
unfolding judge
judge_grants request pull policy db h = ground arith

answer_grants :
    (request : Request) (pull : Pull) (looked : Looked) (db : Db)
    → (answer request pull looked db).0 ≡ granted
    → Entitled request pull looked
unfolding answer
answer_grants request pull failed db h = absurd (ground arith)
answer_grants request pull (found none) db h = absurd (ground arith)
answer_grants request pull (found (some policy)) db h =
    let (verified, scope) = judge_grants request pull policy db h in
    record {
      policy = policy;
      of_agent = refl;
      of_token = verify_token_same policy (strip request.agent_token) verified;
      in_scope = scope;
    }

-- With authentication on, an agent is granted a pull only if it names itself, the tokens file is
-- there and readable, and the store has a policy for it whose token is the one that it gives and whose
-- scope has the pull. Without a store no pull is granted.
pub grant_needs_policy :
    (settings : AuthSettings) (request : Request) (pull : Pull) (store : Option AgentAuthStore)
    (db : Db)
    → settings.agent_auth_enabled ≡ true
    → (authorize_agent_pull settings request pull (store, db)).0 ≡ granted
    → (settings.file_exists ≡ true)
      × (settings.file_readable ≡ true)
      × (strip request.agent_id ≢ "")
      × ((s : AgentAuthStore) × (store ≡ some s)
          × Entitled request pull (get_policy (strip request.agent_id) settings.file s).0)
unfolding authorize_agent_pull
grant_needs_policy settings request pull none db on h = absurd (ground arith)
grant_needs_policy settings request pull (some s) db on h =
    let looked = (get_policy (strip request.agent_id) settings.file s).0 in
    let given : (answer request pull looked db).0 ≡ granted = ground arith in
    (
      ground arith,
      ground arith,
      ground (arith, eq_iff (strip request.agent_id) ""),
      (s, refl, answer_grants request pull looked db given),
    )

refuse_denies :
    (request : Request) (target : String) (looked : Looked) (db : Db)
    → (refuse request target looked db).0 ≢ granted
unfolding refuse
refuse_denies request target failed db h = ground arith
refuse_denies request target (found none) db h = ground arith
refuse_denies request target (found (some policy)) db h = ground arith

-- With agent authentication on, an endpoint that is not for agents lets only requests without any
-- agent header through.
pub admin_endpoint_refuses_agents :
    (settings : AuthSettings) (request : Request) (target : String) (store : Option AgentAuthStore)
    (db : Db)
    → settings.agent_auth_enabled ≡ true
    → (deny_agent_on_admin_endpoint settings request target (store, db)).0 ≡ granted
    → (strip request.agent_id ≡ "") × (strip request.agent_token ≡ "")
unfolding deny_agent_on_admin_endpoint
admin_endpoint_refuses_agents settings request target none db on h = absurd (ground arith)
admin_endpoint_refuses_agents settings request target (some s) db on h =
    let denies =
      refuse_denies request target (get_policy (strip request.agent_id) settings.file s).0 db in
    ground (arith, eq_iff (strip request.agent_id) "", eq_iff (strip request.agent_token) "")

-- The type of the event that an answer is recorded with.
abbrev pub event_for : Answer → String
event_for granted = "agent_auth_success"
event_for (denied code reason) =
    if code == 403 then "agent_unauthorized_pull" else "agent_auth_failure"
event_for type_error = ""

-- One more event, of the answer's type.
abbrev pub Recorded : Answer → Db → Db → Type 0
Recorded a before after =
    (e : AuditEvent) × (after.audit_events ≡ before.audit_events ++ e ∷ [])
    × (e.event_type ≡ event_for a)

audited :
    (event_type actor target : String) (details : Details) (a : Answer) (db : Db)
    → event_type ≡ event_for a
    → Recorded a db (audit event_type actor target details db)
unfolding audit
audited event_type actor target details a db h = (_, refl, h)

judge_records :
    (request : Request) (pull : Pull) (policy : AgentPolicy) (db : Db)
    → let (a, after) = judge request pull policy db in a ≢ type_error → Recorded a db after
unfolding judge
judge_records request pull policy db sound =
    elim (Option-cases (verify_token policy (strip request.agent_token))) [
      | inl error ↦ absurd (sound (rw (error, judge) refl))
      | inr (same, checked) ↦ elim (Bool-cases same) [
        | inl right ↦ elim (Bool-cases (allowed policy pull)) [
          | inl open_pull ↦
              rw (checked, judge)
                (rw (right, judge) (rw (open_pull, judge) (audited _ _ _ _ granted db refl)))
          | inr closed ↦
              rw (checked, judge)
                (rw (right, judge)
                  (rw (closed, judge)
                    (audited _ _ _ _ (denied 403 "agent_not_authorized") db refl)))
        ]
        | inr wrong ↦
            rw (checked, judge)
              (rw (wrong, judge) (audited _ _ _ _ (denied 401 "agent_invalid_token") db refl))
      ]
    ]

answer_records :
    (request : Request) (pull : Pull) (looked : Looked) (db : Db)
    → let (a, after) = answer request pull looked db in a ≢ type_error → Recorded a db after
unfolding answer
answer_records request pull failed db sound =
    audited _ _ _ _ (denied 503 "agent_token_policy_error") db refl
answer_records request pull (found none) db sound =
    audited _ _ _ _ (denied 401 "agent_unknown") db refl
answer_records request pull (found (some policy)) db sound =
    judge_records request pull policy db sound

-- With authentication on and a store, each request is recorded by one more event, whose type tells
-- the answer: a grant, a refusal of the pull (403), or any other failure. Only the TypeError of a
-- token that is not ASCII is not recorded.
pub answers_are_audited :
    (settings : AuthSettings) (request : Request) (pull : Pull) (store : AgentAuthStore) (db : Db)
    → settings.agent_auth_enabled ≡ true
    → (authorize_agent_pull settings request pull (some store, db)).0 ≢ type_error
    → let (a, (store', db')) = authorize_agent_pull settings request pull (some store, db) in
      Recorded a db db'
unfolding authorize_agent_pull
answers_are_audited settings request pull store db on =
    let looked = (get_policy (strip request.agent_id) settings.file store).0 in
    rw on (elim (Bool-cases (strip request.agent_id == "" || strip request.agent_token == "")) [
      | inl blank ↦
          rw blank (λ sound. audited _ _ _ _ (denied 401 "agent_auth_missing_headers") db refl)
      | inr named ↦ elim (Bool-cases settings.file_exists) [
        | inr absent ↦
            rw (named, absent)
              (λ sound. audited _ _ _ _ (denied 503 "agent_token_policy_missing") db refl)
        | inl there ↦ elim (Bool-cases settings.file_readable) [
          | inr shut ↦
              rw (named, there, shut)
                (λ sound. audited _ _ _ _ (denied 503 "agent_token_policy_unreadable") db refl)
          | inl readable ↦ rw (named, there, readable) (answer_records request pull looked db)
        ]
      ]
    ])
