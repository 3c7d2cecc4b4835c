-- ===== src/Gds/Auth/Authorize.antt =====
-- `_authorize_agent_pull` and `_deny_agent_on_admin_endpoint` of gds/app/main.py: the answer to a
-- request, the store of policies and the tables that it leaves.
use Prim.Native.String.{◌++◌ as text_append}
use Prim.Native.Char.{code}
use opcua_implementaion.Prelude.{
  ℕ, String, Bool, true, false, ◌&&◌, ◌||◌, not, Option, none, some, List, [], ◌∷◌, any, ltb, ◌==◌,
  string_eq, if◌then◌else◌,
}
use opcua_implementaion.Prelude.Text.{strip}
use opcua_implementaion.Gds.Db.{Db, Details, audit}
use opcua_implementaion.Gds.Auth.Policies.{AgentPolicy}
use opcua_implementaion.Gds.Auth.Store.{
  AgentAuthStore, TokensFile, Looked, failed, found, get_policy,
}

-- The headers X-GDS-Agent-ID and X-GDS-Agent-Token, empty where they are absent.
pub record Request : Type 0 where
  pub agent_id : String
  pub agent_token : String
  pub source_ip : String

-- SETTINGS.agent_auth_enabled and the tokens file: its path, whether it exists and may be read, and
-- what the store finds in it.
pub record AuthSettings : Type 0 where
  pub agent_auth_enabled : Bool
  pub agent_tokens_file : String
  pub file_exists : Bool
  pub file_readable : Bool
  pub file : TokensFile

-- What is asked for.
pub record Pull : Type 0 where
  pub access : String
  pub zone : Option String
  pub role : Option String
  pub application_uri : Option String

-- `granted` is the code's `None`; `type_error` is compare_digest's on a text that is not ASCII.
pub data Answer : Type 0 where
  granted : Answer
  denied : ℕ → String → Answer
  type_error : Answer

is_ascii : String → Bool
is_ascii String.[] = true
is_ascii (String.◌∷◌ c s) = ltb (code c) 128 && is_ascii s

-- `hmac.compare_digest` on two texts; `none` is its TypeError.
unfoldable pub verify_token : AgentPolicy → String → Option Bool
unfolding is_ascii
verify_token policy provided_token =
    if is_ascii policy.token && is_ascii provided_token
    then some (policy.token == provided_token)
    else none

abbrev pub or_empty : Option String → String
or_empty none = ""
or_empty (some s) = s

-- `application_uri` is neither None nor empty.
abbrev pub is_given : Option String → Bool
is_given uri = not (or_empty uri == "")

abbrev pub holds : List String → String → Bool
holds xs x = any (λ y. y == x) xs

-- `(zone, role) in pairs`, where both are given.
abbrev pub holds_pair : List (String × String) → Option String → Option String → Bool
holds_pair pairs none role = false
holds_pair pairs (some zone) none = false
holds_pair pairs (some zone) (some role) = any (λ (z, r). z == zone && r == role) pairs

abbrev pub is_lifecycle : String → Bool
is_lifecycle access = access == "lifecycle_read" || access == "lifecycle_write"

abbrev pub or_else : List String → List String → List String
or_else [] ys = ys
or_else (x ∷ xs) ys = x ∷ xs

abbrev pub is_empty : List String → Bool
is_empty [] = true
is_empty (x ∷ xs) = false

-- The first test: is the kind of access open to the agent?
unfoldable pub access_allowed : AgentPolicy → Pull → Bool
access_allowed policy pull =
    if pull.access == "trust_anchor"
    then policy.allow_trust_anchor
    else if pull.access == "artifact_read"
    then holds_pair policy.allowed_trustlists pull.zone pull.role
    else if pull.access == "telemetry_read"
    then true
    else if is_lifecycle pull.access
    then true
    else pull.access == "enrollment_submit"
      || pull.access == "package_read"
      || pull.access == "package_update"

-- Both tests.
unfoldable pub allowed : AgentPolicy → Pull → Bool
allowed policy pull =
    if access_allowed policy pull && is_given pull.application_uri && is_lifecycle pull.access
    then holds (or_else policy.owned_applications policy.allowed_applications)
        (or_empty pull.application_uri)
    else if access_allowed policy pull
        && is_given pull.application_uri
        && not (is_empty policy.allowed_applications)
    then holds policy.allowed_applications (or_empty pull.application_uri)
    else access_allowed policy pull

abbrev pub joined_target : Pull → String
joined_target pull = text_append pull.access (
    text_append ":" (
      text_append (or_empty pull.zone) (
        text_append ":"
          (text_append (or_empty pull.role) (text_append ":" (or_empty pull.application_uri))))))

abbrev pub failure : String → Request → Details
failure reason request = ("reason", reason) ∷ ("source_ip", request.source_ip) ∷ []

abbrev pub scope : Request → Pull → Details
scope request pull =
    ("source_ip", request.source_ip)
    ∷ ("zone", or_empty pull.zone)
    ∷ ("role", or_empty pull.role)
    ∷ ("application_uri", or_empty pull.application_uri)
    ∷ []

-- The answer once a policy is there.
unfoldable pub judge : Request → Pull → AgentPolicy → Db → Answer × Db
judge request pull policy db =
    let agent_id = strip request.agent_id in
    let target = joined_target pull in
    elim (verify_token policy (strip request.agent_token)) [
      | none ↦ (type_error, db)
      | some false ↦ (
        denied 401 "agent_invalid_token",
        audit "agent_auth_failure" agent_id target (failure "invalid_token" request) db,
      )
      | some true ↦
          (if allowed policy pull
            then (granted, audit "agent_auth_success" agent_id target (scope request pull) db)
            else (
              denied 403 "agent_not_authorized",
              audit "agent_unauthorized_pull" agent_id target (scope request pull) db,
            ))
    ]

-- The answer to what the store finds.
unfoldable pub answer : Request → Pull → Looked → Db → Answer × Db
answer request pull failed db = (
  denied 503 "agent_token_policy_error",
  audit "agent_auth_failure" (strip request.agent_id) (joined_target pull)
      (failure "tokens_file_error" request) db,
)
answer request pull (found none) db = (
  denied 401 "agent_unknown",
  audit "agent_auth_failure" (strip request.agent_id) (joined_target pull)
      (failure "unknown_agent" request) db,
)
answer request pull (found (some policy)) db = judge request pull policy db

-- The state of the two: AGENT_AUTH_STORE, which may be None, and the tables.
abbrev pub AuthState : Type 0
AuthState = Option AgentAuthStore × Db

abbrev pub file_failure : String → Request → AuthSettings → Details
file_failure reason request settings =
    ("reason", reason)
    ∷ ("source_ip", request.source_ip)
    ∷ ("tokens_file", settings.agent_tokens_file)
    ∷ []

unfoldable pub authorize_agent_pull : AuthSettings → Request → Pull → AuthState → Answer × AuthState
authorize_agent_pull settings request pull (none, db) =
    if not settings.agent_auth_enabled
    then (granted, (none, db))
    else (denied 503 "agent_auth_not_initialized", (none, db))
authorize_agent_pull settings request pull (some store, db) =
    let agent_id = strip request.agent_id in
    let target = joined_target pull in
    if not settings.agent_auth_enabled
    then (granted, (some store, db))
    else if agent_id == "" || strip request.agent_token == ""
    then (
      denied 401 "agent_auth_missing_headers",
      (
        some store,
        audit "agent_auth_failure" "unknown" target (failure "missing_headers" request) db,
      ),
    )
    else if not settings.file_exists
    then (
      denied 503 "agent_token_policy_missing",
      (
        some store,
        audit "agent_auth_failure" agent_id target
            (file_failure "tokens_file_missing" request settings) db,
      ),
    )
    else if not settings.file_readable
    then (
      denied 503 "agent_token_policy_unreadable",
      (
        some store,
        audit "agent_auth_failure" agent_id target
            (file_failure "tokens_file_unreadable" request settings) db,
      ),
    )
    else (let (looked, store') = get_policy agent_id settings.file store in
        let (result, db') = answer request pull looked db in (result, (some store', db')))

abbrev pub refuse_invalid : Request → String → Db → Answer × Db
refuse_invalid request target db = (
  denied 401 "",
  audit "agent_auth_failure" (strip request.agent_id) target (failure "invalid_credentials" request)
      db,
)

-- The answer of an admin endpoint to an agent, never a grant.
unfoldable pub refuse : Request → String → Looked → Db → Answer × Db
refuse request target failed db = (
  denied 503 "",
  audit "agent_auth_failure" (strip request.agent_id) target (failure "tokens_file_error" request)
      db,
)
refuse request target (found none) db = refuse_invalid request target db
refuse request target (found (some policy)) db =
    elim (verify_token policy (strip request.agent_token)) [
      | none ↦ (type_error, db)
      | some false ↦ refuse_invalid request target db
      | some true ↦ (
        denied 403 "",
        audit "agent_unauthorized_pull" (strip request.agent_id) target
            (("source_ip", request.source_ip) ∷ ("reason", "admin_endpoint_forbidden") ∷ []) db,
      )
    ]

-- The answer of an endpoint that is not for agents.
unfoldable pub deny_agent_on_admin_endpoint :
    AuthSettings → Request → String → AuthState → Answer × AuthState
deny_agent_on_admin_endpoint settings request target (none, db) =
    if not settings.agent_auth_enabled then (granted, (none, db)) else (denied 503 "", (none, db))
deny_agent_on_admin_endpoint settings request target (some store, db) =
    let agent_id = strip request.agent_id in
    let agent_token = strip request.agent_token in
    if not settings.agent_auth_enabled || (agent_id == "" && agent_token == "")
    then (granted, (some store, db))
    else if agent_id == "" || agent_token == ""
    then (
      denied 401 "",
      (
        some store,
        audit "agent_auth_failure" (if agent_id == "" then "unknown" else agent_id) target
            (failure "missing_headers" request) db,
      ),
    )
    else (let (looked, store') = get_policy agent_id settings.file store in
        let (result, db') = refuse request target looked db in (result, (some store', db')))
