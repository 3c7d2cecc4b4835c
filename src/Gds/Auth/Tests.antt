-- ===== src/Gds/Auth/Tests.antt =====
-- An agent with a policy, and one that asks for too much.
use opcua_implementaion.Prelude.{ℕ, true, Option, none, some, [], ◌∷◌, ◌≡◌, ◌≢◌, refl, arith}
use opcua_implementaion.Prelude.Text.{strip, split}
use opcua_implementaion.Prelude.Dict.{get, put}
use opcua_implementaion.Gds.Db.{Db}
use opcua_implementaion.Gds.Auth.Policies.{
  AgentPolicy, Payload, with_agents, object_policy, text_item, parse_policies, parse_agents,
  parse_single_policy, parse_allowed_trustlists, parse_allowed_applications,
}
use opcua_implementaion.Gds.Auth.Store.{
  AgentAuthStore, file_at, fresh_policies, IsCoherent, load_policies, get_policy,
  load_policies-IsCoherent,
}
use opcua_implementaion.Gds.Auth.Authorize.{
  Request, AuthSettings, Pull, granted, type_error, verify_token, access_allowed, allowed, judge,
  answer, authorize_agent_pull, deny_agent_on_admin_endpoint,
}
use opcua_implementaion.Gds.Auth.Grants.{
  Entitled, Recorded, grant_needs_policy, admin_endpoint_refuses_agents, answers_are_audited,
}

abbrev content : ℕ → Option Payload
content t = some (
    with_agents (
      (
        "agent-ot",
        object_policy (record {
          token = "s3cret";
          allow_trust_anchor = none;
          allowed_trustlists = text_item "OT:server" ∷ [];
          allowed_applications = [];
          owned_applications = [];
        }),
      )
      ∷ []))

abbrev settings : AuthSettings
settings = record {
  agent_auth_enabled = true;
  agent_tokens_file = "/run/tokens.json";
  file_exists = true;
  file_readable = true;
  file = file_at content (some 7);
}

abbrev request : Request
request = record { agent_id = "agent-ot "; agent_token = "s3cret"; source_ip = "10.0.0.2" }

abbrev anonymous : Request
anonymous = record { agent_id = ""; agent_token = ""; source_ip = "10.0.0.2" }

abbrev pull : Pull
pull = record {
  access = "artifact_read";
  zone = some "OT";
  role = some "server";
  application_uri = none;
}

abbrev store : AgentAuthStore
store = record { cached_mtime = none; cached_policies = [] }

abbrev db : Db
db = record {
  applications = [];
  certificates = [];
  trust_lists = [];
  trust_list_members = [];
  trust_artifacts = [];
  certificate_requests = [];
  certificate_packages = [];
  package_events = [];
  audit_events = [];
  next_certificate = 1;
  next_trust_list = 1;
  next_artifact = 1;
  next_request = 1;
  next_package = 1;
  next_audit = 1;
}

abbrev policy : AgentPolicy
policy = record {
  token = "s3cret";
  allow_trust_anchor = true;
  allowed_trustlists = ("OT", "server") ∷ [];
  allowed_applications = [];
  owned_applications = [];
}

pull_is_granted : (authorize_agent_pull settings request pull (some store, db)).0 ≡ granted
unfolding authorize_agent_pull answer judge get_policy load_policies parse_policies parse_agents
    parse_single_policy parse_allowed_trustlists parse_allowed_applications verify_token allowed
    access_allowed strip split get put
pull_is_granted = refl

pull_is_allowed : allowed policy pull ≡ true
unfolding allowed access_allowed
pull_is_allowed = refl

anonymous_is_let_through :
    (deny_agent_on_admin_endpoint settings anonymous "admin" (some store, db)).0 ≡ granted
unfolding deny_agent_on_admin_endpoint strip
anonymous_is_let_through = refl

store-IsCoherent : IsCoherent content store
store-IsCoherent t h = absurd (ground arith)

grant_needs_policy_example :
    (settings.file_exists ≡ true)
    × (settings.file_readable ≡ true)
    × (strip request.agent_id ≢ "")
    × ((s : AgentAuthStore) × (some store ≡ some s)
        × Entitled request pull (get_policy (strip request.agent_id) settings.file s).0)
grant_needs_policy_example =
    grant_needs_policy settings request pull (some store) db refl pull_is_granted

admin_endpoint_refuses_agents_example :
    (strip anonymous.agent_id ≡ "") × (strip anonymous.agent_token ≡ "")
admin_endpoint_refuses_agents_example =
    admin_endpoint_refuses_agents settings anonymous "admin" (some store) db refl
      anonymous_is_let_through

no_error : (authorize_agent_pull settings request pull (some store, db)).0 ≢ type_error
no_error = rw pull_is_granted (λ e. ground arith)

answers_are_audited_example :
    let (a, (store', db')) = authorize_agent_pull settings request pull (some store, db) in
    Recorded a db db'
answers_are_audited_example = answers_are_audited settings request pull store db refl no_error

load_policies-IsCoherent_example :
    ((load_policies (file_at content (some 7)) store).0 ≡ fresh_policies content (some 7))
    × IsCoherent content (load_policies (file_at content (some 7)) store).1
load_policies-IsCoherent_example = load_policies-IsCoherent content (some 7) store store-IsCoherent
