-- ===== src/Gds/Facade/Operations.antt =====
-- The methods of the facade of gds/app/opcua_boundary_adapter.py, with `list_certificate_packages` of
-- gds/app/db.py by its application. A reply stands for its JSON, and a payload comes parsed: a key that
-- it has not is the empty text. The rows of applications and profiles stand for the columns that are
-- shown, and the numbers of rows in the details of events are left out.
use Prim.Native.String.{len, ◌++◌ as text_append}
use opcua_implementaion.Prelude.{
  ℕ, String, Bool, false, not, Option, none, some, List, [], ◌∷◌, ◌++◌, map, take, ltb, ◌==◌,
  string_eq, number_eq, where_list, if◌then◌else◌, ◌⊎◌, inl, inr,
}
use opcua_implementaion.Prelude.Text.{strip, take_text}
use opcua_implementaion.Prelude.Dict.{Dict}
use opcua_implementaion.Gds.Db.{Db, Application, CertificatePackage, Details, audit}
use opcua_implementaion.Gds.TrustLists.Query.{order_by}
use opcua_implementaion.Gds.Adapters.{Profile}
use opcua_implementaion.Gds.Lifecycle.Rows.{get_application_by_uri}
use opcua_implementaion.Gds.Lifecycle.Issue.{
  LifecycleError, Environment, Call, Outcome, raises, fails, issues, IssuedPackage,
  issue_certificate_package,
}
use opcua_implementaion.Gds.Lifecycle.DryRun.{DryRun, validate_certificate_request_dry_run}
use opcua_implementaion.Gds.Facade.Limits.{
  RateCounter, allow, Context, or_anonymous, session_key, enrollment_key,
}

pub record FacadeSettings : Type 0 where
  pub mode : String
  pub allow_signing : Bool
  pub session_request_limit : ℕ
  pub client_enrollment_limit : ℕ
  pub max_csr_bytes : ℕ

pub record Payload : Type 0 where
  pub correlation_id : String
  pub opcua_session_id : String
  pub application_uri : String
  pub client_id : String
  pub runtime_instance_id : String
  pub profile_name : String
  pub csr_pem : String
  pub requested_ttl : String
  pub package_id : String

-- `{}`
abbrev pub no_payload : Payload
no_payload = record {
  correlation_id = "";
  opcua_session_id = "";
  application_uri = "";
  client_id = "";
  runtime_instance_id = "";
  profile_name = "";
  csr_pem = "";
  requested_ttl = "";
  package_id = "";
}

-- What `_safe_package` shows of a row and its application.
pub record SafePackage : Type 0 where
  pub package_id : String
  pub application_uri : String
  pub runtime_instance_id : String
  pub profile_name : String
  pub generation : ℕ
  pub supersedes_package_id : Option String
  pub supersedes_generation : Option ℕ
  pub manifest_sha256 : String
  pub compatibility_status : String
  pub lifecycle_state : String
  pub status : String
  pub created_at : ℕ
  pub component_type : Option String
  pub zone : String
  pub role : String

unfoldable pub safe_package : CertificatePackage × Application → SafePackage
safe_package (p, a) = record {
  package_id = p.package_id;
  application_uri = a.application_uri;
  runtime_instance_id = p.runtime_instance_id;
  profile_name = p.profile_name;
  generation = p.generation;
  supersedes_package_id = p.supersedes_package_id;
  supersedes_generation = p.supersedes_generation;
  manifest_sha256 = p.manifest_sha256;
  compatibility_status = p.compatibility_status;
  lifecycle_state = p.lifecycle_state;
  status = p.status;
  created_at = p.created_at;
  component_type = a.component_type;
  zone = a.zone;
  role = a.role;
}

-- The operations that are enabled and disabled, and the names of the profiles, are what the first two
-- methods tell.
pub data Reply : Type 0 where
  error_reply : String → Reply
  crash : Reply
  operations : List String → List String → List String → Reply
  inventory : List Application → Reply
  certificate_groups : List Profile → Reply
  trust_material : Application → List SafePackage → Reply
  dry_run_done : DryRun → Reply
  package_issued : IssuedPackage → Reply
  package_status : List SafePackage → Reply

pub data Operation : Type 0 where
  get_server_capabilities get_discovery get_application_inventory get_certificate_groups : Operation
  get_trust_material_status create_signing_request_dry_run create_signing_request
        get_package_status :
      Payload → Operation

-- The tables and the two sets of counters.
pub record Facade : Type 0 where
  pub db : Db
  pub session_limits : Dict String RateCounter
  pub enrollment_limits : Dict String RateCounter

-- What a method meets: the environment of the lifecycle, the order of texts in the tables, a new
-- identifier, and the clock.
pub record Surroundings : Type 0 where
  pub environment : Environment
  pub collates_before : String → String → Bool
  pub correlation_uuid : String
  pub monotonic : ℕ

abbrev pub or_default : String → String → String
or_default s default = if s == "" then default else s

unfoldable pub actor : Payload → String
actor payload = text_append "opcua:" (
    take_text 96
      (strip (or_default payload.client_id (or_default payload.application_uri "anonymous"))))

abbrev applications_of :
    CertificatePackage → List Application → List (CertificatePackage × Application)
applications_of p apps =
    map (λ (a : Application). (p, a))
      (where_list (λ (a : Application). a.id == p.application_id) apps)

joined_packages :
    List Application → List CertificatePackage → List (CertificatePackage × Application)
joined_packages apps [] = []
joined_packages apps (p ∷ packages) = applications_of p apps ++ joined_packages apps packages

-- ORDER BY profile_name, generation DESC within one application.
package_before :
    (String → String → Bool)
    → CertificatePackage × Application
    → CertificatePackage × Application
    → Bool
package_before collates_before (p, a) (q, b) =
    if p.profile_name == q.profile_name
    then ltb q.generation p.generation
    else collates_before p.profile_name q.profile_name

unfoldable pub list_certificate_packages :
    (String → String → Bool) → String → ℕ → Db → List (CertificatePackage × Application)
unfolding joined_packages package_before
list_certificate_packages collates_before application_uri limit db = take limit (
    order_by (package_before collates_before) (
      where_list (λ (r : CertificatePackage × Application). r.1.application_uri == application_uri)
        (joined_packages db.applications db.certificate_packages)))

-- `get_certificate_package`, joined with its application.
unfoldable pub get_certificate_package : String → Db → List (CertificatePackage × Application)
unfolding joined_packages
get_certificate_package package_id db = take 1 (
    where_list (λ (r : CertificatePackage × Application). r.0.package_id == package_id)
      (joined_packages db.applications db.certificate_packages))

unfoldable pub context_of : Surroundings → Payload → Context
context_of around payload = record {
  correlation_id = or_default payload.correlation_id around.correlation_uuid;
  opcua_session_id = or_anonymous payload.opcua_session_id;
  application_uri = payload.application_uri;
}

module _ (settings : FacadeSettings) (around : Surroundings) where
  -- `_audit`
  unfoldable pub audit_facade : String → String → Context → Details → Facade → Facade
  audit_facade event_type actor_name context details facade = record facade {
    db =
        audit event_type actor_name "opcua:gds_facade"
          (details
            ++ (("correlation_id", context.correlation_id)
                ∷ ("opcua_session_id", context.opcua_session_id)
                ∷ ("application_uri", context.application_uri)
                ∷ ("facade_mode", settings.mode)
                ∷ []))
          facade.db;
  }

  -- `_allow_request` before the rest of a method.
  unfoldable pub limited : Context → (Facade → Reply × Facade) → Facade → Reply × Facade
  limited context body facade =
      let (allowed, counters) =
        allow settings.session_request_limit around.monotonic (session_key context)
          facade.session_limits in
      let counted = record facade { session_limits = counters } in
      if allowed then body counted else (error_reply "rate_limit_exceeded", counted)

  -- `_allow_enrollment` before the rest.
  unfoldable pub enrollment_limited : Context → (Facade → Reply × Facade) → Facade → Reply × Facade
  enrollment_limited context body facade =
      let (allowed, counters) =
        allow settings.client_enrollment_limit around.monotonic (enrollment_key context)
          facade.enrollment_limits in
      let counted = record facade { enrollment_limits = counters } in
      if allowed then body counted else (error_reply "enrollment_rate_limit_exceeded", counted)

  -- A reply that is audited.
  abbrev pub told : String → Context → Details → Reply → Facade → Reply × Facade
  told event_type context details reply facade =
      (reply, audit_facade event_type "opcua:gds_facade" context details facade)

  abbrev read_operations : List String
  read_operations =
      "GetServerCapabilities" ∷ "GetDiscovery" ∷ "GetApplicationInventory" ∷ "GetCertificateGroups"
      ∷ "GetTrustMaterialStatus" ∷ "CreateSigningRequestDryRun" ∷ "GetPackageStatus" ∷ []

  -- `list_component_profiles`, ORDER BY profile_name
  abbrev profiles : List Profile
  profiles =
      order_by (λ p q. around.collates_before p.profile_name q.profile_name)
        around.environment.profiles

  abbrev pub operations_reply : Reply
  operations_reply =
      let names = map (λ (p : Profile). p.profile_name) profiles in
      if settings.allow_signing
      then operations (read_operations ++ "CreateSigningRequest" ∷ []) [] names
      else operations read_operations ("CreateSigningRequest" ∷ []) names

  abbrev pub lifecycle_call : Payload → Option String → String → Call
  lifecycle_call payload requested_ttl source_interface = record {
    application_uri = payload.application_uri;
    runtime_instance_id = payload.runtime_instance_id;
    profile_name = payload.profile_name;
    csr_pem = payload.csr_pem;
    requested_ttl = requested_ttl;
    requested_by = actor payload;
    source_interface = source_interface;
    allow_duplicate_csr = false;
  }

  abbrev pub trust_material_reply : Context → String → Option Application → Facade → Reply × Facade
  trust_material_reply context application_uri none facade =
      (error_reply "unknown_application", facade)
  trust_material_reply context application_uri (some app) facade =
      told "opcua_trust_material_status_read" context (("application_uri", application_uri) ∷ [])
        (trust_material app (
          map safe_package
            (list_certificate_packages around.collates_before application_uri 5 facade.db)))
        facade

  abbrev pub dry_run_reply : Context → String → LifecycleError ⊎ DryRun → Facade → Reply × Facade
  dry_run_reply context actor_name (inl e) facade = (
    error_reply e.code,
    audit_facade "opcua_signing_request_dry_run_rejected" actor_name context
        (("error_code", e.code) ∷ []) facade,
  )
  dry_run_reply context actor_name (inr result) facade = (dry_run_done result, facade)

  abbrev pub signing_reply : Context → String → Outcome → Facade → Reply × Facade
  signing_reply context actor_name raises facade = (crash, facade)
  signing_reply context actor_name (fails e) facade = (
    error_reply e.code,
    audit_facade "opcua_signing_request_rejected" actor_name context (("error_code", e.code) ∷ [])
        facade,
  )
  signing_reply context actor_name (issues p) facade = (
    package_issued p,
    audit_facade "opcua_signing_request_completed" actor_name context
        (("package_id", p.package_row.package_id) ∷ []) facade,
  )

  unfoldable pub dry_run_body : Payload → Context → Facade → Reply × Facade
  dry_run_body payload context facade =
      if ltb settings.max_csr_bytes (len payload.csr_pem)
      then (
        error_reply "csr_too_large",
        audit_facade "opcua_signing_request_dry_run_rejected" (actor payload) context
            (("error_code", "csr_too_large") ∷ []) facade,
      )
      else (let (result, after) =
            validate_certificate_request_dry_run around.environment
              (lifecycle_call payload none "opcua_part12_dry_run") context.correlation_id
              facade.db in
          dry_run_reply context (actor payload) result (record facade { db = after }))

  unfoldable pub signing_body : Payload → Context → Facade → Reply × Facade
  signing_body payload context facade =
      if not settings.allow_signing
      then (
        error_reply "opcua_signing_disabled",
        audit_facade "opcua_signing_request_rejected" (actor payload) context
            (("error_code", "opcua_signing_disabled") ∷ []) facade,
      )
      else if ltb settings.max_csr_bytes (len payload.csr_pem)
      then (
        error_reply "csr_too_large",
        audit_facade "opcua_signing_request_rejected" (actor payload) context
            (("error_code", "csr_too_large") ∷ []) facade,
      )
      else (let (result, after) =
            issue_certificate_package around.environment
              (lifecycle_call payload
                (if payload.requested_ttl == "" then none else some payload.requested_ttl)
                "opcua_part12_component")
              facade.db in
          signing_reply context (actor payload) result (record facade { db = after }))

  unfoldable pub package_status_body : Payload → Context → Facade → Reply × Facade
  package_status_body payload context facade =
      let package_id = strip payload.package_id in
      let application_uri = strip payload.application_uri in
      let details = ("package_id", package_id) ∷ ("application_uri", application_uri) ∷ [] in
      if not (package_id == "")
      then told "opcua_package_status_read" context details
          (package_status (map safe_package (get_certificate_package package_id facade.db))) facade
      else if not (application_uri == "")
      then told "opcua_package_status_read" context details
          (package_status (
            map safe_package
              (list_certificate_packages around.collates_before application_uri 10 facade.db)))
          facade
      else (error_reply "missing_package_selector", facade)

  unfoldable pub trust_material_body : Payload → Context → Facade → Reply × Facade
  trust_material_body payload context facade =
      let application_uri = strip payload.application_uri in
      if application_uri == ""
      then (error_reply "missing_application_uri", facade)
      else trust_material_reply context application_uri
          (get_application_by_uri application_uri facade.db) facade

  unfoldable pub serve : Operation → Facade → Reply × Facade
  serve get_server_capabilities =
      let context = context_of around no_payload in
      limited context (told "opcua_capabilities_read" context [] operations_reply)
  serve get_discovery =
      let context = context_of around no_payload in
      limited context (told "opcua_discovery_read" context [] operations_reply)
  serve get_application_inventory =
      let context = context_of around no_payload in
      limited context (λ facade.
        told "opcua_application_inventory_read" context []
          (inventory (order_by (λ (a b : Application). ltb a.id b.id) facade.db.applications))
          facade)
  serve get_certificate_groups =
      let context = context_of around no_payload in
      limited context
        (told "opcua_certificate_groups_read" context [] (certificate_groups profiles))
  serve (get_trust_material_status payload) =
      let context = context_of around payload in
      limited context (trust_material_body payload context)
  serve (create_signing_request_dry_run payload) =
      let context = context_of around payload in
      limited context (enrollment_limited context (dry_run_body payload context))
  serve (create_signing_request payload) =
      let context = context_of around payload in
      limited context (enrollment_limited context (signing_body payload context))
  serve (get_package_status payload) =
      let context = context_of around payload in
      limited context (package_status_body payload context)
