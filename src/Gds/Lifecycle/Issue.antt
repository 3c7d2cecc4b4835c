-- ===== src/Gds/Lifecycle/Issue.antt =====
-- `issue_certificate_package` of gds/app/lifecycle.py. The Vault, the parsers, the identifiers and the
-- clock are parameters. The details of events leave out what the rows have, and the target of
-- `certificate_issued` leaves out the number of the certificate.
use Prim.Native.String.{◌++◌ as text_append}
use opcua_implementaion.Prelude.{
  ℕ, ◌+◌, String, Bool, true, false, not, ◌&&◌, Option, none, some, List, [], ◌∷◌, ◌==◌, string_eq,
  if◌then◌else◌, ◌⊎◌, inl, inr,
}
use opcua_implementaion.Prelude.Text.{lower}
use opcua_implementaion.Gds.Db.{
  Db, Application, Certificate, CertificateRequest, CertificatePackage, Details, audit,
}
use opcua_implementaion.Gds.Packages.Lifecycle.{insert_package_event}
use opcua_implementaion.Gds.Manifest.{CsrIdentity, Manifest}
use opcua_implementaion.Gds.Adapters.{
  Csr, Profile, validate_csr, validate_runtime_compatibility, generate_package_layout,
  generate_install_plan,
}
use opcua_implementaion.Gds.Lifecycle.Rows.{
  get_application_by_uri, get_component_profile, get_certificate_request_by_csr, NewRequest,
  insert_certificate_request, update_certificate_request_status, ParsedCertificate,
  find_fingerprint, insert_certificate, get_latest_certificate_package_for_application,
  insert_certificate_package,
}
use opcua_implementaion.Gds.Lifecycle.Compatibility.{
  merge_compatibility, common_name_from_subject, PackageCrypto, canonical_package_manifest,
  package_files_sha256, package_payload_sha256, manifest_sha256_of,
}

-- LifecycleError, with its code and its HTTP status.
pub record LifecycleError : Type 0 where
  pub code : String
  pub status_code : ℕ

abbrev pub error : String → ℕ → LifecycleError
error code status_code = record { code = code; status_code = status_code }

-- What the Vault answers to a request for a signature: the certificate and the chain.
pub data Signing : Type 0 where
  vault_sealed : Signing
  vault_failed : String → Signing
  signed : String → Option String → Signing

-- What the call meets outside of the tables. A chain, a CRL or a bundle that cannot be read is `none`.
pub record Environment : Type 0 where
  pub profiles : List Profile
  pub is_private : String → Option Bool
  pub load_csr : String → Option Csr
  pub sign_csr : String → String → String → Signing
  pub parse_pem_certificate : String → Option ParsedCertificate
  pub ca_chain : Option String
  pub crl : Option String
  pub crl_bundle : Option (Details × Details)
  pub request_uuid : String
  pub package_uuid : String
  pub now : ℕ
  pub crypto : PackageCrypto
  pub signer_key_id : String
  pub signer_algorithm : String
  pub signer_fingerprint_sha256 : String
  pub cert_default_ttl : String

pub record Call : Type 0 where
  pub application_uri : String
  pub runtime_instance_id : String
  pub profile_name : String
  pub csr_pem : String
  pub requested_ttl : Option String
  pub requested_by : String
  pub source_interface : String
  pub allow_duplicate_csr : Bool

pub record IssuedPackage : Type 0 where
  pub request : CertificateRequest
  pub certificate : Certificate
  pub package_row : CertificatePackage
  pub manifest : Manifest

pub data Outcome : Type 0 where
  raises : Outcome
  fails : LifecycleError → Outcome
  issues : IssuedPackage → Outcome

pub record Target : Type 0 where
  pub app : Application
  pub runtime_instance_id : String
  pub profile : Profile

abbrev pub or_text : Option String → String → String
or_text none default = default
or_text (some t) default = if t == "" then default else t

abbrev pub profile_target : Application → String → Option Profile → LifecycleError ⊎ Target
profile_target app runtime none = inl (error "unknown_profile" 404)
profile_target app runtime (some profile) =
    if lower profile.status == "active"
    then inr (record { app = app; runtime_instance_id = runtime; profile = profile })
    else inl (error "unknown_profile" 404)

-- The application, the runtime and the profile of a call, which the dry run looks up in the same way.
unfoldable pub find_target :
    List Profile → String → String → String → Option Application → LifecycleError ⊎ Target
find_target profiles application_uri runtime_instance_id profile_name none =
    inl (error "unknown_application" 404)
find_target profiles application_uri runtime_instance_id profile_name (some app) =
    let app_runtime = or_text app.runtime_instance_id app.application_uri in
    if not (runtime_instance_id == "")
      && (not (app_runtime == "") && not (runtime_instance_id == app_runtime))
    then inl (error "runtime_instance_mismatch" 400)
    else profile_target app (if runtime_instance_id == "" then app_runtime else runtime_instance_id)
        (get_component_profile profile_name profiles)

abbrev given : Option String → Bool
given none = false
given (some t) = not (t == "")

abbrev pub bundle_or_empty : Option (Details × Details) → Details × Details
bundle_or_empty none = ([], [])
bundle_or_empty (some b) = b

abbrev pub generation_after : Option CertificatePackage → ℕ
generation_after none = 1
generation_after (some p) = p.generation + 1

abbrev id_of : Option CertificatePackage → Option String
id_of none = none
id_of (some p) = some p.package_id

abbrev pub generation_of : Option CertificatePackage → Option ℕ
generation_of none = none
generation_of (some p) = some p.generation

abbrev pub no_errors : List String → Bool
no_errors [] = true
no_errors (e ∷ es) = false

abbrev pub request_target : String → String
request_target request_id = text_append "certificate_request:" request_id

-- A certificate that was inserted, or the one with its fingerprint.
abbrev pub inserted_or_found : Option Certificate → String → Db → Option Certificate
inserted_or_found none fingerprint db = find_fingerprint fingerprint db.certificates
inserted_or_found (some row) fingerprint db = some row

abbrev pub is_taken : Option CertificateRequest → Bool
is_taken none = false
is_taken (some r) = true

-- The JSON of the signature that is served with a manifest.
pub record PackageSignature : Type 0 where
  pub package_id : String
  pub generation : ℕ
  pub manifest_sha256 : String
  pub signature_base64 : String
  pub signer_key_id : String
  pub signer_algorithm : String
  pub signer_fingerprint_sha256 : String

-- `package_signature_payload`, whose row has a manifest with a signer.
unfoldable pub package_signature_payload : CertificatePackage → PackageSignature
package_signature_payload row = record {
  package_id = row.package_id;
  generation = row.generation;
  manifest_sha256 = row.manifest_sha256;
  signature_base64 = row.signature_base64;
  signer_key_id = row.manifest_json.signer_key_id;
  signer_algorithm = row.manifest_json.signer_algorithm;
  signer_fingerprint_sha256 = row.manifest_json.signer_fingerprint_sha256;
}

module _ (env : Environment) (call : Call) where
  -- The manifest before it is hashed.
  unfoldable pub manifest_of :
      Target
      → CsrIdentity
      → ParsedCertificate
      → Option String
      → Option CertificatePackage
      → Manifest
  manifest_of target info cert signed_chain previous =
      let ca_chain = or_text signed_chain (or_text env.ca_chain "") in
      let crl = or_text env.crl "" in
      let compatibility =
        merge_compatibility (validate_runtime_compatibility target.profile info target.app none) (
          validate_runtime_compatibility target.profile info target.app
            (some cert.fingerprint_sha256)) in
      let layout = generate_package_layout target.profile cert.pem ca_chain crl in
      let files_sha256 = package_files_sha256 env.crypto layout in
      let (crl_bundle, crl_metadata) = bundle_or_empty env.crl_bundle in
      record {
        schema = "labshock_certificate_package_v1";
        package_id = env.package_uuid;
        generation = generation_after previous;
        supersedes_package_id = id_of previous;
        supersedes_generation = generation_of previous;
        application_uri = call.application_uri;
        runtime_instance_id = target.runtime_instance_id;
        profile_name = call.profile_name;
        component_type = or_text target.app.component_type target.app.role;
        certificate_fingerprint_sha256 = cert.fingerprint_sha256;
        certificate_serial = cert.serial_number;
        not_before = cert.not_before;
        not_after = cert.not_after;
        certificate_pem = cert.pem;
        ca_chain_pem = ca_chain;
        crl_base64 = crl;
        crl_bundle = crl_bundle;
        crl_metadata = crl_metadata;
        install_plan = generate_install_plan target.profile layout compatibility;
        compatibility = compatibility;
        lifecycle_state = "PACKAGED";
        payload_sha256 = package_payload_sha256 env.crypto files_sha256;
        files_sha256 = files_sha256;
        manifest_sha256 = "";
        created_at = env.now;
        signer_key_id = env.signer_key_id;
        signer_algorithm = env.signer_algorithm;
        signer_fingerprint_sha256 = env.signer_fingerprint_sha256;
      }

  -- From the stored certificate to the package.
  unfoldable pub store_package :
      Target
      → CsrIdentity
      → CertificateRequest
      → ParsedCertificate
      → Option String
      → Certificate
      → Db
      → Outcome × Db
  store_package target info request cert signed_chain cert_row db =
      let previous =
        get_latest_certificate_package_for_application target.app.id call.profile_name db in
      let unhashed = manifest_of target info cert signed_chain previous in
      let manifest = record unhashed { manifest_sha256 = manifest_sha256_of env.crypto unhashed } in
      let signature =
        env.crypto.sign (env.crypto.canonical_manifest (canonical_package_manifest manifest)) in
      let (package_row, packaged) =
        insert_certificate_package target.app.id env.request_uuid cert_row.id manifest signature
          env.now db in
      (
        issues (record {
          request = request;
          certificate = cert_row;
          package_row = package_row;
          manifest = manifest;
        }),
        audit "certificate_package_created" call.requested_by
            (text_append "certificate_package:" env.package_uuid)
            (("request_id", env.request_uuid) ∷ [])
            (insert_package_event env.package_uuid "certificate_package_created" call.requested_by
              (("request_id", env.request_uuid) ∷ [])
              (update_certificate_request_status env.request_uuid "PACKAGED" none packaged)),
      )

  unfoldable pub after_store :
      Target
      → CsrIdentity
      → CertificateRequest
      → ParsedCertificate
      → Option String
      → Option Certificate
      → Db
      → Outcome × Db
  after_store target info request cert signed_chain none db =
      (fails (error "certificate_storage_failed" 500), db)
  after_store target info request cert signed_chain (some cert_row) db =
      store_package target info request cert signed_chain cert_row (
        audit "certificate_issued" call.requested_by "certificate"
          (("request_id", env.request_uuid) ∷ ("fingerprint_sha256", cert.fingerprint_sha256) ∷ [])
          (update_certificate_request_status env.request_uuid "ISSUED" none db))

  unfoldable pub after_parse :
      Target
      → CsrIdentity
      → CertificateRequest
      → Option String
      → Option ParsedCertificate
      → Db
      → Outcome × Db
  after_parse target info request signed_chain none db = (raises, db)
  after_parse target info request signed_chain (some cert) db =
      let (row, db') = insert_certificate target.app.id cert env.now db in
      after_store target info request cert signed_chain
        (inserted_or_found row cert.fingerprint_sha256 db') db'

  unfoldable pub fail_request : String → Db → Db
  fail_request code db =
      audit "certificate_issue_failed" call.requested_by (request_target env.request_uuid)
        (("error_code", code) ∷ [])
        (update_certificate_request_status env.request_uuid "FAILED" (some (code ∷ [])) db)

  unfoldable pub after_vault :
      Target → CsrIdentity → CertificateRequest → Signing → Db → Outcome × Db
  after_vault target info request vault_sealed db =
      (fails (error "vault_sealed" 503), fail_request "vault_sealed" db)
  after_vault target info request (vault_failed class_name) db =
      (fails (error "vault_signing_failed" 503), fail_request "vault_signing_failed" db)
  after_vault target info request (signed certificate_pem signed_chain) db =
      after_parse target info request signed_chain (env.parse_pem_certificate certificate_pem) db

  abbrev pub new_request : Target → Csr → CsrIdentity → List String → NewRequest
  new_request target csr info errors = record {
    request_id = env.request_uuid;
    application_id = target.app.id;
    runtime_instance_id = target.runtime_instance_id;
    profile_name = call.profile_name;
    source_interface = call.source_interface;
    csr_pem = call.csr_pem;
    csr_fingerprint_sha256 = csr.der_sha256;
    identity = info;
    validation_result = errors;
    requested_by = call.requested_by;
  }

  -- The request is written, and then it is rejected or goes to the Vault.
  unfoldable pub after_validation : Target → Csr → List String → CsrIdentity → Db → Outcome × Db
  after_validation target csr errors info db =
      let valid = no_errors errors in
      let (request, written) =
        insert_certificate_request (new_request target csr info errors)
          (if valid then "VALIDATED" else "REJECTED") db in
      let created =
        audit "certificate_request_created" call.requested_by (request_target env.request_uuid)
          (("application_uri", call.application_uri) ∷ ("profile_name", call.profile_name) ∷ [])
          written in
      if valid
      then after_vault target info request
          (env.sign_csr call.csr_pem (or_text call.requested_ttl env.cert_default_ttl)
            (or_text (common_name_from_subject info.subject) target.app.common_name))
          (audit "csr_validated" call.requested_by (request_target env.request_uuid) [] created)
      else (
        fails (error "csr_validation_failed" 400),
        audit "csr_rejected" call.requested_by (request_target env.request_uuid) [] created,
      )

  unfoldable pub after_csr : Target → Option Csr → Db → Outcome × Db
  after_csr target none db = (fails (error "malformed_csr" 400), db)
  after_csr target (some csr) db =
      let (errors, info) = validate_csr env.is_private target.profile csr target.app in
      if not csr.is_signature_valid
      then (fails (error "invalid_csr_signature" 400), db)
      else if is_taken (get_certificate_request_by_csr csr.der_sha256 db)
          && not call.allow_duplicate_csr
      then (fails (error "duplicate_csr" 409), db)
      else after_validation target csr errors info db

  abbrev pub after_target : LifecycleError ⊎ Target → Db → Outcome × Db
  after_target (inl e) db = (fails e, db)
  after_target (inr target) db = after_csr target (env.load_csr call.csr_pem) db

  unfoldable pub issue_certificate_package : Db → Outcome × Db
  issue_certificate_package db =
      after_target
        (find_target env.profiles call.application_uri call.runtime_instance_id call.profile_name
          (get_application_by_uri call.application_uri db))
        db
