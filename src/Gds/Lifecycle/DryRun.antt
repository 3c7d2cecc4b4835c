-- ===== src/Gds/Lifecycle/DryRun.antt =====
-- `validate_certificate_request_dry_run` of gds/app/lifecycle.py.
use opcua_implementaion.Prelude.{
  String, Option, none, some, List, [], ◌∷◌, ◌++◌, if◌then◌else◌, ◌⊎◌, inl, inr,
}
use opcua_implementaion.Gds.Db.{Db, CertificateRequest, audit}
use opcua_implementaion.Gds.Manifest.{RuntimeCompatibility}
use opcua_implementaion.Gds.Adapters.{
  Csr, extract_csr_identity, validate_csr, validate_runtime_compatibility,
}
use opcua_implementaion.Gds.Lifecycle.Rows.{get_application_by_uri, insert_certificate_request}
use opcua_implementaion.Gds.Lifecycle.Issue.{
  LifecycleError, error, Environment, Call, Target, find_target, no_errors, new_request,
  request_target,
}

pub record DryRun : Type 0 where
  pub request : CertificateRequest
  pub validation_errors : List String
  pub compatibility : RuntimeCompatibility
  pub target : Target

module _ (env : Environment) (call : Call) where
  abbrev signature_error : Csr → List String
  signature_error csr = if csr.is_signature_valid then [] else "invalid_csr_signature" ∷ []

  -- The errors of the validation, and one more for a signature that is not valid.
  abbrev pub dry_run_errors : Target → Csr → List String
  dry_run_errors target csr =
      (validate_csr env.is_private target.profile csr target.app).0 ++ signature_error csr

  unfoldable pub dry_run_csr : Target → Option Csr → String → Db → (LifecycleError ⊎ DryRun) × Db
  dry_run_csr target none correlation_id db = (inl (error "malformed_csr" 400), db)
  dry_run_csr target (some csr) correlation_id db =
      let info = extract_csr_identity csr in
      let errors = dry_run_errors target csr in
      let compatibility = validate_runtime_compatibility target.profile info target.app none in
      let (request, written) =
        insert_certificate_request (new_request env call target csr info errors)
          (if no_errors errors then "DRY_RUN_VALIDATED" else "DRY_RUN_REJECTED") db in
      (
        inr (record {
          request = request;
          validation_errors = errors;
          compatibility = compatibility;
          target = target;
        }),
        audit "opcua_signing_request_dry_run" call.requested_by (request_target env.request_uuid)
            (("application_uri", call.application_uri)
              ∷ ("runtime_instance_id", target.runtime_instance_id)
              ∷ ("profile_name", call.profile_name)
              ∷ ("request_id", env.request_uuid)
              ∷ ("correlation_id", correlation_id)
              ∷ ("validation_status", request.status)
              ∷ ("compatibility_status", compatibility.status)
              ∷ ("dry_run_only", "true")
              ∷ [])
            written,
      )

  abbrev pub dry_run_target : LifecycleError ⊎ Target → String → Db → (LifecycleError ⊎ DryRun) × Db
  dry_run_target (inl e) correlation_id db = (inl e, db)
  dry_run_target (inr target) correlation_id db =
      dry_run_csr target (env.load_csr call.csr_pem) correlation_id db

  unfoldable pub validate_certificate_request_dry_run : String → Db → (LifecycleError ⊎ DryRun) × Db
  validate_certificate_request_dry_run correlation_id db =
      dry_run_target
        (find_target env.profiles call.application_uri call.runtime_instance_id call.profile_name
          (get_application_by_uri call.application_uri db))
        correlation_id db
