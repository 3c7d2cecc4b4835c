-- ===== src/Gds/Lifecycle/Dry.antt =====
-- A dry run leaves nothing that later calls read.
use opcua_implementaion.Prelude.{
  String, Bool, true, false, Option, none, some, ltb, if◌then◌else◌, ◌⊎◌, inl, inr, ◌≡◌, refl, ap,
}
use opcua_implementaion.Gds.Db.{Db, CertificateRequest, audit}
use opcua_implementaion.Gds.Adapters.{Csr}
use opcua_implementaion.Gds.TrustLists.Query.{first_by}
use opcua_implementaion.Gds.Lifecycle.Rows.{
  counts_as_use, get_certificate_request_by_csr, insert_certificate_request,
}
use opcua_implementaion.Gds.Lifecycle.Issue.{LifecycleError, Environment, Call, Target, no_errors}
use opcua_implementaion.Gds.Lifecycle.DryRun.{
  dry_run_errors, dry_run_csr, dry_run_target, validate_certificate_request_dry_run,
}
use opcua_implementaion.Gds.Lifecycle.Failed.{IsUntouched, same-IsUntouched, unused_at_end}

dry_status_is_no_use :
    (valid : Bool)
    → counts_as_use (if valid then "DRY_RUN_VALIDATED" else "DRY_RUN_REJECTED") ≡ false
dry_status_is_no_use true = refl
dry_status_is_no_use false = refl

module _ (env : Environment) (call : Call) where
  dry_csr-IsUntouched :
      (target : Target) (loaded : Option Csr) (correlation_id : String) (db : Db)
      → IsUntouched db (dry_run_csr env call target loaded correlation_id db).1
  unfolding dry_run_csr audit insert_certificate_request get_certificate_request_by_csr
  dry_csr-IsUntouched target none correlation_id db = same-IsUntouched db
  dry_csr-IsUntouched target (some csr) correlation_id db = record {
    applications = refl;
    certificates = refl;
    packages = refl;
    duplicates = λ fingerprint. ap (first_by (λ (r s : CertificateRequest). ltb s.id r.id)) (
        unused_at_end fingerprint db.certificate_requests _
          (dry_status_is_no_use (no_errors (dry_run_errors env call target csr))));
  }

  dry_target-IsUntouched :
      (found : LifecycleError ⊎ Target) (correlation_id : String) (db : Db)
      → IsUntouched db (dry_run_target env call found correlation_id db).1
  dry_target-IsUntouched (inl e) correlation_id db = same-IsUntouched db
  dry_target-IsUntouched (inr target) correlation_id db =
      dry_csr-IsUntouched target (env.load_csr call.csr_pem) correlation_id db

  -- A dry run, whatever its result, leaves the applications, the certificates and the packages as they
  -- were, and the requests as the look for duplicates sees them.
  pub dry_run-IsUntouched :
      (correlation_id : String) (db : Db)
      → IsUntouched db (validate_certificate_request_dry_run env call correlation_id db).1
  unfolding validate_certificate_request_dry_run
  dry_run-IsUntouched correlation_id db = dry_target-IsUntouched _ correlation_id db
