-- ===== src/Gds/Facade/Unsigned.antt =====
-- A facade that may not sign leaves the certificates and the packages alone.
use opcua_implementaion.Prelude.{
  String, false, Option, none, some, [], ◌∷◌, ltb, ◌==◌, string_eq, ◌⊎◌, inl, inr, ◌≡◌, subst,
  arith, Bool-cases,
}
use Prim.Native.String.{len}
use opcua_implementaion.Prelude.Text.{strip}
use opcua_implementaion.Gds.Db.{Db, Application, Details, audit}
use opcua_implementaion.Gds.Lifecycle.Rows.{get_certificate_request_by_csr}
use opcua_implementaion.Gds.Lifecycle.Issue.{LifecycleError}
use opcua_implementaion.Gds.Lifecycle.DryRun.{DryRun}
use opcua_implementaion.Gds.Lifecycle.Failed.{IsUntouched, same-IsUntouched}
use opcua_implementaion.Gds.Lifecycle.Dry.{dry_run-IsUntouched}
use opcua_implementaion.Gds.Facade.Limits.{allow, Context, session_key, enrollment_key}
use opcua_implementaion.Gds.Facade.Operations.{
  FacadeSettings, Payload, Reply, Operation, Facade, Surroundings, audit_facade, limited,
  enrollment_limited, lifecycle_call, trust_material_reply, dry_run_reply, dry_run_body,
  signing_body, package_status_body, trust_material_body, serve, actor,
}

module _ (settings : FacadeSettings) (around : Surroundings) where
  audit-IsUntouched :
      (event_type actor_name : String) (context : Context) (details : Details) (db : Db)
      (facade : Facade)
      → IsUntouched db facade.db
      → IsUntouched db
          (audit_facade settings around event_type actor_name context details facade).db
  unfolding audit_facade audit get_certificate_request_by_csr
  audit-IsUntouched event_type actor_name context details db facade before = record {
    applications = before.applications;
    certificates = before.certificates;
    packages = before.packages;
    duplicates = before.duplicates;
  }

  -- A body that keeps what its tables keep.
  abbrev Keeps : (Facade → Reply × Facade) → Type 0
  Keeps body = (facade : Facade) → IsUntouched facade.db (body facade).1.db

  limited-Keeps :
      (context : Context) (body : Facade → Reply × Facade)
      → Keeps body
      → Keeps (limited settings around context body)
  unfolding limited
  limited-Keeps context body keeps facade =
      let counters =
        allow settings.session_request_limit around.monotonic (session_key context)
          facade.session_limits in
      elim (Bool-cases counters.0) [
        | inl allowed ↦ rw allowed (keeps (record facade { session_limits = counters.1 }))
        | inr refused ↦ rw refused (same-IsUntouched facade.db)
      ]

  enrollment_limited-Keeps :
      (context : Context) (body : Facade → Reply × Facade)
      → Keeps body
      → Keeps (enrollment_limited settings around context body)
  unfolding enrollment_limited
  enrollment_limited-Keeps context body keeps facade =
      let counters =
        allow settings.client_enrollment_limit around.monotonic (enrollment_key context)
          facade.enrollment_limits in
      elim (Bool-cases counters.0) [
        | inl allowed ↦ rw allowed (keeps (record facade { enrollment_limits = counters.1 }))
        | inr refused ↦ rw refused (same-IsUntouched facade.db)
      ]

  told-IsUntouched :
      (context : Context) (event_type : String) (details : Details) (facade : Facade)
      → IsUntouched facade.db
          (audit_facade settings around event_type "opcua:gds_facade" context details facade).db
  told-IsUntouched context event_type details facade =
      audit-IsUntouched event_type "opcua:gds_facade" context details facade.db facade
        (same-IsUntouched facade.db)

  dry_reply-IsUntouched :
      (context : Context) (actor_name : String) (result : LifecycleError ⊎ DryRun) (db : Db)
      (facade : Facade)
      → IsUntouched db facade.db
      → IsUntouched db (dry_run_reply settings around context actor_name result facade).1.db
  dry_reply-IsUntouched context actor_name (inl e) db facade before =
      audit-IsUntouched "opcua_signing_request_dry_run_rejected" actor_name context _ db facade
        before
  dry_reply-IsUntouched context actor_name (inr result) db facade before = before

  dry_body-Keeps :
      (payload : Payload) (context : Context) → Keeps (dry_run_body settings around payload context)
  unfolding dry_run_body
  dry_body-Keeps payload context facade =
      elim (Bool-cases (ltb settings.max_csr_bytes (len payload.csr_pem))) [
        | inl large ↦
            rw large (audit-IsUntouched _ _ context _ facade.db facade (same-IsUntouched facade.db))
        | inr fits ↦ rw fits (
            dry_reply-IsUntouched context (actor payload) _ facade.db _ (
              dry_run-IsUntouched around.environment
                (lifecycle_call settings around payload none "opcua_part12_dry_run")
                context.correlation_id facade.db))
      ]

  signing_body-Keeps :
      (payload : Payload) (context : Context)
      → settings.allow_signing ≡ false
      → Keeps (signing_body settings around payload context)
  unfolding signing_body
  signing_body-Keeps payload context disabled facade =
      let after =
        audit_facade settings around "opcua_signing_request_rejected" (actor payload) context
          (("error_code", "opcua_signing_disabled") ∷ []) facade in
      let left : after ≡ (signing_body settings around payload context facade).1 = ground arith in
      subst (λ (f : Facade). IsUntouched facade.db f.db) left
        (audit-IsUntouched _ _ context _ facade.db facade (same-IsUntouched facade.db))

  status_body-Keeps :
      (payload : Payload) (context : Context)
      → Keeps (package_status_body settings around payload context)
  unfolding package_status_body
  status_body-Keeps payload context facade = elim (Bool-cases (strip payload.package_id == "")) [
    | inr named ↦ rw named (told-IsUntouched context _ _ facade)
    | inl unnamed ↦ elim (Bool-cases (strip payload.application_uri == "")) [
      | inr of_app ↦ rw (unnamed, of_app) (told-IsUntouched context _ _ facade)
      | inl neither ↦ rw (unnamed, neither) (same-IsUntouched facade.db)
    ]
  ]

  trust_reply-Keeps :
      (context : Context) (application_uri : String) (app : Option Application)
      → Keeps (trust_material_reply settings around context application_uri app)
  trust_reply-Keeps context application_uri none facade = same-IsUntouched facade.db
  trust_reply-Keeps context application_uri (some app) facade = told-IsUntouched context _ _ facade

  trust_body-Keeps :
      (payload : Payload) (context : Context)
      → Keeps (trust_material_body settings around payload context)
  unfolding trust_material_body
  trust_body-Keeps payload context facade =
      elim (Bool-cases (strip payload.application_uri == "")) [
        | inl blank ↦ rw blank (same-IsUntouched facade.db)
        | inr given ↦ rw given (trust_reply-Keeps context _ _ facade)
      ]

  -- While signing is disabled, each method of the facade leaves the applications, the certificates and
  -- the packages as they were, and the requests as the look for duplicates sees them.
  pub serve-IsUntouched :
      (operation : Operation) (facade : Facade)
      → settings.allow_signing ≡ false
      → IsUntouched facade.db (serve settings around operation facade).1.db
  unfolding serve
  serve-IsUntouched Operation.get_server_capabilities facade disabled =
      limited-Keeps _ _ (told-IsUntouched _ _ _) facade
  serve-IsUntouched Operation.get_discovery facade disabled =
      limited-Keeps _ _ (told-IsUntouched _ _ _) facade
  serve-IsUntouched Operation.get_application_inventory facade disabled =
      limited-Keeps _ _ (told-IsUntouched _ _ _) facade
  serve-IsUntouched Operation.get_certificate_groups facade disabled =
      limited-Keeps _ _ (told-IsUntouched _ _ _) facade
  serve-IsUntouched (Operation.get_trust_material_status payload) facade disabled =
      limited-Keeps _ _ (trust_body-Keeps payload _) facade
  serve-IsUntouched (Operation.create_signing_request_dry_run payload) facade disabled =
      limited-Keeps _ _ (enrollment_limited-Keeps _ _ (dry_body-Keeps payload _)) facade
  serve-IsUntouched (Operation.create_signing_request payload) facade disabled =
      limited-Keeps _ _ (enrollment_limited-Keeps _ _ (signing_body-Keeps payload _ disabled))
        facade
  serve-IsUntouched (Operation.get_package_status payload) facade disabled =
      limited-Keeps _ _ (status_body-Keeps payload _) facade
