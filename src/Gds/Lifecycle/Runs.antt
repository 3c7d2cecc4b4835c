-- ===== src/Gds/Lifecycle/Runs.antt =====
-- The ways in which a call of `issue_certificate_package` ends.
use opcua_implementaion.Prelude.{
  String, true, false, not, ◌&&◌, Option, none, some, List, [], ◌∷◌, ◌==◌, string_eq, ◌≡◌, refl,
  arith, inl, inr, ◌++◌, eq_iff, Bool-cases, Option-cases,
}
use opcua_implementaion.Prelude.Text.{lower}
use opcua_implementaion.Gds.Db.{Db, Application, Certificate, audit}
use opcua_implementaion.Gds.Adapters.{Csr, Profile, extract_csr_identity, validate_csr}
use opcua_implementaion.Gds.Lifecycle.Rows.{
  get_application_by_uri, get_component_profile, get_certificate_request_by_csr,
  insert_certificate_request, update_certificate_request_status, ParsedCertificate,
  find_fingerprint, certificate_row, insert_certificate,
}
use opcua_implementaion.Gds.Lifecycle.Issue.{
  LifecycleError, error, Signing, vault_sealed, vault_failed, signed, inserted_or_found,
  Environment, Call, Outcome, raises, fails, Target, profile_target, find_target, or_text,
  request_target, store_package, after_store, after_parse, fail_request, after_vault, new_request,
  after_validation, is_taken, after_csr, after_target, issue_certificate_package,
}

module _ (env : Environment) (call : Call) where
  -- What a call has passed when its request is written.
  pub record IsAdmitted (target : Target) (csr : Csr) (db : Db) : Type 0 where
    pub app_found : get_application_by_uri call.application_uri db ≡ some target.app
    pub profile_found : get_component_profile call.profile_name env.profiles ≡ some target.profile
    pub profile_active : lower target.profile.status ≡ "active"
    pub csr_loaded : env.load_csr call.csr_pem ≡ some csr
    pub csr_signed : csr.is_signature_valid ≡ true
    pub unused :
        (is_taken (get_certificate_request_by_csr csr.der_sha256 db)
          && not call.allow_duplicate_csr)
        ≡ false

  -- The tables once the request is written with a status.
  abbrev pub created : Target → Csr → List String → String → Db → Db
  created target csr errors status db =
      audit "certificate_request_created" call.requested_by (request_target env.request_uuid)
        (("application_uri", call.application_uri) ∷ ("profile_name", call.profile_name) ∷ [])
        (insert_certificate_request
          (new_request env call target csr (extract_csr_identity csr) errors) status db).1

  abbrev pub validated : Target → Csr → Db → Db
  validated target csr db =
      audit "csr_validated" call.requested_by (request_target env.request_uuid) []
        (created target csr [] "VALIDATED" db)

  abbrev pub rejected : Target → Csr → List String → Db → Db
  rejected target csr errors db =
      audit "csr_rejected" call.requested_by (request_target env.request_uuid) []
        (created target csr errors "REJECTED" db)

  abbrev pub stored : Target → Csr → ParsedCertificate → Db → Option Certificate × Db
  stored target csr cert db =
      insert_certificate target.app.id cert env.now (validated target csr db)

  abbrev pub issued_tables : Target → Csr → ParsedCertificate → Db → Db
  issued_tables target csr cert db =
      audit "certificate_issued" call.requested_by "certificate"
        (("request_id", env.request_uuid) ∷ ("fingerprint_sha256", cert.fingerprint_sha256) ∷ [])
        (update_certificate_request_status env.request_uuid "ISSUED" none
          (stored target csr cert db).1)

  pub data Run (db : Db) : Outcome × Db → Type 0 where
    refused : (e : LifecycleError) → Run db (fails e, db)
    rejects :
        (target : Target) (csr : Csr) (e : String) (es : List String)
        → IsAdmitted target csr db
        → (validate_csr env.is_private target.profile csr target.app).0 ≡ e ∷ es
        → Run db (fails (error "csr_validation_failed" 400), rejected target csr (e ∷ es) db)
    unsigned :
        (target : Target) (csr : Csr) (code : String)
        → IsAdmitted target csr db
        → Run db (fails (error code 503), fail_request env call code (validated target csr db))
    unread :
        (target : Target) (csr : Csr)
        → IsAdmitted target csr db
        → Run db (raises, validated target csr db)
    packaged :
        (target : Target) (csr : Csr) (pem : String) (chain : Option String)
        (cert : ParsedCertificate) (row : Certificate)
        → IsAdmitted target csr db
        → (validate_csr env.is_private target.profile csr target.app).0 ≡ []
        → env.parse_pem_certificate pem ≡ some cert
        → find_fingerprint cert.fingerprint_sha256 (stored target csr cert db).1.certificates
          ≡ some row
        → Run db (
            store_package env call target
              (extract_csr_identity csr)
              (insert_certificate_request
                (new_request env call target csr (extract_csr_identity csr) [])
                "VALIDATED"
                db).0
              cert
              chain
              row
              (issued_tables target csr cert db))

  found_at_end :
      (fingerprint : String) (row : Certificate) (certs : List Certificate)
      → find_fingerprint fingerprint certs ≡ none
      → (row.fingerprint_sha256 == fingerprint) ≡ true
      → find_fingerprint fingerprint (certs ++ row ∷ []) ≡ some row
  unfolding find_fingerprint
  found_at_end fingerprint row [] absent same = ground arith
  found_at_end fingerprint row (c ∷ certs) absent same =
      ground (arith, found_at_end fingerprint row certs)

  -- A certificate that is not inserted has its fingerprint in the table already.
  stored_or_there :
      (target : Target) (cert : ParsedCertificate) (db : Db)
      → (row : Certificate) × (inserted_or_found
            (insert_certificate target.app.id cert env.now db).0
            cert.fingerprint_sha256
            (insert_certificate target.app.id cert env.now db).1
          ≡ some row)
        × (find_fingerprint cert.fingerprint_sha256
              (insert_certificate target.app.id cert env.now db).1.certificates
            ≡ some row)
  unfolding insert_certificate
  stored_or_there target cert db =
      elim (Option-cases (find_fingerprint cert.fingerprint_sha256 db.certificates)) [
        | inl absent ↦
            (let row = certificate_row target.app.id cert env.now db in
              rw absent (
                row,
                refl,
                found_at_end cert.fingerprint_sha256 row db.certificates absent
                    ((eq_iff cert.fingerprint_sha256 cert.fingerprint_sha256).1 refl),
              ))
        | inr (row, there) ↦ rw there (row, there, there)
      ]

  vault_runs :
      (target : Target) (csr : Csr) (answer : Signing) (db : Db)
      → IsAdmitted target csr db
      → (validate_csr env.is_private target.profile csr target.app).0 ≡ []
      → Run db (
          after_vault env call target
            (extract_csr_identity csr)
            (insert_certificate_request
              (new_request env call target csr (extract_csr_identity csr) [])
              "VALIDATED"
              db).0
            answer
            (validated target csr db))
  unfolding after_vault after_parse after_store
  vault_runs target csr vault_sealed db admitted valid =
      Run.unsigned target csr "vault_sealed" admitted
  vault_runs target csr (vault_failed class_name) db admitted valid =
      Run.unsigned target csr "vault_signing_failed" admitted
  vault_runs target csr (signed pem chain) db admitted valid =
      elim (Option-cases (env.parse_pem_certificate pem)) [
        | inl unreadable ↦ rw unreadable (Run.unread target csr admitted)
        | inr (cert, readable) ↦
            (let (row, found, there) = stored_or_there target cert (validated target csr db) in
              rw (readable, found)
                (Run.packaged target csr pem chain cert row admitted valid readable there))
      ]

  validation_runs :
      (target : Target) (csr : Csr) (errors : List String) (db : Db)
      → IsAdmitted target csr db
      → (validate_csr env.is_private target.profile csr target.app).0 ≡ errors
      → Run db (after_validation env call target csr errors (extract_csr_identity csr) db)
  unfolding after_validation
  validation_runs target csr [] db admitted valid = vault_runs target csr _ db admitted valid
  validation_runs target csr (e ∷ es) db admitted invalid =
      Run.rejects target csr e es admitted invalid

  csr_runs :
      (target : Target) (loaded : Option Csr) (db : Db)
      → env.load_csr call.csr_pem ≡ loaded
      → get_application_by_uri call.application_uri db ≡ some target.app
      → get_component_profile call.profile_name env.profiles ≡ some target.profile
      → lower target.profile.status ≡ "active"
      → Run db (after_csr env call target loaded db)
  unfolding after_csr validate_csr extract_csr_identity after_validation
  csr_runs target none db h app_found profile_found profile_active =
      Run.refused (error "malformed_csr" 400)
  csr_runs target (some csr) db h app_found profile_found profile_active =
      let taken =
        is_taken (get_certificate_request_by_csr csr.der_sha256 db)
        && not call.allow_duplicate_csr in
      elim (Bool-cases csr.is_signature_valid) [
        | inr bad ↦ rw bad (Run.refused (error "invalid_csr_signature" 400))
        | inl good ↦ elim (Bool-cases taken) [
          | inl used ↦ rw (good, used) (Run.refused (error "duplicate_csr" 409))
          | inr unused ↦
              rw (good, unused)
                (validation_runs target csr _ db
                  (record {
                    app_found = app_found;
                    profile_found = profile_found;
                    profile_active = profile_active;
                    csr_loaded = h;
                    csr_signed = good;
                    unused = unused;
                  })
                  refl)
        ]
      ]

  profile_runs :
      (app : Application) (runtime : String) (found : Option Profile) (db : Db)
      → get_application_by_uri call.application_uri db ≡ some app
      → get_component_profile call.profile_name env.profiles ≡ found
      → Run db (after_target env call (profile_target app runtime found) db)
  profile_runs app runtime none db there h = Run.refused (error "unknown_profile" 404)
  profile_runs app runtime (some profile) db there h =
      elim (Bool-cases (lower profile.status == "active")) [
        | inl active ↦ rw active (
            csr_runs (record { app = app; runtime_instance_id = runtime; profile = profile })
              (env.load_csr call.csr_pem) db refl there h
              ((eq_iff (lower profile.status) "active").0 active))
        | inr inactive ↦ rw inactive (Run.refused (error "unknown_profile" 404))
      ]

  target_runs :
      (found : Option Application) (db : Db)
      → get_application_by_uri call.application_uri db ≡ found
      → Run db (
          after_target env call
            (find_target env.profiles call.application_uri call.runtime_instance_id
              call.profile_name found)
            db)
  unfolding find_target
  target_runs none db h = Run.refused (error "unknown_application" 404)
  target_runs (some app) db h =
      let app_runtime = or_text app.runtime_instance_id app.application_uri in
      let mismatch =
        not (call.runtime_instance_id == "")
        && (not (app_runtime == "") && not (call.runtime_instance_id == app_runtime)) in
      elim (Bool-cases mismatch) [
        | inl differs ↦ rw differs (Run.refused (error "runtime_instance_mismatch" 400))
        | inr same ↦ rw same (profile_runs app _ _ db h refl)
      ]

  -- Each call ends in one of the ways of `Run`.
  pub issue_certificate_package-Run : (db : Db) → Run db (issue_certificate_package env call db)
  unfolding issue_certificate_package
  issue_certificate_package-Run db =
      target_runs (get_application_by_uri call.application_uri db) db refl
