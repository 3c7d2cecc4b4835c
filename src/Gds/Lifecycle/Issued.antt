-- ===== src/Gds/Lifecycle/Issued.antt =====
-- What a package that is issued rests on.
use opcua_implementaion.Prelude.{
  String, false, some, List, [], ◌∷◌, ◌++◌, ◌≡◌, refl, ap, subst, arith,
}
use opcua_implementaion.Gds.Db.{Db, CertificatePackage, audit}
use opcua_implementaion.Gds.Packages.Lifecycle.{insert_package_event}
use opcua_implementaion.Gds.Manifest.{PackageLayout}
use opcua_implementaion.Gds.Adapters.{Csr, validate_csr, generate_install_plan}
use opcua_implementaion.Gds.Lifecycle.Rows.{
  ParsedCertificate, find_fingerprint, insert_certificate_request,
  update_certificate_request_status, insert_certificate, insert_certificate_package,
}
use opcua_implementaion.Gds.Lifecycle.Compatibility.{
  canonical_package_manifest, package_files_sha256, manifest_sha256_of,
}
use opcua_implementaion.Gds.Lifecycle.Issue.{
  Environment, Call, IssuedPackage, Outcome, raises, fails, issues, Target, manifest_of,
  store_package, issue_certificate_package,
}
use opcua_implementaion.Gds.Lifecycle.Runs.{IsAdmitted, Run, stored, issue_certificate_package-Run}

module _ (env : Environment) (call : Call) where
  pub record IsWarranted (db : Db) (p : IssuedPackage) (after : Db) : Type 0 where
    pub target : Target
    pub csr : Csr
    pub admitted : IsAdmitted env call target csr db
    pub no_errors : (validate_csr env.is_private target.profile csr target.app).0 ≡ []
    pub pem : String
    pub cert : ParsedCertificate
    pub parsed : env.parse_pem_certificate pem ≡ some cert
    pub certificate_stored :
        find_fingerprint cert.fingerprint_sha256 after.certificates ≡ some p.certificate
    pub of_certificate : p.manifest.certificate_fingerprint_sha256 ≡ cert.fingerprint_sha256
    pub refers : p.package_row.certificate_id ≡ some p.certificate.id
    pub row_added : after.certificate_packages ≡ db.certificate_packages ++ p.package_row ∷ []
    pub row_manifest : p.package_row.manifest_json ≡ p.manifest
    pub row_hash : p.package_row.manifest_sha256 ≡ p.manifest.manifest_sha256
    pub hash : p.manifest.manifest_sha256 ≡ manifest_sha256_of env.crypto p.manifest
    pub signature :
        p.package_row.signature_base64
        ≡ env.crypto.sign (env.crypto.canonical_manifest (canonical_package_manifest p.manifest))
    pub schema : p.manifest.schema ≡ "labshock_certificate_package_v1"
    pub named : p.manifest.package_id ≡ env.package_uuid
    pub algorithm : p.manifest.signer_algorithm ≡ env.signer_algorithm
    pub signer : p.manifest.signer_fingerprint_sha256 ≡ env.signer_fingerprint_sha256
    pub layout : PackageLayout
    pub files : p.manifest.files_sha256 ≡ package_files_sha256 env.crypto layout
    pub no_writes : p.manifest.install_plan.runtime_write_enabled ≡ false

  abbrev package_or : IssuedPackage → Outcome → IssuedPackage
  package_or default raises = default
  package_or default (fails e) = default
  package_or default (issues p) = p

  -- The tables of the packages before the last steps.
  packages_kept :
      (target : Target) (csr : Csr) (cert : ParsedCertificate) (db : Db)
      → (stored env call target csr cert db).1.certificate_packages ≡ db.certificate_packages
  unfolding insert_certificate insert_certificate_request audit
  packages_kept target csr cert db = ground arith

  run_warrants :
      (db : Db) (o : Outcome × Db) (p : IssuedPackage)
      → Run env call db o
      → o.0 ≡ issues p
      → IsWarranted db p o.1
  unfolding store_package manifest_of canonical_package_manifest manifest_sha256_of
      insert_certificate_package insert_package_event update_certificate_request_status audit
      generate_install_plan
  run_warrants db o p (Run.refused e) h = absurd (ground arith)
  run_warrants db o p (Run.rejects target csr e es admitted invalid) h = absurd (ground arith)
  run_warrants db o p (Run.unsigned target csr code admitted) h = absurd (ground arith)
  run_warrants db o p (Run.unread target csr admitted) h = absurd (ground arith)
  run_warrants db o p (Run.packaged target csr pem chain cert row admitted valid parsed there) h =
      subst (λ q. IsWarranted db q o.1) (ap (package_or p) h)
        (record {
          target = target;
          csr = csr;
          admitted = admitted;
          no_errors = valid;
          pem = pem;
          cert = cert;
          parsed = parsed;
          certificate_stored = there;
          of_certificate = refl;
          refers = refl;
          row_added =
              ap (λ (t : List CertificatePackage). t ++ (package_or p o.0).package_row ∷ [])
                (packages_kept target csr cert db);
          row_manifest = refl;
          row_hash = refl;
          hash = refl;
          signature = refl;
          schema = refl;
          named = refl;
          algorithm = refl;
          signer = refl;
          layout = _;
          files = refl;
          no_writes = refl;
        })

  -- A package is issued only for a registered application and an active profile, and a signed request
  -- without errors that is not in use, unless that is allowed. Its certificate was parsed from a text
  -- and is in the table; its row is the last of the packages, refers to the certificate and has the
  -- manifest with its hash and its signature; and its plan writes nothing.
  pub issued-IsWarranted :
      (db : Db) (p : IssuedPackage)
      → (issue_certificate_package env call db).0 ≡ issues p
      → IsWarranted db p (issue_certificate_package env call db).1
  issued-IsWarranted db p h =
      run_warrants db (issue_certificate_package env call db) p
        (issue_certificate_package-Run env call db) h
