-- ===== src/Gds/Lifecycle/Rows.antt =====
-- The statements of gds/app/db.py with which packages are issued. A new identifier is not in its table,
-- and the profile and the application of a row are, so that no INSERT fails.
use opcua_implementaion.Prelude.{
  ℕ, ◌+◌, String, Bool, not, ◌&&◌, ◌||◌, Option, none, some, List, [], ◌∷◌, ◌++◌, ltb, ◌==◌,
  string_eq, number_eq, where_list, if◌then◌else◌,
}
use opcua_implementaion.Gds.Db.{
  Db, Application, Certificate, CertificateRequest, CertificatePackage,
}
use opcua_implementaion.Gds.TrustLists.Query.{first_by}
use opcua_implementaion.Gds.Manifest.{CsrIdentity, Manifest}
use opcua_implementaion.Gds.Adapters.{Profile}

-- The column is unique.
unfoldable pub find_application : String → List Application → Option Application
find_application application_uri [] = none
find_application application_uri (a ∷ apps) =
    if a.application_uri == application_uri then some a else find_application application_uri apps

unfoldable pub get_application_by_uri : String → Db → Option Application
get_application_by_uri application_uri db = find_application application_uri db.applications

unfoldable pub get_component_profile : String → List Profile → Option Profile
get_component_profile profile_name [] = none
get_component_profile profile_name (p ∷ profiles) =
    if p.profile_name == profile_name then some p else get_component_profile profile_name profiles

-- `status NOT IN (...)` of the query for duplicates.
abbrev pub counts_as_use : String → Bool
counts_as_use status = not (
    status == "FAILED"
    || status == "REJECTED"
    || status == "DRY_RUN_VALIDATED"
    || status == "DRY_RUN_REJECTED")

unfoldable pub uses_csr : String → CertificateRequest → Bool
uses_csr csr_fingerprint_sha256 r =
    r.csr_fingerprint_sha256 == csr_fingerprint_sha256 && counts_as_use r.status

-- ORDER BY id DESC LIMIT 1
unfoldable pub get_certificate_request_by_csr : String → Db → Option CertificateRequest
get_certificate_request_by_csr csr_fingerprint_sha256 db =
    first_by (λ r s. ltb s.id r.id)
      (where_list (uses_csr csr_fingerprint_sha256) db.certificate_requests)

pub record NewRequest : Type 0 where
  pub request_id : String
  pub application_id : ℕ
  pub runtime_instance_id : String
  pub profile_name : String
  pub source_interface : String
  pub csr_pem : String
  pub csr_fingerprint_sha256 : String
  pub identity : CsrIdentity
  pub validation_result : List String
  pub requested_by : String

unfoldable pub insert_certificate_request : NewRequest → String → Db → CertificateRequest × Db
insert_certificate_request new status_value db =
    let row : CertificateRequest = record {
      id = db.next_request;
      request_id = new.request_id;
      application_id = new.application_id;
      runtime_instance_id = new.runtime_instance_id;
      profile_name = new.profile_name;
      source_interface = new.source_interface;
      csr_pem = new.csr_pem;
      csr_fingerprint_sha256 = new.csr_fingerprint_sha256;
      identity = new.identity;
      validation_result = new.validation_result;
      requested_by = new.requested_by;
      status = status_value;
    } in
    (
      row,
      record db {
        certificate_requests = db.certificate_requests ++ row ∷ [];
        next_request = db.next_request + 1;
      },
    )

abbrev or_old : Option (List String) → List String → List String
or_old none old = old
or_old (some new) old = new

unfoldable pub set_request_status :
    String → String → Option (List String) → List CertificateRequest → List CertificateRequest
set_request_status request_id status_value validation [] = []
set_request_status request_id status_value validation (r ∷ rows) =
    (if r.request_id == request_id
      then (record r {
        status = status_value;
        validation_result = or_old validation r.validation_result;
      })
      else r)
    ∷ set_request_status request_id status_value validation rows

-- Callers do not look at the row that is returned.
unfoldable pub update_certificate_request_status : String → String → Option (List String) → Db → Db
update_certificate_request_status request_id status_value validation db = record db {
  certificate_requests =
      set_request_status request_id status_value validation db.certificate_requests;
}

-- What `parse_pem_certificate` reads off a certificate.
pub record ParsedCertificate : Type 0 where
  pub pem : String
  pub fingerprint_sha256 : String
  pub serial_number : Option String
  pub subject : Option String
  pub issuer : Option String
  pub not_before : Option ℕ
  pub not_after : Option ℕ

unfoldable pub find_fingerprint : String → List Certificate → Option Certificate
find_fingerprint fingerprint [] = none
find_fingerprint fingerprint (c ∷ certs) =
    if c.fingerprint_sha256 == fingerprint then some c else find_fingerprint fingerprint certs

abbrev pub certificate_row : ℕ → ParsedCertificate → ℕ → Db → Certificate
certificate_row application_id cert now db = record {
  id = db.next_certificate;
  application_id = application_id;
  fingerprint_sha256 = cert.fingerprint_sha256;
  serial_number = cert.serial_number;
  subject = cert.subject;
  issuer = cert.issuer;
  not_before = cert.not_before;
  not_after = cert.not_after;
  pem = cert.pem;
  status = "active";
  created_at = now;
  revoked_at = none;
}

-- ON CONFLICT(fingerprint_sha256) DO NOTHING, by the row that has the fingerprint.
abbrev pub insert_unless : Option Certificate → Certificate → Db → Option Certificate × Db
insert_unless (some taken) row db = (none, db)
insert_unless none row db = (
  some row,
  record db {
    certificates = db.certificates ++ row ∷ [];
    next_certificate = db.next_certificate + 1;
  },
)

unfoldable pub insert_certificate : ℕ → ParsedCertificate → ℕ → Db → Option Certificate × Db
insert_certificate application_id cert now db =
    insert_unless (find_fingerprint cert.fingerprint_sha256 db.certificates)
      (certificate_row application_id cert now db) db

unfoldable pub package_is_of : ℕ → String → CertificatePackage → Bool
package_is_of application_id profile_name p =
    p.application_id == application_id && p.profile_name == profile_name

unfoldable pub later_generation : CertificatePackage → CertificatePackage → Bool
later_generation p q = ltb q.generation p.generation

-- ORDER BY generation DESC LIMIT 1
unfoldable pub get_latest_certificate_package_for_application :
    ℕ → String → Db → Option CertificatePackage
get_latest_certificate_package_for_application application_id profile_name db =
    first_by later_generation
      (where_list (package_is_of application_id profile_name) db.certificate_packages)

-- The generation and what the package supersedes are given by the callers.
unfoldable pub insert_certificate_package :
    ℕ → String → ℕ → Manifest → String → ℕ → Db → CertificatePackage × Db
insert_certificate_package application_id request_id certificate_id manifest signature_base64 now
      db =
    let row : CertificatePackage = record {
      id = db.next_package;
      package_id = manifest.package_id;
      application_id = application_id;
      runtime_instance_id = manifest.runtime_instance_id;
      request_id = request_id;
      certificate_id = some certificate_id;
      generation = manifest.generation;
      profile_name = manifest.profile_name;
      supersedes_package_id = manifest.supersedes_package_id;
      supersedes_generation = manifest.supersedes_generation;
      manifest_json = manifest;
      manifest_sha256 = manifest.manifest_sha256;
      signature_base64 = signature_base64;
      compatibility_status = manifest.compatibility.status;
      lifecycle_state = manifest.lifecycle_state;
      status = "active";
      created_at = now;
    } in
    (
      row,
      record db {
        certificate_packages = db.certificate_packages ++ row ∷ [];
        next_package = db.next_package + 1;
      },
    )
