-- ===== src/Gds/Db.antt =====
-- The tables of gds/app/db.py that the modelled code reads and writes, as lists of rows in the order
-- of their insertion, with the next value of each serial. `now()` is an argument of the statements,
-- in whole ticks. A JSON column holds its keys and values as texts.
use opcua_implementaion.Prelude.{ℕ, ◌+◌, String, Option, List, ◌++◌, ◌∷◌, []}
use opcua_implementaion.Gds.Manifest.{CsrIdentity, Manifest}

pub record Application : Type 0 where
  pub id : ℕ
  pub application_uri : String
  pub common_name : String
  pub zone : String
  pub role : String
  pub runtime_instance_id : Option String
  pub component_type : Option String
  pub host : Option String
  pub port : Option ℕ
  pub status : String
  pub created_at : ℕ
  pub updated_at : ℕ
  pub last_seen_at : Option ℕ

pub record Certificate : Type 0 where
  pub id : ℕ
  pub application_id : ℕ
  pub fingerprint_sha256 : String
  pub serial_number : Option String
  pub subject : Option String
  pub issuer : Option String
  pub not_before : Option ℕ
  pub not_after : Option ℕ
  pub pem : String
  pub status : String
  pub created_at : ℕ
  pub revoked_at : Option ℕ

pub record TrustList : Type 0 where
  pub id : ℕ
  pub zone : String
  pub role : String
  pub version : ℕ
  pub status : String
  pub created_at : ℕ
  pub published_at : Option ℕ

pub record Member : Type 0 where
  pub trust_list_id : ℕ
  pub certificate_id : ℕ
  pub member_type : String

abbrev pub Details : Type 0
Details = List (String × String)

pub record AuditEvent : Type 0 where
  pub id : ℕ
  pub event_type : String
  pub actor : String
  pub target : String
  pub details : Details

-- A row of the query of `get_latest_trust_list_with_certs`.
pub record TrustedCertificate : Type 0 where
  pub certificate_id : ℕ
  pub application_uri : String
  pub common_name : String
  pub zone : String
  pub role : String
  pub component_type : Option String
  pub fingerprint_sha256 : String
  pub pem : String

pub record SignerInfo : Type 0 where
  pub key_id : String
  pub algorithm : String
  pub fingerprint_sha256 : String

-- The artifact as the service builds it: the keys of the canonical payload and no other.
pub record Artifact : Type 0 where
  pub artifact_type : String
  pub schema_version : ℕ
  pub zone : String
  pub role : String
  pub version : ℕ
  pub artifact_revision : ℕ
  pub artifact_reason : String
  pub generated_at : ℕ
  pub expires_at : ℕ
  pub ca_chain_pem : String
  pub crl_base64 : String
  pub crl_bundle : Details
  pub crl_metadata : Details
  pub certificates : List TrustedCertificate
  pub signer : SignerInfo

pub record TrustArtifact : Type 0 where
  pub id : ℕ
  pub zone : String
  pub role : String
  pub trustlist_version : ℕ
  pub artifact_revision : ℕ
  pub artifact_json : Artifact
  pub artifact_sha256 : String
  pub signature_base64 : String
  pub signer_key_id : String
  pub signer_fingerprint_sha256 : String
  pub generated_at : ℕ
  pub expires_at : ℕ
  pub reason : String

-- The columns with the names in the request are one, `identity`; the JSON of the validation has its
-- errors, and leaves out the warnings, of which there are none, and the copy of the identity.
pub record CertificateRequest : Type 0 where
  pub id : ℕ
  pub request_id : String
  pub application_id : ℕ
  pub runtime_instance_id : String
  pub profile_name : String
  pub source_interface : String
  pub csr_pem : String
  pub csr_fingerprint_sha256 : String
  pub identity : CsrIdentity
  pub validation_result : List String
  pub requested_by : String
  pub status : String

pub record CertificatePackage : Type 0 where
  pub id : ℕ
  pub package_id : String
  pub application_id : ℕ
  pub runtime_instance_id : String
  pub request_id : String
  pub certificate_id : Option ℕ
  pub generation : ℕ
  pub profile_name : String
  pub supersedes_package_id : Option String
  pub supersedes_generation : Option ℕ
  pub manifest_json : Manifest
  pub manifest_sha256 : String
  pub signature_base64 : String
  pub compatibility_status : String
  pub lifecycle_state : String
  pub status : String
  pub created_at : ℕ

pub record PackageEvent : Type 0 where
  pub package_id : String
  pub event_type : String
  pub actor : String
  pub details : Details

pub record Db : Type 0 where
  pub applications : List Application
  pub certificates : List Certificate
  pub trust_lists : List TrustList
  pub trust_list_members : List Member
  pub trust_artifacts : List TrustArtifact
  pub certificate_requests : List CertificateRequest
  pub certificate_packages : List CertificatePackage
  pub package_events : List PackageEvent
  pub audit_events : List AuditEvent
  pub next_certificate : ℕ
  pub next_trust_list : ℕ
  pub next_artifact : ℕ
  pub next_request : ℕ
  pub next_package : ℕ
  pub next_audit : ℕ

-- `audit`
unfoldable pub audit : String → String → String → Details → Db → Db
audit event_type actor target details db = record db {
  audit_events =
      db.audit_events
      ++ record {
        id = db.next_audit;
        event_type = event_type;
        actor = actor;
        target = target;
        details = details;
      }
        ∷ [];
  next_audit = db.next_audit + 1;
}

-- The tables as `migrate` creates them.
abbrev pub empty_db : Db
empty_db = record {
  applications = [];
  certificates = [];
  trust_lists = [];
  trust_list_members = [];
  trust_artifacts = [];
  certificate_requests = [];
  certificate_packages = [];
  package_events = [];
  audit_events = [];
  next_certificate = 1;
  next_trust_list = 1;
  next_artifact = 1;
  next_request = 1;
  next_package = 1;
  next_audit = 1;
}
