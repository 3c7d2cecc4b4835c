-- ===== src/Gds/Manifest.antt =====
-- The values that a certificate package is made of: the records of gds/app/runtime_adapters.py and the
-- manifest of gds/app/lifecycle.py. A JSON object with free keys holds its values as texts.
use opcua_implementaion.Prelude.{ℕ, String, Bool, false, true, Option, none, List, []}
use opcua_implementaion.Prelude.Dict.{Dict}

-- What `extract_csr_identity` returns.
pub record CsrIdentity : Type 0 where
  pub subject : String
  pub uri_sans : List String
  pub dns_sans : List String
  pub ip_sans : List String
  pub key_usage : List String
  pub extended_key_usage : List String

pub record CompatibilityDetails : Type 0 where
  pub runtime_family : String
  pub certificate_format : String
  pub runtime_semantics : Dict String String
  pub trust_store_layout : Dict String String
  pub csr_identity : CsrIdentity
  pub issued_certificate_fingerprint : Option String

pub record RuntimeCompatibility : Type 0 where
  pub status : String
  pub risk_level : String
  pub blocking_reasons : List String
  pub warnings : List String
  pub details : CompatibilityDetails

pub record PackageLayout : Type 0 where
  pub runtime_family : String
  pub layout : Dict String String
  pub files : Dict String String

pub record InstallPlan : Type 0 where
  pub runtime_write_enabled : Bool
  pub dry_run_only : Bool
  pub runtime_family : String
  pub target_layout : Dict String String
  pub steps : List String
  pub blocked : Bool
  pub blocking_reasons : List String
  pub warnings : List String

-- The manifest; its constant keys `schema_version` and `rollback_metadata` are left out.
pub record Manifest : Type 0 where
  pub schema : String
  pub package_id : String
  pub generation : ℕ
  pub supersedes_package_id : Option String
  pub supersedes_generation : Option ℕ
  pub application_uri : String
  pub runtime_instance_id : String
  pub profile_name : String
  pub component_type : String
  pub certificate_fingerprint_sha256 : String
  pub certificate_serial : Option String
  pub not_before : Option ℕ
  pub not_after : Option ℕ
  pub certificate_pem : String
  pub ca_chain_pem : String
  pub crl_base64 : String
  pub crl_bundle : Dict String String
  pub crl_metadata : Dict String String
  pub install_plan : InstallPlan
  pub compatibility : RuntimeCompatibility
  pub lifecycle_state : String
  pub payload_sha256 : String
  pub files_sha256 : Dict String String
  pub manifest_sha256 : String
  pub created_at : ℕ
  pub signer_key_id : String
  pub signer_algorithm : String
  pub signer_fingerprint_sha256 : String

-- `{}` in the place of a manifest.
abbrev pub blank_manifest : Manifest
blank_manifest = record {
  schema = "";
  package_id = "";
  generation = 0;
  supersedes_package_id = none;
  supersedes_generation = none;
  application_uri = "";
  runtime_instance_id = "";
  profile_name = "";
  component_type = "";
  certificate_fingerprint_sha256 = "";
  certificate_serial = none;
  not_before = none;
  not_after = none;
  certificate_pem = "";
  ca_chain_pem = "";
  crl_base64 = "";
  crl_bundle = [];
  crl_metadata = [];
  install_plan = record {
    runtime_write_enabled = false;
    dry_run_only = true;
    runtime_family = "";
    target_layout = [];
    steps = [];
    blocked = true;
    blocking_reasons = [];
    warnings = [];
  };
  compatibility = record {
    status = "UNKNOWN";
    risk_level = "";
    blocking_reasons = [];
    warnings = [];
    details = record {
      runtime_family = "";
      certificate_format = "";
      runtime_semantics = [];
      trust_store_layout = [];
      csr_identity = record {
        subject = "";
        uri_sans = [];
        dns_sans = [];
        ip_sans = [];
        key_usage = [];
        extended_key_usage = [];
      };
      issued_certificate_fingerprint = none;
    };
  };
  lifecycle_state = "";
  payload_sha256 = "";
  files_sha256 = [];
  manifest_sha256 = "";
  created_at = 0;
  signer_key_id = "";
  signer_algorithm = "";
  signer_fingerprint_sha256 = "";
}
