-- ===== src/Gds/Lifecycle/Fixture.antt =====
-- One application, the default profiles and a Vault that answers, for the tests of what issues packages.
use opcua_implementaion.Prelude.{true, false, some, none, [], ◌∷◌, ◌≡◌, refl}
use opcua_implementaion.Prelude.Text.{strip, lower}
use opcua_implementaion.Gds.Db.{Db, Application, empty_db, audit}
use opcua_implementaion.Gds.Adapters.{
  Csr, extract_csr_identity, validate_csr, default_component_profiles,
}
use opcua_implementaion.Gds.Lifecycle.Rows.{
  find_application, get_application_by_uri, get_component_profile, uses_csr,
  get_certificate_request_by_csr, insert_certificate_request, find_fingerprint, insert_certificate,
}
use opcua_implementaion.Gds.Lifecycle.Compatibility.{PackageCrypto}
use opcua_implementaion.Gds.Lifecycle.Issue.{
  Environment, Call, Signing, signed, IssuedPackage, issues, find_target, store_package,
  after_store, after_parse, after_vault, after_validation, after_csr, issue_certificate_package,
}

abbrev pub server : Application
server = record {
  id = 1;
  application_uri = "urn:a";
  common_name = "server";
  zone = "DMZ";
  role = "server";
  runtime_instance_id = none;
  component_type = none;
  host = none;
  port = none;
  status = "active";
  created_at = 10;
  updated_at = 10;
  last_seen_at = none;
}

abbrev pub db : Db
db = record empty_db { applications = server ∷ [] }

abbrev pub csr : Csr
csr = record {
  subject = "CN=server";
  is_signature_valid = true;
  der_sha256 = "c1";
  subject_alternative_name =
      some (record { uris = "urn:a" ∷ []; dns_names = "server" ∷ []; ip_addresses = [] });
  usage =
      some (record { digital_signature = true; key_encipherment = true; key_cert_sign = false });
  extended_usage = some ("1.3.6.1.5.5.7.3.1" ∷ []);
}

abbrev pub crypto : PackageCrypto
crypto = record {
  sha256_text = λ t. "0123456789abcdef0123456789abcdef0123456789abcdef0123456789abcdef";
  canonical_files = λ fs. "{}";
  canonical_manifest = λ m. m.package_id;
  sign = λ t. "c2ln";
}

abbrev pub environment : Signing → Environment
environment answer = record {
  profiles = default_component_profiles;
  is_private = λ ip. some false;
  load_csr = λ pem. some csr;
  sign_csr = λ pem ttl name. answer;
  parse_pem_certificate = λ pem. some (record {
    pem = pem;
    fingerprint_sha256 = "f1";
    serial_number = some "1";
    subject = none;
    issuer = none;
    not_before = some 5;
    not_after = some 900;
  });
  ca_chain = some "chain";
  crl = some "crl";
  crl_bundle = none;
  request_uuid = "r1";
  package_uuid = "p1";
  now = 50;
  crypto = crypto;
  signer_key_id = "gds-1";
  signer_algorithm = "ed25519";
  signer_fingerprint_sha256 = "FF";
  cert_default_ttl = "72h";
}

abbrev pub call : Call
call = record {
  application_uri = "urn:a";
  runtime_instance_id = "";
  profile_name = "open62541-server";
  csr_pem = "pem";
  requested_ttl = none;
  requested_by = "agent-1";
  source_interface = "rest";
  allow_duplicate_csr = false;
}

-- The package that the Vault's answer leads to.
pub is_issued :
    (p : IssuedPackage) × ((issue_certificate_package (environment (signed "cert" none)) call db).0
      ≡ issues p)
unfolding issue_certificate_package find_target get_application_by_uri find_application
    get_component_profile default_component_profiles lower after_csr validate_csr
    extract_csr_identity get_certificate_request_by_csr uses_csr after_validation after_vault
    after_parse after_store store_package strip insert_certificate find_fingerprint audit
    insert_certificate_request
is_issued = (_, refl)
