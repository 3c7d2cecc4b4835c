-- ===== src/Gds/Revocation/Tests.antt =====
-- The revocation of a certificate by its id, and one with the Vault sealed.
use opcua_implementaion.Prelude.{◌≤◌, String, Bool, false, none, some, [], ◌∷◌, ◌≡◌, refl, arith}
use opcua_implementaion.Prelude.Text.{strip, lower, upper}
use opcua_implementaion.Gds.Manifest.{blank_manifest}
use opcua_implementaion.Gds.Db.{Application, Certificate, empty_db, Db, CertificatePackage}
use opcua_implementaion.Gds.TrustLists.Live.{live_in}
use opcua_implementaion.Gds.Artifacts.Signing.{Crypto}
use opcua_implementaion.Gds.Artifacts.Regenerate.{ArtifactSettings, Service}
use opcua_implementaion.Gds.Revocation.Revoke.{
  RevokeBody, revoke_packages, revoked, vault_done, vault_error, vault_sealed, get_certificate,
  resolve_revoke_certificate, packages_of_certificate, perform, revoke_selected, revoke_certificate,
  is_revoked,
}
use opcua_implementaion.Gds.Packages.Lifecycle.{find_package, lifecycle_order}
use opcua_implementaion.Gds.Packages.Order.{rank}
use opcua_implementaion.Gds.Revocation.Withdrawn.{revoke_packages_withdraws}
use opcua_implementaion.Gds.Revocation.Outcome.{
  revoked_answer_is_dead, failed_revocation_keeps_tables,
}

abbrev crypto : Crypto
crypto = record { canonical = λ a. a.zone; sha256_hex = λ s. "0a"; sign = λ s. s }

abbrev settings : ArtifactSettings
settings = record { threshold_seconds = 30; regen_min_interval_seconds = 30 }

abbrev in_order : String → String → Bool
in_order a b = false

abbrev server : Application
server = record {
  id = 1;
  application_uri = "urn:a";
  common_name = "server";
  zone = "DMZ";
  role = "server";
  runtime_instance_id = none;
  component_type = none;
  host = none;
  port = none;
  status = "active";
  created_at = 10;
  updated_at = 10;
  last_seen_at = none;
}

abbrev certificate : Certificate
certificate = record {
  id = 4;
  application_id = 1;
  fingerprint_sha256 = "ab";
  serial_number = some "01:02";
  subject = none;
  issuer = none;
  not_before = some 5;
  not_after = some 900;
  pem = "pem";
  status = "active";
  created_at = 20;
  revoked_at = none;
}

abbrev service : Service
service = record {
  db = record empty_db {
    applications = server ∷ [];
    certificates = certificate ∷ [];
    next_certificate = 5;
  };
  signed_artifact_cache = [];
  regen_last_at = [];
}

abbrev body : RevokeBody
body = record {
  certificate_id = some 4;
  package_id = none;
  fingerprint_sha256 = none;
  actor = "operator";
  reason = "key lost";
}

is_answered :
    (revoke_certificate crypto settings 60 in_order none none vault_error vault_done body vault_done
      service).0
    ≡ revoked 4 []
unfolding revoke_certificate revoke_selected perform resolve_revoke_certificate get_certificate
    packages_of_certificate strip lower
is_answered = refl

is_resolved : resolve_revoke_certificate body service.db ≡ some (some (certificate, server), none)
unfolding resolve_revoke_certificate get_certificate
is_resolved = refl

not_revoked : is_revoked certificate ≡ false
unfolding strip lower
not_revoked = refl

revoked_answer_is_dead_example :
    live_in 4
      (revoke_certificate crypto settings 60 in_order none none vault_error vault_done body
        vault_done service).1.db.certificates
    ≡ false
revoked_answer_is_dead_example =
    revoked_answer_is_dead crypto settings 60 in_order none none vault_error vault_done body
      vault_done service 4 [] is_answered

failed_revocation_keeps_tables_example :
    let after =
      (revoke_certificate crypto settings 60 in_order none none vault_error vault_done body
        vault_sealed service).1.db in
    (after.certificates ≡ service.db.certificates)
    × (after.certificate_packages ≡ service.db.certificate_packages)
    × (after.trust_lists ≡ service.db.trust_lists)
    × (after.trust_list_members ≡ service.db.trust_list_members)
    × (after.trust_artifacts ≡ service.db.trust_artifacts)
failed_revocation_keeps_tables_example =
    failed_revocation_keeps_tables crypto settings 60 in_order none none vault_error vault_done body
      vault_sealed certificate server none service is_resolved not_revoked (λ e. ground arith)

abbrev live_package : CertificatePackage
live_package = record {
  id = 1;
  package_id = "pkg-1";
  application_id = 1;
  runtime_instance_id = "";
  request_id = "req-1";
  certificate_id = some 4;
  generation = 1;
  profile_name = "dmz-server";
  supersedes_package_id = none;
  supersedes_generation = none;
  manifest_json = blank_manifest;
  manifest_sha256 = "aa";
  signature_base64 = "";
  compatibility_status = "compatible";
  lifecycle_state = "ACTIVATED";
  status = "active";
  created_at = 30;
}

abbrev with_package : Db
with_package = record empty_db { certificate_packages = live_package ∷ [] }

package_found : find_package "pkg-1" with_package.certificate_packages ≡ some live_package
unfolding find_package
package_found = refl

package_low : rank live_package.lifecycle_state ≤ 91
unfolding rank lifecycle_order upper
package_low = omega arith

revoke_packages_withdraws_example :
    (q : CertificatePackage) × (find_package "pkg-1"
        (revoke_packages body certificate
          ("pkg-0" ∷ "pkg-1" ∷ [])
          with_package).certificate_packages
      ≡ some q)
    × (q.status ≡ "revoked")
revoke_packages_withdraws_example =
    revoke_packages_withdraws body certificate ("pkg-0" ∷ "pkg-1" ∷ []) with_package "pkg-1"
      live_package refl package_found package_low
