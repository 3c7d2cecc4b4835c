-- ===== src/Gds/Packages/Tests.antt =====
-- The package states on a row of each kind.
use opcua_implementaion.Prelude.{none, some, [], ◌∷◌, ◌≡◌, ◌≢◌, refl, ◌≤◌, arith, String, List}
use opcua_implementaion.Prelude.Text.{upper}
use opcua_implementaion.Gds.Manifest.{blank_manifest}
use opcua_implementaion.Gds.Db.{Db, CertificatePackage}
use opcua_implementaion.Gds.Packages.Lifecycle.{
  lifecycle_order, find_package, update_certificate_package_lifecycle,
}
use opcua_implementaion.Gds.Packages.Order.{
  Call, run_calls, rank, Progress, IsFinal, run_calls-Advances, final_never_activated,
  revoke_sets_status,
}

abbrev package_in : String → String → CertificatePackage
package_in state status = record {
  id = 1;
  package_id = "pkg-1";
  application_id = 7;
  runtime_instance_id = "";
  request_id = "req-1";
  certificate_id = some 4;
  generation = 1;
  profile_name = "ot-server";
  supersedes_package_id = none;
  supersedes_generation = none;
  manifest_json = blank_manifest;
  manifest_sha256 = "aa";
  signature_base64 = "";
  compatibility_status = "compatible";
  lifecycle_state = state;
  status = status;
  created_at = 100;
}

abbrev holding : CertificatePackage → Db
holding p = record {
  applications = [];
  certificates = [];
  trust_lists = [];
  trust_list_members = [];
  trust_artifacts = [];
  certificate_requests = [];
  certificate_packages = p ∷ [];
  package_events = [];
  audit_events = [];
  next_certificate = 5;
  next_trust_list = 1;
  next_artifact = 1;
  next_request = 2;
  next_package = 2;
  next_audit = 1;
}

abbrev staged : CertificatePackage
staged = package_in "STAGED" "active"

abbrev revoked : CertificatePackage
revoked = package_in "REVOKED" "revoked"

abbrev call : String → Call
call state = record {
  package_id = "pkg-1";
  lifecycle_state = state;
  actor = "agent-ot";
  details = [];
}

abbrev calls : List Call
calls = call "activated" ∷ call "PULLED" ∷ call "no-state" ∷ []

staged_found : find_package "pkg-1" (holding staged).certificate_packages ≡ some staged
unfolding find_package
staged_found = refl

revoked_found : find_package "pkg-1" (holding revoked).certificate_packages ≡ some revoked
unfolding find_package
revoked_found = refl

revoked-IsFinal : IsFinal revoked
unfolding rank lifecycle_order upper
revoked-IsFinal = omega arith

staged_low : rank staged.lifecycle_state ≤ 91
unfolding rank lifecycle_order upper
staged_low = omega arith

revoked_upper : upper "revoked" ≡ "REVOKED"
unfolding upper
revoked_upper = refl

run_calls-Advances_example :
    (q : CertificatePackage) × (find_package "pkg-1"
        (run_calls calls (holding staged)).certificate_packages
      ≡ some q)
    × Progress staged q
run_calls-Advances_example = run_calls-Advances calls (holding staged) "pkg-1" staged staged_found

final_never_activated_example :
    (q : CertificatePackage) × (find_package "pkg-1"
        (run_calls calls (holding revoked)).certificate_packages
      ≡ some q)
    × (q.lifecycle_state ≢ "ACTIVATED")
final_never_activated_example =
    final_never_activated calls (holding revoked) "pkg-1" revoked revoked_found revoked-IsFinal

revoke_sets_status_example :
    let db =
      (update_certificate_package_lifecycle "pkg-1" "revoked" "admin" [] (holding staged)).1 in
    (q : CertificatePackage) × (find_package "pkg-1" db.certificate_packages ≡ some q)
    × (q.status ≡ "revoked")
    × (q.lifecycle_state ≡ "REVOKED")
revoke_sets_status_example =
    revoke_sets_status "pkg-1" "revoked" "admin" [] (holding staged) staged revoked_upper
      staged_found staged_low
