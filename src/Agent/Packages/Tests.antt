-- ===== src/Agent/Packages/Tests.antt =====
-- A package of the service, checked by the agent.
use opcua_implementaion.Prelude.{none, some, false, ◌==◌, string_eq, ◌≡◌, refl}
use opcua_implementaion.Prelude.Text.{strip, lower}
use opcua_implementaion.Gds.Lifecycle.Issue.{Environment, signed, package_signature_payload}
use opcua_implementaion.Gds.Lifecycle.Fixture.{is_issued, db, environment, call}
use opcua_implementaion.Agent.Packages.Verify.{
  PackageLibraries, accepted, verify_certificate_package_manifest,
}
use opcua_implementaion.Agent.Packages.RoundTrip.{Agree, issued_is_accepted}

abbrev env : Environment
env = environment (signed "cert" none)

abbrev lib : PackageLibraries
lib = record {
  canonical_manifest = λ m. m.package_id;
  sha256_hex = λ t. "0123456789abcdef0123456789abcdef0123456789abcdef0123456789abcdef";
  b64decode = λ t. some t;
  verify = λ bytes t. bytes == "c2ln";
}

signature_is_kept : strip "c2ln" ≡ "c2ln"
unfolding strip
signature_is_kept = refl

libraries-Agree : Agree env.crypto lib
unfolding strip
libraries-Agree = record {
  same_json = λ m. refl;
  same_hash = λ t. refl;
  hash_length = λ t. refl;
  signature_given = λ t. refl;
  verifies = λ t. ("c2ln", refl, refl);
}

ed25519_is_lower : lower "ed25519" ≡ "ed25519"
unfolding lower
ed25519_is_lower = refl

fingerprint_is_same : lower "FF" ≡ lower "ff"
unfolding lower
fingerprint_is_same = refl

identifier_is_given : (strip "p1" == "") ≡ false
unfolding strip
identifier_is_given = refl

issued_is_accepted_example :
    verify_certificate_package_manifest lib is_issued.0.manifest
      (package_signature_payload is_issued.0.package_row)
      "ff"
    ≡ accepted is_issued.0.manifest.manifest_sha256
issued_is_accepted_example =
    issued_is_accepted env call lib libraries-Agree "ff" db is_issued.0 is_issued.1 ed25519_is_lower
      identifier_is_given fingerprint_is_same
