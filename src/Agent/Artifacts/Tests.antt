-- ===== src/Agent/Artifacts/Tests.antt =====
-- An artifact that the agent accepts.
use opcua_implementaion.Prelude.{some, ◌==◌, string_eq, ◌≡◌, refl}
use opcua_implementaion.Prelude.Text.{lower}
use opcua_implementaion.Agent.Artifacts.Verify.{
  ArtifactDoc, SignatureDoc, Libraries, fine, canonical_artifact_payload, check_artifact,
  check_signers, check_date, check_bytes, check_digest, verify_signed_artifact,
}
use opcua_implementaion.Agent.Artifacts.Authentic.{Authentic, verify_signed_artifact-Authentic}

abbrev lib : Libraries
lib = record {
  canonical_json_bytes = λ p. p.generated_at;
  sha256_hex = λ s. s;
  parse_rfc3339_utc = λ s. some 7;
  b64decode = λ s. some s;
  verify = λ sig bytes. sig == bytes;
}

abbrev artifact : ArtifactDoc
artifact = record {
  payload = record {
    artifact_type = "opcua_trustlist";
    zone = some "OT";
    role = some "server";
    version = some 4;
    artifact_revision = some 9;
    generated_at = "2026-01-01t00:00:00z";
    expires_at = "2026-01-02T00:00:00Z";
    signer_algorithm = "ed25519";
    signer_fingerprint = "ABCD";
    passed_on = "";
  };
  ttl_remaining_seconds = some 60;
}

abbrev signature : SignatureDoc
signature = record {
  signer_algorithm = "";
  signer_fingerprint = "abcd";
  artifact_sha256 = "2026-01-01t00:00:00z";
  version = some 4;
  artifact_revision = some 9;
  generated_at = "2026-01-01T00:00:00Z";
  expires_at = "";
  signature_base64 = "2026-01-01t00:00:00z";
}

is_accepted : verify_signed_artifact lib artifact signature "OT" "server" "abcd" ≡ fine
unfolding verify_signed_artifact canonical_artifact_payload check_artifact check_signers check_date
    check_bytes check_digest lower
is_accepted = refl

verify_signed_artifact-Authentic_example : Authentic lib artifact signature "OT" "server" "abcd"
verify_signed_artifact-Authentic_example =
    verify_signed_artifact-Authentic lib artifact signature "OT" "server" "abcd" is_accepted
