-- ===== src/Agent/Artifacts/Verify.antt =====
-- `verify_signed_artifact` of gds-agent/app/main.py, with `canonical_artifact_payload` and
-- `normalize_signed_artifact_for_verification`. The two documents come read: a text field holds `str()` of
-- its value, and the keys that the check only passes on to the signature are one text.
use opcua_implementaion.Prelude.{
  ℕ, String, Bool, true, false, ◌||◌, not, Option, none, some, ◌==◌, string_eq, number_eq,
  if◌then◌else◌,
}
use opcua_implementaion.Prelude.Text.{lower}

-- The payload that is signed.
pub record Payload : Type 0 where
  pub artifact_type : String
  pub zone : Option String
  pub role : Option String
  pub version : Option ℕ
  pub artifact_revision : Option ℕ
  pub generated_at : String
  pub expires_at : String
  pub signer_algorithm : String
  pub signer_fingerprint : String
  pub passed_on : String

-- The artifact as it is fetched, which also tells how long it lives.
pub record ArtifactDoc : Type 0 where
  pub payload : Payload
  pub ttl_remaining_seconds : Option ℕ

pub record SignatureDoc : Type 0 where
  pub signer_algorithm : String
  pub signer_fingerprint : String
  pub artifact_sha256 : String
  pub version : Option ℕ
  pub artifact_revision : Option ℕ
  pub generated_at : String
  pub expires_at : String
  pub signature_base64 : String

-- The libraries: canonical JSON, SHA-256 in lower hexadecimal digits, ISO dates (`none` is a
-- ValueError), base64 (`none` for an encoding that is refused), and the key's own check.
pub record Libraries : Type 0 where
  pub canonical_json_bytes : Payload → String
  pub sha256_hex : String → String
  pub parse_rfc3339_utc : String → Option ℕ
  pub b64decode : String → Option String
  pub verify : String → String → Bool

pub data Step : Type 0 where
  fine raises : Step
  rejects : String → Step

-- The checks in their order: the first that is not fine decides.
abbrev pub and_then : Step → Step → Step
and_then fine next = next
and_then raises next = raises
and_then (rejects code) next = rejects code

abbrev pub require : Bool → String → Step
require true code = fine
require false code = rejects code

abbrev pub is_text : Option String → String → Bool
is_text none t = false
is_text (some s) t = s == t

abbrev pub is_some {ℓ} : {A : Type ℓ} → Option A → Bool
is_some none = false
is_some (some a) = true

-- `normalize_signed_artifact_for_verification` and `canonical_artifact_payload`: what is left is signed.
unfoldable pub canonical_artifact_payload : ArtifactDoc → Payload
canonical_artifact_payload doc = doc.payload

unfoldable pub check_artifact : Payload → String → String → Step
check_artifact p zone role = and_then (require (is_text p.zone zone) "malformed_artifact") (
    and_then (require (is_text p.role role) "malformed_artifact") (
      and_then (require (lower p.artifact_type == "opcua_trustlist") "malformed_artifact")
        (require (is_some p.artifact_revision) "malformed_artifact")))

abbrev pub is_ed25519_or_empty : String → Bool
is_ed25519_or_empty algorithm = lower algorithm == "" || lower algorithm == "ed25519"

unfoldable pub check_signers : Payload → SignatureDoc → String → Step
check_signers p signature trust_anchor_fp =
    and_then (require (is_ed25519_or_empty p.signer_algorithm) "unsupported_signer") (
      and_then
        (require (lower p.signer_fingerprint == lower trust_anchor_fp)
          "signer_fingerprint_mismatch")
        (and_then (require (is_ed25519_or_empty signature.signer_algorithm) "unsupported_signer") (
          require
            (lower signature.signer_fingerprint == ""
              || lower signature.signer_fingerprint == lower trust_anchor_fp)
            "signer_fingerprint_mismatch")))

-- A number of the signature, where it has one, is the artifact's; `int(None)` raises.
abbrev pub same_number : Option ℕ → Option ℕ → Step
same_number none b = fine
same_number (some a) none = raises
same_number (some a) (some b) = require (a == b) "malformed_artifact"

abbrev pub same_dates : Option ℕ → Option ℕ → Step
same_dates none b = raises
same_dates (some a) none = raises
same_dates (some a) (some b) = require (a == b) "malformed_artifact"

module _ (lib : Libraries) where
  -- A date of the signature, where it has one, is the artifact's.
  unfoldable pub check_date : String → String → Step
  check_date of_signature of_artifact =
      if of_signature == ""
      then fine
      else same_dates (lib.parse_rfc3339_utc of_signature) (lib.parse_rfc3339_utc of_artifact)

  abbrev pub check_decoded : Option String → String → Step
  check_decoded none canonical = rejects "malformed_artifact"
  check_decoded (some sig) canonical = require (lib.verify sig canonical) "signature_invalid"

  unfoldable pub check_bytes : String → String → Step
  check_bytes signature_base64 canonical =
      and_then (require (not (signature_base64 == "")) "malformed_artifact")
        (check_decoded (lib.b64decode signature_base64) canonical)

  unfoldable pub check_digest : String → String → Step
  check_digest declared digest =
      require (lower declared == "" || lower declared == lower digest) "canonical_hash_mismatch"

  -- What is raised, or `fine` where the digest and the length are returned.
  unfoldable pub verify_signed_artifact :
      ArtifactDoc → SignatureDoc → String → String → String → Step
  verify_signed_artifact artifact signature zone role trust_anchor_fp =
      let p = canonical_artifact_payload artifact in
      let canonical = lib.canonical_json_bytes p in
      and_then (check_artifact p zone role) (
        and_then (check_signers p signature trust_anchor_fp) (
          and_then (check_digest signature.artifact_sha256 (lib.sha256_hex canonical)) (
            and_then (same_number signature.version p.version) (
              and_then (same_number signature.artifact_revision p.artifact_revision) (
                and_then (check_date signature.generated_at p.generated_at) (
                  and_then (check_date signature.expires_at p.expires_at)
                    (check_bytes signature.signature_base64 canonical)))))))
