-- ===== src/Agent/Packages/Verify.antt =====
-- `verify_certificate_package_manifest` and `verify_trust_anchor_fingerprint` of gds-agent/app/main.py. The
-- two documents come read, in the records of the service that makes them.
use Prim.Native.String.{count}
use opcua_implementaion.Prelude.{
  String, Bool, not, ◌||◌, Option, none, some, [], ◌∷◌, all, ◌==◌, string_eq, number_eq,
  if◌then◌else◌,
}
use opcua_implementaion.Prelude.Text.{strip, lower}
use opcua_implementaion.Prelude.Dict.{Dict}
use opcua_implementaion.Gds.Manifest.{Manifest}
use opcua_implementaion.Gds.Lifecycle.Issue.{PackageSignature}

-- Canonical JSON, SHA-256 in hexadecimal digits, base64 (`none` for a text that it refuses) and the
-- check of the anchor's key.
pub record PackageLibraries : Type 0 where
  pub canonical_manifest : Manifest → String
  pub sha256_hex : String → String
  pub b64decode : String → Option String
  pub verify : String → String → Bool

pub data Checked : Type 0 where
  raises : Checked
  rejected : String → Checked
  accepted : String → Checked

-- The guards in their order: the code of the first that does not hold, and what follows them all.
unfoldable pub guarded : Dict String Bool → Checked → Checked
guarded [] last = last
guarded ((code, holds) ∷ guards) last =
    let rest = guarded guards last in if holds then rest else rejected code

unfoldable pub canonical_package_manifest : Manifest → Manifest
canonical_package_manifest manifest = record manifest { manifest_sha256 = "" }

module _ (lib : PackageLibraries) where
  unfoldable pub package_manifest_sha256 : Manifest → String
  package_manifest_sha256 manifest =
      lib.sha256_hex (lib.canonical_manifest (canonical_package_manifest manifest))

  abbrev pub verify_decoded : Option String → String → String → Checked
  verify_decoded none canonical digest = raises
  verify_decoded (some bytes) canonical digest =
      if lib.verify bytes canonical then accepted digest else rejected "signature_invalid"

  unfoldable pub verify_certificate_package_manifest :
      Manifest → PackageSignature → String → Checked
  verify_certificate_package_manifest manifest signature trust_anchor_fp =
      let digest = package_manifest_sha256 manifest in
      let sig_b64 = strip signature.signature_base64 in
      guarded
        (("malformed_package", manifest.schema == "labshock_certificate_package_v1")
          ∷ ("malformed_package", not (strip manifest.package_id == ""))
          ∷ ("unsupported_signer", lower manifest.signer_algorithm == "ed25519")
          ∷ (
            "signer_fingerprint_mismatch",
            lower manifest.signer_fingerprint_sha256 == lower trust_anchor_fp,
          )
          ∷ (
            "canonical_hash_mismatch",
            lower signature.manifest_sha256 == lower manifest.manifest_sha256,
          )
          ∷ ("canonical_hash_mismatch", lower digest == lower manifest.manifest_sha256)
          ∷ (
            "malformed_package",
            all (λ (f : String × String). count f.1 == 64) manifest.files_sha256,
          )
          ∷ (
            "signer_fingerprint_mismatch",
            lower signature.signer_fingerprint_sha256 == lower trust_anchor_fp,
          )
          ∷ ("malformed_package", not (sig_b64 == ""))
          ∷ [])
        (verify_decoded (lib.b64decode sig_b64)
          (lib.canonical_manifest (canonical_package_manifest manifest)) digest)

-- The anchor as it is fetched: the type of its key, the digest of the key, and the fingerprint given.
pub record TrustAnchor : Type 0 where
  pub is_ed25519 : Bool
  pub der_sha256 : String
  pub fingerprint_sha256 : String

unfoldable pub verify_trust_anchor_fingerprint : TrustAnchor → String → Checked
verify_trust_anchor_fingerprint anchor pinned_fingerprint =
    guarded
      (("unsupported_signer", anchor.is_ed25519)
        ∷ (
          "signer_fingerprint_mismatch",
          lower anchor.der_sha256 == lower anchor.fingerprint_sha256,
        )
        ∷ (
          "signer_fingerprint_mismatch",
          (pinned_fingerprint == "") || (lower anchor.der_sha256 == lower pinned_fingerprint),
        )
        ∷ [])
      (accepted anchor.der_sha256)
