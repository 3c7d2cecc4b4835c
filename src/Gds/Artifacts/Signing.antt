-- ===== src/Gds/Artifacts/Signing.antt =====
-- `TrustArtifactSigner` of gds/app/artifact_signing.py. The serialised form of an artifact, SHA-256 and
-- Ed25519 with base64 around it belong to libraries and are parameters.
use opcua_implementaion.Prelude.{ℕ, ◌+◌, String, List}
use opcua_implementaion.Gds.Db.{Details, TrustList, TrustedCertificate, Artifact}

-- `canonical_json_bytes(canonical_artifact_payload(artifact))`, `sha256_hex`, and the signature of the
-- private key, as texts.
pub record Crypto : Type 0 where
  pub canonical : Artifact → String
  pub sha256_hex : String → String
  pub sign : String → String

pub record TrustArtifactSigner : Type 0 where
  pub key_id : String
  pub fingerprint_sha256 : String
  pub ttl_seconds : ℕ

-- What the Vault answers for an artifact: the chain, the CRL, and the two objects about the CRLs.
pub record CaMaterial : Type 0 where
  pub ca_chain_pem : String
  pub crl_base64 : String
  pub crl_bundle : Details
  pub crl_metadata : Details

pub record SignedArtifact : Type 0 where
  pub artifact : Artifact
  pub artifact_sha256 : String
  pub signature_base64 : String
  pub signer_fingerprint_sha256 : String
  pub signer_key_id : String
  pub generated_at : ℕ
  pub expires_at : ℕ

module _ (crypto : Crypto) (signer : TrustArtifactSigner) where
  -- The artifact before it is signed.
  unfoldable pub artifact_of :
      TrustList → List TrustedCertificate → CaMaterial → ℕ → String → ℕ → Artifact
  artifact_of trust_list certs ca artifact_revision reason generated_at = record {
    artifact_type = "opcua_trustlist";
    schema_version = 1;
    zone = trust_list.zone;
    role = trust_list.role;
    version = trust_list.version;
    artifact_revision = artifact_revision;
    artifact_reason = reason;
    generated_at = generated_at;
    expires_at = generated_at + signer.ttl_seconds;
    ca_chain_pem = ca.ca_chain_pem;
    crl_base64 = ca.crl_base64;
    crl_bundle = ca.crl_bundle;
    crl_metadata = ca.crl_metadata;
    certificates = certs;
    signer = record {
      key_id = signer.key_id;
      algorithm = "ed25519";
      fingerprint_sha256 = signer.fingerprint_sha256;
    };
  }

  unfoldable pub build_signed_artifact :
      TrustList → List TrustedCertificate → CaMaterial → ℕ → String → ℕ → SignedArtifact
  unfolding artifact_of
  build_signed_artifact trust_list certs ca artifact_revision reason generated_at =
      let artifact = artifact_of trust_list certs ca artifact_revision reason generated_at in
      let canonical_bytes = crypto.canonical artifact in
      record {
        artifact = artifact;
        artifact_sha256 = crypto.sha256_hex canonical_bytes;
        signature_base64 = crypto.sign canonical_bytes;
        signer_fingerprint_sha256 = signer.fingerprint_sha256;
        signer_key_id = signer.key_id;
        generated_at = generated_at;
        expires_at = generated_at + signer.ttl_seconds;
      }
