-- ===== src/Agent/Artifacts/Authentic.antt =====
-- An artifact that the agent accepts is the trust anchor's.
use opcua_implementaion.Prelude.{
  String, true, Option, none, some, ◌==◌, string_eq, number_eq, ◌≡◌, ◌⊎◌, arith, eq_iff, inl, inr,
  Option-cases,
}
use opcua_implementaion.Prelude.Text.{lower}
use opcua_implementaion.Agent.Artifacts.Verify.{
  Payload, ArtifactDoc, SignatureDoc, Libraries, Step, fine, and_then, is_text,
  canonical_artifact_payload, check_artifact, check_signers, check_date, check_bytes, check_digest,
  same_number, verify_signed_artifact,
}

and_then_fine : (a b : Step) → and_then a b ≡ fine → (a ≡ fine) × (b ≡ fine)
and_then_fine a b h = ground arith

is_text_same : (o : Option String) (t : String) → is_text o t ≡ true → o ≡ some t
is_text_same none t h = absurd (ground arith)
is_text_same (some s) t h = ground (arith, eq_iff s t)

artifact_fine :
    (p : Payload) (zone role : String)
    → check_artifact p zone role ≡ fine
    → (p.zone ≡ some zone) × (p.role ≡ some role)
unfolding check_artifact
artifact_fine p zone role h =
    let of_zone : is_text p.zone zone ≡ true = ground arith in
    let of_role : is_text p.role role ≡ true = ground arith in
    (is_text_same p.zone zone of_zone, is_text_same p.role role of_role)

signers_fine :
    (p : Payload) (signature : SignatureDoc) (fp : String)
    → check_signers p signature fp ≡ fine
    → lower p.signer_fingerprint ≡ lower fp
unfolding check_signers
signers_fine p signature fp h =
    let same : (lower p.signer_fingerprint == lower fp) ≡ true = ground arith in
    (eq_iff (lower p.signer_fingerprint) (lower fp)).0 same

module _ (lib : Libraries) where
  -- What the trust anchor vouches for: the place, its fingerprint, and its signature of the canonical
  -- bytes, with the digest that is declared.
  pub record Authentic (artifact : ArtifactDoc) (signature : SignatureDoc) (zone role fp : String)
      : Type 0 where
    pub of_zone : artifact.payload.zone ≡ some zone
    pub of_role : artifact.payload.role ≡ some role
    pub of_signer : lower artifact.payload.signer_fingerprint ≡ lower fp
    pub bytes : String
    pub decoded : lib.b64decode signature.signature_base64 ≡ some bytes
    pub signed : lib.verify bytes (lib.canonical_json_bytes artifact.payload) ≡ true
    pub digest :
        (lower signature.artifact_sha256 ≡ "")
        ⊎ (lower signature.artifact_sha256
            ≡ lower (lib.sha256_hex (lib.canonical_json_bytes artifact.payload)))

  bytes_fine :
      (signature_base64 canonical : String)
      → check_bytes lib signature_base64 canonical ≡ fine
      → (b : String) × (lib.b64decode signature_base64 ≡ some b) × (lib.verify b canonical ≡ true)
  unfolding check_bytes
  bytes_fine signature_base64 canonical h = elim (Option-cases (lib.b64decode signature_base64)) [
    | inl broken ↦ absurd (ground arith)
    | inr (b, decoded) ↦ (b, decoded, ground arith)
  ]

  digest_fine :
      (declared digest : String)
      → check_digest lib declared digest ≡ fine
      → (lower declared ≡ "") ⊎ (lower declared ≡ lower digest)
  unfolding check_digest
  digest_fine declared digest h =
      ground (arith, eq_iff (lower declared) "", eq_iff (lower declared) (lower digest))

  -- A trust list that the agent accepts is of the zone and role that it asked for and of the pinned
  -- signer, and the anchor's key verifies its signature over the canonical bytes of just this payload,
  -- whose digest is the declared one where one is declared.
  pub verify_signed_artifact-Authentic :
      (artifact : ArtifactDoc) (signature : SignatureDoc) (zone role fp : String)
      → verify_signed_artifact lib artifact signature zone role fp ≡ fine
      → Authentic artifact signature zone role fp
  unfolding verify_signed_artifact canonical_artifact_payload
  verify_signed_artifact-Authentic artifact signature zone role fp h =
      let (place, h1) = and_then_fine _ _ h in
      let (signers, h2) = and_then_fine _ _ h1 in
      let (hash, h3) = and_then_fine _ _ h2 in
      let (version, h4) =
        and_then_fine (same_number signature.version artifact.payload.version) _ h3 in
      let (revision, h5) =
        and_then_fine (same_number signature.artifact_revision artifact.payload.artifact_revision) _
          h4 in
      let (generated, h6) =
        and_then_fine (check_date lib signature.generated_at artifact.payload.generated_at) _ h5 in
      let (expires, last) =
        and_then_fine (check_date lib signature.expires_at artifact.payload.expires_at) _ h6 in
      let (here, with_role) = artifact_fine artifact.payload zone role place in
      let (b, decoded, signed) = bytes_fine signature.signature_base64 _ last in
      record {
        of_zone = here;
        of_role = with_role;
        of_signer = signers_fine artifact.payload signature fp signers;
        bytes = b;
        decoded = decoded;
        signed = signed;
        digest = digest_fine signature.artifact_sha256 _ hash;
      }
