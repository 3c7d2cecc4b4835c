-- ===== src/Agent/Packages/RoundTrip.antt =====
-- A package that the service issues and the agent's check of it.
use Prim.Native.String.{count}
use opcua_implementaion.Prelude.{
  String, Bool, true, false, not, some, [], ◌∷◌, all, All, ◌==◌, string_eq, number_eq, ◌≡◌, refl,
  sym, ap, ◌∙◌, arith, eq_iff,
}
use opcua_implementaion.Prelude.Text.{strip, lower}
use opcua_implementaion.Prelude.Dict.{Dict}
use opcua_implementaion.Gds.Db.{Db}
use opcua_implementaion.Gds.Manifest.{Manifest, PackageLayout}
use opcua_implementaion.Gds.Lifecycle.Compatibility.{
  PackageCrypto, canonical_package_manifest as service_canonical, hashed, package_files_sha256,
  manifest_sha256_of,
}
use opcua_implementaion.Gds.Lifecycle.Issue.{
  Environment, Call, IssuedPackage, issues, package_signature_payload, issue_certificate_package,
}
use opcua_implementaion.Gds.Lifecycle.Issued.{issued-IsWarranted}
use opcua_implementaion.Agent.Packages.Verify.{
  PackageLibraries, Checked, accepted, verify_decoded, guarded, canonical_package_manifest,
  package_manifest_sha256, verify_certificate_package_manifest,
}

-- The libraries of the two programs: the same JSON and the same hashes, of 64 digits, and signatures
-- that decode and that the key of the anchor verifies.
pub record Agree (crypto : PackageCrypto) (lib : PackageLibraries) : Type 0 where
  pub same_json : (m : Manifest) → lib.canonical_manifest m ≡ crypto.canonical_manifest m
  pub same_hash : (t : String) → lib.sha256_hex t ≡ crypto.sha256_text t
  pub hash_length : (t : String) → count (crypto.sha256_text t) ≡ 64
  pub signature_given : (t : String) → (strip (crypto.sign t) == "") ≡ false
  pub verifies :
      (t : String)
      → (b : String) × (lib.b64decode (strip (crypto.sign t)) ≡ some b) × (lib.verify b t ≡ true)

hashes_have_64 :
    (crypto : PackageCrypto) (lib : PackageLibraries) (files : Dict String String)
    → Agree crypto lib
    → all (λ (f : String × String). count f.1 == 64) (hashed crypto files) ≡ true
unfolding hashed
hashes_have_64 crypto lib [] agree = refl
hashes_have_64 crypto lib ((path, content) ∷ files) agree =
    ground (arith, agree.hash_length content, hashes_have_64 crypto lib files agree)

same_text : (s t : String) → s ≡ t → (s == t) ≡ true
same_text s t h = (eq_iff s t).1 h

-- Guards that all hold let what follows them decide.
guards_hold :
    (guards : Dict String Bool) (last : Checked)
    → All (λ g. g.1 ≡ true) guards
    → guarded guards last ≡ last
unfolding guarded
guards_hold [] last h = refl
guards_hold ((code, holds) ∷ guards) last (this, h) = rw this (guards_hold guards last h)

module _ (env : Environment) (call : Call) (lib : PackageLibraries)
    (agree : Agree env.crypto lib) where
  canonical_matches :
      (m : Manifest)
      → lib.canonical_manifest (canonical_package_manifest m)
        ≡ env.crypto.canonical_manifest (service_canonical m)
  unfolding canonical_package_manifest service_canonical
  canonical_matches m = agree.same_json (canonical_package_manifest m)

  digest_matches : (m : Manifest) → package_manifest_sha256 lib m ≡ manifest_sha256_of env.crypto m
  unfolding package_manifest_sha256 manifest_sha256_of
  digest_matches m = agree.same_hash _ ∙ ap env.crypto.sha256_text (canonical_matches m)

  files_match :
      (layout : PackageLayout)
      → all (λ (f : String × String). count f.1 == 64) (package_files_sha256 env.crypto layout)
        ≡ true
  unfolding package_files_sha256
  files_match layout = hashes_have_64 env.crypto lib _ agree

  signature_decides :
      (t canonical digest : String)
      → canonical ≡ t
      → verify_decoded lib (lib.b64decode (strip (env.crypto.sign t))) canonical digest
        ≡ accepted digest
  signature_decides t canonical digest same =
      let (b, decoded, verified) = agree.verifies t in rw (same, decoded, verified) refl

  -- A package that the service issues is accepted by the agent, with the hash that its manifest has, if
  -- the libraries of the two agree, the service signs with ed25519, the identifier of the package is not
  -- blank, and the agent's anchor has the fingerprint of the service.
  pub issued_is_accepted :
      (fp : String) (db : Db) (p : IssuedPackage)
      → (issue_certificate_package env call db).0 ≡ issues p
      → lower env.signer_algorithm ≡ "ed25519"
      → (strip env.package_uuid == "") ≡ false
      → lower env.signer_fingerprint_sha256 ≡ lower fp
      → verify_certificate_package_manifest lib p.manifest
          (package_signature_payload p.package_row)
          fp
        ≡ accepted p.manifest.manifest_sha256
  unfolding verify_certificate_package_manifest package_signature_payload
  issued_is_accepted fp db p issued ed25519 named anchor =
      let w = issued-IsWarranted env call db p issued in
      let m = p.manifest in
      let digest : package_manifest_sha256 lib m ≡ m.manifest_sha256 =
        digest_matches m ∙ sym w.hash in
      let of_anchor : (lower m.signer_fingerprint_sha256 == lower fp) ≡ true =
        same_text _ _ (rw w.signer anchor) in
      guards_hold _ _ (
        same_text _ _ w.schema,
        (
          rw w.named (ap not named),
          (
            same_text _ _ (rw w.algorithm ed25519),
            (
              of_anchor,
              (
                same_text _ _ (ap lower w.row_hash),
                (
                  same_text _ _ (ap lower digest),
                  (
                    rw w.files (files_match w.layout),
                    (
                      same_text _ _ (
                          ap (λ (x : Manifest). lower x.signer_fingerprint_sha256) w.row_manifest
                          ∙ rw w.signer anchor),
                      (
                        rw w.signature (
                            ap not (
                              agree.signature_given
                                (env.crypto.canonical_manifest (service_canonical m)))),
                        tt,
                      ),
                    ),
                  ),
                ),
              ),
            ),
          ),
        ),
      )
      ∙ (rw w.signature (
            signature_decides (env.crypto.canonical_manifest (service_canonical m)) _ _
              (canonical_matches m))
          ∙ ap accepted digest)
