-- ===== src/Gds/Revocation/Keeps.antt =====
-- Which steps of a revocation leave the certificates alone (gds/app/main.py, gds/app/db.py).
use opcua_implementaion.Prelude.{
  ℕ, String, Bool, false, Option, none, some, List, [], ◌∷◌, string_eq, number_eq, ◌≡◌, refl, ◌∙◌,
  arith, Option-cases, inl, inr,
}
use opcua_implementaion.Gds.Db.{
  Db, Certificate, Details, TrustList, TrustedCertificate, TrustArtifact, audit,
}
use opcua_implementaion.Gds.TrustLists.Publish.{
  build_trust_list, ensure_trust_list_current, mark_certificate_revoked,
}
use opcua_implementaion.Gds.TrustLists.Live.{live_in, mark_certificate_revoked-live_in}
use opcua_implementaion.Gds.Packages.Lifecycle.{update_certificate_package_lifecycle}
use opcua_implementaion.Gds.Artifacts.Signing.{Crypto, TrustArtifactSigner, CaMaterial}
use opcua_implementaion.Gds.Artifacts.Regenerate.{
  ArtifactSettings, Service, remember, regenerate, reuse, get_latest_trust_artifact,
  regeneration_reason, serve_artifact, serve_listed, insert_trust_artifact,
  get_or_regenerate_signed_artifact,
}
use opcua_implementaion.Gds.Revocation.Revoke.{RevokeBody, revoke_packages}

update_keeps :
    (package_id state actor : String) (details : Details) (db : Db)
    → (update_certificate_package_lifecycle package_id state actor details db).1.certificates
      ≡ db.certificates
unfolding update_certificate_package_lifecycle
update_keeps package_id state actor details db = ground arith

pub revoke_packages_keeps :
    (body : RevokeBody) (c : Certificate) (ids : List String) (db : Db)
    → (revoke_packages body c ids db).certificates ≡ db.certificates
unfolding revoke_packages
revoke_packages_keeps body c [] db = refl
revoke_packages_keeps body c (i ∷ ids) db =
    revoke_packages_keeps body c ids _ ∙ update_keeps i "REVOKED" body.actor _ db

module _ (collates_before : String → String → Bool) (now : ℕ) where
  pub build_keeps :
      (zone role : String) (db : Db)
      → (build_trust_list collates_before now zone role db).1.certificates ≡ db.certificates
  unfolding build_trust_list
  build_keeps zone role db = refl

  ensure_keeps :
      (zone role : String) (db : Db)
      → (ensure_trust_list_current collates_before now zone role db).1.certificates
        ≡ db.certificates
  unfolding ensure_trust_list_current
  ensure_keeps zone role db = let built = build_keeps zone role db in ground arith

module _ (crypto : Crypto) (settings : ArtifactSettings) (now : ℕ) where
  regenerate_keeps :
      (signer : TrustArtifactSigner) (vault : Option CaMaterial) (zone role reason source : String)
      (l : TrustList) (certs : List TrustedCertificate) (current : Option TrustArtifact)
      (service : Service)
      → (regenerate crypto settings now signer vault zone role l certs current reason source
          service).1.db.certificates
        ≡ service.db.certificates
  unfolding regenerate remember insert_trust_artifact audit
  regenerate_keeps signer none zone role reason source l certs current service = refl
  regenerate_keeps signer (some ca) zone role reason source l certs current service = refl

  reuse_keeps :
      (zone role : String) (l : TrustList) (current : Option TrustArtifact) (service : Service)
      → (reuse crypto settings now zone role l current service).1.db.certificates
        ≡ service.db.certificates
  unfolding reuse remember
  reuse_keeps zone role l none service = refl
  reuse_keeps zone role l (some row) service = refl

  listed_keeps :
      (signer : TrustArtifactSigner) (vault : Option CaMaterial) (zone role source : String)
      (force : Bool) (listed : Option TrustList × List TrustedCertificate) (service : Service)
      → (serve_listed crypto settings now signer vault zone role force source listed
          service).1.db.certificates
        ≡ service.db.certificates
  unfolding serve_artifact
  listed_keeps signer vault zone role source force (none, certs) service = refl
  listed_keeps signer vault zone role source force (some l, certs) service =
      let current = get_latest_trust_artifact zone role service.db in
      let kept = reuse_keeps zone role l current service in
      elim (Option-cases (regeneration_reason settings signer now l current force source)) [
        | inl none_needed ↦ ground arith
        | inr (reason, needed) ↦
            (let made =
                regenerate_keeps signer vault zone role reason source l certs current service in
              ground arith)
      ]

  pub artifact_keeps :
      (collates_before : String → String → Bool) (signer : Option TrustArtifactSigner)
      (vault : Option (Option CaMaterial)) (zone role source : String) (force : Bool)
      (service : Service)
      → (get_or_regenerate_signed_artifact crypto settings now collates_before signer vault zone
          role force source service).1.db.certificates
        ≡ service.db.certificates
  unfolding get_or_regenerate_signed_artifact
  artifact_keeps collates_before none vault zone role source force service = refl
  artifact_keeps collates_before (some signer) none zone role source force service = refl
  artifact_keeps collates_before (some signer) (some vault) zone role source force service =
      listed_keeps signer vault zone role source force _ _
      ∙ ensure_keeps collates_before now zone role service.db

pub dead_after :
    (n now id : ℕ) (db : Db) {certs : List Certificate}
    → certs ≡ (mark_certificate_revoked n now db).certificates
    → n ≡ id
    → live_in id certs ≡ false
dead_after n now id db kept same =
    let gone = mark_certificate_revoked-live_in n now id db in rw kept (ground arith)
