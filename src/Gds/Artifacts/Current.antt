-- ===== src/Gds/Artifacts/Current.antt =====
-- The artifact that is served belongs to the trust list that is current.
use opcua_implementaion.Prelude.{
  ℕ, ◌+◌, String, Bool, true, false, Option, none, some, List, [], ◌∷◌, ◌++◌, string_eq, number_eq,
  where_list, ◌≡◌, inl, inr, arith, Option-cases,
}
use opcua_implementaion.Gds.Db.{audit, Db, TrustList, TrustArtifact, Artifact, TrustedCertificate}
use opcua_implementaion.Gds.TrustLists.Publish.{
  ensure_trust_list_current, get_latest_trust_list_with_certs, mark_certificate_revoked,
}
use opcua_implementaion.Gds.TrustLists.Members.{IsWellFormed}
use opcua_implementaion.Gds.TrustLists.Revoked.{serves, revoked_is_not_served}
use opcua_implementaion.Gds.Artifacts.Signing.{
  Crypto, TrustArtifactSigner, CaMaterial, artifact_of, build_signed_artifact,
}
use opcua_implementaion.Gds.Artifacts.Inserted.{latest_revision, inserted_is_latest}
use opcua_implementaion.Gds.Artifacts.Regenerate.{
  artifact_is_of, get_latest_trust_artifact, insert_trust_artifact, ArtifactSettings,
  regeneration_reason, Service, served, revision_of, remember, regenerate, reuse, is_too_soon,
  serve_artifact, serve_listed, get_or_regenerate_signed_artifact,
}

module _ (crypto : Crypto) (settings : ArtifactSettings) (now : ℕ) where
  -- A row that needs no new one is of the list's version.
  reason_none :
      (signer : TrustArtifactSigner) (l : TrustList) (row : TrustArtifact) (source : String)
      → regeneration_reason settings signer now l (some row) false source ≡ none
      → row.trustlist_version ≡ l.version
  unfolding regeneration_reason
  reason_none signer l row source h = ground arith

  -- A rebuild that is forced and served is of the list that it is given and of its rows; it adds one row
  -- to the table of the artifacts, which has the artifact that is served, is the latest of its zone and role
  -- from then on, and has the revision that the artifact names, one above the latest before.
  pub forced_rebuild_is_new :
      (signer : TrustArtifactSigner) (vault : Option CaMaterial) (zone role source : String)
      (l : TrustList) (certs : List TrustedCertificate) (service : Service) {k : TrustList}
      {row : TrustArtifact} {a : Artifact}
      → (serve_artifact crypto settings now signer vault zone role true source l certs service).0
        ≡ served k row a
      → (k ≡ l)
        × (row.trustlist_version ≡ l.version)
        × (a.certificates ≡ certs)
        × (row.artifact_json ≡ a)
        × (row.artifact_revision ≡ a.artifact_revision)
        × (a.artifact_revision ≡ revision_of (get_latest_trust_artifact zone role service.db) + 1)
        × (let after =
              (serve_artifact crypto settings now signer vault zone role true source l certs
                service).1.db in
            (after.trust_artifacts ≡ service.db.trust_artifacts ++ row ∷ [])
            × (get_latest_trust_artifact zone role after ≡ some row))
  unfolding serve_artifact regeneration_reason regenerate remember insert_trust_artifact
      build_signed_artifact artifact_of get_latest_trust_artifact audit
  forced_rebuild_is_new signer none zone role source l certs service h = absurd (ground arith)
  forced_rebuild_is_new signer (some ca) zone role source l certs service h =
      let same =
        latest_revision (where_list (artifact_is_of zone role) service.db.trust_artifacts) in
      let signed =
        build_signed_artifact crypto signer l certs ca
          (revision_of (get_latest_trust_artifact zone role service.db) + 1) "force_rebuild" now in
      let latest = inserted_is_latest zone role l.version signed "force_rebuild" service.db in
      (
        ground arith,
        ground arith,
        ground arith,
        ground arith,
        ground arith,
        ground arith,
        (ground arith, ground arith),
      )

  reused :
      (signer : TrustArtifactSigner) (zone role source : String) (l : TrustList)
      (current : Option TrustArtifact) (service : Service) {k : TrustList} {row : TrustArtifact}
      {a : Artifact}
      → regeneration_reason settings signer now l current false source ≡ none
      → (reuse crypto settings now zone role l current service).0 ≡ served k row a
      → (k ≡ l) × (row.trustlist_version ≡ l.version)
  unfolding reuse remember
  reused signer zone role source l none service none_needed h = absurd (ground arith)
  reused signer zone role source l (some row) service none_needed h =
      let same = reason_none signer l row source none_needed in (ground arith, ground arith)

  regenerated :
      (signer : TrustArtifactSigner) (vault : Option CaMaterial) (zone role reason source : String)
      (l : TrustList) (certs : List TrustedCertificate) (current : Option TrustArtifact)
      (service : Service) {k : TrustList} {row : TrustArtifact} {a : Artifact}
      → (regenerate crypto settings now signer vault zone role l certs current reason source
          service).0
        ≡ served k row a
      → (k ≡ l) × (row.trustlist_version ≡ l.version)
  unfolding regenerate remember insert_trust_artifact
  regenerated signer none zone role reason source l certs current service h = absurd (ground arith)
  regenerated signer (some ca) zone role reason source l certs current service h =
      (ground arith, ground arith)

  unforced :
      (signer : TrustArtifactSigner) (vault : Option CaMaterial) (zone role source : String)
      (l : TrustList) (certs : List TrustedCertificate) (service : Service) {k : TrustList}
      {row : TrustArtifact} {a : Artifact}
      → is_too_soon crypto settings now zone role service ≡ false
      → (serve_artifact crypto settings now signer vault zone role false source l certs service).0
        ≡ served k row a
      → (k ≡ l) × (row.trustlist_version ≡ l.version)
  unfolding serve_artifact
  unforced signer vault zone role source l certs service {k} {row} {a} late h =
      let current = get_latest_trust_artifact zone role service.db in
      elim (Option-cases (regeneration_reason settings signer now l current false source)) [
        | inl none_needed ↦
            (let given : (reuse crypto settings now zone role l current service).0
                  ≡ served k row a =
                ground arith in
              reused signer zone role source l current service none_needed given)
        | inr (reason, needed) ↦
            (let given : (regenerate crypto settings now signer vault zone role l certs current
                    reason source service).0
                  ≡ served k row a =
                ground arith in
              regenerated signer vault zone role reason source l certs current service given)
      ]

  listed_unforced :
      (signer : TrustArtifactSigner) (vault : Option CaMaterial) (zone role source : String)
      (listed : Option TrustList × List TrustedCertificate) (service : Service) {k : TrustList}
      {row : TrustArtifact} {a : Artifact}
      → is_too_soon crypto settings now zone role service ≡ false
      → (serve_listed crypto settings now signer vault zone role false source listed service).0
        ≡ served k row a
      → (listed.0 ≡ some k) × (row.trustlist_version ≡ k.version)
  listed_unforced signer vault zone role source (none, certs) service late h = absurd (ground arith)
  listed_unforced signer vault zone role source (some l, certs) service late h =
      let (same, version) = unforced signer vault zone role source l certs service late h in
      (ground arith, ground arith)

  listed_forced :
      (signer : TrustArtifactSigner) (vault : Option CaMaterial) (zone role source : String)
      (listed : Option TrustList × List TrustedCertificate) (service : Service) {k : TrustList}
      {row : TrustArtifact} {a : Artifact}
      → (serve_listed crypto settings now signer vault zone role true source listed service).0
        ≡ served k row a
      → (listed.0 ≡ some k) × (row.trustlist_version ≡ k.version) × (a.certificates ≡ listed.1)
  listed_forced signer vault zone role source (none, certs) service h = absurd (ground arith)
  listed_forced signer vault zone role source (some l, certs) service h =
      let (same, version, rows, stored, revision, next, (added, latest)) =
        forced_rebuild_is_new signer vault zone role source l certs service h in
      (ground arith, ground arith, rows)

  -- Unless the last regeneration is too recent, the row of a served artifact has the version of the
  -- trust list of the zone and role that is current in the tables.
  pub served_is_current :
      (collates_before : String → String → Bool) (signer : TrustArtifactSigner)
      (vault : Option CaMaterial) (zone role source : String) (service : Service) (k : TrustList)
      (row : TrustArtifact) (a : Artifact)
      → is_too_soon crypto settings now zone role service ≡ false
      → (get_or_regenerate_signed_artifact crypto settings now collates_before
          (some signer)
          (some vault)
          zone
          role
          false
          source
          service).0
        ≡ served k row a
      → let db' = (ensure_trust_list_current collates_before now zone role service.db).1 in
        ((get_latest_trust_list_with_certs collates_before zone role db').0 ≡ some k)
        × (row.trustlist_version ≡ k.version)
  unfolding get_or_regenerate_signed_artifact is_too_soon
  served_is_current collates_before signer vault zone role source service k row a late h =
      let db' = (ensure_trust_list_current collates_before now zone role service.db).1 in
      listed_unforced signer vault zone role source
        (get_latest_trust_list_with_certs collates_before zone role db')
        (record service { db = db' }) late h

  -- In well-formed tables, once a certificate has been marked as revoked, an artifact whose rebuild is
  -- forced and that is served has none of its rows.
  pub forced_artifact_excludes_revoked :
      (collates_before : String → String → Bool) (signer : TrustArtifactSigner)
      (vault : Option CaMaterial) (zone role source : String) (certificate_id revoked_at : ℕ)
      (db : Db) (service : Service) (k : TrustList) (row : TrustArtifact) (a : Artifact)
      → IsWellFormed db
      → (get_or_regenerate_signed_artifact crypto settings now collates_before
          (some signer)
          (some vault)
          zone
          role
          true
          source
          (record service { db = mark_certificate_revoked certificate_id revoked_at db })).0
        ≡ served k row a
      → serves certificate_id a.certificates ≡ false
  unfolding get_or_regenerate_signed_artifact
  forced_artifact_excludes_revoked collates_before signer vault zone role source id revoked_at db
        service k row a wf h =
      let db' =
        (ensure_trust_list_current collates_before now zone role
          (mark_certificate_revoked id revoked_at db)).1 in
      let (latest, version, rows) =
        listed_forced signer vault zone role source
          (get_latest_trust_list_with_certs collates_before zone role db')
          (record service { db = db' }) h in
      rw rows (revoked_is_not_served collates_before now id revoked_at zone role db wf)
