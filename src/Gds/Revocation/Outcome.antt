-- ===== src/Gds/Revocation/Outcome.antt =====
-- What a revocation leaves in the tables.
use opcua_implementaion.Prelude.{
  ℕ, String, Bool, true, false, Option, none, some, List, map, ◌==◌, string_eq, number_eq,
  if◌then◌else◌, ◌≡◌, ◌≢◌, refl, ◌∙◌, arith, Bool-cases, Option-cases, inl, inr,
}
use opcua_implementaion.Prelude.Text.{strip}
use opcua_implementaion.Gds.Db.{Application, Certificate, CertificatePackage, audit}
use opcua_implementaion.Gds.TrustLists.Publish.{mark_certificate_revoked}
use opcua_implementaion.Gds.TrustLists.Live.{live_in}
use opcua_implementaion.Gds.Artifacts.Signing.{Crypto, TrustArtifactSigner, CaMaterial}
use opcua_implementaion.Gds.Artifacts.Regenerate.{
  ArtifactSettings, Service, Served, raised, unavailable, served, get_or_regenerate_signed_artifact,
}
use opcua_implementaion.Gds.Revocation.Revoke.{
  RevokeBody, revoked, VaultAnswer, vault_done, vault_sealed, vault_error, Row,
  resolve_revoke_certificate, after_artifact, closed, after_outcome, failed, revoked_tables,
  perform, revoke_selected, revoke_certificate, or_blank, with_selected, packages_of_certificate,
  is_revoked, note,
}
use opcua_implementaion.Gds.Revocation.Keeps.{
  revoke_packages_keeps, build_keeps, artifact_keeps, dead_after,
}

module _ (crypto : Crypto) (settings : ArtifactSettings) (now : ℕ)
    (collates_before : String → String → Bool) (signer : Option TrustArtifactSigner)
    (vault : Option CaMaterial) (artifact_error crl_read : VaultAnswer) where
  closed_keeps :
      (body : RevokeBody) (c : Certificate) (ids : List String) (read : VaultAnswer)
      (service : Service)
      → (closed body c ids read service).1.db.certificates ≡ service.db.certificates
  unfolding audit
  closed_keeps body c ids vault_done service = refl
  closed_keeps body c ids vault_sealed service = refl
  closed_keeps body c ids vault_error service = refl

  closed_answers :
      (body : RevokeBody) (c : Certificate) (ids : List String) (read : VaultAnswer)
      (service : Service) {id : ℕ} {is : List String}
      → (closed body c ids read service).0 ≡ revoked id is
      → c.id ≡ id
  closed_answers body c ids vault_done service h = ground arith
  closed_answers body c ids vault_sealed service h = absurd (ground arith)
  closed_answers body c ids vault_error service h = absurd (ground arith)

  failed_answers :
      (body : RevokeBody) (c : Certificate) (answer : VaultAnswer) (service : Service) {id : ℕ}
      {is : List String}
      → (failed answer body c service).0 ≢ revoked id is
  failed_answers body c vault_done service h = ground arith
  failed_answers body c vault_sealed service h = ground arith
  failed_answers body c vault_error service h = ground arith

  outcome_keeps :
      (body : RevokeBody) (c : Certificate) (ids : List String) (outcome : Served)
      (service : Service) {id : ℕ} {is : List String}
      → (after_outcome body c ids artifact_error crl_read outcome service).0 ≡ revoked id is
      → ((after_outcome body c ids artifact_error crl_read outcome service).1.db.certificates
          ≡ service.db.certificates)
        × (c.id ≡ id)
  outcome_keeps body c ids raised service h =
      absurd (failed_answers body c artifact_error service h)
  outcome_keeps body c ids unavailable service h =
      (closed_keeps body c ids crl_read service, closed_answers body c ids crl_read service h)
  outcome_keeps body c ids (served l row a) service h =
      (closed_keeps body c ids crl_read service, closed_answers body c ids crl_read service h)

  after_artifact_keeps :
      (body : RevokeBody) (c : Certificate) (ids : List String) (s : Option TrustArtifactSigner)
      (zone role : String) (service : Service) {id : ℕ} {is : List String}
      → (after_artifact crypto settings now collates_before signer vault artifact_error crl_read
          body c ids s zone role service).0
        ≡ revoked id is
      → ((after_artifact crypto settings now collates_before signer vault artifact_error crl_read
            body c ids s zone role service).1.db.certificates
          ≡ service.db.certificates)
        × (c.id ≡ id)
  after_artifact_keeps body c ids none zone role service h =
      (closed_keeps body c ids crl_read service, closed_answers body c ids crl_read service h)
  after_artifact_keeps body c ids (some s) zone role service h =
      let (outcome, service') =
        get_or_regenerate_signed_artifact crypto settings now collates_before (some s) (some vault)
          zone role true "api" service in
      let (kept, same) = outcome_keeps body c ids outcome service' h in
      (
        kept
            ∙ artifact_keeps crypto settings now collates_before (some s) (some vault) zone role
                "api" true service,
        same,
      )

  perform_keeps :
      (body : RevokeBody) (c : Certificate) (a : Application) (ids : List String)
      (answer : VaultAnswer) (service : Service) {id : ℕ} {is : List String}
      → (perform crypto settings now collates_before signer vault artifact_error crl_read body c a
          ids answer service).0
        ≡ revoked id is
      → ((perform crypto settings now collates_before signer vault artifact_error crl_read body c a
            ids answer service).1.db.certificates
          ≡ (mark_certificate_revoked c.id now service.db).certificates)
        × (c.id ≡ id)
  unfolding perform revoked_tables
  perform_keeps body c a ids vault_sealed service h = absurd (ground arith)
  perform_keeps body c a ids vault_error service h = absurd (ground arith)
  perform_keeps body c a ids vault_done service h =
      let (kept, same) = after_artifact_keeps body c ids signer a.zone a.role _ h in
      (
        kept ∙ build_keeps collates_before now a.zone a.role _ ∙ revoke_packages_keeps body c ids _,
        same,
      )

  selected_is_dead :
      (body : RevokeBody) (answer : VaultAnswer) (row : Option Row)
      (selected : Option CertificatePackage) (service : Service) (id : ℕ) (ids : List String)
      → (revoke_selected crypto settings now collates_before signer vault artifact_error crl_read
          body answer row selected service).0
        ≡ revoked id ids
      → live_in id
          (revoke_selected crypto settings now collates_before signer vault artifact_error crl_read
            body answer row selected service).1.db.certificates
        ≡ false
  unfolding revoke_selected
  selected_is_dead body answer none selected service id ids h = absurd (ground arith)
  selected_is_dead body answer (some (c, a)) selected service id ids h =
      elim (Bool-cases (strip (or_blank c.serial_number) == "")) [
        | inl missing ↦ absurd (ground arith)
        | inr there ↦ rw there (
            let named = with_selected selected (
              map (λ (p : CertificatePackage). p.package_id)
                (packages_of_certificate c.id service.db)) in
            let (kept, same) =
              perform_keeps body c a named (if is_revoked c then vault_done else answer)
                (note "certificate_revocation_requested" body c service) (rw there at h) in
            dead_after c.id now id _ kept same)
      ]

  -- Whenever the endpoint answers that a certificate is revoked, no row with its id is active any more,
  -- whichever selector named it and whether the Vault or an earlier request had revoked it.
  pub revoked_answer_is_dead :
      (body : RevokeBody) (answer : VaultAnswer) (service : Service) (id : ℕ) (ids : List String)
      → (revoke_certificate crypto settings now collates_before signer vault artifact_error crl_read
          body answer service).0
        ≡ revoked id ids
      → live_in id
          (revoke_certificate crypto settings now collates_before signer vault artifact_error
            crl_read body answer service).1.db.certificates
        ≡ false
  unfolding revoke_certificate
  revoked_answer_is_dead body answer service id ids h =
      elim (Option-cases (resolve_revoke_certificate body service.db)) [
        | inl wrong ↦ absurd (ground arith)
        | inr ((row, selected), resolved) ↦
            (let given : (revoke_selected crypto settings now collates_before signer vault
                    artifact_error crl_read body answer row selected service).0
                  ≡ revoked id ids =
                ground arith in
              let dead = selected_is_dead body answer row selected service id ids given in
              ground arith)
      ]

  refusal_keeps :
      (body : RevokeBody) (c : Certificate) (a : Application) (ids : List String)
      (answer : VaultAnswer) (service : Service)
      → answer ≢ vault_done
      → let after =
          (perform crypto settings now collates_before signer vault artifact_error crl_read body c a
            ids answer service).1.db in
        (after.certificates ≡ service.db.certificates)
        × (after.certificate_packages ≡ service.db.certificate_packages)
        × (after.trust_lists ≡ service.db.trust_lists)
        × (after.trust_list_members ≡ service.db.trust_list_members)
        × (after.trust_artifacts ≡ service.db.trust_artifacts)
  unfolding perform audit
  refusal_keeps body c a ids vault_done service not_done = absurd (not_done refl)
  refusal_keeps body c a ids vault_sealed service not_done = (refl, refl, refl, refl, refl)
  refusal_keeps body c a ids vault_error service not_done = (refl, refl, refl, refl, refl)

  -- Where the selected certificate is not revoked yet and the Vault is sealed or fails at the call that
  -- revokes it, the endpoint leaves the certificates, the packages, the trust lists with their members and
  -- the artifacts as they were.
  pub failed_revocation_keeps_tables :
      (body : RevokeBody) (answer : VaultAnswer) (c : Certificate) (a : Application)
      (selected : Option CertificatePackage) (service : Service)
      → resolve_revoke_certificate body service.db ≡ some (some (c, a), selected)
      → is_revoked c ≡ false
      → answer ≢ vault_done
      → let after =
          (revoke_certificate crypto settings now collates_before signer vault artifact_error
            crl_read body answer service).1.db in
        (after.certificates ≡ service.db.certificates)
        × (after.certificate_packages ≡ service.db.certificate_packages)
        × (after.trust_lists ≡ service.db.trust_lists)
        × (after.trust_list_members ≡ service.db.trust_list_members)
        × (after.trust_artifacts ≡ service.db.trust_artifacts)
  unfolding revoke_certificate revoke_selected audit
  failed_revocation_keeps_tables body answer c a selected service resolved open_row not_done =
      rw (resolved, revoke_certificate)
        (elim (Bool-cases (strip (or_blank c.serial_number) == "")) [
          | inl missing ↦ rw missing (refl, refl, refl, refl, refl)
          | inr there ↦
              rw (there, open_row)
                (refusal_keeps body c a _ answer
                  (note "certificate_revocation_requested" body c service) not_done)
        ])
