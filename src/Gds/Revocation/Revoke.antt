-- ===== src/Gds/Revocation/Revoke.antt =====
-- `revoke_certificate` of gds/app/main.py behind its guards on the client, with `_resolve_revoke_certificate`
-- and the queries of gds/app/db.py below it. The answers of the Vault are arguments.
use opcua_implementaion.Prelude.{
  ℕ, String, Bool, true, false, ◌&&◌, not, Option, none, some, List, [], ◌∷◌, map, any, ltb, ◌==◌,
  string_eq, number_eq, where_list, if◌then◌else◌,
}
use opcua_implementaion.Prelude.Text.{strip, lower}
use opcua_implementaion.Gds.Db.{Db, Application, Certificate, CertificatePackage, Details, audit}
use opcua_implementaion.Gds.TrustLists.Query.{flat_map, order_by}
use opcua_implementaion.Gds.TrustLists.Desired.{refers}
use opcua_implementaion.Gds.TrustLists.Publish.{build_trust_list, mark_certificate_revoked}
use opcua_implementaion.Gds.Packages.Lifecycle.{find_package, update_certificate_package_lifecycle}
use opcua_implementaion.Gds.Artifacts.Signing.{Crypto, TrustArtifactSigner, CaMaterial}
use opcua_implementaion.Gds.Artifacts.Regenerate.{
  ArtifactSettings, Service, Served, raised, unavailable, served, get_or_regenerate_signed_artifact,
}

-- RevokeCertificateBody, with the fallback of the operator.
pub record RevokeBody : Type 0 where
  pub certificate_id : Option ℕ
  pub package_id : Option String
  pub fingerprint_sha256 : Option String
  pub actor : String
  pub reason : String

pub data Answer : Type 0 where
  refused : ℕ → String → Answer
  revoked : ℕ → List String → Answer

-- What the Vault answers to a revocation.
pub data VaultAnswer : Type 0 where
  vault_done vault_sealed vault_error : VaultAnswer

abbrev pub Row : Type 0
Row = Certificate × Application

abbrev pub first_of {ℓ} : {A : Type ℓ} → List A → Option A
first_of [] = none
first_of (x ∷ xs) = some x

abbrev pub with_owner : List Application → Certificate → List Row
with_owner apps c =
    map (λ (a : Application). (c, a))
      (where_list (λ (a : Application). a.id == c.application_id) apps)

unfoldable pub get_certificate : ℕ → Db → Option Row
get_certificate cert_id db = first_of (
    flat_map (with_owner db.applications)
      (where_list (λ (c : Certificate). c.id == cert_id) db.certificates))

unfoldable pub get_certificate_by_fingerprint : String → Db → Option Row
get_certificate_by_fingerprint fingerprint db = first_of (
    flat_map (with_owner db.applications)
      (where_list (λ (c : Certificate). c.fingerprint_sha256 == fingerprint) db.certificates))

abbrev pub number_given : Option ℕ → Bool
number_given none = false
number_given (some n) = not (n == 0)

abbrev pub text_given : Option String → Bool
text_given none = false
text_given (some s) = not (s == "")

abbrev pub exactly_one : Bool → Bool → Bool → Bool
exactly_one true b c = not b && not c
exactly_one false true c = not c
exactly_one false false c = c

abbrev pub or_blank : Option String → String
or_blank none = ""
or_blank (some s) = s

abbrev pub or_zero : Option ℕ → ℕ
or_zero none = 0
or_zero (some n) = n

abbrev pub certificate_of_package :
    Option CertificatePackage → Db → Option Row × Option CertificatePackage
certificate_of_package none db = (none, none)
certificate_of_package (some p) db = (
  if number_given p.certificate_id then get_certificate (or_zero p.certificate_id) db else none,
  some p,
)

-- The certificate and the package that the body selects; `none` is the ValueError.
unfoldable pub resolve_revoke_certificate :
    RevokeBody → Db → Option (Option Row × Option CertificatePackage)
resolve_revoke_certificate body db =
    if not (
      exactly_one (number_given body.certificate_id) (text_given body.package_id)
        (text_given body.fingerprint_sha256))
    then none
    else if text_given body.package_id
    then some (
        certificate_of_package (find_package (or_blank body.package_id) db.certificate_packages) db)
    else if number_given body.certificate_id
    then some (get_certificate (or_zero body.certificate_id) db, none)
    else some
        (get_certificate_by_fingerprint (lower (strip (or_blank body.fingerprint_sha256))) db, none)

-- `list_certificate_packages_for_certificate`, ORDER BY generation DESC
unfoldable pub packages_of_certificate : ℕ → Db → List CertificatePackage
packages_of_certificate certificate_id db =
    order_by (λ p q. ltb q.generation p.generation)
      (where_list (λ (p : CertificatePackage). refers p.certificate_id certificate_id)
        db.certificate_packages)

abbrev pub with_selected : Option CertificatePackage → List String → List String
with_selected none ids = ids
with_selected (some p) ids = if any (λ i. i == p.package_id) ids then ids else p.package_id ∷ ids

abbrev pub package_details : RevokeBody → Certificate → Details
package_details body c =
    ("event_type", "package_revoked")
    ∷ ("source_interface", "rest_revoke")
    ∷ ("fingerprint_sha256", c.fingerprint_sha256)
    ∷ ("reason", body.reason)
    ∷ []

unfoldable pub revoke_packages : RevokeBody → Certificate → List String → Db → Db
revoke_packages body c [] db = db
revoke_packages body c (package_id ∷ ids) db =
    revoke_packages body c ids
      (update_certificate_package_lifecycle package_id "REVOKED" body.actor (package_details body c)
        db).1

abbrev pub event_details : RevokeBody → Certificate → Details
event_details body c = ("fingerprint_sha256", c.fingerprint_sha256) ∷ ("reason", body.reason) ∷ []

abbrev pub with_db : Service → Db → Service
with_db service db = record service { db = db }

-- An event about the certificate; its target and details leave out numbers and lists, which the rows
-- have.
abbrev pub note : String → RevokeBody → Certificate → Service → Service
note event_type body c service =
    with_db service (audit event_type body.actor "certificate" (event_details body c) service.db)

abbrev pub is_revoked : Certificate → Bool
is_revoked c = lower (strip c.status) == "revoked"

-- What an exception after the request leaves: the event and the answer 500.
abbrev pub broken : RevokeBody → Certificate → Service → Answer × Service
broken body c service =
    (refused 500 "revocation_failed", note "certificate_revocation_failed" body c service)

-- The two handlers: of a sealed Vault, and of any other exception.
abbrev pub failed : VaultAnswer → RevokeBody → Certificate → Service → Answer × Service
failed vault_sealed body c service = (refused 503 "vault_sealed", service)
failed vault_done body c service = broken body c service
failed vault_error body c service = broken body c service

-- The end, by what the Vault answers when its last CRL is read.
abbrev pub closed :
    RevokeBody → Certificate → List String → VaultAnswer → Service → Answer × Service
closed body c ids vault_done service = (
  revoked c.id ids,
  note "certificate_revoked" body c (note "certificate_revocation_crl_refreshed" body c service),
)
closed body c ids vault_sealed service = failed vault_sealed body c service
closed body c ids vault_error service = failed vault_error body c service

-- What follows the rebuild of the artifact: only an exception counts, and whether it is a sealed Vault's.
abbrev pub after_outcome :
    RevokeBody
    → Certificate
    → List String
    → VaultAnswer
    → VaultAnswer
    → Served
    → Service
    → Answer × Service
after_outcome body c ids artifact_error crl_read raised service =
    failed artifact_error body c service
after_outcome body c ids artifact_error crl_read unavailable service =
    closed body c ids crl_read service
after_outcome body c ids artifact_error crl_read (served l row a) service =
    closed body c ids crl_read service

module _ (crypto : Crypto) (settings : ArtifactSettings) (now : ℕ)
    (collates_before : String → String → Bool) (signer : Option TrustArtifactSigner)
    (vault : Option CaMaterial) (artifact_error crl_read : VaultAnswer) where
  -- The rebuilt artifact of the zone and the role; an exception goes to the handler of the endpoint.
  abbrev pub after_artifact :
      RevokeBody
      → Certificate
      → List String
      → Option TrustArtifactSigner
      → String
      → String
      → Service
      → Answer × Service
  after_artifact body c ids none zone role service = closed body c ids crl_read service
  after_artifact body c ids (some s) zone role service =
      let (outcome, service') =
        get_or_regenerate_signed_artifact crypto settings now collates_before (some s) (some vault)
          zone role true "api" service in
      after_outcome body c ids artifact_error crl_read outcome service'

  -- The tables once the Vault has revoked the certificate.
  unfoldable pub revoked_tables : RevokeBody → Certificate → Application → List String → Db → Db
  revoked_tables body c a ids db =
      (build_trust_list collates_before now a.zone a.role
        (revoke_packages body c ids (mark_certificate_revoked c.id now db))).1

  unfoldable pub perform :
      RevokeBody
      → Certificate
      → Application
      → List String
      → VaultAnswer
      → Service
      → Answer × Service
  perform body c a ids vault_done service =
      after_artifact body c ids signer a.zone a.role
        (with_db service (revoked_tables body c a ids service.db))
  perform body c a ids vault_sealed service = failed vault_sealed body c service
  perform body c a ids vault_error service = failed vault_error body c service

  -- The Vault is asked only for a certificate that is not revoked yet.
  unfoldable pub revoke_selected :
      RevokeBody → VaultAnswer → Option Row → Option CertificatePackage → Service → Answer × Service
  revoke_selected body answer none selected service = (refused 404 "certificate_not_found", service)
  revoke_selected body answer (some (c, a)) selected service =
      let ids = with_selected selected (
        map (λ (p : CertificatePackage). p.package_id) (packages_of_certificate c.id service.db)) in
      if strip (or_blank c.serial_number) == ""
      then (refused 400 "certificate_serial_missing", service)
      else perform body c a ids (if is_revoked c then vault_done else answer)
          (note "certificate_revocation_requested" body c service)

  unfoldable pub revoke_certificate : RevokeBody → VaultAnswer → Service → Answer × Service
  revoke_certificate body answer service = elim (resolve_revoke_certificate body service.db) [
    | none ↦ (refused 400 "exactly_one_certificate_selector_required", service)
    | some (row, selected) ↦ revoke_selected body answer row selected service
  ]
