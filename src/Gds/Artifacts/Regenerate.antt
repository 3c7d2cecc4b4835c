-- ===== src/Gds/Artifacts/Regenerate.antt =====
-- `_regeneration_reason` and `_get_or_regenerate_signed_artifact` of gds/app/main.py, with
-- `get_latest_trust_artifact` and `insert_trust_artifact` of gds/app/db.py. The look at the rows that is
-- repeated inside the lock sees the same rows, since one call is one step here.
use Prim.Native.String.{◌++◌ as text_append}
use opcua_implementaion.Prelude.{
  ℕ, ◌+◌, ◌-◌, max, String, Bool, true, false, ◌&&◌, not, Option, none, some, List, [], ◌∷◌, ◌++◌,
  ltb, ◌==◌, string_eq, number_eq, where_list, if◌then◌else◌,
}
use opcua_implementaion.Prelude.Text.{lower}
use opcua_implementaion.Prelude.Dict.{Dict, get, put}
use opcua_implementaion.Gds.Db.{Db, TrustList, TrustArtifact, Artifact, TrustedCertificate, audit}
use opcua_implementaion.Gds.TrustLists.Query.{first_by}
use opcua_implementaion.Gds.TrustLists.Publish.{
  ensure_trust_list_current, get_latest_trust_list_with_certs,
}
use opcua_implementaion.Gds.Artifacts.Signing.{
  Crypto, TrustArtifactSigner, CaMaterial, SignedArtifact, build_signed_artifact,
}

unfoldable pub artifact_is_of : String → String → TrustArtifact → Bool
artifact_is_of zone role a = a.zone == zone && a.role == role

-- ORDER BY artifact_revision DESC
unfoldable pub later_revision : TrustArtifact → TrustArtifact → Bool
later_revision a b = ltb b.artifact_revision a.artifact_revision

unfoldable pub get_latest_trust_artifact : String → String → Db → Option TrustArtifact
get_latest_trust_artifact zone role db =
    first_by later_revision (where_list (artifact_is_of zone role) db.trust_artifacts)

-- `COALESCE(MAX(artifact_revision), 0)`
unfoldable pub max_revision : List TrustArtifact → ℕ
max_revision [] = 0
max_revision (a ∷ as_rows) = max a.artifact_revision (max_revision as_rows)

unfoldable pub insert_trust_artifact :
    String → String → ℕ → SignedArtifact → String → Db → TrustArtifact × Db
insert_trust_artifact zone role trustlist_version signed reason db =
    let row : TrustArtifact = record {
      id = db.next_artifact;
      zone = zone;
      role = role;
      trustlist_version = trustlist_version;
      artifact_revision =
          max_revision (where_list (artifact_is_of zone role) db.trust_artifacts) + 1;
      artifact_json = signed.artifact;
      artifact_sha256 = signed.artifact_sha256;
      signature_base64 = signed.signature_base64;
      signer_key_id = signed.signer_key_id;
      signer_fingerprint_sha256 = signed.signer_fingerprint_sha256;
      generated_at = signed.generated_at;
      expires_at = signed.expires_at;
      reason = reason;
    } in
    (
      row,
      record db {
        trust_artifacts = db.trust_artifacts ++ row ∷ [];
        next_artifact = db.next_artifact + 1;
      },
    )

unfoldable pub ttl_remaining_seconds : ℕ → TrustArtifact → ℕ
ttl_remaining_seconds now row = row.expires_at - now

-- SETTINGS: the threshold as the code computes it from the time to live and its percentage, and the
-- least interval between two regenerations.
pub record ArtifactSettings : Type 0 where
  pub threshold_seconds : ℕ
  pub regen_min_interval_seconds : ℕ

unfoldable pub regeneration_reason :
    ArtifactSettings
    → TrustArtifactSigner
    → ℕ
    → TrustList
    → Option TrustArtifact
    → Bool
    → String
    → Option String
regeneration_reason settings signer now trust_list current_row true source = some "force_rebuild"
regeneration_reason settings signer now trust_list none false source = some "cache_miss"
regeneration_reason settings signer now trust_list (some row) false source =
    if not (row.trustlist_version == trust_list.version)
    then some "version_changed"
    else if not (row.signer_key_id == signer.key_id)
    then some "signer_changed"
    else if not (lower row.signer_fingerprint_sha256 == lower signer.fingerprint_sha256)
    then some "signer_changed"
    else if ltb (ttl_remaining_seconds now row) settings.threshold_seconds
    then some (if source == "scheduler" then "ttl_refresh" else "ttl_threshold")
    else none

pub record CacheEntry : Type 0 where
  pub row_id : ℕ
  pub artifact_revision : ℕ
  pub artifact : Artifact

-- The tables, SIGNED_ARTIFACT_CACHE and ARTIFACT_REGEN_LAST_AT.
pub record Service : Type 0 where
  pub db : Db
  pub signed_artifact_cache : Dict String CacheEntry
  pub regen_last_at : Dict String ℕ

pub data Served : Type 0 where
  unavailable raised : Served
  served : TrustList → TrustArtifact → Artifact → Served

abbrev pub cache_key : String → String → String
cache_key zone role = text_append zone (text_append ":" role)

-- `ARTIFACT_REGEN_LAST_AT.get(cache_key, 0.0)`
abbrev pub or_zero : Option ℕ → ℕ
or_zero none = 0
or_zero (some t) = t

abbrev pub revision_of : Option TrustArtifact → ℕ
revision_of none = 0
revision_of (some row) = row.artifact_revision

-- The artifact of a row that was not made just now: the cache's, where it has that row.
abbrev pub cached_or_stored : Option CacheEntry → TrustArtifact → Artifact
cached_or_stored none row = row.artifact_json
cached_or_stored (some entry) row =
    if entry.row_id == row.id then entry.artifact else row.artifact_json

unfoldable pub remember : String → TrustList → TrustArtifact → Artifact → Service → Served × Service
remember key trust_list row artifact service = (
  served trust_list row artifact,
  record service {
    signed_artifact_cache =
        put key
          (record {
            row_id = row.id;
            artifact_revision = row.artifact_revision;
            artifact = artifact;
          })
          service.signed_artifact_cache;
  },
)

module _ (crypto : Crypto) (settings : ArtifactSettings) (now : ℕ) where
  -- The part that signs and stores; `none` for an answer of the Vault that raises. The details of
  -- the event leave out its two numbers, which the row has.
  unfoldable pub regenerate :
      TrustArtifactSigner
      → Option CaMaterial
      → String
      → String
      → TrustList
      → List TrustedCertificate
      → Option TrustArtifact
      → String
      → String
      → Service
      → Served × Service
  regenerate signer none zone role trust_list certs current reason source service =
      (raised, service)
  regenerate signer (some ca) zone role trust_list certs current reason source service =
      let signed =
        build_signed_artifact crypto signer trust_list certs ca (revision_of current + 1) reason
          now in
      let (row, db') =
        insert_trust_artifact zone role trust_list.version signed reason service.db in
      remember (cache_key zone role) trust_list row signed.artifact (record service {
        db =
            audit "artifact_regenerated" "system"
              (text_append "trustlist_artifact:" (cache_key zone role))
              (("reason", reason) ∷ ("source", source) ∷ []) db';
        regen_last_at = put (cache_key zone role) now service.regen_last_at;
      })

  -- The part that serves a row that is there; without a row its fields cannot be read.
  unfoldable pub reuse :
      String → String → TrustList → Option TrustArtifact → Service → Served × Service
  reuse zone role trust_list none service = (raised, service)
  reuse zone role trust_list (some row) service =
      remember (cache_key zone role) trust_list row
        (cached_or_stored (get (cache_key zone role) service.signed_artifact_cache) row) service

  unfoldable pub is_too_soon : String → String → Service → Bool
  is_too_soon zone role service = ltb now (
      or_zero (get (cache_key zone role) service.regen_last_at)
      + settings.regen_min_interval_seconds)

  -- What follows the two reads of the trust list.
  unfoldable pub serve_artifact :
      TrustArtifactSigner
      → Option CaMaterial
      → String
      → String
      → Bool
      → String
      → TrustList
      → List TrustedCertificate
      → Service
      → Served × Service
  serve_artifact signer vault zone role force_rebuild source trust_list certs service =
      let current = get_latest_trust_artifact zone role service.db in
      elim (regeneration_reason settings signer now trust_list current force_rebuild source) [
        | none ↦ reuse zone role trust_list current service
        | some reason ↦
            (if not force_rebuild && is_too_soon zone role service
              then reuse zone role trust_list current service
              else regenerate signer vault zone role trust_list certs current reason source service)
      ]

  abbrev pub serve_listed :
      TrustArtifactSigner
      → Option CaMaterial
      → String
      → String
      → Bool
      → String
      → Option TrustList × List TrustedCertificate
      → Service
      → Served × Service
  serve_listed signer vault zone role force_rebuild source (none, certs) service =
      (unavailable, service)
  serve_listed signer vault zone role force_rebuild source (some trust_list, certs) service =
      serve_artifact signer vault zone role force_rebuild source trust_list certs service

  -- VAULT_CLIENT and TRUST_ARTIFACT_SIGNER may be None.
  unfoldable pub get_or_regenerate_signed_artifact :
      (String → String → Bool)
      → Option TrustArtifactSigner
      → Option (Option CaMaterial)
      → String
      → String
      → Bool
      → String
      → Service
      → Served × Service
  get_or_regenerate_signed_artifact collates_before none vault zone role force_rebuild source
        service =
      (unavailable, service)
  get_or_regenerate_signed_artifact collates_before (some signer) none zone role force_rebuild
        source service =
      (unavailable, service)
  get_or_regenerate_signed_artifact collates_before (some signer) (some vault) zone role
        force_rebuild source service =
      let db' = (ensure_trust_list_current collates_before now zone role service.db).1 in
      serve_listed signer vault zone role force_rebuild source
        (get_latest_trust_list_with_certs collates_before zone role db')
        (record service { db = db' })
