-- ===== src/Gds/Artifacts/Tests.antt =====
-- An artifact for a zone with one server left after a revocation.
use opcua_implementaion.Prelude.{
  ℕ, ◌+◌, String, Bool, true, false, none, some, [], ◌∷◌, ◌++◌, ◌≡◌, refl,
}
use opcua_implementaion.Prelude.Dict.{get, put}
use opcua_implementaion.Gds.Db.{
  Db, Application, Certificate, TrustList, TrustedCertificate, TrustArtifact, Artifact,
}
use opcua_implementaion.Gds.TrustLists.Desired.{
  trustlist_application_filter, is_live, is_active_package, candidates,
  active_certificate_id_for_application, collect_ids, uri_before, desired_trustlist_certificate_ids,
  certificate_before,
}
use opcua_implementaion.Gds.TrustLists.Publish.{
  latest_trust_list, is_of, newer, max_version, member_ids, same_member, insert_member,
  insert_members, build_trust_list, ensure_trust_list_current, get_latest_trust_list_with_certs,
  joined, trusted, with_application, row_before, mark_certificate_revoked, revoked_row,
  revocation_time,
}
use opcua_implementaion.Gds.TrustLists.Members.{IsWellFormed}
use opcua_implementaion.Gds.TrustLists.Revoked.{serves}
use opcua_implementaion.Gds.Artifacts.Signing.{
  Crypto, TrustArtifactSigner, CaMaterial, artifact_of, build_signed_artifact,
}
use opcua_implementaion.Gds.Artifacts.Regenerate.{
  artifact_is_of, later_revision, get_latest_trust_artifact, max_revision, insert_trust_artifact,
  ArtifactSettings, regeneration_reason, Service, served, revision_of, remember, regenerate,
  is_too_soon, serve_artifact, get_or_regenerate_signed_artifact,
}
use opcua_implementaion.Gds.Artifacts.Current.{
  forced_rebuild_is_new, served_is_current, forced_artifact_excludes_revoked,
}

abbrev crypto : Crypto
crypto = record { canonical = λ a. a.zone; sha256_hex = λ s. "0a"; sign = λ s. s }

abbrev settings : ArtifactSettings
settings = record { threshold_seconds = 30; regen_min_interval_seconds = 30 }

abbrev signer : TrustArtifactSigner
signer = record { key_id = "gds-1"; fingerprint_sha256 = "ff"; ttl_seconds = 100 }

abbrev ca : CaMaterial
ca = record { ca_chain_pem = "ca"; crl_base64 = "crl"; crl_bundle = []; crl_metadata = [] }

abbrev in_order : String → String → Bool
in_order a b = false

abbrev server : Application
server = record {
  id = 1;
  application_uri = "urn:a";
  common_name = "server";
  zone = "DMZ";
  role = "server";
  runtime_instance_id = none;
  component_type = none;
  host = none;
  port = none;
  status = "active";
  created_at = 10;
  updated_at = 10;
  last_seen_at = none;
}

abbrev certificate : ℕ → Certificate
certificate id = record {
  id = id;
  application_id = 1;
  fingerprint_sha256 = "ab";
  serial_number = none;
  subject = none;
  issuer = none;
  not_before = some 5;
  not_after = some 900;
  pem = "pem";
  status = "active";
  created_at = 20;
  revoked_at = none;
}

abbrev db : Db
db = record {
  applications = server ∷ [];
  certificates = certificate 3 ∷ certificate 4 ∷ [];
  trust_lists = [];
  trust_list_members = [];
  trust_artifacts = [];
  certificate_requests = [];
  certificate_packages = [];
  package_events = [];
  audit_events = [];
  next_certificate = 5;
  next_trust_list = 1;
  next_artifact = 1;
  next_request = 1;
  next_package = 1;
  next_audit = 1;
}

abbrev service : Service
service = record { db = db; signed_artifact_cache = []; regen_last_at = [] }

abbrev trust_list : TrustList
trust_list = record {
  id = 1;
  zone = "DMZ";
  role = "server";
  version = 1;
  status = "active";
  created_at = 60;
  published_at = some 60;
}

abbrev trusted_row : ℕ → TrustedCertificate
trusted_row id = record {
  certificate_id = id;
  application_uri = "urn:a";
  common_name = "server";
  zone = "DMZ";
  role = "server";
  component_type = none;
  fingerprint_sha256 = "ab";
  pem = "pem";
}

abbrev artifact : ℕ → String → Artifact
artifact id reason = artifact_of crypto signer trust_list (trusted_row id ∷ []) ca 1 reason 60

abbrev row : ℕ → String → TrustArtifact
row id reason = record {
  id = 1;
  zone = "DMZ";
  role = "server";
  trustlist_version = 1;
  artifact_revision = 1;
  artifact_json = artifact id reason;
  artifact_sha256 = "0a";
  signature_base64 = "DMZ";
  signer_key_id = "gds-1";
  signer_fingerprint_sha256 = "ff";
  generated_at = 60;
  expires_at = 160;
  reason = reason;
}

on_demand :
    (get_or_regenerate_signed_artifact crypto settings 60 in_order
      (some signer)
      (some (some ca))
      "DMZ"
      "server"
      false
      "api"
      service).0
    ≡ served trust_list (row 4 "cache_miss") (artifact 4 "cache_miss")
unfolding get_or_regenerate_signed_artifact serve_artifact regenerate insert_trust_artifact
    max_revision artifact_is_of get_latest_trust_artifact regeneration_reason is_too_soon remember
    build_signed_artifact artifact_of ensure_trust_list_current latest_trust_list build_trust_list
    max_version is_of insert_members insert_member same_member desired_trustlist_certificate_ids
    trustlist_application_filter collect_ids active_certificate_id_for_application candidates
    is_active_package is_live certificate_before uri_before get_latest_trust_list_with_certs joined
    trusted with_application row_before member_ids mark_certificate_revoked revoked_row
    revocation_time newer later_revision get put
on_demand = refl

db-IsWellFormed : IsWellFormed db
db-IsWellFormed = tt

forced_rebuild :
    (serve_artifact crypto settings 60 signer
      (some ca)
      "DMZ"
      "server"
      true
      "api"
      trust_list
      (trusted_row 4 ∷ [])
      service).0
    ≡ served trust_list (row 4 "force_rebuild") (artifact 4 "force_rebuild")
unfolding get_or_regenerate_signed_artifact serve_artifact regenerate insert_trust_artifact
    max_revision artifact_is_of get_latest_trust_artifact regeneration_reason is_too_soon remember
    build_signed_artifact artifact_of ensure_trust_list_current latest_trust_list build_trust_list
    max_version is_of insert_members insert_member same_member desired_trustlist_certificate_ids
    trustlist_application_filter collect_ids active_certificate_id_for_application candidates
    is_active_package is_live certificate_before uri_before get_latest_trust_list_with_certs joined
    trusted with_application row_before member_ids mark_certificate_revoked revoked_row
    revocation_time newer later_revision get put
forced_rebuild = refl

after_revocation :
    (get_or_regenerate_signed_artifact crypto settings 60 in_order
      (some signer)
      (some (some ca))
      "DMZ"
      "server"
      true
      "api"
      (record service { db = mark_certificate_revoked 4 50 db })).0
    ≡ served trust_list (row 3 "force_rebuild") (artifact 3 "force_rebuild")
unfolding get_or_regenerate_signed_artifact serve_artifact regenerate insert_trust_artifact
    max_revision artifact_is_of get_latest_trust_artifact regeneration_reason is_too_soon remember
    build_signed_artifact artifact_of ensure_trust_list_current latest_trust_list build_trust_list
    max_version is_of insert_members insert_member same_member desired_trustlist_certificate_ids
    trustlist_application_filter collect_ids active_certificate_id_for_application candidates
    is_active_package is_live certificate_before uri_before get_latest_trust_list_with_certs joined
    trusted with_application row_before member_ids mark_certificate_revoked revoked_row
    revocation_time newer later_revision get put
after_revocation = refl

no_recent_one : is_too_soon crypto settings 60 "DMZ" "server" service ≡ false
unfolding is_too_soon get
no_recent_one = refl

forced_rebuild_is_new_example :
    (trust_list ≡ trust_list)
    × ((row 4 "force_rebuild").trustlist_version ≡ trust_list.version)
    × ((artifact 4 "force_rebuild").certificates ≡ trusted_row 4 ∷ [])
    × ((row 4 "force_rebuild").artifact_json ≡ artifact 4 "force_rebuild")
    × ((row 4 "force_rebuild").artifact_revision ≡ (artifact 4 "force_rebuild").artifact_revision)
    × ((artifact 4 "force_rebuild").artifact_revision
        ≡ revision_of (get_latest_trust_artifact "DMZ" "server" service.db) + 1)
    × (let after =
          (serve_artifact crypto settings 60 signer
            (some ca)
            "DMZ"
            "server"
            true
            "api"
            trust_list
            (trusted_row 4 ∷ [])
            service).1.db in
        (after.trust_artifacts ≡ service.db.trust_artifacts ++ row 4 "force_rebuild" ∷ [])
        × (get_latest_trust_artifact "DMZ" "server" after ≡ some (row 4 "force_rebuild")))
forced_rebuild_is_new_example =
    forced_rebuild_is_new crypto settings 60 signer (some ca) "DMZ" "server" "api" trust_list
      (trusted_row 4 ∷ []) service forced_rebuild

served_is_current_example :
    let db' = (ensure_trust_list_current in_order 60 "DMZ" "server" service.db).1 in
    ((get_latest_trust_list_with_certs in_order "DMZ" "server" db').0 ≡ some trust_list)
    × ((row 4 "cache_miss").trustlist_version ≡ trust_list.version)
served_is_current_example =
    served_is_current crypto settings 60 in_order signer (some ca) "DMZ" "server" "api" service
      trust_list (row 4 "cache_miss") (artifact 4 "cache_miss") no_recent_one on_demand

forced_artifact_excludes_revoked_example :
    serves 4 (artifact 3 "force_rebuild").certificates ≡ false
forced_artifact_excludes_revoked_example =
    forced_artifact_excludes_revoked crypto settings 60 in_order signer (some ca) "DMZ" "server"
      "api" 4 50 db service trust_list (row 3 "force_rebuild") (artifact 3 "force_rebuild")
      db-IsWellFormed after_revocation
