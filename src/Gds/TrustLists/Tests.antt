-- ===== src/Gds/TrustLists/Tests.antt =====
-- The trust lists on two servers, one with a revocation.
use Prim.Native.Nat.{Ordering}
use Prim.Native.String.{compare}
use opcua_implementaion.Prelude.{
  ℕ, ◌<◌, String, Bool, true, false, none, some, [], ◌∷◌, ◌==◌, number_eq, if◌then◌else◌, ◌≡◌, refl,
  arith,
}
use opcua_implementaion.Gds.Db.{Db, Application, Certificate, TrustList}
use opcua_implementaion.Gds.TrustLists.Query.{contains}
use opcua_implementaion.Gds.TrustLists.Desired.{
  trustlist_application_filter, is_live, is_active_package, candidates,
  active_certificate_id_for_application, collect_ids, uri_before, desired_trustlist_certificate_ids,
  certificate_before,
}
use opcua_implementaion.Gds.TrustLists.Publish.{
  latest_trust_list, is_of, member_ids, build_trust_list, ensure_trust_list_current,
  get_latest_trust_list_with_certs, mark_certificate_revoked,
}
use opcua_implementaion.Gds.TrustLists.Live.{
  live_in, desired_IsLive, mark_certificate_revoked-live_in,
}
use opcua_implementaion.Gds.TrustLists.Members.{IsWellFormed, build_is_latest, ensure_is_desired}
use opcua_implementaion.Gds.TrustLists.Revoked.{serves, revoked_is_not_served}

abbrev by_code : String → String → Bool
by_code a b = elim (compare a b) [ Ordering.lt ↦ true | _ ↦ false ]

abbrev server : ℕ → String → Application
server id uri = record {
  id = id;
  application_uri = uri;
  common_name = "server";
  zone = "DMZ";
  role = "server";
  runtime_instance_id = none;
  component_type = none;
  host = none;
  port = none;
  status = "active";
  created_at = 10;
  updated_at = 10;
  last_seen_at = none;
}

abbrev certificate : ℕ → ℕ → Certificate
certificate id application_id = record {
  id = id;
  application_id = application_id;
  fingerprint_sha256 = "ab";
  serial_number = none;
  subject = none;
  issuer = none;
  not_before = some 5;
  not_after = some 900;
  pem = "pem";
  status = "active";
  created_at = 20;
  revoked_at = none;
}

abbrev first_list : TrustList
first_list = record {
  id = 1;
  zone = "DMZ";
  role = "server";
  version = 1;
  status = "active";
  created_at = 30;
  published_at = some 30;
}

abbrev db : Db
db = record {
  applications = server 1 "urn:b" ∷ server 2 "urn:a" ∷ [];
  certificates = certificate 3 1 ∷ certificate 4 2 ∷ [];
  trust_lists = first_list ∷ [];
  trust_list_members =
      record { trust_list_id = 1; certificate_id = 4; member_type = "application" } ∷ [];
  trust_artifacts = [];
  certificate_requests = [];
  certificate_packages = [];
  package_events = [];
  audit_events = [];
  next_certificate = 5;
  next_trust_list = 2;
  next_artifact = 1;
  next_request = 1;
  next_package = 1;
  next_audit = 1;
}

db-IsWellFormed : IsWellFormed db
db-IsWellFormed = (record { of_list = omega arith; of_kind = refl }, tt)

desired_of_db : desired_trustlist_certificate_ids by_code "DMZ" "server" db ≡ 4 ∷ 3 ∷ []
unfolding desired_trustlist_certificate_ids trustlist_application_filter collect_ids
    active_certificate_id_for_application candidates is_active_package is_live uri_before
    certificate_before
desired_of_db = refl

three_is_desired : contains 3 (desired_trustlist_certificate_ids by_code "DMZ" "server" db) ≡ true
unfolding contains
three_is_desired = rw desired_of_db refl

latest_of_db : latest_trust_list "DMZ" "server" db ≡ some first_list
unfolding latest_trust_list is_of
latest_of_db = refl

desired_IsLive_example : live_in 3 db.certificates ≡ true
desired_IsLive_example = desired_IsLive by_code 3 "DMZ" "server" db three_is_desired

mark_certificate_revoked-live_in_example :
    live_in 4 (mark_certificate_revoked 4 50 db).certificates
    ≡ (if ◌==◌ {A = ℕ} 4 4 then false else live_in 4 db.certificates)
mark_certificate_revoked-live_in_example = mark_certificate_revoked-live_in 4 50 4 db

build_is_latest_example :
    let (l, db') = build_trust_list by_code 60 "DMZ" "server" db in
    (latest_trust_list "DMZ" "server" db' ≡ some l)
    × ((k : TrustList) → latest_trust_list "DMZ" "server" db ≡ some k → k.version < l.version)
build_is_latest_example = build_is_latest by_code 60 "DMZ" "server" db

ensure_is_desired_example :
    let (l, db') = ensure_trust_list_current by_code 60 "DMZ" "server" db in
    (latest_trust_list "DMZ" "server" db' ≡ some l)
    × ((x : ℕ)
        → contains x (member_ids l.id db'.trust_list_members)
          ≡ contains x (desired_trustlist_certificate_ids by_code "DMZ" "server" db))
ensure_is_desired_example = ensure_is_desired by_code 60 "DMZ" "server" db db-IsWellFormed

revoked_is_not_served_example :
    let (l, db') =
      ensure_trust_list_current by_code 60 "DMZ" "server" (mark_certificate_revoked 4 50 db) in
    serves 4 (get_latest_trust_list_with_certs by_code "DMZ" "server" db').1 ≡ false
revoked_is_not_served_example =
    revoked_is_not_served by_code 60 4 50 "DMZ" "server" db db-IsWellFormed
