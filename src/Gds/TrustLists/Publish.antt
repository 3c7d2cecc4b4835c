-- ===== src/Gds/TrustLists/Publish.antt =====
-- `build_trust_list`, `ensure_trust_list_current`, `get_latest_trust_list_with_certs`,
-- `mark_certificate_revoked` and `mark_expired_active_certificates` of gds/app/db.py.
use opcua_implementaion.Prelude.{
  ℕ, ◌+◌, max, String, Bool, false, ◌&&◌, Option, none, some, List, [], ◌∷◌, ◌++◌, map, ltb, ◌==◌,
  string_eq, number_eq, where_list, any, if◌then◌else◌,
}
use opcua_implementaion.Gds.Db.{Db, TrustedCertificate, Application, Certificate, TrustList, Member}
use opcua_implementaion.Gds.TrustLists.Query.{first_by, order_by, flat_map, sorted, same_ids}
use opcua_implementaion.Gds.TrustLists.Desired.{desired_trustlist_certificate_ids, is_none}

unfoldable pub is_of : String → String → TrustList → Bool
is_of zone role l = l.zone == zone && l.role == role

-- `COALESCE(MAX(version), 0)`
unfoldable pub max_version : List TrustList → ℕ
max_version [] = 0
max_version (l ∷ ls) = max l.version (max_version ls)

-- ORDER BY version DESC
unfoldable pub newer : TrustList → TrustList → Bool
newer l m = ltb m.version l.version

-- `WHERE zone = %s AND role = %s ORDER BY version DESC LIMIT 1`
unfoldable pub latest_trust_list : String → String → Db → Option TrustList
latest_trust_list zone role db = first_by newer (where_list (is_of zone role) db.trust_lists)

unfoldable pub same_member : Member → Member → Bool
same_member m n =
    m.trust_list_id == n.trust_list_id
    && m.certificate_id == n.certificate_id
    && m.member_type == n.member_type

-- INSERT ... ON CONFLICT DO NOTHING
unfoldable pub insert_member : Member → List Member → List Member
insert_member m rows = if any (same_member m) rows then rows else rows ++ m ∷ []

unfoldable pub insert_members : ℕ → List ℕ → List Member → List Member
unfolding insert_member
insert_members trust_list_id [] rows = rows
insert_members trust_list_id (cert_id ∷ ids) rows = insert_members trust_list_id ids (
    insert_member
      (record {
        trust_list_id = trust_list_id;
        certificate_id = cert_id;
        member_type = "application";
      })
      rows)

-- The ids of a list's members of the kind `application`.
unfoldable pub member_ids : ℕ → List Member → List ℕ
member_ids trust_list_id rows =
    map (λ (m : Member). m.certificate_id)
      (where_list
        (λ (m : Member). m.trust_list_id == trust_list_id && m.member_type == "application") rows)

unfoldable pub trusted : Certificate → Application → TrustedCertificate
trusted c a = record {
  certificate_id = c.id;
  application_uri = a.application_uri;
  common_name = a.common_name;
  zone = a.zone;
  role = a.role;
  component_type = a.component_type;
  fingerprint_sha256 = c.fingerprint_sha256;
  pem = c.pem;
}

unfoldable pub with_application : Certificate → List Application → List TrustedCertificate
with_application c apps =
    map (trusted c) (where_list (λ (a : Application). a.id == c.application_id) apps)

unfoldable pub joined : Db → Member → List TrustedCertificate
joined db m =
    flat_map (λ (c : Certificate). with_application c db.applications)
      (where_list (λ (c : Certificate). c.id == m.certificate_id) db.certificates)

module _ (collates_before : String → String → Bool) (now : ℕ) where
  -- The list that is published, and the tables after it.
  unfoldable pub build_trust_list : String → String → Db → TrustList × Db
  build_trust_list zone role db =
      let next_version = max_version (where_list (is_of zone role) db.trust_lists) + 1 in
      let trust_list : TrustList = record {
        id = db.next_trust_list;
        zone = zone;
        role = role;
        version = next_version;
        status = "active";
        created_at = now;
        published_at = some now;
      } in
      let certificate_ids = desired_trustlist_certificate_ids collates_before zone role db in
      (
        trust_list,
        record db {
          trust_lists = db.trust_lists ++ trust_list ∷ [];
          trust_list_members = insert_members trust_list.id certificate_ids db.trust_list_members;
          next_trust_list = db.next_trust_list + 1;
        },
      )

  unfoldable pub ensure_trust_list_current : String → String → Db → TrustList × Db
  ensure_trust_list_current zone role db =
      let desired = sorted (desired_trustlist_certificate_ids collates_before zone role db) in
      elim (latest_trust_list zone role db) [
        | none ↦ build_trust_list zone role db
        | some trust_list ↦
            if same_ids (sorted (member_ids trust_list.id db.trust_list_members)) desired
            then (trust_list, db)
            else build_trust_list zone role db
      ]

module _ (collates_before : String → String → Bool) where
  unfoldable pub row_before : TrustedCertificate → TrustedCertificate → Bool
  row_before x y = collates_before x.application_uri y.application_uri

  unfoldable pub get_latest_trust_list_with_certs :
      String → String → Db → Option TrustList × List TrustedCertificate
  get_latest_trust_list_with_certs zone role db = elim (latest_trust_list zone role db) [
    | none ↦ (none, [])
    | some trust_list ↦ (
      some trust_list,
      order_by row_before (
          flat_map (joined db)
            (where_list (λ (m : Member). m.trust_list_id == trust_list.id) db.trust_list_members)),
    )
  ]

-- `COALESCE(revoked_at, now())`
unfoldable pub revocation_time : ℕ → Option ℕ → Option ℕ
revocation_time now none = some now
revocation_time now (some t) = some t

unfoldable pub revoked_row : ℕ → Certificate → Certificate
revoked_row now c = record c { status = "revoked"; revoked_at = revocation_time now c.revoked_at }

unfoldable pub mark_certificate_revoked : ℕ → ℕ → Db → Db
mark_certificate_revoked certificate_id now db = record db {
  certificates =
      map (λ (c : Certificate). if c.id == certificate_id then revoked_row now c else c)
        db.certificates;
}

-- `not_after IS NOT NULL AND not_after < now()`
unfoldable pub is_past : ℕ → Option ℕ → Bool
is_past now none = false
is_past now (some t) = ltb t now

unfoldable pub expired_row : ℕ → Certificate → Certificate
expired_row now c =
    if c.status == "active" && is_none c.revoked_at && is_past now c.not_after
    then record c { status = "expired" }
    else c

unfoldable pub mark_expired_active_certificates : ℕ → Db → Db
mark_expired_active_certificates now db = record db {
  certificates = map (expired_row now) db.certificates;
}
