-- ===== src/Gds/TrustLists/Desired.antt =====
-- Which certificates a trust list is to hold: `_trustlist_application_filter`,
-- `_active_certificate_id_for_application` and `_desired_trustlist_certificate_ids` of gds/app/db.py.
-- The collation that ORDER BY compares texts with belongs to the database and is a parameter.
use opcua_implementaion.Prelude.{
  ℕ, String, Bool, true, false, not, ◌&&◌, ◌||◌, Option, none, some, List, [], ◌∷◌, ltb, ◌==◌,
  string_eq, number_eq, where_list, if◌then◌else◌,
}
use opcua_implementaion.Gds.Db.{Db, Application, Certificate, CertificatePackage}
use opcua_implementaion.Gds.TrustLists.Query.{first_by, order_by, flat_map}

-- The WHERE of the query with its parameters.
unfoldable pub trustlist_application_filter : String → String → Application → Bool
trustlist_application_filter zone role a =
    if zone == "OT" && role == "server"
    then (a.zone == "DMZ" && a.role == "southbound-client")
      || (a.zone == "OT" && a.role == "scada-client")
    else a.zone == zone && a.role == role

abbrev pub is_none {ℓ} : {A : Type ℓ} → Option A → Bool
is_none none = true
is_none (some a) = false

-- `c.status = 'active' AND c.revoked_at IS NULL`
unfoldable pub is_live : Certificate → Bool
is_live c = c.status == "active" && is_none c.revoked_at

-- `c.id = cp.certificate_id`
abbrev pub refers : Option ℕ → ℕ → Bool
refers none id = false
refers (some n) id = id == n

abbrev pub Candidate : Type 0
Candidate = CertificatePackage × Certificate

-- ORDER BY cp.created_at DESC, cp.generation DESC, c.id DESC
unfoldable pub candidate_before : Candidate → Candidate → Bool
candidate_before (p, c) (q, d) =
    ltb q.created_at p.created_at
    || (p.created_at == q.created_at
        && (ltb q.generation p.generation || (p.generation == q.generation && ltb d.id c.id)))

-- `a < b` in a column that sorts NULLs last, so that DESC has them first.
abbrev pub null_lt : Option ℕ → Option ℕ → Bool
null_lt none b = false
null_lt (some a) none = true
null_lt (some a) (some b) = ltb a b

-- ORDER BY c.created_at DESC, c.not_before DESC, c.id DESC
unfoldable pub certificate_before : Certificate → Certificate → Bool
certificate_before c d =
    ltb d.created_at c.created_at
    || (c.created_at == d.created_at
        && (null_lt d.not_before c.not_before
            || (not (null_lt c.not_before d.not_before) && ltb d.id c.id)))

unfoldable pub with_certificate : CertificatePackage → List Certificate → List Candidate
with_certificate p [] = []
with_certificate p (c ∷ cs) =
    let rest = with_certificate p cs in
    if refers p.certificate_id c.id && is_live c then (p, c) ∷ rest else rest

unfoldable pub is_active_package : ℕ → CertificatePackage → Bool
is_active_package application_id p =
    p.application_id == application_id && p.lifecycle_state == "ACTIVATED" && p.status == "active"

unfoldable pub candidates : ℕ → Db → List Candidate
candidates application_id db =
    flat_map (λ p. with_certificate p db.certificates)
      (where_list (is_active_package application_id) db.certificate_packages)

unfoldable pub active_certificate_id_for_application : ℕ → Db → Option ℕ
active_certificate_id_for_application application_id db =
    elim (first_by candidate_before (candidates application_id db)) [
      | some (p, c) ↦ some c.id
      | none ↦
          elim (first_by certificate_before
            (where_list (λ c. c.application_id == application_id && is_live c) db.certificates)) [
              | some c ↦ some c.id
              | none ↦ none
            ]
    ]

-- The certificate of each application that has one.
unfoldable pub collect_ids : List Application → Db → List ℕ
collect_ids [] db = []
collect_ids (a ∷ rows) db =
    let certificate_ids = collect_ids rows db in
    elim (active_certificate_id_for_application a.id db) [
      | none ↦ certificate_ids
      | some cert_id ↦ cert_id ∷ certificate_ids
    ]

module _ (collates_before : String → String → Bool) where
  unfoldable pub uri_before : Application → Application → Bool
  uri_before a b = collates_before a.application_uri b.application_uri

  unfoldable pub desired_trustlist_certificate_ids : String → String → Db → List ℕ
  desired_trustlist_certificate_ids zone role db =
      collect_ids
        (order_by uri_before (
          where_list (λ a. a.status == "active" && trustlist_application_filter zone role a)
            db.applications))
        db
