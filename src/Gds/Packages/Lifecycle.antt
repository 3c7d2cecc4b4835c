-- ===== src/Gds/Packages/Lifecycle.antt =====
-- `update_certificate_package_lifecycle` and `insert_package_event` of gds/app/db.py.
use Prim.Native.String.{◌++◌ as text_append}
use opcua_implementaion.Prelude.{
  ℕ, String, Bool, true, false, Option, none, some, List, [], ◌∷◌, ◌++◌, ltb, ◌==◌, string_eq,
  number_eq, if◌then◌else◌,
}
use opcua_implementaion.Prelude.Text.{lower, upper}
use opcua_implementaion.Prelude.Dict.{put}
use opcua_implementaion.Gds.Db.{Db, CertificatePackage, Details}

-- PACKAGE_LIFECYCLE_ORDER, and `none` for a state that is not in it.
unfoldable pub lifecycle_order : String → Option ℕ
lifecycle_order state =
    if state == "ISSUED"
    then some 10
    else if state == "PACKAGED"
    then some 20
    else if state == "PULLED"
    then some 30
    else if state == "VERIFIED"
    then some 40
    else if state == "STAGED"
    then some 50
    else if state == "APPROVED"
    then some 60
    else if state == "ACTIVATED"
    then some 70
    else if state == "ROLLED_BACK"
    then some 80
    else if state == "REVOKED"
    then some 90
    else if state == "EXPIRED"
    then some 100
    else none

-- `PACKAGE_LIFECYCLE_ORDER.get(a, -1) < PACKAGE_LIFECYCLE_ORDER.get(b, -1)`
abbrev pub order_lt : Option ℕ → Option ℕ → Bool
order_lt none none = false
order_lt none (some b) = true
order_lt (some a) none = false
order_lt (some a) (some b) = ltb a b

-- `SELECT * FROM certificate_packages WHERE package_id = %s`; the column is unique.
unfoldable pub find_package : String → List CertificatePackage → Option CertificatePackage
find_package package_id [] = none
find_package package_id (p ∷ ps) =
    if p.package_id == package_id then some p else find_package package_id ps

unfoldable pub select_package : String → Db → Option CertificatePackage
unfolding find_package
select_package package_id db = find_package package_id db.certificate_packages

-- The state that the row gets: the requested one, unless it comes before the current one.
unfoldable pub next_state : String → String → String
next_state requested current =
    if order_lt (lifecycle_order requested) (lifecycle_order current) then current else requested

-- The row after the UPDATE.
unfoldable pub moved : String → CertificatePackage → CertificatePackage
moved target p = record p {
  lifecycle_state = target;
  status = if target == "REVOKED" then "revoked" else p.status;
}

unfoldable pub update_rows : String → String → List CertificatePackage → List CertificatePackage
unfolding moved
update_rows package_id target [] = []
update_rows package_id target (p ∷ ps) =
    (if p.package_id == package_id then moved target p else p) ∷ update_rows package_id target ps

unfoldable pub insert_package_event : String → String → String → Details → Db → Db
insert_package_event package_id event_type actor details db = record db {
  package_events =
      db.package_events
      ++ record {
        package_id = package_id;
        event_type = event_type;
        actor = actor;
        details = details;
      }
        ∷ [];
}

-- The details of the event: a transition that is ignored says so.
unfoldable pub event_details : String → String → Details → Details
event_details requested current details =
    if order_lt (lifecycle_order requested) (lifecycle_order current)
    then put "transition_ignored" "non_regressive_lifecycle_state"
        (put "requested_lifecycle_state" requested details)
    else details

pub data Update : Type 0 where
  unsupported_state missing : Update
  updated : CertificatePackage → Update

-- What `update_certificate_package_lifecycle` raises or returns, and the database that it leaves.
unfoldable pub update_certificate_package_lifecycle :
    String → String → String → Details → Db → Update × Db
unfolding select_package next_state moved update_rows insert_package_event event_details
update_certificate_package_lifecycle package_id lifecycle_state actor details db =
    let requested = upper lifecycle_state in
    elim (lifecycle_order requested) [
      | none ↦ (unsupported_state, db)
      | some _ ↦ elim (select_package package_id db) [
        | none ↦ (missing, db)
        | some p ↦
            (let current = upper p.lifecycle_state in
              let target = next_state requested current in
              (
                updated (moved target p),
                insert_package_event package_id (text_append "package_" (lower requested)) actor
                    (event_details requested current details)
                    (record db {
                      certificate_packages = update_rows package_id target db.certificate_packages;
                    }),
              ))
      ]
    ]
