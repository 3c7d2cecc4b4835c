-- ===== src/Gds/Revocation/Withdrawn.antt =====
-- The packages of a revoked certificate.
use opcua_implementaion.Prelude.{
  String, true, false, ◌≤◌, some, List, [], ◌∷◌, any, ◌==◌, string_eq, ◌≡◌, refl, subst, arith,
  eq_iff, Bool-cases, Option-cases, inl, inr,
}
use opcua_implementaion.Prelude.Text.{upper}
use opcua_implementaion.Gds.Db.{Db, Certificate, CertificatePackage, Details}
use opcua_implementaion.Gds.Packages.Lifecycle.{
  find_package, lifecycle_order, next_state, insert_package_event, select_package,
  update_certificate_package_lifecycle,
}
use opcua_implementaion.Gds.Packages.Order.{
  Call, run_calls, rank, run_calls-Advances, revoke_sets_status, find_package-update_rows,
}
use opcua_implementaion.Gds.Revocation.Revoke.{RevokeBody, revoke_packages, package_details}

abbrev calls_of : RevokeBody → Certificate → List String → List Call
calls_of body c [] = []
calls_of body c (i ∷ ids) =
    record {
      package_id = i;
      lifecycle_state = "REVOKED";
      actor = body.actor;
      details = package_details body c;
    }
    ∷ calls_of body c ids

revoke_packages-run_calls :
    (body : RevokeBody) (c : Certificate) (ids : List String) (db : Db)
    → revoke_packages body c ids db ≡ run_calls (calls_of body c ids) db
unfolding revoke_packages run_calls
revoke_packages-run_calls body c [] db = refl
revoke_packages-run_calls body c (i ∷ ids) db = revoke_packages-run_calls body c ids _

-- A call about another package leaves a row alone.
other_kept :
    (j i state actor : String) (details : Details) (db : Db) (p : CertificatePackage)
    → (j == i) ≡ false
    → find_package i db.certificate_packages ≡ some p
    → find_package i
        (update_certificate_package_lifecycle j state actor details db).1.certificate_packages
      ≡ some p
unfolding update_certificate_package_lifecycle select_package insert_package_event
other_kept j i state actor details db p other found =
    elim (Option-cases (lifecycle_order (upper state))) [
      | inl unknown ↦ ground arith
      | inr (n, known) ↦ elim (Option-cases (select_package j db)) [
        | inl absent ↦ ground arith
        | inr (r, there) ↦
            (let target = next_state (upper state) (upper r.lifecycle_state) in
              let looked = find_package-update_rows j i target db.certificate_packages in
              ground (arith, looked))
      ]
    ]

upper_revoked : upper "REVOKED" ≡ "REVOKED"
unfolding upper
upper_revoked = refl

-- Each package that the revocation names, is there and has not expired ends with the status revoked.
pub revoke_packages_withdraws :
    (body : RevokeBody) (c : Certificate) (ids : List String) (db : Db) (i : String)
    (p : CertificatePackage)
    → any (λ j. j == i) ids ≡ true
    → find_package i db.certificate_packages ≡ some p
    → rank p.lifecycle_state ≤ 91
    → (q : CertificatePackage) × (find_package i
          (revoke_packages body c ids db).certificate_packages
        ≡ some q)
      × (q.status ≡ "revoked")
unfolding revoke_packages
revoke_packages_withdraws body c [] db i p named found low = absurd (ground arith)
revoke_packages_withdraws body c (j ∷ ids) db i p named found low =
    let next =
      (update_certificate_package_lifecycle j "REVOKED" body.actor (package_details body c) db).1 in
    elim (Bool-cases (j == i)) [
      | inl same ↦
          (let one : j ≡ i = (eq_iff j i).0 same in
            let (q, there, status, state) =
              revoke_sets_status j "REVOKED" body.actor (package_details body c) db p upper_revoked
                (rw one found) low in
            let (r, kept, progress) = run_calls-Advances (calls_of body c ids) next j q there in
            subst
              (λ (k : String).
                (s : CertificatePackage) × (find_package k
                    (revoke_packages body c ids next).certificate_packages
                  ≡ some s)
                × (s.status ≡ "revoked"))
              one (r, rw (revoke_packages-run_calls body c ids next) kept, progress.revoked status))
      | inr other ↦
          revoke_packages_withdraws body c ids next i p (ground arith)
            (other_kept j i "REVOKED" body.actor (package_details body c) db p other found) low
    ]
