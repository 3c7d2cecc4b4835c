-- ===== src/Gds/Packages/Order.antt =====
-- Package states never go back, and a revocation stays.
use opcua_implementaion.Prelude.{
  ℕ, suc, ◌≤◌, String, none, some, List, [], ◌∷◌, ◌==◌, string_eq, if◌then◌else◌, ◌≡◌, ◌≢◌, ◌∙◌,
  refl, sym, ap, subst, arith, Bool-cases, Option-cases, inl, inr, eq_iff,
}
use opcua_implementaion.Prelude.Text.{upper}
use opcua_implementaion.Gds.Db.{Db, CertificatePackage, Details}
use opcua_implementaion.Gds.Packages.Lifecycle.{
  lifecycle_order, order_lt, find_package, select_package, next_state, moved, update_rows,
  update_certificate_package_lifecycle,
}

-- A call of `update_certificate_package_lifecycle`.
pub record Call : Type 0 where
  pub package_id : String
  pub lifecycle_state : String
  pub actor : String
  pub details : Details

abbrev pub apply_call : Call → Db → Db
apply_call c db =
    (update_certificate_package_lifecycle c.package_id c.lifecycle_state c.actor c.details db).1

-- Calls one after another; one that raises or finds no row leaves the tables alone.
unfoldable pub run_calls : List Call → Db → Db
run_calls [] db = db
run_calls (c ∷ calls) db = run_calls calls (apply_call c db)

-- The place of a state in the order; unknown states come first.
unfoldable pub rank : String → ℕ
rank state = elim (lifecycle_order (upper state)) [ none ↦ 0 | some n ↦ suc n ]

pub find_package-update_rows :
    (package_id j target : String) (ps : List CertificatePackage)
    → find_package j (update_rows package_id target ps) ≡ (elim (find_package j ps) [
      | none ↦ none
      | some p ↦ some (if package_id == j then moved target p else p)
    ])
unfolding find_package update_rows moved
find_package-update_rows package_id j target [] = refl
find_package-update_rows package_id j target (p ∷ ps) = ground (
  arith,
  find_package-update_rows package_id j target ps,
  eq_iff package_id j,
  eq_iff p.package_id j,
  eq_iff p.package_id package_id,
)

upper_states :
    (upper "ISSUED" ≡ "ISSUED")
    × (upper "PACKAGED" ≡ "PACKAGED")
    × (upper "PULLED" ≡ "PULLED")
    × (upper "VERIFIED" ≡ "VERIFIED")
    × (upper "STAGED" ≡ "STAGED")
    × (upper "APPROVED" ≡ "APPROVED")
    × (upper "ACTIVATED" ≡ "ACTIVATED")
    × (upper "ROLLED_BACK" ≡ "ROLLED_BACK")
    × (upper "REVOKED" ≡ "REVOKED")
    × (upper "EXPIRED" ≡ "EXPIRED")
unfolding upper
upper_states = (refl, refl, refl, refl, refl, refl, refl, refl, refl, refl)

-- A known state is in upper case.
upper_of_known : (s : String) {n : ℕ} → lifecycle_order s ≡ some n → upper s ≡ s
unfolding lifecycle_order
upper_of_known s h =
    let u = upper_states in
    ground (
      arith,
      eq_iff s "ISSUED",
      eq_iff s "PACKAGED",
      eq_iff s "PULLED",
      eq_iff s "VERIFIED",
      eq_iff s "STAGED",
      eq_iff s "APPROVED",
      eq_iff s "ACTIVATED",
      eq_iff s "ROLLED_BACK",
      eq_iff s "REVOKED",
      eq_iff s "EXPIRED",
    )

rank-next_state :
    (requested state : String) {n : ℕ}
    → lifecycle_order requested ≡ some n
    → rank state ≤ rank (next_state requested (upper state))
unfolding rank next_state
rank-next_state requested state known =
    let same = upper_of_known requested known in
    elim (Option-cases (lifecycle_order (upper state))) [
      | inl unknown ↦ ground arith
      | inr (m, current) ↦
          (let kept = upper_of_known (upper state) current in
            elim (Bool-cases
              (order_lt (lifecycle_order requested) (lifecycle_order (upper state)))) [
                | inl back ↦ rw back (ground (arith, kept))
                | inr on ↦ rw on (ground (arith, same))
              ])
    ]

-- How a row may change: its state does not go back, and a revoked row stays revoked.
pub record Progress (p q : CertificatePackage) : Type 0 where
  pub forward : rank p.lifecycle_state ≤ rank q.lifecycle_state
  pub revoked : p.status ≡ "revoked" → q.status ≡ "revoked"

Progress-moved :
    (requested : String) (p : CertificatePackage) {n : ℕ}
    → lifecycle_order requested ≡ some n
    → Progress p (moved (next_state requested (upper p.lifecycle_state)) p)
unfolding moved
Progress-moved requested p known = record {
  forward = rank-next_state requested p.lifecycle_state known;
  revoked = λ h. ground arith;
}

Progress-refl : (p : CertificatePackage) → Progress p p
Progress-refl p = record { forward = omega arith; revoked = λ h. h }

Progress-trans : {p q r : CertificatePackage} → Progress p q → Progress q r → Progress p r
Progress-trans a b = record { forward = omega arith; revoked = λ h. b.revoked (a.revoked h) }

-- A row that a lookup finds is still found, further on.
abbrev pub Advances : String → Db → Db → Type 0
Advances j db db' =
    (p : CertificatePackage)
    → find_package j db.certificate_packages ≡ some p
    → (q : CertificatePackage) × (find_package j db'.certificate_packages ≡ some q) × Progress p q

Advances-update :
    (c : Call) (db : Db) (j : String) {n : ℕ} {r : CertificatePackage}
    → lifecycle_order (upper c.lifecycle_state) ≡ some n
    → select_package c.package_id db ≡ some r
    → Advances j db (apply_call c db)
unfolding update_certificate_package_lifecycle select_package
Advances-update c db j {n} {r} known found p h =
    let target = next_state (upper c.lifecycle_state) (upper r.lifecycle_state) in
    let looked = find_package-update_rows c.package_id j target db.certificate_packages in
    elim (Bool-cases (c.package_id == j)) [
      | inl same ↦
          (let one : r ≡ p = cc ((eq_iff c.package_id j).0 same) in
            (
              moved target p,
              ground (arith, looked),
              subst
                  (λ (x : CertificatePackage).
                    Progress p
                      (moved (next_state (upper c.lifecycle_state) (upper x.lifecycle_state)) p))
                  (sym one) (Progress-moved (upper c.lifecycle_state) p known),
            ))
      | inr other ↦ (p, ground (arith, looked), Progress-refl p)
    ]

unchanged-unknown :
    (c : Call) (db : Db) → lifecycle_order (upper c.lifecycle_state) ≡ none → apply_call c db ≡ db
unfolding update_certificate_package_lifecycle
unchanged-unknown c db unknown = ground arith

unchanged-missing :
    (c : Call) (db : Db) → select_package c.package_id db ≡ none → apply_call c db ≡ db
unfolding update_certificate_package_lifecycle
unchanged-missing c db absent = elim (Option-cases (lifecycle_order (upper c.lifecycle_state))) [
  | inl unknown ↦ unchanged-unknown c db unknown
  | inr (n, known) ↦ ground arith
]

Advances-same : {db db' : Db} (j : String) → db' ≡ db → Advances j db db'
Advances-same {db} j same p h = (p, rw same h, Progress-refl p)

Advances-call : (c : Call) (db : Db) (j : String) → Advances j db (apply_call c db)
Advances-call c db j = elim (Option-cases (lifecycle_order (upper c.lifecycle_state))) [
  | inl unknown ↦ Advances-same j (unchanged-unknown c db unknown)
  | inr (n, known) ↦ elim (Option-cases (select_package c.package_id db)) [
    | inl absent ↦ Advances-same j (unchanged-missing c db absent)
    | inr (r, found) ↦ Advances-update c db j known found
  ]
]

-- After any calls, whatever states they ask for, a package that was there is still there, its state
-- is not before the one that it had, and if its status was revoked it is.
pub run_calls-Advances :
    (calls : List Call) (db : Db) (j : String) → Advances j db (run_calls calls db)
unfolding run_calls
run_calls-Advances [] db j p h = (p, h, Progress-refl p)
run_calls-Advances (c ∷ calls) db j p h =
    let (q, found, step) = Advances-call c db j p h in
    let (r, found', rest) = run_calls-Advances calls (apply_call c db) j q found in
    (r, found', Progress-trans step rest)

-- A state at REVOKED or beyond it.
abbrev pub IsFinal : CertificatePackage → Type 0
IsFinal p = 91 ≤ rank p.lifecycle_state

rank_activated : rank "ACTIVATED" ≡ 71
unfolding rank lifecycle_order upper
rank_activated = refl

-- A package that was revoked or expired is never ACTIVATED again, after any calls.
pub final_never_activated :
    (calls : List Call) (db : Db) (j : String) (p : CertificatePackage)
    → find_package j db.certificate_packages ≡ some p
    → IsFinal p
    → (q : CertificatePackage) × (find_package j (run_calls calls db).certificate_packages ≡ some q)
      × (q.lifecycle_state ≢ "ACTIVATED")
final_never_activated calls db j p h final =
    let (q, found, step) = run_calls-Advances calls db j p h in
    (q, found, λ e. absurd (omega (arith, step.forward, rank_activated, ap rank e)))

revoked_known : lifecycle_order "REVOKED" ≡ some 90
unfolding lifecycle_order
revoked_known = refl

next_state_of_revoked :
    (state : String) → rank state ≤ 91 → next_state "REVOKED" (upper state) ≡ "REVOKED"
unfolding next_state rank
next_state_of_revoked state low =
    let k = revoked_known in
    elim (Option-cases (lifecycle_order (upper state))) [
      | inl unknown ↦ ground arith
      | inr (n, known) ↦ ground arith
    ]

-- A revocation of a package that has not expired sets its state and its status, whoever asks and in
-- whatever case the state is written.
pub revoke_sets_status :
    (package_id requested actor : String) (details : Details) (db : Db) (p : CertificatePackage)
    → upper requested ≡ "REVOKED"
    → find_package package_id db.certificate_packages ≡ some p
    → rank p.lifecycle_state ≤ 91
    → let db' = (update_certificate_package_lifecycle package_id requested actor details db).1 in
      (q : CertificatePackage) × (find_package package_id db'.certificate_packages ≡ some q)
      × (q.status ≡ "revoked")
      × (q.lifecycle_state ≡ "REVOKED")
unfolding update_certificate_package_lifecycle moved select_package
revoke_sets_status package_id requested actor details db p up h low =
    let known : lifecycle_order (upper requested) ≡ some 90 =
      ap lifecycle_order up ∙ revoked_known in
    let ahead = next_state_of_revoked p.lifecycle_state low in
    let looked = find_package-update_rows package_id package_id "REVOKED" db.certificate_packages in
    let same = (eq_iff package_id package_id).1 refl in
    (moved "REVOKED" p, ground arith, refl, refl)
