-- ===== src/Gds/Lifecycle/Generations.antt =====
-- The generations of the packages of an application and a profile.
use opcua_implementaion.Prelude.{
  ℕ, ◌+◌, ◌≤◌, ◌<◌, String, Bool, true, ◌&&◌, Option, none, some, List, [], ◌∷◌, ◌++◌, All,
  All-append, All-map, where_list, ltb, ◌==◌, string_eq, number_eq, ◌≡◌, ◌⊎◌, refl, sym, subst,
  arith, inl, inr, Bool-cases, Option-cases,
}
use opcua_implementaion.Prelude.Text.{upper}
use opcua_implementaion.Gds.Db.{Db, Details, CertificatePackage, audit}
use opcua_implementaion.Gds.TrustLists.Query.{best, first_by}
use opcua_implementaion.Gds.Adapters.{Csr}
use opcua_implementaion.Gds.Packages.Lifecycle.{
  lifecycle_order, select_package, next_state, moved, update_rows, insert_package_event,
  update_certificate_package_lifecycle,
}
use opcua_implementaion.Gds.Lifecycle.Rows.{
  ParsedCertificate, package_is_of, later_generation,
  get_latest_certificate_package_for_application, insert_certificate, insert_certificate_request,
  insert_certificate_package, update_certificate_request_status,
}
use opcua_implementaion.Gds.Lifecycle.Issue.{
  Environment, Call, Outcome, generation_after, generation_of, Target, manifest_of, store_package,
  fail_request, issue_certificate_package,
}
use opcua_implementaion.Gds.Lifecycle.Runs.{Run, issued_tables, issue_certificate_package-Run}

abbrev pub same_line : CertificatePackage → CertificatePackage → Bool
same_line p q = p.application_id == q.application_id && p.profile_name == q.profile_name

abbrev pub Below : CertificatePackage → CertificatePackage → Type 0
Below q p = same_line p q ≡ true → p.generation < q.generation

-- In the order of the inserts, the generations of an application and a profile go up.
abbrev pub Rises : List CertificatePackage → Type 0
Rises [] = Unit
Rises (p ∷ ps) = All (λ q. Below q p) ps × Rises ps

abbrev pub generation_next : Option ℕ → ℕ
generation_next none = 1
generation_next (some g) = g + 1

-- They go up, and each follows on the generation that it supersedes.
pub record IsChained (packages : List CertificatePackage) : Type 0 where
  pub rises : Rises packages
  pub follows : All (λ p. p.generation ≡ generation_next p.supersedes_generation) packages

Rises-append :
    (ps : List CertificatePackage) (q : CertificatePackage)
    → Rises ps
    → All (Below q) ps
    → Rises (ps ++ q ∷ [])
Rises-append [] q h below = (tt, tt)
Rises-append (p ∷ ps) q (later, h) (b, below) =
    (All-append (λ r. Below r p) ps (q ∷ []) later (b, tt), Rises-append ps q h below)

abbrev AtMost : ℕ → List CertificatePackage → Type 0
AtMost limit packages = All (λ p. p.generation ≤ limit) packages

-- The first by generation has the greatest one.
best_is_greatest :
    (x : CertificatePackage) (ys : List CertificatePackage)
    → AtMost (best later_generation x ys).generation (x ∷ ys)
unfolding later_generation
best_is_greatest x [] = (omega arith, tt)
best_is_greatest x (y ∷ ys) = elim (Bool-cases (ltb x.generation y.generation)) [
  | inl later ↦
      (let (first, rest) = best_is_greatest y ys in
        let picks : best later_generation y ys ≡ best later_generation x (y ∷ ys) = ground arith in
        subst (λ (b : CertificatePackage). AtMost b.generation (x ∷ y ∷ ys)) picks
          (ground arith, (first, rest)))
  | inr earlier ↦
      (let (first, rest) = best_is_greatest x ys in
        let picks : best later_generation x ys ≡ best later_generation x (y ∷ ys) = ground arith in
        subst (λ (b : CertificatePackage). AtMost b.generation (x ∷ y ∷ ys)) picks
          (first, (ground arith, rest)))
]

latest_bounds :
    (found : List CertificatePackage)
    → All (λ p. p.generation < generation_after (first_by later_generation found)) found
latest_bounds [] = tt
latest_bounds (x ∷ ys) =
    let (first, rest) = best_is_greatest x ys in
    let limit = (best later_generation x ys).generation in
    (
      omega (arith, first),
      All-map (λ y. y.generation ≤ limit) (λ y. y.generation < limit + 1) ys (λ y le. omega arith)
          rest,
    )

bounds-All :
    (application_id : ℕ) (profile_name : String) (limit : ℕ) (ps : List CertificatePackage)
    → All (λ p. p.generation < limit) (where_list (package_is_of application_id profile_name) ps)
    → All (λ p. package_is_of application_id profile_name p ≡ true → p.generation < limit) ps
bounds-All application_id profile_name limit [] h = tt
bounds-All application_id profile_name limit (p ∷ ps) h =
    let of_line = package_is_of application_id profile_name in
    elim (Bool-cases (of_line p)) [
      | inl same ↦
          (let kept : where_list of_line (p ∷ ps) ≡ p ∷ where_list of_line ps = ground arith in
            let (first, rest) = subst (All (λ q. q.generation < limit)) kept h in
            ((λ e. first), bounds-All application_id profile_name limit ps rest))
      | inr other ↦
          (let kept : where_list of_line (p ∷ ps) ≡ where_list of_line ps = ground arith in
            (
              (λ e. absurd (ground arith)),
              bounds-All application_id profile_name limit ps
                  (subst (All (λ q. q.generation < limit)) kept h),
            ))
    ]

-- A new row of an application and a profile whose generation follows on the latest.
IsChained-append :
    (application_id : ℕ) (profile_name : String) (ps : List CertificatePackage)
    (q : CertificatePackage)
    → IsChained ps
    → q.application_id ≡ application_id
    → q.profile_name ≡ profile_name
    → q.generation
      ≡ generation_after
          (first_by later_generation (where_list (package_is_of application_id profile_name) ps))
    → q.generation ≡ generation_next q.supersedes_generation
    → IsChained (ps ++ q ∷ [])
unfolding package_is_of
IsChained-append application_id profile_name ps q chained of_app of_profile next follows =
    let of_line = package_is_of application_id profile_name in
    let limit = generation_after (first_by later_generation (where_list of_line ps)) in
    let bounds =
      bounds-All application_id profile_name limit ps (latest_bounds (where_list of_line ps)) in
    record {
      rises = Rises-append ps q chained.rises (
          All-map _ (Below q) ps (λ p h same. rw next (h (rw (sym of_app, sym of_profile) same)))
            bounds);
      follows = All-append _ ps (q ∷ []) chained.follows (follows, tt);
    }

-- A row that a lifecycle update writes has the line, the generation and what it supersedes.
All-update_rows {κ} :
    (P : CertificatePackage → Type κ) (package_id target : String) (ps : List CertificatePackage)
    → ((p : CertificatePackage) → P p → P (moved target p))
    → All P ps
    → All P (update_rows package_id target ps)
unfolding update_rows
All-update_rows P package_id target [] keeps h = tt
All-update_rows P package_id target (p ∷ ps) keeps (a, h) =
    elim (Bool-cases (p.package_id == package_id)) [
      | inl this ↦ rw this (keeps p a, All-update_rows P package_id target ps keeps h)
      | inr other ↦ rw other (a, All-update_rows P package_id target ps keeps h)
    ]

Rises-update_rows :
    (package_id target : String) (ps : List CertificatePackage)
    → Rises ps
    → Rises (update_rows package_id target ps)
unfolding update_rows moved
Rises-update_rows package_id target [] h = tt
Rises-update_rows package_id target (p ∷ ps) (later, h) =
    let rest = Rises-update_rows package_id target ps h in
    let after = All-update_rows (λ q. Below q p) package_id target ps (λ q b. b) later in
    elim (Bool-cases (p.package_id == package_id)) [
      | inl this ↦ rw this (after, rest)
      | inr other ↦ rw other (after, rest)
    ]

update_packages :
    (package_id lifecycle_state actor : String) (details : Details) (db : Db)
    → ((update_certificate_package_lifecycle package_id lifecycle_state actor details
          db).1.certificate_packages
        ≡ db.certificate_packages)
      ⊎ ((target : String) × ((update_certificate_package_lifecycle package_id lifecycle_state actor
              details db).1.certificate_packages
            ≡ update_rows package_id target db.certificate_packages))
unfolding update_certificate_package_lifecycle insert_package_event
update_packages package_id lifecycle_state actor details db =
    elim (Option-cases (lifecycle_order (upper lifecycle_state))) [
      | inl unknown ↦ inl (ground arith)
      | inr (n, known) ↦ elim (Option-cases (select_package package_id db)) [
        | inl absent ↦ inl (ground arith)
        | inr (p, there) ↦
            inr (next_state (upper lifecycle_state) (upper p.lifecycle_state), ground arith)
      ]
    ]

update-IsChained :
    (package_id lifecycle_state actor : String) (details : Details) (db : Db)
    → IsChained db.certificate_packages
    → IsChained
        (update_certificate_package_lifecycle package_id lifecycle_state actor details
          db).1.certificate_packages
unfolding moved
update-IsChained package_id lifecycle_state actor details db chained =
    elim (update_packages package_id lifecycle_state actor details db) [
      | inl same ↦ subst IsChained (sym same) chained
      | inr (target, changed) ↦ subst IsChained (sym changed) (record {
        rises = Rises-update_rows package_id target db.certificate_packages chained.rises;
        follows =
            All-update_rows (λ p. p.generation ≡ generation_next p.supersedes_generation) package_id
              target db.certificate_packages (λ p h. h) chained.follows;
      })
    ]

follows_latest :
    (previous : Option CertificatePackage)
    → generation_after previous ≡ generation_next (generation_of previous)
follows_latest none = refl
follows_latest (some p) = refl

module _ (env : Environment) (call : Call) where
  packages_before :
      (target : Target) (csr : Csr) (cert : ParsedCertificate) (db : Db)
      → (issued_tables env call target csr cert db).certificate_packages ≡ db.certificate_packages
  unfolding insert_certificate insert_certificate_request update_certificate_request_status audit
  packages_before target csr cert db = ground arith

  run-IsChained :
      (db : Db) (o : Outcome × Db)
      → IsChained db.certificate_packages
      → Run env call db o
      → IsChained o.1.certificate_packages
  unfolding store_package manifest_of insert_certificate_package insert_certificate_request
      insert_package_event update_certificate_request_status audit fail_request
      get_latest_certificate_package_for_application
  run-IsChained db o chained (Run.refused e) = chained
  run-IsChained db o chained (Run.rejects target csr e es admitted invalid) = chained
  run-IsChained db o chained (Run.unsigned target csr code admitted) = chained
  run-IsChained db o chained (Run.unread target csr admitted) = chained
  run-IsChained db o chained
        (Run.packaged target csr pem chain cert row admitted valid parsed there) =
      let before = issued_tables env call target csr cert db in
      IsChained-append target.app.id call.profile_name before.certificate_packages _
        (subst IsChained (sym (packages_before target csr cert db)) chained) refl refl refl
        (follows_latest _)

-- The operations that write packages, one after the other.
pub data Steps (db : Db) : Db → Type 0 where
  done : Steps db db
  issue :
      (env : Environment) (call : Call) (mid : Db)
      → Steps db mid
      → Steps db (issue_certificate_package env call mid).1
  update :
      (package_id lifecycle_state actor : String) (details : Details) (mid : Db)
      → Steps db mid
      → Steps db
          (update_certificate_package_lifecycle package_id lifecycle_state actor details mid).1

-- However calls that issue packages and updates of their states follow on one another, the
-- generations of an application and a profile go up, and each is one above the one it supersedes.
pub Steps-IsChained :
    (db after : Db)
    → IsChained db.certificate_packages
    → Steps db after
    → IsChained after.certificate_packages
Steps-IsChained db after chained done = chained
Steps-IsChained db after chained (issue env call mid steps) =
    run-IsChained env call mid (issue_certificate_package env call mid)
      (Steps-IsChained db mid chained steps) (issue_certificate_package-Run env call mid)
Steps-IsChained db after chained (update package_id lifecycle_state actor details mid steps) =
    update-IsChained package_id lifecycle_state actor details mid
      (Steps-IsChained db mid chained steps)
