-- ===== src/Gds/TrustLists/Live.antt =====
-- The certificates that a trust list may hold are live.
use opcua_implementaion.Prelude.{
  ℕ, Bool, true, false, ◌&&◌, ◌||◌, some, List, [], ◌∷◌, ◌==◌, number_eq, where_list, All-append,
  All, if◌then◌else◌, ◌≡◌, arith, eq_iff, String, Bool-cases, Option-cases, inl, inr, map, subst,
}
use opcua_implementaion.Gds.Db.{Db, Application, Certificate, CertificatePackage}
use opcua_implementaion.Gds.TrustLists.Query.{first_by, best, flat_map, contains}
use opcua_implementaion.Gds.TrustLists.Desired.{
  is_live, Candidate, candidate_before, certificate_before, refers, with_certificate,
  is_active_package, candidates, active_certificate_id_for_application, collect_ids,
  desired_trustlist_certificate_ids,
}
use opcua_implementaion.Gds.TrustLists.Publish.{mark_certificate_revoked, revoked_row}

-- Some row with this id is active and not revoked.
unfoldable pub live_in : ℕ → List Certificate → Bool
live_in n [] = false
live_in n (c ∷ cs) = (c.id == n && is_live c) || live_in n cs

module _ {ℓ κ} {A : Type ℓ} (P : A → Type κ) where
  best-All : (before : A → A → Bool) (x : A) (ys : List A) → P x → All P ys → P (best before x ys)
  best-All before x [] h a = h
  best-All before x (y ∷ ys) h (k, a) = elim (Bool-cases (before y x)) [
    | inl met ↦ rw met (best-All before y ys k a)
    | inr unmet ↦ rw unmet (best-All before x ys h a)
  ]

  first_by-All :
      (before : A → A → Bool) (xs : List A) {y : A} → All P xs → first_by before xs ≡ some y → P y
  first_by-All before [] a e = absurd (ground arith)
  first_by-All before (x ∷ xs) {y} (h, a) e =
      let same : best before x xs ≡ y = ground arith in subst P same (best-All before x xs h a)

flat_map-All {ℓ κ} :
    {A B : Type ℓ} (P : B → Type κ) (f : A → List B) (xs : List A)
    → ((x : A) → All P (f x))
    → All P (flat_map f xs)
flat_map-All P f [] h = tt
flat_map-All P f (x ∷ xs) h = All-append P (f x) (flat_map f xs) (h x) (flat_map-All P f xs h)

abbrev Within : List Certificate → List Certificate → Type 0
Within cs all = (n : ℕ) → live_in n cs ≡ true → live_in n all ≡ true

Within-tail : (c : Certificate) (cs all : List Certificate) → Within (c ∷ cs) all → Within cs all
unfolding live_in
Within-tail c cs all w n h = w n (ground arith)

Within-head :
    (c : Certificate) (cs all : List Certificate)
    → Within (c ∷ cs) all
    → is_live c ≡ true
    → live_in c.id all ≡ true
unfolding live_in
Within-head c cs all w live = w c.id (ground arith)

with_certificate-live :
    (p : CertificatePackage) (cs all : List Certificate)
    → Within cs all
    → All (λ (x : Candidate). live_in x.1.id all ≡ true) (with_certificate p cs)
unfolding with_certificate
with_certificate-live p [] all w = tt
with_certificate-live p (c ∷ cs) all w =
    let rest = with_certificate-live p cs all (Within-tail c cs all w) in
    elim (Bool-cases (refers p.certificate_id c.id && is_live c)) [
      | inl met ↦ rw met (Within-head c cs all w (ground arith), rest)
      | inr unmet ↦ rw unmet rest
    ]

own-live :
    (application_id : ℕ) (cs all : List Certificate)
    → Within cs all
    → All
        (λ (c : Certificate). live_in c.id all ≡ true)
        (where_list (λ c. c.application_id == application_id && is_live c) cs)
own-live application_id [] all w = tt
own-live application_id (c ∷ cs) all w =
    let rest = own-live application_id cs all (Within-tail c cs all w) in
    elim (Bool-cases (c.application_id == application_id && is_live c)) [
      | inl met ↦ rw met (Within-head c cs all w (ground arith), rest)
      | inr unmet ↦ rw unmet rest
    ]

active-live :
    (application_id : ℕ) (db : Db) {n : ℕ}
    → active_certificate_id_for_application application_id db ≡ some n
    → live_in n db.certificates ≡ true
unfolding active_certificate_id_for_application candidates
active-live application_id db {n} e =
    let w : Within db.certificates db.certificates = λ m h. h in
    let of_package =
      flat_map-All (λ (x : Candidate). live_in x.1.id db.certificates ≡ true)
        (λ p. with_certificate p db.certificates)
        (where_list (is_active_package application_id) db.certificate_packages)
        (λ p. with_certificate-live p db.certificates db.certificates w) in
    let own = own-live application_id db.certificates db.certificates w in
    elim (Option-cases (first_by candidate_before (candidates application_id db))) [
      | inr ((p, c), found) ↦
          (let one =
              first_by-All (λ (x : Candidate). live_in x.1.id db.certificates ≡ true)
                candidate_before (candidates application_id db) of_package found in
            ground arith)
      | inl no_package ↦
          (elim (Option-cases (
            first_by certificate_before (
              where_list (λ c. c.application_id == application_id && is_live c) db.certificates))) [
                | inr (c, found) ↦
                    (let one =
                        first_by-All (λ (x : Certificate). live_in x.id db.certificates ≡ true)
                          certificate_before
                          (where_list (λ c. c.application_id == application_id && is_live c)
                            db.certificates)
                          own found in
                      ground arith)
                | inl no_own ↦ absurd (ground arith)
              ])
    ]

collect_ids-live :
    (x : ℕ) (rows : List Application) (db : Db)
    → contains x (collect_ids rows db) ≡ true
    → live_in x db.certificates ≡ true
unfolding contains collect_ids
collect_ids-live x [] db h = absurd (ground arith)
collect_ids-live x (a ∷ rows) db h =
    elim (Option-cases (active_certificate_id_for_application a.id db)) [
      | inl gone ↦ collect_ids-live x rows db (ground arith)
      | inr (n, found) ↦
          (let live = active-live a.id db found in
            elim (Bool-cases (n == x)) [
              | inl same ↦ ground arith
              | inr other ↦ collect_ids-live x rows db (ground arith)
            ])
    ]

-- Each certificate that a trust list is to hold has a row that is active and not revoked.
pub desired_IsLive :
    (collates_before : String → String → Bool) (x : ℕ) (zone role : String) (db : Db)
    → contains x (desired_trustlist_certificate_ids collates_before zone role db) ≡ true
    → live_in x db.certificates ≡ true
unfolding desired_trustlist_certificate_ids
desired_IsLive collates_before x zone role db h = collect_ids-live x _ db h

revoked-live :
    (id now x : ℕ) (cs : List Certificate)
    → live_in x (map (λ (c : Certificate). if c.id == id then revoked_row now c else c) cs)
      ≡ (if x == id then false else live_in x cs)
unfolding live_in is_live revoked_row
revoked-live id now x [] = ground arith
revoked-live id now x (c ∷ cs) = elim (Bool-cases (c.id == id)) [
  | inl met ↦ rw met (ground (arith, revoked-live id now x cs, eq_iff "revoked" "active"))
  | inr unmet ↦ rw unmet (ground (arith, revoked-live id now x cs))
]

-- A revocation takes its certificate, and no other, out of the live ones.
pub mark_certificate_revoked-live_in :
    (id now x : ℕ) (db : Db)
    → live_in x (mark_certificate_revoked id now db).certificates
      ≡ (if x == id then false else live_in x db.certificates)
unfolding mark_certificate_revoked
mark_certificate_revoked-live_in id now x db = revoked-live id now x db.certificates
