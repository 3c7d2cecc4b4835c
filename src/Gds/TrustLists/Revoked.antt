-- ===== src/Gds/TrustLists/Revoked.antt =====
-- A certificate that is revoked leaves the list that is served.
use opcua_implementaion.Prelude.{
  ℕ, ◌+◌, String, Bool, false, ◌||◌, some, List, [], ◌∷◌, ◌++◌, ◌==◌, string_eq, number_eq,
  where_list, any, All, All-append, ◌≡◌, refl, ◌∙◌, arith, eq_iff, Bool-cases, Option-cases, inl,
  inr, any-append,
}
use opcua_implementaion.Gds.Db.{Db, TrustedCertificate, Application, Certificate, TrustList, Member}
use opcua_implementaion.Gds.TrustLists.Query.{flat_map, contains, any-order_by, same_ids, sorted}
use opcua_implementaion.Gds.TrustLists.Desired.{desired_trustlist_certificate_ids}
use opcua_implementaion.Gds.TrustLists.Publish.{
  trusted, with_application, joined, row_before, latest_trust_list, member_ids, insert_member,
  same_member, insert_members, build_trust_list, ensure_trust_list_current,
  get_latest_trust_list_with_certs, mark_certificate_revoked,
}
use opcua_implementaion.Gds.TrustLists.Live.{desired_IsLive, mark_certificate_revoked-live_in}
use opcua_implementaion.Gds.TrustLists.Members.{IsMember, IsWellFormed, ensure_is_desired}

-- A query's result has a row of this certificate.
unfoldable pub serves : ℕ → List TrustedCertificate → Bool
serves x rows = any (λ (r : TrustedCertificate). r.certificate_id == x) rows

serves-append :
    (x : ℕ) (rs ss : List TrustedCertificate) → serves x (rs ++ ss) ≡ (serves x rs || serves x ss)
unfolding serves
serves-append x rs ss = any-append (λ (r : TrustedCertificate). r.certificate_id == x) rs ss

absent_applications :
    (x : ℕ) (c : Certificate) (apps : List Application)
    → (c.id == x) ≡ false
    → serves x (with_application c apps) ≡ false
unfolding serves with_application trusted
absent_applications x c [] h = refl
absent_applications x c (a ∷ apps) h = elim (Bool-cases (a.id == c.application_id)) [
  | inl met ↦ rw met (ground (arith, absent_applications x c apps h))
  | inr unmet ↦ rw unmet (absent_applications x c apps h)
]

absent_certificates :
    (x y : ℕ) (apps : List Application) (cs : List Certificate)
    → (y == x) ≡ false
    → serves x (
        flat_map
          (λ (c : Certificate). with_application c apps)
          (where_list (λ (c : Certificate). c.id == y) cs))
      ≡ false
unfolding serves
absent_certificates x y apps [] h = refl
absent_certificates x y apps (c ∷ cs) h = elim (Bool-cases (c.id == y)) [
  | inl met ↦ rw met (
      serves-append x (with_application c apps) _
      ∙ (let here = absent_applications x c apps (ground arith) in
          let rest = absent_certificates x y apps cs h in rw (here, rest) refl))
  | inr unmet ↦ rw unmet (absent_certificates x y apps cs h)
]

absent_members :
    (x l next : ℕ) (db : Db) (rows : List Member)
    → All (IsMember next) rows
    → contains x (member_ids l rows) ≡ false
    → serves x (flat_map (joined db) (where_list (λ (m : Member). m.trust_list_id == l) rows))
      ≡ false
unfolding contains member_ids joined serves
absent_members x l next db [] wf h = refl
absent_members x l next db (m ∷ rows) (is, wf) h = elim (Bool-cases (m.trust_list_id == l)) [
  | inl met ↦
      (let kind = (eq_iff m.member_type "application").1 is.of_kind in
        rw met (
          serves-append x (joined db m) _
          ∙ (let here =
                absent_certificates x m.certificate_id db.applications db.certificates
                  (ground arith) in
              let rest = absent_members x l next db rows wf (ground arith) in
              rw (here, rest) refl)))
  | inr unmet ↦ rw unmet (absent_members x l next db rows wf (ground arith))
]

IsMember-suc :
    (next : ℕ) (rows : List Member) → All (IsMember next) rows → All (IsMember (next + 1)) rows
IsMember-suc next [] wf = tt
IsMember-suc next (m ∷ rows) (is, wf) = (
  record { of_list = omega (arith, is.of_list); of_kind = is.of_kind },
  IsMember-suc next rows wf,
)

All-insert_member :
    (next : ℕ) (m : Member) (rows : List Member)
    → All (IsMember next) rows
    → IsMember next m
    → All (IsMember next) (insert_member m rows)
unfolding insert_member
All-insert_member next m rows wf is = elim (Bool-cases (any (same_member m) rows)) [
  | inl met ↦ rw met wf
  | inr unmet ↦ rw unmet (All-append (IsMember next) rows (m ∷ []) wf (is, tt))
]

All-insert_members :
    (l : ℕ) (ids : List ℕ) (rows : List Member)
    → All (IsMember (l + 1)) rows
    → All (IsMember (l + 1)) (insert_members l ids rows)
unfolding insert_members
All-insert_members l [] rows wf = wf
All-insert_members l (x ∷ ids) rows wf =
    All-insert_members l ids _
      (All-insert_member (l + 1) _ rows wf (record { of_list = omega arith; of_kind = refl }))

marked_IsWellFormed :
    (x revoked_at : ℕ) (db : Db)
    → IsWellFormed db
    → IsWellFormed (mark_certificate_revoked x revoked_at db)
unfolding mark_certificate_revoked
marked_IsWellFormed x revoked_at db wf = wf

module _ (collates_before : String → String → Bool) (now : ℕ) where
  build_IsWellFormed :
      (zone role : String) (db : Db)
      → IsWellFormed db
      → IsWellFormed (build_trust_list collates_before now zone role db).1
  unfolding build_trust_list
  build_IsWellFormed zone role db wf =
      All-insert_members db.next_trust_list _ _ (IsMember-suc db.next_trust_list _ wf)

  -- Bringing a list up to date keeps the tables well formed.
  pub ensure_IsWellFormed :
      (zone role : String) (db : Db)
      → IsWellFormed db
      → IsWellFormed (ensure_trust_list_current collates_before now zone role db).1
  unfolding ensure_trust_list_current
  ensure_IsWellFormed zone role db wf =
      let built = build_IsWellFormed zone role db wf in
      elim (Option-cases (latest_trust_list zone role db)) [
        | inl absent ↦ rw (absent, ensure_trust_list_current) built
        | inr (l, found) ↦
            elim (Bool-cases (
              same_ids (sorted (member_ids l.id db.trust_list_members))
                (sorted (desired_trustlist_certificate_ids collates_before zone role db)))) [
                  | inl same ↦
                      rw (found, ensure_trust_list_current)
                        (rw (same, ensure_trust_list_current) wf)
                  | inr other ↦
                      rw (found, ensure_trust_list_current)
                        (rw (other, ensure_trust_list_current) built)
                ]
      ]

  served_rows :
      (x : ℕ) (zone role : String) (db : Db) (l : TrustList)
      → IsWellFormed db
      → latest_trust_list zone role db ≡ some l
      → contains x (member_ids l.id db.trust_list_members) ≡ false
      → serves x (get_latest_trust_list_with_certs collates_before zone role db).1 ≡ false
  unfolding get_latest_trust_list_with_certs serves
  served_rows x zone role db l wf latest h =
      rw (latest, get_latest_trust_list_with_certs)
        (any-order_by (row_before collates_before)
            (λ (r : TrustedCertificate). r.certificate_id == x)
            (flat_map (joined db)
              (where_list (λ (m : Member). m.trust_list_id == l.id) db.trust_list_members))
          ∙ absent_members x l.id db.next_trust_list db db.trust_list_members wf h)

  not_desired :
      (x revoked_at : ℕ) (zone role : String) (db : Db)
      → contains x (
          desired_trustlist_certificate_ids collates_before zone role
            (mark_certificate_revoked x revoked_at db))
        ≡ false
  not_desired x revoked_at zone role db =
      let marked = mark_certificate_revoked x revoked_at db in
      elim (Bool-cases
        (contains x (desired_trustlist_certificate_ids collates_before zone role marked))) [
          | inl there ↦
              (let live = desired_IsLive collates_before x zone role marked there in
                let gone = mark_certificate_revoked-live_in x revoked_at x db in ground arith)
          | inr absent ↦ absent
        ]

  -- In well-formed tables, once a certificate has been marked as revoked and the list of a zone and a
  -- role has been brought up to date, the rows that are served for them have none of that certificate.
  pub revoked_is_not_served :
      (certificate_id revoked_at : ℕ) (zone role : String) (db : Db)
      → IsWellFormed db
      → let marked = mark_certificate_revoked certificate_id revoked_at db in
        let (l, db') = ensure_trust_list_current collates_before now zone role marked in
        serves certificate_id (get_latest_trust_list_with_certs collates_before zone role db').1
        ≡ false
  revoked_is_not_served certificate_id revoked_at zone role db wf =
      let marked = mark_certificate_revoked certificate_id revoked_at db in
      let kept =
        ensure_IsWellFormed zone role marked
          (marked_IsWellFormed certificate_id revoked_at db wf) in
      let (latest, members) =
        ensure_is_desired collates_before now zone role marked
          (marked_IsWellFormed certificate_id revoked_at db wf) in
      served_rows certificate_id zone role _ _ kept latest
        (members certificate_id ∙ not_desired certificate_id revoked_at zone role db)
