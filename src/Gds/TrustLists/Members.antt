-- ===== src/Gds/TrustLists/Members.antt =====
-- What a published list holds, and that the list published last is the one that is served.
use opcua_implementaion.Prelude.{
  ℕ, ◌<◌, ◌≤◌, max, String, Bool, true, false, ◌||◌, some, List, [], ◌∷◌, ◌++◌, ◌==◌, string_eq,
  number_eq, where_list, any, All, ◌≡◌, refl, arith, eq_iff, Bool-cases, Option-cases, inl, inr,
}
use opcua_implementaion.Gds.Db.{Db, TrustList, Member}
use opcua_implementaion.Gds.TrustLists.Query.{
  best, first_by, first_by-append, where_list-append, contains, contains-sorted, sorted, same_ids,
  same_ids_equal,
}
use opcua_implementaion.Gds.TrustLists.Desired.{desired_trustlist_certificate_ids}
use opcua_implementaion.Gds.TrustLists.Publish.{
  is_of, max_version, newer, latest_trust_list, same_member, insert_member, insert_members,
  member_ids, build_trust_list, ensure_trust_list_current,
}

-- The tables that the service leaves: a member belongs to a list that exists, and is an application.
pub record IsMember (next : ℕ) (m : Member) : Type 0 where
  pub of_list : m.trust_list_id < next
  pub of_kind : m.member_type ≡ "application"

abbrev pub IsWellFormed : Db → Type 0
IsWellFormed db = All (IsMember db.next_trust_list) db.trust_list_members

member_of : ℕ → ℕ → Member
member_of l x = record { trust_list_id = l; certificate_id = x; member_type = "application" }

has-same_member :
    (l x : ℕ) (rows : List Member)
    → any
        (same_member
          (record { trust_list_id = l; certificate_id = x; member_type = "application" }))
        rows
      ≡ contains x (member_ids l rows)
unfolding same_member contains member_ids
has-same_member l x [] = refl
has-same_member l x (m ∷ rows) = ground (
  arith,
  has-same_member l x rows,
  eq_iff m.member_type "application",
  eq_iff "application" m.member_type,
)

member_ids-append :
    (l x y : ℕ) (rows : List Member)
    → contains x (
        member_ids l (
          rows
          ++ record { trust_list_id = l; certificate_id = y; member_type = "application" } ∷ []))
      ≡ (contains x (member_ids l rows) || y == x)
unfolding contains member_ids
member_ids-append l x y [] = ground (arith, eq_iff "application" "application")
member_ids-append l x y (m ∷ rows) = ground (arith, member_ids-append l x y rows)

contains-insert_member :
    (l x y : ℕ) (rows : List Member)
    → contains x (
        member_ids l (
          insert_member
            (record { trust_list_id = l; certificate_id = y; member_type = "application" })
            rows))
      ≡ (contains x (member_ids l rows) || y == x)
unfolding insert_member
contains-insert_member l x y rows = elim (Bool-cases (contains y (member_ids l rows))) [
  | inl there ↦ elim (Bool-cases (y == x)) [
    | inl same ↦ ground (arith, has-same_member l y rows)
    | inr other ↦ ground (arith, has-same_member l y rows)
  ]
  | inr fresh ↦ ground (arith, has-same_member l y rows, member_ids-append l x y rows)
]

contains-insert_members :
    (l x : ℕ) (ids : List ℕ) (rows : List Member)
    → contains x (member_ids l (insert_members l ids rows))
      ≡ (contains x (member_ids l rows) || contains x ids)
unfolding insert_members contains
contains-insert_members l x [] rows = ground arith
contains-insert_members l x (y ∷ ids) rows = ground (
  arith,
  contains-insert_members l x ids (
      insert_member (record { trust_list_id = l; certificate_id = y; member_type = "application" })
        rows),
  contains-insert_member l x y rows,
)

fresh_list :
    (next x : ℕ) (rows : List Member)
    → All (IsMember next) rows
    → contains x (member_ids next rows) ≡ false
unfolding contains member_ids
fresh_list next x [] a = refl
fresh_list next x (m ∷ rows) (h, a) =
    let below = h.of_list in ground (arith, fresh_list next x rows a)

best_version :
    (l : TrustList) (ls : List TrustList)
    → (best newer l ls).version ≤ max l.version (max_version ls)
unfolding newer max_version
best_version l [] = omega arith
best_version l (m ∷ ls) = elim (Bool-cases (newer m l)) [
  | inl met ↦ rw (met, best) (omega (arith, best_version m ls))
  | inr unmet ↦ rw (unmet, best) (omega (arith, best_version l ls))
]

latest_version :
    (ls : List TrustList) (l : TrustList) → first_by newer ls ≡ some l → l.version ≤ max_version ls
unfolding max_version
latest_version [] l e = absurd (ground arith)
latest_version (m ∷ ls) l e = let h = best_version m ls in ground arith

published : (z r : String) (l : TrustList) → l.zone ≡ z → l.role ≡ r → is_of z r l ≡ true
unfolding is_of
published z r l hz hr = ground (arith, eq_iff l.zone z, eq_iff l.role r)

latest-append :
    (zone role : String) (l : TrustList) (ls : List TrustList)
    → is_of zone role l ≡ true
    → max_version (where_list (is_of zone role) ls) < l.version
    → first_by newer (where_list (is_of zone role) (ls ++ l ∷ [])) ≡ some l
unfolding newer
latest-append zone role l ls ours above =
    let of_list : where_list (is_of zone role) (l ∷ []) ≡ l ∷ [] = rw ours refl in
    rw (where_list-append (is_of zone role) ls (l ∷ []), of_list)
      (first_by-append newer l (where_list (is_of zone role) ls)
        (λ y e. let low = latest_version (where_list (is_of zone role) ls) y e in ground arith))

same_members :
    (x : ℕ) (xs ys : List ℕ)
    → same_ids (sorted xs) (sorted ys) ≡ true
    → contains x xs ≡ contains x ys
same_members x xs ys same =
    let one = same_ids_equal (sorted xs) (sorted ys) same in
    ground (arith, contains-sorted x xs, contains-sorted x ys)

module _ (collates_before : String → String → Bool) (now : ℕ) where
  -- The list that is published is the latest of its zone and role from then on, and its version is
  -- above that of the one before.
  pub build_is_latest :
      (zone role : String) (db : Db)
      → let (l, db') = build_trust_list collates_before now zone role db in
        (latest_trust_list zone role db' ≡ some l)
        × ((k : TrustList) → latest_trust_list zone role db ≡ some k → k.version < l.version)
  unfolding build_trust_list latest_trust_list
  build_is_latest zone role db = (
    latest-append zone role _ db.trust_lists (published zone role _ refl refl) (omega arith),
    λ k e. omega (arith, latest_version (where_list (is_of zone role) db.trust_lists) k e),
  )

  build_members :
      (zone role : String) (db : Db) (x : ℕ)
      → IsWellFormed db
      → let (l, db') = build_trust_list collates_before now zone role db in
        contains x (member_ids l.id db'.trust_list_members)
        ≡ contains x (desired_trustlist_certificate_ids collates_before zone role db)
  unfolding build_trust_list
  build_members zone role db x wf =
      let fresh = fresh_list db.next_trust_list x db.trust_list_members wf in
      let built =
        contains-insert_members db.next_trust_list x
          (desired_trustlist_certificate_ids collates_before zone role db) db.trust_list_members in
      rw (built, fresh) refl

  -- In well-formed tables, the list that is current afterwards is the one that is served, and a
  -- certificate is a member of it exactly if it was to be one.
  pub ensure_is_desired :
      (zone role : String) (db : Db)
      → IsWellFormed db
      → let (l, db') = ensure_trust_list_current collates_before now zone role db in
        (latest_trust_list zone role db' ≡ some l)
        × ((x : ℕ)
            → contains x (member_ids l.id db'.trust_list_members)
              ≡ contains x (desired_trustlist_certificate_ids collates_before zone role db))
  unfolding ensure_trust_list_current
  ensure_is_desired zone role db wf = elim (Option-cases (latest_trust_list zone role db)) [
    | inl absent ↦
        rw (absent, ensure_trust_list_current)
          ((build_is_latest zone role db).0, λ x. build_members zone role db x wf)
    | inr (l, found) ↦
        elim (Bool-cases (
          same_ids (sorted (member_ids l.id db.trust_list_members))
            (sorted (desired_trustlist_certificate_ids collates_before zone role db)))) [
              | inl same ↦
                  rw (found, ensure_trust_list_current)
                    (rw (same, ensure_trust_list_current) (found, λ x. same_members x _ _ same))
              | inr other ↦
                  rw (found, ensure_trust_list_current)
                    (rw (other, ensure_trust_list_current)
                      ((build_is_latest zone role db).0, λ x. build_members zone role db x wf))
            ]
  ]
