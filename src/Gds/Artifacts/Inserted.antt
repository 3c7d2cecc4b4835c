-- ===== src/Gds/Artifacts/Inserted.antt =====
-- The row that `insert_trust_artifact` of gds/app/db.py adds is the latest of its zone and role.
use opcua_implementaion.Prelude.{
  ℕ, ◌≤◌, ◌<◌, max, String, true, some, List, [], ◌∷◌, ◌++◌, string_eq, number_eq, where_list, ◌≡◌,
  inl, inr, refl, sym, arith, Bool-cases, eq_iff,
}
use opcua_implementaion.Gds.Db.{Db, TrustArtifact}
use opcua_implementaion.Gds.TrustLists.Query.{best, first_by, first_by-append, where_list-append}
use opcua_implementaion.Gds.Artifacts.Signing.{SignedArtifact}
use opcua_implementaion.Gds.Artifacts.Regenerate.{
  artifact_is_of, later_revision, get_latest_trust_artifact, max_revision, insert_trust_artifact,
  revision_of,
}

best_revision :
    (a : TrustArtifact) (rows : List TrustArtifact)
    → (best later_revision a rows).artifact_revision ≡ max a.artifact_revision (max_revision rows)
unfolding later_revision max_revision
best_revision a [] = omega arith
best_revision a (b ∷ rows) = elim (Bool-cases (later_revision b a)) [
  | inl met ↦
      (let later : a.artifact_revision < b.artifact_revision = ground arith in
        rw (met, best) (omega (arith, best_revision b rows)))
  | inr unmet ↦
      (let earlier : b.artifact_revision ≤ a.artifact_revision = ground arith in
        rw (unmet, best) (omega (arith, best_revision a rows)))
]

pub latest_revision :
    (rows : List TrustArtifact) → max_revision rows ≡ revision_of (first_by later_revision rows)
unfolding max_revision
latest_revision [] = refl
latest_revision (a ∷ rows) = sym (best_revision a rows)

of_zone_role :
    (zone role : String) (row : TrustArtifact)
    → row.zone ≡ zone
    → row.role ≡ role
    → artifact_is_of zone role row ≡ true
unfolding artifact_is_of
of_zone_role zone role row z r = ground (arith, eq_iff row.zone zone, eq_iff row.role role)

latest-append :
    (zone role : String) (row : TrustArtifact) (rows : List TrustArtifact)
    → artifact_is_of zone role row ≡ true
    → max_revision (where_list (artifact_is_of zone role) rows) < row.artifact_revision
    → first_by later_revision (where_list (artifact_is_of zone role) (rows ++ row ∷ [])) ≡ some row
unfolding later_revision
latest-append zone role row rows ours above =
    let of_row : where_list (artifact_is_of zone role) (row ∷ []) ≡ row ∷ [] = rw ours refl in
    rw (where_list-append (artifact_is_of zone role) rows (row ∷ []), of_row)
      (first_by-append later_revision row (where_list (artifact_is_of zone role) rows) (λ y e.
        let last = latest_revision (where_list (artifact_is_of zone role) rows) in
        let low : revision_of (some y) < row.artifact_revision = ground arith in ground arith))

pub inserted_is_latest :
    (zone role : String) (version : ℕ) (signed : SignedArtifact) (reason : String) (db : Db)
    → get_latest_trust_artifact zone role
        (insert_trust_artifact zone role version signed reason db).1
      ≡ some (insert_trust_artifact zone role version signed reason db).0
unfolding get_latest_trust_artifact insert_trust_artifact
inserted_is_latest zone role version signed reason db =
    let row = (insert_trust_artifact zone role version signed reason db).0 in
    latest-append zone role row db.trust_artifacts (of_zone_role zone role row refl refl)
      (omega arith)
