-- ===== src/Agent/Maintenance/Policies/Unnamed.antt =====
-- The policy of a target that the file does not name.
use opcua_implementaion.Prelude.{
  String, true, false, some, List, [], ◌∷◌, foldl, any, ◌==◌, string_eq, number_eq, ◌≡◌, refl,
  arith, eq_iff, Option-cases, inl, inr, Bool-cases,
}
use opcua_implementaion.Prelude.Text.{strip}
use opcua_implementaion.Prelude.Dict.{Dict, get, put, get-put}
use opcua_implementaion.Agent.Maintenance.Entries.{
  Target, WindowEntry, parse_window_entry, default_target_policy,
}
use opcua_implementaion.Agent.Maintenance.Loading.{
  TargetEntry, PolicyEntry, PolicyFile, target_or_default, add_window, add_target, add_override,
  load_maintenance_policy,
}
use opcua_implementaion.Agent.Maintenance.Policies.Loaded.{foldl-keeps}

-- No entry of the lists of targets and of overrides names the target.
abbrev pub IsUnnamed : String → PolicyFile → Type 0
IsUnnamed target file =
    (any (λ (t : TargetEntry). strip t.target == target) file.targets ≡ false)
    × (any (λ (o : String × PolicyEntry). strip o.0 == target) file.target_policies ≡ false)

-- A dict under which a target still has the default policy.
abbrev pub HasDefault : String → Dict String Target → Type 0
HasDefault target targets = (target_or_default target targets).policy ≡ default_target_policy target

pub put-HasDefault :
    (target k : String) (t : Target) (targets : Dict String Target)
    → HasDefault target targets
    → (k == target ≡ true → t.policy ≡ default_target_policy target)
    → HasDefault target (put k t targets)
unfolding target_or_default
put-HasDefault target k t targets h same = ground (arith, get-put k target t targets)

pub add_window-HasDefault :
    (target : String) (targets : Dict String Target) (item : String × WindowEntry)
    → HasDefault target targets
    → HasDefault target (add_window targets item)
unfolding add_window
add_window-HasDefault target targets (raw, entry) h = elim (Bool-cases (strip raw == "")) [
  | inl empty ↦ rw empty h
  | inr named ↦ rw named (elim (Option-cases (parse_window_entry entry)) [
    | inl refused ↦ rw refused h
    | inr (win, read) ↦ rw read (
        put-HasDefault target (strip raw) _ targets h
          (λ same. rw ((eq_iff (strip raw) target).0 same) h))
  ])
]

pub add_target-HasDefault :
    (target : String) (items : List TargetEntry) (targets : Dict String Target)
    → HasDefault target targets
    → any (λ (t : TargetEntry). strip t.target == target) items ≡ false
    → HasDefault target (foldl add_target targets items)
unfolding add_target
add_target-HasDefault target [] targets h unnamed = h
add_target-HasDefault target (item ∷ items) targets h unnamed =
    add_target-HasDefault target items (add_target targets item)
      (elim (Bool-cases (strip item.target == "")) [
        | inl empty ↦ rw empty h
        | inr named ↦
            rw named (put-HasDefault target (strip item.target) _ targets h (λ same. ground arith))
      ])
      (ground arith)

pub add_override-HasDefault :
    (target : String) (items : List (String × PolicyEntry)) (targets : Dict String Target)
    → HasDefault target targets
    → any (λ (o : String × PolicyEntry). strip o.0 == target) items ≡ false
    → HasDefault target (foldl add_override targets items)
unfolding add_override
add_override-HasDefault target [] targets h unnamed = h
add_override-HasDefault target ((raw, entry) ∷ items) targets h unnamed =
    add_override-HasDefault target items (add_override targets (raw, entry))
      (elim (Bool-cases (strip raw == "")) [
        | inl empty ↦ rw empty h
        | inr named ↦
            rw named (put-HasDefault target (strip raw) _ targets h (λ same. ground arith))
      ])
      (ground arith)

-- A target that no entry of the file's targets and overrides names keeps the default policy of its
-- name, also where the v1 list of windows names it.
pub unnamed_target_policy :
    (file : PolicyFile) (default_timezone target : String)
    → IsUnnamed target file
    → (target_or_default target
        (load_maintenance_policy (some file) default_timezone).targets).policy
      ≡ default_target_policy target
unfolding load_maintenance_policy target_or_default get
unnamed_target_policy file tz target (not_target, not_override) =
    add_override-HasDefault target file.target_policies _
      (add_target-HasDefault target file.targets _
        (foldl-keeps (HasDefault target) add_window (add_window-HasDefault target) file.windows []
          refl)
        not_target)
      not_override
