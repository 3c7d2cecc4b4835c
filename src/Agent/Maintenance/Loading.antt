-- ===== src/Agent/Maintenance/Loading.antt =====
-- `load_maintenance_policy` of gds-agent/app/main.py: the three lists of the file, merged.
use opcua_implementaion.Prelude.{
  ℕ, String, Bool, Option, none, some, List, [], ◌∷◌, ◌++◌, foldl, ◌==◌, number_eq, string_eq,
  if◌then◌else◌,
}
use opcua_implementaion.Prelude.Text.{strip, lower}
use opcua_implementaion.Prelude.Dict.{Dict, get, put}
use opcua_implementaion.Agent.Maintenance.Entries.{
  ApprovalLevel, Blackout, MaintenancePolicy, Policy, Target, Window, WindowEntry,
  default_target_policy, dual, parse_blackout_entry, parse_window_entry, single,
}

-- The keys that a policy object of the file holds.
pub record PolicyEntry : Type 0 where
  pub maintenance_window_required : Option Bool
  pub approval_level : Option String
  pub emergency_override_allowed : Option Bool
  pub auto_rollback_enabled : Option Bool

abbrev pub or_else : Option Bool → Bool → Bool
or_else none b = b
or_else (some a) b = a

-- An approval level other than the two known ones is passed over.
abbrev pub level_or_else : Option String → ApprovalLevel → ApprovalLevel
level_or_else none level = level
level_or_else (some raw) level =
    let named = lower (strip raw) in
    if named == "single" then single else if named == "dual" then dual else level

unfoldable pub override_policy : PolicyEntry → Policy → Policy
override_policy raw policy = record {
  maintenance_window_required =
      or_else raw.maintenance_window_required policy.maintenance_window_required;
  approval_level = level_or_else raw.approval_level policy.approval_level;
  emergency_override_allowed =
      or_else raw.emergency_override_allowed policy.emergency_override_allowed;
  auto_rollback_enabled = or_else raw.auto_rollback_enabled policy.auto_rollback_enabled;
}

-- `targets.setdefault(target, {...})`
unfoldable pub target_or_default : String → Dict String Target → Target
target_or_default target targets = elim (get target targets) [
  | some found ↦ found
  | none ↦ record { windows = []; blackouts = []; policy = default_target_policy target }
]

unfoldable pub parsed_windows : List WindowEntry → List Window
parsed_windows [] = []
parsed_windows (w ∷ ws) = elim (parse_window_entry w) [
  | none ↦ parsed_windows ws
  | some win ↦ win ∷ parsed_windows ws
]

unfoldable pub parsed_blackouts : List (String × Option ℕ × Option ℕ) → List Blackout
parsed_blackouts [] = []
parsed_blackouts ((name, start_at, end_at) ∷ rest) =
    elim (parse_blackout_entry name start_at end_at) [
      | none ↦ parsed_blackouts rest
      | some b ↦ b ∷ parsed_blackouts rest
    ]

-- One entry of the v1 list `windows`.
unfoldable pub add_window : Dict String Target → String × WindowEntry → Dict String Target
add_window targets (raw, entry) =
    let target = strip raw in
    if target == "" then targets else elim (parse_window_entry entry) [
      | none ↦ targets
      | some win ↦
          (let old = target_or_default target targets in
            put target (record old { windows = old.windows ++ win ∷ [] }) targets)
    ]

-- One entry of the v2 list `targets`.
pub record TargetEntry : Type 0 where
  pub target : String
  pub windows : List WindowEntry
  pub blackouts : List (String × Option ℕ × Option ℕ)
  pub policy : PolicyEntry

unfoldable pub add_target : Dict String Target → TargetEntry → Dict String Target
unfolding parsed_windows parsed_blackouts
add_target targets item =
    let target = strip item.target in
    if target == ""
    then targets
    else (let old = target_or_default target targets in
        put target
          (record {
            windows = old.windows ++ parsed_windows item.windows;
            blackouts = old.blackouts ++ parsed_blackouts item.blackouts;
            policy = override_policy item.policy old.policy;
          })
          targets)

-- One entry of the map `target_policies`.
unfoldable pub add_override : Dict String Target → String × PolicyEntry → Dict String Target
add_override targets (raw, entry) =
    let target = strip raw in
    if target == ""
    then targets
    else (let old = target_or_default target targets in
        put target (record old { policy = override_policy entry old.policy }) targets)

-- The policy file, its objects read.
pub record PolicyFile : Type 0 where
  pub timezone : Option String
  pub blackouts : List (String × Option ℕ × Option ℕ)
  pub windows : List (String × WindowEntry)
  pub targets : List TargetEntry
  pub target_policies : List (String × PolicyEntry)

-- `none` is a file that does not exist.
unfoldable pub load_maintenance_policy : Option PolicyFile → String → MaintenancePolicy
unfolding parsed_blackouts
load_maintenance_policy none default_timezone = record {
  timezone = default_timezone;
  targets = [];
  global_blackouts = [];
}
load_maintenance_policy (some raw) default_timezone =
    let named = strip (elim raw.timezone [ none ↦ default_timezone | some tz ↦ tz ]) in
    record {
      timezone = if named == "" then default_timezone else named;
      targets =
          foldl add_override (foldl add_target (foldl add_window [] raw.windows) raw.targets)
            raw.target_policies;
      global_blackouts = parsed_blackouts raw.blackouts;
    }
