-- ===== src/Agent/Maintenance/Tests.antt =====
-- The maintenance policy at concrete inputs.
use opcua_implementaion.Prelude.{true, false, none, some, [], ◌∷◌, any, All, ◌≡◌, ◌↔◌, refl, arith}
use opcua_implementaion.Prelude.Text.{strip, lower, split}
use opcua_implementaion.Prelude.Dict.{get}
use opcua_implementaion.Agent.Environment.{int_text}
use opcua_implementaion.Agent.Maintenance.Entries.{
  Clock, MaintenancePolicy, weekly_entry, weekly, parse_time_hhmm, parse_weekday, weekdays,
  parse_window_entry, sorted_days, default_target_policy,
}
use opcua_implementaion.Agent.Maintenance.Loading.{
  PolicyEntry, PolicyFile, target_or_default, load_maintenance_policy,
}
use opcua_implementaion.Agent.Maintenance.Status.{
  window_step, window_loop, active_blackout, maintenance_window_status, open_window, closed,
}
use opcua_implementaion.Agent.Maintenance.Windows.{covers_on_weekday, in_force, open_window_iff}
use opcua_implementaion.Agent.Maintenance.Policies.Loaded.{
  IsWellFormed, IsOrdered, load_maintenance_policy-IsWellFormed,
}
use opcua_implementaion.Agent.Maintenance.Policies.Unnamed.{unnamed_target_policy}

parse_weekend :
    parse_window_entry (weekly_entry "22:30" " 02:00 " ("sun" ∷ "Saturday" ∷ "sun" ∷ "xyz" ∷ []))
    ≡ some (weekly 1350 120 (5 ∷ 6 ∷ []))
unfolding parse_window_entry parse_time_hhmm weekdays parse_weekday sorted_days strip lower split
    int_text
parse_weekend = refl

abbrev no_overrides : PolicyEntry
no_overrides = record {
  maintenance_window_required = none;
  approval_level = none;
  emergency_override_allowed = none;
  auto_rollback_enabled = none;
}

abbrev file : PolicyFile
file = record {
  timezone = none;
  blackouts = ("freeze", some 1000, some 2000) ∷ [];
  windows = ("opcua-server", weekly_entry "22:30" "02:00" ("sat" ∷ [])) ∷ [];
  targets =
      record {
        target = "fuxa";
        windows = weekly_entry "22:30" "02:00" ("sat" ∷ []) ∷ [];
        blackouts = [];
        policy = no_overrides;
      }
      ∷ [];
  target_policies = [];
}

load_maintenance_policy-IsWellFormed_example :
    let policy = load_maintenance_policy (some file) "UTC" in
    IsWellFormed (target_or_default "fuxa" policy.targets) × All IsOrdered policy.global_blackouts
load_maintenance_policy-IsWellFormed_example =
    load_maintenance_policy-IsWellFormed (some file) "UTC" "fuxa"

unnamed_target_policy_example :
    (target_or_default "opcua-server" (load_maintenance_policy (some file) "UTC").targets).policy
    ≡ default_target_policy "opcua-server"
unfolding strip
unnamed_target_policy_example = unnamed_target_policy file "UTC" "opcua-server" (refl, refl)

abbrev night : MaintenancePolicy
night = record {
  timezone = "UTC";
  targets =
      (
        "fuxa",
        record {
          windows = weekly 1350 120 (5 ∷ []) ∷ [];
          blackouts = [];
          policy = default_target_policy "fuxa";
        },
      )
      ∷ [];
  global_blackouts = record { name = "freeze"; start_at = 1000; end_at = 2000 } ∷ [];
}

abbrev late : Clock
late = record { now_utc = 5000; zone_known = true; weekday = 5; minute = 1439 }

open_window_iff_example : ((maintenance_window_status late "fuxa" night).status ≡ open_window) ↔ (
    (any (in_force late) night.global_blackouts ≡ false)
    × (any (in_force late) (target_or_default "fuxa" night.targets).blackouts ≡ false)
    × (any (covers_on_weekday late) (target_or_default "fuxa" night.targets).windows ≡ true))
unfolding target_or_default get
open_window_iff_example =
    open_window_iff late "fuxa" night (omega arith) ((omega arith, omega arith), tt)

late_open : (maintenance_window_status late "fuxa" night).status ≡ open_window
unfolding target_or_default get covers_on_weekday
late_open = open_window_iff_example.1 (refl, refl, refl)

-- The hours after midnight belong to the day that the window names, and not to the day after it.
saturday_morning_open :
    (maintenance_window_status (record late { minute = 60 }) "fuxa" night).status ≡ open_window
unfolding maintenance_window_status window_loop window_step active_blackout target_or_default get
saturday_morning_open = refl

sunday_morning_closed :
    (maintenance_window_status (record late { weekday = 6; minute = 60 }) "fuxa" night).status
    ≡ closed
unfolding maintenance_window_status window_loop window_step active_blackout target_or_default get
sunday_morning_closed = refl
