-- ===== src/Agent/Maintenance/Status.antt =====
-- `maintenance_window_status` of gds-agent/app/main.py.
use opcua_implementaion.Prelude.{
  String, Bool, true, false, ◌&&◌, ◌||◌, Option, none, some, List, [], ◌∷◌, ◌++◌, leb, any, ◌==◌,
  number_eq, string_eq, if◌then◌else◌,
}
use opcua_implementaion.Agent.Maintenance.Entries.{
  Blackout, Clock, MaintenancePolicy, Policy, Window, dated, weekly,
}
use opcua_implementaion.Agent.Maintenance.Loading.{target_or_default}

-- The body of the loop over the windows, at one window. `within` is the flag that it leaves.
unfoldable pub window_step : Clock → Window → Bool → Bool
window_step clock (dated start_at end_at) within =
    leb start_at clock.now_utc && leb clock.now_utc end_at
window_step clock (weekly start end days) within =
    if any (λ d. clock.weekday == d) days
    then (if leb start end
        then leb start clock.minute && leb clock.minute end
        else leb start clock.minute || leb clock.minute end)
    else within

-- The loop over the windows, with its `break`.
unfoldable pub window_loop : Clock → List Window → Bool → Bool
window_loop clock [] within = within
window_loop clock (w ∷ ws) within =
    let within' = window_step clock w within in
    let rest = window_loop clock ws within' in if within' then true else rest

-- The first blackout in force.
unfoldable pub active_blackout : Clock → List Blackout → Option Blackout
active_blackout clock [] = none
active_blackout clock (b ∷ bs) =
    let rest = active_blackout clock bs in
    if leb b.start_at clock.now_utc && leb clock.now_utc b.end_at then some b else rest

pub data WindowStatus : Type 0 where
  blackout not_configured open_window closed : WindowStatus

pub record MaintenanceStatus : Type 0 where
  pub status : WindowStatus
  pub within_window : Bool
  pub within_blackout : Bool
  pub active_blackout_name : Option String
  pub timezone : String
  pub window_required : Bool
  pub emergency_override_allowed : Bool
  pub policy : Policy

-- A target that the policy file does not name has no windows and the default policy of its name.
unfoldable pub maintenance_window_status : Clock → String → MaintenancePolicy → MaintenanceStatus
maintenance_window_status clock target policy =
    let target_obj = target_or_default target policy.targets in
    let active = active_blackout clock (policy.global_blackouts ++ target_obj.blackouts) in
    let within = window_loop clock target_obj.windows false in
    record {
      status = elim active [
        | some _ ↦ blackout
        | none ↦ elim target_obj.windows [
          | [] ↦ not_configured
          | w ∷ ws ↦ if within then open_window else closed
        ]
      ];
      within_window = within;
      within_blackout = elim active [ none ↦ false | some _ ↦ true ];
      active_blackout_name = elim active [ none ↦ none | some b ↦ some b.name ];
      timezone = if clock.zone_known then policy.timezone else "UTC";
      window_required = target_obj.policy.maintenance_window_required;
      emergency_override_allowed = target_obj.policy.emergency_override_allowed;
      policy = target_obj.policy;
    }
