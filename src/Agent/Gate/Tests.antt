-- ===== src/Agent/Gate/Tests.antt =====
-- The gate at concrete inputs.
use opcua_implementaion.Prelude.{true, false, some, [], ◌∷◌, ◌≡◌, ◌≢◌, ◌↔◌, ◌⊎◌, refl}
use opcua_implementaion.Prelude.Dict.{get}
use opcua_implementaion.Agent.Maintenance.Entries.{
  Clock, MaintenancePolicy, weekly, default_target_policy,
}
use opcua_implementaion.Agent.Maintenance.Loading.{target_or_default}
use opcua_implementaion.Agent.Maintenance.Status.{
  maintenance_window_status, open_window, window_step, window_loop, active_blackout,
}
use opcua_implementaion.Agent.Approvals.Active.{ApprovalSummary, approved_dual}
use opcua_implementaion.Agent.Gate.Evaluate.{
  Preview, evaluate_activation_gate, is_some, window_required_of, override_allowed_of,
  within_window_of, within_blackout_of, override_requested_of,
}
use opcua_implementaion.Agent.Gate.Permits.{
  is_open, evaluate_activation_gate-is_open, strict_target_opens_in_window,
}

abbrev weekend : MaintenancePolicy
weekend = record {
  timezone = "UTC";
  targets =
      (
        "opcua-server",
        record {
          windows = weekly 60 180 (5 ∷ 6 ∷ []) ∷ [];
          blackouts = [];
          policy = default_target_policy "opcua-server";
        },
      )
      ∷ [];
  global_blackouts = [];
}

abbrev saturday : Clock
saturday = record { now_utc = 5000; zone_known = true; weekday = 5; minute = 90 }

abbrev preview : Preview
preview = record {
  maintenance_window_status = some (maintenance_window_status saturday "opcua-server" weekend);
  compatibility_status = "COMPATIBLE";
  risk_level = "LOW";
  artifact_version = some 3;
  artifact_revision = some 8;
  preview_id = some "p1";
}

abbrev approved : ApprovalSummary
approved = record {
  approval_id = "a2,a1";
  operators = "ot-admin-1" ∷ "ot-admin-2" ∷ [];
  emergency_override = false;
  count = 2;
}

gate_opens :
    is_open
      (evaluate_activation_gate
        (some "opcua-server")
        preview
        true
        (some approved)
        approved_dual
        false).status
    ≡ true
unfolding evaluate_activation_gate maintenance_window_status target_or_default get window_step
    window_loop active_blackout default_target_policy
gate_opens = refl

evaluate_activation_gate-is_open_example :
    (is_open
        (evaluate_activation_gate
          (some "opcua-server")
          preview
          true
          (some approved)
          approved_dual
          false).status
      ≡ true)
    ↔ ((preview.compatibility_status ≢ "INCOMPATIBLE")
        × (preview.risk_level ≢ "CRITICAL")
        × (true ≡ true → is_some (some approved) ≡ true)
        × (((within_blackout_of preview.maintenance_window_status ≡ false)
              × (window_required_of preview.maintenance_window_status ≡ true
                  → within_window_of preview.maintenance_window_status ≡ true))
            ⊎ ((false ≡ true)
                × (override_allowed_of preview.maintenance_window_status ≡ true)
                × (override_requested_of (some approved) ≡ true))))
evaluate_activation_gate-is_open_example =
    evaluate_activation_gate-is_open (some "opcua-server") preview true (some approved)
      approved_dual false

strict_target_opens_in_window_example :
    (maintenance_window_status saturday "opcua-server" weekend).status ≡ open_window
unfolding maintenance_window_status target_or_default get default_target_policy
strict_target_opens_in_window_example =
    strict_target_opens_in_window saturday "opcua-server" weekend (some "opcua-server") preview true
      (some approved) approved_dual false refl refl refl gate_opens
