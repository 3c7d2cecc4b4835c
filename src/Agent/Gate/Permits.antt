-- ===== src/Agent/Gate/Permits.antt =====
-- What has to hold for the gate to let a change through.
use opcua_implementaion.Prelude.{
  String, Bool, true, false, Option, some, ◌≡◌, ◌≢◌, ◌↔◌, ◌⊎◌, refl, arith, eq_iff, string_eq,
}
use opcua_implementaion.Agent.Maintenance.Entries.{Clock, MaintenancePolicy}
use opcua_implementaion.Agent.Maintenance.Status.{
  open_window, maintenance_window_status, window_loop,
}
use opcua_implementaion.Agent.Approvals.Active.{ApprovalSummary, ApprovalStatus}
use opcua_implementaion.Agent.Gate.Evaluate.{
  Preview, GateStatus, ready_for_staging, emergency_override_ready, evaluate_activation_gate,
  is_some, window_required_of, override_allowed_of, within_window_of, within_blackout_of,
  override_requested_of,
}

abbrev pub is_open : GateStatus → Bool
is_open ready_for_staging = true
is_open emergency_override_ready = true
is_open _ = false

-- The gate opens exactly when the runtime is compatible and the risk not critical, an approval is
-- there if one is required, and either no blackout is on and the window is open if it is required,
-- or the override is on, allowed by the policy, and requested by the approval.
pub evaluate_activation_gate-is_open :
    (name : Option String) (preview : Preview) (approval_required : Bool)
    (summary : Option ApprovalSummary) (approval_status : ApprovalStatus) (mode : Bool)
    → let mw = preview.maintenance_window_status in
      (is_open
          (evaluate_activation_gate name preview approval_required summary approval_status
            mode).status
        ≡ true)
      ↔ ((preview.compatibility_status ≢ "INCOMPATIBLE")
          × (preview.risk_level ≢ "CRITICAL")
          × (approval_required ≡ true → is_some summary ≡ true)
          × (((within_blackout_of mw ≡ false)
                × (window_required_of mw ≡ true → within_window_of mw ≡ true))
              ⊎ ((mode ≡ true)
                  × (override_allowed_of mw ≡ true)
                  × (override_requested_of summary ≡ true))))
unfolding evaluate_activation_gate
evaluate_activation_gate-is_open name preview required summary status mode = ground (
  arith,
  eq_iff preview.compatibility_status "INCOMPATIBLE",
  eq_iff preview.risk_level "CRITICAL",
)

within_window_status :
    (clock : Clock) (target : String) (policy : MaintenancePolicy)
    → let mw = maintenance_window_status clock target policy in
      mw.within_window ≡ true → mw.within_blackout ≡ false → mw.status ≡ open_window
unfolding maintenance_window_status window_loop
within_window_status clock target policy within outside = ground arith

policy_fields :
    (clock : Clock) (target : String) (policy : MaintenancePolicy)
    → let mw = maintenance_window_status clock target policy in
      (mw.window_required ≡ mw.policy.maintenance_window_required)
      × (mw.emergency_override_allowed ≡ mw.policy.emergency_override_allowed)
unfolding maintenance_window_status
policy_fields clock target policy = (refl, refl)

-- Where the policy of a target requires the window and forbids the override, the gate opens for a
-- preview that carries the target's maintenance status only in an open window outside blackouts.
pub strict_target_opens_in_window :
    (clock : Clock) (target : String) (policy : MaintenancePolicy) (name : Option String)
    (preview : Preview) (approval_required : Bool) (summary : Option ApprovalSummary)
    (approval_status : ApprovalStatus) (mode : Bool)
    → preview.maintenance_window_status ≡ some (maintenance_window_status clock target policy)
    → (maintenance_window_status clock target policy).policy.maintenance_window_required ≡ true
    → (maintenance_window_status clock target policy).policy.emergency_override_allowed ≡ false
    → is_open
        (evaluate_activation_gate name preview approval_required summary approval_status
          mode).status
      ≡ true
    → (maintenance_window_status clock target policy).status ≡ open_window
strict_target_opens_in_window clock target policy name preview required summary status mode carried
      required_window forbidden opens =
    let needs =
      (evaluate_activation_gate-is_open name preview required summary status mode).0 opens in
    let fields = policy_fields clock target policy in
    ground (arith, within_window_status clock target policy)
