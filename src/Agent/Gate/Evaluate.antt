-- ===== src/Agent/Gate/Evaluate.antt =====
-- The activation gate: may a staged change of a target go on, given its preview and its approvals?
use opcua_implementaion.Prelude.{
  ℕ, String, Bool, true, false, not, ◌&&◌, ◌||◌, Option, none, some, ◌==◌, string_eq, if◌then◌else◌,
}
use opcua_implementaion.Agent.Maintenance.Entries.{Policy}
use opcua_implementaion.Agent.Maintenance.Status.{MaintenanceStatus}
use opcua_implementaion.Agent.Approvals.Active.{ApprovalSummary, ApprovalStatus}

-- The fields of a preview that the gate reads.
pub record Preview : Type 0 where
  pub maintenance_window_status : Option MaintenanceStatus
  pub compatibility_status : String
  pub risk_level : String
  pub artifact_version : Option ℕ
  pub artifact_revision : Option ℕ
  pub preview_id : Option String

pub data GateStatus : Type 0 where
  ready_for_staging emergency_override_ready blocked_incompatible : GateStatus
  blocked_approval_missing blocked_blackout blocked_window_closed : GateStatus

pub data BlockedReason : Type 0 where
  not_blocked runtime_compatibility_failed : BlockedReason
  approval_missing : ApprovalStatus → BlockedReason
  emergency_override_blackout blackout_period_active : BlockedReason
  emergency_override_window_closed maintenance_window_closed : BlockedReason

pub record Gate : Type 0 where
  pub target : Option String
  pub status : GateStatus
  pub blocked_reason : BlockedReason
  pub window_required : Bool
  pub approval_required : Bool
  pub approval_status : ApprovalStatus
  pub emergency_override_mode : Bool
  pub emergency_override_allowed : Bool
  pub emergency_override_requested : Bool
  pub within_window : Bool
  pub within_blackout : Bool
  pub policy : Option Policy
  pub artifact_version : Option ℕ
  pub artifact_revision : Option ℕ
  pub preview_id : Option String
  pub risk_level : String

abbrev pub is_some {ℓ} : {A : Type ℓ} → Option A → Bool
is_some none = false
is_some (some _) = true

-- What a preview without a maintenance status stands for.
abbrev pub window_required_of : Option MaintenanceStatus → Bool
window_required_of none = true
window_required_of (some mw) = mw.window_required

abbrev pub override_allowed_of : Option MaintenanceStatus → Bool
override_allowed_of none = false
override_allowed_of (some mw) = mw.emergency_override_allowed

abbrev pub within_window_of : Option MaintenanceStatus → Bool
within_window_of none = false
within_window_of (some mw) = mw.within_window

abbrev pub within_blackout_of : Option MaintenanceStatus → Bool
within_blackout_of none = false
within_blackout_of (some mw) = mw.within_blackout

abbrev pub override_requested_of : Option ApprovalSummary → Bool
override_requested_of none = false
override_requested_of (some a) = a.emergency_override

abbrev pub policy_of : Option MaintenanceStatus → Option Policy
policy_of none = none
policy_of (some mw) = some mw.policy

-- The ladder of the gate: its status and the reason.
unfoldable pub gate_status :
    Preview → Bool → Option ApprovalSummary → ApprovalStatus → Bool → GateStatus × BlockedReason
gate_status preview approval_required approval_summary approval_status emergency_override_mode =
    let mw = preview.maintenance_window_status in
    let override =
      emergency_override_mode && override_allowed_of mw && override_requested_of approval_summary in
    if preview.compatibility_status == "INCOMPATIBLE" || preview.risk_level == "CRITICAL"
    then (blocked_incompatible, runtime_compatibility_failed)
    else if approval_required && not (is_some approval_summary)
    then (blocked_approval_missing, approval_missing approval_status)
    else if within_blackout_of mw
    then (if override
        then (emergency_override_ready, emergency_override_blackout)
        else (blocked_blackout, blackout_period_active))
    else if window_required_of mw && not (within_window_of mw)
    then (if override
        then (emergency_override_ready, emergency_override_window_closed)
        else (blocked_window_closed, maintenance_window_closed))
    else (ready_for_staging, not_blocked)

-- The gate; `target` is the configured target's.
unfoldable pub evaluate_activation_gate :
    Option String → Preview → Bool → Option ApprovalSummary → ApprovalStatus → Bool → Gate
unfolding gate_status
evaluate_activation_gate target preview approval_required approval_summary approval_status mode =
    let mw = preview.maintenance_window_status in
    let (status, reason) =
      gate_status preview approval_required approval_summary approval_status mode in
    record {
      target = target;
      status = status;
      blocked_reason = reason;
      window_required = window_required_of mw;
      approval_required = approval_required;
      approval_status = approval_status;
      emergency_override_mode = mode;
      emergency_override_allowed = override_allowed_of mw;
      emergency_override_requested = override_requested_of approval_summary;
      within_window = within_window_of mw;
      within_blackout = within_blackout_of mw;
      policy = policy_of mw;
      artifact_version = preview.artifact_version;
      artifact_revision = preview.artifact_revision;
      preview_id = preview.preview_id;
      risk_level = preview.risk_level;
    }
