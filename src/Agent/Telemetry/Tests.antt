-- ===== src/Agent/Telemetry/Tests.antt =====
-- Runs of the telemetry policy at concrete inputs.
use opcua_implementaion.Prelude.{true, false, none, some, List, [], ◌∷◌, ◌≡◌, refl, arith}
use opcua_implementaion.Prelude.Dict.{get}
use opcua_implementaion.Agent.Environment.{Environment, env_int, env_bool, env}
use opcua_implementaion.Agent.Telemetry.{
  Event, Memory, telemetry_decision, telemetry_policy_enabled, telemetry_policy_mode,
  telemetry_dedup_window_seconds, telemetry_health_summary_seconds, is_security_event,
  operational_decision, windowed_decision, event_key, health_key, recent,
}
use opcua_implementaion.Agent.Telemetry.Spacing.{
  Call, Spaced, sent_times, summary_times, marked_times, sent_times-Spaced, summary_times-Spaced,
}
use opcua_implementaion.Agent.Telemetry.Passing.{let_through, security_event_passes}

abbrev unset : Environment
unset _ = none

abbrev fresh : Memory
fresh = record { last_sent = []; last_health = [] }

abbrev sealed : Event
sealed = record {
  category = "operations";
  severity = "info";
  message = "Vault_Sealed";
  target = "fuxa";
  sensitive_action = "";
  event_type = "";
  error_code = "";
}

abbrev heartbeat : Event
heartbeat = record sealed { category = "system_health"; message = "gds-agent heartbeat" }

abbrev calls : List Call
calls =
    record { event = sealed; hit = false; now = 100 }
    ∷ record { event = sealed; hit = false; now = 130 }
    ∷ record { event = heartbeat; hit = false; now = 150 }
    ∷ record { event = sealed; hit = false; now = 160 }
    ∷ record { event = heartbeat; hit = false; now = 400 }
    ∷ record { event = heartbeat; hit = false; now = 450 }
    ∷ []

run_sealed : sent_times unset (event_key sealed) calls fresh ≡ 100 ∷ 160 ∷ []
unfolding marked_times telemetry_decision telemetry_policy_enabled telemetry_policy_mode recent env
    telemetry_dedup_window_seconds telemetry_health_summary_seconds is_security_event
    operational_decision windowed_decision event_key health_key env_int env_bool get
    opcua_implementaion.Prelude.Dict.put
run_sealed = refl

sealed-security : is_security_event sealed ≡ true
unfolding is_security_event
sealed-security = refl

sent_times-Spaced_example : Spaced 60 none (sent_times unset (event_key sealed) calls fresh)
unfolding telemetry_dedup_window_seconds env_int get
sent_times-Spaced_example =
    sent_times-Spaced unset (event_key sealed) 60 calls fresh refl (omega arith)

summary_times-Spaced_example :
    Spaced 300 none (summary_times unset (health_key heartbeat) calls fresh)
unfolding telemetry_health_summary_seconds env_int get
summary_times-Spaced_example =
    summary_times-Spaced unset (health_key heartbeat) 300 calls fresh refl

security_event_passes_example :
    let_through (telemetry_decision unset false sealed 100 fresh) ≡ some true
unfolding telemetry_policy_enabled telemetry_policy_mode telemetry_dedup_window_seconds env_int
    env_bool env get recent
security_event_passes_example =
    security_event_passes unset 60 false sealed 100 fresh refl (ground arith) refl sealed-security
