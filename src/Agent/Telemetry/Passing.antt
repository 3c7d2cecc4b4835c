-- ===== src/Agent/Telemetry/Passing.antt =====
-- Which events get past the telemetry policy.
use opcua_implementaion.Prelude.{
  ℕ, Bool, true, Option, none, some, ◌≡◌, ◌≢◌, arith, ltb, not, ◌&&◌, string_eq,
}
use opcua_implementaion.Prelude.Dict.{get}
use opcua_implementaion.Agent.Environment.{Environment}
use opcua_implementaion.Agent.Telemetry.{
  Event, Memory, Mode, off, Decision, event_key, is_security_event, recent, windowed_decision,
  telemetry_decision, telemetry_policy_enabled, telemetry_policy_mode,
  telemetry_dedup_window_seconds, telemetry_health_summary_seconds,
}

abbrev pub is_duplicate : ℕ → Event → ℕ → Memory → Bool
is_duplicate window e now m = ltb 0 window && recent now window (get (event_key e) m.last_sent)

-- The verdict of a decision; `none` is a ValueError.
abbrev pub let_through : Option Decision → Option Bool
let_through none = none
let_through (some d) = some d.0

windowed_security :
    (mode : Mode) (window : ℕ) (interval : Option ℕ) (hit : Bool) (e : Event) (now : ℕ) (m : Memory)
    → is_security_event e ≡ true
    → let_through (windowed_decision mode window interval hit e now m)
      ≡ some (not (is_duplicate window e now m))
unfolding windowed_decision
windowed_security mode window interval hit e now m security = ground arith

-- While the policy is enabled, its mode is not `off` and the deduplication window is well formed, a
-- security event gets a decision, whatever the health interval holds, and that decision lets it
-- through exactly when no event of its key was sent within a positive window.
pub security_event_passes :
    (getenv : Environment) (window : ℕ) (hit : Bool) (e : Event) (now : ℕ) (m : Memory)
    → telemetry_policy_enabled getenv ≡ true
    → telemetry_policy_mode getenv ≢ off
    → telemetry_dedup_window_seconds getenv ≡ some window
    → is_security_event e ≡ true
    → let_through (telemetry_decision getenv hit e now m) ≡ some (not (is_duplicate window e now m))
unfolding telemetry_decision
security_event_passes getenv window hit e now m enabled mode w security = ground (
  arith,
  windowed_security (telemetry_policy_mode getenv) window (telemetry_health_summary_seconds getenv)
      hit e now m,
)
