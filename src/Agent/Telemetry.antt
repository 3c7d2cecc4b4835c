-- ===== src/Agent/Telemetry.antt =====
-- The telemetry policy of the agent, gds-agent/app/main.py: which events `_telemetry_decision` lets
-- through, and the two tables of send times that it keeps. Times are whole clock ticks.
pub mod Spacing
pub mod Passing
mod Tests
use Prim.Native.String.{◌++◌ as text_append}
use text.Mathlib.Text.{find?}
use opcua_implementaion.Prelude.{
  ℕ, zero, ◌+◌, String, Bool, true, false, ◌&&◌, ◌||◌, Option, none, some, List, [], ◌∷◌, ltb, any,
  max, ◌==◌, string_eq, number_eq, if◌then◌else◌,
}
use opcua_implementaion.Prelude.Text.{lower, strip}
use opcua_implementaion.Prelude.Dict.{Dict, get, put}
use opcua_implementaion.Agent.Environment.{Environment, env, env_int, env_bool}

-- The arguments of a forward; the texts that it reads from `tags` and `raw` are fields, "" if absent.
pub record Event : Type 0 where
  pub category : String
  pub severity : String
  pub message : String
  pub target : String
  pub sensitive_action : String
  pub event_type : String
  pub error_code : String

-- TELEMETRY_LAST_SENT and TELEMETRY_LAST_HEALTH.
pub record Memory : Type 0 where
  pub last_sent : Dict String ℕ
  pub last_health : Dict String ℕ

abbrev always_forward_event_hints : List String
always_forward_event_hints =
    "agent_start" ∷ "agent_stop" ∷ "runtime_write_deprecated_use_native_client"
    ∷ "target_not_managed_by_agent_zone" ∷ "trust_anchor_mismatch" ∷ "certificate_package_rejected"
    ∷ "package_activation_failed" ∷ "renew_runtime_certificate_failed"
    ∷ "signed_artifact_validation_failed" ∷ "approval_denied" ∷ "approval_expired"
    ∷ "blackout_active" ∷ "maintenance_window_closed" ∷ "vault_sealed" ∷ "crl_stale"
    ∷ "policy_violation" ∷ []

abbrev security_categories : List String
security_categories =
    "security" ∷ "policy_audit" ∷ "access_control" ∷ "error" ∷ "sensitive_operator_action"
    ∷ "pki_lifecycle" ∷ "certificate_lifecycle" ∷ []

abbrev health_categories : List String
health_categories = "system_health" ∷ "lifecycle" ∷ "pki_trust_sync" ∷ []

abbrev member : String → List String → Bool
member x = any (λ y. x == y)

pub data Mode : Type 0 where
  debug_all security_only sampled_operations off : Mode

pub telemetry_policy_enabled : Environment → Bool
telemetry_policy_enabled getenv =
    env_bool getenv "GDS_AGENT_OT_TELEMETRY_ENABLED"
      (env_bool getenv "LABSHOCK_OT_TELEMETRY_ENABLED" true)

-- An unknown mode is `security_only`.
pub telemetry_policy_mode : Environment → Mode
telemetry_policy_mode getenv =
    let mode = lower (
      strip (
        env getenv "GDS_AGENT_OT_TELEMETRY_MODE"
          (env getenv "LABSHOCK_OT_TELEMETRY_MODE" "security_only"))) in
    if mode == "debug_all"
    then debug_all
    else if mode == "sampled_operations"
    then sampled_operations
    else if mode == "off"
    then off
    else security_only

-- The windows; `none` is the ValueError of `int`. The default is evaluated first, as an argument.
pub telemetry_dedup_window_seconds : Environment → Option ℕ
telemetry_dedup_window_seconds getenv =
    elim (env_int getenv "LABSHOCK_OT_COLLECTOR_DEDUP_WINDOW_SECONDS" (some 60)) [
      | none ↦ none
      | some d ↦ env_int getenv "GDS_AGENT_OT_COLLECTOR_DEDUP_WINDOW_SECONDS" (some d)
    ]

pub telemetry_health_summary_seconds : Environment → Option ℕ
telemetry_health_summary_seconds getenv =
    elim (env_int getenv "LABSHOCK_OT_HEALTH_SUMMARY_SECONDS" (some 300)) [
      | none ↦ none
      | some d ↦ elim (env_int getenv "GDS_AGENT_OT_COLLECTOR_HEALTH_SUMMARY_SECONDS" (some d)) [
        | none ↦ none
        | some n ↦ some (max 1 n)
      ]
    ]

infixr 60 ◌<>◌
abbrev ◌<>◌ : String → String → String
s <> t = text_append s t

pub event_key : Event → String
event_key e =
    e.category <> "|" <> e.severity <> "|" <> e.message <> "|" <> e.target <> "|" <> e.error_code

pub health_key : Event → String
health_key e = e.category <> "|" <> e.severity <> "|" <> e.message

contains_text : String → String → Bool
contains_text text hint = elim (find? text hint) [ none ↦ false | some _ ↦ true ]

pub is_security_event : Event → Bool
unfolding contains_text lower
is_security_event e =
    member e.category security_categories
    || member e.severity ("warning" ∷ "error" ∷ "critical" ∷ [])
    || any (contains_text (lower (e.message <> " " <> e.event_type <> " " <> e.error_code)))
        always_forward_event_hints
    || lower e.sensitive_action == "true"

pub data Reason : Type 0 where
  telemetry_disabled mode_off dedup_suppressed mode_debug_all : Reason
  security_event health_rate_limited health_summary sampled : Reason
  sampled_drop security_only_drop : Reason

abbrev pub is_summary : Reason → Bool
is_summary health_summary = true
is_summary _ = false

-- `last is not None and (now - last) < window`
pub recent : ℕ → ℕ → Option ℕ → Bool
recent now window none = false
recent now window (some last) = ltb now (last + window)

abbrev sent_now : Event → ℕ → Memory → Memory
sent_now e now m = record m { last_sent = put (event_key e) now m.last_sent }

abbrev health_now : Event → ℕ → Memory → Memory
health_now e now m = record {
  last_sent = put (event_key e) now m.last_sent;
  last_health = put (health_key e) now m.last_health;
}

abbrev pub Decision : Type 0
Decision = Bool × Reason × Memory

-- The last part of the decision: neither a duplicate nor a security event. The interval is read for
-- a health event alone, and `none` is its ValueError.
pub operational_decision : Mode → Option ℕ → Bool → Event → ℕ → Memory → Option Decision
operational_decision mode interval hit e now m =
    if member e.category health_categories
    then elim interval [
      | none ↦ none
      | some seconds ↦
          (if recent now seconds (get (health_key e) m.last_health)
            then some (false, health_rate_limited, m)
            else some (true, health_summary, health_now e now m))
    ]
    else elim mode [
      | sampled_operations ↦
          (if hit then some (true, sampled, sent_now e now m) else some (false, sampled_drop, m))
      | _ ↦ some (false, security_only_drop, m)
    ]

-- What follows the two switches, with the deduplication window already read.
pub windowed_decision : Mode → ℕ → Option ℕ → Bool → Event → ℕ → Memory → Option Decision
windowed_decision mode window interval hit e now m =
    if ltb 0 window && recent now window (get (event_key e) m.last_sent)
    then some (false, dedup_suppressed, m)
    else elim mode [
      | debug_all ↦ some (true, mode_debug_all, sent_now e now m)
      | other ↦
          (if is_security_event e
            then some (true, security_event, sent_now e now m)
            else operational_decision other interval hit e now m)
    ]

-- `hit` stands for `random.random() <= _telemetry_sample_rate()`. `none` is a ValueError out of a
-- malformed window, raised before either table is written.
pub telemetry_decision : Environment → Bool → Event → ℕ → Memory → Option Decision
telemetry_decision getenv hit e now m =
    if telemetry_policy_enabled getenv
    then elim (telemetry_policy_mode getenv) [
      | off ↦ some (false, mode_off, m)
      | mode ↦ elim (telemetry_dedup_window_seconds getenv) [
        | none ↦ none
        | some window ↦
            windowed_decision mode window (telemetry_health_summary_seconds getenv) hit e now m
      ]
    ]
    else some (false, telemetry_disabled, m)
