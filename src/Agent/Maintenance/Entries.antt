-- ===== src/Agent/Maintenance/Entries.antt =====
-- The records of the maintenance policy, and how the entries of its file are parsed
-- (gds-agent/app/main.py). The texts of dates come parsed: `none` is one that does not parse.
use opcua_implementaion.Prelude.{
  ℕ, ◌+◌, ◌*◌, String, Bool, true, false, ◌&&◌, ◌||◌, Option, none, some, List, [], ◌∷◌, ltb, leb,
  ◌==◌, number_eq, string_eq, if◌then◌else◌,
}
use opcua_implementaion.Prelude.Text.{strip, lower, split}
use opcua_implementaion.Prelude.Dict.{Dict}
use opcua_implementaion.Agent.Environment.{int_text}

-- What `_parse_window_entry` returns: a window between two instants, or a weekly one.
pub data Window : Type 0 where
  dated : (start_at end_at : ℕ) → Window
  weekly : (start end : ℕ) → (days : List ℕ) → Window

pub record Blackout : Type 0 where
  pub name : String
  pub start_at : ℕ
  pub end_at : ℕ

pub data ApprovalLevel : Type 0 where
  single dual : ApprovalLevel

pub record Policy : Type 0 where
  pub maintenance_window_required : Bool
  pub approval_level : ApprovalLevel
  pub emergency_override_allowed : Bool
  pub auto_rollback_enabled : Bool

pub record Target : Type 0 where
  pub windows : List Window
  pub blackouts : List Blackout
  pub policy : Policy

pub record MaintenancePolicy : Type 0 where
  pub timezone : String
  pub targets : Dict String Target
  pub global_blackouts : List Blackout

-- The clock: the instant, whether the library knows the policy's time zone, and the day of the week and
-- the minute in that zone, in UTC where it is not known.
pub record Clock : Type 0 where
  pub now_utc : ℕ
  pub zone_known : Bool
  pub weekday : ℕ
  pub minute : ℕ

-- `hh, mm = raw.split(":", 1)` and the range check of `datetime.time`.
unfoldable pub hour_minute : List String → Option ℕ
hour_minute (hh ∷ mm ∷ []) = elim (int_text hh) [
  | none ↦ none
  | some h ↦ elim (int_text mm) [
    | none ↦ none
    | some m ↦ if ltb h 24 && ltb m 60 then some (h * 60 + m) else none
  ]
]
hour_minute _ = none

unfoldable pub parse_time_hhmm : String → Option ℕ
unfolding hour_minute
parse_time_hhmm raw = hour_minute (split b':' raw)

unfoldable pub parse_weekday : String → Option ℕ
parse_weekday raw =
    let day = lower (strip raw) in
    if day == "mon" || day == "monday"
    then some 0
    else if day == "tue" || day == "tuesday"
    then some 1
    else if day == "wed" || day == "wednesday"
    then some 2
    else if day == "thu" || day == "thursday"
    then some 3
    else if day == "fri" || day == "friday"
    then some 4
    else if day == "sat" || day == "saturday"
    then some 5
    else if day == "sun" || day == "sunday"
    then some 6
    else none

unfoldable pub weekdays : List String → List ℕ
weekdays [] = []
weekdays (d ∷ ds) = elim (parse_weekday d) [ none ↦ weekdays ds | some wd ↦ wd ∷ weekdays ds ]

-- One step of `sorted(set(days))`.
unfoldable pub add_day : ℕ → List ℕ → List ℕ
add_day d [] = d ∷ []
add_day d (e ∷ es) = if ltb d e then d ∷ e ∷ es else if d == e then e ∷ es else e ∷ add_day d es

unfoldable pub sorted_days : List ℕ → List ℕ
unfolding add_day
sorted_days [] = []
sorted_days (d ∷ ds) = add_day d (sorted_days ds)

-- An entry of a window list. Both texts of a `dated_entry` hold a "T".
pub data WindowEntry : Type 0 where
  dated_entry : (start_at end_at : Option ℕ) → WindowEntry
  weekly_entry : (start end : String) → (days : List String) → WindowEntry

unfoldable pub weekly_window : Option ℕ → Option ℕ → List ℕ → Option Window
weekly_window (some start) (some end) (d ∷ ds) = some (weekly start end (sorted_days (d ∷ ds)))
weekly_window _ _ _ = none

unfoldable pub parse_window_entry : WindowEntry → Option Window
unfolding weekly_window
parse_window_entry (dated_entry (some start_at) (some end_at)) =
    if leb end_at start_at then none else some (dated start_at end_at)
parse_window_entry (weekly_entry start_raw end_raw days_raw) =
    weekly_window (parse_time_hhmm (strip start_raw)) (parse_time_hhmm (strip end_raw))
      (weekdays days_raw)
parse_window_entry _ = none

unfoldable pub starts_dmz_gateway : String → Bool
starts_dmz_gateway target = Prim.Native.String.slice target 0 11 == "dmz-gateway"

unfoldable pub default_target_policy : String → Policy
unfolding starts_dmz_gateway
default_target_policy target =
    let base : Policy = record {
      maintenance_window_required = true;
      approval_level = single;
      emergency_override_allowed = false;
      auto_rollback_enabled = true;
    } in
    if target == "opcua-server"
    then record base { approval_level = dual }
    else if target == "fuxa"
    then record base { emergency_override_allowed = true }
    else if starts_dmz_gateway target
    then record base { maintenance_window_required = false; emergency_override_allowed = true }
    else base

-- `_parse_blackout_entry`; the instants come parsed, `none` where a text is empty or malformed.
unfoldable pub parse_blackout_entry : String → Option ℕ → Option ℕ → Option Blackout
parse_blackout_entry name none end_at = none
parse_blackout_entry name (some start_at) none = none
parse_blackout_entry name (some start_at) (some end_at) =
    if leb end_at start_at
    then none
    else (let shown = strip name in
        some (record {
          name = if shown == "" then "unnamed" else shown;
          start_at = start_at;
          end_at = end_at;
        }))
