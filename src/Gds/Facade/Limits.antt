-- ===== src/Gds/Facade/Limits.antt =====
-- `_allow`, `_allow_request` and `_allow_enrollment` of gds/app/opcua_boundary_adapter.py. Times are those of
-- a monotonic clock, in nanoseconds.
use opcua_implementaion.Prelude.{
  ℕ, ◌+◌, ◌-◌, String, Bool, true, Option, none, some, leb, ◌==◌, string_eq, if◌then◌else◌,
}
use opcua_implementaion.Prelude.Dict.{Dict, get, put}

pub record RateCounter : Type 0 where
  pub window_started_at : ℕ
  pub count : ℕ

-- The 60 seconds of a window.
abbrev pub minute : ℕ
minute = 60000000000

abbrev pub starts_window : ℕ → Option RateCounter → Bool
starts_window now none = true
starts_window now (some counter) = leb minute (now - counter.window_started_at)

abbrev pub count_of : Option RateCounter → ℕ
count_of none = 0
count_of (some counter) = counter.count

abbrev pub start_of : Option RateCounter → ℕ
start_of none = 0
start_of (some counter) = counter.window_started_at

-- One call about one counter.
unfoldable pub count_call : ℕ → ℕ → Option RateCounter → Bool × RateCounter
count_call limit now counter =
    if starts_window now counter then (true, record { window_started_at = now; count = 1 }) else (
      leb (count_of counter + 1) limit,
      record { window_started_at = start_of counter; count = count_of counter + 1 },
    )

unfoldable pub allow : ℕ → ℕ → String → Dict String RateCounter → Bool × Dict String RateCounter
allow limit now key counters =
    let (allowed, counter) = count_call limit now (get key counters) in
    (allowed, put key counter counters)

-- What a call says of itself.
pub record Context : Type 0 where
  pub correlation_id : String
  pub opcua_session_id : String
  pub application_uri : String

abbrev pub or_anonymous : String → String
or_anonymous s = if s == "" then "anonymous" else s

unfoldable pub session_key : Context → String
session_key context = or_anonymous context.opcua_session_id

unfoldable pub enrollment_key : Context → String
enrollment_key context =
    if context.application_uri == ""
    then or_anonymous context.opcua_session_id
    else context.application_uri
