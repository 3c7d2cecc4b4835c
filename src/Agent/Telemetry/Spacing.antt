-- ===== src/Agent/Telemetry/Spacing.antt =====
-- What the two tables of send times guarantee over a run of the agent.
use opcua_implementaion.Prelude.{
  ℕ, ◌+◌, ◌≤◌, ◌<◌, String, Bool, true, false, Option, none, some, List, [], ◌∷◌, ◌≡◌, refl, inl,
  inr, arith, ◌==◌, ◌&&◌, string_eq, if◌then◌else◌, eq_iff, Option-cases,
}
use opcua_implementaion.Prelude.Dict.{get, get-put}
use opcua_implementaion.Agent.Environment.{Environment}
use opcua_implementaion.Agent.Telemetry.{
  Event, Memory, Mode, Decision, event_key, health_key, recent, operational_decision,
  windowed_decision, telemetry_decision, telemetry_policy_mode, telemetry_dedup_window_seconds,
  telemetry_health_summary_seconds, Reason, is_summary,
}

-- One call of `_telemetry_decision`: the event, the draw, and the clock.
pub record Call : Type 0 where
  pub event : Event
  pub hit : Bool
  pub now : ℕ

-- The times at which the calls that `counts` marks happened. A call that raises leaves the tables
-- as they were.
unfoldable pub marked_times :
    Environment → (Event → Bool → Reason → Bool) → List Call → Memory → List ℕ
marked_times getenv counts [] m = []
marked_times getenv counts (c ∷ calls) m = elim (telemetry_decision getenv c.hit c.event c.now m) [
  | none ↦ marked_times getenv counts calls m
  | some (allow, reason, m') ↦
      (let rest = marked_times getenv counts calls m' in
        if counts c.event allow reason then c.now ∷ rest else rest)
]

-- The times at which events of one key were let through.
abbrev pub sent_times : Environment → String → List Call → Memory → List ℕ
sent_times getenv key = marked_times getenv (λ e allow _. allow && event_key e == key)

-- The times at which health events of one key were let through as summaries.
abbrev pub summary_times : Environment → String → List Call → Memory → List ℕ
summary_times getenv key =
    marked_times getenv (λ e allow reason. allow && is_summary reason && health_key e == key)

-- Each time is at least `window` after the one before it, the first after `last`.
abbrev pub Spaced : ℕ → Option ℕ → List ℕ → Type 0
Spaced window last [] = Unit
Spaced window none (t ∷ ts) = Spaced window (some t) ts
Spaced window (some last) (t ∷ ts) = (last + window ≤ t) × Spaced window (some t) ts

Spaced-step :
    (window : ℕ) (marked : Bool) (now : ℕ) (last after : Option ℕ) (rest : List ℕ)
    → after ≡ (if marked then some now else last)
    → (marked ≡ true → recent now window last ≡ false)
    → Spaced window after rest
    → Spaced window last (if marked then now ∷ rest else rest)
unfolding recent
Spaced-step window true now none after rest e apart h = rw e at h
Spaced-step window true now (some last) after rest e apart h =
    (ground (arith, apart refl), rw e at h)
Spaced-step window false now last after rest e apart h = rw e at h

-- What a decision does to the send time of a key, under a window that is open.
record Sends (window : ℕ) (key : String) (e : Event) (now : ℕ) (m : Memory) (d : Decision)
    : Type 0 where
  after :
      get key d.2.last_sent ≡ (if d.0 && event_key e == key then some now else get key m.last_sent)
  apart : d.0 ≡ true → recent now window (get (event_key e) m.last_sent) ≡ false

-- The same of the table of summaries.
record Summarises (interval : ℕ) (key : String) (e : Event) (now : ℕ) (m : Memory) (d : Decision)
    : Type 0 where
  after :
      get key d.2.last_health
      ≡ (if d.0 && is_summary d.1 && health_key e == key then some now else get key m.last_health)
  apart :
      d.0 && is_summary d.1 ≡ true → recent now interval (get (health_key e) m.last_health) ≡ false

module _ (mode : Mode) (window : ℕ) (hit : Bool) (key : String) (e : Event) (now : ℕ)
    (m : Memory) where
  windowed_decision-Sends :
      (interval : Option ℕ) {d : Decision}
      → 0 < window
      → windowed_decision mode window interval hit e now m ≡ some d
      → Sends window key e now m d
  unfolding windowed_decision operational_decision
  windowed_decision-Sends interval pos h = record {
    after = ground (arith, get-put (event_key e) key now m.last_sent, eq_iff (event_key e) key);
    apart = ground arith;
  }

  windowed_decision-Summarises :
      (interval : ℕ) {d : Decision}
      → windowed_decision mode window (some interval) hit e now m ≡ some d
      → Summarises interval key e now m d
  unfolding windowed_decision operational_decision
  windowed_decision-Summarises interval h = record {
    after = ground (arith, get-put (health_key e) key now m.last_health, eq_iff (health_key e) key);
    apart = ground arith;
  }

module _ (getenv : Environment) (key : String) (c : Call) (m : Memory) {d : Decision}
    (decided : telemetry_decision getenv c.hit c.event c.now m ≡ some d) where
  telemetry_decision-Sends :
      (window : ℕ)
      → telemetry_dedup_window_seconds getenv ≡ some window
      → 0 < window
      → Sends window key c.event c.now m d
  unfolding telemetry_decision
  telemetry_decision-Sends window w pos = ground (
    arith,
    windowed_decision-Sends (telemetry_policy_mode getenv) window c.hit key c.event c.now m
        (telemetry_health_summary_seconds getenv) {d = d} pos,
  )

  telemetry_decision-Summarises :
      (interval : ℕ)
      → telemetry_health_summary_seconds getenv ≡ some interval
      → Summarises interval key c.event c.now m d
  unfolding telemetry_decision
  telemetry_decision-Summarises interval w =
      elim (Option-cases (telemetry_dedup_window_seconds getenv)) [
        | inl raised ↦ ground arith
        | inr (window, read) ↦ ground (
          arith,
          windowed_decision-Summarises (telemetry_policy_mode getenv) window c.hit key c.event c.now
              m interval {d = d},
        )
      ]

module _ (getenv : Environment) (key : String) (window : ℕ) where
  -- Over any run whose deduplication window is set and positive, the events of one key that are let
  -- through lie at least the window apart, and after the time remembered at the start.
  pub sent_times-Spaced :
      (calls : List Call) (m : Memory)
      → telemetry_dedup_window_seconds getenv ≡ some window
      → 0 < window
      → Spaced window (get key m.last_sent) (sent_times getenv key calls m)
  unfolding marked_times
  sent_times-Spaced [] m w pos = tt
  sent_times-Spaced (c ∷ calls) m w pos =
      elim (Option-cases (telemetry_decision getenv c.hit c.event c.now m)) [
        | inl raised ↦ rw (raised, marked_times) (sent_times-Spaced calls m w pos)
        | inr (d, decided) ↦
            (let sends = telemetry_decision-Sends getenv key c m decided window w pos in
              rw (decided, marked_times)
                (Spaced-step window (d.0 && event_key c.event == key) c.now (get key m.last_sent)
                  (get key d.2.last_sent) (sent_times getenv key calls d.2) sends.after
                  (λ marked. ground (arith, sends.apart, eq_iff (event_key c.event) key))
                  (sent_times-Spaced calls d.2 w pos)))
      ]

  -- Over any run whose summary interval is set, the health summaries of one key that are let through
  -- lie at least the interval apart, and after the time remembered at the start.
  pub summary_times-Spaced :
      (calls : List Call) (m : Memory)
      → telemetry_health_summary_seconds getenv ≡ some window
      → Spaced window (get key m.last_health) (summary_times getenv key calls m)
  unfolding marked_times
  summary_times-Spaced [] m w = tt
  summary_times-Spaced (c ∷ calls) m w =
      elim (Option-cases (telemetry_decision getenv c.hit c.event c.now m)) [
        | inl raised ↦ rw (raised, marked_times) (summary_times-Spaced calls m w)
        | inr (d, decided) ↦
            (let sums = telemetry_decision-Summarises getenv key c m decided window w in
              rw (decided, marked_times)
                (Spaced-step window (d.0 && is_summary d.1 && health_key c.event == key) c.now
                  (get key m.last_health) (get key d.2.last_health)
                  (summary_times getenv key calls d.2) sums.after
                  (λ marked. ground (arith, sums.apart, eq_iff (health_key c.event) key))
                  (summary_times-Spaced calls d.2 w)))
      ]
