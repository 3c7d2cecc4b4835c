-- ===== src/Agent/Maintenance/Windows.antt =====
-- When a window holds at the clock, and what the status says of it.
use opcua_implementaion.Prelude.{
  ℕ, ◌+◌, ◌-◌, ◌%◌, ◌<◌, String, Bool, true, false, ◌&&◌, ◌||◌, none, List, [], ◌∷◌, ◌++◌, leb, any,
  All, any-append, ◌==◌, number_eq, ◌≡◌, ◌↔◌, refl, arith, if◌then◌else◌, Bool-cases, inl, inr,
}
use opcua_implementaion.Agent.Maintenance.Entries.{
  Window, dated, weekly, Blackout, Clock, MaintenancePolicy,
}
use opcua_implementaion.Agent.Maintenance.Loading.{target_or_default}
use opcua_implementaion.Agent.Maintenance.Status.{
  window_step, window_loop, active_blackout, open_window, maintenance_window_status,
}

-- A day has 1440 minutes. From `start` on, the clock's minute is reached no later than `end`: this
-- reads a window that goes past midnight and one that does not alike. The days are compared with the
-- clock's own weekday in both, so that of a window past midnight on Saturday the hours after midnight are
-- those of Saturday, not of Sunday.
unfoldable pub covers_on_weekday : Clock → Window → Bool
covers_on_weekday clock (dated start_at end_at) =
    leb start_at clock.now_utc && leb clock.now_utc end_at
covers_on_weekday clock (weekly start end days) =
    any (λ d. clock.weekday == d) days
    && leb ((clock.minute + 1440 - start) % 1440) ((end + 1440 - start) % 1440)

abbrev pub in_force : Clock → Blackout → Bool
in_force clock b = leb b.start_at clock.now_utc && leb clock.now_utc b.end_at

-- Times of day are minutes of one day.
abbrev pub IsTimed : Window → Type 0
IsTimed (dated start_at end_at) = start_at < end_at
IsTimed (weekly start end days) = (start < 1440) × (end < 1440)

circular :
    (start end minute : ℕ)
    → start < 1440
    → end < 1440
    → minute < 1440
    → (if leb start end
        then leb start minute && leb minute end
        else leb start minute || leb minute end)
      ≡ leb ((minute + 1440 - start) % 1440) ((end + 1440 - start) % 1440)
circular start end minute hs he hm = ground arith

window_step-covers_on_weekday :
    (clock : Clock) (w : Window)
    → clock.minute < 1440
    → IsTimed w
    → window_step clock w false ≡ covers_on_weekday clock w
unfolding window_step covers_on_weekday
window_step-covers_on_weekday clock (dated start_at end_at) hm h = refl
window_step-covers_on_weekday clock (weekly start end days) hm h =
    ground (arith, circular start end clock.minute h.0 h.1 hm)

-- The loop with its `break` finds a covering window exactly when there is one.
pub window_loop-any :
    (clock : Clock) (ws : List Window)
    → clock.minute < 1440
    → All IsTimed ws
    → window_loop clock ws false ≡ any (covers_on_weekday clock) ws
unfolding window_loop
window_loop-any clock [] hm h = refl
window_loop-any clock (w ∷ ws) hm h =
    rw (window_step-covers_on_weekday clock w hm h.0)
      (elim (Bool-cases (covers_on_weekday clock w)) [
        | inl found ↦ rw found
        | inr missed ↦ rw missed (window_loop-any clock ws hm h.1)
      ])

active_blackout-any :
    (clock : Clock) (bs : List Blackout)
    → (active_blackout clock bs ≡ none) ↔ (any (in_force clock) bs ≡ false)
unfolding active_blackout
active_blackout-any clock [] = (λ _. refl, λ _. refl)
active_blackout-any clock (b ∷ bs) = ground (arith, active_blackout-any clock bs)

-- For a clock within the day and a target whose windows are well formed, the status is `open`
-- exactly when no global blackout and none of the target's is in force, and one of the target's windows
-- holds: a dated one at the instant, a weekly one whose days name the clock's own weekday and whose times
-- have the clock's minute. The hours after midnight of a weekly window past midnight are so read on the
-- named weekday, not on the day after it.
pub open_window_iff :
    (clock : Clock) (target : String) (policy : MaintenancePolicy)
    → clock.minute < 1440
    → All IsTimed (target_or_default target policy.targets).windows
    → let t = target_or_default target policy.targets in
      ((maintenance_window_status clock target policy).status ≡ open_window) ↔ (
        (any (in_force clock) policy.global_blackouts ≡ false)
        × (any (in_force clock) t.blackouts ≡ false)
        × (any (covers_on_weekday clock) t.windows ≡ true))
unfolding maintenance_window_status
open_window_iff clock target policy hm timed =
    let t = target_or_default target policy.targets in
    ground (
      arith,
      window_loop-any clock t.windows hm timed,
      active_blackout-any clock (policy.global_blackouts ++ t.blackouts),
      any-append (in_force clock) policy.global_blackouts t.blackouts,
    )
