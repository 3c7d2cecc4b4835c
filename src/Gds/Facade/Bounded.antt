-- ===== src/Gds/Facade/Bounded.antt =====
-- How many calls the limits of the facade let through.
use opcua_implementaion.Prelude.{
  ℕ, suc, ◌+◌, ◌-◌, ◌*◌, ◌≤◌, ◌<◌, max, String, false, ◌&&◌, Option, some, List, [], ◌∷◌, All, leb,
  ◌==◌, string_eq, if◌then◌else◌, ◌≡◌, refl, sym, ap, arith, eq_iff, inl, inr, Bool-cases,
}
use opcua_implementaion.Prelude.Dict.{Dict, get, put, get-put}
use opcua_implementaion.Gds.Facade.Limits.{
  minute, RateCounter, count_of, start_of, count_call, allow,
}

-- Calls with their keys and times, and how many of a key are allowed.
unfoldable pub allowed_calls : ℕ → String → List (String × ℕ) → Dict String RateCounter → ℕ
allowed_calls limit key [] counters = 0
allowed_calls limit key ((k, now) ∷ calls) counters =
    let (allowed, after) = allow limit now k counters in
    let rest = allowed_calls limit key calls after in if allowed && k == key then suc rest else rest

-- The times of calls do not go down, from a time on.
abbrev pub InOrder : ℕ → List (String × ℕ) → Type 0
InOrder from [] = Unit
InOrder from ((k, now) ∷ calls) = (from ≤ now) × InOrder now calls

-- The same count for one counter by itself.
abbrev counted : ℕ → String → List (String × ℕ) → Option RateCounter → ℕ
counted limit key [] counter = 0
counted limit key ((k, now) ∷ calls) counter =
    let (allowed, after) = count_call limit now counter in
    let next = counted limit key calls (some after) in
    let same = counted limit key calls counter in
    if k == key then (if allowed then suc next else next) else same

allowed_calls-counted :
    (limit : ℕ) (key : String) (calls : List (String × ℕ)) (counters : Dict String RateCounter)
    → allowed_calls limit key calls counters ≡ counted limit key calls (get key counters)
unfolding allowed_calls allow
allowed_calls-counted limit key [] counters = refl
allowed_calls-counted limit key ((k, now) ∷ calls) counters =
    let after = (count_call limit now (get k counters)).1 in
    let read = get-put k key after counters in
    let rest = allowed_calls-counted limit key calls (put k after counters) in
    elim (Bool-cases (k == key)) [
      | inl same ↦
          (let here : get key counters ≡ get k counters =
              ap (λ (j : String). get j counters) (sym ((eq_iff k key).0 same)) in
            ground (arith, read, rest, here))
      | inr other ↦ ground (arith, read, rest)
    ]

-- Calls within the window of a counter.
in_window :
    (limit : ℕ) (key : String) (calls : List (String × ℕ)) (c : RateCounter) (last : ℕ)
    → last < c.window_started_at + minute
    → All (λ call. call.1 ≤ last) calls
    → counted limit key calls (some c) ≤ limit - c.count
unfolding count_call
in_window limit key [] c last within h = omega arith
in_window limit key ((k, now) ∷ calls) c last within (before, h) =
    let open_window : leb minute (now - c.window_started_at) ≡ false = ground arith in
    let next =
      in_window limit key calls
        (record { window_started_at = c.window_started_at; count = c.count + 1 }) last within h in
    let same = in_window limit key calls c last within h in ground (arith, next, same)

-- Calls of less than a minute meet the rest of a window and the beginning of one more.
in_minute :
    (limit : ℕ) (key : String) (calls : List (String × ℕ)) (counter : Option RateCounter)
    (from last : ℕ)
    → last < from + minute
    → InOrder from calls
    → All (λ call. call.1 ≤ last) calls
    → counted limit key calls counter ≤ (limit - count_of counter) + max 1 limit
unfolding count_call
in_minute limit key [] counter from last within ordered h = omega arith
in_minute limit key ((k, now) ∷ calls) counter from last within (later, ordered) (before, h) =
    let fresh =
      in_window limit key calls (record { window_started_at = now; count = 1 }) last (omega arith)
        h in
    let old =
      in_minute limit key calls
        (some (record { window_started_at = start_of counter; count = count_of counter + 1 })) now
        last (omega arith) ordered h in
    let same = in_minute limit key calls counter now last (omega arith) ordered h in
    ground (arith, fresh, old, same)

-- In any stretch of less than a minute, whatever was counted before and whatever calls of other keys
-- come between, a limit lets at most twice as many calls of a key through as it says, or two where it
-- says 0.
pub allowed_calls-le :
    (limit : ℕ) (key : String) (calls : List (String × ℕ)) (counters : Dict String RateCounter)
    (from last : ℕ)
    → last < from + minute
    → InOrder from calls
    → All (λ call. call.1 ≤ last) calls
    → allowed_calls limit key calls counters ≤ 2 * max 1 limit
allowed_calls-le limit key calls counters from last within ordered h =
    let bound = in_minute limit key calls (get key counters) from last within ordered h in
    let same = allowed_calls-counted limit key calls counters in omega (arith, bound, same)
