-- ===== src/Agent/Maintenance/Policies/Loaded.antt =====
-- What the loaded policy file holds, whatever the file says.
use opcua_implementaion.Prelude.{
  ℕ, ◌<◌, String, Option, none, some, List, [], ◌∷◌, foldl, All, All-append, ◌==◌, string_eq,
  number_eq, ◌≡◌, refl, arith, leb, Option-cases, inl, inr, Bool-cases,
}
use opcua_implementaion.Prelude.Text.{strip}
use opcua_implementaion.Prelude.Dict.{Dict, get, put, get-put}
use opcua_implementaion.Agent.Maintenance.Entries.{
  Blackout, Target, WindowEntry, dated_entry, weekly_entry, hour_minute, parse_time_hhmm, weekdays,
  weekly_window, parse_window_entry, parse_blackout_entry,
}
use opcua_implementaion.Agent.Maintenance.Loading.{
  TargetEntry, PolicyEntry, PolicyFile, parsed_windows, parsed_blackouts, target_or_default,
  add_window, add_target, add_override, load_maintenance_policy,
}
use opcua_implementaion.Agent.Maintenance.Windows.{IsTimed}

abbrev pub IsOrdered : Blackout → Type 0
IsOrdered b = b.start_at < b.end_at

abbrev pub IsWellFormed : Target → Type 0
IsWellFormed t = All IsTimed t.windows × All IsOrdered t.blackouts

abbrev pub Each {ℓ κ} : {A : Type ℓ} → (A → Type κ) → Option A → Type κ
Each P none = Unit
Each P (some a) = P a

pub Each-lem {ℓ κ} :
    {A : Type ℓ} (P : A → Type κ) (o : Option A) → ((a : A) → o ≡ some a → P a) → Each P o
Each-lem P none h = tt
Each-lem P (some a) h = h a refl

pub parse_time_hhmm-lt : (raw : String) → Each (λ t. t < 1440) (parse_time_hhmm raw)
unfolding parse_time_hhmm hour_minute
parse_time_hhmm-lt raw = Each-lem (λ t. t < 1440) (parse_time_hhmm raw) (λ t h. ground arith)

pub weekly_window-IsTimed :
    (start end : Option ℕ) (days : List ℕ)
    → Each (λ t. t < 1440) start
    → Each (λ t. t < 1440) end
    → Each IsTimed (weekly_window start end days)
unfolding weekly_window
weekly_window-IsTimed (some start) (some end) (d ∷ ds) hs he = (hs, he)
weekly_window-IsTimed none _ _ hs he = tt
weekly_window-IsTimed (some start) none _ hs he = tt
weekly_window-IsTimed (some start) (some end) [] hs he = tt

pub parse_window_entry-IsTimed : (w : WindowEntry) → Each IsTimed (parse_window_entry w)
unfolding parse_window_entry
parse_window_entry-IsTimed (dated_entry none e) = tt
parse_window_entry-IsTimed (dated_entry (some s) none) = tt
parse_window_entry-IsTimed (dated_entry (some s) (some e)) = elim (Bool-cases (leb e s)) [
  | inl empty ↦ rw empty tt
  | inr proper ↦ rw proper (ground arith)
]
parse_window_entry-IsTimed (weekly_entry s e ds) =
    weekly_window-IsTimed (parse_time_hhmm (strip s)) (parse_time_hhmm (strip e)) (weekdays ds)
      (parse_time_hhmm-lt (strip s)) (parse_time_hhmm-lt (strip e))

pub parsed_windows-IsTimed : (ws : List WindowEntry) → All IsTimed (parsed_windows ws)
unfolding parsed_windows
parsed_windows-IsTimed [] = tt
parsed_windows-IsTimed (w ∷ ws) = elim (Option-cases (parse_window_entry w)) [
  | inl refused ↦ rw (refused, parsed_windows) (parsed_windows-IsTimed ws)
  | inr (win, read) ↦
      (let timed = parse_window_entry-IsTimed w in
        rw (read, parsed_windows) (rw read at timed, parsed_windows-IsTimed ws))
]

pub parsed_blackouts-IsOrdered :
    (bs : List (String × Option ℕ × Option ℕ)) → All IsOrdered (parsed_blackouts bs)
unfolding parsed_blackouts parse_blackout_entry
parsed_blackouts-IsOrdered [] = tt
parsed_blackouts-IsOrdered ((name, none, e) ∷ bs) = parsed_blackouts-IsOrdered bs
parsed_blackouts-IsOrdered ((name, some s, none) ∷ bs) = parsed_blackouts-IsOrdered bs
parsed_blackouts-IsOrdered ((name, some s, some e) ∷ bs) =
    ground (arith, parsed_blackouts-IsOrdered bs)

-- Every target that the dict holds is well formed.
abbrev pub IsWellFormedDict : Dict String Target → Type 0
IsWellFormedDict targets = (k : String) → IsWellFormed (target_or_default k targets)

pub put-IsWellFormedDict :
    (k : String) (t : Target) (targets : Dict String Target)
    → IsWellFormed t
    → IsWellFormedDict targets
    → IsWellFormedDict (put k t targets)
unfolding target_or_default
put-IsWellFormedDict k t targets h all j =
    rw (get-put k j t targets, target_or_default)
      (elim (Bool-cases (k == j)) [ inl same ↦ rw same h | inr other ↦ rw other (all j) ])

pub add_window-IsWellFormedDict :
    (targets : Dict String Target) (item : String × WindowEntry)
    → IsWellFormedDict targets
    → IsWellFormedDict (add_window targets item)
unfolding add_window
add_window-IsWellFormedDict targets (raw, entry) all = elim (Bool-cases (strip raw == "")) [
  | inl empty ↦ rw empty all
  | inr named ↦ rw named (elim (Option-cases (parse_window_entry entry)) [
    | inl refused ↦ rw refused all
    | inr (win, read) ↦
        (let timed = parse_window_entry-IsTimed entry in
          rw read (
            put-IsWellFormedDict (strip raw) _ targets
              (
                All-append IsTimed (target_or_default (strip raw) targets).windows (win ∷ [])
                    (all (strip raw)).0 (rw read at timed, tt),
                (all (strip raw)).1,
              )
              all))
  ])
]

pub add_target-IsWellFormedDict :
    (targets : Dict String Target) (item : TargetEntry)
    → IsWellFormedDict targets
    → IsWellFormedDict (add_target targets item)
unfolding add_target
add_target-IsWellFormedDict targets item all =
    let old = target_or_default (strip item.target) targets in
    elim (Bool-cases (strip item.target == "")) [
      | inl empty ↦ rw empty all
      | inr named ↦ rw named (
          put-IsWellFormedDict (strip item.target) _ targets
            (
              All-append IsTimed old.windows _ (all (strip item.target)).0
                  (parsed_windows-IsTimed item.windows),
              All-append IsOrdered old.blackouts _ (all (strip item.target)).1
                  (parsed_blackouts-IsOrdered item.blackouts),
            )
            all)
    ]

pub add_override-IsWellFormedDict :
    (targets : Dict String Target) (item : String × PolicyEntry)
    → IsWellFormedDict targets
    → IsWellFormedDict (add_override targets item)
unfolding add_override
add_override-IsWellFormedDict targets (raw, entry) all = elim (Bool-cases (strip raw == "")) [
  | inl empty ↦ rw empty all
  | inr named ↦
      rw named
        (put-IsWellFormedDict (strip raw) _ targets ((all (strip raw)).0, (all (strip raw)).1) all)
]

pub foldl-keeps {ℓ κ μ} :
    {S : Type ℓ} {A : Type κ} (P : S → Type μ) (f : S → A → S)
    → ((s : S) (a : A) → P s → P (f s a))
    → (xs : List A) (s : S) → P s
    → P (foldl f s xs)
foldl-keeps P f step [] s h = h
foldl-keeps P f step (x ∷ xs) s h = foldl-keeps P f step xs (f s x) (step s x h)

-- Whatever the policy file says, every target of the loaded policy has weekly windows of times of
-- day and dated windows and blackouts that end after they start, and so have the global blackouts.
pub load_maintenance_policy-IsWellFormed :
    (file : Option PolicyFile) (default_timezone : String) (target : String)
    → let policy = load_maintenance_policy file default_timezone in
      IsWellFormed (target_or_default target policy.targets) × All IsOrdered policy.global_blackouts
unfolding load_maintenance_policy target_or_default get
load_maintenance_policy-IsWellFormed none tz target = ((tt, tt), tt)
load_maintenance_policy-IsWellFormed (some raw) tz target = (
  foldl-keeps IsWellFormedDict add_override add_override-IsWellFormedDict raw.target_policies _
      (foldl-keeps IsWellFormedDict add_target add_target-IsWellFormedDict raw.targets _ (
        foldl-keeps IsWellFormedDict add_window add_window-IsWellFormedDict raw.windows []
          (λ k. (tt, tt))))
      target,
  parsed_blackouts-IsOrdered raw.blackouts,
)
