-- ===== src/Agent/Environment.antt =====
-- The configuration readers of gds-agent/app/main.py: `env`, `env_int` and `env_bool`.
-- The process environment is a function from names to values, as `os.getenv` reads it.
use Prim.Native.Char.{code}
use opcua_implementaion.Prelude.{
  ℕ, ◌+◌, ◌-◌, ◌*◌, String, Bool, true, false, ◌&&◌, ◌||◌, Option, none, some, leb, ◌==◌, string_eq,
  number_eq, if◌then◌else◌, ◌≡◌, refl,
}
use opcua_implementaion.Prelude.Text.{strip, lower}

abbrev pub Environment : Type 0
Environment = String → Option String

-- A value that is unset or empty gives the default.
unfoldable pub env : Environment → String → String → String
env getenv name default = elim (getenv name) [
  | none ↦ default
  | some v ↦ if v == "" then default else v
]

digits : Option ℕ → String → Option ℕ
digits acc String.[] = acc
digits none (String.◌∷◌ c s) = none
digits (some n) (String.◌∷◌ c s) =
    digits (let d = code c in if leb b'0' d && leb d b'9' then some (n * 10 + (d - b'0')) else none)
      s

nonneg : String → Option ℕ
unfolding digits
nonneg String.[] = none
nonneg (String.◌∷◌ c s) =
    if code c == b'-'
    then (if s == ""
        then none
        else elim (digits (some 0) s) [ none ↦ none | some n ↦ if n == 0 then some 0 else none ])
    else if code c == b'+'
    then (if s == "" then none else digits (some 0) s)
    else digits (some 0) (String.◌∷◌ c s)

-- ASCII digits only, without Python's `_` between digits. This is `int(text)` where the value is clipped at zero by every caller: the digits with an optional sign,
-- and `none` for the ValueError.
unsigned : String → Option ℕ
unfolding digits
unsigned String.[] = none
unsigned (String.◌∷◌ c s) =
    if code c == b'-'
    then (if s == "" then none else elim (digits (some 0) s) [ none ↦ none | some _ ↦ some 0 ])
    else if code c == b'+'
    then (if s == "" then none else digits (some 0) s)
    else digits (some 0) (String.◌∷◌ c s)

-- `int(text)` of a text that a range check follows; a negative number, which every such check
-- refuses, is `none` like a text that does not parse.
unfoldable pub int_text : String → Option ℕ
unfolding nonneg strip
int_text text = nonneg (strip text)

-- `max(0, env_int(name, default))`; `none` is the ValueError of `int`.
unfoldable pub env_int : Environment → String → Option ℕ → Option ℕ
unfolding unsigned strip
env_int getenv name default = elim (getenv name) [
  | none ↦ default
  | some v ↦ if v == "" then default else unsigned (strip v)
]

-- Only an unset value gives the default: an empty one is false.
unfoldable pub env_bool : Environment → String → Bool → Bool
unfolding strip lower
env_bool getenv name default = elim (getenv name) [
  | none ↦ default
  | some v ↦
      (let flag = lower (strip v) in flag == "1" || flag == "true" || flag == "yes" || flag == "on")
]

env_int_reads : env_int (λ _. some " 60 ") "X" none ≡ some 60
unfolding env_int
env_int_reads = refl

env_bool_reads : env_bool (λ _. some "Yes") "X" false ≡ true
unfolding env_bool
env_bool_reads = refl
