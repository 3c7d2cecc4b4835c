-- ===== src/Prelude/Text.antt =====
-- Python's text methods over the native strings. `lower` and `upper` map the ASCII letters only.
use Prim.Native.Nat.{ℕ, zero, suc, ◌-◌, ◌≤◌}
use Prim.Native.Char.{Char, code}
use Prim.Native.String.{String, char_at, count}
use mathlib.Core.Bool.{Bool, ◌||◌, ◌&&◌}
use mathlib.Core.Path.{◌≡◌, refl}
use mathlib.Core.List.{List, [], ◌∷◌}
use native.Mathlib.Omega.{arith}
use text.Mathlib.Text.{starts_with}
use text.Mathlib.TextLemmas.{length-nil, length-cons}
use opcua_implementaion.Prelude.Tests.{leb, ◌==◌, if◌then◌else◌, number_eq, string_eq}

-- `str.isspace` of one character.
abbrev pub is_space : Char → Bool
is_space c =
    let n = code c in
    (leb 9 n && leb n 13)
    || (leb 28 n && leb n 32)
    || n == 133
    || n == 160
    || n == 5760
    || (leb 8192 n && leb n 8202)
    || n == 8232
    || n == 8233
    || n == 8239
    || n == 8287
    || n == 12288

lstrip : String → String
lstrip String.[] = ""
lstrip (String.◌∷◌ c s) = let rest = lstrip s in if is_space c then rest else String.◌∷◌ c s

rstrip : String → String
rstrip String.[] = ""
rstrip (String.◌∷◌ c s) =
    let rest = rstrip s in if is_space c && rest == "" then "" else String.◌∷◌ c rest

-- `str.strip()`
unfoldable pub strip : String → String
unfolding lstrip rstrip
strip s = rstrip (lstrip s)

lower_char : Char → Char
lower_char c =
    let n = code c in
    if leb 65 n && leb n 90 then char_at "abcdefghijklmnopqrstuvwxyz" (n - 65) else c

-- `str.lower()`
unfoldable pub lower : String → String
unfolding lower_char
lower String.[] = ""
lower (String.◌∷◌ c s) = String.◌∷◌ (lower_char c) (lower s)

upper_char : Char → Char
upper_char c =
    let n = code c in
    if leb 97 n && leb n 122 then char_at "ABCDEFGHIJKLMNOPQRSTUVWXYZ" (n - 97) else c

-- `str.upper()`
unfoldable pub upper : String → String
unfolding upper_char
upper String.[] = ""
upper (String.◌∷◌ c s) = String.◌∷◌ (upper_char c) (upper s)

split_add : Char → List String → List String
split_add c [] = String.◌∷◌ c "" ∷ []
split_add c (part ∷ parts) = String.◌∷◌ c part ∷ parts

-- `str.split(sep)` at one character, which is given by its code.
unfoldable pub split : ℕ → String → List String
unfolding split_add
split sep String.[] = "" ∷ []
split sep (String.◌∷◌ c s) =
    let rest = split sep s in if code c == sep then "" ∷ rest else split_add c rest

-- `t in s` on two texts.
unfoldable pub has_text : String → String → Bool
has_text t String.[] = t == ""
has_text t (String.◌∷◌ c s) = starts_with (String.◌∷◌ c s) t || has_text t s

-- `s.replace(a, b)` of one character by another, the first given by its code.
unfoldable pub replace_char : ℕ → Char → String → String
replace_char a b String.[] = ""
replace_char a b (String.◌∷◌ c s) = String.◌∷◌ (if code c == a then b else c) (replace_char a b s)

-- `s[:n]`
unfoldable pub take_text : ℕ → String → String
take_text zero s = ""
take_text (suc n) String.[] = ""
take_text (suc n) (String.◌∷◌ c s) = String.◌∷◌ c (take_text n s)

-- `s[n:]`
unfoldable pub drop_text : ℕ → String → String
drop_text zero s = s
drop_text (suc n) String.[] = ""
drop_text (suc n) (String.◌∷◌ c s) = drop_text n s

pub take_text-count-le : (n : ℕ) (s : String) → count (take_text n s) ≤ n
unfolding take_text
take_text-count-le zero s = omega (arith, length-nil)
take_text-count-le (suc n) String.[] = omega (arith, length-nil)
take_text-count-le (suc n) (String.◌∷◌ c s) =
    omega (arith, length-cons c (take_text n s), take_text-count-le n s)

strip_both_ends : strip " \t gw-1 \n" ≡ "gw-1"
unfolding strip
strip_both_ends = refl

lower_mixed : lower "X-Vault-Token" ≡ "x-vault-token"
unfolding lower
lower_mixed = refl

split_target : split b':' "OT:server" ≡ "OT" ∷ "server" ∷ []
unfolding split
split_target = refl
