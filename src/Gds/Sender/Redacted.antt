-- ===== src/Gds/Sender/Redacted.antt =====
-- What is left of a value after `redact_secrets`.
use Prim.Native.String.{count}
use text.Mathlib.TextLemmas.{length-append}
use opcua_implementaion.Prelude.{
  ℕ, ◌-◌, ◌≤◌, ◌<◌, max, String, Bool, true, false, not, ◌&&◌, ◌==◌, string_eq, ◌≡◌, ◌↔◌, refl, sym,
  ap, arith, eq_iff, if◌then◌else◌, Bool-cases, inl, inr,
}
use opcua_implementaion.Prelude.Text.{has_text, take_text, take_text-count-le}
use opcua_implementaion.Gds.Sender.Values.{
  Value, null, bytes, flag, number, decimal, datetime, date, str, sequence, tuple, dict, Values,
  no_value, item, Fields, no_field, field,
}
use opcua_implementaion.Gds.Sender.Redact.{
  is_secret_key, is_pem, json_safe, redact_secrets, redact_items, redact_fields, truncate_text,
}

abbrev pub is_redacted : Value → Bool
is_redacted (str s) = s == "<redacted>"
is_redacted null = false
is_redacted bytes = false
is_redacted (flag b) = false
is_redacted (number n) = false
is_redacted (decimal n) = false
is_redacted (datetime t) = false
is_redacted (date t) = false
is_redacted (sequence vs) = false
is_redacted (tuple vs) = false
is_redacted (dict fs) = false

-- A value of JSON in which, at any depth, no text holds a PEM marker and a secret key has only the
-- text that stands for a secret.
unfoldable mutual
  pub is_clean : Value → Bool
  is_clean null = true
  is_clean bytes = false
  is_clean (flag b) = true
  is_clean (number n) = true
  is_clean (decimal n) = false
  is_clean (datetime t) = false
  is_clean (date t) = false
  is_clean (str s) = not (is_pem s)
  is_clean (sequence vs) = are_clean vs
  is_clean (tuple vs) = false
  is_clean (dict fs) = are_clean_fields fs

  pub are_clean : Values → Bool
  are_clean no_value = true
  are_clean (item v vs) = is_clean v && are_clean vs

  pub are_clean_fields : Fields → Bool
  are_clean_fields no_field = true
  are_clean_fields (field k v fs) =
      (if is_secret_key k then is_redacted v else is_clean v) && are_clean_fields fs

-- No tuple at any depth, and no PEM marker in the text of a date.
unfoldable mutual
  pub is_plain : Value → Bool
  is_plain null = true
  is_plain bytes = true
  is_plain (flag b) = true
  is_plain (number n) = true
  is_plain (decimal n) = true
  is_plain (datetime t) = not (is_pem t)
  is_plain (date t) = not (is_pem t)
  is_plain (str s) = true
  is_plain (sequence vs) = are_plain vs
  is_plain (tuple vs) = false
  is_plain (dict fs) = are_plain_fields fs

  pub are_plain : Values → Bool
  are_plain no_value = true
  are_plain (item v vs) = is_plain v && are_plain vs

  pub are_plain_fields : Fields → Bool
  are_plain_fields no_field = true
  are_plain_fields (field k v fs) = is_plain v && are_plain_fields fs

pem_text_is_clean : is_pem "<redacted-pem>" ≡ false
unfolding is_pem has_text
pem_text_is_clean = refl

bytes_text_is_clean : is_pem "<redacted-bytes>" ≡ false
unfolding is_pem has_text
bytes_text_is_clean = refl

mutual
  unfolding is_clean is_plain redact_secrets json_safe

  redacts : (v : Value) → is_plain v ≡ true → is_clean (redact_secrets v) ≡ true
  redacts null h = refl
  redacts bytes h = ground (arith, bytes_text_is_clean)
  redacts (flag b) h = refl
  redacts (number n) h = refl
  redacts (decimal n) h = refl
  redacts (datetime t) h = h
  redacts (date t) h = h
  redacts (str s) h = ground (arith, pem_text_is_clean)
  redacts (sequence vs) h = redacts_items vs h
  redacts (tuple vs) h = absurd (ground arith)
  redacts (dict fs) h = redacts_fields fs h

  redacts_items : (vs : Values) → are_plain vs ≡ true → are_clean (redact_items vs) ≡ true
  redacts_items no_value h = refl
  redacts_items (item v vs) h = ground (arith, redacts v, redacts_items vs)

  redacts_fields :
      (fs : Fields) → are_plain_fields fs ≡ true → are_clean_fields (redact_fields fs) ≡ true
  redacts_fields no_field h = refl
  redacts_fields (field k v fs) h = elim (Bool-cases (is_secret_key k)) [
    | inl secret ↦ ground (arith, redacts_fields fs)
    | inr harmless ↦ ground (arith, redacts v, redacts_fields fs)
  ]

-- A plain value comes out clean: at any depth a secret key has only the text that stands for a
-- secret, and no other text holds a PEM marker.
pub redact_secrets-is_clean : (v : Value) → is_plain v ≡ true → is_clean (redact_secrets v) ≡ true
redact_secrets-is_clean v h = redacts v h

is_redacted_text : (v : Value) → is_redacted v ≡ true → v ≡ str "<redacted>"
is_redacted_text (str s) h = ap str ((eq_iff s "<redacted>").0 h)
is_redacted_text null h = absurd (ground arith)
is_redacted_text bytes h = absurd (ground arith)
is_redacted_text (flag b) h = absurd (ground arith)
is_redacted_text (number n) h = absurd (ground arith)
is_redacted_text (decimal n) h = absurd (ground arith)
is_redacted_text (datetime t) h = absurd (ground arith)
is_redacted_text (date t) h = absurd (ground arith)
is_redacted_text (sequence vs) h = absurd (ground arith)
is_redacted_text (tuple vs) h = absurd (ground arith)
is_redacted_text (dict fs) h = absurd (ground arith)

mutual
  unfolding is_clean redact_secrets

  -- A clean value is not changed.
  pub keeps_clean : (v : Value) → is_clean v ≡ true → redact_secrets v ≡ v
  keeps_clean null h = refl
  keeps_clean bytes h = absurd (ground arith)
  keeps_clean (flag b) h = refl
  keeps_clean (number n) h = refl
  keeps_clean (decimal n) h = absurd (ground arith)
  keeps_clean (datetime t) h = absurd (ground arith)
  keeps_clean (date t) h = absurd (ground arith)
  keeps_clean (str s) h = ground arith
  keeps_clean (sequence vs) h = ap sequence (keeps_items vs h)
  keeps_clean (tuple vs) h = absurd (ground arith)
  keeps_clean (dict fs) h = ap dict (keeps_fields fs h)

  keeps_items : (vs : Values) → are_clean vs ≡ true → redact_items vs ≡ vs
  keeps_items no_value h = refl
  keeps_items (item v vs) h = ground (arith, keeps_clean v, keeps_items vs)

  keeps_fields : (fs : Fields) → are_clean_fields fs ≡ true → redact_fields fs ≡ fs
  keeps_fields no_field h = refl
  keeps_fields (field k v fs) h = elim (Bool-cases (is_secret_key k)) [
    | inl secret ↦ ground (arith, is_redacted_text v, keeps_fields fs)
    | inr harmless ↦ ground (arith, keeps_clean v, keeps_fields fs)
  ]

-- A plain value is not changed exactly when it is clean; so a second redaction changes nothing.
pub redact_secrets_fixes :
    (v : Value)
    → is_plain v ≡ true
    → ((redact_secrets v ≡ v) ↔ (is_clean v ≡ true))
      × (redact_secrets (redact_secrets v) ≡ redact_secrets v)
redact_secrets_fixes v h =
    let clean = redact_secrets-is_clean v h in
    ((λ same. rw (sym same) clean, keeps_clean v), keeps_clean (redact_secrets v) clean)

-- The text that is left has at most the greater of 14 and the limit characters, where there is one.
pub truncate_text-count-le :
    (value : String) (max_len : ℕ)
    → 0 < max_len
    → count (truncate_text value max_len) ≤ max 14 max_len
unfolding truncate_text
truncate_text-count-le value max_len limited =
    let cut = take_text-count-le (max_len - 15) value in
    ground (arith, cut, length-append (take_text (max_len - 15) value) "...<truncated>")
