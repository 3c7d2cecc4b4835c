-- ===== src/Gds/Sender/Published.antt =====
-- The events that are made of the rows hold no secrets.
use opcua_implementaion.Prelude.{
  ℕ, String, Bool, true, false, not, all, ap, Option, none, some, List, [], ◌∷◌, ◌==◌, string_eq,
  ◌≡◌, refl, arith, eq_iff, inl, inr, Bool-cases, leb, ◌||◌,
}
use Prim.Native.String.{count}
use opcua_implementaion.Prelude.Text.{strip, lower, replace_char, has_text}
use opcua_implementaion.Prelude.Dict.{Dict, get}
use opcua_implementaion.Gds.Sender.Values.{
  Value, null, bytes, flag, number, decimal, datetime, date, str, sequence, tuple, dict, Values,
  no_value, item, Fields, no_field, field, get_field, put_field, merge,
}
use opcua_implementaion.Gds.Sender.Redact.{
  is_secret_key, is_pem, json_safe, json_safe_items, json_safe_fields, redact_secrets,
  redact_fields, truncate_text, limit_raw,
}
use opcua_implementaion.Gds.Sender.Redacted.{
  is_clean, are_clean_fields, is_plain, are_plain, are_plain_fields, redact_secrets-is_clean,
}
use opcua_implementaion.Gds.Sender.Events.{
  Runtime, Limits, EventKind, kind_or_default, kind_of, audit_event_map, or_null, target_fields,
  target_parts, pick_safe, safe_field_names, str_or, details, safe_fields, base_event,
  normalize_audit_event,
}

get_field-plain :
    (k : String) (fs : Fields)
    → are_plain_fields fs ≡ true
    → is_plain (or_null (get_field k fs)) ≡ true
unfolding is_plain get_field
get_field-plain k no_field h = refl
get_field-plain k (field j v fs) h = ground (arith, get_field-plain k fs)

put_field-plain :
    (k : String) (v : Value) (fs : Fields)
    → is_plain v ≡ true
    → are_plain_fields fs ≡ true
    → are_plain_fields (put_field k v fs) ≡ true
unfolding is_plain put_field
put_field-plain k v no_field hv h = ground arith
put_field-plain k v (field j w fs) hv h = ground (arith, put_field-plain k v fs)

merge-plain :
    (fs gs : Fields)
    → are_plain_fields fs ≡ true
    → are_plain_fields gs ≡ true
    → are_plain_fields (merge fs gs) ≡ true
unfolding is_plain merge
merge-plain fs no_field hf hg = hf
merge-plain fs (field k v gs) hf hg =
    let given : is_plain v ≡ true = ground arith in
    merge-plain (put_field k v fs) gs (put_field-plain k v fs given hf) (ground arith)

mutual
  unfolding is_plain json_safe

  safe-plain : (v : Value) → is_plain v ≡ true → is_plain (json_safe v) ≡ true
  safe-plain null h = refl
  safe-plain bytes h = refl
  safe-plain (flag b) h = refl
  safe-plain (number n) h = refl
  safe-plain (decimal n) h = refl
  safe-plain (datetime t) h = refl
  safe-plain (date t) h = refl
  safe-plain (str s) h = refl
  safe-plain (sequence vs) h = safe_items-plain vs h
  safe-plain (tuple vs) h = absurd (ground arith)
  safe-plain (dict fs) h = safe_fields-plain fs h

  safe_items-plain : (vs : Values) → are_plain vs ≡ true → are_plain (json_safe_items vs) ≡ true
  safe_items-plain no_value h = refl
  safe_items-plain (item v vs) h = ground (arith, safe-plain v, safe_items-plain vs)

  safe_fields-plain :
      (fs : Fields) → are_plain_fields fs ≡ true → are_plain_fields (json_safe_fields fs) ≡ true
  safe_fields-plain no_field h = refl
  safe_fields-plain (field k v fs) h = ground (arith, safe-plain v, safe_fields-plain fs)

pick_safe-plain :
    (keys : List String) (merged : Fields)
    → are_plain_fields merged ≡ true
    → are_plain_fields (pick_safe keys merged) ≡ true
unfolding is_plain pick_safe
pick_safe-plain [] merged h = refl
pick_safe-plain (key ∷ keys) merged h =
    let value = safe-plain (or_null (get_field key merged)) (get_field-plain key merged h) in
    ground (arith, value, pick_safe-plain keys merged h)

target_fields-plain : (parts : List String) → are_plain_fields (target_fields parts) ≡ true
unfolding is_plain target_fields
target_fields-plain [] = refl
target_fields-plain (a ∷ []) = refl
target_fields-plain (a ∷ b ∷ []) = ground arith
target_fields-plain (a ∷ b ∷ c ∷ rest) = ground arith

safe-fields-plain :
    (runtime : Runtime) (row row_details : Fields)
    → are_plain_fields row ≡ true
    → are_plain_fields row_details ≡ true
    → are_plain_fields (safe_fields runtime row row_details) ≡ true
unfolding safe_fields target_parts
safe-fields-plain runtime row row_details hr hd =
    let merged = merge (merge row row_details) (target_parts (str_or runtime "" "target" row)) in
    let plain : are_plain_fields merged ≡ true =
      merge-plain _ _ (merge-plain row row_details hr hd) (target_fields-plain _) in
    let picked = pick_safe-plain safe_field_names merged plain in
    let verified =
      put_field-plain "mtls_verify_status" (or_null (get_field "verify" row_details))
        (pick_safe safe_field_names merged) (get_field-plain "verify" row_details hd) picked in
    ground (arith, picked, verified)

put_field-clean :
    (k : String) (v : Value) (fs : Fields)
    → is_secret_key k ≡ false
    → is_clean v ≡ true
    → are_clean_fields fs ≡ true
    → are_clean_fields (put_field k v fs) ≡ true
unfolding is_clean put_field
put_field-clean k v no_field open_key hv h = ground arith
put_field-clean k v (field j w fs) open_key hv h = elim (Bool-cases (j == k)) [
  | inl same ↦
      (let one : is_secret_key j ≡ false = rw ((eq_iff j k).0 same) open_key in ground arith)
  | inr other ↦ ground (arith, put_field-clean k v fs open_key hv)
]

-- `raw` is clean as it is, or tells the beginning of the encoding of a clean value.
pub data IsSafeRaw (dumps : Value → String) (v : Value) : Type 0 where
  whole : is_clean v ≡ true → IsSafeRaw dumps v
  preview :
      (safe : Value) (max_len : ℕ)
      → is_clean safe ≡ true
      → v
        ≡ dict (
            field "truncated"
              (flag true)
              (field "preview" (str (truncate_text (dumps safe) max_len)) no_field))
      → IsSafeRaw dumps v

-- What an event shows of the row that it is made of.
pub record IsSafeEvent (dumps : Value → String) (event : Fields) : Type 0 where
  pub tags : Fields
  pub tags_found : get_field "tags" event ≡ some (dict tags)
  pub tags_clean : are_clean_fields tags ≡ true
  pub raw : Value
  pub raw_found : get_field "raw" event ≡ some raw
  pub raw_safe : IsSafeRaw dumps raw

limit_raw-IsSafeRaw :
    (dumps : Value → String) (raw : Fields) (max_len : ℕ)
    → are_plain_fields raw ≡ true
    → IsSafeRaw dumps (limit_raw dumps raw max_len)
unfolding limit_raw is_plain
limit_raw-IsSafeRaw dumps raw max_len h =
    let safe = redact_secrets (dict raw) in
    let clean = redact_secrets-is_clean (dict raw) h in
    elim (Bool-cases (leb max_len 0 || leb (count (dumps safe)) max_len)) [
      | inl short ↦ rw short (whole clean)
      | inr long ↦ rw long (preview safe max_len clean refl)
    ]

event_key_is_open : is_secret_key "gds_event" ≡ false
unfolding is_secret_key strip lower replace_char
event_key_is_open = refl

base_event-IsSafeEvent :
    (runtime : Runtime) (limits : Limits) (k : EventKind) (message timestamp : String)
    (raw tags : Fields)
    → is_pem k.event_name ≡ false
    → are_plain_fields raw ≡ true
    → are_plain_fields tags ≡ true
    → IsSafeEvent runtime.dumps (base_event runtime limits k message timestamp raw tags)
unfolding base_event get_field redact_secrets is_clean is_plain
base_event-IsSafeEvent runtime limits k message timestamp raw tags hk hr ht = record {
  tags = put_field "gds_event" (str k.event_name) (redact_fields tags);
  tags_found = refl;
  tags_clean =
      put_field-clean "gds_event" (str k.event_name) (redact_fields tags) event_key_is_open
        (ap not hk) (redact_secrets-is_clean (dict tags) ht);
  raw = limit_raw runtime.dumps raw limits.max_raw_len;
  raw_found = refl;
  raw_safe = limit_raw-IsSafeRaw runtime.dumps raw limits.max_raw_len hr;
}

names_are_open :
    all (λ (e : String × EventKind). not (is_pem e.1.event_name)) audit_event_map ≡ true
unfolding is_pem has_text
names_are_open = refl

get-all :
    (p : EventKind → Bool) (t : String) (m : Dict String EventKind) (k : EventKind)
    → all (λ (e : String × EventKind). p e.1) m ≡ true
    → get t m ≡ some k
    → p k ≡ true
unfolding get
get-all p t [] k h found = absurd (ground arith)
get-all p t ((j, v) ∷ m) k h found = ground (arith, get-all p t m k)

default_name_is_open : is_pem "gds_audit_event" ≡ false
unfolding is_pem has_text
default_name_is_open = refl

kind_or_default-open :
    (found : Option EventKind)
    → ((k : EventKind) → found ≡ some k → not (is_pem k.event_name) ≡ true)
    → is_pem (kind_or_default found).event_name ≡ false
kind_or_default-open none h = default_name_is_open
kind_or_default-open (some k) h = ground (arith, h k refl)

kind_of-open : (t : String) → is_pem (kind_of t).event_name ≡ false
unfolding kind_of
kind_of-open t =
    kind_or_default-open (get t audit_event_map)
      (λ k there. get-all (λ k. not (is_pem k.event_name)) t audit_event_map k names_are_open there)

-- An event that is made of a plain row of the audit table with plain details shows no secrets: its
-- tags are clean, and `raw` is clean or is cut from the encoding of a clean value.
pub normalize_audit_event-IsSafeEvent :
    (runtime : Runtime) (limits : Limits) (row : Fields)
    → are_plain_fields row ≡ true
    → are_plain_fields (details runtime row) ≡ true
    → IsSafeEvent runtime.dumps (normalize_audit_event runtime limits row)
unfolding normalize_audit_event is_plain
normalize_audit_event-IsSafeEvent runtime limits row hr hd =
    let t = str_or runtime "gds_audit_event" "event_type" row in
    let safe = safe-fields-plain runtime row (details runtime row) hr hd in
    base_event-IsSafeEvent runtime limits (kind_of t) _ _ _ _ (kind_of-open t)
      (ground (arith, hr, hd)) (merge-plain _ _ refl safe)
