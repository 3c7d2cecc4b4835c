-- ===== src/Gds/Sender/Redact.antt =====
-- What keeps secrets and long texts out of the events: `_json_safe`, `redact_secrets`, `truncate_text` and
-- `limit_raw` of gds/app/dmz_collector_sender.py. The encoder of JSON is a parameter.
use Prim.Native.String.{char_at, count, ◌++◌ as text_append}
use opcua_implementaion.Prelude.{
  ℕ, ◌-◌, String, Bool, true, ◌||◌, List, [], ◌∷◌, any, leb, ◌==◌, string_eq, if◌then◌else◌,
}
use opcua_implementaion.Prelude.Text.{strip, lower, replace_char, has_text, take_text}
use opcua_implementaion.Gds.Sender.Values.{
  Value, null, bytes, flag, number, decimal, datetime, date, str, sequence, tuple, dict, Values,
  no_value, item, Fields, no_field, field,
}

-- DROP_OR_REDACT_KEYS
abbrev pub drop_or_redact_keys : List String
drop_or_redact_keys =
    "token" ∷ "client_token" ∷ "x-vault-token" ∷ "x-gds-agent-token" ∷ "password" ∷ "passwd" ∷ "pwd"
    ∷ "role_id" ∷ "secret_id" ∷ "private_key" ∷ "private_key_pem" ∷ "server_key" ∷ "client_key"
    ∷ "pem" ∷ "csr_pem" ∷ "certificate_pem" ∷ "ca_chain_pem" ∷ "crl_base64" ∷ "root_crl_base64"
    ∷ "intermediate_crl_base64" ∷ "crl_bundle" ∷ "signature_base64" ∷ []

-- `str(key).strip().lower().replace("-", "_")` and the look at the set.
unfoldable pub is_secret_key : String → Bool
is_secret_key key =
    let normalized = replace_char b'-' (char_at "_" 0) (lower (strip key)) in
    any (λ k. k == normalized) drop_or_redact_keys

unfoldable pub is_pem : String → Bool
is_pem s = has_text "-----BEGIN " s || has_text "-----END " s

unfoldable mutual
  pub json_safe : Value → Value
  json_safe null = null
  json_safe bytes = str "<redacted-bytes>"
  json_safe (flag b) = flag b
  json_safe (number n) = number n
  json_safe (decimal n) = number n
  json_safe (datetime t) = str t
  json_safe (date t) = str t
  json_safe (str s) = str s
  json_safe (sequence vs) = sequence (json_safe_items vs)
  json_safe (tuple vs) = sequence (json_safe_items vs)
  json_safe (dict fs) = dict (json_safe_fields fs)

  pub json_safe_items : Values → Values
  json_safe_items no_value = no_value
  json_safe_items (item v vs) = item (json_safe v) (json_safe_items vs)

  pub json_safe_fields : Fields → Fields
  json_safe_fields no_field = no_field
  json_safe_fields (field k v fs) = field k (json_safe v) (json_safe_fields fs)

unfoldable mutual
  pub redact_secrets : Value → Value
  redact_secrets null = null
  redact_secrets bytes = json_safe bytes
  redact_secrets (flag b) = flag b
  redact_secrets (number n) = number n
  redact_secrets (decimal n) = json_safe (decimal n)
  redact_secrets (datetime t) = json_safe (datetime t)
  redact_secrets (date t) = json_safe (date t)
  redact_secrets (str s) = if is_pem s then str "<redacted-pem>" else str s
  redact_secrets (sequence vs) = sequence (redact_items vs)
  redact_secrets (tuple vs) = json_safe (tuple vs)
  redact_secrets (dict fs) = dict (redact_fields fs)

  pub redact_items : Values → Values
  redact_items no_value = no_value
  redact_items (item v vs) = item (redact_secrets v) (redact_items vs)

  pub redact_fields : Fields → Fields
  redact_fields no_field = no_field
  redact_fields (field k v fs) =
      let redacted = redact_secrets v in
      field k (if is_secret_key k then str "<redacted>" else redacted) (redact_fields fs)

unfoldable pub truncate_text : String → ℕ → String
truncate_text value max_len =
    if leb max_len 0 || leb (count value) max_len
    then value
    else text_append (take_text (max_len - 15) value) "...<truncated>"

unfoldable pub limit_raw : (Value → String) → Fields → ℕ → Value
limit_raw dumps raw max_raw_len =
    let safe = redact_secrets (dict raw) in
    let encoded = dumps safe in
    if leb max_raw_len 0 || leb (count encoded) max_raw_len
    then safe
    else dict (
        field "truncated" (flag true)
          (field "preview" (str (truncate_text encoded max_raw_len)) no_field))
