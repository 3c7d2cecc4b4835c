-- ===== src/Gds/Sender/Events.antt =====
-- The events of gds/app/dmz_collector_sender.py: `_details`, `_timestamp_from`, `_target_parts`,
-- `_safe_fields`, `_base_event` and the functions that normalise. A set of names is a list: the order of
-- the fields that it gives, which Python leaves open, is the order of the source.
use Prim.Native.String.{◌++◌ as text_append}
use opcua_implementaion.Prelude.{
  ℕ, String, Bool, true, false, not, ◌&&◌, ◌||◌, Option, none, some, List, [], ◌∷◌, ◌==◌, string_eq,
  if◌then◌else◌,
}
use opcua_implementaion.Prelude.Text.{split}
use opcua_implementaion.Prelude.Dict.{Dict, get}
use opcua_implementaion.Gds.Sender.Values.{
  Value, null, bytes, flag, number, decimal, datetime, date, str, sequence, tuple, dict, no_value,
  item, Fields, no_field, field, get_field, put_field, merge,
}
use opcua_implementaion.Gds.Sender.Redact.{json_safe, redact_secrets, truncate_text, limit_raw}

-- What the runtime does for one event: `str()`, the truth of a number, the encoder and the parser of
-- JSON, the clock and the random identifier.
pub record Runtime : Type 0 where
  pub str_of : Value → String
  pub is_zero : String → Bool
  pub dumps : Value → String
  pub loads : String → Option Value
  pub utc_now_iso : String
  pub uuid4_hex : String

-- The two limits of the settings.
pub record Limits : Type 0 where
  pub max_message_len : ℕ
  pub max_raw_len : ℕ

-- SAFE_FIELD_NAMES
abbrev pub safe_field_names : List String
safe_field_names =
    "event_type" ∷ "actor" ∷ "target" ∷ "application_uri" ∷ "runtime_instance_id" ∷ "package_id"
    ∷ "request_id" ∷ "certificate_id" ∷ "fingerprint_sha256" ∷ "serial_number" ∷ "trustlist_zone"
    ∷ "trustlist_role" ∷ "trustlist_version" ∷ "artifact_revision" ∷ "artifact_sha256"
    ∷ "error_code" ∷ "correlation_id" ∷ "source_ip" ∷ "mtls_verify_status" ∷ []

-- The event's name, its category, its severity, and whether it may raise an alert.
pub record EventKind : Type 0 where
  pub event_name : String
  pub category : String
  pub severity : String
  pub alert_candidate : Bool

abbrev kind : String → String → String → Bool → EventKind
kind event_name category severity alert = record {
  event_name = event_name;
  category = category;
  severity = severity;
  alert_candidate = alert;
}

abbrev refused_request : EventKind
refused_request = kind "gds_unauthorized_request" "security" "warning" true

abbrev failed_enrollment : EventKind
failed_enrollment = kind "gds_enrollment_failed" "pki_lifecycle" "warning" true

-- AUDIT_EVENT_MAP
abbrev pub audit_event_map : Dict String EventKind
audit_event_map =
    ("application_register", kind "gds_client_registered" "pki_lifecycle" "info" false)
    ∷ ("certificate_request_created", kind "gds_enrollment_request" "pki_lifecycle" "info" false)
    ∷ ("certificate_renewal_requested", kind "gds_enrollment_request" "pki_lifecycle" "info" false)
    ∷ ("csr_validated", kind "gds_enrollment_approved" "pki_lifecycle" "info" false)
    ∷ (
      "component_enrollment_completed",
      kind "gds_enrollment_approved" "pki_lifecycle" "info" false,
    )
    ∷ ("csr_rejected", failed_enrollment)
    ∷ ("certificate_issue_failed", failed_enrollment)
    ∷ ("certificate_renewal_failed", failed_enrollment)
    ∷ ("certificate_issued", kind "gds_certificate_issued" "certificate_lifecycle" "info" true)
    ∷ (
      "certificate_renewal_packaged",
      kind "gds_certificate_renewed" "certificate_lifecycle" "info" true,
    )
    ∷ ("certificate_revoked", kind "gds_certificate_revoked" "certificate_lifecycle" "warning" true)
    ∷ (
      "certificate_revocation_crl_refreshed",
      kind "gds_certificate_revoked" "certificate_lifecycle" "warning" true,
    )
    ∷ ("trustlist_build", kind "gds_trust_list_updated" "pki_trust_sync" "info" false)
    ∷ ("artifact_regenerated", kind "gds_trust_list_published" "pki_trust_sync" "info" true)
    ∷ ("trustlist_artifact_rebuild", kind "gds_trust_list_published" "pki_trust_sync" "info" true)
    ∷ ("agent_auth_failure", refused_request)
    ∷ ("agent_unauthorized_pull", refused_request)
    ∷ ("mtls_client_identity_failure", refused_request)
    ∷ []

abbrev pub kind_or_default : Option EventKind → EventKind
kind_or_default none = kind "gds_audit_event" "audit" "info" false
kind_or_default (some k) = k

unfoldable pub kind_of : String → EventKind
kind_of audit_event_type = kind_or_default (get audit_event_type audit_event_map)

abbrev pub bool_text : Bool → String
bool_text true = "true"
bool_text false = "false"

-- `isinstance(value, dict)`, and `{}` otherwise.
abbrev pub dict_or_empty : Value → Fields
dict_or_empty (dict fs) = fs
dict_or_empty null = no_field
dict_or_empty bytes = no_field
dict_or_empty (flag b) = no_field
dict_or_empty (number n) = no_field
dict_or_empty (decimal n) = no_field
dict_or_empty (datetime t) = no_field
dict_or_empty (date t) = no_field
dict_or_empty (str s) = no_field
dict_or_empty (sequence vs) = no_field
dict_or_empty (tuple vs) = no_field

abbrev pub parsed_fields : Option Value → Fields
parsed_fields none = no_field
parsed_fields (some v) = dict_or_empty v

abbrev pub or_null : Option Value → Value
or_null none = null
or_null (some v) = v

-- `d.get(key, "")`
abbrev pub or_empty : Option Value → Value
or_empty none = str ""
or_empty (some v) = v

-- `value not in (None, "")`
unfoldable pub is_given : Value → Bool
is_given null = false
is_given (str s) = not (s == "")
is_given bytes = true
is_given (flag b) = true
is_given (number n) = true
is_given (decimal n) = true
is_given (datetime t) = true
is_given (date t) = true
is_given (sequence vs) = true
is_given (tuple vs) = true
is_given (dict fs) = true

unfoldable pub target_fields : List String → Fields
target_fields (kind_name ∷ zone ∷ role ∷ rest) =
    if kind_name == "trustlist"
      || kind_name == "trustlist_artifact"
      || kind_name == "trustlist_artifact_sig"
      || kind_name == "trustlist_artifact_canonical"
    then field "trustlist_zone" (str zone) (field "trustlist_role" (str role) no_field)
    else if kind_name == "certificate" && not (zone == "")
    then field "certificate_id" (str zone) no_field
    else no_field
target_fields (kind_name ∷ id ∷ []) =
    if kind_name == "certificate" && not (id == "")
    then field "certificate_id" (str id) no_field
    else no_field
target_fields (kind_name ∷ []) = no_field
target_fields [] = no_field

unfoldable pub target_parts : String → Fields
target_parts target = target_fields (split b':' target)

-- The loop over SAFE_FIELD_NAMES, whose names are different.
unfoldable pub pick_safe : List String → Fields → Fields
pick_safe [] merged = no_field
pick_safe (key ∷ keys) merged =
    let value = or_null (get_field key merged) in
    let rest = pick_safe keys merged in
    if is_given value then field key (json_safe value) rest else rest

abbrev pub is_present : Option Value → Bool
is_present none = false
is_present (some v) = true

module _ (runtime : Runtime) where
  -- `bool(value)`
  unfoldable pub is_true : Value → Bool
  is_true null = false
  is_true bytes = true
  is_true (flag b) = b
  is_true (number n) = not (runtime.is_zero n)
  is_true (decimal n) = not (runtime.is_zero n)
  is_true (datetime t) = true
  is_true (date t) = true
  is_true (str s) = not (s == "")
  is_true (sequence no_value) = false
  is_true (sequence (item v vs)) = true
  is_true (tuple no_value) = false
  is_true (tuple (item v vs)) = true
  is_true (dict no_field) = false
  is_true (dict (field k v fs)) = true

  -- `str(row.get(key) or default)`
  unfoldable pub str_or : String → String → Fields → String
  str_or default key row =
      let value = or_null (get_field key row) in
      if is_true value then runtime.str_of value else default

  abbrev pub details_of : Value → Fields
  details_of (str s) = if s == "" then no_field else parsed_fields (runtime.loads s)
  details_of (dict fs) = fs
  details_of null = no_field
  details_of bytes = no_field
  details_of (flag b) = no_field
  details_of (number n) = no_field
  details_of (decimal n) = no_field
  details_of (datetime t) = no_field
  details_of (date t) = no_field
  details_of (sequence vs) = no_field
  details_of (tuple vs) = no_field

  unfoldable pub details : Fields → Fields
  details row = details_of (or_null (get_field "details_json" row))

  abbrev pub stamp : Value → Option String
  stamp (datetime t) = some t
  stamp null = none
  stamp bytes = some (runtime.str_of bytes)
  stamp (flag b) = if b then some (runtime.str_of (flag b)) else none
  stamp (number n) = if runtime.is_zero n then none else some (runtime.str_of (number n))
  stamp (decimal n) = if runtime.is_zero n then none else some (runtime.str_of (decimal n))
  stamp (date t) = some (runtime.str_of (date t))
  stamp (str s) = if s == "" then none else some (runtime.str_of (str s))
  stamp (sequence vs) = if is_true (sequence vs) then some (runtime.str_of (sequence vs)) else none
  stamp (tuple vs) = if is_true (tuple vs) then some (runtime.str_of (tuple vs)) else none
  stamp (dict fs) = if is_true (dict fs) then some (runtime.str_of (dict fs)) else none

  unfoldable pub first_stamp : List String → Fields → String
  first_stamp [] values = runtime.utc_now_iso
  first_stamp (key ∷ keys) values =
      let rest = first_stamp keys values in
      elim (stamp (or_null (get_field key values))) [ none ↦ rest | some t ↦ t ]

  unfoldable pub timestamp_from : Fields → String
  timestamp_from values =
      first_stamp
        ("created_at" ∷ "generated_at" ∷ "reported_at" ∷ "ts" ∷ "timestamp" ∷ "checked_at" ∷ [])
        values

  unfoldable pub safe_fields : Fields → Fields → Fields
  safe_fields row row_details =
      let merged = merge (merge row row_details) (target_parts (str_or "" "target" row)) in
      let fields = pick_safe safe_field_names merged in
      if is_present (get_field "verify" row_details)
        && not (is_present (get_field "mtls_verify_status" fields))
      then put_field "mtls_verify_status" (or_null (get_field "verify" row_details)) fields
      else fields

  module _ (limits : Limits) where
    -- No caller passes an `event_id` among the tags, whose names are the fixed ones and the safe ones.
    unfoldable pub base_event : EventKind → String → String → Fields → Fields → Fields
    base_event k message timestamp raw tags = field "id" (str runtime.uuid4_hex) (
        field "timestamp" (str timestamp) (
          field "zone" (str "DMZ") (
            field "source_type" (str "gds") (
              field "sourcetype" (str "labshock:dmz:gds") (
                field "asset_name" (str "labshock_gds") (
                  field "asset_ip" (str "192.168.10.30") (
                    field "severity" (str k.severity) (
                      field "protocol" (str "http") (
                        field "event_category" (str k.category) (
                          field "message" (str (truncate_text message limits.max_message_len)) (
                            field "raw" (limit_raw runtime.dumps raw limits.max_raw_len) (
                              field "tags"
                                (dict (
                                  put_field "gds_event" (str k.event_name)
                                    (dict_or_empty (redact_secrets (dict tags)))))
                                no_field))))))))))))

    unfoldable pub normalize_audit_event : Fields → Fields
    normalize_audit_event row =
        let row_details = details row in
        let audit_event_type = str_or "gds_audit_event" "event_type" row in
        let k = kind_of audit_event_type in
        let tags =
          merge
            (field "source_table" (str "audit_events") (
              field "audit_event_type" (str audit_event_type)
                (field "alert_candidate" (str (bool_text k.alert_candidate)) no_field)))
            (safe_fields row row_details) in
        let raw = field "audit_row" (dict row) (
          field "details" (dict row_details)
            (field "normalized_event" (str k.event_name) no_field)) in
        base_event k (text_append k.event_name (text_append ": " audit_event_type))
          (timestamp_from row) raw tags

    unfoldable pub normalize_db_snapshot_event : Fields → Fields
    normalize_db_snapshot_event snapshot =
        let ok = is_true (or_null (get_field "ok" snapshot)) in
        let event_name = if ok then "gds_db_snapshot" else "gds_db_disconnected" in
        base_event
          (record {
            event_name = event_name;
            category = if ok then "system_health" else "error";
            severity = if ok then "info" else "critical";
            alert_candidate = not ok;
          })
          event_name (timestamp_from snapshot) (field "db_snapshot" (dict snapshot) no_field)
          (field "source_table" (str "gds_db_telemetry") (
            field "alert_candidate" (str (if ok then "false" else "true")) (
              field "database" (or_empty (get_field "database" snapshot))
                (field "db_host" (or_empty (get_field "host" snapshot)) no_field))))

    -- `health` comes as the dict that `full_health` returns.
    unfoldable pub normalize_db_health_event : Fields → Fields
    normalize_db_health_event health =
        let components = dict_or_empty (or_null (get_field "components" health)) in
        let postgres = dict_or_empty (or_null (get_field "postgres" components)) in
        let ok = is_true (or_null (get_field "ok" postgres)) in
        let event_name = if ok then "gds_db_connected" else "gds_db_disconnected" in
        base_event
          (record {
            event_name = event_name;
            category = if ok then "system_health" else "error";
            severity = if ok then "info" else "critical";
            alert_candidate = not ok;
          })
          event_name runtime.utc_now_iso (field "health" (dict health) no_field)
          (field "source_table" (str "gds_health") (
            field "alert_candidate" (str (if ok then "false" else "true"))
              (field "postgres_ok" (str (bool_text ok)) no_field)))

    unfoldable pub normalize_heartbeat_event : Fields → Fields
    normalize_heartbeat_event health =
        let ok = is_true (or_null (get_field "ok" health)) in
        base_event
          (record {
            event_name = "gds_heartbeat";
            category = if ok then "system_health" else "error";
            severity = if ok then "info" else "warning";
            alert_candidate = not ok;
          })
          "gds_heartbeat" runtime.utc_now_iso (field "health" (dict health) no_field)
          (field "source_table" (str "gds_health") (
            field "alert_candidate" (str (if ok then "false" else "true"))
              (field "health_ok" (str (bool_text ok)) no_field)))
