-- ===== src/Gds/Sender/Tests.antt =====
-- Events with secrets, a list of events over the limit, and ticks over three rows.
use opcua_implementaion.Prelude.{
  ℕ, zero, suc, ◌≤◌, ◌*◌, true, false, none, List, [], ◌∷◌, ◌++◌, length, take, ◌≡◌, ◌↔◌, refl,
  arith, inl, inr,
}
use opcua_implementaion.Prelude.Text.{strip, lower, replace_char, has_text}
use opcua_implementaion.Gds.Sender.Values.{
  Value, number, str, dict, Fields, no_field, field, get_field,
}
use opcua_implementaion.Gds.Sender.Redact.{is_secret_key, is_pem, json_safe, redact_secrets}
use opcua_implementaion.Gds.Sender.Redacted.{
  is_clean, is_plain, are_plain_fields, redact_secrets-is_clean, redact_secrets_fixes,
}
use opcua_implementaion.Gds.Sender.Limit.{
  trim, payload_within_limit, IsLongest, payload_within_limit-IsLongest,
}
use opcua_implementaion.Gds.Sender.Events.{Runtime, Limits, details, normalize_audit_event}
use opcua_implementaion.Gds.Sender.Published.{IsSafeEvent, normalize_audit_event-IsSafeEvent}
use opcua_implementaion.Gds.Sender.Ticks.{
  AuditRow, row_before, list_audit_events_after_id, Sender, SenderSettings, World, polled_rows,
  tick,
}
use opcua_implementaion.Gds.Sender.Cursor.{Ticks, HasRead, ticks-HasRead, run_ticks, ticks_drain}

abbrev row : Fields
row = field "id" (number "7") (
    field "event_type" (str "certificate_issued") (
      field "Client-Token" (str "s.abc") (
        field "details_json"
          (dict (
            field "note" (str "-----BEGIN CERTIFICATE-----")
              (field "request_id" (str "r1") no_field)))
          no_field)))

abbrev redacted_row : Value
redacted_row = dict (
    field "id" (number "7") (
      field "event_type" (str "certificate_issued") (
        field "Client-Token" (str "<redacted>") (
          field "details_json"
            (dict (field "note" (str "<redacted-pem>") (field "request_id" (str "r1") no_field)))
            no_field))))

redacts_row : redact_secrets (dict row) ≡ redacted_row
unfolding redact_secrets json_safe is_secret_key is_pem strip lower replace_char has_text
redacts_row = refl

row_is_plain : are_plain_fields row ≡ true
unfolding is_plain
row_is_plain = refl

row-is_plain_value : is_plain (dict row) ≡ true
unfolding is_plain
row-is_plain_value = refl

redact_secrets-is_clean_test : is_clean (redact_secrets (dict row)) ≡ true
redact_secrets-is_clean_test = redact_secrets-is_clean (dict row) row-is_plain_value

redact_secrets_fixes_test :
    ((redact_secrets (dict row) ≡ dict row) ↔ (is_clean (dict row) ≡ true))
    × (redact_secrets (redact_secrets (dict row)) ≡ redact_secrets (dict row))
redact_secrets_fixes_test = redact_secrets_fixes (dict row) row-is_plain_value

abbrev runtime : Runtime
runtime = record {
  str_of = λ v. "certificate_issued";
  is_zero = λ n. false;
  dumps = λ v. "{}";
  loads = λ s. none;
  utc_now_iso = "2026-01-01T00:00:00Z";
  uuid4_hex = "0";
}

abbrev limits : Limits
limits = record { max_message_len = 512; max_raw_len = 4096 }

details_are_plain : are_plain_fields (details runtime row) ≡ true
unfolding details is_plain get_field
details_are_plain = refl

normalize_audit_event-IsSafeEvent_test :
    IsSafeEvent runtime.dumps (normalize_audit_event runtime limits row)
normalize_audit_event-IsSafeEvent_test =
    normalize_audit_event-IsSafeEvent runtime limits row row_is_plain details_are_plain

abbrev size : List ℕ → ℕ
size events = length events * 10

two_fit : payload_within_limit size 25 (1 ∷ 2 ∷ 3 ∷ []) ≡ 1 ∷ 2 ∷ []
unfolding payload_within_limit trim
two_fit = refl

one_is_sent : payload_within_limit size 5 (1 ∷ 2 ∷ 3 ∷ []) ≡ 1 ∷ []
unfolding payload_within_limit trim
one_is_sent = refl

length-take_mono : (xs : List ℕ) (k j : ℕ) → k ≤ j → length (take k xs) ≤ length (take j xs)
length-take_mono xs zero j h = omega arith
length-take_mono [] (suc k) j h = omega arith
length-take_mono (x ∷ xs) (suc k) zero h = absurd (omega arith)
length-take_mono (x ∷ xs) (suc k) (suc j) h = omega (arith, length-take_mono xs k j (omega arith))

payload_within_limit-IsLongest_example : IsLongest size 25 (1 ∷ 2 ∷ 3 ∷ [])
payload_within_limit-IsLongest_example =
    payload_within_limit-IsLongest size 25 1 (2 ∷ 3 ∷ []) (omega arith)
      (λ k j h. omega (arith, length-take_mono (1 ∷ 2 ∷ 3 ∷ []) k j h))

abbrev audit_row : ℕ → AuditRow
audit_row id = record { id = id; fields = row }

abbrev settings : SenderSettings
settings = record {
  limits = limits;
  batch_size = 2;
  max_payload_bytes = 0;
  health_interval_seconds = 60;
  db_summary_interval_seconds = 300;
  pg_db = "gds";
  pg_host = "db";
}

abbrev world : List AuditRow → World
world rows = record {
  audit_rows = inr rows;
  full_health = none;
  snapshot = inl "OperationalError";
  token = "t";
  sent_at = 9;
  post_succeeds = true;
}

abbrev first : Sender
first = record { last_audit_id = 4; last_token_warning_at = 0 }

abbrev old_rows : List AuditRow
old_rows = audit_row 4 ∷ []

abbrev new_rows : List AuditRow
new_rows = audit_row 5 ∷ audit_row 7 ∷ audit_row 8 ∷ []

abbrev sizes : List Fields → ℕ
sizes events = length events

reads_two : polled_rows settings (inr (old_rows ++ new_rows)) 4 ≡ audit_row 5 ∷ audit_row 7 ∷ []
unfolding polled_rows list_audit_events_after_id row_before
reads_two = refl

ticks-HasRead_example :
    HasRead settings runtime sizes 4 new_rows
      (polled_rows settings (inr (old_rows ++ new_rows)) 4)
      (tick settings runtime sizes (world (old_rows ++ new_rows)) 9 20 30 first).1
ticks-HasRead_example =
    ticks-HasRead settings runtime sizes 4 old_rows first new_rows
      (polled_rows settings (inr (old_rows ++ new_rows)) 4)
      (tick settings runtime sizes (world (old_rows ++ new_rows)) 9 20 30 first).1
      (Ticks.ticked [] [] new_rows first (world (old_rows ++ new_rows)) 9 20 30 Ticks.start refl)
      refl (omega arith, tt) (omega arith, (omega arith, (omega arith, tt)))

ticks_drain_test :
    (run_ticks settings runtime sizes
      ((world (old_rows ++ new_rows), (9, (20, 30)))
        ∷ (world (old_rows ++ new_rows), (15, (20, 30)))
        ∷ [])
      first).last_audit_id
    ≡ 8
ticks_drain_test =
    ticks_drain settings runtime sizes 4 old_rows new_rows [] new_rows first
      ((world (old_rows ++ new_rows), (9, (20, 30)))
        ∷ (world (old_rows ++ new_rows), (15, (20, 30)))
        ∷ [])
      (omega arith, tt) (omega arith, (omega arith, (omega arith, tt))) refl refl (refl, (refl, tt))
      (omega arith)
