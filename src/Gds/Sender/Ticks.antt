-- ===== src/Gds/Sender/Ticks.antt =====
-- `DmzCollectorSender._tick`, `_send` and one turn of `_run` of gds/app/dmz_collector_sender.py, with
-- `list_audit_events_after_id` of gds/app/db.py. Times are in whole seconds.
use opcua_implementaion.Prelude.{
  ℕ, ◌+◌, ◌-◌, max, String, Bool, true, false, Option, none, some, List, [], ◌∷◌, ◌++◌, map, take,
  where_list, leb, ltb, ◌==◌, string_eq, if◌then◌else◌, ◌⊎◌, inl, inr,
}
use opcua_implementaion.Gds.TrustLists.Query.{first_by, order_by}
use opcua_implementaion.Gds.Sender.Values.{Fields, no_field, field, flag, str}
use opcua_implementaion.Gds.Sender.Limit.{payload_within_limit}
use opcua_implementaion.Gds.Sender.Events.{
  Runtime, Limits, normalize_audit_event, normalize_db_snapshot_event, normalize_db_health_event,
  normalize_heartbeat_event,
}

-- A row of the audit table, with the number that its field `id` has.
pub record AuditRow : Type 0 where
  pub id : ℕ
  pub fields : Fields

unfoldable pub row_before : AuditRow → AuditRow → Bool
row_before a b = ltb a.id b.id

unfoldable pub list_audit_events_after_id : ℕ → ℕ → List AuditRow → List AuditRow
list_audit_events_after_id after_id limit rows =
    take limit (order_by row_before (where_list (λ r. ltb after_id r.id) rows))

pub record Sender : Type 0 where
  pub last_audit_id : ℕ
  pub last_token_warning_at : ℕ

pub record SenderSettings : Type 0 where
  pub limits : Limits
  pub batch_size : ℕ
  pub max_payload_bytes : ℕ
  pub health_interval_seconds : ℕ
  pub db_summary_interval_seconds : ℕ
  pub pg_db : String
  pub pg_host : String

-- What a tick meets: the table or the class of the error of its query, the two snapshots likewise,
-- the token, the time at which it is sent, and whether the post succeeds.
pub record World : Type 0 where
  pub audit_rows : String ⊎ List AuditRow
  pub full_health : Option Fields
  pub snapshot : String ⊎ Fields
  pub token : String
  pub sent_at : ℕ
  pub post_succeeds : Bool

-- What `_run` keeps between its turns.
pub record Loop : Type 0 where
  pub sender : Sender
  pub next_health_at : ℕ
  pub next_db_snapshot_at : ℕ

-- What becomes of the events of a tick.
pub data Sent : Type 0 where
  raised nothing no_token : Sent
  posted post_failed : List Fields → Sent

abbrev cursor_of : Option AuditRow → ℕ
cursor_of none = 0
cursor_of (some r) = r.id

-- `_initialize_last_audit_id`: the latest row's number, 0 where there is none or the query raises.
unfoldable pub initial_sender : String ⊎ List AuditRow → Sender
initial_sender (inl error_class) = record { last_audit_id = 0; last_token_warning_at = 0 }
initial_sender (inr rows) = record {
  last_audit_id = cursor_of (first_by (λ a b. row_before b a) rows);
  last_token_warning_at = 0;
}

-- The loop over the rows: `max(self.last_audit_id, int(row.get("id") or self.last_audit_id))`.
unfoldable pub advance : List AuditRow → ℕ → ℕ
advance [] last = last
advance (r ∷ rows) last = advance rows (max last r.id)

module _ (settings : SenderSettings) where
  abbrev pub batch : ℕ
  batch = max 1 settings.batch_size

  -- The rows that the query gives, none where it raises.
  unfoldable pub polled_rows : String ⊎ List AuditRow → ℕ → List AuditRow
  polled_rows (inl error_class) last = []
  polled_rows (inr rows) last = list_audit_events_after_id last batch rows

  module _ (runtime : Runtime) where
    abbrev failure : String → Fields → Fields
    failure error_class rest = field "ok" (flag false) (
        field "checked_at" (str runtime.utc_now_iso) (
          field "database" (str settings.pg_db)
            (field "host" (str settings.pg_host) (field "error_class" (str error_class) rest))))

    -- The events of the audit table, or the one that tells the failure of the query.
    unfoldable pub audit_part : String ⊎ List AuditRow → ℕ → List Fields
    audit_part (inl error_class) last =
        normalize_db_snapshot_event runtime settings.limits
          (failure error_class (field "source" (str "audit_events_poll") no_field))
        ∷ []
    audit_part (inr rows) last =
        map (λ (r : AuditRow). normalize_audit_event runtime settings.limits r.fields)
          (polled_rows (inr rows) last)

    -- The two events of the health check, where it is time; `none` where the check raises.
    unfoldable pub health_part : Bool → Option Fields → Option (List Fields)
    health_part false health = some []
    health_part true none = none
    health_part true (some health) = some (
        normalize_heartbeat_event runtime settings.limits health
        ∷ normalize_db_health_event runtime settings.limits health
        ∷ [])

    unfoldable pub snapshot_part : Bool → String ⊎ Fields → List Fields
    snapshot_part false snapshot = []
    snapshot_part true (inl error_class) =
        normalize_db_snapshot_event runtime settings.limits (failure error_class no_field) ∷ []
    snapshot_part true (inr snapshot) =
        normalize_db_snapshot_event runtime settings.limits snapshot ∷ []

    module _ (size : List Fields → ℕ) where
      unfoldable pub send : World → List Fields → Sender → Sent × Sender
      send world events sender =
          if world.token == ""
          then (
            no_token,
            (if leb 60 (world.sent_at - sender.last_token_warning_at)
                then record sender { last_token_warning_at = world.sent_at }
                else sender),
          )
          else (
            (let limited = payload_within_limit size settings.max_payload_bytes events in
                if world.post_succeeds then posted limited else post_failed limited),
            sender,
          )

      -- `if events: self._send(events)`, after a health check that may have raised.
      unfoldable pub send_some :
          World → List Fields → Option (List Fields) → List Fields → Sender → Sent × Sender
      send_some world audited none snapshots sender = (raised, sender)
      send_some world [] (some []) [] sender = (nothing, sender)
      send_some world audited (some health) snapshots sender =
          send world (audited ++ health ++ snapshots) sender

      unfoldable pub tick : World → ℕ → ℕ → ℕ → Sender → Sent × Sender
      tick world now next_health_at next_db_snapshot_at sender =
          let last = sender.last_audit_id in
          send_some world (audit_part world.audit_rows last)
            (health_part (leb next_health_at now) world.full_health)
            (snapshot_part (leb next_db_snapshot_at now) world.snapshot)
            (record sender { last_audit_id = advance (polled_rows world.audit_rows last) last })

      unfoldable pub planned : ℕ → Sender → Loop → Loop
      planned after sender loop = record {
        sender = sender;
        next_health_at =
            if leb loop.next_health_at after
            then after + max 1 settings.health_interval_seconds
            else loop.next_health_at;
        next_db_snapshot_at =
            if leb loop.next_db_snapshot_at after
            then after + max 1 settings.db_summary_interval_seconds
            else loop.next_db_snapshot_at;
      }

      -- The times of the next checks after a tick that did not raise; `after` is the time then.
      unfoldable pub reschedule : Sent → ℕ → Sender → Loop → Loop
      reschedule raised after sender loop = record loop { sender = sender }
      reschedule nothing after sender loop = planned after sender loop
      reschedule no_token after sender loop = planned after sender loop
      reschedule (posted events) after sender loop = planned after sender loop
      reschedule (post_failed events) after sender loop = planned after sender loop

      unfoldable pub turn : World → ℕ → ℕ → Loop → Sent × Loop
      turn world now after loop =
          let (sent, sender) =
            tick world now loop.next_health_at loop.next_db_snapshot_at loop.sender in
          (sent, reschedule sent after sender loop)
