-- ===== src/Gds/Sender/Cursor.antt =====
-- The cursor of the sender over the audit table.
use opcua_implementaion.Prelude.{
  append_nil, append_assoc, ℕ, ◌≤◌, String, Option, none, some, List, [], ◌∷◌, ◌++◌, length, take,
  ◌*◌, All, ◌≡◌, refl, sym, ap, subst, ◌∙◌, arith, inl, inr,
}
use opcua_implementaion.Gds.Sender.Values.{Fields}
use opcua_implementaion.Gds.Sender.Events.{Runtime}
use opcua_implementaion.Gds.Sender.Ascending.{
  Ascends, last_id, drop, Ascends-append, last_id-append, take-drop, length-drop-le,
  advance-last_id, reads_pending,
}
use opcua_implementaion.Gds.Sender.Ticks.{
  AuditRow, list_audit_events_after_id, Sender, SenderSettings, World, advance, batch, polled_rows,
  send, send_some, tick,
}

module _ (settings : SenderSettings) (runtime : Runtime) (size : List Fields → ℕ) where
  -- Ticks of a sender over a table of rows that are there at the start and rows that come later, with
  -- the rows that it has read. A tick may find new rows, or a query that raises.
  pub data Ticks (old : List AuditRow) (first : Sender)
      : List AuditRow → List AuditRow → Sender → Type 0 where
    start : Ticks old first [] [] first
    ticked :
        (rows read new : List AuditRow) (s : Sender) (world : World) (now health snapshot : ℕ)
        → Ticks old first rows read s
        → world.audit_rows ≡ inr (old ++ (rows ++ new))
        → Ticks old first
            (rows ++ new)
            (read ++ polled_rows settings world.audit_rows s.last_audit_id)
            (tick settings runtime size world now health snapshot s).1
    failed :
        (rows read : List AuditRow) (s : Sender) (world : World) (error_class : String)
        (now health snapshot : ℕ)
        → Ticks old first rows read s
        → world.audit_rows ≡ inl error_class
        → Ticks old first rows read (tick settings runtime size world now health snapshot s).1

  -- Where the sender stands: what it has read is a beginning of what came, up to its cursor.
  pub record HasRead (low : ℕ) (rows read : List AuditRow) (s : Sender) : Type 0 where
    pub pending : List AuditRow
    pub in_order : rows ≡ read ++ pending
    pub cursor : s.last_audit_id ≡ last_id low read

  send-cursor :
      (world : World) (events : List Fields) (s : Sender)
      → (send settings runtime size world events s).1.last_audit_id ≡ s.last_audit_id
  unfolding send
  send-cursor world events s = ground arith

  send_some-cursor :
      (world : World) (audited : List Fields) (health : Option (List Fields)) (rest : List Fields)
      (s : Sender)
      → (send_some settings runtime size world audited health rest s).1.last_audit_id
        ≡ s.last_audit_id
  unfolding send_some
  send_some-cursor world audited none rest s = refl
  send_some-cursor world [] (some []) [] s = refl
  send_some-cursor world (a ∷ audited) (some health) rest s = send-cursor world _ s
  send_some-cursor world [] (some (h ∷ health)) rest s = send-cursor world _ s
  send_some-cursor world [] (some []) (r ∷ rest) s = send-cursor world _ s

  tick-cursor :
      (world : World) (now health snapshot : ℕ) (s : Sender)
      → (tick settings runtime size world now health snapshot s).1.last_audit_id
        ≡ advance (polled_rows settings world.audit_rows s.last_audit_id) s.last_audit_id
  unfolding tick
  tick-cursor world now health snapshot s = send_some-cursor world _ _ _ _

  polled_table :
      (world : World) (rows : List AuditRow) (last : ℕ)
      → world.audit_rows ≡ inr rows
      → polled_rows settings world.audit_rows last
        ≡ list_audit_events_after_id last (batch settings) rows
  unfolding polled_rows
  polled_table world rows last h = rw h refl

  polled_failure :
      (world : World) (error_class : String) (last : ℕ)
      → world.audit_rows ≡ inl error_class
      → polled_rows settings world.audit_rows last ≡ []
  unfolding polled_rows
  polled_failure world error_class last h = rw h refl

  -- One tick over a table of old rows, rows that were read, and pending rows.
  reads_batch :
      (low : ℕ) (old read pending : List AuditRow) (s : Sender) (world : World)
      (now health snapshot : ℕ)
      → All (λ r. r.id ≤ low) old
      → Ascends low (read ++ pending)
      → world.audit_rows ≡ inr (old ++ (read ++ pending))
      → s.last_audit_id ≡ last_id low read
      → (polled_rows settings world.audit_rows s.last_audit_id ≡ take (batch settings) pending)
        × ((tick settings runtime size world now health snapshot s).1.last_audit_id
            ≡ last_id low (read ++ take (batch settings) pending))
  reads_batch low old read pending s world now health snapshot are_old goes_up seen at =
      let n = batch settings in
      let polled : polled_rows settings world.audit_rows s.last_audit_id ≡ take n pending =
        polled_table world (old ++ (read ++ pending)) s.last_audit_id seen
        ∙ rw at (reads_pending low n old read pending are_old goes_up) in
      let batch_up : Ascends (last_id low read) (take n pending) =
        (Ascends-append (last_id low read) (take n pending) (drop n pending) (
          subst (Ascends (last_id low read)) (sym (take-drop n pending))
            (Ascends-append low read pending goes_up).1)).0 in
      (
        polled,
        tick-cursor world now health snapshot s
            ∙ rw (polled, at)
                (advance-last_id (last_id low read) (take n pending) batch_up
                  ∙ sym (last_id-append low read (take n pending))),
      )

  rest_of :
      (n : ℕ) (read pending : List AuditRow)
      → (read ++ take n pending) ++ drop n pending ≡ read ++ pending
  rest_of n read pending =
      append_assoc read (take n pending) (drop n pending)
      ∙ ap (λ (t : List AuditRow). read ++ t) (take-drop n pending)

  reads_next :
      (low : ℕ) (old rows read new : List AuditRow) (s : Sender) (world : World)
      (now health snapshot : ℕ)
      → All (λ r. r.id ≤ low) old
      → Ascends low (rows ++ new)
      → world.audit_rows ≡ inr (old ++ (rows ++ new))
      → HasRead low rows read s
      → HasRead low
          (rows ++ new)
          (read ++ polled_rows settings world.audit_rows s.last_audit_id)
          (tick settings runtime size world now health snapshot s).1
  reads_next low old rows read new s world now health snapshot are_old ascends seen before =
      let n = batch settings in
      let pending = before.pending ++ new in
      let split : rows ++ new ≡ read ++ pending =
        rw before.in_order (append_assoc read before.pending new) in
      let (polled, cursor) =
        reads_batch low old read pending s world now health snapshot are_old
          (subst (Ascends low) split ascends)
          (seen ∙ ap (λ (t : List AuditRow). inr (old ++ t)) split) before.cursor in
      rw polled (record {
        pending = drop n pending;
        in_order = split ∙ sym (rest_of n read pending);
        cursor = cursor;
      })

  -- The rows that have come and go up from the cursor of the start were read each once and in their
  -- order, up to the cursor, whatever failed on the way; the old ones are not read.
  pub ticks-HasRead :
      (low : ℕ) (old : List AuditRow) (first : Sender) (rows read : List AuditRow) (s : Sender)
      → Ticks old first rows read s
      → first.last_audit_id ≡ low
      → All (λ r. r.id ≤ low) old
      → Ascends low rows
      → HasRead low rows read s
  unfolding advance
  ticks-HasRead low old first rows read s start at are_old ascends = record {
    pending = [];
    in_order = refl;
    cursor = at;
  }
  ticks-HasRead low old first rows read s
        (ticked rows₁ read₁ new s₁ world now health snapshot before seen) at are_old ascends =
      reads_next low old rows₁ read₁ new s₁ world now health snapshot are_old ascends seen (
        ticks-HasRead low old first rows₁ read₁ s₁ before at are_old
          (Ascends-append low rows₁ new ascends).0)
  ticks-HasRead low old first rows read s
        (failed rows₁ read₁ s₁ world error_class now health snapshot before seen) at are_old
        ascends =
      let rest = ticks-HasRead low old first rows₁ read₁ s₁ before at are_old ascends in
      record {
        pending = rest.pending;
        in_order = rest.in_order;
        cursor =
            tick-cursor world now health snapshot s₁
            ∙ rw (polled_failure world error_class s₁.last_audit_id seen) rest.cursor;
      }

  -- Ticks one after the other, each with its time and those of its checks.
  unfoldable pub run_ticks : List (World × (ℕ × (ℕ × ℕ))) → Sender → Sender
  run_ticks [] s = s
  run_ticks ((world, (now, (health, snapshot))) ∷ later) s =
      run_ticks later (tick settings runtime size world now health snapshot s).1

  -- Where every query succeeds and shows the same rows, a sender that has read a beginning of them, up
  -- to its cursor, has its cursor at the last row after as many ticks as the pending rows fill batches.
  pub ticks_drain :
      (low : ℕ) (old rows read pending : List AuditRow) (s : Sender)
      (inputs : List (World × (ℕ × (ℕ × ℕ))))
      → All (λ r. r.id ≤ low) old
      → Ascends low rows
      → rows ≡ read ++ pending
      → s.last_audit_id ≡ last_id low read
      → All (λ i. i.0.audit_rows ≡ inr (old ++ rows)) inputs
      → length pending ≤ length inputs * batch settings
      → (run_ticks inputs s).last_audit_id ≡ last_id low rows
  unfolding run_ticks
  ticks_drain low old rows read [] s [] are_old ascends split at seen enough =
      rw (split, append_nil read) at
  ticks_drain low old rows read (x ∷ pending) s [] are_old ascends split at seen enough =
      absurd (omega arith)
  ticks_drain low old rows read pending s ((world, (now, (health, snapshot))) ∷ later) are_old
        ascends split at (here, seen) enough =
      let n = batch settings in
      let (polled, cursor) =
        reads_batch low old read pending s world now health snapshot are_old
          (subst (Ascends low) split ascends)
          (here ∙ ap (λ (t : List AuditRow). inr (old ++ t)) split) at in
      let left : length (drop n pending) ≤ length later * n =
        length-drop-le n (length later * n) pending (omega (arith, enough)) in
      ticks_drain low old rows (read ++ take n pending) (drop n pending)
        (tick settings runtime size world now health snapshot s).1 later are_old ascends
        (split ∙ sym (rest_of n read pending)) cursor seen left
