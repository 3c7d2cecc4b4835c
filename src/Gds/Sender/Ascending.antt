-- ===== src/Gds/Sender/Ascending.antt =====
-- Rows of the audit table in the order of their numbers.
use opcua_implementaion.Prelude.{
  ℕ, zero, suc, ◌+◌, ◌≤◌, ◌<◌, max, List, [], ◌∷◌, ◌++◌, length, take, where_list, All, ltb, ◌≡◌,
  refl, ◌∙◌, arith,
}
use opcua_implementaion.Gds.TrustLists.Query.{order_by, where_list-append}
use opcua_implementaion.Gds.Sender.Ticks.{AuditRow, row_before, list_audit_events_after_id, advance}

-- The numbers of the rows go up from a number.
abbrev pub Ascends : ℕ → List AuditRow → Type 0
Ascends low [] = Unit
Ascends low (r ∷ rows) = (low < r.id) × Ascends r.id rows

-- The number of the last row.
abbrev pub last_id : ℕ → List AuditRow → ℕ
last_id low [] = low
last_id low (r ∷ rows) = last_id r.id rows

abbrev pub drop : ℕ → List AuditRow → List AuditRow
drop zero rows = rows
drop (suc n) [] = []
drop (suc n) (r ∷ rows) = drop n rows

pub Ascends-append :
    (low : ℕ) (xs ys : List AuditRow)
    → Ascends low (xs ++ ys)
    → Ascends low xs × Ascends (last_id low xs) ys
Ascends-append low [] ys h = (tt, h)
Ascends-append low (x ∷ xs) ys (above, h) =
    let (left, right) = Ascends-append x.id xs ys h in ((above, left), right)

pub last_id-append :
    (low : ℕ) (xs ys : List AuditRow) → last_id low (xs ++ ys) ≡ last_id (last_id low xs) ys
last_id-append low [] ys = refl
last_id-append low (x ∷ xs) ys = last_id-append x.id xs ys

pub last_id-le : (low : ℕ) (xs : List AuditRow) → Ascends low xs → low ≤ last_id low xs
last_id-le low [] h = omega arith
last_id-le low (x ∷ xs) (above, h) = omega (arith, last_id-le x.id xs h, above)

pub take-drop : (n : ℕ) (xs : List AuditRow) → take n xs ++ drop n xs ≡ xs
take-drop zero xs = refl
take-drop (suc n) [] = refl
take-drop (suc n) (x ∷ xs) = rw (take-drop n xs) refl

-- A table in the order of its numbers is not reordered.
order_by-ascending :
    (low : ℕ) (rows : List AuditRow) → Ascends low rows → order_by row_before rows ≡ rows
unfolding row_before
order_by-ascending low [] h = refl
order_by-ascending low (x ∷ []) h = refl
order_by-ascending low (x ∷ y ∷ rows) (above, (next, h)) =
    let sorted = order_by-ascending x.id (y ∷ rows) (next, h) in rw sorted (ground arith)

all_later :
    (cursor low : ℕ) (rows : List AuditRow)
    → cursor ≤ low
    → Ascends low rows
    → where_list (λ r. ltb cursor r.id) rows ≡ rows
all_later cursor low [] le h = refl
all_later cursor low (x ∷ rows) le (above, h) =
    let rest = all_later cursor x.id rows (omega arith) h in ground (arith, rest)

none_later :
    (cursor : ℕ) (rows : List AuditRow)
    → All (λ r. r.id ≤ cursor) rows
    → where_list (λ r. ltb cursor r.id) rows ≡ []
none_later cursor [] h = refl
none_later cursor (x ∷ rows) (le, h) = ground (arith, none_later cursor rows h)

earlier :
    (low : ℕ) (rows : List AuditRow) → Ascends low rows → All (λ r. r.id ≤ last_id low rows) rows
earlier low [] h = tt
earlier low (x ∷ rows) (above, h) = (last_id-le x.id rows h, earlier x.id rows h)

All-weaken :
    (a b : ℕ) (rows : List AuditRow) → a ≤ b → All (λ r. r.id ≤ a) rows → All (λ r. r.id ≤ b) rows
All-weaken a b [] le h = tt
All-weaken a b (x ∷ rows) le (hx, h) = (omega arith, All-weaken a b rows le h)

pub advance-last_id :
    (low : ℕ) (rows : List AuditRow) → Ascends low rows → advance rows low ≡ last_id low rows
unfolding advance
advance-last_id low [] h = refl
advance-last_id low (x ∷ rows) (above, h) =
    let greater : max low x.id ≡ x.id = omega arith in rw greater (advance-last_id x.id rows h)

-- With a table of old rows, rows that were read, and rows that go up from the cursor, the query reads
-- the first of the last.
pub reads_pending :
    (low limit : ℕ) (old read pending : List AuditRow)
    → All (λ r. r.id ≤ low) old
    → Ascends low (read ++ pending)
    → list_audit_events_after_id (last_id low read) limit (old ++ (read ++ pending))
      ≡ take limit pending
unfolding list_audit_events_after_id
reads_pending low limit old read pending are_old ascends =
    let (left, right) = Ascends-append low read pending ascends in
    let cursor = last_id low read in
    let le = last_id-le low read left in
    let step_old = none_later cursor old (All-weaken low cursor old le are_old) in
    let step_read = none_later cursor read (earlier low read left) in
    let step_pending = all_later cursor cursor pending (omega arith) right in
    let kept : where_list (λ r. ltb cursor r.id) (old ++ (read ++ pending)) ≡ pending =
      where_list-append (λ r. ltb cursor r.id) old (read ++ pending)
      ∙ rw (step_old, where_list-append (λ r. ltb cursor r.id) read pending, step_read)
          step_pending in
    rw (kept, order_by-ascending cursor pending right) refl

pub length-drop-le : (n m : ℕ) (xs : List AuditRow) → length xs ≤ n + m → length (drop n xs) ≤ m
length-drop-le zero m xs h = omega arith
length-drop-le (suc n) m [] h = omega arith
length-drop-le (suc n) m (x ∷ xs) h = length-drop-le n m xs (omega arith)
