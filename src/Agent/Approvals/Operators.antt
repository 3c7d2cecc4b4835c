-- ===== src/Agent/Approvals/Operators.antt =====
-- Dual approval takes two operators.
use text.Mathlib.TextPositions.{compare_refl, eq_refl}
use opcua_implementaion.Prelude.{
  String, Bool, true, false, some, List, [], ◌∷◌, any, All, length, ◌==◌, string_eq, ◌≡◌, ◌≢◌, leb,
  take, arith, Bool-cases, inl, inr, eq_iff, sym,
}
use opcua_implementaion.Prelude.Text.{strip}
use opcua_implementaion.Agent.Maintenance.Entries.{dual}
use opcua_implementaion.Agent.Approvals.Records.{Approval, name_lt}
use opcua_implementaion.Agent.Approvals.Active.{
  ApprovalSummary, approved_dual, add_operator, unique_operators, active_approval,
}

-- The first of a list, if there is one, is another name.
abbrev HeadNe : String → List String → Type 0
HeadNe x [] = Unit
HeadNe x (y ∷ ys) = x ≢ y

-- Neighbours differ.
abbrev Apart : List String → Type 0
Apart [] = Unit
Apart (x ∷ xs) = HeadNe x xs × Apart xs

name_lt-ne : (x y : String) → name_lt x y ≡ true → x ≢ y
name_lt-ne x y h e = cc (compare_refl y)

ne_of_test : (x y : String) → x == y ≡ false → y ≢ x
ne_of_test x y h e = cc ((eq_iff x y).1 (sym e))

HeadNe-add_operator :
    (y x : String) (zs : List String) → y ≢ x → HeadNe y zs → HeadNe y (add_operator x zs)
unfolding add_operator
HeadNe-add_operator y x [] ne h = ne
HeadNe-add_operator y x (z ∷ zs) ne h = elim (Bool-cases (name_lt x z)) [
  | inl before ↦ rw before ne
  | inr after ↦ elim (Bool-cases (x == z)) [
    | inl same ↦ rw (after, same) h
    | inr other ↦ rw (after, other) h
  ]
]

add_operator-Apart : (x : String) (ys : List String) → Apart ys → Apart (add_operator x ys)
unfolding add_operator
add_operator-Apart x [] h = (tt, tt)
add_operator-Apart x (y ∷ ys) h = elim (Bool-cases (name_lt x y)) [
  | inl before ↦ rw before (name_lt-ne x y before, h)
  | inr after ↦ elim (Bool-cases (x == y)) [
    | inl same ↦ rw (after, same) h
    | inr other ↦
        rw (after, other)
          (HeadNe-add_operator y x ys (ne_of_test x y other) h.0, add_operator-Apart x ys h.1)
  ]
]

unique_operators-Apart : (approvals : List Approval) → Apart (unique_operators approvals)
unfolding unique_operators
unique_operators-Apart [] = tt
unique_operators-Apart (a ∷ rest) = elim (Bool-cases (strip a.operator == "")) [
  | inl blank ↦ rw blank (unique_operators-Apart rest)
  | inr named ↦
      rw named (
        add_operator-Apart (strip a.operator) (unique_operators rest) (unique_operators-Apart rest))
]

-- An operator of that name, spaces aside, has an approval.
abbrev pub approved_by : String → List Approval → Bool
approved_by name = any (λ (a : Approval). strip a.operator == name)

abbrev pub IsApprover : List Approval → String → Type 0
IsApprover approvals name = (name ≢ "") × (approved_by name approvals ≡ true)

add_operator-All {κ} :
    (P : String → Type κ) (x : String) (ys : List String)
    → P x
    → All P ys
    → All P (add_operator x ys)
unfolding add_operator
add_operator-All P x [] px h = (px, tt)
add_operator-All P x (y ∷ ys) px h = elim (Bool-cases (name_lt x y)) [
  | inl before ↦ rw before (px, h)
  | inr after ↦ elim (Bool-cases (x == y)) [
    | inl same ↦ rw (after, same) h
    | inr other ↦ rw (after, other) (h.0, add_operator-All P x ys px h.1)
  ]
]

All-weaken {ℓ κ μ} :
    {A : Type ℓ} {P : A → Type κ} {Q : A → Type μ} (xs : List A)
    → ((a : A) → P a → Q a)
    → All P xs
    → All Q xs
All-weaken [] f h = tt
All-weaken (x ∷ xs) f h = (f x h.0, All-weaken xs f h.1)

unique_operators-IsApprover :
    (approvals : List Approval) → All (IsApprover approvals) (unique_operators approvals)
unfolding unique_operators
unique_operators-IsApprover [] = tt
unique_operators-IsApprover (a ∷ rest) =
    let later =
      All-weaken {Q = IsApprover (a ∷ rest)} (unique_operators rest) (λ name h. (h.0, ground arith))
        (unique_operators-IsApprover rest) in
    elim (Bool-cases (strip a.operator == "")) [
      | inl blank ↦ rw blank later
      | inr named ↦ rw named (
          add_operator-All (IsApprover (a ∷ rest)) (strip a.operator) (unique_operators rest)
            (λ e. cc ((eq_iff (strip a.operator) "").1 e), rw (eq_refl (strip a.operator))) later)
    ]

-- Two different operators, both named, have approvals in the list.
pub record TwoApprovers (approvals : List Approval) (summary : ApprovalSummary) : Type 0 where
  pub first : String
  pub second : String
  pub operators : summary.operators ≡ first ∷ second ∷ []
  pub differ : first ≢ second
  pub first_approves : IsApprover approvals first
  pub second_approves : IsApprover approvals second

two_approvers :
    (approvals : List Approval) (ops : List String) (summary : ApprovalSummary)
    → Apart ops
    → All (IsApprover approvals) ops
    → leb 2 (length ops) ≡ true
    → summary.operators ≡ take 2 ops
    → TwoApprovers approvals summary
two_approvers approvals [] summary apart all two e = absurd (ground arith)
two_approvers approvals (x ∷ []) summary apart all two e = absurd (ground arith)
two_approvers approvals (x ∷ y ∷ ops) summary apart all two e = record {
  first = x;
  second = y;
  operators = e;
  differ = apart.0;
  first_approves = all.0;
  second_approves = all.1.0;
}

-- An active approval at the dual level names two different operators, neither of them blank, and
-- each has an approval among those given.
pub active_approval-TwoApprovers :
    (approvals : List Approval) {summary : ApprovalSummary}
    → active_approval dual approvals ≡ (some summary, approved_dual)
    → TwoApprovers approvals summary
unfolding active_approval
active_approval-TwoApprovers approvals {summary} h =
    two_approvers approvals (unique_operators approvals) summary (unique_operators-Apart approvals)
      (unique_operators-IsApprover approvals) (ground arith) (ground arith)
