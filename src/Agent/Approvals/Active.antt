-- ===== src/Agent/Approvals/Active.antt =====
-- `load_active_approval_for_target` of gds-agent/app/main.py, over the valid approvals.
use Prim.Native.String.{◌++◌ as text_append}
use opcua_implementaion.Prelude.{
  ℕ, String, Bool, Option, none, some, List, [], ◌∷◌, leb, any, length, take, ◌==◌, string_eq,
  if◌then◌else◌,
}
use opcua_implementaion.Prelude.Text.{strip}
use opcua_implementaion.Agent.Maintenance.Entries.{ApprovalLevel, single, dual}
use opcua_implementaion.Agent.Approvals.Records.{Approval, name_lt}

-- One step of `sorted(set(...))` over the operators' names.
unfoldable pub add_operator : String → List String → List String
add_operator x [] = x ∷ []
add_operator x (y ∷ ys) =
    if name_lt x y then x ∷ y ∷ ys else if x == y then y ∷ ys else y ∷ add_operator x ys

unfoldable pub unique_operators : List Approval → List String
unfolding add_operator
unique_operators [] = []
unique_operators (a ∷ rest_of) =
    let rest = unique_operators rest_of in
    let operator = strip a.operator in if operator == "" then rest else add_operator operator rest

pub record ApprovalSummary : Type 0 where
  pub approval_id : String
  pub operators : List String
  pub emergency_override : Bool
  pub count : ℕ

pub data ApprovalStatus : Type 0 where
  approved_dual required_missing_dual approved_single required_missing_single : ApprovalStatus

-- `",".join` of the first two ids.
abbrev join_ids : List Approval → String
join_ids [] = ""
join_ids (a ∷ []) = a.approval_id
join_ids (a ∷ b ∷ _) = text_append a.approval_id (text_append "," b.approval_id)

unfoldable pub dual_summary : List Approval → Option ApprovalSummary × ApprovalStatus
unfolding unique_operators
dual_summary approvals =
    let unique_ops = unique_operators approvals in
    if leb 2 (length unique_ops)
    then (
      some (record {
        approval_id = join_ids approvals;
        operators = take 2 unique_ops;
        emergency_override = any (λ (a : Approval). a.emergency_override) approvals;
        count = length unique_ops;
      }),
      approved_dual,
    )
    else (none, required_missing_dual)

unfoldable pub single_summary : List Approval → Option ApprovalSummary × ApprovalStatus
single_summary [] = (none, required_missing_single)
single_summary (a ∷ _) = (
  some (record {
    approval_id = a.approval_id;
    operators = a.operator ∷ [];
    emergency_override = a.emergency_override;
    count = 1;
  }),
  approved_single,
)

-- What `load_active_approval_for_target` makes of the valid approvals.
unfoldable pub active_approval :
    ApprovalLevel → List Approval → Option ApprovalSummary × ApprovalStatus
unfolding dual_summary single_summary
active_approval dual approvals = dual_summary approvals
active_approval single approvals = single_summary approvals
