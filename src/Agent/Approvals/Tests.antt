-- ===== src/Agent/Approvals/Tests.antt =====
-- Approvals at concrete inputs.
use mathlib.Core.List.{Perm}
use opcua_implementaion.Prelude.{
  ℕ, String, true, false, Option, none, some, List, [], ◌∷◌, any, ◌≡◌, ◌↔◌, refl, ◌==◌, string_eq,
  if◌then◌else◌,
}
use opcua_implementaion.Prelude.Text.{strip, lower}
use opcua_implementaion.Agent.Approvals.Records.{
  Approval, ApprovalPayload, ApprovalSigner, unreadable, no_object, holds, Check, genuine, forged,
  RecordFile, newest_first, verify, load_valid_approvals_for_target,
}
use opcua_implementaion.Agent.Approvals.Active.{ApprovalSummary, active_approval}
use opcua_implementaion.Agent.Approvals.Newest.{Descending}
use opcua_implementaion.Agent.Approvals.Valid.{
  is_valid, readable, keep, is_no_object, load_valid_approvals_for_target-keep,
}
use opcua_implementaion.Agent.Approvals.Operators.{TwoApprovers, active_approval-TwoApprovers}

abbrev signer : ApprovalSigner
signer = record { key_id = "ot-approval-key-v1"; fingerprint_sha256 = "ab12" }

-- A signature library that accepts one text.
abbrev accept_ok : String → ApprovalPayload → Check
accept_ok text a = if text == "ok" then genuine else forged

abbrev by : String → String → Approval
by id operator = record {
  approval_id = id;
  target = "opcua-server";
  operator = operator;
  decision = "Approve";
  expires_at = "1970-01-01T00:00:00.0005Z";
  schema = "approval";
  schema_version = "1";
  created_at = "1970-01-01T00:00:00Z";
  plan_id = "plan-1";
  reason = "";
  approval_level = "dual";
  policy_snapshot = "";
  emergency_override = false;
  signature = some (record {
    algorithm = "ED25519";
    key_id = "ot-approval-key-v1";
    fingerprint_sha256 = "AB12";
    signature_base64 = "ok";
  });
}

abbrev files : List RecordFile
files =
    ("20260101", holds (by "a1" "ot-admin-1"))
    ∷ ("20260103", unreadable)
    ∷ ("20260102", holds (by "a2" " ot-admin-2 "))
    ∷ []

-- Every date is the 500th microsecond.
abbrev parse_date : String → Option ℕ
parse_date text = some 500

load_valid_approvals_for_target-keep_example :
    (load_valid_approvals_for_target accept_ok parse_date signer 100 (some files) "opcua-server"
      ≡ keep
          (is_valid accept_ok parse_date signer 100 "opcua-server")
          (readable (newest_first files)))
    × Descending (newest_first files)
    × Perm (newest_first files) files
    × ((load_valid_approvals_for_target accept_ok parse_date signer 100 (some files) "opcua-server"
          ≡ none)
        ↔ (any (λ (f : RecordFile). is_no_object f.1) files ≡ true))
load_valid_approvals_for_target-keep_example =
    load_valid_approvals_for_target-keep accept_ok parse_date signer 100 "opcua-server" files

loaded_both :
    load_valid_approvals_for_target accept_ok parse_date signer 100 (some files) "opcua-server"
    ≡ some (by "a2" " ot-admin-2 " ∷ by "a1" "ot-admin-1" ∷ [])
unfolding load_valid_approvals_for_target verify strip lower
loaded_both = refl

-- A file with a JSON list raises, wherever it stands.
list_raises :
    load_valid_approvals_for_target accept_ok parse_date signer 100
      (some (("20250101", no_object) ∷ files))
      "opcua-server"
    ≡ none
unfolding load_valid_approvals_for_target verify strip lower
list_raises = refl

abbrev two : List Approval
two = by "a2" " ot-admin-2 " ∷ by "a1" "ot-admin-1" ∷ []

abbrev summary : ApprovalSummary
summary = record {
  approval_id = "a2,a1";
  operators = "ot-admin-1" ∷ "ot-admin-2" ∷ [];
  emergency_override = false;
  count = 2;
}

active_approval-TwoApprovers_example : TwoApprovers two summary
unfolding active_approval strip
active_approval-TwoApprovers_example = active_approval-TwoApprovers two {summary = summary} refl
