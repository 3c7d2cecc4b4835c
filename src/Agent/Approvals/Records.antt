-- ===== src/Agent/Approvals/Records.antt =====
-- `ApprovalSigner.verify`, `load_valid_approvals_for_target` and `load_active_approval_for_target` of
-- gds-agent/app/main.py. The fields of a record hold `str()` of what the file holds. The clock is read
-- once for all files.
use Prim.Native.Nat.{Ordering}
use Prim.Native.String.{compare}
use opcua_implementaion.Prelude.{
  ℕ, String, Bool, true, false, not, Option, none, some, List, [], ◌∷◌, leb, ◌==◌, string_eq,
  number_eq, if◌then◌else◌,
}
use opcua_implementaion.Prelude.Text.{strip, lower}

pub record Signature : Type 0 where
  pub algorithm : String
  pub key_id : String
  pub fingerprint_sha256 : String
  pub signature_base64 : String

pub record Approval : Type 0 where
  pub schema : String
  pub schema_version : String
  pub approval_id : String
  pub created_at : String
  pub expires_at : String
  pub target : String
  pub plan_id : String
  pub operator : String
  pub decision : String
  pub reason : String
  pub approval_level : String
  pub emergency_override : Bool
  pub policy_snapshot : String
  pub signature : Option Signature

-- The fields that are signed.
pub record ApprovalPayload : Type 0 where
  pub schema : String
  pub schema_version : String
  pub approval_id : String
  pub created_at : String
  pub expires_at : String
  pub target : String
  pub plan_id : String
  pub operator : String
  pub decision : String
  pub reason : String
  pub approval_level : String
  pub emergency_override : Bool
  pub policy_snapshot : String

unfoldable pub canonical_approval_payload : Approval → ApprovalPayload
canonical_approval_payload a = record {
  schema = a.schema;
  schema_version = a.schema_version;
  approval_id = a.approval_id;
  created_at = a.created_at;
  expires_at = a.expires_at;
  target = a.target;
  plan_id = a.plan_id;
  operator = a.operator;
  decision = a.decision;
  reason = a.reason;
  approval_level = a.approval_level;
  emergency_override = a.emergency_override;
  policy_snapshot = a.policy_snapshot;
}

pub record ApprovalSigner : Type 0 where
  pub key_id : String
  pub fingerprint_sha256 : String

-- What decoding and `public_key.verify` make of a signature over the canonical payload.
pub data Check : Type 0 where
  genuine forged undecodable : Check

pub data Verdict : Type 0 where
  verified signature_missing signature_unsupported key_id_mismatch : Verdict
  fingerprint_mismatch missing_bytes signature_invalid signature_malformed : Verdict

-- What a file holds: no JSON, JSON that is no object, on which `payload.get` raises, or a record.
pub data Content : Type 0 where
  unreadable : Content
  no_object : Content
  holds : Approval → Content

-- A file, by name.
abbrev pub RecordFile : Type 0
RecordFile = String × Content

-- `a < b` of two file names.
abbrev pub name_lt : String → String → Bool
name_lt a b = elim (compare a b) [ Ordering.lt ↦ true | _ ↦ false ]

-- One step of `sorted(..., reverse=True)`, by file name.
unfoldable pub place_file : RecordFile → List RecordFile → List RecordFile
place_file f [] = f ∷ []
place_file f (g ∷ gs) = if name_lt f.0 g.0 then g ∷ place_file f gs else f ∷ g ∷ gs

unfoldable pub newest_first : List RecordFile → List RecordFile
unfolding place_file
newest_first [] = []
newest_first (f ∷ fs) = place_file f (newest_first fs)

abbrev pub is_verified : Verdict → Bool
is_verified verified = true
is_verified _ = false

-- `parse_rfc3339_utc(expires_at) <= utc_now()`, or a text that it does not read.
abbrev pub is_past : ℕ → Option ℕ → Bool
is_past now none = true
is_past now (some expires_at) = leb expires_at now

-- Adds a record to those of the later files, unless one of them raised.
abbrev pub with_record : Approval → Option (List Approval) → Option (List Approval)
with_record a none = none
with_record a (some approvals) = some (a ∷ approvals)

-- `check` is the signature library: base64, JSON bytes and Ed25519; `parse_date` reads RFC 3339 dates.
module _ (check : String → ApprovalPayload → Check) (parse_date : String → Option ℕ)
    (signer : ApprovalSigner) where
  unfoldable pub verify_signature : Signature → Approval → Verdict
  verify_signature meta a =
      if not (lower meta.algorithm == "ed25519")
      then signature_unsupported
      else if not (strip meta.key_id == signer.key_id)
      then key_id_mismatch
      else if not (lower (strip meta.fingerprint_sha256) == lower signer.fingerprint_sha256)
      then fingerprint_mismatch
      else if strip meta.signature_base64 == ""
      then missing_bytes
      else elim (check (strip meta.signature_base64) (canonical_approval_payload a)) [
        | genuine ↦ verified
        | forged ↦ signature_invalid
        | undecodable ↦ signature_malformed
      ]

  unfoldable pub verify : Approval → Verdict
  unfolding verify_signature
  verify a = elim a.signature [ none ↦ signature_missing | some meta ↦ verify_signature meta a ]

  abbrev pub is_expired : ℕ → String → Bool
  is_expired now expires_at =
      if strip expires_at == "" then true else is_past now (parse_date (strip expires_at))

  -- The loop over the files, with its `continue`s; `none` is that it raises.
  unfoldable pub collect_approvals : ℕ → String → List RecordFile → Option (List Approval)
  collect_approvals now target [] = some []
  collect_approvals now target ((name, unreadable) ∷ files) = collect_approvals now target files
  collect_approvals now target ((name, no_object) ∷ files) = none
  collect_approvals now target ((name, holds a) ∷ files) =
      let rest = collect_approvals now target files in
      if not (a.target == target)
      then rest
      else if not (lower a.decision == "approve")
      then rest
      else if not (is_verified (verify a))
      then rest
      else if is_expired now a.expires_at
      then rest
      else with_record a rest

  -- Of the files of a directory, `none` where it does not exist.
  unfoldable pub load_valid_approvals_for_target :
      ℕ → Option (List RecordFile) → String → Option (List Approval)
  unfolding collect_approvals newest_first
  load_valid_approvals_for_target now none target = some []
  load_valid_approvals_for_target now (some files) target =
      collect_approvals now target (newest_first files)
