-- ===== src/Agent/Approvals/Valid.antt =====
-- Which approvals count.
use mathlib.Core.List.{Perm}
use opcua_implementaion.Prelude.{
  ℕ, String, Bool, true, false, not, ◌&&◌, Option, none, some, List, [], ◌∷◌, ltb, where_list, any,
  if◌then◌else◌, ◌==◌, string_eq, ◌≡◌, ◌↔◌, refl, arith,
}
use opcua_implementaion.Prelude.Text.{strip, lower}
use opcua_implementaion.Agent.Approvals.Records.{
  Approval, ApprovalPayload, canonical_approval_payload, ApprovalSigner, Check, genuine,
  is_verified, is_past, is_expired, Content, unreadable, no_object, holds, RecordFile, with_record,
  newest_first, verify, collect_approvals, load_valid_approvals_for_target,
}
use opcua_implementaion.Agent.Approvals.Newest.{
  Descending, newest_first-Descending, newest_first-Perm, any-newest_first,
}

-- The records of a list of files, those that are no JSON left out, unless a file holds JSON that is no
-- object.
unfoldable pub readable : List RecordFile → Option (List Approval)
readable [] = some []
readable ((name, unreadable) ∷ files) = readable files
readable ((name, no_object) ∷ files) = none
readable ((name, holds a) ∷ files) = with_record a (readable files)

abbrev pub is_no_object : Content → Bool
is_no_object no_object = true
is_no_object _ = false

readable-none :
    (files : List RecordFile)
    → (readable files ≡ none) ↔ (any (λ (f : RecordFile). is_no_object f.1) files ≡ true)
unfolding readable
readable-none [] = ground arith
readable-none ((name, unreadable) ∷ files) = readable-none files
readable-none ((name, no_object) ∷ files) = (λ _. refl, λ _. refl)
readable-none ((name, holds a) ∷ files) = ground (arith, readable-none files)

abbrev pub expires_after : ℕ → Option ℕ → Bool
expires_after now none = false
expires_after now (some t) = ltb now t

is_past-expires_after : (now : ℕ) (o : Option ℕ) → is_past now o ≡ not (expires_after now o)
is_past-expires_after now none = refl
is_past-expires_after now (some t) = ground arith

-- Keeps the approvals that pass a test, where there are any to test.
abbrev pub keep : (Approval → Bool) → Option (List Approval) → Option (List Approval)
keep p none = none
keep p (some approvals) = some (where_list p approvals)

-- A row of guards that each skip the record is one test.
guards :
    (p q r s : Bool) (t : Approval → Bool) (a : Approval) (rest : Option (List Approval))
    → (p && q && r && s) ≡ t a
    → (if not p
        then keep t rest
        else if not q
        then keep t rest
        else if not r
        then keep t rest
        else if not s
        then keep t rest
        else with_record a (keep t rest))
      ≡ keep t (with_record a rest)
guards p q r s t a none h = ground arith
guards p q r s t a (some xs) h = ground arith

module _ (check : String → ApprovalPayload → Check) (parse_date : String → Option ℕ)
    (signer : ApprovalSigner) where
  abbrev pub is_genuine : Check → Bool
  is_genuine genuine = true
  is_genuine _ = false

  -- The record is signed, under the signer's own key, over its canonical payload.
  unfoldable pub is_signed : Approval → Bool
  is_signed a = elim a.signature [
    | none ↦ false
    | some meta ↦
        (lower meta.algorithm == "ed25519"
          && strip meta.key_id == signer.key_id
          && lower (strip meta.fingerprint_sha256) == lower signer.fingerprint_sha256
          && not (strip meta.signature_base64 == "")
          && is_genuine (check (strip meta.signature_base64) (canonical_approval_payload a)))
  ]

  -- An approval of the target that is signed and has not expired.
  abbrev pub is_valid : ℕ → String → Approval → Bool
  is_valid now target a =
      a.target == target
      && lower a.decision == "approve"
      && is_signed a
      && (not (strip a.expires_at == "") && expires_after now (parse_date (strip a.expires_at)))

  is_verified-verify : (a : Approval) → is_verified (verify check parse_date signer a) ≡ is_signed a
  unfolding verify is_signed
  is_verified-verify a = ground arith

  is_expired-valid :
      (now : ℕ) (expires_at : String)
      → is_expired check parse_date signer now expires_at
        ≡ not (not (strip expires_at == "") && expires_after now (parse_date (strip expires_at)))
  is_expired-valid now expires_at =
      ground (arith, is_past-expires_after now (parse_date (strip expires_at)))

  collect_approvals-keep :
      (now : ℕ) (target : String) (files : List RecordFile)
      → collect_approvals check parse_date signer now target files
        ≡ keep (is_valid now target) (readable files)
  unfolding collect_approvals readable
  collect_approvals-keep now target [] = refl
  collect_approvals-keep now target ((name, unreadable) ∷ files) =
      collect_approvals-keep now target files
  collect_approvals-keep now target ((name, no_object) ∷ files) = refl
  collect_approvals-keep now target ((name, holds a) ∷ files) =
      rw
        (
          is_verified-verify a,
          is_expired-valid now a.expires_at,
          collect_approvals-keep now target files,
        )
        (guards (a.target == target) (lower a.decision == "approve") (is_signed a)
          (not (strip a.expires_at == "") && expires_after now (parse_date (strip a.expires_at)))
          (is_valid now target) a (readable files) refl)

  -- The approvals that are loaded are those of the readable records that name the target, say "approve",
  -- are signed under the signer's own key over their canonical payload, and expire after the clock; they
  -- come in the order of the files sorted by name, the latest name first. The load raises exactly when a
  -- file holds JSON that is no object.
  pub load_valid_approvals_for_target-keep :
      (now : ℕ) (target : String) (files : List RecordFile)
      → (load_valid_approvals_for_target check parse_date signer now (some files) target
          ≡ keep (is_valid now target) (readable (newest_first files)))
        × Descending (newest_first files)
        × Perm (newest_first files) files
        × ((load_valid_approvals_for_target check parse_date signer now (some files) target ≡ none)
            ↔ (any (λ (f : RecordFile). is_no_object f.1) files ≡ true))
  unfolding load_valid_approvals_for_target
  load_valid_approvals_for_target-keep now target files =
      let loaded = collect_approvals-keep now target (newest_first files) in
      let raises = readable-none (newest_first files) in
      let same = any-newest_first (λ (f : RecordFile). is_no_object f.1) files in
      (loaded, newest_first-Descending files, newest_first-Perm files, ground arith)
