-- ===== src/Gds/Lifecycle/Compatibility.antt =====
-- `_merge_compatibility` and `_common_name_from_subject` of gds/app/lifecycle.py, and the hashes of
-- gds/app/package_signing.py over their parameters.
use Prim.Native.String.{compare}
use text.Mathlib.Text.{is_lt, starts_with}
use opcua_implementaion.Prelude.{
  ℕ, String, Bool, ◌||◌, Option, none, some, List, [], ◌∷◌, ◌++◌, ltb, ◌==◌, string_eq,
  if◌then◌else◌,
}
use opcua_implementaion.Prelude.Text.{strip, split, drop_text}
use opcua_implementaion.Prelude.Dict.{Dict}
use opcua_implementaion.Gds.TrustLists.Query.{order_by}
use opcua_implementaion.Gds.Manifest.{RuntimeCompatibility, PackageLayout, Manifest}

insert_once : String → List String → List String
insert_once x [] = x ∷ []
insert_once x (y ∷ ys) =
    let rest = insert_once x ys in
    if x == y then y ∷ ys else if is_lt (compare x y) then x ∷ y ∷ ys else y ∷ rest

-- `sorted(set(xs))`
unfoldable pub sorted_set : List String → List String
unfolding insert_once
sorted_set [] = []
sorted_set (x ∷ xs) = insert_once x (sorted_set xs)

-- `risk_order.get(value, 0)`
unfoldable pub risk_order : String → ℕ
risk_order level =
    if level == "MEDIUM"
    then 1
    else if level == "HIGH"
    then 2
    else if level == "CRITICAL"
    then 3
    else 0

-- `max(..., key=...)` keeps the first of the greatest.
abbrev greater_risk : String → String → String
greater_risk a b = if ltb (risk_order a) (risk_order b) then b else a

-- The details of both have the same keys, so that those of the second are left.
unfoldable pub merge_compatibility :
    RuntimeCompatibility → RuntimeCompatibility → RuntimeCompatibility
merge_compatibility first second =
    let status =
      if first.status == "INCOMPATIBLE" || second.status == "INCOMPATIBLE"
      then "INCOMPATIBLE"
      else "COMPATIBLE" in
    record {
      status = status;
      risk_level =
          greater_risk (greater_risk first.risk_level second.risk_level)
            (if status == "INCOMPATIBLE" then "HIGH" else "LOW");
      blocking_reasons = sorted_set (first.blocking_reasons ++ second.blocking_reasons);
      warnings = sorted_set (first.warnings ++ second.warnings);
      details = second.details;
    }

unfoldable pub first_common_name : List String → Option String
first_common_name [] = none
first_common_name (part ∷ parts) =
    let rest = first_common_name parts in
    if starts_with (strip part) "CN=" then some (drop_text 3 (strip part)) else rest

unfoldable pub common_name_from_subject : String → Option String
common_name_from_subject subject =
    if subject == "" then none else first_common_name (split b',' subject)

-- The libraries: SHA-256 of a text in hexadecimal digits, canonical JSON, and the signer's key with base64.
pub record PackageCrypto : Type 0 where
  pub sha256_text : String → String
  pub canonical_files : Dict String String → String
  pub canonical_manifest : Manifest → String
  pub sign : String → String

unfoldable pub canonical_package_manifest : Manifest → Manifest
canonical_package_manifest manifest = record manifest { manifest_sha256 = "" }

unfoldable pub hashed : PackageCrypto → Dict String String → Dict String String
hashed crypto [] = []
hashed crypto ((path, content) ∷ files) = (path, crypto.sha256_text content) ∷ hashed crypto files

path_before : (String × String) → (String × String) → Bool
path_before a b = is_lt (compare a.0 b.0)

unfoldable pub package_files_sha256 : PackageCrypto → PackageLayout → Dict String String
unfolding hashed path_before
package_files_sha256 crypto layout = hashed crypto (order_by path_before layout.files)

unfoldable pub package_payload_sha256 : PackageCrypto → Dict String String → String
package_payload_sha256 crypto files = crypto.sha256_text (crypto.canonical_files files)

unfoldable pub manifest_sha256_of : PackageCrypto → Manifest → String
manifest_sha256_of crypto manifest =
    crypto.sha256_text (crypto.canonical_manifest (canonical_package_manifest manifest))
