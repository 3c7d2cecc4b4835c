-- ===== src/Gds/Lifecycle/Failed.antt =====
-- What a call that fails leaves.
use opcua_implementaion.Prelude.{
  String, false, List, [], ◌∷◌, ◌++◌, append_nil, All, where_list, ◌==◌, string_eq, ◌≡◌, refl, ◌∙◌,
  arith,
}
use opcua_implementaion.Gds.Db.{Db, CertificateRequest}
use opcua_implementaion.Gds.TrustLists.Query.{where_list-append}
use opcua_implementaion.Gds.Lifecycle.Rows.{counts_as_use, get_certificate_request_by_csr, uses_csr}

-- An identifier that no request has.
abbrev pub IsFresh : String → List CertificateRequest → Type 0
IsFresh request_id rows = All (λ r. (r.request_id == request_id) ≡ false) rows

-- A new row whose status is not a use does not change the look for duplicates.
pub unused_at_end :
    (fingerprint : String) (rows : List CertificateRequest) (row : CertificateRequest)
    → counts_as_use row.status ≡ false
    → where_list (uses_csr fingerprint) (rows ++ row ∷ []) ≡ where_list (uses_csr fingerprint) rows
unfolding uses_csr
unused_at_end fingerprint rows row unused =
    let dropped : where_list (uses_csr fingerprint) (row ∷ []) ≡ [] = ground arith in
    where_list-append (uses_csr fingerprint) rows (row ∷ [])
    ∙ rw dropped (append_nil (where_list (uses_csr fingerprint) rows))

-- The tables after a call, as far as later calls read them, are those before it.
pub record IsUntouched (db after : Db) : Type 0 where
  pub applications : after.applications ≡ db.applications
  pub certificates : after.certificates ≡ db.certificates
  pub packages : after.certificate_packages ≡ db.certificate_packages
  pub duplicates :
      (fingerprint : String)
      → get_certificate_request_by_csr fingerprint after
        ≡ get_certificate_request_by_csr fingerprint db

pub same-IsUntouched : (db : Db) → IsUntouched db db
same-IsUntouched db = record {
  applications = refl;
  certificates = refl;
  packages = refl;
  duplicates = λ fingerprint. refl;
}
