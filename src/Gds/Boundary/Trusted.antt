-- ===== src/Gds/Boundary/Trusted.antt =====
-- Which requests pass the boundary.
use opcua_implementaion.Prelude.{
  String, true, false, string_eq, number_eq, ◌≡◌, ◌≢◌, ◌↔◌, ◌⊎◌, arith, eq_iff,
}
use opcua_implementaion.Prelude.Text.{strip}
use opcua_implementaion.Gds.Db.{Db}
use opcua_implementaion.Gds.Boundary.Mtls.{
  Request, Edge, passed, has_client_cert_headers, client_cert_days, is_error, is_counted,
  internal_proxy_proof_ok, is_https, is_local, enforce_mtls_header_boundary, require_https_mtls,
}

-- Whether a request has no value of a certificate: its text headers are blank and its days do not count.
no_cert_headers :
    (edge : Edge) (r : Request)
    → (has_client_cert_headers edge r ≡ false) ↔ (
        (strip r.verify ≡ "")
        × (strip r.subject ≡ "")
        × (strip r.issuer ≡ "")
        × (strip r.serial ≡ "")
        × (strip r.fingerprint ≡ "")
        × (strip r.not_before ≡ "")
        × (strip r.not_after ≡ "")
        × (is_counted (client_cert_days edge r) ≡ false))
unfolding has_client_cert_headers
no_cert_headers edge r = ground (
  arith,
  eq_iff (strip r.verify) "",
  eq_iff (strip r.subject) "",
  eq_iff (strip r.issuer) "",
  eq_iff (strip r.serial) "",
  eq_iff (strip r.fingerprint) "",
  eq_iff (strip r.not_before) "",
  eq_iff (strip r.not_after) "",
)

-- The middleware lets a request go on exactly when the days that remain can be read without an
-- exception, and the request asks for the internal health page from the host itself, or for another page
-- either over HTTPS, with the proof of the proxy and a verified certificate, or without HTTPS, with each
-- text header of the certificate blank, and with the days absent or 0.
pub enforce_mtls_iff :
    (edge : Edge) (r : Request) (db : Db)
    → ((enforce_mtls_header_boundary edge r db).0 ≡ passed) ↔ (
        (is_error (client_cert_days edge r) ≡ false)
        × (((r.path ≡ "/internal/health") × (is_local r.connection_ip ≡ true))
            ⊎ ((r.path ≢ "/internal/health")
                × (((is_https r ≡ true)
                      × (internal_proxy_proof_ok edge.internal_proxy_secret r ≡ true)
                      × (strip r.verify ≡ "SUCCESS"))
                    ⊎ ((is_https r ≡ false)
                        × (strip r.verify ≡ "")
                        × (strip r.subject ≡ "")
                        × (strip r.issuer ≡ "")
                        × (strip r.serial ≡ "")
                        × (strip r.fingerprint ≡ "")
                        × (strip r.not_before ≡ "")
                        × (strip r.not_after ≡ "")
                        × (is_counted (client_cert_days edge r) ≡ false))))))
unfolding enforce_mtls_header_boundary
enforce_mtls_iff edge r db =
    let blank = no_cert_headers edge r in
    ground (arith, eq_iff r.path "/internal/health", eq_iff (strip r.verify) "SUCCESS")

require_passes :
    (edge : Edge) (r : Request) (db : Db)
    → (require_https_mtls edge r db).0 ≡ passed
    → (is_https r ≡ true) × (strip r.verify ≡ "SUCCESS")
unfolding require_https_mtls
require_passes edge r db h = ground (arith, eq_iff (strip r.verify) "SUCCESS")

proof_of_proxy :
    (secret : String) (r : Request)
    → internal_proxy_proof_ok secret r ≡ true
    → (secret ≢ "") × (strip r.internal_proxy ≡ secret)
unfolding internal_proxy_proof_ok
proof_of_proxy secret r h = ground (arith, eq_iff secret "", eq_iff (strip r.internal_proxy) secret)

-- A request for another page than the internal health page that the middleware lets through, and that
-- passes `_require_https_mtls` then, came over HTTPS with a verified certificate and with the secret of
-- the proxy, which is not empty.
pub enrollment_is_verified :
    (edge : Edge) (r : Request) (db : Db)
    → r.path ≢ "/internal/health"
    → (enforce_mtls_header_boundary edge r db).0 ≡ passed
    → (require_https_mtls edge r (enforce_mtls_header_boundary edge r db).1).0 ≡ passed
    → (is_https r ≡ true)
      × (strip r.verify ≡ "SUCCESS")
      × (edge.internal_proxy_secret ≢ "")
      × (strip r.internal_proxy ≡ edge.internal_proxy_secret)
enrollment_is_verified edge r db elsewhere entered required =
    let (over_https, verified) =
      require_passes edge r (enforce_mtls_header_boundary edge r db).1 required in
    let (readable, ways) = (enforce_mtls_iff edge r db).0 entered in
    let proof : internal_proxy_proof_ok edge.internal_proxy_secret r ≡ true = ground arith in
    let (set, same) = proof_of_proxy edge.internal_proxy_secret r proof in
    (over_https, verified, set, same)
