-- ===== src/Gds/Boundary/Tests.antt =====
-- A request through the proxy with a verified certificate, and one with 0 days of a certificate.
use opcua_implementaion.Prelude.{true, false, none, ◌≡◌, ◌≢◌, ◌↔◌, ◌⊎◌, refl, eq_iff, arith}
use opcua_implementaion.Prelude.Text.{strip, lower}
use opcua_implementaion.Gds.Db.{empty_db}
use opcua_implementaion.Gds.Boundary.Mtls.{
  Request, Edge, passed, raised, client_cert_days, cert_days_remaining, int_of, parse_tls_date,
  is_counted, is_error, has_client_cert_headers, internal_proxy_proof_ok, is_https, is_local,
  enforce_mtls_header_boundary, require_https_mtls,
}
use opcua_implementaion.Gds.Boundary.Trusted.{enforce_mtls_iff, enrollment_is_verified}

abbrev request : Request
request = record {
  path = "/api/v1/certificates/revoke";
  connection_ip = "10.0.0.9";
  source_ip = "10.0.0.2";
  forwarded_proto = "HTTPS";
  internal_proxy = "proxy-secret";
  agent_id = "agent-ot";
  verify = "SUCCESS";
  subject = "CN=agent-ot";
  issuer = "CN=ca";
  serial = "01";
  fingerprint = "ab";
  not_before = "";
  not_after = "";
  days_remaining = "12";
}

-- The same request without HTTPS and without a value of a certificate, but with 0 days.
abbrev zero_days : Request
zero_days = record request {
  forwarded_proto = "";
  verify = "";
  subject = "";
  issuer = "";
  serial = "";
  fingerprint = "";
  days_remaining = "0";
}

abbrev edge : Edge
edge = record { internal_proxy_secret = "proxy-secret"; now = 0; parsedate_to_datetime = λ s. none }

request_enters : (enforce_mtls_header_boundary edge request empty_db).0 ≡ passed
unfolding enforce_mtls_header_boundary has_client_cert_headers internal_proxy_proof_ok is_https
    strip lower client_cert_days cert_days_remaining int_of parse_tls_date
request_enters = refl

request_passes :
    (require_https_mtls edge request (enforce_mtls_header_boundary edge request empty_db).1).0
    ≡ passed
unfolding enforce_mtls_header_boundary require_https_mtls has_client_cert_headers
    internal_proxy_proof_ok is_https strip lower client_cert_days cert_days_remaining int_of
    parse_tls_date
request_passes = refl

zero_days_enter : (enforce_mtls_header_boundary edge zero_days empty_db).0 ≡ passed
unfolding enforce_mtls_header_boundary has_client_cert_headers internal_proxy_proof_ok is_https
    strip lower client_cert_days cert_days_remaining int_of parse_tls_date
zero_days_enter = refl

two_signs_raise :
    (enforce_mtls_header_boundary edge (record request { days_remaining = "--5" }) empty_db).0
    ≡ raised
unfolding enforce_mtls_header_boundary has_client_cert_headers internal_proxy_proof_ok is_https
    strip lower client_cert_days cert_days_remaining int_of parse_tls_date
two_signs_raise = refl

other_page : request.path ≢ "/internal/health"
other_page h = ground (arith, eq_iff request.path "/internal/health")

enforce_mtls_iff_example : ((enforce_mtls_header_boundary edge zero_days empty_db).0 ≡ passed) ↔ (
    (is_error (client_cert_days edge zero_days) ≡ false)
    × (((zero_days.path ≡ "/internal/health") × (is_local zero_days.connection_ip ≡ true))
        ⊎ ((zero_days.path ≢ "/internal/health")
            × (((is_https zero_days ≡ true)
                  × (internal_proxy_proof_ok edge.internal_proxy_secret zero_days ≡ true)
                  × (strip zero_days.verify ≡ "SUCCESS"))
                ⊎ ((is_https zero_days ≡ false)
                    × (strip zero_days.verify ≡ "")
                    × (strip zero_days.subject ≡ "")
                    × (strip zero_days.issuer ≡ "")
                    × (strip zero_days.serial ≡ "")
                    × (strip zero_days.fingerprint ≡ "")
                    × (strip zero_days.not_before ≡ "")
                    × (strip zero_days.not_after ≡ "")
                    × (is_counted (client_cert_days edge zero_days) ≡ false))))))
enforce_mtls_iff_example = enforce_mtls_iff edge zero_days empty_db

enrollment_is_verified_example :
    (is_https request ≡ true)
    × (strip request.verify ≡ "SUCCESS")
    × (edge.internal_proxy_secret ≢ "")
    × (strip request.internal_proxy ≡ edge.internal_proxy_secret)
enrollment_is_verified_example =
    enrollment_is_verified edge request empty_db other_page request_enters request_passes
