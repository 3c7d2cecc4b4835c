-- ===== src/Gds/Boundary/Mtls.antt =====
-- The middleware `enforce_mtls_header_boundary` of gds/app/main.py with its helpers, and
-- `_require_https_mtls`, which the endpoints for enrollment call. Of the days that remain
-- only the size is kept, since only 0 differs from the others; the audit details leave them and the
-- correlation id out.
use Prim.Native.Char.{Char, code}
use Prim.Native.String.{◌++◌ as text_append, count}
use opcua_implementaion.Prelude.{
  ℕ, ◌+◌, ◌-◌, ◌*◌, ◌/◌, String, Bool, true, false, leb, ◌&&◌, ◌||◌, not, Option, none, some, [],
  ◌∷◌, ◌==◌, string_eq, number_eq, if◌then◌else◌,
}
use opcua_implementaion.Prelude.Text.{strip, lower}
use opcua_implementaion.Gds.Db.{Db, audit}

-- The headers as they come, empty where they are absent, the address of the connection, and the
-- address that `_request_ip` finds.
pub record Request : Type 0 where
  pub path : String
  pub connection_ip : String
  pub source_ip : String
  pub forwarded_proto : String
  pub internal_proxy : String
  pub agent_id : String
  pub verify : String
  pub subject : String
  pub issuer : String
  pub serial : String
  pub fingerprint : String
  pub not_before : String
  pub not_after : String
  pub days_remaining : String

-- The proxy's secret, the time in microseconds, and the library's reader of dates, which gives the
-- microseconds of a date or nothing where it reads none.
pub record Edge : Type 0 where
  pub internal_proxy_secret : String
  pub now : ℕ
  pub parsedate_to_datetime : String → Option ℕ

-- What `_cert_days_remaining` returns, without the sign, or that it raises.
pub data Days : Type 0 where
  value_error : Days
  no_days : Days
  days : ℕ → Days

pub data Outcome : Type 0 where
  passed : Outcome
  refused : ℕ → String → Outcome
  raised : Outcome

abbrev pub is_given : String → Bool
is_given s = not (strip s == "")

-- A character of a header for which `str.isdigit` holds: also the superscripts of Latin-1.
abbrev is_digit : Char → Bool
is_digit c = let n = code c in (leb 48 n && leb n 57) || n == 178 || n == 179 || n == 185

abbrev all_digits : String → Bool
all_digits String.[] = true
all_digits (String.◌∷◌ c s) = is_digit c && all_digits s

abbrev lstrip_minus : String → String
lstrip_minus String.[] = ""
lstrip_minus (String.◌∷◌ c s) =
    let rest = lstrip_minus s in if code c == 45 then rest else String.◌∷◌ c s

-- `int()` of digits, without which it raises, as on more than 4300 of them.
int_digits : ℕ → String → Days
int_digits n String.[] = days n
int_digits n (String.◌∷◌ c s) =
    if leb 48 (code c) && leb (code c) 57
    then int_digits (n * 10 + (code c - 48)) s
    else value_error

int_unsigned : String → Days
unfolding int_digits
int_unsigned s = if s == "" || not (leb (count s) 4300) then value_error else int_digits 0 s

-- `int()` of a text of digits after minus signs: one sign is read.
unfoldable pub int_of : String → Days
unfolding int_unsigned
int_of String.[] = value_error
int_of (String.◌∷◌ c s) = if code c == 45 then int_unsigned s else int_unsigned (String.◌∷◌ c s)

-- Microseconds of a day.
abbrev day : ℕ
day = 86400000000

-- The whole days from `now` to a date, rounded down, by size.
abbrev pub days_until : ℕ → ℕ → ℕ
days_until now date = if leb now date then (date - now) / day else (now - date + (day - 1)) / day

-- `_parse_tls_date`
unfoldable pub parse_tls_date : Edge → String → Option ℕ
parse_tls_date edge value = if value == "" then none else edge.parsedate_to_datetime value

days_of_date : ℕ → Option ℕ → Days
days_of_date now none = no_days
days_of_date now (some date) = days (days_until now date)

-- `_cert_days_remaining`
unfoldable pub cert_days_remaining : Edge → String → String → Days
unfolding days_of_date
cert_days_remaining edge not_after header =
    let digits = lstrip_minus (strip header) in
    if not (digits == "") && all_digits digits
    then int_of (strip header)
    else days_of_date edge.now (parse_tls_date edge not_after)

-- The value under days_remaining of `_client_cert_header_details`, which raises where this does.
unfoldable pub client_cert_days : Edge → Request → Days
client_cert_days edge r = cert_days_remaining edge (strip r.not_after) (strip r.days_remaining)

abbrev pub is_error : Days → Bool
is_error value_error = true
is_error no_days = false
is_error (days n) = false

-- A number counts as a value unless it is 0.
abbrev pub is_counted : Days → Bool
is_counted value_error = false
is_counted no_days = false
is_counted (days n) = not (n == 0)

-- `_has_client_cert_headers`, where the days are read.
unfoldable pub has_client_cert_headers : Edge → Request → Bool
has_client_cert_headers edge r =
    is_given r.verify
    || is_given r.subject
    || is_given r.issuer
    || is_given r.serial
    || is_given r.fingerprint
    || is_given r.not_before
    || is_given r.not_after
    || is_counted (client_cert_days edge r)

-- `_internal_proxy_proof_ok`, for SETTINGS.internal_proxy_secret.
unfoldable pub internal_proxy_proof_ok : String → Request → Bool
internal_proxy_proof_ok expected r =
    if expected == "" then false else strip r.internal_proxy == expected

unfoldable pub is_https : Request → Bool
is_https r = lower (strip r.forwarded_proto) == "https"

abbrev pub agent_or_unknown : Request → String
agent_or_unknown r = if strip r.agent_id == "" then "unknown" else strip r.agent_id

-- `_audit_mtls_identity`
unfoldable pub audit_mtls_identity : Request → String → String → String → Db → Db
audit_mtls_identity r event_type reason proof db =
    audit event_type (agent_or_unknown r) (text_append "mtls:" r.path)
      (("reason", reason)
        ∷ ("source_ip", r.source_ip)
        ∷ ("proxy_source_ip", r.connection_ip)
        ∷ ("path", r.path)
        ∷ ("agent_id", agent_or_unknown r)
        ∷ ("verify", strip r.verify)
        ∷ ("subject", strip r.subject)
        ∷ ("issuer", strip r.issuer)
        ∷ ("serial", strip r.serial)
        ∷ ("fingerprint", strip r.fingerprint)
        ∷ ("not_before", strip r.not_before)
        ∷ ("not_after", strip r.not_after)
        ∷ ("proxy_proof", proof)
        ∷ [])
      db

abbrev pub is_local : String → Bool
is_local ip = ip == "127.0.0.1" || ip == "::1"

abbrev pub verify_reason : String → String
verify_reason verify =
    if verify == "" || verify == "NONE"
    then "missing_client_certificate"
    else "client_certificate_verify_failed"

-- The middleware: whether the request goes on, is answered or raises to its endpoint, and the events that it leaves.
unfoldable pub enforce_mtls_header_boundary : Edge → Request → Db → Outcome × Db
enforce_mtls_header_boundary edge r db =
    let proxy_proof_ok = internal_proxy_proof_ok edge.internal_proxy_secret r in
    let has_cert_headers = has_client_cert_headers edge r in
    if is_error (client_cert_days edge r)
    then (raised, db)
    else if r.path == "/internal/health"
    then (if is_local r.connection_ip then passed else refused 404 "", db)
    else if (has_cert_headers || is_https r) && not proxy_proof_ok
    then (
      refused 403 "untrusted_proxy_headers",
      audit_mtls_identity r "mtls_client_identity_failure" "untrusted_proxy_headers" "fail" db,
    )
    else if has_cert_headers && not (is_https r)
    then (
      refused 403 "mtls_headers_on_non_https_request",
      audit_mtls_identity r "mtls_client_identity_failure" "mtls_headers_on_non_https_request" "ok"
          db,
    )
    else if is_https r
    then (if not (strip r.verify == "SUCCESS")
        then (
          refused 401 (verify_reason (strip r.verify)),
          audit_mtls_identity r "mtls_client_identity_failure" (verify_reason (strip r.verify)) "ok"
              db,
        )
        else (
          passed,
          audit_mtls_identity r "mtls_client_identity_success" "client_certificate_verified" "ok"
              db,
        ))
    else (passed, db)

-- `_require_https_mtls`: what an endpoint that calls it first asks of a request.
unfoldable pub require_https_mtls : Edge → Request → Db → Outcome × Db
require_https_mtls edge r db =
    if not (is_https r)
    then (
      refused 403 "https_mtls_required",
      audit "mtls_client_identity_failure" (agent_or_unknown r) (text_append "enrollment:" r.path)
          (("reason", "https_mtls_required") ∷ ("path", r.path) ∷ ("source_ip", r.source_ip) ∷ [])
          db,
    )
    else if is_error (client_cert_days edge r)
    then (raised, db)
    else if not (strip r.verify == "SUCCESS")
    then (refused 401 "missing_client_certificate", db)
    else (passed, db)
