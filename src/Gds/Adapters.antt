-- ===== src/Gds/Adapters.antt =====
-- The adapters of gds/app/runtime_adapters.py. A certificate request comes parsed, with its extensions;
-- the look at an IP address is a parameter.
pub mod Valid
use opcua_implementaion.Prelude.{
  String, Bool, true, false, not, ◌&&◌, ◌||◌, Option, none, some, List, [], ◌∷◌, ◌++◌, any, all,
  ◌==◌, string_eq, if◌then◌else◌,
}
use text.Mathlib.Text.{starts_with}
use opcua_implementaion.Prelude.Text.{strip, lower}
use opcua_implementaion.Prelude.Dict.{Dict, get, put}
use opcua_implementaion.Gds.Db.{Application}
use opcua_implementaion.Gds.Manifest.{CsrIdentity, RuntimeCompatibility, PackageLayout, InstallPlan}

pub record SubjectAlternativeName : Type 0 where
  pub uris : List String
  pub dns_names : List String
  pub ip_addresses : List String

pub record KeyUsage : Type 0 where
  pub digital_signature : Bool
  pub key_encipherment : Bool
  pub key_cert_sign : Bool

-- A parsed request; an extension that it has not is `none`.
pub record Csr : Type 0 where
  pub subject : String
  pub is_signature_valid : Bool
  pub der_sha256 : String
  pub subject_alternative_name : Option SubjectAlternativeName
  pub usage : Option KeyUsage
  pub extended_usage : Option (List String)

-- A row of the profiles, with the keys that are read. A key that its JSON has not is `none`, or has the
-- default with which it is read.
pub record Profile : Type 0 where
  pub profile_name : String
  pub runtime_family : String
  pub component_type : String
  pub certificate_format : String
  pub trust_store_layout : Dict String String
  pub runtime_semantics : Dict String String
  pub required_key_usage : List String
  pub required_extended_key_usage : List String
  pub allowed_zones : Option (List String)
  pub allow_private_ip_sans : Bool
  pub status : String

abbrev when : Bool → String → List String
when true name = name ∷ []
when false name = []

abbrev usage_names : Option KeyUsage → List String
usage_names none = []
usage_names (some u) =
    when u.digital_signature "digitalSignature"
    ++ (when u.key_encipherment "keyEncipherment" ++ when u.key_cert_sign "keyCertSign")

-- The two known identifiers have names.
abbrev eku_name : String → String
eku_name oid =
    if oid == "1.3.6.1.5.5.7.3.1"
    then "serverAuth"
    else if oid == "1.3.6.1.5.5.7.3.2"
    then "clientAuth"
    else oid

abbrev eku_names : List String → List String
eku_names [] = []
eku_names (oid ∷ oids) = eku_name oid ∷ eku_names oids

abbrev or_nil : Option (List String) → List String
or_nil none = []
or_nil (some xs) = xs

abbrev san_or_nil : Option SubjectAlternativeName → SubjectAlternativeName
san_or_nil none = record { uris = []; dns_names = []; ip_addresses = [] }
san_or_nil (some san) = san

unfoldable pub extract_csr_identity : Csr → CsrIdentity
extract_csr_identity csr =
    let san = san_or_nil csr.subject_alternative_name in
    record {
      subject = csr.subject;
      uri_sans = san.uris;
      dns_sans = san.dns_names;
      ip_sans = san.ip_addresses;
      key_usage = usage_names csr.usage;
      extended_key_usage = eku_names (or_nil csr.extended_usage);
    }

abbrev pub among : List String → String → Bool
among xs x = any (λ y. y == x) xs

abbrev is_nil : List String → Bool
is_nil [] = true
is_nil (x ∷ xs) = false

unfoldable pub uri_errors : String → List String → List String
uri_errors app_uri uri_sans =
    when (not (app_uri == "") && not (is_nil uri_sans) && not (among uri_sans app_uri))
      "csr_uri_san_mismatch"

unfoldable pub dns_errors : List String → List String
dns_errors [] = []
dns_errors (name ∷ names) =
    when (starts_with name "*.") "wildcard_dns_san_rejected" ++ dns_errors names

unfoldable pub zone_errors : String → Option (List String) → List String
zone_errors zone none = []
zone_errors zone (some zones) = when (not (among zones zone)) "zone_not_allowed_by_profile"

abbrev ip_error : Option Bool → List String
ip_error none = "invalid_ip_san" ∷ []
ip_error (some is_private) = when is_private "private_ip_san_rejected"

unfoldable pub ip_errors : (String → Option Bool) → List String → List String
ip_errors is_private [] = []
ip_errors is_private (ip ∷ ips) = ip_error (is_private ip) ++ ip_errors is_private ips

-- A non-empty required set that is not a subset.
unfoldable pub usage_errors : List String → List String → String → List String
usage_errors required given code = when (not (all (among given) required)) code

module _ (is_private : String → Option Bool) (profile : Profile) where
  -- The errors; the list of warnings stays empty.
  unfoldable pub validate_csr : Csr → Application → List String × CsrIdentity
  unfolding uri_errors dns_errors zone_errors ip_errors usage_errors
  validate_csr csr app =
      let info = extract_csr_identity csr in
      (
        uri_errors (strip app.application_uri) info.uri_sans
            ++ (dns_errors info.dns_sans
                ++ (zone_errors app.zone profile.allowed_zones
                    ++ ((if profile.allow_private_ip_sans
                          then []
                          else ip_errors is_private info.ip_sans)
                        ++ (usage_errors profile.required_extended_key_usage info.extended_key_usage
                              "extended_key_usage_missing_required"
                            ++ usage_errors profile.required_key_usage info.key_usage
                                "key_usage_missing_required")))),
        info,
      )

-- `str(app.get("component_type") or app.get("role") or "")`
abbrev pub component_of : Application → String
component_of app = elim app.component_type [
  | none ↦ app.role
  | some t ↦ (if t == "" then app.role else t)
]

abbrev no_layout : Dict String String → Bool
no_layout [] = true
no_layout (entry ∷ layout) = false

-- `adapter_for_profile` and the `runtime_family` of its class.
unfoldable pub adapter_family : Profile → String
adapter_family profile =
    let family = lower (strip profile.runtime_family) in
    if family == "open62541"
    then "open62541"
    else if family == "node-opcua"
    then "node-opcua"
    else "generic"

unfoldable pub blocking_reasons_of : Profile → Application → List String
blocking_reasons_of profile app =
    let component_type = strip (component_of app) in
    let profile_component = strip profile.component_type in
    let format = lower profile.certificate_format in
    when
      (not (profile_component == "")
        && not (component_type == "")
        && not (component_type == profile_component))
      "component_type_differs_from_profile"
    ++ (when (not (format == "pem" || format == "pem+der" || format == "der"))
          "unsupported_certificate_format"
        ++ when (no_layout profile.trust_store_layout) "missing_trust_store_layout")

unfoldable pub validate_runtime_compatibility :
    Profile → CsrIdentity → Application → Option String → RuntimeCompatibility
unfolding adapter_family blocking_reasons_of
validate_runtime_compatibility profile csr_info app issued_fingerprint =
    let blocking = blocking_reasons_of profile app in
    record {
      status = if is_nil blocking then "COMPATIBLE" else "INCOMPATIBLE";
      risk_level = if is_nil blocking then "LOW" else "HIGH";
      blocking_reasons = blocking;
      warnings = [];
      details = record {
        runtime_family = adapter_family profile;
        certificate_format = profile.certificate_format;
        runtime_semantics = profile.runtime_semantics;
        trust_store_layout = profile.trust_store_layout;
        csr_identity = csr_info;
        issued_certificate_fingerprint = issued_fingerprint;
      };
    }

abbrev or_path : Option String → String → String
or_path none path = path
or_path (some p) path = p

unfoldable pub generate_package_layout : Profile → String → String → String → PackageLayout
generate_package_layout profile pem ca_chain_pem crl_base64 =
    let layout = profile.trust_store_layout in
    record {
      runtime_family = adapter_family profile;
      layout = layout;
      files = put (or_path (get "issuer_crl" layout) "issuers/crl/current.crl.b64") crl_base64 (
          put (or_path (get "issuer_chain" layout) "issuers/certs/ca-chain.pem") ca_chain_pem (
            put (or_path (get "application_certificate" layout) "own/certs/application.pem") pem
              []));
    }

unfoldable pub generate_install_plan : Profile → PackageLayout → RuntimeCompatibility → InstallPlan
generate_install_plan profile package_layout compatibility = record {
  runtime_write_enabled = false;
  dry_run_only = true;
  runtime_family = adapter_family profile;
  target_layout = package_layout.layout;
  steps =
      "verify_signed_manifest" ∷ "verify_payload_hash_tree" ∷ "verify_runtime_compatibility"
      ∷ "create_shadow_trust_store" ∷ "evaluate_approval_and_maintenance_window"
      ∷ "prepare_activation_dry_run_only" ∷ [];
  blocked = not (compatibility.status == "COMPATIBLE");
  blocking_reasons = compatibility.blocking_reasons;
  warnings = compatibility.warnings;
}

-- `_profile`
unfoldable pub profile_of :
    String → String → String → String → Dict String String → List String → Profile
profile_of profile_name runtime_family component_type certificate_format layout required_eku =
    record {
      profile_name = profile_name;
      runtime_family = runtime_family;
      component_type = component_type;
      certificate_format = certificate_format;
      trust_store_layout = layout;
      runtime_semantics =
          ("hot_reload_supported", "false")
          ∷ ("restart_required_for_key_change", "true")
          ∷ ("restart_required_for_trust_change", "false")
          ∷ ("private_key_format", if runtime_family == "open62541" then "DER" else "PEM")
          ∷ (
            "certificate_store_model",
            if runtime_family == "open62541" then "open62541-filestore" else "node-opcua-pki",
          )
          ∷ [];
      required_key_usage = "digitalSignature" ∷ "keyEncipherment" ∷ [];
      required_extended_key_usage = required_eku;
      allowed_zones = some ("OT" ∷ "DMZ" ∷ []);
      allow_private_ip_sans = true;
      status = "active";
    }

abbrev layout_with : String → Dict String String
layout_with application_certificate =
    ("application_certificate", application_certificate)
    ∷ ("issuer_chain", "issuers/certs/ca-chain.pem")
    ∷ ("issuer_crl", "issuers/crl/current.crl.b64")
    ∷ ("trusted_certs_dir", "trusted/certs")
    ∷ ("trusted_crl_dir", "trusted/crl")
    ∷ []

unfoldable pub default_component_profiles : List Profile
unfolding profile_of
default_component_profiles =
    let open62541_layout = layout_with "own/certs/application.pem" in
    let node_layout = layout_with "own/certs/client_certificate.pem" in
    profile_of "open62541-server" "open62541" "server" "pem" open62541_layout ("serverAuth" ∷ [])
    ∷ profile_of "open62541-client" "open62541" "client" "pem" open62541_layout ("clientAuth" ∷ [])
    ∷ profile_of "node-opcua-server" "node-opcua" "server" "pem" node_layout ("serverAuth" ∷ [])
    ∷ profile_of "node-opcua-client" "node-opcua" "client" "pem" node_layout ("clientAuth" ∷ [])
    ∷ []
