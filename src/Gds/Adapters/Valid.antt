-- ===== src/Gds/Adapters/Valid.antt =====
-- The certificate requests that an adapter accepts.
use text.Mathlib.Text.{starts_with}
use opcua_implementaion.Prelude.{
  String, Bool, true, false, not, ◌&&◌, ◌||◌, Option, none, some, List, [], ◌∷◌, ◌++◌, all, ◌==◌,
  string_eq, if◌then◌else◌, ◌≡◌, ◌↔◌, refl, arith,
}
use opcua_implementaion.Prelude.Text.{strip}
use opcua_implementaion.Gds.Db.{Application}
use opcua_implementaion.Gds.Manifest.{CsrIdentity}
use opcua_implementaion.Gds.Adapters.{
  Csr, Profile, extract_csr_identity, among, uri_errors, dns_errors, zone_errors, ip_errors,
  usage_errors, validate_csr,
}

-- No errors in either part, by the tests of both.
both :
    (xs ys : List String) (a b : Bool)
    → (xs ≡ []) ↔ (a ≡ true)
    → (ys ≡ []) ↔ (b ≡ true)
    → (xs ++ ys ≡ []) ↔ ((a && b) ≡ true)
both [] ys a b l r = ground arith
both (x ∷ xs) ys a b l r = ground arith

-- A zone is allowed where the profile lists none.
abbrev pub zone_allowed : String → Option (List String) → Bool
zone_allowed zone none = true
zone_allowed zone (some zones) = among zones zone

abbrev pub is_public : Option Bool → Bool
is_public none = false
is_public (some is_private) = not is_private

abbrev pub names_application : String → List String → Bool
names_application app_uri [] = true
names_application app_uri (uri ∷ uris) = app_uri == "" || among (uri ∷ uris) app_uri

dns_iff :
    (names : List String)
    → (dns_errors names ≡ []) ↔ (all (λ n. not (starts_with n "*.")) names ≡ true)
unfolding dns_errors
dns_iff [] = ((λ h. refl), λ h. refl)
dns_iff (name ∷ names) = ground (arith, dns_iff names)

ip_iff :
    (is_private : String → Option Bool) (ips : List String)
    → (ip_errors is_private ips ≡ []) ↔ (all (λ ip. is_public (is_private ip)) ips ≡ true)
unfolding ip_errors
ip_iff is_private [] = ((λ h. refl), λ h. refl)
ip_iff is_private (ip ∷ ips) = ground (arith, ip_iff is_private ips)

private_iff :
    (is_private : String → Option Bool) (allowed : Bool) (ips : List String)
    → ((if allowed then [] else ip_errors is_private ips) ≡ [])
      ↔ ((allowed || all (λ ip. is_public (is_private ip)) ips) ≡ true)
private_iff is_private allowed ips = ground (arith, ip_iff is_private ips)

-- The conditions on a request, read off the application and the profile.
abbrev pub accepts : (String → Option Bool) → Profile → CsrIdentity → Application → Bool
accepts is_private profile info app =
    names_application (strip app.application_uri) info.uri_sans
    && (all (λ n. not (starts_with n "*.")) info.dns_sans
        && (zone_allowed app.zone profile.allowed_zones
            && ((profile.allow_private_ip_sans
                  || all (λ ip. is_public (is_private ip)) info.ip_sans)
                && (all (among info.extended_key_usage) profile.required_extended_key_usage
                    && all (among info.key_usage) profile.required_key_usage))))

uri_iff :
    (app_uri : String) (uris : List String)
    → (uri_errors app_uri uris ≡ []) ↔ (names_application app_uri uris ≡ true)
unfolding uri_errors
uri_iff app_uri [] = ground arith
uri_iff app_uri (uri ∷ uris) = ground arith

zone_iff :
    (zone : String) (zones : Option (List String))
    → (zone_errors zone zones ≡ []) ↔ (zone_allowed zone zones ≡ true)
unfolding zone_errors
zone_iff zone none = ground arith
zone_iff zone (some zones) = ground arith

usage_iff :
    (required given : List String) (code : String)
    → (usage_errors required given code ≡ []) ↔ (all (among given) required ≡ true)
unfolding usage_errors
usage_iff required given code = ground arith

-- A request has no errors exactly when: a URI among its names is the application's, where it has any
-- and the application has one; no name is a wildcard; the profile allows the zone; each address is
-- public, where the profile does not allow private ones; and both required usages are there.
pub validate_csr_iff :
    (is_private : String → Option Bool) (profile : Profile) (csr : Csr) (app : Application)
    → ((validate_csr is_private profile csr app).0 ≡ [])
      ↔ (accepts is_private profile (extract_csr_identity csr) app ≡ true)
unfolding validate_csr
validate_csr_iff is_private profile csr app =
    let info = extract_csr_identity csr in
    both _ _ _ _ (uri_iff (strip app.application_uri) info.uri_sans) (
      both _ _ _ _ (dns_iff info.dns_sans) (
        both _ _ _ _ (zone_iff app.zone profile.allowed_zones) (
          both _ _ _ _ (private_iff is_private profile.allow_private_ip_sans info.ip_sans) (
            both _ _ _ _
              (usage_iff profile.required_extended_key_usage info.extended_key_usage
                "extended_key_usage_missing_required")
              (usage_iff profile.required_key_usage info.key_usage "key_usage_missing_required")))))
