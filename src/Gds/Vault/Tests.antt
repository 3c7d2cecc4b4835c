-- ===== src/Gds/Vault/Tests.antt =====
-- A token that is about to end and is renewed.
use opcua_implementaion.Prelude.{true, false, none, some, string_eq, ◌≡◌, refl}
use opcua_implementaion.Prelude.Text.{lower, has_text, take_text}
use opcua_implementaion.Gds.Vault.Token.{
  Response, TokenState, got, Answers, token_text, is_sealed_response, request, mark_success,
  renew_self, renew_or_login, after_lookup, ensure_token,
}
use opcua_implementaion.Gds.Vault.Ready.{IsReady, ensure_token-IsReady}

abbrev found : Response
found = record {
  status_code = 200;
  text = "{}";
  auth = some (record { client_token = none; lease_duration = 3600; renewable = none });
  lookup = some (record { ttl = 10; renewable = some true });
}

abbrev answers : Answers
answers = record {
  files_read = true;
  login = none;
  relogin = none;
  lookup = some found;
  renew = some found;
  now = 100;
  login_at = 101;
  relogin_at = 101;
  renew_at = 101;
  margin = 60;
}

abbrev state : TokenState
state = record {
  token = some "s.1";
  renewable = false;
  expire_time_epoch = 0;
  last_error = none;
  vault_sealed = true;
}

is_renewed : (ensure_token answers state).0 ≡ got "s.1"
unfolding ensure_token request is_sealed_response lower has_text take_text mark_success after_lookup
    renew_or_login renew_self
is_renewed = refl

ensure_token-IsReady_example :
    IsReady answers (ensure_token answers state).1
    × ("s.1" ≡ token_text (ensure_token answers state).1.token)
ensure_token-IsReady_example = ensure_token-IsReady answers state "s.1" is_renewed
