-- ===== src/Gds/Facade/Tests.antt =====
-- A limit of two calls, and a request to a facade that may not sign.
use opcua_implementaion.Prelude.{ℕ, ◌≤◌, ◌*◌, max, String, false, List, [], ◌∷◌, ◌≡◌, refl, arith}
use opcua_implementaion.Prelude.Dict.{get, put}
use opcua_implementaion.Gds.Lifecycle.Issue.{vault_sealed}
use opcua_implementaion.Gds.Lifecycle.Failed.{IsUntouched}
use opcua_implementaion.Gds.Lifecycle.Dry.{dry_run-IsUntouched}
use opcua_implementaion.Gds.Lifecycle.DryRun.{validate_certificate_request_dry_run}
use opcua_implementaion.Gds.Lifecycle.Fixture.{db, environment, call}
use opcua_implementaion.Gds.Facade.Limits.{count_call, allow}
use opcua_implementaion.Gds.Facade.Bounded.{allowed_calls, allowed_calls-le}
use opcua_implementaion.Gds.Facade.Operations.{
  FacadeSettings, no_payload, Operation, Facade, Surroundings, serve,
}
use opcua_implementaion.Gds.Facade.Unsigned.{serve-IsUntouched}

abbrev calls : List (String × ℕ)
calls = ("s1", 7) ∷ ("s1", 8) ∷ ("s2", 9) ∷ ("s1", 10) ∷ ("s1", 66) ∷ []

two_of_four : allowed_calls 2 "s1" calls [] ≡ 2
unfolding allowed_calls allow count_call get put
two_of_four = refl

allowed_calls-le_example : allowed_calls 2 "s1" calls [] ≤ 2 * max 1 2
allowed_calls-le_example =
    allowed_calls-le 2 "s1" calls [] 7 66 (omega arith)
      (omega arith, (omega arith, (omega arith, (omega arith, (omega arith, tt)))))
      (omega arith, (omega arith, (omega arith, (omega arith, (omega arith, tt)))))

abbrev settings : FacadeSettings
settings = record {
  mode = "dry_run";
  allow_signing = false;
  session_request_limit = 10;
  client_enrollment_limit = 2;
  max_csr_bytes = 100;
}

abbrev around : Surroundings
around = record {
  environment = environment vault_sealed;
  collates_before = λ a b. false;
  correlation_uuid = "c1";
  monotonic = 7;
}

abbrev facade : Facade
facade = record { db = db; session_limits = []; enrollment_limits = [] }

abbrev request : Operation
request =
    Operation.create_signing_request
      (record no_payload { application_uri = "urn:a"; csr_pem = "pem" })

serve-IsUntouched_example : IsUntouched db (serve settings around request facade).1.db
serve-IsUntouched_example = serve-IsUntouched settings around request facade refl

dry_run-IsUntouched_test :
    IsUntouched db (validate_certificate_request_dry_run (environment vault_sealed) call "c1" db).1
dry_run-IsUntouched_test = dry_run-IsUntouched (environment vault_sealed) call "c1" db
