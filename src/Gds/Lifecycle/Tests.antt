-- ===== src/Gds/Lifecycle/Tests.antt =====
-- Packages that are issued, and calls that fail.
use opcua_implementaion.Prelude.{true, none, [], ◌∷◌, ◌≡◌, ◌↔◌}
use opcua_implementaion.Gds.Db.{Db}
use opcua_implementaion.Gds.Adapters.{extract_csr_identity, validate_csr, profile_of}
use opcua_implementaion.Gds.Adapters.Valid.{accepts, validate_csr_iff}
use opcua_implementaion.Gds.Lifecycle.Issue.{signed, issue_certificate_package}
use opcua_implementaion.Gds.Lifecycle.Issued.{IsWarranted, issued-IsWarranted}
use opcua_implementaion.Gds.Lifecycle.Generations.{IsChained, Steps, Steps-IsChained}
use opcua_implementaion.Gds.Lifecycle.Fixture.{is_issued, db, csr, server, environment, call}

abbrev tables : Db
tables = (issue_certificate_package (environment (signed "cert" none)) call db).1

issued-IsWarranted_example :
    IsWarranted (environment (signed "cert" none)) call db is_issued.0 tables
issued-IsWarranted_example =
    issued-IsWarranted (environment (signed "cert" none)) call db is_issued.0 is_issued.1

Steps-IsChained_example : IsChained tables.certificate_packages
Steps-IsChained_example =
    Steps-IsChained db tables (record { rises = tt; follows = tt })
      (Steps.issue (environment (signed "cert" none)) call db Steps.done)

validate_csr_iff_test :
    ((validate_csr
        (λ ip. none)
        (profile_of "p" "open62541" "server" "pem" [] ("serverAuth" ∷ []))
        csr
        server).0
      ≡ [])
    ↔ (accepts
          (λ ip. none)
          (profile_of "p" "open62541" "server" "pem" [] ("serverAuth" ∷ []))
          (extract_csr_identity csr)
          server
        ≡ true)
validate_csr_iff_test =
    validate_csr_iff (λ ip. none) (profile_of "p" "open62541" "server" "pem" [] ("serverAuth" ∷ []))
      csr server
