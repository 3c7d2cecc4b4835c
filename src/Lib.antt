-- ===== src/Lib.antt =====
-- The OPC UA certificate services: what their Python code decides, as executable definitions
-- with proofs.
--
-- Two programs share the repository. The certificate service in the DMZ, gds/app, keeps
-- applications, certificates, packages, trust lists and signed artifacts in PostgreSQL, talks to
-- a Vault for the PKI and answers the agents. The agent of each zone, gds-agent/app, pulls
-- packages and trust lists, plans changes of the runtimes, asks for approvals, waits for
-- maintenance windows, and forwards telemetry.
--
-- Prelude: shared names, Boolean tests, lists, Python's text methods and dictionaries.
-- Agent/Environment: env, env_int and env_bool of gds-agent/app/main.py.
-- Agent/Telemetry: _telemetry_decision of gds-agent/app/main.py and what it reads, with the two
-- tables of send times as an explicit state.
-- Agent/Maintenance: load_maintenance_policy and maintenance_window_status of
-- gds-agent/app/main.py.
-- Agent/Approvals: ApprovalSigner.verify, load_valid_approvals_for_target and
-- load_active_approval_for_target of gds-agent/app/main.py.
-- Agent/Gate: evaluate_activation_gate of gds-agent/app/main.py.
-- Gds/Db: the tables of gds/app/db.py as lists of rows, with the serials, and audit.
-- Gds/Packages: update_certificate_package_lifecycle of gds/app/db.py.
-- Gds/TrustLists: build_trust_list, ensure_trust_list_current, get_latest_trust_list_with_certs,
-- mark_certificate_revoked and the queries below them, of gds/app/db.py.
-- Gds/Auth: the policies and the store of gds/app/agent_auth.py, and _authorize_agent_pull and
-- _deny_agent_on_admin_endpoint of gds/app/main.py.
-- Gds/Boundary: the middleware enforce_mtls_header_boundary of gds/app/main.py and
-- _require_https_mtls.
-- Gds/Artifacts: build_signed_artifact of gds/app/artifact_signing.py, the table of artifacts of
-- gds/app/db.py, and _get_or_regenerate_signed_artifact of gds/app/main.py with its cache.
-- Gds/Revocation: revoke_certificate of gds/app/main.py behind its guards on the client, over
-- the parts above.
-- Agent/Artifacts: verify_signed_artifact of gds-agent/app/main.py.
-- Gds/Lifecycle, Gds/Adapters, Gds/Manifest: gds/app/lifecycle.py, gds/app/package_signing.py
-- and gds/app/runtime_adapters.py, with the statements of gds/app/db.py that they use.
-- Gds/Facade: gds/app/opcua_boundary_adapter.py.
-- Gds/Sender: gds/app/dmz_collector_sender.py. Gds/Vault: the token of gds/app/vault_client.py.
-- Agent/Packages: verify_certificate_package_manifest and verify_trust_anchor_fingerprint of
-- gds-agent/app/main.py.
--
-- How the code is read: a handler is a function from the state that it reads to its result and
-- the state that it leaves. An exception is a constructor of the result or `none`. Times are
-- whole ticks and arguments, for the clock is not the program's. A table is the list of its rows
-- in the order of insertion; a query is a search in it. JSON that is read from a file or a
-- request comes parsed. Nothing runs on fuel: every loop of the modelled code goes over a list.
--
-- Parameters, for code outside the repository: the makers and checks of signatures, the digests,
-- the encoders and readers of JSON, dates and certificates, the collation of PostgreSQL, and the
-- answers of the Vault. Each is an argument of the definitions that use it; no theorem assumes
-- more of it than its statement says.
--
-- Not modelled: the HTTP layer of both services, the connection pool, key files, staging,
-- rollback and the files of the runtimes, the C gateway in opcua-dmz-gateway, shell scripts and
-- Docker files. The two programs run several threads, and one transaction of PostgreSQL is one
-- step here.
pub mod Prelude
pub mod Agent
pub mod Gds
