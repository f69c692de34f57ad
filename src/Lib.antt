-- ===== src/Lib.antt =====
-- CauSium's backend (backend/app): the audit chain, the access policy and the services of a
-- workspace, as executable models with theorems about them.
--
-- Parts and how they interact. An endpoint runs in one database transaction (`get_db` of
-- backend/app/core/database.py: commit at the end, rollback when it raises). It asks the access
-- policy (core/policy.py) whether the user and the session may act, keeps the decision as evidence
-- (domains/policy/service.py), and calls a service, which reads and writes rows of the workspace
-- and appends an event to the workspace's chain of audit events (domains/audit_chain/service.py).
-- Beside the endpoints, workers take the accounts to work on from queues in Redis.
--
-- Files:
--   Prelude: the shared names. Lists (rows of a table), Texts (the str methods used, on code
--     points), Results and Actions (exceptions; state passing with a transaction around it),
--     Floats (IEEE doubles by their bits, as far as they are compared with constants),
--     Decimals (`str` and `int` of natural numbers).
--   Audit: AuditChainService of domains/audit_chain/service.py. Store holds its tables, Values the
--     JSON payloads and `_normalize_payload`, Alerts the notifications. Order, Links, Append, Race,
--     Tamper and Checkpoints hold the proofs.
--   Policy: core/policy.py; Policy/Service: PolicyService of domains/policy/service.py.
--   Experiments: ExperimentService of domains/experiments/service.py; Models and Payloads its rows
--     and audit payloads, Endpoints the handlers of domains/experiments/router.py. Gate, Diagram,
--     Lifecycle and Approvals hold the proofs.
--   Invites: InviteService of domains/invites/service.py; Models its rows and requests. Joining,
--     Machine, Histories, Quota, Pending and Once hold the proofs.
--   Workflow: WorkflowService of domains/workflow/service.py; Models its rows and requests,
--     Endpoints the handlers of domains/workflow/router.py, Board `get_board`. Diagram, Changes,
--     Lifecycle and Resolved hold the proofs.
--   Idempotency: core/idempotency.py, and DisabledRedis of core/redis.py; Keys `build_scope_key`,
--     Endpoints the handlers of domains/experiments/router.py that take an Idempotency-Key. Keys and
--     Replay hold the proofs.
--   Keyrings: the keyrings and secrets of core/security.py; Models the rows, Fernets the
--     cryptography as a parameter, Worker a round of workers/keyring_rotation_worker.py. Keeping,
--     Versions, Decrypting, Ordering and Rotation hold the proofs.
--   BackupCodes: the backup codes of domains/auth/service.py. Spending, Renewal and Accepting hold
--     the proofs.
--   Jobs: the workers of workers/ingestion_worker.py, scoring_worker.py and carbon_sync_worker.py, and
--     push_to_dlq of workers/job_runtime.py; Models the queues and tables, Parsing `parse_job`,
--     Scheduling the scheduler and `requeue_dlq`. Settling, Counting, Draining and Burying hold the
--     proofs. A lock is held until it is deleted; Redis and the database answer.
--   Accounts: users, and what administrators do to them, of domains/auth/service.py; Models the rows,
--     Administration resets and deactivation, Requests seven handlers of domains/auth/router.py,
--     Challenges the challenges and password resets, Totp the one-time codes, Login `login` and
--     `change_password`, Sessions the tokens of core/security.py with domains/auth/token_blacklist.py
--     and `get_current_user` of core/dependencies.py. Writing, Managing, Handling, Escalation, Purging,
--     Redeeming, Revocation and Entering hold the proofs. Password hashes, tokens and HMAC are
--     parameters.
--   Passkeys: `_read_cbor` and `_parse_attestation_object` of domains/auth/service.py. Depth holds the
--     proofs. Its fuel is Python's recursion limit; more than the number of bytes is enough.
--   A module Tests in a folder holds concrete runs and each theorem at a concrete input.
--
-- Prelude/Growth says what it is for a table to grow only at its end.
--
-- Conventions. A table is the list of its rows in the order of insertion; a row is found by its
-- primary key and written back whole. UUIDs and instants are numbers: `str(uuid)`, `isoformat()`,
-- canonical JSON, SHA-256, HMAC and the signing secret are fields of the record `Runtime`, so that
-- a theorem that needs more of them says so. New UUIDs and the clock come in as arguments (`Stamp`,
-- `Ticket`). An exception is a value (`value_error`, `http`, or `raised` with its class), the message of
-- a computed text kept as its fixed part. No loop needs fuel: all recurse on lists or numbers, and
-- the reader of Passkeys on the recursion limit.
--
-- Not modelled: the ORM and the database themselves, the routes' validation by pydantic, request
-- logging, and the domains that PROJECT.json lists as not modelled.
pub mod Prelude
pub mod Audit
pub mod Policy
pub mod Experiments
pub mod Invites
pub mod Workflow
pub mod Idempotency
pub mod Keyrings
pub mod BackupCodes
pub mod Jobs
pub mod Accounts
pub mod Passkeys
