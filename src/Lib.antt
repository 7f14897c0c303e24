-- ===== src/Lib.antt =====
-- Verification of the trusted core of the credit incident resolution harness: the components under
-- src/credit_harness that decide whether a side effect may be written, what became of it, and which
-- work follows.
--
-- The program. An incident is a Case. A remediation intent is approved by an operator, a single-use
-- capability is issued for it, and `prepare` reserves an effect in the side-effect ledger under a
-- business key. `dispatch_prepared` marks the effect as sent before the remote write; its receipt
-- moves the ledger by `transition`. An effect whose outcome is unknown is never written again: a
-- recovery worker claims it under a lease, looks it up, and settles the ledger by what the lookup
-- proves. Every change of a ledger publishes a work item in the same transaction; work items are
-- leased to one worker at a time, and a Case that waits or escalates is resumed by a timer or by an
-- operator's signal. What an incident is follows from Evidence: rules over an index of current facts
-- give each hypothesis its status, the open questions and the identity of the payment, and the
-- evaluator derives from them, and from the ledger, whether the incident is resolved.
--
-- The files. Database/Schema has the tables as one record `Db`, and `Deployment`, what a deployment
-- fixes. Database/Transaction has transactions over `Db` that commit or raise, with the primitives of
-- the operations; `run` rolls back. Database/Frame and Database/Ensures have the rules by which
-- proofs follow an operation line by line.
--   Cases: cases/models.py, tables.py, preconditions.py (Models), the row helpers (Rows), and
--     repository.py (Calls); Budget has the proofs.
--   Authorization: authorization/models.py and tables.py (Models), commands.py (Commands), store.py
--     (Approvals, Capabilities, Ledger); Lifecycle specifies the life of an effect; Untouched and
--     Commits say what each transaction does to the ledger; Guards and Decisions have the proofs.
--   Recovery: recovery/models.py and tables.py (Models, Sync), identity.py and proof.py (Proof),
--     repository.py (Lease, Settle, Scan); Untouched, Commits, Exclusion, Holder and Proved have the
--     proofs.
--   Orchestration: orchestration/models.py and tables.py (Models), repository.py (Work, Leases, Polling, Signals),
--     effect_work.py (EffectWork, Handoff), handoff.py (Handoff, Pause), routing.py (Routing); Quiet, QuietHandoff and
--     Single have the proofs.
--   Execution: authorization/service.py (Process, Service) and recovery/service.py with prepared.py
--     (Recover), as sequences of own transactions and remote calls; Sends, Once, Recovers, Settled,
--     Claimed, Twice and Replies have the proofs. Recovery/Resume has the reads of the resumption of a
--     PREPARED effect.
--   Evidence, Identity and Hypotheses: evidence/models.py and cases/models.py (Evidence/Models),
--     identity/models.py and payment.py (Identity/Models, Payment), hypotheses/index.py (Index),
--     models.py and catalog.py (Models), rules.py (Facts, Rules, Outcome), gaps.py (Gaps), engine.py
--     and invariants.py (Engine); Identity/Matching and Hypotheses/Checked, Current, Basis and OpenGaps have
--     the proofs.
--   Evaluation: evaluation/models.py and contract.py (Models), snapshot.py with the catalog's policy of
--     remediation/catalog.py (Snapshot), evaluator.py (Checks, Effects, Report); Passed, Verified and
--     Final have the proofs.
--   History: sequences of committed transactions of all components, the invariant of the ledger and
--     the life of an effect along them. A step `elsewhere` stands for any transaction that does not
--     write the ledger.
--   Fixtures and the Tests modules run the operations on concrete tables.
--
-- How state corresponds. A table is an association list by primary key; a second unique column is a
-- check that raises `integrity`. Identifiers and hashes are only compared, so they are numbers, and
-- an instant is a number of microseconds, also where the source stores a float timestamp. Clocks and
-- fresh uuids are arguments (`now`, `wall`, `correlation`, `recovery_id`, `token`). The SHA-256
-- digest of canonical JSON is a field of `Deployment` over the values that are digested, and no
-- theorem assumes that it has no collisions. Every writer locks the Case row first, so transactions
-- of one Case run one after the other; a transaction is a function of the tables, and an exception
-- leaves them as they were. A stored payload is the record that was stored: the JSON round trip and
-- the validators of pydantic on load are not modelled, nor are the random identifiers of audit rows.
-- `create_item` is `_create_work`: the source's `create_work` hands the type RECOVERY_RECHECK to
-- `ensure_recovery_work`, no caller passes it that type, and for every other it is `_create_work`.
-- The bounds on a scan's limit are not modelled, and the registry that guards a tool call is the
-- interface `Registry`. In Execution, `Runtime` has what a service is built with: the adapter, the
-- signer and verifier, the resolver of evidence and the clock are functions of the model's
-- arguments, and `others` gives the transactions of other workers that commit before each own one.
-- In Evidence, subjects and values are texts, and the identifiers of evidence are numbers; the
-- engine's digest of its input and the texts that describe a hypothesis or a question are left out,
-- and witnesses and references stand in the order in which they are met, where the source sorts them.
-- The snapshot reader takes the hydrated Case, the catalog's entries and the verified read of the
-- Evidence, and its tables exist; the fingerprints of its snapshot are left out.
-- `EvaluationState` has a function from the ledger's numbers to the texts of Evidence; an absent
-- `source_as_of`, which the source compares only for evidence that has one, is after no effect.
-- Every function recurses on a list, but the walk up the parents of a hypothesis, whose fuel is the
-- number of definitions: a walk that is longer meets a definition twice, which is the cycle that it
-- looks for.
--
-- Not modelled: closure and the repository of reports, the extraction, the store and the verified
-- read of Evidence, the planner, the context and the agent's loop, the source registry, memory and
-- retrieval, the services that call language models or remote systems, the web interface, the
-- simulator and the benchmark.
pub mod Prelude
pub mod Domain
pub mod Evidence
pub mod Hypotheses
pub mod Identity
pub mod Authorization
pub mod Recovery
pub mod Cases
pub mod Orchestration
pub mod Evaluation
pub mod Execution
pub mod History
pub mod Fixtures
pub mod Database
