-- ===== src/Execution/Service.antt =====
-- RemediationExecutionService of credit_harness/authorization/service.py.
use credit_incident_resoluti.Prelude.{
  ℕ, ◌==◌, ◌!=◌, Bool, false, true, if◌then◌else◌, nat_eq, none, not, option_eq, Option, some,
}
use credit_incident_resoluti.Domain.{EffectStatus, effect_status_eq}
use credit_incident_resoluti.Authorization.Models.{
  AuthorizationCode, DomainCommand, ExecutionCapability, FailureCode, ReceiptOutcome,
  RemediationIntent, SideEffectLedger, SideEffectReceipt, stale_authorization,
}
use credit_incident_resoluti.Cases.Rows.{case_row}
use credit_incident_resoluti.Authorization.Approvals.{get_intent}
use credit_incident_resoluti.Authorization.Capabilities.{existing}
use credit_incident_resoluti.Authorization.Commands.{build}
use credit_incident_resoluti.Authorization.Ledger.{
  dispatch_prepared, outcome_status, prepare, transition,
}
use credit_incident_resoluti.Database.{Db}
use credit_incident_resoluti.Database.Transaction.{authorization, err, Error, ok, Result}
use credit_incident_resoluti.Execution.Process.{
  answer, attempt, commit, dispatch, pure, raise, Reply, Runtime, Service,
  SignedExecutionCapability, ◌>>=◌,
}

pub record SideEffectExecutionResult : Type 0 where
  pub ledger : SideEffectLedger
  pub executed_now : Bool
  pub idempotent_replay : Bool

pub record Settlement : Type 0 where
  pub status : EffectStatus
  pub receipt : Option SideEffectReceipt
  pub failure : Option FailureCode

unknown_because : FailureCode → Settlement
unknown_because failure = record {
  status = EffectStatus.unknown;
  receipt = none;
  failure = some failure;
}

is_failure : ReceiptOutcome → Bool
is_failure ReceiptOutcome.failed_confirmed = true
is_failure _ = false

-- SideEffectReceipt.confirmed_failure_requires_no_effect, as a test.
unfoldable pub is_consistent : SideEffectReceipt → Bool
unfolding is_failure
is_consistent receipt =
    if is_failure receipt.outcome
    then receipt.no_effect_confirmed
    else not receipt.no_effect_confirmed

-- What the tail of a dispatch makes of the adapter's reply.
unfoldable pub settlement : SideEffectLedger → Reply → Settlement
unfolding unknown_because is_failure is_consistent
settlement ledger Reply.malformed = unknown_because FailureCode.invalid_receipt
settlement ledger Reply.interrupted = unknown_because FailureCode.transport_uncertain
settlement ledger (Reply.received receipt) =
    if is_consistent receipt
    then if receipt.correlation_id == ledger.dispatch_correlation_id
      then record {
        status = outcome_status receipt.outcome;
        receipt = some receipt;
        failure = if is_failure receipt.outcome then some FailureCode.remote_rejected else none;
      }
      else unknown_because FailureCode.invalid_receipt
    else unknown_because FailureCode.invalid_receipt

-- The transition that records the outcome.
unfoldable pub record_outcome :
    Runtime → SideEffectLedger → Settlement → Service SideEffectExecutionResult
record_outcome rt ledger settled = do
  changed ← commit rt (λ n.
      transition rt.env ledger.effect_id EffectStatus.dispatched settled.status (rt.clock n)
        settled.receipt settled.failure)
  pure (record { ledger = changed; executed_now = true; idempotent_replay = false })

-- `_complete_dispatch`, after DISPATCHED has committed.
unfoldable pub complete_dispatch :
    Runtime → Option DomainCommand → SideEffectLedger → Service SideEffectExecutionResult
complete_dispatch rt command ledger = do
  reply ← dispatch rt command ledger.dispatch_correlation_id
  record_outcome rt ledger (settlement ledger reply)

unfoldable pub replayed : SideEffectLedger → SideEffectExecutionResult
replayed ledger = record { ledger = ledger; executed_now = false; idempotent_replay = true }

-- `if existing: return …`, and else what follows.
unfoldable pub or_replay :
    Option SideEffectLedger → Service SideEffectExecutionResult → Service SideEffectExecutionResult
unfolding replayed
or_replay none s = s
or_replay (some ledger) s = pure (replayed ledger)

-- The ledger of the write, if there is one.
unfoldable pub replay_or :
    Runtime
    → ExecutionCapability
    → Service SideEffectExecutionResult
    → Service SideEffectExecutionResult
replay_or rt cap s = do found ← commit rt (λ n. existing rt.env cap (rt.clock n)); or_replay found s

-- The value of a computation that does not write.
unfoldable pub outside : {A : Type 0} → Result (A × Db) → Result A
outside (ok (a, db)) = ok a
outside (err e) = err e

-- `if not owns_dispatch: return …`; else PREPARED has committed, and DISPATCHED commits before the
-- adapter is called.
unfoldable pub after_prepare :
    Runtime
    → ExecutionCapability
    → Option DomainCommand
    → SideEffectLedger × Bool
    → Service SideEffectExecutionResult
after_prepare rt cap command (ledger, true) = do
  sent ← commit rt (λ n. dispatch_prepared rt.env cap (rt.clock n) none)
  complete_dispatch rt command sent
after_prepare rt cap command (ledger, false) = pure (record {
  ledger = ledger;
  executed_now = false;
  idempotent_replay =
      if ledger.capability_id == cap.capability_id
      then ledger.status != EffectStatus.noop
      else true;
})

unfoldable pub prepare_and_dispatch :
    Runtime → ExecutionCapability → RemediationIntent → Service SideEffectExecutionResult
unfolding outside
prepare_and_dispatch rt cap intent = do
  command ← λ w. answer (outside (build rt.env intent cap w.db)) w
  prepared ← commit rt (λ n. prepare rt.env cap (rt.clock n) (rt.wall n) (rt.fresh_id n))
  after_prepare rt cap command prepared

-- What follows the check of the facts.
unfoldable pub after_verify :
    Runtime
    → ExecutionCapability
    → Result (RemediationIntent × ℕ)
    → Service SideEffectExecutionResult
after_verify rt cap (ok (intent, revision)) =
    if revision == cap.expected_case_revision
    then prepare_and_dispatch rt cap intent
    else replay_or rt cap (raise (authorization stale_authorization))
after_verify rt cap (err (Error.authorization AuthorizationCode.stale_authorization)) =
    replay_or rt cap (raise (authorization stale_authorization))
after_verify rt cap (err e) = raise e

-- `execute`
unfoldable pub execute : Runtime → SignedExecutionCapability → Service SideEffectExecutionResult
execute rt signed = do
  cap ← answer (rt.authenticate signed)
  replay_or rt cap (do
    intent ← commit rt (λ n. get_intent rt.env cap.intent_id)
    attempt (commit rt (λ n. rt.verify (case_row rt.env) intent)) (after_verify rt cap))
