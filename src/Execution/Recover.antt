-- ===== src/Execution/Recover.antt =====
-- credit_harness/recovery/service.py and prepared.py: a recovery, from its claim to its result.
use credit_incident_resoluti.Prelude.{
  ℕ, ◌==◌, ◌!=◌, ◌&&◌, ◌||◌, Bool, false, true, if◌then◌else◌, nat_eq, none, not, option_eq, Option,
  some,
}
use credit_incident_resoluti.Domain.{EffectStatus, effect_status_eq, is_lookup_only}
use credit_incident_resoluti.Authorization.Models.{
  AuthorizationCode, DomainCommand, ExecutionCapability, SideEffectLedger,
}
use credit_incident_resoluti.Authorization.Capabilities.{existing}
use credit_incident_resoluti.Authorization.Commands.{build}
use credit_incident_resoluti.Authorization.Ledger.{dispatch_prepared, get_ledger}
use credit_incident_resoluti.Recovery.Models.{
  invalid_lookup_receipt, recovery_capability_eq, RecoveryClaim, RecoveryFailure, RecoveryOutcome,
  recovery_stale,
}
use credit_incident_resoluti.Recovery.Lease
use credit_incident_resoluti.Recovery.Proof.{reconstruct_identity}
use credit_incident_resoluti.Recovery.Resume.{original_capability, own_attempt, prepared_case}
use credit_incident_resoluti.Recovery.Scan.{requires_escalation}
use credit_incident_resoluti.Recovery.Settle.{
  finish_error, finish_resume, persist_lookup, recover_transition,
}
use credit_incident_resoluti.Database.Transaction.{err, Error, key_error, ok, recovery, Result}
use credit_incident_resoluti.Execution.Process.{
  answer, attempt, commit, pure, raise, Runtime, Service, ◌>>=◌, ◌>>◌,
}
use credit_incident_resoluti.Execution.Service.{
  complete_dispatch, outside, SideEffectExecutionResult,
}

pub record RecoveryResult : Type 0 where
  pub recovery_id : ℕ
  pub subject_id : ℕ
  pub before_status : EffectStatus
  pub after_status : EffectStatus
  pub action_taken : RecoveryOutcome
  pub proof_ref : Option ℕ
  pub requires_escalation : Bool
  pub failure_code : Option RecoveryFailure

-- `raise RecoveryError(F.RECOVERY_STALE)` under a condition
unfoldable pub stale_if : Bool → Service Unit
stale_if true = raise (recovery recovery_stale)
stale_if false = pure tt

unfoldable pub invalid_if : Bool → Service Unit
invalid_if true = raise (recovery invalid_lookup_receipt)
invalid_if false = pure tt

-- EffectStatusLookupService.capture
unfoldable pub capture : Runtime → RecoveryClaim → Service Unit
unfolding stale_if invalid_if
capture rt claim = do
  invalid_if (not rt.env.contract.supports_lookup || rt.resolver_capability != rt.env.contract)
  ledger ← commit rt (λ n. get_ledger rt.env claim.effect_id)
  stale_if (not (is_lookup_only ledger.status) || claim.source_status != ledger.status)
  identity ← commit rt (λ n. reconstruct_identity rt.env ledger)
  result ← answer (rt.resolver ledger.dispatch_correlation_id identity.0)
  commit rt (λ n. persist_lookup rt.env claim identity.0 result (rt.clock n))

-- The dispatch of a resumed effect, under the lease of the claim.
unfoldable pub resume_dispatch :
    Runtime
    → RecoveryClaim
    → ExecutionCapability
    → Option DomainCommand
    → Service SideEffectExecutionResult
resume_dispatch rt claim cap command = do
  sent ← commit rt (λ n. dispatch_prepared rt.env cap (rt.clock n) (some claim))
  complete_dispatch rt command sent

-- PreparedEffectResumer.resume
unfoldable pub resume : Runtime → RecoveryClaim → Service SideEffectExecutionResult
unfolding stale_if
resume rt claim = do
  ledger ← commit rt (λ n. get_ledger rt.env claim.effect_id)
  stale_if (ledger.status != EffectStatus.prepared || claim.source_status != EffectStatus.prepared)
  bound ← commit rt (λ n. reconstruct_identity rt.env ledger)
  signature ← commit rt (λ n. original_capability bound.1)
  answer (rt.authenticate (record { payload = bound.1; signature = signature }))
  commit rt (λ n. existing rt.env bound.1 (rt.clock n))
  fresh ← commit rt (λ n. rt.verify (prepared_case rt.env ledger bound.1) bound.2)
  command ← λ w. answer (outside (build rt.env fresh.0 bound.1 w.db)) w
  resume_dispatch rt claim bound.1 command

-- The action that a settled status stands for; any other is a KeyError.
unfoldable pub outcome_of : EffectStatus → Result RecoveryOutcome
outcome_of EffectStatus.applied = ok RecoveryOutcome.recovered_applied
outcome_of EffectStatus.failed_confirmed = ok RecoveryOutcome.recovered_failed_confirmed
outcome_of EffectStatus.accepted = ok RecoveryOutcome.recovered_accepted
outcome_of EffectStatus.unknown = ok RecoveryOutcome.still_unknown
outcome_of _ = err key_error

unfoldable pub resume_and_finish :
    Runtime → RecoveryClaim → Service (SideEffectLedger × RecoveryOutcome)
unfolding stale_if
resume_and_finish rt claim = do
  stale_if (not rt.has_resumer)
  resume rt claim
  ledger ← commit rt (λ n. finish_resume rt.env claim (rt.clock n))
  pure (ledger, RecoveryOutcome.resumed_prepared)

unfoldable pub look_up_and_settle :
    Runtime → RecoveryClaim → Service (SideEffectLedger × RecoveryOutcome)
look_up_and_settle rt claim = do
  capture rt claim
  ledger ← commit rt (λ n. recover_transition rt.env claim (rt.clock n))
  action ← answer (outcome_of ledger.status)
  pure (ledger, action)

-- The body of the `try` of `recover`.
unfoldable pub settle_claim : Runtime → RecoveryClaim → Service (SideEffectLedger × RecoveryOutcome)
settle_claim rt claim =
    if claim.source_status == EffectStatus.prepared
    then resume_and_finish rt claim
    else look_up_and_settle rt claim

-- The failure that each exception is recorded as.
unfoldable pub failure_of : Error → RecoveryFailure
failure_of (Error.authorization AuthorizationCode.capability_expired) =
    RecoveryFailure.recovery_authorization_expired
failure_of (Error.authorization AuthorizationCode.approval_expired) =
    RecoveryFailure.recovery_authorization_expired
failure_of (Error.authorization AuthorizationCode.approval_revoked) =
    RecoveryFailure.recovery_approval_revoked
failure_of (Error.authorization _) = RecoveryFailure.recovery_stale
failure_of (Error.recovery failure) = failure
failure_of Error.timeout_error = RecoveryFailure.lookup_timeout
failure_of Error.value_error = RecoveryFailure.invalid_lookup_receipt
failure_of Error.missing_row = RecoveryFailure.invalid_lookup_receipt
failure_of _ = RecoveryFailure.lookup_transport_error

-- `except RecoveryError`: another worker owns the result now.
unfoldable pub or_reread :
    Runtime → RecoveryClaim → Result SideEffectLedger → Service SideEffectLedger
or_reread rt claim (ok ledger) = pure ledger
or_reread rt claim (err (Error.recovery _)) = commit rt (λ n. get_ledger rt.env claim.effect_id)
or_reread rt claim (err e) = raise e

unfoldable pub failed_action : EffectStatus → RecoveryOutcome
failed_action status =
    if status == EffectStatus.prepared
    then RecoveryOutcome.blocked_prepared
    else if is_lookup_only status
    then RecoveryOutcome.still_unknown
    else RecoveryOutcome.nothing_to_do

pub record Settled : Type 0 where
  pub ledger : SideEffectLedger
  pub action : RecoveryOutcome
  pub failure : Option RecoveryFailure

-- What follows the `try`.
unfoldable pub record_failure :
    Runtime → RecoveryClaim → Result (SideEffectLedger × RecoveryOutcome) → Service Settled
record_failure rt claim (ok (ledger, action)) =
    pure (record { ledger = ledger; action = action; failure = none })
record_failure rt claim (err e) = do
  ledger ←
      attempt (commit rt (λ n. finish_error rt.env claim (rt.clock n) (failure_of e)))
        (or_reread rt claim)
  pure (record {
    ledger = ledger;
    action = failed_action ledger.status;
    failure = some (failure_of e);
  })

-- The rest of `recover`, on a granted claim.
unfoldable pub recover_claimed : Runtime → SideEffectLedger → RecoveryClaim → Service RecoveryResult
recover_claimed rt before claim = do
  settled ← attempt (settle_claim rt claim) (record_failure rt claim)
  escalation ← commit rt (λ n. requires_escalation rt.env claim.effect_id)
  own ← commit rt (λ n. own_attempt rt.env claim)
  pure (record {
    recovery_id = claim.recovery_id;
    subject_id = settled.ledger.effect_id;
    before_status = before.status;
    after_status = settled.ledger.status;
    action_taken =
        if escalation && is_lookup_only settled.ledger.status
        then RecoveryOutcome.escalation_required
        else settled.action;
    proof_ref = own.proof_hash;
    requires_escalation = escalation;
    failure_code = elim settled.failure [ none ↦ own.failure_code | some f ↦ some f ];
  })

-- `if claim is None`
unfoldable pub unclaimed : Runtime → SideEffectLedger → ℕ → Service RecoveryResult
unclaimed rt before effect_id = do
  ledger ← commit rt (λ n. get_ledger rt.env effect_id)
  escalation ← commit rt (λ n. requires_escalation rt.env effect_id)
  recovery_id ← λ w. pure (rt.fresh_id w.turn) w
  pure (record {
    recovery_id = recovery_id;
    subject_id = ledger.effect_id;
    before_status = before.status;
    after_status = ledger.status;
    action_taken =
        if escalation
        then RecoveryOutcome.escalation_required
        else if ledger.status == EffectStatus.prepared || is_lookup_only ledger.status
        then RecoveryOutcome.busy_or_not_due
        else RecoveryOutcome.nothing_to_do;
    proof_ref = none;
    requires_escalation = escalation;
    failure_code = none;
  })

unfoldable pub after_claim :
    Runtime → SideEffectLedger → ℕ → Option RecoveryClaim → Service RecoveryResult
after_claim rt before effect_id none = unclaimed rt before effect_id
after_claim rt before effect_id (some claim) = recover_claimed rt before claim

-- SideEffectRecoveryCoordinator.recover
unfoldable pub recover : Runtime → ℕ → Service RecoveryResult
recover rt effect_id = do
  before ← commit rt (λ n. get_ledger rt.env effect_id)
  claimed ← commit rt (λ n. Lease.claim rt.env effect_id rt.worker_id (rt.clock n) (rt.fresh_id n))
  after_claim rt before effect_id claimed
