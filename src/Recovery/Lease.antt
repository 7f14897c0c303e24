-- ===== src/Recovery/Lease.antt =====
-- credit_harness/recovery/repository.py, lines 31 to 100: claiming an effect for recovery, and
-- proving that a claim still owns it.
use credit_incident_resoluti.Prelude.{
  ℕ, ◌+◌, Bool, true, false, ◌&&◌, ◌||◌, Option, none, some, [], ◌∷◌, ◌++◌, ◌==◌, ◌!=◌, nat_eq,
  option_eq, leb, ltb, not, is_none, lookup, insert, select_first,
}
use credit_incident_resoluti.Domain.{EffectStatus, is_recoverable, is_terminal}
use credit_incident_resoluti.Authorization.Models.{EffectRow, SideEffectLedger}
use credit_incident_resoluti.Authorization.Approvals.{lock_for_authorization}
use credit_incident_resoluti.Recovery.Models.{
  Attempt, closure_invariant_violation, lease_lost, RecoveryAuditEvent, RecoveryClaim,
  RecoveryFailure, RecoveryProof, RecoveryState, recovery_stale,
}
use credit_incident_resoluti.Recovery.Sync.{save_recovery_state}
use credit_incident_resoluti.Database.{Deployment}
use credit_incident_resoluti.Database.Transaction.{
  Tx, pure, raise_if, gets, or_raise, ◌>>=◌, ◌>>◌, modify, branch, if_found, integrity, key_error,
  recovery, seconds,
}

-- `_locked`
unfoldable pub locked : Deployment → ℕ → Tx (EffectRow × RecoveryState)
locked env effect_id = do
  found ← gets (λ db. lookup effect_id db.effects)
  row ← or_raise found key_error
  case ← lock_for_authorization env row.case_id
  raise_if (is_terminal case.status && is_recoverable row.payload.status)
      (recovery closure_invariant_violation)
  stored ← gets (λ db. lookup effect_id db.recovery_states)
  state ← or_raise stored (recovery recovery_stale)
  pure (row, state)

unfoldable pub audit :
    SideEffectLedger
    → RecoveryClaim
    → RecoveryAuditEvent
    → ℕ
    → Option RecoveryProof
    → Option RecoveryFailure
    → Tx Unit
audit ledger claim event now proof failure = modify (λ db. record db {
  recovery_audit =
      db.recovery_audit
      ++ record {
        recovery_id = claim.recovery_id;
        tenant_id = ledger.tenant_id;
        case_id = ledger.case_id;
        intent_id = ledger.intent_id;
        approval_id = ledger.approval_id;
        capability_id = ledger.capability_id;
        effect_id = ledger.effect_id;
        correlation_id = ledger.dispatch_correlation_id;
        event = event;
        recorded_at = now;
        proof = proof;
        failure_code = failure;
      }
        ∷ [];
})

unfoldable pub save_attempt : Attempt → Tx Unit
save_attempt attempt =
    modify (λ db. record db { attempts = insert attempt.recovery_id attempt db.attempts })

unfoldable pub is_live : Option ℕ → ℕ → Bool
is_live none now = false
is_live (some until) now = ltb now until

-- The state may not be claimed yet.
unfoldable pub not_due : Deployment → RecoveryState → ℕ → Bool
unfolding is_live
not_due env state now =
    ltb now state.next_eligible_at
    || (ltb now (state.ledger_updated_at + seconds env.policy.grace_seconds)
        || is_live state.lease_until now)

-- The attempt of a worker whose lease ran out is closed as lost.
unfoldable pub abandon : Option Attempt → ℕ → Tx Unit
abandon none now = pure tt
abandon (some attempt) now =
    branch (is_none attempt.completed_at)
      (save_attempt (record attempt { completed_at = some now; failure_code = some lease_lost }))
      (pure tt)

unfoldable pub abandon_previous : RecoveryState → ℕ → Tx Unit
unfolding abandon
abandon_previous state now =
    if_found state.lease_token
      (λ token. do attempt ← gets (λ db. lookup token db.attempts); abandon attempt now) (pure tt)

unfoldable pub new_claim :
    RecoveryState → EffectStatus → (effect recovery_id worker : ℕ) → RecoveryClaim
new_claim state status effect recovery_id worker = record {
  recovery_id = recovery_id;
  effect_id = effect;
  worker_id = worker;
  source_status = status;
  sequence = state.attempt_count + 1;
}

unfoldable pub leased : Deployment → RecoveryState → RecoveryClaim → ℕ → RecoveryState
leased env state claim now = record state {
  lease_owner = some claim.worker_id;
  lease_token = some claim.recovery_id;
  lease_until = some (now + seconds env.policy.lease_seconds);
  attempt_count = claim.sequence;
}

unfoldable pub new_attempt : Deployment → RecoveryClaim → ℕ → Attempt
new_attempt env claim now = record {
  recovery_id = claim.recovery_id;
  worker_id = claim.worker_id;
  effect_id = claim.effect_id;
  sequence = claim.sequence;
  started_at = now;
  completed_at = none;
  source_status = claim.source_status;
  resolver_id = env.contract.resolver_id;
  result_status = none;
  lookup_result = none;
  proof = none;
  proof_hash = none;
  failure_code = none;
}

-- `session.add` of an attempt: its primary key, and UniqueConstraint(effect_id, sequence).
unfoldable pub add_attempt : Attempt → Tx Unit
add_attempt attempt = do
  same ← gets (λ db. lookup attempt.recovery_id db.attempts)
  raise_if (not (is_none same)) integrity
  clash ← gets (λ db.
      select_first (λ a. a.effect_id == attempt.effect_id && a.sequence == attempt.sequence)
        db.attempts)
  raise_if (not (is_none clash)) integrity
  save_attempt attempt

-- The end of `claim`, past its early returns.
unfoldable pub take_lease :
    Deployment → SideEffectLedger → RecoveryState → RecoveryClaim → ℕ → Tx (Option RecoveryClaim)
unfolding abandon_previous new_attempt add_attempt
take_lease env ledger state claim now = do
  abandon_previous state now
  save_recovery_state (leased env state claim now)
  add_attempt (new_attempt env claim now)
  audit ledger claim RecoveryAuditEvent.recovery_scan now none none
  pure (some claim)

unfoldable pub exhausted : Deployment → RecoveryState → Bool
exhausted env state = state.requires_escalation || leb env.policy.max_attempts state.attempt_count

-- `claim`; `recovery_id` is its fresh uuid4.
unfoldable pub claim :
    Deployment → (effect_id worker_id now recovery_id : ℕ) → Tx (Option RecoveryClaim)
unfolding exhausted
claim env effect_id worker_id now recovery_id = do
  bound ← locked env effect_id
  let ledger = bound.0.payload
  let state = bound.1
  branch (not (is_recoverable ledger.status)) (pure none) (
      branch (exhausted env state)
        (do save_recovery_state (record state { requires_escalation = true }); pure none)
        (branch (not_due env state now) (pure none) (
          take_lease env ledger state
            (new_claim state ledger.status effect_id recovery_id worker_id) now)))

-- The claim holds the lease of this state at `now`.
unfoldable pub holds : RecoveryClaim → RecoveryState → ℕ → Bool
unfolding is_live
holds claim state now =
    state.lease_token == some claim.recovery_id
    && (state.lease_owner == some claim.worker_id && is_live state.lease_until now)

attempt_lost : RecoveryClaim → Attempt → Bool
attempt_lost claim attempt =
    not (is_none attempt.completed_at) || attempt.effect_id != claim.effect_id

-- `_owned`
unfoldable pub owned : RecoveryClaim → RecoveryState → ℕ → Tx Attempt
unfolding attempt_lost
owned claim state now = do
  raise_if (not (holds claim state now)) (recovery lease_lost)
  found ← gets (λ db. lookup claim.recovery_id db.attempts)
  attempt ← or_raise found (recovery lease_lost)
  raise_if (attempt_lost claim attempt) (recovery lease_lost)
  pure attempt
