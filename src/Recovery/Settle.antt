-- ===== src/Recovery/Settle.antt =====
-- credit_harness/recovery/repository.py, lines 102 to 180: recording a lookup, settling the ledger
-- by it, and closing an attempt.
use credit_incident_resoluti.Prelude.{
  ℕ, ◌+◌, ◌-◌, Bool, true, false, ◌&&◌, ◌||◌, Option, none, some, List, [], ◌∷◌, ◌==◌, ◌!=◌, nat_eq,
  option_eq, leb, not, is_none, or_else, lookup, zero, suc, if◌then◌else◌,
}
use credit_incident_resoluti.Domain.{EffectStatus, effect_status_eq, is_lookup_only, is_recoverable}
use credit_incident_resoluti.Authorization.Models.{EffectRow, SideEffectLedger}
use credit_incident_resoluti.Authorization.Ledger.{save_effect}
use credit_incident_resoluti.Recovery.Models.{
  Attempt, EffectIdentity, invalid_lookup_receipt, lookup_proof_conflict, RecoveryAuditEvent,
  RecoveryClaim, RecoveryFailure, recovery_failure_eq, recovery_limit_reached, RecoveryProof,
  recovery_proof_eq, RecoveryState, recovery_stale, SideEffectLookupResult,
}
use credit_incident_resoluti.Recovery.Proof.{
  reconcile_status, reconstruct_identity, validate_lookup,
}
use credit_incident_resoluti.Recovery.Lease.{audit, locked, owned, save_attempt}
use credit_incident_resoluti.Recovery.Sync.{save_recovery_state, synchronize_effect}
use credit_incident_resoluti.Database.{Deployment, proof_json}
use credit_incident_resoluti.Database.Transaction.{
  Tx, pure, raise_if, gets, or_raise, ◌>>=◌, ◌>>◌, branch, recovery, seconds, missing_row,
}

-- The ledger is not in the state that the claim was made for.
unfoldable pub moved_on : SideEffectLedger → RecoveryClaim → Bool
moved_on ledger claim = ledger.status != claim.source_status || not (is_lookup_only ledger.status)

-- `_persist_lookup`
unfoldable pub persist_lookup :
    Deployment → RecoveryClaim → EffectIdentity → SideEffectLookupResult → ℕ → Tx Unit
unfolding moved_on
persist_lookup env claim identity result now = do
  bound ← locked env claim.effect_id
  let ledger = bound.0.payload
  attempt ← owned claim bound.1 now
  raise_if (moved_on ledger claim) (recovery recovery_stale)
  raise_if (not (is_none attempt.lookup_result)) (recovery lookup_proof_conflict)
  proof ← validate_lookup env ledger identity result env.contract now
  save_attempt (record attempt {
    lookup_result = some result;
    proof = some proof;
    proof_hash = some (env.digest (proof_json proof));
  })
  audit ledger claim RecoveryAuditEvent.recovery_lookup now (some proof) none

-- `_cas`: the ledger changes only if its row still has the status that was read.
unfoldable pub cas : Deployment → EffectRow → SideEffectLedger → SideEffectLedger → Tx Unit
cas env row before after = do
  raise_if (row.status != before.status) (recovery recovery_stale)
  save_effect (record row { status = after.status; payload = after })
  synchronize_effect env after

-- backoff_seconds[min(sequence - 1, len - 1)]; a claim's sequence is at least 1.
backoff_at : List ℕ → ℕ → ℕ
backoff_at [] i = 0
backoff_at (b ∷ []) i = b
backoff_at (b ∷ c ∷ bs) zero = b
backoff_at (b ∷ c ∷ bs) (suc i) = backoff_at (c ∷ bs) i

-- The recovery row after an attempt has been closed.
unfoldable pub released :
    Deployment → SideEffectLedger → RecoveryState → RecoveryClaim → ℕ → Bool → RecoveryState
unfolding backoff_at
released env ledger state claim now escalate = record state {
  lease_owner = none;
  lease_token = none;
  lease_until = none;
  next_eligible_at = now + seconds (backoff_at env.policy.backoff_seconds (claim.sequence - 1));
  requires_escalation =
      is_recoverable ledger.status && (escalate || leb env.policy.max_attempts claim.sequence);
}

-- `_finish`. The recovery row is read again: `synchronize_effect` has changed its status.
unfoldable pub finish :
    Deployment
    → SideEffectLedger
    → Attempt
    → RecoveryClaim
    → ℕ
    → Option RecoveryFailure
    → Option RecoveryProof
    → Bool
    → Tx Unit
finish env ledger attempt claim now failure proof escalate = do
  save_attempt (record attempt {
    completed_at = some now;
    result_status = some ledger.status;
    failure_code = failure;
  })
  found ← gets (λ db. lookup claim.effect_id db.recovery_states)
  state ← or_raise found missing_row
  let closed = released env ledger state claim now escalate
  save_recovery_state closed
  audit ledger claim RecoveryAuditEvent.recovery_transition now proof failure
  branch closed.requires_escalation
      (audit ledger claim RecoveryAuditEvent.recovery_escalated now none
        (some (or_else failure recovery_limit_reached)))
      (pure tt)

first_ref : Option ℕ → Option ℕ → Option ℕ
first_ref none old = old
first_ref (some new) old = some new

unfoldable pub settled :
    SideEffectLedger → SideEffectLookupResult → EffectStatus → ℕ → SideEffectLedger
unfolding first_ref
settled ledger result target now = record ledger {
  status = target;
  updated_at = now;
  external_effect_ref = first_ref result.external_effect_ref ledger.external_effect_ref;
  failure_code = if target == EffectStatus.unknown then ledger.failure_code else none;
}

-- `recover_transition`: only a lookup that the attempt has on record moves the ledger.
unfoldable pub recover_transition : Deployment → RecoveryClaim → ℕ → Tx SideEffectLedger
unfolding moved_on cas
recover_transition env claim now = do
  bound ← locked env claim.effect_id
  let row = bound.0
  let ledger = row.payload
  attempt ← owned claim bound.1 now
  raise_if (moved_on ledger claim) (recovery recovery_stale)
  result ← or_raise attempt.lookup_result (recovery invalid_lookup_receipt)
  recorded ← or_raise attempt.proof (recovery invalid_lookup_receipt)
  raise_if (attempt.resolver_id != env.contract.resolver_id) (recovery invalid_lookup_receipt)
  identity ← reconstruct_identity env ledger
  proof ← validate_lookup env ledger identity.0 result env.contract now
  raise_if (recorded != proof || attempt.proof_hash != some (env.digest (proof_json recorded)))
      (recovery lookup_proof_conflict)
  let target = reconcile_status result env.contract
  let changed = settled ledger result target.0 now
  cas env row ledger changed
  finish env changed attempt claim now target.1 (some proof) false
  pure changed

-- LOOKUP_PROOF_CONFLICT and INVALID_LOOKUP_RECEIPT escalate at once.
unfoldable pub escalates : RecoveryFailure → Bool
escalates RecoveryFailure.lookup_proof_conflict = true
escalates RecoveryFailure.invalid_lookup_receipt = true
escalates _ = false

-- `finish_error`: a ledger that is still as claimed becomes UNKNOWN, any other is left alone.
unfoldable pub finish_error : Deployment → RecoveryClaim → ℕ → RecoveryFailure → Tx SideEffectLedger
unfolding moved_on cas
finish_error env claim now failure = do
  bound ← locked env claim.effect_id
  let row = bound.0
  let ledger = row.payload
  attempt ← owned claim bound.1 now
  branch (moved_on ledger claim)
      (do finish env ledger attempt claim now (some failure) none (escalates failure); pure ledger)
      (do
        let changed = record ledger { status = EffectStatus.unknown; updated_at = now }
        cas env row ledger changed
        finish env changed attempt claim now (some failure) none (escalates failure)
        pure changed)

-- `finish_resume`
unfoldable pub finish_resume : Deployment → RecoveryClaim → ℕ → Tx SideEffectLedger
finish_resume env claim now = do
  bound ← locked env claim.effect_id
  attempt ← owned claim bound.1 now
  finish env bound.0.payload attempt claim now none none false
  pure bound.0.payload
