-- ===== src/Recovery/Sync.antt =====
-- `synchronize_effect` of credit_harness/recovery/tables.py: in the transaction that writes a
-- ledger, its recovery row follows and its handoff is published.
use credit_incident_resoluti.Prelude.{false, Option, none, some, if◌then◌else◌, lookup, insert}
use credit_incident_resoluti.Domain.{is_recoverable}
use credit_incident_resoluti.Authorization.Models.{SideEffectLedger}
use credit_incident_resoluti.Recovery.Models.{RecoveryState}
use credit_incident_resoluti.Orchestration.Handoff.{effect_handoff}
use credit_incident_resoluti.Database.{Deployment}
use credit_incident_resoluti.Database.Transaction.{Tx, gets, ◌>>=◌, ◌>>◌, modify}

-- The recovery row after the ledger has changed.
unfoldable pub synchronized : SideEffectLedger → Option RecoveryState → RecoveryState
synchronized ledger none = record {
  effect_id = ledger.effect_id;
  tenant_id = ledger.tenant_id;
  case_id = ledger.case_id;
  status = ledger.status;
  ledger_updated_at = ledger.updated_at;
  next_eligible_at = ledger.updated_at;
  lease_owner = none;
  lease_until = none;
  lease_token = none;
  attempt_count = 0;
  requires_escalation = false;
}
synchronized ledger (some row) = record row {
  status = ledger.status;
  ledger_updated_at = ledger.updated_at;
  requires_escalation = if is_recoverable ledger.status then row.requires_escalation else false;
}

unfoldable pub save_recovery_state : RecoveryState → Tx Unit
save_recovery_state state =
    modify (λ db. record db { recovery_states = insert state.effect_id state db.recovery_states })

unfoldable pub synchronize_effect : Deployment → SideEffectLedger → Tx Unit
synchronize_effect env ledger = do
  row ← gets (λ db. lookup ledger.effect_id db.recovery_states)
  effect_handoff env ledger
  save_recovery_state (synchronized ledger row)
