-- ===== src/Recovery/Resume.antt =====
-- The reads of credit_harness/recovery/prepared.py, identity.py and service.py.
use credit_incident_resoluti.Prelude.{ℕ, ◌!=◌, ◌||◌, lookup, nat_eq}
use credit_incident_resoluti.Cases.Models.{CaseRow}
use credit_incident_resoluti.Cases.Rows.{case_row}
use credit_incident_resoluti.Authorization.Models.{
  ExecutionCapability, SideEffectLedger, stale_authorization,
}
use credit_incident_resoluti.Authorization.Ledger.{get_ledger}
use credit_incident_resoluti.Recovery.Models.{Attempt, RecoveryClaim, recovery_stale}
use credit_incident_resoluti.Database.{Deployment}
use credit_incident_resoluti.Database.Transaction.{
  authorization, gets, or_raise, pure, raise_if, recovery, stop_iteration, Tx, ◌>>=◌, ◌>>◌,
}

-- original_signed_capability: the signature that was stored with the capability.
unfoldable pub original_capability : ExecutionCapability → Tx ℕ
original_capability cap = do
  found ← gets (λ db. lookup cap.capability_id db.signatures)
  or_raise found (recovery recovery_stale)

-- `_PreparedCases.get`: the Case as it was before the preparation, if nothing else has changed it.
unfoldable pub prepared_case : Deployment → SideEffectLedger → ExecutionCapability → ℕ → Tx CaseRow
prepared_case env ledger cap case_id = do
  case ← case_row env case_id
  raise_if (case_id != ledger.case_id || case.updated_at != ledger.prepared_case_revision)
      (authorization stale_authorization)
  pure (record case { updated_at = cap.expected_case_revision })

-- The attempt of the claim among those of the effect; `next` without one is a StopIteration.
unfoldable pub own_attempt : Deployment → RecoveryClaim → Tx Attempt
own_attempt env claim = do
  get_ledger env claim.effect_id
  found ← gets (λ db. lookup claim.recovery_id db.attempts)
  own ← or_raise found stop_iteration
  raise_if (own.effect_id != claim.effect_id) stop_iteration
  pure own
