-- ===== src/Recovery/Proof.antt =====
-- credit_harness/recovery/identity.py and proof.py: the identity that a lookup is bound to, the
-- checks on its result, and the status that it proves.
use credit_incident_resoluti.Prelude.{
  ℕ, ◌+◌, Bool, true, false, ◌&&◌, ◌||◌, Option, none, some, ◌==◌, ◌!=◌, nat_eq, option_eq, ltb,
  not, is_none, lookup,
}
use credit_incident_resoluti.Domain.{action_type_eq, EffectStatus}
use credit_incident_resoluti.Authorization.Models.{
  CapabilityRow, ExecutionCapability, RemediationIntent, SideEffectLedger,
}
use credit_incident_resoluti.Authorization.Commands.{build, effect_key}
use credit_incident_resoluti.Authorization.Approvals.{get_intent}
use credit_incident_resoluti.Authorization.Ledger.{refs_conflict}
use credit_incident_resoluti.Recovery.Models.{
  EffectIdentity, invalid_lookup_receipt, lookup_indeterminate, lookup_not_found,
  lookup_proof_conflict, LookupStatus, lookup_status_eq, RecoveryCapability, RecoveryFailure,
  RecoveryProof, SideEffectLookupResult,
}
use credit_incident_resoluti.Database.{Deployment, identity_json, intent_json, lookup_json}
use credit_incident_resoluti.Database.Transaction.{
  Tx, pure, raise, raise_if, gets, or_raise, ◌>>=◌, ◌>>◌, on_authorization_error, recovery, seconds,
  value_error,
}

used_for_other : CapabilityRow → SideEffectLedger → Bool
used_for_other row ledger = row.used_effect_id != some ledger.effect_id

-- The ten fields that the capability and the ledger share.
bindings_differ : ExecutionCapability → SideEffectLedger → Bool
bindings_differ cap ledger =
    cap.intent_id != ledger.intent_id
    || (cap.tenant_id != ledger.tenant_id
        || (cap.case_id != ledger.case_id
            || (cap.internal_order_id != ledger.internal_order_id
                || (cap.action_type != ledger.action_type
                    || (cap.target_hash != ledger.target_hash
                        || (cap.payload_hash != ledger.payload_hash
                            || (cap.snapshot_id != ledger.snapshot_id
                                || (cap.evidence_hash != ledger.evidence_hash
                                    || cap.approval_id != ledger.approval_id))))))))

-- `reconstruct_identity`
unfoldable pub reconstruct_identity :
    Deployment → SideEffectLedger → Tx (EffectIdentity × ExecutionCapability × RemediationIntent)
unfolding used_for_other bindings_differ
reconstruct_identity env ledger = do
  intent ← get_intent env ledger.intent_id
  found ← gets (λ db. lookup ledger.capability_id db.capabilities)
  row ← or_raise found (recovery lookup_proof_conflict)
  raise_if (used_for_other row ledger) (recovery lookup_proof_conflict)
  raise_if (intent.intent_id != env.digest (intent_json intent)) (recovery lookup_proof_conflict)
  raise_if (bindings_differ row.payload ledger) (recovery lookup_proof_conflict)
  raise_if (effect_key env row.payload != ledger.effect_id) (recovery lookup_proof_conflict)
  built ←
      on_authorization_error (build env intent row.payload)
        (λ _. raise (recovery lookup_proof_conflict))
  command ← or_raise built (recovery lookup_proof_conflict)
  pure (
    record {
      effect_id = ledger.effect_id;
      target_hash = ledger.target_hash;
      payload_hash = ledger.payload_hash;
      command = command;
    },
    row.payload,
    intent,
  )

-- SideEffectLookupResult.no_effect_semantics
unfoldable pub well_formed : LookupStatus → Bool → Bool
well_formed LookupStatus.found_failed_no_effect confirmed = confirmed
well_formed LookupStatus.not_found confirmed = true
well_formed _ confirmed = not confirmed

-- The result is of another resolver, another dispatch or another command.
unfoldable pub unbound :
    Deployment
    → SideEffectLedger
    → EffectIdentity
    → SideEffectLookupResult
    → RecoveryCapability
    → Bool
unbound env ledger identity result contract =
    not contract.supports_lookup
    || (result.resolver_id != contract.resolver_id
        || (result.correlation_id != ledger.dispatch_correlation_id
            || (result.command_identity_hash != env.digest (identity_json identity)
                || ledger.effect_id != identity.effect_id)))

-- `age < 0 or age > sla`
unfoldable pub not_fresh : SideEffectLookupResult → RecoveryCapability → ℕ → Bool
not_fresh result contract now =
    ltb now result.observed_at
    || ltb (result.observed_at + seconds contract.lookup_freshness_sla_seconds) now

erases_binding : SideEffectLedger → SideEffectLookupResult → Bool
erases_binding ledger result =
    result.lookup_status == LookupStatus.not_found && not (is_none ledger.external_effect_ref)

unfoldable pub proof_of :
    Deployment → SideEffectLedger → SideEffectLookupResult → RecoveryCapability → RecoveryProof
proof_of env ledger result contract = record {
  effect_id = ledger.effect_id;
  correlation_id = result.correlation_id;
  resolver_id = result.resolver_id;
  lookup_status = result.lookup_status;
  external_effect_ref = result.external_effect_ref;
  observed_at = result.observed_at;
  contract_version = contract.contract_version;
  command_identity_hash = result.command_identity_hash;
  result_hash = env.digest (lookup_json result);
}

-- `validate_lookup`
unfoldable pub validate_lookup :
    Deployment
    → SideEffectLedger
    → EffectIdentity
    → SideEffectLookupResult
    → RecoveryCapability
    → ℕ
    → Tx RecoveryProof
unfolding well_formed unbound not_fresh erases_binding proof_of
validate_lookup env ledger identity result contract now = do
  raise_if (not (well_formed result.lookup_status result.no_effect_confirmed)) value_error
  raise_if (unbound env ledger identity result contract) (recovery lookup_proof_conflict)
  raise_if (not_fresh result contract now) (recovery invalid_lookup_receipt)
  raise_if (refs_conflict ledger.external_effect_ref result.external_effect_ref)
      (recovery lookup_proof_conflict)
  raise_if (erases_binding ledger result) (recovery lookup_proof_conflict)
  raise_if (not (is_none result.external_effect_ref) && not contract.supports_external_effect_ref)
      (recovery invalid_lookup_receipt)
  pure (proof_of env ledger result contract)

unfoldable pub reconcile :
    LookupStatus
    → (no_effect_confirmed not_found_proves : Bool) → EffectStatus × Option RecoveryFailure
reconcile LookupStatus.found_applied c p = (EffectStatus.applied, none)
reconcile LookupStatus.found_accepted c p = (EffectStatus.accepted, none)
reconcile LookupStatus.found_failed_no_effect true p = (EffectStatus.failed_confirmed, none)
reconcile LookupStatus.found_failed_no_effect false p =
    (EffectStatus.unknown, some lookup_indeterminate)
reconcile LookupStatus.not_found c true = (EffectStatus.failed_confirmed, none)
reconcile LookupStatus.not_found c false = (EffectStatus.unknown, some lookup_not_found)
reconcile LookupStatus.indeterminate c p = (EffectStatus.unknown, some lookup_indeterminate)

-- `reconcile_status`
unfoldable pub reconcile_status :
    SideEffectLookupResult → RecoveryCapability → EffectStatus × Option RecoveryFailure
unfolding reconcile
reconcile_status result contract =
    reconcile result.lookup_status result.no_effect_confirmed contract.not_found_proves_no_effect
