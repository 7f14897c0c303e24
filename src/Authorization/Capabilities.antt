-- ===== src/Authorization/Capabilities.antt =====
-- credit_harness/authorization/store.py, lines 134 to 192: issuing a capability, checking one, and
-- finding the effect that it would repeat.
use credit_incident_resoluti.Prelude.{
  ℕ, Bool, false, ◌&&◌, ◌||◌, Option, none, some, ◌==◌, ◌!=◌, nat_eq, option_eq, leb, ltb, not,
  is_none, lookup, insert, select_first,
}
use credit_incident_resoluti.Domain.{action_type_eq, is_lookup_only}
use credit_incident_resoluti.Authorization.Models.{
  AuditEvent, CapabilityRow, capability_already_used, capability_expired, capability_scope_mismatch,
  EffectRow, ExecutionCapability, execution_capability_eq, idempotency_conflict, invalid_capability,
  RemediationIntent, SideEffectLedger, stale_authorization, write_fenced_by_unresolved_effect,
}
use credit_incident_resoluti.Authorization.Commands.{effect_key}
use credit_incident_resoluti.Authorization.Approvals.{
  audit, audit_entry, check_approval, get_intent, lock_for_authorization, require_open, save_intent,
}
use credit_incident_resoluti.Database.{Db, Deployment}
use credit_incident_resoluti.Database.Transaction.{
  Tx, pure, raise_if, gets, or_raise, ◌>>=◌, ◌>>◌, modify, if_found, authorization, integrity,
}

unfoldable pub save_capability : CapabilityRow → Tx Unit
save_capability row =
    modify (λ db. record db { capabilities = insert row.capability_id row db.capabilities })

save_signature : ℕ → ℕ → Tx Unit
save_signature capability_id signature =
    modify (λ db. record db { signatures = insert capability_id signature db.signatures })

unfoldable pub unresolved_effect : ℕ → ℕ → Db → Option EffectRow
unresolved_effect case_id key db =
    select_first
      (λ row. row.case_id == case_id && (row.idempotency_key == key && is_lookup_only row.status))
      db.effects

unfoldable pub issue : Deployment → RemediationIntent → ExecutionCapability → ℕ → Option ℕ → Tx Unit
unfolding save_signature
issue env intent capability now signature = do
  case ← lock_for_authorization env intent.case_id
  require_open case
  raise_if (case.updated_at != capability.expected_case_revision || leb capability.expires_at now)
      (authorization stale_authorization)
  check_approval intent capability.approval_id now
  unresolved ← gets (unresolved_effect capability.case_id (effect_key env capability))
  raise_if (not (is_none unresolved)) (authorization write_fenced_by_unresolved_effect)
  save_intent intent
  old ← gets (λ db. lookup capability.capability_id db.capabilities)
  raise_if (not (is_none old)) integrity
  save_capability (record {
    capability_id = capability.capability_id;
    intent_id = intent.intent_id;
    payload = capability;
    used_effect_id = none;
  })
  if_found signature (save_signature capability.capability_id) (pure tt)
  audit (record (audit_entry AuditEvent.capability_issued intent now) {
    approval_id = capability.approval_id;
    capability_id = some capability.capability_id;
  })

is_stale_policy : Deployment → ExecutionCapability → Bool
is_stale_policy env cap =
    cap.policy_version != env.remediation_policy_version
    || (cap.catalog_version != env.remediation_catalog_version
        || cap.authorization_policy_version != env.authorization_policy_version)

-- `_check_capability`
unfoldable pub check_capability :
    Deployment → ExecutionCapability → ℕ → Tx (CapabilityRow × RemediationIntent)
unfolding is_stale_policy
check_capability env cap now = do
  raise_if (cap.tenant_id != env.tenant_id) (authorization capability_scope_mismatch)
  raise_if (leb cap.expires_at now || ltb now cap.issued_at) (authorization capability_expired)
  raise_if (is_stale_policy env cap) (authorization stale_authorization)
  found ← gets (λ db. lookup cap.capability_id db.capabilities)
  row ← or_raise found (authorization invalid_capability)
  raise_if (row.payload != cap) (authorization invalid_capability)
  intent ← get_intent env cap.intent_id
  check_approval intent cap.approval_id now
  pure (row, intent)

-- The ledger is of another write than the capability.
conflicts : SideEffectLedger → ExecutionCapability → Bool
conflicts ledger cap =
    ledger.payload_hash != cap.payload_hash
    || (ledger.target_hash != cap.target_hash
        || (ledger.case_id != cap.case_id
            || (ledger.action_type != cap.action_type || ledger.tenant_id != cap.tenant_id)))

used_otherwise : Option ℕ → ℕ → Bool
used_otherwise none effect_id = false
used_otherwise (some used) effect_id = used != effect_id

-- `_existing`
unfoldable pub existing_effect :
    ExecutionCapability → CapabilityRow → ℕ → Tx (Option SideEffectLedger)
unfolding conflicts used_otherwise
existing_effect cap cap_row key = do
  found ← gets (λ db. select_first (λ row. row.idempotency_key == key) db.effects)
  if_found found
      (λ row. do
        raise_if (conflicts row.payload cap) (authorization idempotency_conflict)
        raise_if (used_otherwise cap_row.used_effect_id row.effect_id)
            (authorization capability_already_used)
        save_capability (record cap_row { used_effect_id = some row.effect_id })
        pure (some row.payload))
      (do
        raise_if (not (is_none cap_row.used_effect_id)) (authorization capability_already_used)
        pure none)

unfoldable pub existing : Deployment → ExecutionCapability → ℕ → Tx (Option SideEffectLedger)
existing env cap now = do
  lock_for_authorization env cap.case_id
  checked ← check_capability env cap now
  existing_effect cap checked.0 (effect_key env cap)
