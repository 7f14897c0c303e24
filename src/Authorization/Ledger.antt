-- ===== src/Authorization/Ledger.antt =====
-- credit_harness/authorization/store.py, lines 194 to 302: the side-effect ledger.
use credit_incident_resoluti.Prelude.{
  ℕ, Bool, true, false, ◌||◌, Option, none, some, ◌==◌, ◌!=◌, nat_eq, option_eq, leb, not, is_none,
  if◌then◌else◌, lookup, insert, select_first,
}
use credit_incident_resoluti.Domain.{ActionType, action_type_eq, EffectStatus, effect_status_eq}
use credit_incident_resoluti.Cases.Models.{CaseRow}
use credit_incident_resoluti.Cases.Rows.{next_update_time, save_case, case_row}
use credit_incident_resoluti.Authorization.Models.{
  AuditEvent, capability_already_used, EffectRow, ExecutionCapability, FailureCode,
  invalid_transition, ReceiptOutcome, SideEffectLedger, SideEffectReceipt, stale_authorization,
}
use credit_incident_resoluti.Authorization.Commands.{effect_key}
use credit_incident_resoluti.Authorization.Approvals.{
  audit, audit_entry, get_intent, lock_for_authorization, require_open,
}
use credit_incident_resoluti.Authorization.Capabilities.{
  check_capability, existing_effect, save_capability,
}
use credit_incident_resoluti.Recovery.Models.{RecoveryClaim, RecoveryState}
use credit_incident_resoluti.Recovery.Sync.{synchronize_effect}
use credit_incident_resoluti.Database.{Db, Deployment}
use credit_incident_resoluti.Database.Transaction.{
  Tx, pure, raise_if, gets, or_raise, ◌>>=◌, ◌>>◌, modify, if_found, authorization, integrity,
  key_error, missing_row,
}

unfoldable pub save_effect : EffectRow → Tx Unit
save_effect row = modify (λ db. record db { effects = insert row.effect_id row db.effects })

-- `session.add` of a ledger: the primary key and the two unique columns of EffectRow.
unfoldable pub add_effect : EffectRow → Tx Unit
add_effect row = do
  same ← gets (λ db. lookup row.effect_id db.effects)
  raise_if (not (is_none same)) integrity
  clash ← gets (λ db.
      select_first
        (λ r. r.idempotency_key == row.idempotency_key || r.capability_id == row.capability_id)
        db.effects)
  raise_if (not (is_none clash)) integrity
  save_effect row

unfoldable pub new_ledger : ExecutionCapability → ℕ → ℕ → ℕ → ℕ → SideEffectLedger
new_ledger cap key revision now correlation = record {
  effect_id = key;
  idempotency_key = key;
  intent_id = cap.intent_id;
  capability_id = cap.capability_id;
  approval_id = cap.approval_id;
  tenant_id = cap.tenant_id;
  case_id = cap.case_id;
  internal_order_id = cap.internal_order_id;
  action_type = cap.action_type;
  target_hash = cap.target_hash;
  payload_hash = cap.payload_hash;
  snapshot_id = cap.snapshot_id;
  evidence_hash = cap.evidence_hash;
  prepared_case_revision = revision;
  status =
      if cap.action_type == ActionType.no_remediation
      then EffectStatus.noop
      else EffectStatus.prepared;
  attempt_count = 0;
  created_at = now;
  updated_at = now;
  dispatch_correlation_id = correlation;
  external_effect_ref = none;
  failure_code = none;
}

unfoldable pub ledger_row : SideEffectLedger → EffectRow
ledger_row ledger = record {
  effect_id = ledger.effect_id;
  idempotency_key = ledger.idempotency_key;
  capability_id = ledger.capability_id;
  case_id = ledger.case_id;
  status = ledger.status;
  payload = ledger;
}

-- The UPDATE of the Case row under `WHERE updated_at = expected`.
unfoldable pub bump_revision : ExecutionCapability → CaseRow → ℕ → Tx Unit
bump_revision cap case revision = do
  raise_if (case.tenant_id != cap.tenant_id || case.updated_at != cap.expected_case_revision)
      (authorization stale_authorization)
  save_case (record case { updated_at = revision })

-- `wall` is what `utc_now` reads, `correlation` the fresh uuid4.
unfoldable pub prepare :
    Deployment → ExecutionCapability → (now wall correlation : ℕ) → Tx (SideEffectLedger × Bool)
unfolding new_ledger ledger_row bump_revision
prepare env cap now wall correlation = do
  case ← lock_for_authorization env cap.case_id
  require_open case
  checked ← check_capability env cap now
  let key = effect_key env cap
  old ← existing_effect cap checked.0 key
  if_found old (λ ledger. pure (ledger, false))
      do
        let noop = cap.action_type == ActionType.no_remediation
        let revision = if noop then case.updated_at else next_update_time wall case.updated_at
        bump_revision cap case revision
        let ledger = new_ledger cap key revision now correlation
        add_effect (ledger_row ledger)
        save_capability (record checked.0 { used_effect_id = some key })
        synchronize_effect env ledger
        audit (record (audit_entry AuditEvent.effect_prepared checked.1 now) {
          capability_id = some cap.capability_id;
          approval_id = cap.approval_id;
          effect_id = some key;
          correlation_id = some correlation;
          effect_status = some ledger.status;
        })
        pure (ledger, not noop)

-- The lease that a recovering worker must hold.
lease_mismatch : SideEffectLedger → RecoveryClaim → ℕ → Option RecoveryState → Bool
lease_mismatch ledger claim now none = true
lease_mismatch ledger claim now (some lease) =
    claim.effect_id != ledger.effect_id
    || (lease.lease_token != some claim.recovery_id
        || (lease.lease_owner != some claim.worker_id
            || elim lease.lease_until [ none ↦ true | some until ↦ leb until now ]))

unfoldable pub check_lease : SideEffectLedger → ℕ → Option RecoveryClaim → Tx Unit
unfolding lease_mismatch
check_lease ledger now none = pure tt
check_lease ledger now (some claim) = do
  lease ← gets (λ db. lookup ledger.effect_id db.recovery_states)
  raise_if (lease_mismatch ledger claim now lease) (authorization stale_authorization)

unfoldable pub dispatched : SideEffectLedger → ℕ → SideEffectLedger
dispatched ledger now = record ledger {
  status = EffectStatus.dispatched;
  attempt_count = 1;
  updated_at = now;
}

-- The effect that the capability was consumed for.
unfoldable pub used_effect : Option ℕ → Db → Option EffectRow
used_effect none db = none
used_effect (some effect_id) db = lookup effect_id db.effects

unfoldable pub dispatch_prepared :
    Deployment → ExecutionCapability → ℕ → Option RecoveryClaim → Tx SideEffectLedger
unfolding used_effect check_lease dispatched
dispatch_prepared env cap now claim = do
  case ← lock_for_authorization env cap.case_id
  require_open case
  checked ← check_capability env cap now
  found ← gets (used_effect checked.0.used_effect_id)
  row ← or_raise found (authorization capability_already_used)
  raise_if (row.capability_id != cap.capability_id) (authorization capability_already_used)
  check_lease row.payload now claim
  raise_if (case.updated_at != row.payload.prepared_case_revision)
      (authorization stale_authorization)
  let changed = dispatched row.payload now
  raise_if (row.status != EffectStatus.prepared) (authorization invalid_transition)
  save_effect (record row { status = EffectStatus.dispatched; payload = changed })
  synchronize_effect env changed
  audit (record (audit_entry AuditEvent.effect_transition checked.1 now) {
    capability_id = some cap.capability_id;
    approval_id = cap.approval_id;
    effect_id = some row.payload.effect_id;
    correlation_id = some row.payload.dispatch_correlation_id;
    effect_status = some EffectStatus.dispatched;
  })
  pure changed

unfoldable pub get_ledger : Deployment → ℕ → Tx SideEffectLedger
get_ledger env effect_id = do
  found ← gets (λ db. lookup effect_id db.effects)
  row ← or_raise found key_error
  case_row env row.case_id
  pure row.payload

-- TRANSITIONS
unfoldable pub may_follow : EffectStatus → EffectStatus → Bool
may_follow EffectStatus.dispatched EffectStatus.accepted = true
may_follow EffectStatus.dispatched EffectStatus.applied = true
may_follow EffectStatus.dispatched EffectStatus.unknown = true
may_follow EffectStatus.dispatched EffectStatus.failed_confirmed = true
may_follow EffectStatus.accepted EffectStatus.applied = true
may_follow EffectStatus.accepted EffectStatus.unknown = true
may_follow EffectStatus.accepted EffectStatus.failed_confirmed = true
may_follow _ _ = false

-- EffectStatus(receipt.outcome.value)
unfoldable pub outcome_status : ReceiptOutcome → EffectStatus
outcome_status ReceiptOutcome.accepted = EffectStatus.accepted
outcome_status ReceiptOutcome.applied = EffectStatus.applied
outcome_status ReceiptOutcome.failed_confirmed = EffectStatus.failed_confirmed

-- Any status but UNKNOWN needs a receipt of that outcome.
unfoldable pub unproven : EffectStatus → Option SideEffectReceipt → Bool
unfolding outcome_status
unproven EffectStatus.unknown receipt = false
unproven status none = true
unproven status (some receipt) = outcome_status receipt.outcome != status

-- Two external references that are both there and differ.
unfoldable pub refs_conflict : Option ℕ → Option ℕ → Bool
refs_conflict (some a) (some b) = a != b
refs_conflict _ _ = false

unfoldable pub receipt_mismatch : SideEffectLedger → Option SideEffectReceipt → Bool
unfolding refs_conflict
receipt_mismatch ledger none = false
receipt_mismatch ledger (some receipt) =
    receipt.correlation_id != ledger.dispatch_correlation_id
    || refs_conflict receipt.external_effect_ref ledger.external_effect_ref

unfoldable pub transitioned :
    SideEffectLedger
    → EffectStatus
    → ℕ
    → Option SideEffectReceipt
    → Option FailureCode
    → SideEffectLedger
transitioned ledger status now receipt failure = record ledger {
  status = status;
  updated_at = now;
  attempt_count = if status == EffectStatus.dispatched then 1 else ledger.attempt_count;
  external_effect_ref = elim receipt [
    | none ↦ ledger.external_effect_ref
    | some r ↦ r.external_effect_ref
  ];
  failure_code = failure;
}

unfoldable pub transition :
    Deployment
    → ℕ
    → (expected status : EffectStatus) → ℕ
    → Option SideEffectReceipt
    → Option FailureCode
    → Tx SideEffectLedger
unfolding may_follow unproven receipt_mismatch transitioned
transition env effect_id expected status now receipt failure = do
  raise_if (not (may_follow expected status)) (authorization invalid_transition)
  raise_if (unproven status receipt) (authorization invalid_transition)
  found ← gets (λ db. lookup effect_id db.effects)
  row ← or_raise found missing_row
  lock_for_authorization env row.case_id
  raise_if (receipt_mismatch row.payload receipt) (authorization invalid_transition)
  let changed = transitioned row.payload status now receipt failure
  raise_if (row.status != expected) (authorization invalid_transition)
  save_effect (record row { status = status; payload = changed })
  synchronize_effect env changed
  intent ← get_intent env row.payload.intent_id
  audit (record (audit_entry AuditEvent.effect_transition intent now) {
    capability_id = some row.payload.capability_id;
    approval_id = row.payload.approval_id;
    effect_id = some effect_id;
    correlation_id = some row.payload.dispatch_correlation_id;
    effect_status = some status;
  })
  pure changed
