-- ===== src/Orchestration/Handoff.antt =====
-- `ensure_recovery_work` of credit_harness/orchestration/effect_work.py, `effect_handoff` and
-- `pause_handoff` of orchestration/handoff.py: work is published in the transaction of the ledger
-- or of the pause that asks for it.
use credit_incident_resoluti.Prelude.{
  ℕ, ◌+◌, max, Bool, true, false, ◌&&◌, ◌||◌, Option, none, some, List, [], ◌∷◌, ◌==◌, ◌!=◌, nat_eq,
  ltb, not, is_none, or_else, if◌then◌else◌, lookup, select_first,
}
use credit_incident_resoluti.Domain.{EffectStatus, is_recoverable, is_terminal}
use credit_incident_resoluti.Authorization.Models.{
  EffectRow, SideEffectLedger, side_effect_ledger_eq,
}
use credit_incident_resoluti.Recovery.Models.{RecoveryPolicy, RecoveryState}
use credit_incident_resoluti.Cases.Models.{CaseRow}
use credit_incident_resoluti.Orchestration.Models.{
  CaseWorkItem, OrchestrationAuditRecord, Trigger, WorkEvent, WorkItemRow, WorkReason, WorkStatus,
  WorkType, work_type_eq,
}
use credit_incident_resoluti.Orchestration.Work.{
  audit, create_item, is_active, new_work, NewWork, save_work,
}
use credit_incident_resoluti.Orchestration.EffectWork.{
  check_recovery_work, effect_binding, settled_handoff,
}
use credit_incident_resoluti.Database.{Db, Deployment}
use credit_incident_resoluti.Database.Transaction.{
  orchestration, missing_row, Tx, pure, gets, or_raise, raise_if, ◌>>=◌, ◌>>◌, branch, if_found,
  seconds,
}

unfoldable pub existing_recovery_work : CaseRow → ℕ → Db → Option WorkItemRow
existing_recovery_work case effect_id db =
    select_first
      (λ row.
        row.case_id == case.case_id
        && (row.payload.work_type == WorkType.recovery_recheck
            && row.payload.source_ref == effect_id))
      db.work_items

recovery_work : ℕ → ℕ → ℕ → NewWork
recovery_work effect_id now not_before =
    record (new_work WorkType.recovery_recheck WorkReason.effect_unresolved effect_id
      Trigger.recovery now) { not_before = some not_before }

-- The stored payload of this item, as the transaction has left it.
unfoldable pub stored_work : CaseWorkItem → Tx (Option CaseWorkItem)
stored_work item = do
  row ← gets (λ db. lookup item.work_item_id db.work_items)
  if_found row (λ r. pure (some r.payload)) (pure none)

-- The event of the last audit record of this item.
last_event : CaseWorkItem → Option WorkEvent → List OrchestrationAuditRecord → Option WorkEvent
last_event work last [] = last
last_event work last (entry ∷ rest) =
    last_event work
      (if entry.case_id == work.case_id && entry.work_item_id == work.work_item_id
        then some entry.event
        else last)
      rest

is_stale : Option WorkEvent → Bool
is_stale (some WorkEvent.stale) = true
is_stale _ = false

below_limit : Option RecoveryPolicy → RecoveryState → Bool
below_limit none state = state.attempt_count == 0
below_limit (some policy) state = ltb state.attempt_count policy.max_attempts

grace : Option RecoveryPolicy → ℕ
grace none = 0
grace (some policy) = seconds policy.grace_seconds

rearmed : Option RecoveryPolicy → RecoveryState → ℕ → CaseWorkItem → CaseWorkItem
unfolding grace
rearmed policy state now work = record work {
  status = WorkStatus.pending;
  not_before = max now (max state.next_eligible_at (state.ledger_updated_at + grace policy));
  claimed_by = none;
  lease_token = none;
  lease_until = none;
  recovery_claim_token = none;
  progress_before = none;
  recovery_reads = [];
  recovery_result = none;
}

is_canceled : WorkStatus → Bool
is_canceled WorkStatus.canceled = true
is_canceled _ = false

-- The end of `ensure_recovery_work`: active work stays, work that went stale below the limit is
-- armed again, and any other item is left as it is.
unfoldable pub rearm_work :
    Option RecoveryPolicy → RecoveryState → ℕ → CaseWorkItem → Tx (Option CaseWorkItem)
unfolding last_event is_stale below_limit rearmed is_canceled
rearm_work policy state now work = branch (is_active work.status) (pure (some work)) do
  last ← gets (λ db. last_event work none db.orchestration_audit)
  branch
      (is_canceled work.status
        && (is_stale last
            && (below_limit policy state
                && (not state.requires_escalation && is_none state.lease_token))))
      (do
        save_work (rearmed policy state now work)
        audit (rearmed policy state now work) WorkEvent.rearmed now (some work.status) none
        pure (some (rearmed policy state now work)))
      (pure (some work))

-- work.status == CLAIMED and work.lease_until and work.lease_until > now
unfoldable pub has_live_lease : CaseWorkItem → ℕ → Bool
has_live_lease work now = elim work.status [
  | WorkStatus.claimed ↦ elim work.lease_until [ none ↦ false | some until ↦ ltb now until ]
  | _ ↦ false
]

unfoldable pub resume_recovery_work :
    Deployment
    → CaseRow
    → Option RecoveryPolicy
    → RecoveryState
    → ℕ
    → CaseWorkItem
    → Tx (Option CaseWorkItem)
unfolding stored_work
resume_recovery_work env case policy state now work =
    branch (has_live_lease work now) (pure (some work)) do
      binding ← check_recovery_work env case work now true
      if_found binding (λ _. rearm_work policy state now work) (stored_work work)

unfoldable pub ensure_recovery_work :
    Deployment → CaseRow → ℕ → ℕ → Option ℕ → Option RecoveryPolicy → Tx (Option CaseWorkItem)
unfolding stored_work recovery_work resume_recovery_work
ensure_recovery_work env case effect_id now not_before policy = do
  existing ← gets (existing_recovery_work case effect_id)
  branch (is_terminal case.status)
      (if_found existing
        (λ row. do check_recovery_work env case row.payload now true; stored_work row.payload)
        (pure none))
      do
        binding ← gets (effect_binding case effect_id)
        bound ← or_raise binding orchestration
        if_found existing (λ row. resume_recovery_work env case policy bound.1 now row.payload)
            (branch (not (is_recoverable bound.0.status))
              (do settled_handoff env bound.0; pure none)
              do
                item ← create_item env case (
                    recovery_work effect_id now (
                      max (or_else not_before now)
                        (max bound.1.next_eligible_at (or_else bound.1.lease_until 0))))
                resume_recovery_work env case policy bound.1 now item)

-- The check of a ledger that has no recovery state yet.
bootstrap_mismatch : CaseRow → SideEffectLedger → Option EffectRow → Bool
bootstrap_mismatch case ledger none = true
bootstrap_mismatch case ledger (some row) =
    row.case_id != case.case_id || (ledger.tenant_id != case.tenant_id || row.payload != ledger)

unfoldable pub unresolved_handoff : Deployment → SideEffectLedger → Tx (Option CaseWorkItem)
unfolding bootstrap_mismatch recovery_work
unresolved_handoff env ledger = do
  found ← gets (λ db. lookup ledger.case_id db.cases)
  case ← or_raise found missing_row
  state ← gets (λ db. lookup ledger.effect_id db.recovery_states)
  if_found state
      (λ _.
        ensure_recovery_work env case ledger.effect_id ledger.updated_at
          (some (ledger.updated_at + seconds 30)) none)
      do
        row ← gets (λ db. lookup ledger.effect_id db.effects)
        raise_if (bootstrap_mismatch case ledger row) orchestration
        existing ← gets (existing_recovery_work case ledger.effect_id)
        if_found existing (λ r. pure (some r.payload))
            do
              item ← create_item env case (
                  recovery_work ledger.effect_id ledger.updated_at (ledger.updated_at + seconds 30))
              pure (some item)

unfoldable pub handoff_by_status :
    Deployment → SideEffectLedger → EffectStatus → Tx (Option CaseWorkItem)
unfolding unresolved_handoff
handoff_by_status env ledger EffectStatus.unknown = unresolved_handoff env ledger
handoff_by_status env ledger EffectStatus.dispatched = unresolved_handoff env ledger
handoff_by_status env ledger _ = settled_handoff env ledger

unfoldable pub effect_handoff : Deployment → SideEffectLedger → Tx (Option CaseWorkItem)
unfolding handoff_by_status
effect_handoff env ledger = handoff_by_status env ledger ledger.status
