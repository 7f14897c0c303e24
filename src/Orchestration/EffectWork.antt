-- ===== src/Orchestration/EffectWork.antt =====
-- credit_harness/orchestration/effect_work.py and `effect_handoff` of handoff.py: the work that
-- follows an effect. `check_recovery_work` calls `effect_handoff` only for a ledger that is not
-- recoverable, where `effect_handoff` does not call it again: that part is `settled_handoff`.
use credit_incident_resoluti.Prelude.{
  ℕ, Bool, ◌&&◌, ◌||◌, Option, none, some, ◌==◌, ◌!=◌, nat_eq, not, if◌then◌else◌, lookup,
}
use credit_incident_resoluti.Domain.{
  ActionType, CaseStatus, case_status_eq, EffectStatus, is_recoverable, is_terminal,
  VerificationRequirement,
}
use credit_incident_resoluti.Authorization.Models.{
  EffectRow, SideEffectLedger, side_effect_ledger_eq,
}
use credit_incident_resoluti.Recovery.Models.{RecoveryState}
use credit_incident_resoluti.Cases.Models.{CaseRow}
use credit_incident_resoluti.Orchestration.Models.{
  binding_mode, CaseWorkItem, SignalType, Trigger, WorkBindingMode, work_binding_mode_eq, WorkEvent,
  WorkReason, WorkStatus, work_status_eq, WorkType, work_type_eq,
}
use credit_incident_resoluti.Orchestration.Work.{
  audit, cancel_terminal_work, create_item, escalate_in, new_work, NewWork, save_work,
}
use credit_incident_resoluti.Database.{Db, Deployment}
use credit_incident_resoluti.Database.Transaction.{
  orchestration, missing_row, Tx, pure, gets, or_raise, raise_if, ◌>>=◌, ◌>>◌, branch, if_found,
}

-- The checks of `effect_binding` on the two rows that it reads.
binds : CaseRow → ℕ → EffectRow → RecoveryState → Bool
binds case effect_id row state =
    row.case_id == case.case_id
    && (row.payload.effect_id == effect_id
        && (row.payload.case_id == case.case_id
            && (row.payload.tenant_id == case.tenant_id
                && (state.effect_id == effect_id
                    && (state.case_id == case.case_id && state.tenant_id == case.tenant_id)))))

bound_state :
    CaseRow → ℕ → EffectRow → Option RecoveryState → Option (SideEffectLedger × RecoveryState)
unfolding binds
bound_state case effect_id row none = none
bound_state case effect_id row (some state) =
    if binds case effect_id row state then some (row.payload, state) else none

bound_effect :
    CaseRow
    → ℕ
    → Option EffectRow
    → Option RecoveryState
    → Option (SideEffectLedger × RecoveryState)
unfolding bound_state
bound_effect case effect_id none state = none
bound_effect case effect_id (some row) state = bound_state case effect_id row state

-- `effect_binding`; `none` is its OrchestrationError.
unfoldable pub effect_binding : CaseRow → ℕ → Db → Option (SideEffectLedger × RecoveryState)
unfolding bound_effect
effect_binding case effect_id db =
    bound_effect case effect_id (lookup effect_id db.effects) (lookup effect_id db.recovery_states)

unfoldable pub operator_work : ℕ → WorkReason → Trigger → ℕ → NewWork
operator_work source_ref reason trigger now =
    record (new_work WorkType.operator_followup reason source_ref trigger now) {
      required_signal = some SignalType.operator_acknowledged;
    }

unfoldable pub recovery_operator :
    Deployment → CaseRow → CaseWorkItem → ℕ → Tx (Option CaseWorkItem)
unfolding operator_work
recovery_operator env case work now = branch (is_terminal case.status) (pure none) (
    branch (case.status != CaseStatus.escalated)
      (escalate_in env case WorkReason.effect_unresolved work.work_item_id now)
      do
        item ←
            create_item env case
              (operator_work work.work_item_id WorkReason.effect_unresolved Trigger.recovery now)
        pure (some item))

unfoldable pub post_effect_requirement : ActionType → Option VerificationRequirement
post_effect_requirement ActionType.replay_callback_consumption =
    some VerificationRequirement.post_effect_message_status
post_effect_requirement ActionType.redeliver_asset_notification =
    some VerificationRequirement.post_effect_delivery_status
post_effect_requirement _ = none

-- The work that a settled effect asks for: a verification if it was applied and has one, an
-- operator otherwise.
settled_work : SideEffectLedger → EffectStatus → Option VerificationRequirement → Option NewWork
unfolding operator_work
settled_work ledger EffectStatus.applied (some requirement) =
    some
      (record (new_work WorkType.verification_required WorkReason.effect_applied ledger.effect_id
        Trigger.side_effect ledger.updated_at) { requirement = some requirement })
settled_work ledger EffectStatus.applied none = some (
    operator_work ledger.effect_id WorkReason.operator_required Trigger.side_effect
      ledger.updated_at)
settled_work ledger EffectStatus.failed_confirmed _ =
    some (
      operator_work ledger.effect_id WorkReason.effect_failed Trigger.side_effect ledger.updated_at)
settled_work ledger _ _ = none

-- `effect_handoff` at a ledger that is neither UNKNOWN nor DISPATCHED.
unfoldable pub settled_handoff : Deployment → SideEffectLedger → Tx (Option CaseWorkItem)
unfolding settled_work post_effect_requirement
settled_handoff env ledger =
    if_found (settled_work ledger ledger.status (post_effect_requirement ledger.action_type))
      (λ work. do
        found ← gets (λ db. lookup ledger.case_id db.cases)
        case ← or_raise found missing_row
        item ← create_item env case work
        pure (some item))
      (pure none)

unfoldable pub close_work : CaseWorkItem → WorkStatus → WorkEvent → ℕ → Option ℕ → Tx CaseWorkItem
close_work work status event now completed_at = do
  let changed = record work { status = status; lease_until = none; completed_at = completed_at }
  save_work changed
  audit changed event now (some work.status) none
  pure changed

-- `check_recovery_work`: `none` ends the work, `some` is the binding that recovery goes on with.
unfoldable pub check_recovery_work :
    Deployment → CaseRow → CaseWorkItem → ℕ → Bool → Tx (Option (SideEffectLedger × RecoveryState))
check_recovery_work env case work now settle = do
  raise_if
      (binding_mode work.work_type != WorkBindingMode.side_effect
        || (work.case_id != case.case_id || work.tenant_id != case.tenant_id))
      orchestration
  branch (is_terminal case.status) (do cancel_terminal_work case.case_id now; pure none)
      do
        binding ← gets (effect_binding case work.source_ref)
        if_found binding
            (λ bound.
              branch (settle && not (is_recoverable bound.0.status))
                (do
                  branch (work.status != WorkStatus.completed)
                      (do
                        close_work work WorkStatus.completed WorkEvent.completed now (some now)
                        pure tt)
                      (pure tt)
                  settled_handoff env bound.0
                  pure none)
                (branch (settle && bound.1.requires_escalation)
                  (do
                    branch (work.status != WorkStatus.blocked)
                        (do
                          close_work work WorkStatus.blocked WorkEvent.blocked now work.completed_at
                          pure tt)
                        (pure tt)
                    recovery_operator env case work now
                    pure none)
                  (pure (some bound))))
            (do
              changed ← close_work work WorkStatus.blocked WorkEvent.blocked now work.completed_at
              recovery_operator env case changed now
              pure none)
