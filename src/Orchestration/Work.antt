-- ===== src/Orchestration/Work.antt =====
-- credit_harness/orchestration/repository.py, lines 14 to 118: creating, saving and canceling work,
-- inside the transaction of whoever publishes it.
use credit_incident_resoluti.Prelude.{
  ℕ, ◌+◌, max, Bool, true, false, ◌&&◌, ◌||◌, Option, none, some, List, [], ◌∷◌, ◌++◌, map, ◌==◌,
  nat_eq, ◌!=◌, is_none, or_else, if◌then◌else◌, lookup, insert, select, update_where,
}
use credit_incident_resoluti.Domain.{
  CaseStatus, case_status_eq, is_terminal, VerificationRequirement,
}
use credit_incident_resoluti.Cases.Models.{CaseRow}
use credit_incident_resoluti.Cases.Rows.{save_case}
use credit_incident_resoluti.Orchestration.Models.{
  CaseOrchestrationState, CaseWorkItem, OrchestrationAuditRecord, SignalType, Trigger, WorkEvent,
  WorkItemRow, WorkReason, work_reason_eq, WorkStatus, work_status_eq, WorkType, work_type_eq,
}
use credit_incident_resoluti.Database.{Db, Deployment, work_key_json}
use credit_incident_resoluti.Database.Transaction.{
  Tx, pure, gets, ◌>>=◌, ◌>>◌, modify, branch, if_found,
}

-- ACTIVE
unfoldable pub is_active : WorkStatus → Bool
is_active WorkStatus.pending = true
is_active WorkStatus.ready = true
is_active WorkStatus.claimed = true
is_active _ = false

unfoldable pub is_queued : WorkStatus → Bool
is_queued WorkStatus.pending = true
is_queued WorkStatus.ready = true
is_queued _ = false

unfoldable pub default_state : CaseRow → CaseOrchestrationState
default_state case = record {
  case_id = case.case_id;
  tenant_id = case.tenant_id;
  budget = record {
    max_resume_cycles = 5;
    max_verification_cycles = 5;
    max_no_progress_cycles = 3;
  };
  resume_cycle_count = 0;
  verification_cycle_count = 0;
  no_progress_count = 0;
  last_work_item_id = none;
  last_progress_fingerprint = none;
}

unfoldable pub save_state : CaseOrchestrationState → Tx Unit
save_state state =
    modify (λ db. record db {
      orchestration_states = insert state.case_id state db.orchestration_states;
    })

-- The Case's orchestration state, created at its first use.
unfoldable pub state_in : CaseRow → Tx CaseOrchestrationState
state_in case = do
  found ← gets (λ db. lookup case.case_id db.orchestration_states)
  if_found found pure (do save_state (default_state case); pure (default_state case))

unfoldable pub audit_record :
    CaseWorkItem → WorkEvent → ℕ → Option WorkStatus → Option ℕ → OrchestrationAuditRecord
audit_record item event now before worker = record {
  work_item_id = item.work_item_id;
  case_id = item.case_id;
  event = event;
  before_status = before;
  after_status = item.status;
  worker_id = worker;
  trigger_ref = or_else item.signal_id item.source_ref;
  recorded_at = now;
}

unfoldable pub audit : CaseWorkItem → WorkEvent → ℕ → Option WorkStatus → Option ℕ → Tx Unit
audit item event now before worker = modify (λ db. record db {
  orchestration_audit = db.orchestration_audit ++ audit_record item event now before worker ∷ [];
})

unfoldable pub work_row : CaseWorkItem → WorkItemRow
work_row item = record {
  work_item_id = item.work_item_id;
  tenant_id = item.tenant_id;
  case_id = item.case_id;
  status = item.status;
  not_before = item.not_before;
  lease_until = item.lease_until;
  payload = item;
}

-- `save_work`, and the `session.add` of a new item, which has no lease.
unfoldable pub save_work : CaseWorkItem → Tx Unit
save_work item =
    modify (λ db. record db { work_items = insert item.work_item_id (work_row item) db.work_items })

-- The keyword arguments of `_create_work`.
pub record NewWork : Type 0 where
  pub work_type : WorkType
  pub reason : WorkReason
  pub source_ref : ℕ
  pub trigger : Trigger
  pub now : ℕ
  pub not_before : Option ℕ
  pub requirement : Option VerificationRequirement
  pub required_signal : Option SignalType
  pub previous_run_id : Option ℕ
  pub snapshot_ref : Option ℕ
  pub wait_seconds : Option ℕ
  pub verification_requirements : List VerificationRequirement

abbrev pub new_work : WorkType → WorkReason → ℕ → Trigger → ℕ → NewWork
new_work work_type reason source_ref trigger now = record {
  work_type = work_type;
  reason = reason;
  source_ref = source_ref;
  trigger = trigger;
  now = now;
  not_before = none;
  requirement = none;
  required_signal = none;
  previous_run_id = none;
  snapshot_ref = none;
  wait_seconds = none;
  verification_requirements = [];
}

unfoldable pub work_key : Deployment → CaseRow → NewWork → ℕ
work_key env case w = env.digest (
    work_key_json case.case_id case.tenant_id w.work_type w.reason w.source_ref w.requirement
      w.snapshot_ref)

-- An effect receipt or an evaluation report cannot bypass an escalation.
unfoldable pub signal_for : CaseRow → NewWork → Option SignalType
signal_for case w =
    if case.status == CaseStatus.escalated
      && is_none w.required_signal
      && w.work_type != WorkType.recovery_recheck
    then some SignalType.operator_acknowledged
    else w.required_signal

-- A verification of a waiting Case is not due before the Case's timers.
unfoldable pub latest_timer : ℕ → List WorkItemRow → ℕ
latest_timer at [] = at
latest_timer at (row ∷ rows) =
    latest_timer
      (if row.payload.reason_code == WorkReason.wait_requested
        then max at row.payload.not_before
        else at)
      rows

unfoldable pub due_time : CaseRow → NewWork → Db → ℕ
unfolding latest_timer is_queued
due_time case w db =
    let at = or_else w.not_before w.now in
    if case.status == CaseStatus.waiting && w.work_type == WorkType.verification_required
    then latest_timer at
        (select (λ row. row.case_id == case.case_id && is_queued row.status) db.work_items)
    else at

unfoldable pub new_item : Deployment → CaseRow → NewWork → ℕ → CaseWorkItem
unfolding work_key signal_for
new_item env case w not_before = record {
  work_item_id = work_key env case w;
  tenant_id = case.tenant_id;
  case_id = case.case_id;
  work_type = w.work_type;
  status = if is_terminal case.status then WorkStatus.canceled else WorkStatus.pending;
  reason_code = w.reason;
  source_ref = w.source_ref;
  trigger = w.trigger;
  expected_case_status = case.status;
  expected_case_revision = case.updated_at;
  created_at = w.now;
  not_before = not_before;
  claimed_by = none;
  lease_until = none;
  lease_token = none;
  attempt_count = 0;
  completed_at = none;
  required_signal = signal_for case w;
  signal_id = none;
  previous_run_id = w.previous_run_id;
  snapshot_ref = w.snapshot_ref;
  wait_seconds = w.wait_seconds;
  requirement = w.requirement;
  verification_requirements = w.verification_requirements;
  progress_before = none;
  recovery_reads = [];
  recovery_result = none;
  recovery_claim_token = none;
}

-- The part of `_create_work` after the lookup of an item with the same key.
unfoldable pub add_work : Deployment → CaseRow → NewWork → Tx CaseWorkItem
add_work env case w = do
  state ← state_in case
  not_before ← gets (due_time case w)
  let item = new_item env case w not_before
  save_work item
  save_state (record state { last_work_item_id = some item.work_item_id })
  audit item WorkEvent.created w.now none none
  pure item

-- `_create_work`. The source's `create_work` calls it for every type but RECOVERY_RECHECK, which it
-- hands to `ensure_recovery_work`. No caller passes it that type: the items of that type come from
-- `ensure_recovery_work` and `effect_handoff`, which call `_create_work` themselves. So the other
-- callers are modelled as calling it too.
unfoldable pub create_item : Deployment → CaseRow → NewWork → Tx CaseWorkItem
create_item env case w = do
  old ← gets (λ db. lookup (work_key env case w) db.work_items)
  if_found old (λ row. pure row.payload) (add_work env case w)

unfoldable pub canceled : CaseWorkItem → CaseWorkItem
canceled item = record item { status = WorkStatus.canceled; lease_until = none }

unfoldable pub cancels : ℕ → WorkItemRow → Bool
unfolding is_active
cancels case_id row =
    row.case_id == case_id && (is_active row.status || row.status == WorkStatus.blocked)

unfoldable pub cancel_terminal_work : ℕ → ℕ → Tx Unit
unfolding canceled cancels
cancel_terminal_work case_id now = modify (λ db. record db {
  work_items =
      update_where (cancels case_id) (λ row. work_row (canceled row.payload)) db.work_items;
  orchestration_audit =
      db.orchestration_audit
      ++ map
          (λ row.
            audit_record (canceled row.payload) WorkEvent.canceled now (some row.payload.status)
              none)
          (select (cancels case_id) db.work_items);
})

-- The new row of an escalated Case.
unfoldable pub escalated : CaseRow → ℕ → CaseRow
escalated case now = record case {
  status = CaseStatus.escalated;
  updated_at = max now (case.updated_at + 1);
}

-- `escalate_in`: the Case escalates, and an operator's work is published with it.
unfoldable pub escalate_in : Deployment → CaseRow → WorkReason → ℕ → ℕ → Tx (Option CaseWorkItem)
unfolding escalated
escalate_in env case reason source_ref now = branch (is_terminal case.status) (pure none) do
  save_case (escalated case now)
  item ←
      create_item env (escalated case now)
        (record (new_work WorkType.operator_followup reason source_ref Trigger.recovery now) {
          required_signal = some SignalType.operator_acknowledged;
        })
  pure (some item)
