-- ===== src/Orchestration/Pause.antt =====
-- `pause_handoff` of credit_harness/orchestration/handoff.py: the work that a pause leaves behind.
use credit_incident_resoluti.Prelude.{
  ℕ, ◌+◌, Bool, false, none, some, ◌==◌, leb, not, is_none, or_else, if◌then◌else◌,
}
use credit_incident_resoluti.Domain.{CaseStatus, case_status_eq}
use credit_incident_resoluti.Cases.Models.{CaseRow}
use credit_incident_resoluti.Cases.Rows.{save_case}
use credit_incident_resoluti.Orchestration.Models.{
  CaseWorkItem, PauseReservation, SignalType, Trigger, WorkReason, WorkType,
}
use credit_incident_resoluti.Orchestration.Work.{create_item, new_work, NewWork, state_in}
use credit_incident_resoluti.Database.{Deployment}
use credit_incident_resoluti.Database.Transaction.{
  orchestration, seconds, Tx, ◌>>=◌, ◌>>◌, branch, raise_if,
}

-- The operator's work at the limit of resume cycles.
unfoldable pub limit_work : PauseReservation → ℕ → NewWork
limit_work r now =
    record (new_work WorkType.operator_followup WorkReason.resume_limit r.decision_id Trigger.timer
      now) {
        snapshot_ref = some r.snapshot_id;
        previous_run_id = some r.run_id;
        required_signal = some SignalType.operator_acknowledged;
      }

-- A wait resumes by its timer, an escalation by the operator's signal.
unfoldable pub pause_work : PauseReservation → Bool → ℕ → NewWork
pause_work r waiting now =
    record (new_work (if waiting then WorkType.investigation_resume else WorkType.operator_followup)
      (if waiting then WorkReason.wait_requested else r.reason) r.decision_id
      (if waiting then Trigger.timer else Trigger.resolution_signal) now) {
        snapshot_ref = some r.snapshot_id;
        previous_run_id = some r.run_id;
        wait_seconds = r.wait_seconds;
        not_before = some (now + seconds (or_else r.wait_seconds 0));
        required_signal =
            if waiting
            then none
            else some (or_else r.required_signal SignalType.operator_acknowledged);
      }

unfoldable pub pause_handoff : Deployment → CaseRow → PauseReservation → ℕ → Tx CaseWorkItem
unfolding limit_work pause_work
pause_handoff env case r now = do
  let waiting = case.status == CaseStatus.waiting
  raise_if (if waiting then is_none r.wait_seconds else not (is_none r.wait_seconds)) orchestration
  state ← state_in case
  branch (if waiting then leb state.budget.max_resume_cycles state.resume_cycle_count else false)
      (do
        let escalated = record case { status = CaseStatus.escalated }
        save_case escalated
        create_item env escalated (limit_work r now))
      (create_item env case (pause_work r waiting now))
