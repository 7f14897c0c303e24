-- ===== src/Orchestration/Quiet.antt =====
-- Publishing work touches only the Case rows and the orchestration tables: every other part of the
-- tables is framed by each transaction of Work, EffectWork and Handoff.
use credit_incident_resoluti.Prelude.{ℕ, Option, List, Table, ◌≡◌, ◌∙◌}
use credit_incident_resoluti.Cases.Models.{CaseRow}
use credit_incident_resoluti.Cases.Rows.{save_case}
use credit_incident_resoluti.Orchestration.Models.{
  CaseOrchestrationState, CaseWorkItem, OrchestrationAuditRecord, WorkEvent, WorkItemRow,
  WorkReason, WorkStatus,
}
use credit_incident_resoluti.Orchestration.Work.{
  add_work, audit, cancel_terminal_work, create_item, escalate_in, NewWork, save_state, save_work,
  state_in,
}
use credit_incident_resoluti.Database.{Db, Deployment}
use credit_incident_resoluti.Database.Frame.{Frames, Frames-modify, frame_rules}

-- A part of the tables that the orchestration does not write.
pub record IsQuiet {X : Type 0} (f : Db → X) : Type 0 where
  pub cases : (db : Db) (t : Table CaseRow) → f (record db { cases = t }) ≡ f db
  pub work_items : (db : Db) (t : Table WorkItemRow) → f (record db { work_items = t }) ≡ f db
  pub states :
      (db : Db) (t : Table CaseOrchestrationState)
      → f (record db { orchestration_states = t }) ≡ f db
  pub audit :
      (db : Db) (t : List OrchestrationAuditRecord)
      → f (record db { orchestration_audit = t }) ≡ f db

module _ {X : Type 0} {f : Db → X} (quiet : IsQuiet f) where
  Frames-save_case : (row : CaseRow) → Frames f (save_case row)
  unfolding save_case
  Frames-save_case row = Frames-modify _ (λ db. quiet.cases db _)

  pub Frames-audit :
      (item : CaseWorkItem) (event : WorkEvent) (now : ℕ) (before : Option WorkStatus)
      (worker : Option ℕ)
      → Frames f (audit item event now before worker)
  unfolding audit
  Frames-audit item event now before worker = Frames-modify _ (λ db. quiet.audit db _)

  pub Frames-save_work : (item : CaseWorkItem) → Frames f (save_work item)
  unfolding save_work
  Frames-save_work item = Frames-modify _ (λ db. quiet.work_items db _)

  Frames-save_state : (state : CaseOrchestrationState) → Frames f (save_state state)
  unfolding save_state
  Frames-save_state state = Frames-modify _ (λ db. quiet.states db _)

  Frames-state_in : (case : CaseRow) → Frames f (state_in case)
  unfolding state_in
  Frames-state_in case = search (frame_rules, Frames-save_state)

  Frames-add_work :
      (env : Deployment) (case : CaseRow) (w : NewWork) → Frames f (add_work env case w)
  unfolding add_work
  Frames-add_work env case w =
      search (frame_rules, Frames-state_in, Frames-save_state, Frames-save_work, Frames-audit) depth
        12

  pub Frames-create_item :
      (env : Deployment) (case : CaseRow) (w : NewWork) → Frames f (create_item env case w)
  unfolding create_item
  Frames-create_item env case w = search (frame_rules, Frames-add_work)

  pub Frames-cancel_terminal_work : (case_id now : ℕ) → Frames f (cancel_terminal_work case_id now)
  unfolding cancel_terminal_work
  Frames-cancel_terminal_work case_id now =
      Frames-modify _ (λ db. quiet.audit _ _ ∙ quiet.work_items db _)

  pub Frames-escalate_in :
      (env : Deployment) (case : CaseRow) (reason : WorkReason) (source now : ℕ)
      → Frames f (escalate_in env case reason source now)
  unfolding escalate_in
  Frames-escalate_in env case reason source now =
      search (frame_rules, Frames-save_case, Frames-create_item) depth 8
