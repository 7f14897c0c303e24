-- ===== src/Orchestration/QuietHandoff.antt =====
-- The handoffs of EffectWork and Handoff frame what the orchestration does not write.
use credit_incident_resoluti.Prelude.{ℕ, Bool, Option}
use credit_incident_resoluti.Domain.{EffectStatus}
use credit_incident_resoluti.Authorization.Models.{SideEffectLedger}
use credit_incident_resoluti.Recovery.Models.{RecoveryPolicy, RecoveryState}
use credit_incident_resoluti.Cases.Models.{CaseRow}
use credit_incident_resoluti.Orchestration.Models.{CaseWorkItem, WorkEvent, WorkStatus}
use credit_incident_resoluti.Orchestration.EffectWork.{
  check_recovery_work, close_work, recovery_operator, settled_handoff,
}
use credit_incident_resoluti.Orchestration.Handoff.{
  effect_handoff, ensure_recovery_work, handoff_by_status, rearm_work, resume_recovery_work,
  stored_work, unresolved_handoff,
}
use credit_incident_resoluti.Orchestration.Quiet.{
  Frames-audit, Frames-cancel_terminal_work, Frames-create_item, Frames-escalate_in,
  Frames-save_work, IsQuiet,
}
use credit_incident_resoluti.Database.{Db, Deployment}
use credit_incident_resoluti.Database.Frame.{Frames, frame_rules}

module _ {X : Type 0} {f : Db → X} (quiet : IsQuiet f) (env : Deployment) where
  Frames-recovery_operator :
      (case : CaseRow) (work : CaseWorkItem) (now : ℕ)
      → Frames f (recovery_operator env case work now)
  unfolding recovery_operator
  Frames-recovery_operator case work now =
      search (frame_rules, Frames-escalate_in quiet, Frames-create_item quiet) depth 8

  Frames-settled_handoff : (ledger : SideEffectLedger) → Frames f (settled_handoff env ledger)
  unfolding settled_handoff
  Frames-settled_handoff ledger = search (frame_rules, Frames-create_item quiet) depth 10

  Frames-close_work :
      (work : CaseWorkItem) (status : WorkStatus) (event : WorkEvent) (now : ℕ) (at : Option ℕ)
      → Frames f (close_work work status event now at)
  unfolding close_work
  Frames-close_work work status event now at =
      search (frame_rules, Frames-save_work quiet, Frames-audit quiet) depth 8

  Frames-check_recovery_work :
      (case : CaseRow) (work : CaseWorkItem) (now : ℕ) (settle : Bool)
      → Frames f (check_recovery_work env case work now settle)
  unfolding check_recovery_work
  Frames-check_recovery_work case work now settle =
      search
        (
          frame_rules,
          Frames-cancel_terminal_work quiet,
          Frames-close_work,
          Frames-settled_handoff,
          Frames-recovery_operator,
        )
        depth 14

  Frames-rearm_work :
      (policy : Option RecoveryPolicy) (state : RecoveryState) (now : ℕ) (work : CaseWorkItem)
      → Frames f (rearm_work policy state now work)
  unfolding rearm_work
  Frames-rearm_work policy state now work =
      search (frame_rules, Frames-save_work quiet, Frames-audit quiet) depth 10

  Frames-resume_recovery_work :
      (case : CaseRow) (policy : Option RecoveryPolicy) (state : RecoveryState) (now : ℕ)
      (work : CaseWorkItem)
      → Frames f (resume_recovery_work env case policy state now work)
  unfolding resume_recovery_work stored_work
  Frames-resume_recovery_work case policy state now work =
      search (frame_rules, Frames-check_recovery_work, Frames-rearm_work) depth 10

  Frames-ensure_recovery_work :
      (case : CaseRow) (effect_id now : ℕ) (not_before : Option ℕ) (policy : Option RecoveryPolicy)
      → Frames f (ensure_recovery_work env case effect_id now not_before policy)
  unfolding ensure_recovery_work
  Frames-ensure_recovery_work case effect_id now not_before policy =
      search
        (
          frame_rules,
          Frames-check_recovery_work,
          Frames-resume_recovery_work,
          Frames-settled_handoff,
          Frames-create_item quiet,
        )
        depth 14

  Frames-unresolved_handoff : (ledger : SideEffectLedger) → Frames f (unresolved_handoff env ledger)
  unfolding unresolved_handoff
  Frames-unresolved_handoff ledger =
      search (frame_rules, Frames-ensure_recovery_work, Frames-create_item quiet) depth 14

  Frames-handoff_by_status :
      (ledger : SideEffectLedger) (status : EffectStatus)
      → Frames f (handoff_by_status env ledger status)
  unfolding handoff_by_status
  Frames-handoff_by_status ledger EffectStatus.unknown = Frames-unresolved_handoff ledger
  Frames-handoff_by_status ledger EffectStatus.dispatched = Frames-unresolved_handoff ledger
  Frames-handoff_by_status ledger _ = Frames-settled_handoff ledger

  pub Frames-effect_handoff : (ledger : SideEffectLedger) → Frames f (effect_handoff env ledger)
  unfolding effect_handoff
  Frames-effect_handoff ledger = Frames-handoff_by_status ledger ledger.status
