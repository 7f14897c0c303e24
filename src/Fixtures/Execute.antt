-- ===== src/Fixtures/Execute.antt =====
-- Runs a transaction on concrete tables: every operation that a test needs computes here.
use credit_incident_resoluti.Prelude.{
  Bool, true, false, ◌≡◌, refl, ℕ_discrete, lookup, insert, select_first, select, update_where,
}
use credit_incident_resoluti.Domain.{
  is_terminal, is_recoverable, is_lookup_only, CaseStatus-discrete, EffectStatus-discrete,
  ActionType-discrete, RiskLevel-discrete, ToolName-discrete, VerificationRequirement-discrete,
}
use credit_incident_resoluti.Cases.Rows.{
  find_case, lock_case, case_row, save_case, next_update_time,
}
use credit_incident_resoluti.Authorization.Commands.{
  replay_command, redeliver_command, command_for, for_intent, payload_hash, build, effect_key,
}
use credit_incident_resoluti.Authorization.Approvals.{
  status_at, approval_from_row, lock_for_authorization, require_open, get_intent, add_intent,
  save_intent, audit, save_approval, request_approval, get_approval, verdict_status, may_decide,
  undecidable_code, decided, decide_approval, refused_code, check_given, check_approval,
}
use credit_incident_resoluti.Authorization.Capabilities.{
  save_capability, unresolved_effect, issue, check_capability, existing_effect, existing,
}
use credit_incident_resoluti.Authorization.Ledger.{
  save_effect, add_effect, new_ledger, ledger_row, bump_revision, prepare, check_lease, dispatched,
  used_effect, dispatch_prepared, get_ledger, may_follow, outcome_status, unproven, refs_conflict,
  receipt_mismatch, transitioned, transition,
}
use credit_incident_resoluti.Recovery.Sync.{synchronized, save_recovery_state, synchronize_effect}
use credit_incident_resoluti.Recovery.Proof.{
  reconstruct_identity, well_formed, unbound, not_fresh, proof_of, validate_lookup, reconcile,
  reconcile_status,
}
use credit_incident_resoluti.Recovery.Lease
use credit_incident_resoluti.Recovery.Lease.{
  locked, save_attempt, is_live, not_due, abandon, abandon_previous, new_claim, leased, new_attempt,
  add_attempt, take_lease, exhausted, claim, holds, owned,
}
use credit_incident_resoluti.Recovery.Settle.{
  moved_on, persist_lookup, cas, released, finish, settled, recover_transition, escalates,
  finish_error, finish_resume,
}
use credit_incident_resoluti.Orchestration.Work
use credit_incident_resoluti.Orchestration.Work.{
  is_active, is_queued, default_state, save_state, state_in, audit_record, work_row, save_work,
  work_key, signal_for, latest_timer, due_time, new_item, add_work, create_item, canceled, cancels,
  cancel_terminal_work, escalated, escalate_in,
}
use credit_incident_resoluti.Orchestration.EffectWork.{
  effect_binding, operator_work, recovery_operator, post_effect_requirement, settled_handoff,
  close_work, check_recovery_work,
}
use credit_incident_resoluti.Orchestration.Handoff.{
  existing_recovery_work, stored_work, rearm_work, has_live_lease, resume_recovery_work,
  ensure_recovery_work, unresolved_handoff, handoff_by_status, effect_handoff,
}
use credit_incident_resoluti.Database.Transaction.{
  ◌>>=◌, raise_if, modify, branch, if_found, on_authorization_error, run,
}
use credit_incident_resoluti.Authorization.Models.{
  ApprovalStatus-discrete, RemediationTarget-discrete, RemediationIntent-discrete,
  ExecutionCapability-discrete, FailureCode-discrete, SideEffectLedger-discrete,
}
use credit_incident_resoluti.Recovery.Models.{
  LookupStatus-discrete, RecoveryFailure-discrete, RecoveryProof-discrete,
  RecoveryCapability-discrete,
}
use credit_incident_resoluti.Orchestration.Models.{
  binding_mode, WorkType-discrete, WorkStatus-discrete, WorkReason-discrete, WorkEvent-discrete,
  SignalType-discrete, WorkBindingMode-discrete, ResolutionSignal-discrete,
}
use credit_incident_resoluti.Cases.Models.{CallState-discrete}
use credit_incident_resoluti.Recovery.Scan.{
  is_eligible, list_recoverable_effects, requires_escalation,
}
use credit_incident_resoluti.Orchestration.Leases.{
  get_work, state, configure, awaits_signal, lease_expired, lease_live, off_revision, unavailable,
  other_claimed, leased_item, lease_item, claim_work, lease_not_held, owned_work, renew,
  completed_by, complete, current_recovery,
}
use credit_incident_resoluti.Orchestration.Polling.{
  is_due, due_ids, offer, cancel_stale, poll_one, poll_each, poll_due_work, claim_next,
}
use credit_incident_resoluti.Orchestration.Signals.{signal_mismatch, submit_signal}
use credit_incident_resoluti.Orchestration.Routing.{
  verification_tool, is_resolvable, route_effect, route,
}
use credit_incident_resoluti.Orchestration.Pause.{limit_work, pause_work, pause_handoff}
use credit_incident_resoluti.Cases.Calls.{
  check_scope, is_expected, fence_fails, work_fence, is_running, may_reserve, reserved, save_call,
  add_call, reserve_call, mark_error, is_pause, paused, pause, pause_if_current,
}
use credit_incident_resoluti.Database.{Db}
use credit_incident_resoluti.Database.Transaction.{err, ok, Result, Tx}

unfoldable pub execute : {A : Type 0} → Tx A → Db → Result A × Db
unfolding ℕ_discrete lookup insert select_first select update_where is_terminal is_recoverable
    is_lookup_only CaseStatus-discrete EffectStatus-discrete ActionType-discrete RiskLevel-discrete
    ToolName-discrete VerificationRequirement-discrete find_case lock_case case_row save_case
    next_update_time replay_command redeliver_command command_for for_intent payload_hash build
    effect_key status_at approval_from_row lock_for_authorization require_open get_intent add_intent
    save_intent audit save_approval request_approval get_approval verdict_status may_decide
    undecidable_code decided decide_approval refused_code check_given check_approval save_capability
    unresolved_effect issue check_capability existing_effect existing save_effect add_effect
    new_ledger ledger_row bump_revision prepare check_lease dispatched used_effect dispatch_prepared
    get_ledger may_follow outcome_status unproven refs_conflict receipt_mismatch transitioned
    transition synchronized save_recovery_state synchronize_effect reconstruct_identity well_formed
    unbound not_fresh proof_of validate_lookup reconcile reconcile_status locked save_attempt
    is_live not_due abandon abandon_previous new_claim leased new_attempt add_attempt take_lease
    exhausted claim holds owned credit_incident_resoluti.Recovery.Lease.audit moved_on
    persist_lookup cas released finish settled recover_transition escalates finish_error
    finish_resume is_active is_queued default_state save_state state_in audit_record work_row
    save_work work_key signal_for latest_timer due_time new_item add_work create_item canceled
    cancels cancel_terminal_work escalated escalate_in
    credit_incident_resoluti.Orchestration.Work.audit effect_binding operator_work recovery_operator
    post_effect_requirement settled_handoff close_work check_recovery_work existing_recovery_work
    stored_work rearm_work has_live_lease resume_recovery_work ensure_recovery_work
    unresolved_handoff handoff_by_status effect_handoff ◌>>=◌ raise_if modify branch if_found
    on_authorization_error run ApprovalStatus-discrete RemediationTarget-discrete
    RemediationIntent-discrete ExecutionCapability-discrete FailureCode-discrete
    SideEffectLedger-discrete LookupStatus-discrete RecoveryFailure-discrete RecoveryProof-discrete
    RecoveryCapability-discrete binding_mode WorkType-discrete WorkStatus-discrete
    WorkReason-discrete WorkEvent-discrete SignalType-discrete WorkBindingMode-discrete
    ResolutionSignal-discrete CallState-discrete is_eligible list_recoverable_effects
    requires_escalation get_work state configure awaits_signal lease_expired lease_live off_revision
    unavailable other_claimed leased_item lease_item claim_work lease_not_held owned_work renew
    completed_by complete current_recovery is_due due_ids offer cancel_stale poll_one poll_each
    poll_due_work claim_next signal_mismatch submit_signal verification_tool is_resolvable
    route_effect route limit_work pause_work pause_handoff check_scope is_expected fence_fails
    work_fence is_running may_reserve reserved save_call add_call reserve_call mark_error is_pause
    paused pause pause_if_current
execute m db = run m db

-- The value of a run that committed.
abbrev pub value : {A : Type 0} → A → Result A → A
value default (ok a) = a
value default (err e) = default

abbrev pub is_ok : {A : Type 0} → Result A → Bool
is_ok (ok a) = true
is_ok (err e) = false

-- A run that commits, by computing no more than that it does.
pub is_ok-value :
    {A : Type 0} (default : A) (r : Result A) → is_ok r ≡ true → r ≡ ok (value default r)
is_ok-value default (ok a) h = refl
is_ok-value default (err e) h = absurd (cc h)
