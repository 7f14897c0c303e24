-- ===== src/Orchestration/Models.antt =====
-- credit_harness/orchestration/models.py and the rows of orchestration/tables.py. Fingerprints and
-- recovery receipts that the modelled operations only clear are kept as numbers.
use credit_incident_resoluti.Prelude.{ℕ, Option, List, Equality, by_decision, ℕ_discrete}
use credit_incident_resoluti.Domain.{CaseStatus, VerificationRequirement}

pub data WorkType : Type 0 where
  investigation_resume verification_required recovery_recheck operator_followup : WorkType

pub data WorkStatus : Type 0 where
  pending ready claimed completed canceled blocked : WorkStatus

pub data WorkReason : Type 0 where
  wait_requested source_unavailable deployment_state_unknown capability_unavailable : WorkReason
  operator_required effect_applied effect_unresolved effect_failed : WorkReason
  evaluation_inconclusive evaluation_failed resume_limit verification_limit : WorkReason
  no_progress interrupted_run no_tool tool_budget_exhausted : WorkReason

pub data SignalType : Type 0 where
  operator_acknowledged capability_available deployment_state_updated source_recovered : SignalType

pub data Trigger : Type 0 where
  timer resolution_signal side_effect evaluation recovery : Trigger

pub data WorkEvent : Type 0 where
  recovery_rebased rearmed created ready claimed resumed : WorkEvent
  started completed stale blocked canceled : WorkEvent

pub data WorkBindingMode : Type 0 where
  case_snapshot side_effect : WorkBindingMode

pub record OrchestrationBudget : Type 0 where
  pub max_resume_cycles : ℕ
  pub max_verification_cycles : ℕ
  pub max_no_progress_cycles : ℕ

pub record CaseOrchestrationState : Type 0 where
  pub case_id : ℕ
  pub tenant_id : ℕ
  pub budget : OrchestrationBudget
  pub resume_cycle_count : ℕ
  pub verification_cycle_count : ℕ
  pub no_progress_count : ℕ
  pub last_work_item_id : Option ℕ
  pub last_progress_fingerprint : Option ℕ

pub record CaseWorkItem : Type 0 where
  pub work_item_id : ℕ
  pub tenant_id : ℕ
  pub case_id : ℕ
  pub work_type : WorkType
  pub status : WorkStatus
  pub reason_code : WorkReason
  pub source_ref : ℕ
  pub trigger : Trigger
  pub expected_case_status : CaseStatus
  pub expected_case_revision : ℕ
  pub created_at : ℕ
  pub not_before : ℕ
  pub claimed_by : Option ℕ
  pub lease_until : Option ℕ
  pub lease_token : Option ℕ
  pub attempt_count : ℕ
  pub completed_at : Option ℕ
  pub required_signal : Option SignalType
  pub signal_id : Option ℕ
  pub previous_run_id : Option ℕ
  pub snapshot_ref : Option ℕ
  pub wait_seconds : Option ℕ
  pub requirement : Option VerificationRequirement
  pub verification_requirements : List VerificationRequirement
  pub progress_before : Option ℕ
  pub recovery_reads : List ℕ
  pub recovery_result : Option ℕ
  pub recovery_claim_token : Option ℕ

-- CaseWorkItem.binding_mode
unfoldable pub binding_mode : WorkType → WorkBindingMode
binding_mode WorkType.recovery_recheck = WorkBindingMode.side_effect
binding_mode _ = WorkBindingMode.case_snapshot

-- WorkItemRow: three columns repeat the payload, for the queries.
pub record WorkItemRow : Type 0 where
  pub work_item_id : ℕ
  pub tenant_id : ℕ
  pub case_id : ℕ
  pub status : WorkStatus
  pub not_before : ℕ
  pub lease_until : Option ℕ
  pub payload : CaseWorkItem

pub record WorkClaim : Type 0 where
  pub work_item_id : ℕ
  pub worker_id : ℕ
  pub lease_token : ℕ

pub record PauseReservation : Type 0 where
  pub decision_id : ℕ
  pub snapshot_id : ℕ
  pub run_id : ℕ
  pub reason : WorkReason
  pub wait_seconds : Option ℕ
  pub required_signal : Option SignalType

pub record ResolutionSignal : Type 0 where
  pub signal_id : ℕ
  pub tenant_id : ℕ
  pub case_id : ℕ
  pub work_item_id : ℕ
  pub signal_type : SignalType
  pub subject : ℕ
  pub created_at : ℕ
  pub source_actor_ref : ℕ

pub record OrchestrationAuditRecord : Type 0 where
  pub work_item_id : ℕ
  pub case_id : ℕ
  pub event : WorkEvent
  pub before_status : Option WorkStatus
  pub after_status : WorkStatus
  pub worker_id : Option ℕ
  pub trigger_ref : ℕ
  pub recorded_at : ℕ

unfoldable pub WorkType-discrete : Discrete WorkType
WorkType-discrete = hlevel

unfoldable pub WorkStatus-discrete : Discrete WorkStatus
WorkStatus-discrete = hlevel

unfoldable pub WorkReason-discrete : Discrete WorkReason
WorkReason-discrete = hlevel

unfoldable pub WorkEvent-discrete : Discrete WorkEvent
WorkEvent-discrete = hlevel

unfoldable pub SignalType-discrete : Discrete SignalType
SignalType-discrete = hlevel

unfoldable pub WorkBindingMode-discrete : Discrete WorkBindingMode
WorkBindingMode-discrete = hlevel

instance abbrev pub work_type_eq : Equality WorkType
work_type_eq = by_decision WorkType-discrete

instance abbrev pub work_status_eq : Equality WorkStatus
work_status_eq = by_decision WorkStatus-discrete

instance abbrev pub work_reason_eq : Equality WorkReason
work_reason_eq = by_decision WorkReason-discrete

instance abbrev pub work_event_eq : Equality WorkEvent
work_event_eq = by_decision WorkEvent-discrete

instance abbrev pub signal_type_eq : Equality SignalType
signal_type_eq = by_decision SignalType-discrete

instance abbrev pub work_binding_mode_eq : Equality WorkBindingMode
work_binding_mode_eq = by_decision WorkBindingMode-discrete

unfoldable pub ResolutionSignal-discrete : Discrete ResolutionSignal
ResolutionSignal-discrete = hlevel (ℕ_discrete, SignalType-discrete)

instance abbrev pub resolution_signal_eq : Equality ResolutionSignal
resolution_signal_eq = by_decision ResolutionSignal-discrete
