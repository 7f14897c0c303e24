-- ===== src/Authorization/Models.antt =====
-- credit_harness/authorization/models.py and tables.py, with the target and the intent of
-- credit_harness/remediation/models.py and the commands of authorization/commands.py.
-- Identifiers and hashes are only compared, so they are numbers; an instant is a number of
-- microseconds. An evidence reference is a number too.
use credit_incident_resoluti.Prelude.{ℕ, Bool, Option, List, Equality, by_decision, ℕ_discrete}
use credit_incident_resoluti.Domain.{
  ActionType, ActionType-discrete, EffectStatus, EffectStatus-discrete, RiskLevel,
  RiskLevel-discrete,
}

pub data AuthorizationCode : Type 0 where
  unsigned_capability invalid_capability capability_expired : AuthorizationCode
  capability_payload_mismatch capability_target_mismatch capability_scope_mismatch :
      AuthorizationCode
  capability_already_used approval_required approval_not_approved : AuthorizationCode
  approval_expired approval_revoked approval_binding_mismatch : AuthorizationCode
  stale_authorization action_not_allowed idempotency_conflict : AuthorizationCode
  invalid_transition write_fenced_by_unresolved_effect : AuthorizationCode

pub data ApprovalStatus : Type 0 where
  pending approved rejected expired revoked : ApprovalStatus

-- The three outcomes that ApprovalDecision.decision allows.
pub data Verdict : Type 0 where
  approve reject revoke : Verdict

pub data ApprovalReason : Type 0 where
  requested operator_approved operator_rejected operator_revoked : ApprovalReason

pub record RemediationTarget : Type 0 where
  pub case_id : ℕ
  pub tenant_id : ℕ
  pub internal_order_id : ℕ
  pub callback_event_ref : Option ℕ
  pub message_ref : Option ℕ
  pub delivery_ref : Option ℕ

pub record RemediationIntent : Type 0 where
  pub intent_id : ℕ
  pub case_id : ℕ
  pub tenant_id : ℕ
  pub internal_order_id : ℕ
  pub action_type : ActionType
  pub risk_level : RiskLevel
  pub target : RemediationTarget
  pub supporting_evidence_refs : List ℕ
  pub snapshot_id : ℕ
  pub evidence_hash : ℕ
  pub catalog_version : ℕ
  pub policy_version : ℕ
  pub preflight_fingerprint : ℕ
  pub requires_approval : Bool
  pub requires_capability : Bool

pub record ApprovalRequest : Type 0 where
  pub approval_id : ℕ
  pub intent : RemediationIntent
  pub status : ApprovalStatus
  pub requested_at : ℕ
  pub decided_at : Option ℕ
  pub expires_at : ℕ
  pub actor_ref : Option ℕ
  pub reason_code : ApprovalReason

pub record ApprovalDecision : Type 0 where
  pub approval_id : ℕ
  pub decision : Verdict
  pub actor_ref : ℕ

pub record ExecutionCapability : Type 0 where
  pub capability_id : ℕ
  pub intent_id : ℕ
  pub tenant_id : ℕ
  pub case_id : ℕ
  pub internal_order_id : ℕ
  pub action_type : ActionType
  pub target_hash : ℕ
  pub payload_hash : ℕ
  pub snapshot_id : ℕ
  pub evidence_hash : ℕ
  pub preflight_fingerprint : ℕ
  pub approval_id : Option ℕ
  pub policy_version : ℕ
  pub catalog_version : ℕ
  pub authorization_policy_version : ℕ
  pub expected_case_revision : ℕ
  pub issued_at : ℕ
  pub expires_at : ℕ

pub data ReceiptOutcome : Type 0 where
  accepted applied failed_confirmed : ReceiptOutcome

pub data FailureCode : Type 0 where
  transport_uncertain invalid_receipt remote_rejected : FailureCode

pub record SideEffectReceipt : Type 0 where
  pub correlation_id : ℕ
  pub outcome : ReceiptOutcome
  pub external_effect_ref : Option ℕ
  pub observed_at : ℕ
  pub no_effect_confirmed : Bool

pub record SideEffectLedger : Type 0 where
  pub effect_id : ℕ
  pub idempotency_key : ℕ
  pub intent_id : ℕ
  pub capability_id : ℕ
  pub approval_id : Option ℕ
  pub tenant_id : ℕ
  pub case_id : ℕ
  pub internal_order_id : ℕ
  pub action_type : ActionType
  pub target_hash : ℕ
  pub payload_hash : ℕ
  pub snapshot_id : ℕ
  pub evidence_hash : ℕ
  pub prepared_case_revision : ℕ
  pub status : EffectStatus
  pub attempt_count : ℕ
  pub created_at : ℕ
  pub updated_at : ℕ
  pub dispatch_correlation_id : ℕ
  pub external_effect_ref : Option ℕ
  pub failure_code : Option FailureCode

-- ApprovalRow, CapabilityRow and EffectRow: the columns beside the stored payload.
pub record ApprovalRow : Type 0 where
  pub approval_id : ℕ
  pub intent_id : ℕ
  pub status : ApprovalStatus
  pub payload : ApprovalRequest

pub record CapabilityRow : Type 0 where
  pub capability_id : ℕ
  pub intent_id : ℕ
  pub payload : ExecutionCapability
  pub used_effect_id : Option ℕ

pub record EffectRow : Type 0 where
  pub effect_id : ℕ
  pub idempotency_key : ℕ
  pub capability_id : ℕ
  pub case_id : ℕ
  pub status : EffectStatus
  pub payload : SideEffectLedger

pub data AuditEvent : Type 0 where
  approval_requested approval_decided capability_issued effect_prepared : AuditEvent
  effect_transition : AuditEvent

-- AuthorizationAuditRecord, without its random audit_id.
pub record AuthorizationAuditRecord : Type 0 where
  pub event : AuditEvent
  pub tenant_id : ℕ
  pub case_id : ℕ
  pub intent_id : ℕ
  pub approval_id : Option ℕ
  pub capability_id : Option ℕ
  pub effect_id : Option ℕ
  pub correlation_id : Option ℕ
  pub effect_status : Option EffectStatus
  pub actor_ref : Option ℕ
  pub recorded_at : ℕ

pub data DomainCommand : Type 0 where
  replay_callback : (tenant case order message_ref callback_event_ref : ℕ) → DomainCommand
  redeliver_asset_notification : (tenant case order delivery_ref : ℕ) → DomainCommand
  create_reconciliation_task : (tenant case order : ℕ) → DomainCommand
  request_operator_review : (tenant case order : ℕ) → DomainCommand

unfoldable pub ApprovalStatus-discrete : Discrete ApprovalStatus
ApprovalStatus-discrete = hlevel

unfoldable pub RemediationTarget-discrete : Discrete RemediationTarget
RemediationTarget-discrete = hlevel ℕ_discrete

unfoldable pub RemediationIntent-discrete : Discrete RemediationIntent
unfolding RemediationTarget-discrete
RemediationIntent-discrete =
    hlevel (ℕ_discrete, ActionType-discrete, RiskLevel-discrete, RemediationTarget-discrete)

unfoldable pub ExecutionCapability-discrete : Discrete ExecutionCapability
ExecutionCapability-discrete = hlevel (ℕ_discrete, ActionType-discrete)

unfoldable pub FailureCode-discrete : Discrete FailureCode
FailureCode-discrete = hlevel

unfoldable pub SideEffectLedger-discrete : Discrete SideEffectLedger
unfolding FailureCode-discrete
SideEffectLedger-discrete =
    hlevel (ℕ_discrete, ActionType-discrete, EffectStatus-discrete, FailureCode-discrete)

instance abbrev pub approval_status_eq : Equality ApprovalStatus
approval_status_eq = by_decision ApprovalStatus-discrete

instance abbrev pub remediation_intent_eq : Equality RemediationIntent
remediation_intent_eq = by_decision RemediationIntent-discrete

instance abbrev pub execution_capability_eq : Equality ExecutionCapability
execution_capability_eq = by_decision ExecutionCapability-discrete

instance abbrev pub side_effect_ledger_eq : Equality SideEffectLedger
side_effect_ledger_eq = by_decision SideEffectLedger-discrete
