-- ===== src/Domain.antt =====
-- The enumerations that the components share: credit_harness/cases/models.py,
-- authorization/models.py, remediation/models.py, orchestration/models.py, recovery/models.py.
use credit_incident_resoluti.Prelude.{Bool, true, false, Equality, by_decision}

pub data CaseStatus : Type 0 where
  new investigating waiting escalated closed closed_verified : CaseStatus

-- CaseStatus.is_terminal
unfoldable pub is_terminal : CaseStatus → Bool
is_terminal CaseStatus.closed = true
is_terminal CaseStatus.closed_verified = true
is_terminal _ = false

pub data EffectStatus : Type 0 where
  prepared dispatched accepted applied verified unknown rejected failed_confirmed noop :
      EffectStatus

-- RECOVERABLE of recovery/repository.py; the same four states are UNRESOLVED_EFFECT_STATES of
-- evaluation/snapshot.py and the open states of recovery/tables.py.
unfoldable pub is_recoverable : EffectStatus → Bool
is_recoverable EffectStatus.prepared = true
is_recoverable EffectStatus.dispatched = true
is_recoverable EffectStatus.accepted = true
is_recoverable EffectStatus.unknown = true
is_recoverable _ = false

-- LOOKUP_ONLY of recovery/repository.py
unfoldable pub is_lookup_only : EffectStatus → Bool
is_lookup_only EffectStatus.dispatched = true
is_lookup_only EffectStatus.accepted = true
is_lookup_only EffectStatus.unknown = true
is_lookup_only _ = false

pub data ActionType : Type 0 where
  no_remediation replay_callback_consumption redeliver_asset_notification : ActionType
  create_reconciliation_task request_operator_review : ActionType

pub data RiskLevel : Type 0 where
  read_only administrative single_order_side_effect money_movement bulk_or_systemic : RiskLevel

-- domain/enums.py
pub data ToolName : Type 0 where
  asset guarantee fund payment loan_note callback callback_raw messages : ToolName
  accounting trace asset_delivery protocol : ToolName

-- evaluation/models.py
pub data VerificationRequirement : Type 0 where
  payment_finality payment_identity request_association : VerificationRequirement
  fund_final_state guarantee_final_state asset_final_state : VerificationRequirement
  accounting_entry callback_consumption asset_delivery : VerificationRequirement
  post_effect_message_status post_effect_delivery_status : VerificationRequirement
  safety_gap provenance read_publication effect_finality : VerificationRequirement
  recovery_finality safe_policy : VerificationRequirement

unfoldable pub CaseStatus-discrete : Discrete CaseStatus
CaseStatus-discrete = hlevel

unfoldable pub EffectStatus-discrete : Discrete EffectStatus
EffectStatus-discrete = hlevel

unfoldable pub ActionType-discrete : Discrete ActionType
ActionType-discrete = hlevel

unfoldable pub RiskLevel-discrete : Discrete RiskLevel
RiskLevel-discrete = hlevel

instance abbrev pub case_status_eq : Equality CaseStatus
case_status_eq = by_decision CaseStatus-discrete

instance abbrev pub effect_status_eq : Equality EffectStatus
effect_status_eq = by_decision EffectStatus-discrete

instance abbrev pub action_type_eq : Equality ActionType
action_type_eq = by_decision ActionType-discrete

instance abbrev pub risk_level_eq : Equality RiskLevel
risk_level_eq = by_decision RiskLevel-discrete

unfoldable pub ToolName-discrete : Discrete ToolName
ToolName-discrete = hlevel

unfoldable pub VerificationRequirement-discrete : Discrete VerificationRequirement
VerificationRequirement-discrete = hlevel

instance abbrev pub tool_name_eq : Equality ToolName
tool_name_eq = by_decision ToolName-discrete

instance abbrev pub verification_requirement_eq : Equality VerificationRequirement
verification_requirement_eq = by_decision VerificationRequirement-discrete
