-- ===== src/Cases/Models.antt =====
-- credit_harness/cases/tables.py and preconditions.py. Of a Case's stored payload a row keeps what
-- the modelled operations read. A forbidden action that names no tool forbids no call, so the
-- texts are given by the tools that they name.
use credit_incident_resoluti.Prelude.{ℕ, Option, List, Equality, by_decision}
use credit_incident_resoluti.Domain.{CaseStatus, ToolName}

pub record CaseRow : Type 0 where
  pub case_id : ℕ
  pub tenant_id : ℕ
  pub internal_order_id : ℕ
  pub allowed_order_ids : List ℕ
  pub allowed_tools : List ToolName
  pub forbidden_actions : List ToolName
  pub status : CaseStatus
  pub max_tool_calls : ℕ
  pub used_tool_calls : ℕ
  pub updated_at : ℕ

pub data CallState : Type 0 where
  dispatched observed error : CallState

pub record ToolQuery : Type 0 where
  pub internal_order_id : ℕ
  pub protocol_version : Option ℕ
  pub effective_at : Option ℕ

pub record CaseCallRow : Type 0 where
  pub call_id : ℕ
  pub dispatch_correlation_id : Option ℕ
  pub case_id : ℕ
  pub sequence : ℕ
  pub tool : ToolName
  pub request : ToolQuery
  pub state : CallState
  pub observation_id : Option ℕ

pub record WorkLeasePrecondition : Type 0 where
  pub work_item_id : ℕ
  pub worker_id : ℕ
  pub lease_token : ℕ

pub record AgentExecutionPrecondition : Type 0 where
  pub case_id : ℕ
  pub tenant_id : ℕ
  pub expected_case_status : CaseStatus
  pub expected_used_tool_calls : ℕ
  pub expected_case_updated_at : ℕ
  pub expected_snapshot_id : ℕ
  pub planner_policy_version : ℕ
  pub work_lease : Option WorkLeasePrecondition
  pub registry_version : Option ℕ
  pub routing_fingerprint : Option ℕ

unfoldable pub CallState-discrete : Discrete CallState
CallState-discrete = hlevel

instance abbrev pub call_state_eq : Equality CallState
call_state_eq = by_decision CallState-discrete
