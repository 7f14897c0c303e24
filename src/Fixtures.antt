-- ===== src/Fixtures.antt =====
-- Test data: a deployment, a Case with two intents, and the tables that they start from.
pub mod Execute
pub mod Runs
use credit_incident_resoluti.Prelude.{
  ℕ, ◌+◌, ◌*◌, Bool, true, false, Option, none, some, [], ◌∷◌, or_else,
}
use credit_incident_resoluti.Domain.{ActionType, CaseStatus, EffectStatus, RiskLevel}
use credit_incident_resoluti.Cases.Models.{CaseRow}
use credit_incident_resoluti.Authorization.Models.{
  ApprovalReason, ApprovalRequest, ApprovalStatus, DomainCommand, create_reconciliation_task,
  redeliver_asset_notification, replay_callback, request_operator_review, ExecutionCapability,
  RemediationIntent, RemediationTarget,
}
use credit_incident_resoluti.Orchestration.Models.{WorkType}
use credit_incident_resoluti.Database.{
  command_json, Db, Deployment, Digestible, effect_key_json, identity_json, intent_json,
  lookup_json, noop_target_json, proof_json, target_json, work_key_json,
}

abbrev pub type_index : WorkType → ℕ
type_index WorkType.investigation_resume = 0
type_index WorkType.verification_required = 1
type_index WorkType.recovery_recheck = 2
type_index WorkType.operator_followup = 3

abbrev pub command_index : DomainCommand → ℕ
command_index (replay_callback tenant case order message callback) = message
command_index (redeliver_asset_notification tenant case order delivery) = delivery
command_index (create_reconciliation_task tenant case order) = order
command_index (request_operator_review tenant case order) = order

-- A digest that tells the test data apart.
abbrev pub digest : Digestible → ℕ
digest (effect_key_json tenant case order action target) = 10000 + target
digest (target_json t) = 20000 + or_else t.message_ref 0
digest (command_json c) = 30000 + command_index c
digest (noop_target_json t) = 40000
digest (intent_json i) = 50000 + or_else i.target.message_ref 0
digest (identity_json i) = 60000 + i.effect_id
digest (lookup_json r) = 70000
digest (proof_json p) = 80000
digest (work_key_json case tenant work_type reason source requirement snapshot) =
    100000 + source * 4 + type_index work_type

abbrev pub deployment : Deployment
deployment = record {
  tenant_id = 7;
  digest = digest;
  is_alias = λ _. false;
  remediation_policy_version = 1;
  remediation_catalog_version = 1;
  authorization_policy_version = 1;
  contract = record {
    resolver_id = 5;
    contract_version = 1;
    supports_lookup = true;
    not_found_proves_no_effect = false;
    lookup_freshness_sla_seconds = 60;
    supports_external_effect_ref = true;
  };
  policy = record {
    grace_seconds = 1;
    lease_seconds = 30;
    max_attempts = 2;
    backoff_seconds = 5 ∷ 10 ∷ [];
  };
  lease_seconds = 30;
}

abbrev pub open_case : CaseRow
open_case = record {
  case_id = 3;
  tenant_id = 7;
  internal_order_id = 9;
  allowed_order_ids = 9 ∷ [];
  allowed_tools = [];
  forbidden_actions = [];
  status = CaseStatus.investigating;
  max_tool_calls = 10;
  used_tool_calls = 0;
  updated_at = 100;
}

-- The replay of the callback of this message.
abbrev pub replay : ℕ → RemediationIntent
replay message = record {
  intent_id = 50000 + message;
  case_id = 3;
  tenant_id = 7;
  internal_order_id = 9;
  action_type = ActionType.replay_callback_consumption;
  risk_level = RiskLevel.single_order_side_effect;
  target = record {
    case_id = 3;
    tenant_id = 7;
    internal_order_id = 9;
    callback_event_ref = some 4;
    message_ref = some message;
    delivery_ref = none;
  };
  supporting_evidence_refs = [];
  snapshot_id = 1;
  evidence_hash = 2;
  catalog_version = 1;
  policy_version = 1;
  preflight_fingerprint = 3;
  requires_approval = true;
  requires_capability = true;
}

abbrev pub approval_of : ℕ → ApprovalRequest
approval_of message = record {
  approval_id = 600 + message;
  intent = replay message;
  status = ApprovalStatus.pending;
  requested_at = 110;
  decided_at = none;
  expires_at = 900;
  actor_ref = none;
  reason_code = ApprovalReason.requested;
}

-- The capability for the replay of this message, issued at a Case revision.
abbrev pub capability_of : (message revision : ℕ) → ExecutionCapability
capability_of message revision = record {
  capability_id = 700 + message;
  intent_id = 50000 + message;
  tenant_id = 7;
  case_id = 3;
  internal_order_id = 9;
  action_type = ActionType.replay_callback_consumption;
  target_hash = 20000 + message;
  payload_hash = 30000 + message;
  snapshot_id = 1;
  evidence_hash = 2;
  preflight_fingerprint = 3;
  approval_id = some (600 + message);
  policy_version = 1;
  catalog_version = 1;
  authorization_policy_version = 1;
  expected_case_revision = revision;
  issued_at = 120;
  expires_at = 800;
}

abbrev pub empty_db : Db
empty_db = record {
  cases = (3, open_case) ∷ [];
  calls = [];
  intents = [];
  approvals = [];
  capabilities = [];
  signatures = [];
  effects = [];
  authorization_audit = [];
  recovery_states = [];
  attempts = [];
  recovery_audit = [];
  work_items = [];
  orchestration_states = [];
  signals = [];
  orchestration_audit = [];
}

-- Both replays approved and their capabilities issued, the second for the revision that the
-- first one's preparation makes.
abbrev pub issued_db : Db
issued_db = record empty_db {
  intents = (50011, replay 11) ∷ (50012, replay 12) ∷ [];
  approvals =
      (
        611,
        record {
          approval_id = 611;
          intent_id = 50011;
          status = ApprovalStatus.approved;
          payload = approval_of 11;
        },
      )
      ∷ (
        612,
        record {
          approval_id = 612;
          intent_id = 50012;
          status = ApprovalStatus.approved;
          payload = approval_of 12;
        },
      )
      ∷ [];
  capabilities =
      (
        711,
        record {
          capability_id = 711;
          intent_id = 50011;
          payload = capability_of 11 100;
          used_effect_id = none;
        },
      )
      ∷ (
        712,
        record {
          capability_id = 712;
          intent_id = 50012;
          payload = capability_of 12 130;
          used_effect_id = none;
        },
      )
      ∷ [];
}
