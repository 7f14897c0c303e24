-- ===== src/Database/Schema.antt =====
-- The tables that the modelled operations read and write, and what a deployment fixes.
use credit_incident_resoluti.Prelude.{ℕ, Bool, List, Option, Table}
use credit_incident_resoluti.Domain.{ActionType, VerificationRequirement}
use credit_incident_resoluti.Cases.Models.{CaseRow, CaseCallRow}
use credit_incident_resoluti.Authorization.Models.{
  ApprovalRow, AuthorizationAuditRecord, CapabilityRow, DomainCommand, EffectRow, RemediationIntent,
  RemediationTarget,
}
use credit_incident_resoluti.Recovery.Models.{
  Attempt, EffectIdentity, RecoveryAuditRecord, RecoveryCapability, RecoveryPolicy, RecoveryProof,
  RecoveryState, SideEffectLookupResult,
}
use credit_incident_resoluti.Orchestration.Models.{
  CaseOrchestrationState, OrchestrationAuditRecord, ResolutionSignal, WorkItemRow, WorkReason,
  WorkType,
}

pub record Db : Type 0 where
  pub cases : Table CaseRow
  pub calls : Table CaseCallRow
  pub intents : Table RemediationIntent
  pub approvals : Table ApprovalRow
  pub capabilities : Table CapabilityRow
  pub signatures : Table ℕ
  pub effects : Table EffectRow
  pub authorization_audit : List AuthorizationAuditRecord
  pub recovery_states : Table RecoveryState
  pub attempts : Table Attempt
  pub recovery_audit : List RecoveryAuditRecord
  pub work_items : Table WorkItemRow
  pub orchestration_states : Table CaseOrchestrationState
  pub signals : Table ResolutionSignal
  pub orchestration_audit : List OrchestrationAuditRecord

-- The values whose canonical JSON is hashed by `digest` of context/budget.py.
pub data Digestible : Type 0 where
  effect_key_json : (tenant case order : ℕ) → ActionType → (target_hash : ℕ) → Digestible
  target_json : RemediationTarget → Digestible
  command_json : DomainCommand → Digestible
  noop_target_json : RemediationTarget → Digestible
  intent_json : RemediationIntent → Digestible
  identity_json : EffectIdentity → Digestible
  lookup_json : SideEffectLookupResult → Digestible
  proof_json : RecoveryProof → Digestible
  work_key_json :
      (case tenant : ℕ)
      → WorkType
      → WorkReason
      → (source : ℕ) → Option VerificationRequirement
      → (snapshot : Option ℕ) → Digestible

-- The trusted configuration: the repository's tenant, the SHA-256 digest, which identifiers
-- begin with EXTREF- (the aliases that a model is shown), the three policy
-- versions, the recovery contract and policy, and the length of a work lease.
pub record Deployment : Type 0 where
  pub tenant_id : ℕ
  pub digest : Digestible → ℕ
  pub is_alias : ℕ → Bool
  pub remediation_policy_version : ℕ
  pub remediation_catalog_version : ℕ
  pub authorization_policy_version : ℕ
  pub contract : RecoveryCapability
  pub policy : RecoveryPolicy
  pub lease_seconds : ℕ
