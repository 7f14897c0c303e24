-- ===== src/Recovery/Models.antt =====
-- credit_harness/recovery/models.py and the rows of recovery/tables.py. The float timestamps of
-- the rows are the same microseconds as the instants that they are taken from.
use credit_incident_resoluti.Prelude.{ℕ, Bool, Option, List, Equality, by_decision, ℕ_discrete}
use credit_incident_resoluti.Domain.{EffectStatus}
use credit_incident_resoluti.Authorization.Models.{DomainCommand}

pub data LookupStatus : Type 0 where
  found_applied found_accepted found_failed_no_effect not_found indeterminate : LookupStatus

-- RecoveryCapability: what the deployment trusts the status resolver to mean.
pub record RecoveryCapability : Type 0 where
  pub resolver_id : ℕ
  pub contract_version : ℕ
  pub supports_lookup : Bool
  pub not_found_proves_no_effect : Bool
  pub lookup_freshness_sla_seconds : ℕ
  pub supports_external_effect_ref : Bool

pub record EffectIdentity : Type 0 where
  pub effect_id : ℕ
  pub target_hash : ℕ
  pub payload_hash : ℕ
  pub command : DomainCommand

pub record SideEffectLookupResult : Type 0 where
  pub correlation_id : ℕ
  pub command_identity_hash : ℕ
  pub resolver_id : ℕ
  pub lookup_status : LookupStatus
  pub external_effect_ref : Option ℕ
  pub observed_at : ℕ
  pub no_effect_confirmed : Bool
  pub remote_status_reference : Option ℕ

pub data RecoveryFailure : Type 0 where
  lookup_timeout lookup_transport_error lookup_indeterminate lookup_not_found : RecoveryFailure
  lookup_proof_conflict invalid_lookup_receipt recovery_authorization_expired : RecoveryFailure
  recovery_approval_revoked recovery_stale recovery_limit_reached lease_lost : RecoveryFailure
  not_eligible closure_invariant_violation : RecoveryFailure

pub data RecoveryOutcome : Type 0 where
  recovered_applied recovered_accepted recovered_failed_confirmed still_unknown : RecoveryOutcome
  resumed_prepared blocked_prepared nothing_to_do escalation_required : RecoveryOutcome
  busy_or_not_due : RecoveryOutcome

pub record RecoveryProof : Type 0 where
  pub effect_id : ℕ
  pub correlation_id : ℕ
  pub resolver_id : ℕ
  pub lookup_status : LookupStatus
  pub external_effect_ref : Option ℕ
  pub observed_at : ℕ
  pub contract_version : ℕ
  pub command_identity_hash : ℕ
  pub result_hash : ℕ

-- RecoveryPolicy; the validator refuses an empty `backoff_seconds`.
pub record RecoveryPolicy : Type 0 where
  pub grace_seconds : ℕ
  pub lease_seconds : ℕ
  pub max_attempts : ℕ
  pub backoff_seconds : List ℕ

pub record RecoveryClaim : Type 0 where
  pub recovery_id : ℕ
  pub effect_id : ℕ
  pub worker_id : ℕ
  pub source_status : EffectStatus
  pub sequence : ℕ

-- EffectRecoveryStateRow
pub record RecoveryState : Type 0 where
  pub effect_id : ℕ
  pub tenant_id : ℕ
  pub case_id : ℕ
  pub status : EffectStatus
  pub ledger_updated_at : ℕ
  pub next_eligible_at : ℕ
  pub lease_owner : Option ℕ
  pub lease_until : Option ℕ
  pub lease_token : Option ℕ
  pub attempt_count : ℕ
  pub requires_escalation : Bool

-- EffectRecoveryAttemptRow
pub record Attempt : Type 0 where
  pub recovery_id : ℕ
  pub worker_id : ℕ
  pub effect_id : ℕ
  pub sequence : ℕ
  pub started_at : ℕ
  pub completed_at : Option ℕ
  pub source_status : EffectStatus
  pub resolver_id : ℕ
  pub result_status : Option EffectStatus
  pub lookup_result : Option SideEffectLookupResult
  pub proof : Option RecoveryProof
  pub proof_hash : Option ℕ
  pub failure_code : Option RecoveryFailure

pub data RecoveryAuditEvent : Type 0 where
  recovery_scan recovery_lookup recovery_transition recovery_escalated : RecoveryAuditEvent

pub record RecoveryAuditRecord : Type 0 where
  pub recovery_id : ℕ
  pub tenant_id : ℕ
  pub case_id : ℕ
  pub intent_id : ℕ
  pub approval_id : Option ℕ
  pub capability_id : ℕ
  pub effect_id : ℕ
  pub correlation_id : ℕ
  pub event : RecoveryAuditEvent
  pub recorded_at : ℕ
  pub proof : Option RecoveryProof
  pub failure_code : Option RecoveryFailure

unfoldable pub LookupStatus-discrete : Discrete LookupStatus
LookupStatus-discrete = hlevel

unfoldable pub RecoveryFailure-discrete : Discrete RecoveryFailure
RecoveryFailure-discrete = hlevel

unfoldable pub RecoveryProof-discrete : Discrete RecoveryProof
unfolding LookupStatus-discrete
RecoveryProof-discrete = hlevel (ℕ_discrete, LookupStatus-discrete)

unfoldable pub RecoveryCapability-discrete : Discrete RecoveryCapability
RecoveryCapability-discrete = hlevel ℕ_discrete

instance abbrev pub lookup_status_eq : Equality LookupStatus
lookup_status_eq = by_decision LookupStatus-discrete

instance abbrev pub recovery_failure_eq : Equality RecoveryFailure
recovery_failure_eq = by_decision RecoveryFailure-discrete

instance abbrev pub recovery_proof_eq : Equality RecoveryProof
recovery_proof_eq = by_decision RecoveryProof-discrete

instance abbrev pub recovery_capability_eq : Equality RecoveryCapability
recovery_capability_eq = by_decision RecoveryCapability-discrete
