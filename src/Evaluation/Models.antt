-- ===== src/Evaluation/Models.antt =====
-- credit_harness/evaluation/models.py and contract.py, and the state that snapshot.py reads.
use credit_incident_resoluti.Prelude.{
  ℕ, Bool, true, false, by_decision, Equality, List, [], ◌∷◌, Option, some, String,
}
use credit_incident_resoluti.Domain.{VerificationRequirement}
use credit_incident_resoluti.Authorization.Models.{RemediationTarget, SideEffectLedger}
use credit_incident_resoluti.Evidence.Models.{Case, ClaimType, Evidence, Value}
use credit_incident_resoluti.Hypotheses.Index.{EvidenceIndex}
use credit_incident_resoluti.Hypotheses.Models.{EvidenceGap, GapName, HypothesisGraphView}

pub data EvaluationVerdict : Type 0 where
  pass fail inconclusive : EvaluationVerdict

pub data DimensionStatus : Type 0 where
  pass fail inconclusive not_applicable : DimensionStatus

pub data EvaluationDimension : Type 0 where
  money identity state_convergence side_effect : EvaluationDimension
  evidence_sufficiency policy recovery outcome : EvaluationDimension

pub data OutcomePath : Type 0 where
  settled_path no_disbursement_path : OutcomePath

pub data EvaluationReason : Type 0 where
  payment_finality_unknown payment_identity_unknown payment_identity_mismatch : EvaluationReason
  money_state_contradiction request_association_unknown fund_not_converged : EvaluationReason
  guarantee_not_converged asset_not_converged accounting_not_converged : EvaluationReason
  callback_not_consumed delivery_not_delivered post_effect_evidence_missing : EvaluationReason
  open_safety_critical_gap unresolved_side_effect recovery_unresolved : EvaluationReason
  evidence_stale evidence_incomplete provenance_invalid pending_read_dispatch : EvaluationReason
  policy_violation forbidden_effect_observed business_outcome_not_converged : EvaluationReason
  convergence_window_open closure_invariant_violation : EvaluationReason

unfoldable pub DimensionStatus-discrete : Discrete DimensionStatus
DimensionStatus-discrete = hlevel

instance abbrev pub dimension_status_eq : Equality DimensionStatus
dimension_status_eq = by_decision DimensionStatus-discrete

unfoldable pub EvaluationDimension-discrete : Discrete EvaluationDimension
EvaluationDimension-discrete = hlevel

instance abbrev pub evaluation_dimension_eq : Equality EvaluationDimension
evaluation_dimension_eq = by_decision EvaluationDimension-discrete

unfoldable pub OutcomePath-discrete : Discrete OutcomePath
OutcomePath-discrete = hlevel

instance abbrev pub outcome_path_eq : Equality OutcomePath
outcome_path_eq = by_decision OutcomePath-discrete

-- What `check` records: an EvaluationDimensionResult of one finding, and the requirement that stays
-- unresolved where it is not satisfied.
pub record Check : Type 0 where
  pub status : DimensionStatus
  pub reason : Option EvaluationReason
  pub evidence_refs : List ℕ
  pub effect_refs : List ℕ
  pub claims : List ClaimType
  pub requirement : Option VerificationRequirement

pub record EvaluationDimensionResult : Type 0 where
  pub dimension : EvaluationDimension
  pub status : DimensionStatus
  pub checks : List Check

pub record BoundEffect : Type 0 where
  pub ledger : SideEffectLedger
  pub target : RemediationTarget

-- EvaluationState. `all_evidence` is the verified read, and `text_of` the text of an identifier
-- that the ledger's records number.
pub record EvaluationState : Type 0 where
  pub case : Case
  pub all_evidence : List Evidence
  pub provenance_valid : Bool
  pub latest : List Evidence
  pub index : EvidenceIndex
  pub graph : HypothesisGraphView
  pub effects : List BoundEffect
  pub policy_invalid : Bool
  pub recovery_unresolved : Bool
  pub pending_reads : Bool
  pub in_grace : Bool
  pub text_of : ℕ → String

pub record EvaluationPolicy : Type 0 where
  pub required_dimensions : List EvaluationDimension
  pub evidence_max_age_seconds : ℕ
  pub convergence_grace_seconds : ℕ

-- CreditGuaranteeDisbursementVerificationContractV1
pub record VerificationContract : Type 0 where
  pub settled_state : String
  pub no_disbursement_state : String
  pub settled_requires_callback : Bool
  pub settled_requires_delivery : Bool

unfoldable pub is_identity_gap : GapName → Bool
is_identity_gap GapName.payment_identity = true
is_identity_gap _ = false

unfoldable pub exempt_gap : EvidenceGap → Option OutcomePath → Bool
unfolding is_identity_gap
exempt_gap gap (some OutcomePath.no_disbursement_path) = is_identity_gap gap.name
exempt_gap gap _ = false

pub record Expectation : Type 0 where
  pub claim : ClaimType
  pub value : Value
  pub reason : EvaluationReason
  pub requirement : VerificationRequirement

unfoldable pub expected_state : VerificationContract → OutcomePath → String
expected_state contract OutcomePath.settled_path = contract.settled_state
expected_state contract OutcomePath.no_disbursement_path = contract.no_disbursement_state

unfoldable pub is_settled : OutcomePath → Bool
is_settled OutcomePath.settled_path = true
is_settled OutcomePath.no_disbursement_path = false

-- `state_expectations`, with the reason and the requirement of `state_rules`.
unfoldable pub state_expectations : VerificationContract → OutcomePath → List Expectation
unfolding expected_state is_settled
state_expectations contract path =
    record {
      claim = ClaimType.fund_business_status;
      value = Value.word (expected_state contract path);
      reason = EvaluationReason.fund_not_converged;
      requirement = VerificationRequirement.fund_final_state;
    }
    ∷ record {
      claim = ClaimType.guarantee_status;
      value = Value.word (expected_state contract path);
      reason = EvaluationReason.guarantee_not_converged;
      requirement = VerificationRequirement.guarantee_final_state;
    }
    ∷ record {
      claim = ClaimType.asset_status;
      value = Value.word (expected_state contract path);
      reason = EvaluationReason.asset_not_converged;
      requirement = VerificationRequirement.asset_final_state;
    }
    ∷ record {
      claim = ClaimType.accounting_entry_present;
      value = Value.flag (is_settled path);
      reason = EvaluationReason.accounting_not_converged;
      requirement = VerificationRequirement.accounting_entry;
    }
    ∷ []
