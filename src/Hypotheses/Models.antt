-- ===== src/Hypotheses/Models.antt =====
-- credit_harness/hypotheses/models.py and catalog.py. The statements, the questions and the reasons
-- are texts for people, and left out; a rule's id is the kind of its relation.
use credit_incident_resoluti.Prelude.{
  ℕ, by_decision, Equality, List, [], ◌∷◌, ◌++◌, map, Option, none, some,
}
use credit_incident_resoluti.Evidence.Models.{ClaimType}
use credit_incident_resoluti.Identity.Models.{PaymentIdentityResult}

pub data HypothesisId : Type 0 where
  h1 h2 h3 h4 h5 h6 h6_schema_mismatch h6_stale_consumer_schema h7 h8 : HypothesisId

pub data HypothesisStatus : Type 0 where
  unknown possible supported confirmed eliminated : HypothesisStatus

pub data RelationKind : Type 0 where
  supports contradicts decisive_support decisive_contradiction context_only : RelationKind

pub data GapStatus : Type 0 where
  «open» satisfied unavailable : GapStatus

pub data PriorityClass : Type 0 where
  safety_critical discriminating supporting : PriorityClass

pub data UncollectedClaimType : Type 0 where
  deployed_consumer_schema_version fund_request_protocol_applicability : UncollectedClaimType
  request_association callback_event_association fund_rejection_without_disbursement :
      UncollectedClaimType

unfoldable pub HypothesisId-discrete : Discrete HypothesisId
HypothesisId-discrete = hlevel

unfoldable pub HypothesisStatus-discrete : Discrete HypothesisStatus
HypothesisStatus-discrete = hlevel

unfoldable pub RelationKind-discrete : Discrete RelationKind
RelationKind-discrete = hlevel

unfoldable pub GapStatus-discrete : Discrete GapStatus
GapStatus-discrete = hlevel

instance abbrev pub hypothesis_id_eq : Equality HypothesisId
hypothesis_id_eq = by_decision HypothesisId-discrete

instance abbrev pub hypothesis_status_eq : Equality HypothesisStatus
hypothesis_status_eq = by_decision HypothesisStatus-discrete

instance abbrev pub relation_kind_eq : Equality RelationKind
relation_kind_eq = by_decision RelationKind-discrete

instance abbrev pub gap_status_eq : Equality GapStatus
gap_status_eq = by_decision GapStatus-discrete

pub record EvidenceRelation : Type 0 where
  pub hypothesis_id : HypothesisId
  pub evidence_id : ℕ
  pub relation : RelationKind

pub record RuleResult : Type 0 where
  pub hypothesis_id : HypothesisId
  pub status : HypothesisStatus
  pub relations : List EvidenceRelation

pub record HypothesisDefinition : Type 0 where
  pub hypothesis_id : HypothesisId
  pub relevant_claim_types : List ClaimType
  pub parent_hypothesis_id : Option HypothesisId

pub data RequiredClaim : Type 0 where
  collected : ClaimType → RequiredClaim
  uncollected : UncollectedClaimType → RequiredClaim

pub data GapName : Type 0 where
  asset_convergence callback_consumption callback_event_association : GapName
  callback_gateway_observation callback_schema_protocol consumer_failure_details : GapName
  deployed_consumer_schema_version fund_protocol_applicability http_response_status : GapName
  payment_finality payment_identity request_association trace_request_status : GapName

pub record EvidenceGap : Type 0 where
  pub name : GapName
  pub hypothesis_ids : List HypothesisId
  pub required_claim_types : List RequiredClaim
  pub status : GapStatus
  pub priority_class : PriorityClass
  pub evidence_refs : List ℕ

pub record HypothesisState : Type 0 where
  pub hypothesis_id : HypothesisId
  pub status : HypothesisStatus
  pub supporting_evidence_refs : List ℕ
  pub contradicting_evidence_refs : List ℕ
  pub decisive_evidence_refs : List ℕ
  pub missing_evidence : List GapName
  pub evaluated_at : ℕ

pub record HypothesisGraphView : Type 0 where
  pub case_id : ℕ
  pub evaluated_at : ℕ
  pub definitions : List HypothesisDefinition
  pub hypotheses : List HypothesisState
  pub relations : List EvidenceRelation
  pub gaps : List EvidenceGap
  pub open_gaps : List EvidenceGap
  pub confirmed : List HypothesisId
  pub supported : List HypothesisId
  pub eliminated : List HypothesisId
  pub payment_identity : PaymentIdentityResult

schema_claims : List ClaimType
schema_claims =
    ClaimType.callback_gateway_received ∷ ClaimType.message_consume_status
    ∷ ClaimType.message_error_code ∷ ClaimType.message_error_field
    ∷ ClaimType.message_expected_field_type ∷ ClaimType.message_actual_field_type ∷ []

deployment_claims : List ClaimType
deployment_claims =
    ClaimType.callback_protocol_version ∷ ClaimType.protocol_field_type
    ∷ ClaimType.consumer_deployed_schema_version ∷ ClaimType.consumer_accepted_protocol_version
    ∷ ClaimType.consumer_loan_no_field_type ∷ []

-- The claims and the parent that CATALOG gives each hypothesis.
unfoldable pub relevant_claims : HypothesisId → List ClaimType
unfolding schema_claims deployment_claims
relevant_claims HypothesisId.h1 = ClaimType.request_sent ∷ []
relevant_claims HypothesisId.h2 =
    ClaimType.fund_business_status ∷ ClaimType.payment_finality
    ∷ ClaimType.transaction_fund_request_id ∷ ClaimType.source_lookup_status ∷ []
relevant_claims HypothesisId.h3 =
    ClaimType.fund_business_status ∷ ClaimType.payment_finality
    ∷ ClaimType.transaction_fund_request_id ∷ []
relevant_claims HypothesisId.h4 =
    ClaimType.http_response_status ∷ ClaimType.payment_finality
    ∷ ClaimType.transaction_fund_request_id ∷ []
relevant_claims HypothesisId.h5 =
    ClaimType.source_lookup_status ∷ ClaimType.callback_gateway_received ∷ []
relevant_claims HypothesisId.h6 =
    ClaimType.callback_gateway_received ∷ ClaimType.callback_signature_verified
    ∷ ClaimType.message_consume_status ∷ []
relevant_claims HypothesisId.h6_schema_mismatch = schema_claims
relevant_claims HypothesisId.h6_stale_consumer_schema = schema_claims ++ deployment_claims
relevant_claims HypothesisId.h7 =
    ClaimType.guarantee_status ∷ ClaimType.asset_delivery_status
    ∷ ClaimType.asset_delivery_event_ref ∷ ClaimType.asset_status ∷ []
relevant_claims HypothesisId.h8 =
    ClaimType.protocol_business_semantics ∷ ClaimType.guarantee_status ∷ []

unfoldable pub parent_of : HypothesisId → Option HypothesisId
parent_of HypothesisId.h6_schema_mismatch = some HypothesisId.h6
parent_of HypothesisId.h6_stale_consumer_schema = some HypothesisId.h6
parent_of _ = none

unfoldable pub definition : HypothesisId → HypothesisDefinition
unfolding relevant_claims parent_of
definition h = record {
  hypothesis_id = h;
  relevant_claim_types = relevant_claims h;
  parent_hypothesis_id = parent_of h;
}

abbrev pub hypothesis_ids : List HypothesisId
hypothesis_ids =
    HypothesisId.h1 ∷ HypothesisId.h2 ∷ HypothesisId.h3 ∷ HypothesisId.h4 ∷ HypothesisId.h5
    ∷ HypothesisId.h6 ∷ HypothesisId.h6_schema_mismatch ∷ HypothesisId.h6_stale_consumer_schema
    ∷ HypothesisId.h7 ∷ HypothesisId.h8 ∷ []

unfoldable pub catalog : List HypothesisDefinition
unfolding definition
catalog = map definition hypothesis_ids
