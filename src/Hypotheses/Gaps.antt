-- ===== src/Hypotheses/Gaps.antt =====
-- credit_harness/hypotheses/gaps.py: the questions that the Evidence leaves open.
use credit_incident_resoluti.Prelude.{
  ℕ, ◌==◌, ◌!=◌, ◌&&◌, ◌||◌, any, Bool, collect, contains, false, if◌then◌else◌, is_filled, is_none,
  keep, List, [], ◌∷◌, ◌++◌, map, nat_eq, none, not, Option, option_eq, some, sorted_by, String,
  string_eq, true,
}
use credit_incident_resoluti.Domain.{ToolName, tool_name_eq}
use credit_incident_resoluti.Evidence.Models.{ClaimType, Evidence, Value}
use credit_incident_resoluti.Hypotheses.Index.{
  all, current, EvidenceIndex, for_request, has_value, refs, request_id,
}
use credit_incident_resoluti.Hypotheses.Facts.{facts, gateway, messages, payment, settled_witness}
use credit_incident_resoluti.Hypotheses.Models.{
  collected, EvidenceGap, GapName, GapStatus, HypothesisId, HypothesisStatus, hypothesis_status_eq,
  PriorityClass, RelationKind, relation_kind_eq, RequiredClaim, uncollected, UncollectedClaimType,
}
use credit_incident_resoluti.Hypotheses.Rules
use credit_incident_resoluti.Hypotheses.Outcome.{rule_result}
use credit_incident_resoluti.Identity.Models.{identity_claim, identity_dimensions}

-- `gap(…)`: it is satisfied where a witness is given.
unfoldable pub gap :
    GapName → List HypothesisId → List RequiredClaim → List Evidence → PriorityClass → EvidenceGap
gap name hypotheses claims witness priority = record {
  name = name;
  hypothesis_ids = hypotheses;
  required_claim_types = claims;
  status = if is_filled witness then GapStatus.satisfied else GapStatus.«open»;
  priority_class = priority;
  evidence_refs = refs witness;
}

-- `if condition: gap(…)`
unfoldable pub gap_if : Bool → EvidenceGap → List EvidenceGap
gap_if true g = g ∷ []
gap_if false g = []

unfoldable pub identity_gap : EvidenceIndex → EvidenceGap
identity_gap index =
    gap GapName.payment_identity (HypothesisId.h2 ∷ HypothesisId.h3 ∷ HypothesisId.h4 ∷ [])
      (map (λ d. collected (identity_claim d)) identity_dimensions) (settled_witness index)
      PriorityClass.safety_critical

unfoldable pub payment_gap : EvidenceIndex → EvidenceGap
payment_gap index =
    gap GapName.payment_finality (HypothesisId.h2 ∷ HypothesisId.h3 ∷ HypothesisId.h4 ∷ [])
      (collected ClaimType.payment_finality ∷ [])
      (collect
        (λ value. facts index ClaimType.payment_finality (Value.word value) (ToolName.payment ∷ []))
        ("SETTLED" ∷ "NOT_EXECUTED" ∷ []))
      PriorityClass.safety_critical

unfoldable pub http_gap : EvidenceIndex → EvidenceGap
http_gap index =
    gap GapName.http_response_status (HypothesisId.h4 ∷ [])
      (collected ClaimType.http_response_status ∷ [])
      (collect (Rules.http_facts index) ("OK" ∷ "TIMEOUT" ∷ "NOT_ATTEMPTED" ∷ []))
      PriorityClass.discriminating

trace_links : EvidenceIndex → List Evidence
trace_links index =
    keep (λ e. e.metadata.fund_request_id == request_id index && not (is_none (request_id index)))
      (current index ClaimType.http_response_status)

-- The payments that name the Case's request.
request_payments : EvidenceIndex → Option String → List Evidence
request_payments index none = []
request_payments index (some ref) =
    for_request index
      (facts index ClaimType.transaction_fund_request_id (Value.word ref) (ToolName.payment ∷ []))

payment_links : EvidenceIndex → List Evidence
unfolding request_payments
payment_links index =
    Rules.or_list (request_payments index (request_id index))
      (Rules.or_list (payment index "NOT_EXECUTED") (payment index "PENDING"))

unfoldable pub association_gap : EvidenceIndex → EvidenceGap
unfolding trace_links payment_links
association_gap index =
    gap GapName.request_association (HypothesisId.h2 ∷ HypothesisId.h3 ∷ HypothesisId.h4 ∷ [])
      (uncollected UncollectedClaimType.request_association
        ∷ collected ClaimType.payment_finality
        ∷ [])
      (if is_filled (trace_links index) && is_filled (payment_links index)
        then trace_links index ++ payment_links index
        else [])
      PriorityClass.safety_critical

-- The gaps of the original request and of its payment.
unfoldable pub request_gaps : EvidenceIndex → List EvidenceGap
unfolding gap_if http_gap association_gap
request_gaps index =
    let is_asked =
      is_filled (all index ClaimType.http_response_status)
      || is_filled (all index ClaimType.payment_finality) in
    let h1 = (rule_result index HypothesisId.h1).status in
    gap_if is_asked (http_gap index)
    ++ gap_if is_asked (association_gap index)
    ++ gap_if (h1 != HypothesisStatus.confirmed && h1 != HypothesisStatus.eliminated) (
        gap GapName.trace_request_status (HypothesisId.h1 ∷ [])
          (collected ClaimType.request_sent ∷ []) [] PriorityClass.discriminating)

-- A settled payment, or a lookup of the gateway, raises the question of the callback.
unfoldable pub has_gateway_context : EvidenceIndex → Bool
has_gateway_context index =
    is_filled (settled_witness index)
    || is_filled (all index ClaimType.callback_gateway_received)
    || any (λ e. contains e.tool (ToolName.callback ∷ ToolName.callback_raw ∷ []))
        (all index ClaimType.source_lookup_status)

unfoldable pub callback_gaps : EvidenceIndex → List EvidenceGap
unfolding gap_if has_gateway_context
callback_gaps index =
    let consumption = Rules.pair_items index "FAILED" ++ Rules.pair_items index "CONSUMED" in
    let has_messages = is_filled (all index ClaimType.message_consume_status) in
    let is_reached = is_filled (gateway index) || has_messages in
    gap_if (has_gateway_context index) (
      gap GapName.callback_gateway_observation (HypothesisId.h5 ∷ HypothesisId.h6 ∷ [])
        (collected ClaimType.callback_gateway_received ∷ []) (gateway index)
        PriorityClass.discriminating)
    ++ gap_if is_reached (
        gap GapName.callback_consumption (HypothesisId.h6 ∷ [])
          (collected ClaimType.message_consume_status ∷ []) consumption
          PriorityClass.discriminating)
    ++ gap_if (is_reached && has_messages && not (is_filled consumption)) (
        gap GapName.callback_event_association (HypothesisId.h6 ∷ [])
          (uncollected UncollectedClaimType.callback_event_association ∷ []) []
          PriorityClass.discriminating)

unfoldable pub consumer_gaps : EvidenceIndex → List EvidenceGap
unfolding gap_if
consumer_gaps index =
    let mismatch = Rules.mismatch_items index in
    let is_failed = is_filled (messages index "FAILED") in
    let stale = (rule_result index HypothesisId.h6_stale_consumer_schema).status in
    gap_if is_failed (
      gap GapName.consumer_failure_details
        (HypothesisId.h6_schema_mismatch ∷ HypothesisId.h6_stale_consumer_schema ∷ [])
        (collected ClaimType.message_error_code
          ∷ collected ClaimType.message_error_field
          ∷ collected ClaimType.message_expected_field_type
          ∷ collected ClaimType.message_actual_field_type
          ∷ [])
        mismatch PriorityClass.discriminating)
    ++ gap_if (is_failed && is_filled mismatch) (
        gap GapName.deployed_consumer_schema_version (HypothesisId.h6_stale_consumer_schema ∷ [])
          (uncollected UncollectedClaimType.deployed_consumer_schema_version ∷ []) []
          PriorityClass.discriminating)
    ++ gap_if (is_failed && is_filled mismatch && stale != HypothesisStatus.supported) (
        gap GapName.callback_schema_protocol (HypothesisId.h6_stale_consumer_schema ∷ [])
          (collected ClaimType.callback_protocol_version
            ∷ collected ClaimType.protocol_field_type
            ∷ [])
          [] PriorityClass.discriminating)

-- The Evidence that decides a hypothesis, among the kinds given.
unfoldable pub decisive : EvidenceIndex → HypothesisId → List RelationKind → List Evidence
decisive index h kinds =
    let ids =
      map (λ r. r.evidence_id)
        (keep (λ r. contains r.relation kinds) (rule_result index h).relations) in
    keep (λ e. contains e.evidence_id ids) index.evidence

unfoldable pub protocol_gap : EvidenceIndex → EvidenceGap
unfolding decisive
protocol_gap index =
    gap GapName.fund_protocol_applicability (HypothesisId.h8 ∷ [])
      (uncollected UncollectedClaimType.fund_request_protocol_applicability
        ∷ collected ClaimType.protocol_business_semantics
        ∷ [])
      (if (rule_result index HypothesisId.h8).status == HypothesisStatus.confirmed
        then decisive index HypothesisId.h8 (RelationKind.decisive_support ∷ [])
        else [])
      PriorityClass.safety_critical

unfoldable pub convergence_gap : EvidenceIndex → EvidenceGap
unfolding decisive
convergence_gap index =
    gap GapName.asset_convergence (HypothesisId.h7 ∷ [])
      (collected ClaimType.guarantee_status
        ∷ collected ClaimType.asset_delivery_status
        ∷ collected ClaimType.asset_status
        ∷ [])
      (decisive index HypothesisId.h7
        (RelationKind.decisive_support ∷ RelationKind.decisive_contradiction ∷ []))
      PriorityClass.discriminating

unfoldable pub gap_rank : GapName → ℕ
gap_rank GapName.asset_convergence = 0
gap_rank GapName.callback_consumption = 1
gap_rank GapName.callback_event_association = 2
gap_rank GapName.callback_gateway_observation = 3
gap_rank GapName.callback_schema_protocol = 4
gap_rank GapName.consumer_failure_details = 5
gap_rank GapName.deployed_consumer_schema_version = 6
gap_rank GapName.fund_protocol_applicability = 7
gap_rank GapName.http_response_status = 8
gap_rank GapName.payment_finality = 9
gap_rank GapName.payment_identity = 10
gap_rank GapName.request_association = 11
gap_rank GapName.trace_request_status = 12

-- derive_gaps, in the alphabetical order of the names.
unfoldable pub derive_gaps : EvidenceIndex → List EvidenceGap
unfolding identity_gap payment_gap request_gaps callback_gaps consumer_gaps gap_if protocol_gap
    convergence_gap gap_rank
derive_gaps index =
    sorted_by (λ g. gap_rank g.name)
      (identity_gap index
        ∷ payment_gap index
        ∷ (request_gaps index
            ++ callback_gaps index
            ++ consumer_gaps index
            ++ gap_if
                (is_filled (all index ClaimType.protocol_business_semantics)
                  || has_value index ClaimType.fund_business_status (Value.word "SUCCESS"))
                (protocol_gap index)
            ++ (convergence_gap index ∷ [])))
