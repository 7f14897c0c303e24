-- ===== src/Hypotheses/Execute.antt =====
-- Computes what the rules give for concrete Evidence.
use credit_incident_resoluti.Prelude.{
  ℕ_discrete, keep, any, every, is_filled, distinct, sorted_by, collect, before_last_at,
  before_version, String-discrete, lookup, insert, Bool-cases,
}
use credit_incident_resoluti.Domain.{
  is_terminal, is_recoverable, is_lookup_only, CaseStatus-discrete, EffectStatus-discrete,
  ActionType-discrete, RiskLevel-discrete, ToolName-discrete, VerificationRequirement-discrete,
}
use credit_incident_resoluti.Evidence.Models.{
  ClaimType-discrete, SourceKind-discrete, Completeness-discrete, Freshness-discrete,
  SubjectKind-discrete, Value-discrete, EvidenceSubject-discrete, ToolQuery-discrete,
  EvidenceMetadata-discrete, Evidence-discrete,
}
use credit_incident_resoluti.Identity.Models.{
  IdentityMatch-discrete, IdentityDimension-discrete, identity_claim, GroupKey-discrete,
  Snapshot-discrete,
}
use credit_incident_resoluti.Hypotheses.Models.{
  HypothesisId-discrete, HypothesisStatus-discrete, RelationKind-discrete, GapStatus-discrete,
  relevant_claims, parent_of, definition, catalog,
}
use credit_incident_resoluti.Hypotheses.Index.{
  Dimension-discrete, dimension, business_time, rejects, collected, evidence_index, all, is_latest,
  latest, is_superseded, is_eligible, current, is_undisputed, agreed, has_value, refs, evaluated_at,
  named, request_anchors, fund_anchors, request_id, request_of, for_request,
}
use credit_incident_resoluti.Identity.Payment.{
  group_key, is_payment_fact, payment_facts, all_payment_facts, anchors, expected, sole_value,
  is_coherent, compared, compare_dimension, is_mismatch, is_unknown, verdict, payment_witness,
  payment_witnesses, unwitnessed, transactions_of, ambiguous, unknowns_of, dimension_rank,
  verify_payment_identity,
}
use credit_incident_resoluti.Hypotheses.Facts.{
  facts, payment, settled_witness, gateway, messages, is_callback_pair, callback_pairs, read_with,
  read_group, is_mismatch_group, mismatch_groups, members, protocol_bindings,
}
use credit_incident_resoluti.Hypotheses.Rules.{
  reconciled, status_of, relate, relations_of, decide, of_support, both_filled, fund_facts,
  http_facts, sent, timeouts, absent_callbacks, pair_items, schema_witness, mismatch_items, or_list,
  asset_facts, applied, delivery_failed, semantics, applicable_to, applicable,
}
use credit_incident_resoluti.Hypotheses.Outcome.{
  parent_witness, field_documents, older_documents, stale_group, stale_support, findings,
  rule_result, evaluate_rules,
}
use credit_incident_resoluti.Hypotheses.Gaps.{
  gap, gap_if, identity_gap, payment_gap, http_gap, association_gap, request_gaps,
  has_gateway_context, callback_gaps, consumer_gaps, decisive, protocol_gap, convergence_gap,
  gap_rank, derive_gaps,
}
use credit_incident_resoluti.Hypotheses.Engine.{
  hypothesis_state, graph_of, is_complete, definition_error, first_error, validate, evaluate,
}

unfoldable pub computed {ℓ} : {A : Type ℓ} → A → A
unfolding keep any every is_filled distinct sorted_by collect before_last_at before_version
    String-discrete lookup insert Bool-cases is_terminal is_recoverable is_lookup_only
    CaseStatus-discrete EffectStatus-discrete ActionType-discrete RiskLevel-discrete
    ToolName-discrete VerificationRequirement-discrete ClaimType-discrete SourceKind-discrete
    Completeness-discrete Freshness-discrete SubjectKind-discrete Value-discrete
    EvidenceSubject-discrete ToolQuery-discrete EvidenceMetadata-discrete Evidence-discrete
    IdentityMatch-discrete IdentityDimension-discrete identity_claim GroupKey-discrete
    Snapshot-discrete HypothesisId-discrete HypothesisStatus-discrete RelationKind-discrete
    GapStatus-discrete relevant_claims parent_of definition catalog Dimension-discrete dimension
    business_time rejects collected evidence_index all is_latest latest is_superseded is_eligible
    current is_undisputed agreed has_value refs evaluated_at named request_anchors fund_anchors
    request_id request_of for_request group_key is_payment_fact payment_facts all_payment_facts
    anchors expected sole_value is_coherent compared compare_dimension is_mismatch is_unknown
    verdict payment_witness payment_witnesses unwitnessed transactions_of ambiguous unknowns_of
    dimension_rank verify_payment_identity facts payment settled_witness gateway messages
    is_callback_pair callback_pairs read_with read_group is_mismatch_group mismatch_groups members
    protocol_bindings reconciled status_of relate relations_of decide of_support both_filled
    fund_facts http_facts sent timeouts absent_callbacks pair_items schema_witness mismatch_items
    or_list asset_facts applied delivery_failed semantics applicable_to applicable parent_witness
    field_documents older_documents stale_group stale_support findings rule_result evaluate_rules
    gap gap_if identity_gap payment_gap http_gap association_gap request_gaps has_gateway_context
    callback_gaps consumer_gaps decisive protocol_gap convergence_gap gap_rank derive_gaps
    hypothesis_state graph_of is_complete definition_error first_error validate evaluate ℕ_discrete
computed a = a
