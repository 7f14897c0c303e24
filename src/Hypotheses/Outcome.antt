-- ===== src/Hypotheses/Outcome.antt =====
-- evaluate_rules of credit_harness/hypotheses/rules.py, continued: the consumer's schema, and the
-- findings of every hypothesis.
use credit_incident_resoluti.Prelude.{
  ◌==◌, ◌!=◌, ◌&&◌, before_version, Bool, collect, false, if◌then◌else◌, is_filled, keep, List, [],
  ◌∷◌, ◌++◌, map, nat_eq, none, Option, ℕ, ltb, option_eq, some, String, string_eq, true,
}
use credit_incident_resoluti.Domain.{tool_name_eq}
use credit_incident_resoluti.Evidence.Models.{ClaimType, claim_type_eq, Evidence, Value, value_eq}
use credit_incident_resoluti.Hypotheses.Index.{current, EvidenceIndex}
use credit_incident_resoluti.Hypotheses.Models.{HypothesisId, hypothesis_ids, RuleResult}
use credit_incident_resoluti.Hypotheses.Facts.{
  callback_pairs, gateway, members, messages, MismatchGroup, mismatch_groups, payment,
  settled_witness,
}
use credit_incident_resoluti.Hypotheses.Rules
use credit_incident_resoluti.Hypotheses.Rules.{both_filled, of_support}

-- The messages' gateway receipts, with the message.
unfoldable pub parent_witness : EvidenceIndex → MismatchGroup → List Evidence
parent_witness index group =
    collect (λ pair. pair.0 ∷ pair.1 ∷ [])
      (keep (λ pair. pair.1.evidence_id == group.failed.evidence_id)
        (callback_pairs index "FAILED"))

-- The version that a document stands for, as a value.
version_value : Option String → Option Value
version_value none = none
version_value (some version) = some (Value.word version)

first_value : List Evidence → Option Value
first_value [] = none
first_value (e ∷ rest) = some e.value

is_earlier : Option ℕ → Option ℕ → Bool
is_earlier (some a) (some b) = ltb a b
is_earlier _ _ = false

unfoldable pub field_documents : EvidenceIndex → Option Value → List Evidence
field_documents index value =
    keep (λ e. e.subject.field == some "loanNo" && some e.value == value)
      (current index ClaimType.protocol_field_type)

unfoldable pub older_documents : EvidenceIndex → Option Value → Evidence → List Evidence
unfolding is_earlier field_documents
older_documents index value doc =
    keep
      (λ e.
        before_version e.subject.identifier == before_version doc.subject.identifier
        && e.protocol_version != doc.protocol_version
        && is_earlier e.event_time doc.event_time)
      (field_documents index value)

-- What one document of the callback's version adds, where an older one expects the other type.
stale_document : EvidenceIndex → MismatchGroup → Evidence → Evidence → List Evidence
unfolding older_documents first_value parent_witness
stale_document index group version doc =
    let older = older_documents index (first_value group.expected) doc in
    if is_filled older
    then parent_witness index group ++ members group ++ (version ∷ doc ∷ older)
    else []

stale_version : EvidenceIndex → MismatchGroup → Evidence → List Evidence
unfolding stale_document version_value field_documents first_value
stale_version index group version = collect (stale_document index group version) (
    keep (λ e. version_value e.protocol_version == some version.value)
      (field_documents index (first_value group.actual)))

unfoldable pub stale_group : EvidenceIndex → MismatchGroup → List Evidence
unfolding stale_version parent_witness
stale_group index group =
    if is_filled (parent_witness index group)
    then collect (stale_version index group) (
        keep (λ e. some e.subject.identifier == group.failed.metadata.callback_event_id)
          (current index ClaimType.callback_protocol_version))
    else []

unfoldable pub stale_support : EvidenceIndex → List Evidence
unfolding stale_group
stale_support index = collect (stale_group index) (mismatch_groups index)

-- The arguments that each hypothesis is decided by.
unfoldable pub findings : EvidenceIndex → HypothesisId → Rules.Findings
unfolding of_support both_filled
findings index HypothesisId.h1 = of_support [] (Rules.sent index false) (Rules.sent index true)
findings index HypothesisId.h2 = of_support [] [] (
    settled_witness index
    ++ Rules.fund_facts index "PROCESSING"
    ++ Rules.fund_facts index "SUCCESS"
    ++ Rules.fund_facts index "FAILED")
findings index HypothesisId.h3 =
    of_support (Rules.fund_facts index "FAILED") [] (settled_witness index)
findings index HypothesisId.h4 =
    of_support (Rules.timeouts index ++ payment index "SETTLED")
      (both_filled (Rules.timeouts index) (settled_witness index)
        (Rules.timeouts index ++ settled_witness index))
      (Rules.http_facts index "OK")
findings index HypothesisId.h5 = of_support (Rules.absent_callbacks index) [] (gateway index)
findings index HypothesisId.h6 =
    of_support (gateway index ++ messages index "FAILED") (Rules.pair_items index "FAILED") (
      if is_filled (Rules.pair_items index "FAILED") then [] else Rules.pair_items index "CONSUMED")
findings index HypothesisId.h6_schema_mismatch =
    of_support (Rules.or_list (Rules.mismatch_items index) (messages index "FAILED"))
      (Rules.schema_witness index) []
findings index HypothesisId.h6_stale_consumer_schema = of_support (stale_support index) [] []
findings index HypothesisId.h7 =
    of_support (Rules.applied index ++ Rules.delivery_failed index)
      (if is_filled (Rules.applied index)
          && is_filled (Rules.delivery_failed index)
          && is_filled (Rules.asset_facts index "PROCESSING")
        then Rules.applied index
          ++ Rules.delivery_failed index
          ++ Rules.asset_facts index "PROCESSING"
        else [])
      (Rules.asset_facts index "SUCCESS")
findings index HypothesisId.h8 = of_support (Rules.semantics index) (Rules.applicable index) []

unfoldable pub rule_result : EvidenceIndex → HypothesisId → RuleResult
unfolding findings
rule_result index h = Rules.decide index h (findings index h)

unfoldable pub evaluate_rules : EvidenceIndex → List RuleResult
unfolding rule_result
evaluate_rules index = map (rule_result index) hypothesis_ids
