-- ===== src/Hypotheses/Rules.antt =====
-- evaluate_rules of credit_harness/hypotheses/rules.py: the status of each hypothesis and the
-- relation of the Evidence to it.
use credit_incident_resoluti.Prelude.{
  ◌==◌, ◌&&◌, Bool, collect, contains, distinct, insert, if◌then◌else◌, is_filled, is_none, keep,
  List, [], ◌∷◌, ◌++◌, map, nat_eq, not, Option, option_eq, some, sole, sorted_by, String,
  string_eq, Table,
}
use credit_incident_resoluti.Domain.{CaseStatus, case_status_eq, ToolName, tool_name_eq}
use credit_incident_resoluti.Evidence.Models.{
  ClaimType, claim_type_eq, Evidence, evidence_subject_eq, source_kind_eq, Value, value_eq,
}
use credit_incident_resoluti.Hypotheses.Index.{all, current, EvidenceIndex, for_request, request_id}
use credit_incident_resoluti.Hypotheses.Models.{
  EvidenceRelation, HypothesisId, HypothesisStatus, RelationKind, RuleResult, relevant_claims,
}
use credit_incident_resoluti.Hypotheses.Facts.{
  callback_pairs, facts, members, mismatch_groups, protocol_bindings,
}

pub record Findings : Type 0 where
  pub support : List Evidence
  pub confirm : List Evidence
  pub eliminate : List Evidence
  pub contradict : List Evidence

-- Facts that confirm and facts that eliminate decide nothing together.
unfoldable pub reconciled : Findings → Findings
reconciled f =
    if is_filled f.confirm && is_filled f.eliminate
    then record {
      support = f.support ++ f.confirm;
      confirm = [];
      eliminate = [];
      contradict = f.contradict ++ f.eliminate;
    }
    else f

unfoldable pub status_of : CaseStatus → Findings → HypothesisStatus
status_of case_status f =
    if is_filled f.confirm && is_filled f.eliminate
    then HypothesisStatus.supported
    else if is_filled f.confirm
    then HypothesisStatus.confirmed
    else if is_filled f.eliminate
    then HypothesisStatus.eliminated
    else if is_filled f.support
    then HypothesisStatus.supported
    else if case_status == CaseStatus.investigating
    then HypothesisStatus.possible
    else HypothesisStatus.unknown

unfoldable pub relate :
    HypothesisId → RelationKind → List Evidence → Table EvidenceRelation → Table EvidenceRelation
relate h kind [] relations = relations
relate h kind (e ∷ items) relations = relate h kind items (
    insert e.evidence_id
      (record { hypothesis_id = h; evidence_id = e.evidence_id; relation = kind }) relations)

unfoldable pub relations_of : EvidenceIndex → HypothesisId → Findings → Table EvidenceRelation
unfolding relate
relations_of index h f = relate h RelationKind.decisive_contradiction f.eliminate (
    relate h RelationKind.decisive_support f.confirm (
      relate h RelationKind.contradicts f.contradict (
        relate h RelationKind.supports f.support
          (relate h RelationKind.context_only (collect (all index) (relevant_claims h)) []))))

unfoldable pub decide : EvidenceIndex → HypothesisId → Findings → RuleResult
unfolding reconciled status_of relations_of
decide index h f = record {
  hypothesis_id = h;
  status = status_of index.case.status f;
  relations =
      map (λ entry. entry.1) (sorted_by (λ entry. entry.0) (relations_of index h (reconciled f)));
}

unfoldable pub of_support : List Evidence → List Evidence → List Evidence → Findings
of_support support confirm eliminate = record {
  support = support;
  confirm = confirm;
  eliminate = eliminate;
  contradict = [];
}

-- `witness if all of the parts else ()`
unfoldable pub both_filled : List Evidence → List Evidence → List Evidence → List Evidence
both_filled a b witness = if is_filled a && is_filled b then witness else []

unfoldable pub fund_facts : EvidenceIndex → String → List Evidence
fund_facts index value =
    for_request index
      (facts index ClaimType.fund_business_status (Value.word value) (ToolName.fund ∷ []))

unfoldable pub http_facts : EvidenceIndex → String → List Evidence
http_facts index value =
    for_request index
      (facts index ClaimType.http_response_status (Value.word value) (ToolName.trace ∷ []))

unfoldable pub sent : EvidenceIndex → Bool → List Evidence
sent index value = facts index ClaimType.request_sent (Value.flag value) (ToolName.trace ∷ [])

-- An explicit link of the trace to the request.
unfoldable pub timeouts : EvidenceIndex → List Evidence
unfolding http_facts
timeouts index =
    keep (λ e. e.metadata.fund_request_id == request_id index) (http_facts index "TIMEOUT")

unfoldable pub absent_callbacks : EvidenceIndex → List Evidence
absent_callbacks index =
    keep
      (λ e.
        contains e.tool (ToolName.callback ∷ ToolName.callback_raw ∷ [])
        && e.value == Value.word "NOT_FOUND")
      (all index ClaimType.source_lookup_status)

unfoldable pub pair_items : EvidenceIndex → String → List Evidence
pair_items index value = collect (λ pair. pair.0 ∷ pair.1 ∷ []) (callback_pairs index value)

-- The gateway receipts that a failed message of a mismatch answers, with the mismatch.
unfoldable pub schema_witness : EvidenceIndex → List Evidence
schema_witness index =
    collect
      (λ group.
        collect
          (λ pair.
            if group.failed.evidence_id == pair.1.evidence_id then pair.0 ∷ members group else [])
          (callback_pairs index "FAILED"))
      (mismatch_groups index)

unfoldable pub mismatch_items : EvidenceIndex → List Evidence
mismatch_items index = collect members (mismatch_groups index)

unfoldable pub or_list : List Evidence → List Evidence → List Evidence
or_list xs ys = if is_filled xs then xs else ys

unfoldable pub asset_facts : EvidenceIndex → String → List Evidence
asset_facts index value =
    facts index ClaimType.asset_status (Value.word value) (ToolName.asset ∷ [])

unfoldable pub applied : EvidenceIndex → List Evidence
applied index =
    facts index ClaimType.guarantee_status (Value.word "SUCCESS") (ToolName.guarantee ∷ [])

unfoldable pub delivery_failed : EvidenceIndex → List Evidence
delivery_failed index =
    facts index ClaimType.asset_delivery_status (Value.word "FAILED") (ToolName.asset_delivery ∷ [])

unfoldable pub semantics : EvidenceIndex → List Evidence
semantics index =
    keep (λ e. e.subject.field == some "SUCCESS")
      (facts index ClaimType.protocol_business_semantics
        (Value.word "LOAN_CREATED_PAYMENT_SEPARATE") (ToolName.protocol ∷ []))

-- All current SUCCESS documents of a version, not those alone that agree with the guard.
candidates : EvidenceIndex → Option String → List Evidence
candidates index version =
    keep
      (λ e.
        e.tool == ToolName.protocol
        && e.subject.field == some "SUCCESS"
        && e.protocol_version == version)
      (current index ClaimType.protocol_business_semantics)

unfoldable pub applicable_to : EvidenceIndex → Evidence → List Evidence
unfolding candidates semantics
applicable_to index binding =
    let docs = keep (λ e. e.protocol_version == binding.protocol_version) (semantics index) in
    let partners =
      distinct (map (λ e. e.subject.identifier) (candidates index binding.protocol_version)) in
    if is_filled docs && not (is_none (sole partners)) then binding ∷ docs else []

unfoldable pub applicable : EvidenceIndex → List Evidence
unfolding applicable_to
applicable index =
    let bindings = protocol_bindings index in
    let versions = distinct (map (λ e. e.protocol_version) bindings) in
    if is_none (sole versions) then [] else collect (applicable_to index) bindings
