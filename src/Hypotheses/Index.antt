-- ===== src/Hypotheses/Index.antt =====
-- credit_harness/hypotheses/index.py: the Evidence of one Case, and what of it is current.
use credit_incident_resoluti.Prelude.{
  ℕ, max, ◌==◌, ◌!=◌, ◌&&◌, ◌||◌, any, Bool, collect, contains, distinct, every, Equality,
  if◌then◌else◌, insert, is_filled, is_none, keep, leb, List, [], ◌∷◌, lookup, map, nat_eq, none,
  not, Option, option_eq, or_else, some, sole, sorted_by, String, String-discrete, ℕ_discrete,
  by_decision, ◌⊎◌, inl, inr, string_eq, Table,
}
use credit_incident_resoluti.Domain.{ToolName, tool_name_eq}
use credit_incident_resoluti.Evidence.Models.{
  Case, ClaimType, claim_type_eq, Completeness, completeness_eq, Evidence, evidence_eq, Freshness,
  freshness_eq, SourceKind, source_kind_eq, SubjectKind, SubjectKind-discrete, subject_kind_eq,
  tool_query_eq, Value, value_eq,
}

pub record Dimension : Type 0 where
  pub kind : SubjectKind
  pub identifier : String
  pub internal_order_id : ℕ
  pub field : Option String
  pub protocol_version : Option String

unfoldable pub Dimension-discrete : Discrete Dimension
Dimension-discrete = hlevel (ℕ_discrete, String-discrete, SubjectKind-discrete)

instance abbrev pub dimension_eq : Equality Dimension
dimension_eq = by_decision Dimension-discrete

unfoldable pub dimension : Evidence → Dimension
dimension e = record {
  kind = e.subject.kind;
  identifier = e.subject.identifier;
  internal_order_id = e.subject.internal_order_id;
  field = e.subject.field;
  protocol_version = if e.tool == ToolName.protocol then e.protocol_version else none;
}

unfoldable pub business_time : Evidence → ℕ
business_time e = or_else e.event_time (or_else e.source_as_of e.observed_at)

pub record EvidenceIndex : Type 0 where
  pub case : Case
  pub evidence : List Evidence

pub data IndexError : Type 0 where
  out_of_scope conflicting_contents invalid_provenance : IndexError

-- The check of one item by the constructor, as the ValueError that it raises.
unfoldable pub rejects : Case → Evidence → Table Evidence → Option IndexError
rejects case e by_id =
    if e.case_id != case.case_id
      || e.subject.internal_order_id != case.internal_order_id
      || e.metadata.scope.internal_order_id != case.internal_order_id
      || not (contains e.tool case.allowed_tools)
    then some IndexError.out_of_scope
    else if not (is_none (lookup e.evidence_id by_id)) && lookup e.evidence_id by_id != some e
    then some IndexError.conflicting_contents
    else if e.raw_ref != some e.observation_id
    then some IndexError.invalid_provenance
    else none

unfoldable pub collected : Case → List Evidence → Table Evidence → IndexError ⊎ Table Evidence
unfolding rejects
collected case [] by_id = inr by_id
collected case (e ∷ rest) by_id = elim (rejects case e by_id) [
  | some error ↦ inl error
  | none ↦ collected case rest (insert e.evidence_id e by_id)
]

-- EvidenceIndex(case, evidence): the types are checked by the model's own, and the validation of
-- the Case and of each item again by theirs.
unfoldable pub evidence_index : Case → List Evidence → IndexError ⊎ EvidenceIndex
unfolding collected
evidence_index case evidence = elim (collected case evidence []) [
  | inl error ↦ inl error
  | inr by_id ↦ inr (record {
    case = case;
    evidence = sorted_by (λ e. e.evidence_id) (map (λ entry. entry.1) by_id);
  })
]

unfoldable pub all : EvidenceIndex → ClaimType → List Evidence
all index claim = keep (λ e. e.claim_type == claim) index.evidence

-- e is of the latest business time of its dimension among the items.
unfoldable pub is_latest : List Evidence → Evidence → Bool
unfolding dimension business_time
is_latest items e =
    every (λ other. leb (business_time other) (business_time e))
      (keep (λ other. dimension other == dimension e) items)

unfoldable pub latest : List Evidence → List Evidence
unfolding is_latest
latest items = sorted_by (λ e. e.evidence_id) (keep (is_latest items) items)

-- A lookup of the same query failed at the item's observation or later.
unfoldable pub is_superseded : EvidenceIndex → Evidence → Bool
unfolding all
is_superseded index e =
    any
      (λ l.
        l.tool == e.tool && l.metadata.scope == e.metadata.scope && leb e.observed_at l.observed_at)
      (all index ClaimType.source_lookup_status)

unfoldable pub is_eligible : EvidenceIndex → Evidence → Bool
unfolding is_superseded
is_eligible index e =
    e.freshness == Freshness.current
    && e.completeness == Completeness.complete
    && not (is_none e.source_as_of)
    && not (is_superseded index e)

unfoldable pub current : EvidenceIndex → ClaimType → List Evidence
unfolding all is_eligible latest
current index claim = latest (keep (is_eligible index) (all index claim))

-- Every current item of e's dimension has the value.
unfoldable pub is_undisputed : List Evidence → Value → Evidence → Bool
unfolding dimension
is_undisputed items value e =
    every (λ other. other.value == value) (keep (λ other. dimension other == dimension e) items)

unfoldable pub agreed : EvidenceIndex → ClaimType → Value → List Evidence
unfolding current is_undisputed
agreed index claim value =
    let items = current index claim in
    keep (λ e. e.value == value && is_undisputed items value e) items

unfoldable pub has_value : EvidenceIndex → ClaimType → Value → Bool
unfolding agreed
has_value index claim value = is_filled (agreed index claim value)

-- EvidenceIndex.refs: the ids of the items, each once, in order.
unfoldable pub refs : List Evidence → List ℕ
refs items = sorted_by (λ ref. ref) (distinct (map (λ e. e.evidence_id) items))

latest_observation : ℕ → List Evidence → ℕ
latest_observation t [] = t
latest_observation t (e ∷ []) = e.observed_at
latest_observation t (e ∷ rest) = max e.observed_at (latest_observation t rest)

-- The latest observation, as the instant that the whole projection is evaluated at.
unfoldable pub evaluated_at : EvidenceIndex → ℕ
unfolding latest_observation
evaluated_at index = latest_observation index.case.created_at index.evidence

-- A text that may be missing or empty, both of which are false.
unfoldable pub named : Option String → List String
named none = []
named (some text) = if text == "" then [] else text ∷ []

-- The requests that primary trace and guarantee facts name.
unfoldable pub request_anchors : EvidenceIndex → List String
unfolding current named
request_anchors index =
    collect
      (λ e.
        if e.source_kind == SourceKind.primary
          && contains e.tool (ToolName.trace ∷ ToolName.guarantee ∷ [])
        then named e.metadata.fund_request_id
        else [])
      (collect (current index)
        (ClaimType.request_sent ∷ ClaimType.http_response_status ∷ ClaimType.guarantee_status ∷ []))

unfoldable pub fund_anchors : EvidenceIndex → List String
unfolding current
fund_anchors index =
    map (λ e. e.subject.identifier)
      (keep
        (λ e.
          e.subject.kind == SubjectKind.fund_request
          && e.tool == ToolName.fund
          && e.source_kind == SourceKind.primary)
        (current index ClaimType.fund_business_status))

-- EvidenceIndex.request_id: the request that every anchor names.
unfoldable pub request_id : EvidenceIndex → Option String
unfolding request_anchors fund_anchors
request_id index =
    let anchors = request_anchors index in
    sole (distinct (if is_filled anchors then anchors else fund_anchors index))

-- `e.metadata.fund_request_id or e.subject.identifier`
unfoldable pub request_of : Evidence → String
unfolding named
request_of e = or_else (sole (named e.metadata.fund_request_id)) e.subject.identifier

unfoldable pub for_request : EvidenceIndex → List Evidence → List Evidence
unfolding request_id request_of
for_request index items = keep (λ e. some (request_of e) == request_id index) items
