-- ===== src/Hypotheses/Engine.antt =====
-- credit_harness/hypotheses/engine.py and invariants.py: the graph of a Case, and the check that the
-- engine makes of it before it is returned. The digest of the input is left out.
use credit_incident_resoluti.Prelude.{
  ℕ, ◌==◌, ◌!=◌, ◌&&◌, ◌⊎◌, Bool, collect, contains, every, false, if◌then◌else◌, inl, inr, is_none,
  keep, List, [], ◌∷◌, map, nat_eq, none, not, Option, option_eq, some, sorted_by, suc, true, zero,
}
use credit_incident_resoluti.Evidence.Models.{Case, Evidence}
use credit_incident_resoluti.Hypotheses.Index.{
  evaluated_at, evidence_index, EvidenceIndex, IndexError,
}
use credit_incident_resoluti.Hypotheses.Models.{
  catalog, EvidenceGap, GapStatus, gap_status_eq, HypothesisDefinition, HypothesisGraphView,
  HypothesisId, hypothesis_id_eq, HypothesisState, HypothesisStatus, hypothesis_status_eq,
  RelationKind, relation_kind_eq, RuleResult,
}
use credit_incident_resoluti.Hypotheses.Outcome.{evaluate_rules}
use credit_incident_resoluti.Hypotheses.Gaps.{derive_gaps}
use credit_incident_resoluti.Identity.Payment.{verify_payment_identity}

related : RuleResult → List RelationKind → List ℕ
related result kinds =
    sorted_by (λ ref. ref)
      (map (λ r. r.evidence_id) (keep (λ r. contains r.relation kinds) result.relations))

is_missing : RuleResult → EvidenceGap → Bool
is_missing result g =
    g.status == GapStatus.«open»
    && contains result.hypothesis_id g.hypothesis_ids
    && result.status != HypothesisStatus.confirmed
    && result.status != HypothesisStatus.eliminated

unfoldable pub hypothesis_state : EvidenceIndex → List EvidenceGap → RuleResult → HypothesisState
unfolding related is_missing
hypothesis_state index gaps result = record {
  hypothesis_id = result.hypothesis_id;
  status = result.status;
  supporting_evidence_refs =
      related result (RelationKind.supports ∷ RelationKind.decisive_support ∷ []);
  contradicting_evidence_refs =
      related result (RelationKind.contradicts ∷ RelationKind.decisive_contradiction ∷ []);
  decisive_evidence_refs =
      related result (RelationKind.decisive_support ∷ RelationKind.decisive_contradiction ∷ []);
  missing_evidence = map (λ g. g.name) (keep (is_missing result) gaps);
  evaluated_at = evaluated_at index;
}

ids_with : HypothesisStatus → List HypothesisState → List HypothesisId
ids_with status states = map (λ s. s.hypothesis_id) (keep (λ s. s.status == status) states)

unfoldable pub graph_of : EvidenceIndex → HypothesisGraphView
unfolding hypothesis_state ids_with
graph_of index =
    let results = evaluate_rules index in
    let gaps = derive_gaps index in
    let states = map (hypothesis_state index gaps) results in
    record {
      case_id = index.case.case_id;
      evaluated_at = evaluated_at index;
      definitions = catalog;
      hypotheses = states;
      relations = collect (λ r. r.relations) results;
      gaps = gaps;
      open_gaps = keep (λ g. g.status == GapStatus.«open») gaps;
      confirmed = ids_with HypothesisStatus.confirmed states;
      supported = ids_with HypothesisStatus.supported states;
      eliminated = ids_with HypothesisStatus.eliminated states;
      payment_identity = verify_payment_identity index;
    }

pub data HypothesisInvariantError : Type 0 where
  not_unique_and_complete parent_missing parent_unconfirmed invalid_hierarchy :
      HypothesisInvariantError

parent_in : List HypothesisDefinition → HypothesisId → Option HypothesisDefinition
parent_in [] h = none
parent_in (d ∷ rest) h =
    let later = parent_in rest h in if d.hypothesis_id == h then some d else later

state_in : List HypothesisState → HypothesisId → Option HypothesisStatus
state_in [] h = none
state_in (s ∷ rest) h =
    let later = state_in rest h in if s.hypothesis_id == h then some s.status else later

-- The chain of parents ends: each is defined, and none stands twice. There are no more steps than
-- definitions before one of them would stand twice.
has_hierarchy : ℕ → List HypothesisDefinition → List HypothesisId → Option HypothesisId → Bool
unfolding parent_in
has_hierarchy fuel definitions seen none = true
has_hierarchy zero definitions seen (some h) = false
has_hierarchy (suc fuel) definitions seen (some h) = elim (parent_in definitions h) [
  | none ↦ false
  | some d ↦
      if contains h seen
      then false
      else has_hierarchy fuel definitions (h ∷ seen) d.parent_hypothesis_id
]

count : List HypothesisDefinition → ℕ
count [] = zero
count (d ∷ rest) = suc (count rest)

is_unique : List HypothesisId → Bool
is_unique [] = true
is_unique (h ∷ rest) = let later = is_unique rest in not (contains h rest) && later

unfoldable pub is_complete : HypothesisGraphView → Bool
unfolding is_unique
is_complete graph =
    let defined = map (λ d. d.hypothesis_id) graph.definitions in
    let known = map (λ s. s.hypothesis_id) graph.hypotheses in
    is_unique defined
    && is_unique known
    && every (λ h. contains h known) defined
    && every (λ h. contains h defined) known

unfoldable pub definition_error :
    HypothesisGraphView → HypothesisDefinition → Option HypothesisInvariantError
unfolding state_in has_hierarchy count
definition_error graph d = elim d.parent_hypothesis_id [
  | none ↦ none
  | some parent ↦
      if is_none (state_in graph.hypotheses parent)
      then some HypothesisInvariantError.parent_missing
      else if state_in graph.hypotheses d.hypothesis_id == some HypothesisStatus.confirmed
          && state_in graph.hypotheses parent != some HypothesisStatus.confirmed
      then some HypothesisInvariantError.parent_unconfirmed
      else if has_hierarchy (count graph.definitions) graph.definitions (d.hypothesis_id ∷ [])
          (some parent)
      then none
      else some HypothesisInvariantError.invalid_hierarchy
]

unfoldable pub first_error :
    HypothesisGraphView → List HypothesisDefinition → Option HypothesisInvariantError
unfolding definition_error
first_error graph [] = none
first_error graph (d ∷ rest) = elim (definition_error graph d) [
  | some e ↦ some e
  | none ↦ first_error graph rest
]

-- HypothesisGraphInvariantValidator.validate
unfoldable pub validate : HypothesisGraphView → Option HypothesisInvariantError
unfolding is_complete first_error
validate graph =
    if is_complete graph
    then first_error graph graph.definitions
    else some HypothesisInvariantError.not_unique_and_complete

pub data EngineError : Type 0 where
  rejected_evidence : IndexError → EngineError
  invariant : HypothesisInvariantError → EngineError

-- HypothesisEngine.evaluate
unfoldable pub evaluate : Case → List Evidence → EngineError ⊎ HypothesisGraphView
unfolding validate graph_of
evaluate case evidence = elim (evidence_index case evidence) [
  | inl e ↦ inl (EngineError.rejected_evidence e)
  | inr index ↦ elim (validate (graph_of index)) [
    | some e ↦ inl (EngineError.invariant e)
    | none ↦ inr (graph_of index)
  ]
]
