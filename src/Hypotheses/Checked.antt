-- ===== src/Hypotheses/Checked.antt =====
-- What the rules confirm, and that the engine's own check accepts every graph.
use credit_incident_resoluti.Prelude.{
  ◌≡◌, refl, ◌==◌, ◌!=◌, ◌&&◌, collect-In, every, false, if◌then◌else◌, In, In-collect,
  In-is_filled, inl, inr, option_eq, is_filled, is_filled-In, List, map, [], ◌∷◌, none, some, true,
  arith, ◌≢◌, Bool,
}
use credit_incident_resoluti.Domain.{CaseStatus, case_status_eq}
use credit_incident_resoluti.Evidence.Models.{Case, Evidence}
use credit_incident_resoluti.Hypotheses.Index.{evidence_index, EvidenceIndex}
use credit_incident_resoluti.Hypotheses.Models
use credit_incident_resoluti.Hypotheses.Models.{
  HypothesisId, HypothesisStatus, hypothesis_status_eq,
}
use credit_incident_resoluti.Hypotheses.Rules
use credit_incident_resoluti.Hypotheses.Rules.{Findings}
use credit_incident_resoluti.Hypotheses.Outcome.{evaluate_rules, findings, rule_result}
use credit_incident_resoluti.Hypotheses.Facts.{callback_pairs}
use credit_incident_resoluti.Hypotheses.Engine

pub confirmed_by :
    (s : CaseStatus) (f : Findings)
    → Rules.status_of s f ≡ HypothesisStatus.confirmed
    → (is_filled f.confirm ≡ true) × (is_filled f.eliminate ≡ false)
unfolding Rules.status_of
confirmed_by s f h = ground arith

confirmed_if :
    (s : CaseStatus) (f : Findings)
    → is_filled f.confirm ≡ true
    → is_filled f.eliminate ≡ false
    → Rules.status_of s f ≡ HypothesisStatus.confirmed
unfolding Rules.status_of
confirmed_if s f c e = ground arith

-- A mismatch is confirmed by a failed message that answers a gateway receipt.
schema_witness-pairs :
    (index : EvidenceIndex)
    → is_filled (Rules.schema_witness index) ≡ true
    → is_filled (Rules.pair_items index "FAILED") ≡ true
unfolding Rules.schema_witness Rules.pair_items In
schema_witness-pairs index h =
    let (e, i) = is_filled-In (Rules.schema_witness index) h in
    let (group, (_, inner)) = In-collect _ e _ i in
    let (pair, (found, _)) = In-collect _ e (callback_pairs index "FAILED") inner in
    In-is_filled pair.0 _
      (collect-In _ pair.0 pair (callback_pairs index "FAILED") found (inl refl))

none_eliminated :
    (failed consumed : List Evidence)
    → is_filled failed ≡ true
    → is_filled (if is_filled failed then [] else consumed) ≡ false
unfolding is_filled
none_eliminated failed consumed h = ground arith

-- The child hypothesis is confirmed with its parent alone.
schema_confirmed-parent :
    (index : EvidenceIndex)
    → (rule_result index HypothesisId.h6_schema_mismatch).status ≡ HypothesisStatus.confirmed
    → (rule_result index HypothesisId.h6).status ≡ HypothesisStatus.confirmed
unfolding rule_result Rules.decide findings Rules.of_support
schema_confirmed-parent index h =
    let (confirm, _) =
      confirmed_by index.case.status (findings index HypothesisId.h6_schema_mismatch) h in
    let failed = schema_witness-pairs index confirm in
    confirmed_if index.case.status (findings index HypothesisId.h6) failed
      (none_eliminated (Rules.pair_items index "FAILED") (Rules.pair_items index "CONSUMED") failed)

stale_unconfirmed :
    (index : EvidenceIndex)
    → (rule_result index HypothesisId.h6_stale_consumer_schema).status ≢ HypothesisStatus.confirmed
unfolding rule_result Rules.decide findings Rules.of_support
stale_unconfirmed index h =
    let (confirm, _) =
      confirmed_by index.case.status (findings index HypothesisId.h6_stale_consumer_schema) h in
    absurd (cc confirm)

graph-is_complete : (index : EvidenceIndex) → Engine.is_complete (Engine.graph_of index) ≡ true
unfolding Engine.is_complete Engine.graph_of Engine.hypothesis_state evaluate_rules rule_result
    Rules.decide Models.catalog Models.definition every Models.HypothesisId-discrete
graph-is_complete index = refl

-- The check of a child that is confirmed with its parent alone.
accepted_child :
    (child parent : HypothesisStatus)
    → (child ≡ HypothesisStatus.confirmed → parent ≡ HypothesisStatus.confirmed)
    → (some child == some HypothesisStatus.confirmed
        && some parent != some HypothesisStatus.confirmed)
      ≡ false
accepted_child child parent h = ground (arith, h)

not_raised :
    (b : Bool) (e : Engine.HypothesisInvariantError)
    → b ≡ false
    → (if b then some e else none) ≡ none
not_raised b e h = ground arith

schema-accepted :
    (index : EvidenceIndex)
    → Engine.definition_error
        (Engine.graph_of index)
        (Models.definition HypothesisId.h6_schema_mismatch)
      ≡ none
unfolding Engine.definition_error Engine.graph_of Engine.hypothesis_state evaluate_rules
    Models.catalog Models.definition Models.HypothesisId-discrete Models.parent_of rule_result
    Rules.decide
schema-accepted index = not_raised _ Engine.parent_unconfirmed (
    accepted_child (rule_result index HypothesisId.h6_schema_mismatch).status
      (rule_result index HypothesisId.h6).status (schema_confirmed-parent index))

stale-accepted :
    (index : EvidenceIndex)
    → Engine.definition_error
        (Engine.graph_of index)
        (Models.definition HypothesisId.h6_stale_consumer_schema)
      ≡ none
unfolding Engine.definition_error Engine.graph_of Engine.hypothesis_state evaluate_rules
    Models.catalog Models.definition Models.HypothesisId-discrete Models.parent_of rule_result
    Rules.decide
stale-accepted index = not_raised _ Engine.parent_unconfirmed (
    accepted_child (rule_result index HypothesisId.h6_stale_consumer_schema).status
      (rule_result index HypothesisId.h6).status
      (λ confirmed. absurd (stale_unconfirmed index confirmed)))

accepted :
    (index : EvidenceIndex) (h : HypothesisId)
    → Engine.definition_error (Engine.graph_of index) (Models.definition h) ≡ none
unfolding Engine.definition_error Models.definition Models.parent_of
accepted index HypothesisId.h6_schema_mismatch = schema-accepted index
accepted index HypothesisId.h6_stale_consumer_schema = stale-accepted index
accepted index _ = refl

accepted_all :
    (index : EvidenceIndex) (hs : List HypothesisId)
    → Engine.first_error (Engine.graph_of index) (map Models.definition hs) ≡ none
unfolding Engine.first_error
accepted_all index [] = refl
accepted_all index (h ∷ hs) = rw (Engine.first_error, accepted index h) (accepted_all index hs)

graph_of-accepted : (index : EvidenceIndex) → Engine.validate (Engine.graph_of index) ≡ none
unfolding Engine.validate Engine.graph_of Models.catalog
graph_of-accepted index = rw (graph-is_complete index, accepted_all index)

pub evaluate-accepted :
    (case : Case) (evidence : List Evidence) (index : EvidenceIndex)
    → evidence_index case evidence ≡ inr index
    → Engine.evaluate case evidence ≡ inr (Engine.graph_of index)
unfolding Engine.evaluate
evaluate-accepted case evidence index h = rw (Engine.evaluate, h, graph_of-accepted index)
