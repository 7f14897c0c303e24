-- ===== src/Evaluation/Checks.antt =====
-- credit_harness/evaluation/evaluator.py: the checks of the money, the identity and the state.
use credit_incident_resoluti.Prelude.{
  ℕ, ◌==◌, ◌&&◌, Bool, contains, distinct, every, false, if◌then◌else◌, is_filled, keep, List, [],
  ◌∷◌, ◌++◌, map, nat_eq, none, not, Option, option_eq, some, sole, string_eq,
}
use credit_incident_resoluti.Domain.{ToolName, tool_name_eq, VerificationRequirement}
use credit_incident_resoluti.Evidence.Models.{
  ClaimType, claim_type_eq, Completeness, completeness_eq, Evidence, evidence_subject_eq, Freshness,
  freshness_eq, SourceKind, source_kind_eq, SubjectKind, subject_kind_eq, Value, value_eq,
}
use credit_incident_resoluti.Hypotheses.Index.{current, request_id}
use credit_incident_resoluti.Identity.Models.{IdentityMatch}
use credit_incident_resoluti.Evaluation.Models.{
  Check, DimensionStatus, EvaluationReason, EvaluationState, Expectation, OutcomePath,
  outcome_path_eq,
}

unfoldable pub ids : List Evidence → List ℕ
ids items = map (λ e. e.evidence_id) items

unfoldable pub passed : DimensionStatus → List ℕ → List ℕ → Check
passed status refs effects = record {
  status = status;
  reason = none;
  evidence_refs = refs;
  effect_refs = effects;
  claims = [];
  requirement = none;
}

unfoldable pub failed :
    DimensionStatus
    → EvaluationReason
    → List ℕ
    → List ℕ
    → List ClaimType
    → Option VerificationRequirement
    → Check
failed status reason refs effects claims requirement = record {
  status = status;
  reason = some reason;
  evidence_refs = refs;
  effect_refs = effects;
  claims = claims;
  requirement = requirement;
}

-- The current payment finalities.
unfoldable pub money_facts : EvaluationState → List Evidence
money_facts s = keep (λ e. e.tool == ToolName.payment) (current s.index ClaimType.payment_finality)

unfoldable pub finality : EvaluationState → Option Value
unfolding money_facts
finality s = sole (distinct (map (λ e. e.value) (money_facts s)))

-- The absence of a payment is stated of the Case's own request.
unfoldable pub of_request : EvaluationState → Bool
unfolding money_facts
of_request s =
    every
      (λ e.
        e.subject.kind == SubjectKind.fund_request
        && some e.subject.identifier == request_id s.index
        && e.metadata.fund_request_id == request_id s.index)
      (money_facts s)

-- Settled transfers of this request that were ever observed.
unfoldable pub settled_history : EvaluationState → List Evidence
settled_history s =
    keep
      (λ e.
        e.tool == ToolName.payment
        && e.claim_type == ClaimType.payment_finality
        && e.value == Value.word "SETTLED"
        && e.metadata.fund_request_id == request_id s.index
        && e.source_kind == SourceKind.primary
        && e.freshness == Freshness.current
        && e.completeness == Completeness.complete)
      s.all_evidence

-- The path that the money took, if it is decided.
unfoldable pub path_of : EvaluationState → Option OutcomePath
unfolding finality of_request settled_history
path_of s =
    if finality s == some (Value.word "SETTLED")
    then some OutcomePath.settled_path
    else if finality s == some (Value.word "NOT_EXECUTED")
        && of_request s
        && not (is_filled (settled_history s))
    then some OutcomePath.no_disbursement_path
    else none

-- Two finalities at once.
unfoldable pub is_divided : EvaluationState → Bool
unfolding finality money_facts
is_divided s = is_filled (money_facts s) && finality s == none

-- A settled transfer that a later absence would erase.
unfoldable pub is_erased : EvaluationState → Bool
unfolding finality of_request settled_history
is_erased s =
    finality s == some (Value.word "NOT_EXECUTED") && of_request s && is_filled (settled_history s)

unfoldable pub contradiction : List Evidence → Check
contradiction items =
    failed DimensionStatus.fail EvaluationReason.money_state_contradiction (ids items) [] []
      (some VerificationRequirement.payment_finality)

unfoldable pub money_check : EvaluationState → Check
unfolding path_of is_divided is_erased money_facts settled_history contradiction
money_check s =
    if is_divided s
    then contradiction (money_facts s)
    else if is_erased s
    then contradiction (money_facts s ++ settled_history s)
    else if path_of s == none
    then failed DimensionStatus.inconclusive EvaluationReason.payment_finality_unknown
        (ids (money_facts s)) [] (ClaimType.payment_finality ∷ [])
        (some VerificationRequirement.payment_finality)
    else passed DimensionStatus.pass (ids (money_facts s)) []

unfoldable pub identity_result : EvaluationState → IdentityMatch → Check
identity_result s IdentityMatch.mismatch =
    failed DimensionStatus.fail EvaluationReason.payment_identity_mismatch
      s.graph.payment_identity.evidence_refs [] [] (some VerificationRequirement.payment_identity)
identity_result s IdentityMatch.match =
    passed DimensionStatus.pass s.graph.payment_identity.evidence_refs []
identity_result s IdentityMatch.unknown =
    failed DimensionStatus.inconclusive EvaluationReason.payment_identity_unknown
      s.graph.payment_identity.evidence_refs [] [] (some VerificationRequirement.payment_identity)

unfoldable pub identity_check : EvaluationState → Check
unfolding identity_result path_of money_facts
identity_check s =
    if path_of s == some OutcomePath.no_disbursement_path
    then passed DimensionStatus.not_applicable (ids (money_facts s)) []
    else identity_result s s.graph.payment_identity.result

-- A value that an asynchronous process may still leave.
unfoldable pub is_transitional : Evidence → Bool
is_transitional e = contains e.value (
    Value.word "PROCESSING"
    ∷ Value.word "PENDING"
    ∷ Value.word "NOT_ATTEMPTED"
    ∷ Value.flag false
    ∷ [])

-- `expect`
unfoldable pub expect : EvaluationState → Expectation → Check
unfolding is_transitional
expect s x =
    let items = current s.index x.claim in
    let waiting = every is_transitional items && s.in_grace in
    if not (is_filled items)
    then failed DimensionStatus.inconclusive x.reason [] [] (x.claim ∷ []) (some x.requirement)
    else if every (λ e. e.value == x.value) items
    then passed DimensionStatus.pass (ids items) []
    else if waiting
    then failed DimensionStatus.inconclusive EvaluationReason.convergence_window_open (ids items) []
        [] (some x.requirement)
    else failed DimensionStatus.fail x.reason (ids items) [] [] (some x.requirement)
