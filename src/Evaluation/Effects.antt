-- ===== src/Evaluation/Effects.antt =====
-- credit_harness/evaluation/evaluator.py: the checks of the callback and of the side effects.
use credit_incident_resoluti.Prelude.{
  ℕ, ◌==◌, ◌!=◌, ◌&&◌, any, Bool, collect, every, false, if◌then◌else◌, is_filled, keep, leb, List,
  [], ◌∷◌, ◌++◌, ltb, map, nat_eq, none, not, Option, option_eq, some, String, string_eq, true,
}
use credit_incident_resoluti.Domain.{
  ActionType, action_type_eq, EffectStatus, effect_status_eq, is_recoverable, ToolName,
  tool_name_eq, VerificationRequirement,
}
use credit_incident_resoluti.Authorization.Models.{SideEffectLedger}
use credit_incident_resoluti.Evidence.Models.{
  ClaimType, Evidence, evidence_subject_eq, Value, value_eq,
}
use credit_incident_resoluti.Hypotheses.Index.{current}
use credit_incident_resoluti.Evaluation.Models.{
  BoundEffect, Check, DimensionStatus, EvaluationReason, EvaluationState, Expectation, OutcomePath,
  state_expectations, VerificationContract,
}
use credit_incident_resoluti.Evaluation.Checks.{expect, failed, ids, passed}

unfoldable pub facts_of : EvaluationState → ClaimType → List Evidence
facts_of s claim = current s.index claim

is_before : Option ℕ → Option ℕ → Bool
is_before (some a) (some b) = leb a b
is_before _ _ = false

-- The gateway receipt with its verified signature and its consumed messages, if it has both.
unfoldable pub callback_match : EvaluationState → Evidence → List Evidence
unfolding is_before facts_of
callback_match s g =
    let signatures =
      keep
        (λ e.
          e.subject == g.subject
          && e.observation_id == g.observation_id
          && e.value == Value.flag true)
        (facts_of s ClaimType.callback_signature_verified) in
    let consumed =
      keep
        (λ m.
          m.metadata.callback_event_id == some g.subject.identifier
          && m.value == Value.word "CONSUMED"
          && is_before g.event_time m.event_time)
        (facts_of s ClaimType.message_consume_status) in
    if g.value == Value.flag true && is_filled signatures && is_filled consumed
    then g ∷ (signatures ++ consumed)
    else []

unfoldable pub callback_check : EvaluationState → Check
unfolding callback_match facts_of
callback_check s =
    let found = facts_of s ClaimType.message_consume_status in
    let matched = collect (callback_match s) (facts_of s ClaimType.callback_gateway_received) in
    if is_filled matched && every (λ m. m.value == Value.word "CONSUMED") found
    then passed DimensionStatus.pass (ids matched) []
    else failed
        (if any (λ m. m.value == Value.word "FAILED") found && not s.in_grace
          then DimensionStatus.fail
          else DimensionStatus.inconclusive)
        EvaluationReason.callback_not_consumed (ids found) []
        (ClaimType.callback_gateway_received ∷ ClaimType.callback_signature_verified
          ∷ ClaimType.message_consume_status ∷ [])
        (some VerificationRequirement.callback_consumption)

delivery_expectation : Expectation
delivery_expectation = record {
  claim = ClaimType.asset_delivery_status;
  value = Value.word "DELIVERED";
  reason = EvaluationReason.delivery_not_delivered;
  requirement = VerificationRequirement.asset_delivery;
}

unfoldable pub check_if : Bool → Check → List Check
check_if true c = c ∷ []
check_if false c = []

settled_checks : EvaluationState → VerificationContract → OutcomePath → List Check
unfolding check_if delivery_expectation callback_check
settled_checks s contract OutcomePath.settled_path =
    check_if contract.settled_requires_callback (callback_check s)
    ++ check_if contract.settled_requires_delivery (expect s delivery_expectation)
settled_checks s contract OutcomePath.no_disbursement_path = []

unfoldable pub convergence_checks :
    EvaluationState → VerificationContract → Option OutcomePath → List Check
unfolding settled_checks
convergence_checks s contract none =
    failed DimensionStatus.inconclusive EvaluationReason.business_outcome_not_converged [] [] []
      none
    ∷ []
convergence_checks s contract (some path) =
    map (expect s) (state_expectations contract path) ++ settled_checks s contract path

-- The item was observed, and the source stated it, after the effect was applied.
unfoldable pub is_after : SideEffectLedger → Evidence → Bool
unfolding is_before
is_after ledger e =
    ltb ledger.updated_at e.observed_at
    && is_before (some ledger.updated_at) e.source_as_of
    && is_before (some ledger.created_at) e.event_time

text_option : EvaluationState → Option ℕ → Option String
text_option s none = none
text_option s (some id) = some (s.text_of id)

value_option : EvaluationState → Option ℕ → Option Value
value_option s none = none
value_option s (some id) = some (Value.word (s.text_of id))

-- The item is about the target of the effect.
unfoldable pub is_associated : EvaluationState → BoundEffect → Bool → Evidence → Bool
unfolding text_option value_option facts_of
is_associated s effect true e =
    some e.subject.identifier == text_option s effect.target.message_ref
    && e.metadata.callback_event_id == text_option s effect.target.callback_event_ref
is_associated s effect false e =
    any
      (λ r.
        r.tool == ToolName.asset_delivery
        && some r.value == value_option s effect.target.delivery_ref
        && r.observation_id == e.observation_id)
      (facts_of s ClaimType.asset_delivery_event_ref)

unfoldable pub applied_check : EvaluationState → BoundEffect → Bool → Check
unfolding is_after is_associated facts_of
applied_check s effect replay =
    let claim =
      if replay then ClaimType.message_consume_status else ClaimType.asset_delivery_status in
    let tool = if replay then ToolName.messages else ToolName.asset_delivery in
    let requirement =
      if replay
      then VerificationRequirement.post_effect_message_status
      else VerificationRequirement.post_effect_delivery_status in
    let wanted = if replay then Value.word "CONSUMED" else Value.word "DELIVERED" in
    let matched =
      keep (λ e. e.tool == tool && is_after effect.ledger e && is_associated s effect replay e)
        (facts_of s claim) in
    if not (is_filled matched)
    then failed DimensionStatus.inconclusive EvaluationReason.post_effect_evidence_missing []
        (effect.ledger.effect_id ∷ []) (claim ∷ []) (some requirement)
    else if every (λ e. e.value == wanted) matched
    then passed DimensionStatus.pass (ids matched) (effect.ledger.effect_id ∷ [])
    else failed DimensionStatus.fail
        (if replay
          then EvaluationReason.callback_not_consumed
          else EvaluationReason.delivery_not_delivered)
        (ids matched) (effect.ledger.effect_id ∷ []) [] (some requirement)

unfoldable pub effect_check : EvaluationState → BoundEffect → Check
unfolding applied_check
effect_check s effect =
    let ledger = effect.ledger in
    if is_recoverable ledger.status
    then failed DimensionStatus.inconclusive EvaluationReason.unresolved_side_effect []
        (ledger.effect_id ∷ []) [] (some VerificationRequirement.effect_finality)
    else if ledger.status != EffectStatus.applied
    then passed DimensionStatus.not_applicable [] (ledger.effect_id ∷ [])
    else if ledger.action_type == ActionType.replay_callback_consumption
    then applied_check s effect true
    else if ledger.action_type == ActionType.redeliver_asset_notification
    then applied_check s effect false
    else passed DimensionStatus.not_applicable [] (ledger.effect_id ∷ [])
