-- ===== src/Evaluation/Execute.antt =====
-- Computes the report of a concrete state.
use credit_incident_resoluti.Evaluation.Models.{
  DimensionStatus-discrete, EvaluationDimension-discrete, OutcomePath-discrete, is_identity_gap,
  exempt_gap, expected_state, is_settled, state_expectations,
}
use credit_incident_resoluti.Evaluation.Checks.{
  ids, passed, failed, money_facts, finality, of_request, settled_history, path_of, is_divided,
  is_erased, contradiction, money_check, identity_result, identity_check, is_transitional, expect,
}
use credit_incident_resoluti.Evaluation.Effects.{
  facts_of, callback_match, callback_check, check_if, convergence_checks, is_after, is_associated,
  applied_check, effect_check,
}
use credit_incident_resoluti.Evaluation.Report.{
  aggregate, relevant_tools, is_blocking, gap_check, insufficient, sufficiency_checks,
  has_unresolved, recovery_checks, parts, statuses, dimension_status, outcome_check, checks_of,
  dimension_result, verdict_of, evaluate_state,
}
use credit_incident_resoluti.Evaluation.Snapshot.{
  latest_of, latest_observation_evidence, eligible, is_forbidden, is_row_of, is_bound, intent_of,
  bound_with, bound_effects, invalid_with, is_invalid, effect_rows, is_unfinished, recovery_rows,
  attempt_rows, admitted, state_with, read_state,
}

unfoldable pub judged {ℓ} : {A : Type ℓ} → A → A
unfolding DimensionStatus-discrete EvaluationDimension-discrete OutcomePath-discrete is_identity_gap
    exempt_gap expected_state is_settled state_expectations ids passed failed money_facts finality
    of_request settled_history path_of is_divided is_erased contradiction money_check
    identity_result identity_check is_transitional expect facts_of callback_match callback_check
    check_if convergence_checks is_after is_associated applied_check effect_check aggregate
    relevant_tools is_blocking gap_check insufficient sufficiency_checks has_unresolved
    recovery_checks parts statuses dimension_status outcome_check checks_of dimension_result
    verdict_of evaluate_state latest_of latest_observation_evidence eligible is_forbidden is_row_of
    is_bound intent_of bound_with bound_effects invalid_with is_invalid effect_rows is_unfinished
    recovery_rows attempt_rows admitted state_with read_state
judged a = a
