-- ===== src/Evaluation/Report.antt =====
-- credit_harness/evaluation/evaluator.py: the remaining checks, the dimensions and the verdict. The
-- codes and references of a dimension stand in the order of its checks; the source sorts them.
use credit_incident_resoluti.Prelude.{
  ℕ, ◌+◌, ◌==◌, ◌!=◌, ◌&&◌, ◌||◌, any, Bool, collect, contains, every, false, if◌then◌else◌,
  is_filled, is_none, keep, List, [], ◌∷◌, ◌++◌, ltb, map, nat_eq, none, not, Option, option_eq,
  some, true,
}
use credit_incident_resoluti.Domain.{
  is_recoverable, is_terminal, ToolName, tool_name_eq, VerificationRequirement,
}
use credit_incident_resoluti.Evidence.Models.{
  ClaimType, Completeness, completeness_eq, Freshness, freshness_eq,
}
use credit_incident_resoluti.Hypotheses.Models.{EvidenceGap, PriorityClass, RequiredClaim}
use credit_incident_resoluti.Database.Transaction.{seconds}
use credit_incident_resoluti.Evaluation.Models.{
  Check, DimensionStatus, dimension_status_eq, EvaluationDimension, evaluation_dimension_eq,
  EvaluationDimensionResult, EvaluationPolicy, EvaluationReason, EvaluationState, EvaluationVerdict,
  exempt_gap, OutcomePath, outcome_path_eq, VerificationContract,
}
use credit_incident_resoluti.Evaluation.Checks.{failed, identity_check, money_check, path_of}
use credit_incident_resoluti.Evaluation.Effects.{check_if, convergence_checks, effect_check}

unfoldable pub aggregate : List DimensionStatus → DimensionStatus
aggregate statuses =
    if contains DimensionStatus.fail statuses
    then DimensionStatus.fail
    else if contains DimensionStatus.inconclusive statuses
    then DimensionStatus.inconclusive
    else DimensionStatus.pass

unfoldable pub relevant_tools : Option OutcomePath → List ToolName
relevant_tools path =
    ToolName.payment
    ∷ ToolName.trace
    ∷ ToolName.fund
    ∷ ToolName.guarantee
    ∷ ToolName.asset
    ∷ ToolName.accounting
    ∷ (if path == some OutcomePath.settled_path
        then ToolName.callback ∷ ToolName.callback_raw ∷ ToolName.messages ∷ ToolName.asset_delivery
          ∷ []
        else [])

is_too_old : EvaluationPolicy → ℕ → Option ℕ → Bool
is_too_old policy now none = false
is_too_old policy now (some as_of) = ltb (as_of + seconds policy.evidence_max_age_seconds) now

is_safety_critical : PriorityClass → Bool
is_safety_critical PriorityClass.safety_critical = true
is_safety_critical _ = false

collected_claims : RequiredClaim → List ClaimType
collected_claims (RequiredClaim.collected claim) = claim ∷ []
collected_claims (RequiredClaim.uncollected claim) = []

-- An open gap that the contract does not exempt.
unfoldable pub is_blocking : Option OutcomePath → EvidenceGap → Bool
unfolding is_safety_critical
is_blocking path gap = is_safety_critical gap.priority_class && not (exempt_gap gap path)

unfoldable pub gap_check : EvidenceGap → Check
unfolding collected_claims
gap_check gap =
    failed DimensionStatus.inconclusive EvaluationReason.open_safety_critical_gap [] []
      (collect collected_claims gap.required_claim_types) (some VerificationRequirement.safety_gap)

unfoldable pub insufficient : EvaluationReason → Option VerificationRequirement → Check
insufficient reason requirement = failed DimensionStatus.inconclusive reason [] [] [] requirement

unfoldable pub sufficiency_checks :
    EvaluationState → EvaluationPolicy → ℕ → Option OutcomePath → List Check
unfolding relevant_tools is_too_old is_blocking gap_check check_if insufficient
sufficiency_checks s policy now path =
    let inputs = keep (λ e. contains e.tool (relevant_tools path)) s.latest in
    check_if (not s.provenance_valid)
      (insufficient EvaluationReason.provenance_invalid (some VerificationRequirement.provenance))
    ++ check_if s.pending_reads (
        insufficient EvaluationReason.pending_read_dispatch
          (some VerificationRequirement.read_publication))
    ++ check_if
        (any (λ e. e.freshness == Freshness.stale || is_too_old policy now e.source_as_of) inputs)
        (insufficient EvaluationReason.evidence_stale none)
    ++ check_if (any (λ e. e.completeness != Completeness.complete) inputs)
        (insufficient EvaluationReason.evidence_incomplete none)
    ++ map gap_check (keep (is_blocking path) s.graph.open_gaps)

unfoldable pub has_unresolved : EvaluationState → Bool
has_unresolved s = any (λ e. is_recoverable e.ledger.status) s.effects

unfoldable pub recovery_checks : EvaluationState → List Check
unfolding has_unresolved check_if
recovery_checks s =
    check_if (s.recovery_unresolved || has_unresolved s) (
      failed DimensionStatus.inconclusive EvaluationReason.recovery_unresolved [] [] []
        (some VerificationRequirement.recovery_finality))
    ++ check_if
        (is_terminal s.case.status
          && (s.pending_reads || s.recovery_unresolved || has_unresolved s))
        (failed DimensionStatus.fail EvaluationReason.closure_invariant_violation [] [] [] none)

-- The checks of each dimension but the outcome.
unfoldable pub parts :
    EvaluationState → EvaluationPolicy → VerificationContract → ℕ → EvaluationDimension → List Check
unfolding check_if
parts s policy contract now EvaluationDimension.money = money_check s ∷ []
parts s policy contract now EvaluationDimension.identity = identity_check s ∷ []
parts s policy contract now EvaluationDimension.state_convergence =
    convergence_checks s contract (path_of s)
parts s policy contract now EvaluationDimension.side_effect = map (effect_check s) s.effects
parts s policy contract now EvaluationDimension.evidence_sufficiency =
    sufficiency_checks s policy now (path_of s)
parts s policy contract now EvaluationDimension.policy = check_if s.policy_invalid (
    failed DimensionStatus.fail EvaluationReason.forbidden_effect_observed [] [] []
      (some VerificationRequirement.safe_policy))
parts s policy contract now EvaluationDimension.recovery = recovery_checks s
parts s policy contract now EvaluationDimension.outcome = []

unfoldable pub statuses : List Check → List DimensionStatus
statuses checks = map (λ c. c.status) checks

-- `S.NOT_APPLICABLE if items and all of them are, else aggregate`
unfoldable pub dimension_status : List Check → DimensionStatus
unfolding statuses
dimension_status checks =
    if is_filled checks && every (λ c. c.status == DimensionStatus.not_applicable) checks
    then DimensionStatus.not_applicable
    else aggregate (statuses checks)

abbrev pub business_dimensions : List EvaluationDimension
business_dimensions =
    EvaluationDimension.money ∷ EvaluationDimension.identity ∷ EvaluationDimension.state_convergence
    ∷ EvaluationDimension.side_effect ∷ []

-- The one check of the outcome: the aggregate of the business dimensions' checks.
unfoldable pub outcome_check : EvaluationState → EvaluationPolicy → VerificationContract → ℕ → Check
unfolding statuses
outcome_check s policy contract now = record {
  status = aggregate (statuses (collect (parts s policy contract now) business_dimensions));
  reason = none;
  evidence_refs = [];
  effect_refs = [];
  claims = [];
  requirement = none;
}

unfoldable pub checks_of :
    EvaluationState → EvaluationPolicy → VerificationContract → ℕ → EvaluationDimension → List Check
checks_of s policy contract now EvaluationDimension.outcome =
    outcome_check s policy contract now ∷ []
checks_of s policy contract now d = parts s policy contract now d

abbrev pub all_dimensions : List EvaluationDimension
all_dimensions =
    EvaluationDimension.money ∷ EvaluationDimension.identity ∷ EvaluationDimension.state_convergence
    ∷ EvaluationDimension.side_effect ∷ EvaluationDimension.evidence_sufficiency
    ∷ EvaluationDimension.policy ∷ EvaluationDimension.recovery ∷ EvaluationDimension.outcome ∷ []

unfoldable pub dimension_result :
    EvaluationState
    → EvaluationPolicy
    → VerificationContract
    → ℕ
    → EvaluationDimension
    → EvaluationDimensionResult
dimension_result s policy contract now d = record {
  dimension = d;
  status = dimension_status (checks_of s policy contract now d);
  checks = checks_of s policy contract now d;
}

unfoldable pub verdict_of : DimensionStatus → EvaluationVerdict
verdict_of DimensionStatus.fail = EvaluationVerdict.fail
verdict_of DimensionStatus.inconclusive = EvaluationVerdict.inconclusive
verdict_of _ = EvaluationVerdict.pass

pub record EvaluationReport : Type 0 where
  pub outcome_path : Option OutcomePath
  pub overall_verdict : EvaluationVerdict
  pub dimensions : List EvaluationDimensionResult
  pub unresolved : List Check
  pub created_at : ℕ

-- A check whose requirement stays unresolved.
is_unresolved : Check → Bool
is_unresolved c =
    (c.status == DimensionStatus.fail || c.status == DimensionStatus.inconclusive)
    && not (is_none c.requirement)

-- `_evaluate`, on the state that the reader gives; none is the ValueError of a policy that does not
-- require every dimension.
unfoldable pub evaluate_state :
    EvaluationState → EvaluationPolicy → VerificationContract → ℕ → Option EvaluationReport
unfolding dimension_result verdict_of is_unresolved
evaluate_state s policy contract now =
    let results = map (dimension_result s policy contract now) all_dimensions in
    let required = keep (λ r. contains r.dimension policy.required_dimensions) results in
    if every (λ d. contains d policy.required_dimensions) all_dimensions
    then some (record {
      outcome_path = path_of s;
      overall_verdict = verdict_of (aggregate (map (λ r. r.status) required));
      dimensions = results;
      unresolved = keep is_unresolved (collect (checks_of s policy contract now) all_dimensions);
      created_at = now;
    })
    else none
