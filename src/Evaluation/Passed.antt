-- ===== src/Evaluation/Passed.antt =====
-- The aggregate of statuses, and the checks of a report that passes.
use credit_incident_resoluti.Prelude.{
  ℕ, ◌≡◌, ◌==◌, ◌&&◌, Bool, Bool-cases, contains, every, false, if◌then◌else◌, In, In-contains, inl,
  inr, is_filled, keep-In, every-In, List, map, map-In, none, option_eq, refl, some, true, ◌⊎◌,
  arith,
}
use credit_incident_resoluti.Identity.Models.{identity_match_eq}
use credit_incident_resoluti.Evaluation.Models.{
  Check, DimensionStatus, dimension_status_eq, EvaluationDimension, evaluation_dimension_eq,
  EvaluationPolicy, EvaluationState, EvaluationVerdict, outcome_path_eq, VerificationContract,
}
use credit_incident_resoluti.Evaluation.Report.{
  aggregate, all_dimensions, checks_of, dimension_result, dimension_status, evaluate_state,
  EvaluationReport, statuses, verdict_of,
}

unfoldable pub clean : DimensionStatus → Bool
clean DimensionStatus.pass = true
clean DimensionStatus.not_applicable = true
clean _ = false

-- An aggregate of a list with a status that is not clean is not clean.
aggregate_unclean :
    (x : DimensionStatus) (xs : List DimensionStatus)
    → In x xs
    → clean x ≡ false
    → (aggregate xs ≡ DimensionStatus.fail) ⊎ (aggregate xs ≡ DimensionStatus.inconclusive)
unfolding aggregate clean
aggregate_unclean DimensionStatus.pass xs i h = absurd (cc h)
aggregate_unclean DimensionStatus.not_applicable xs i h = absurd (cc h)
aggregate_unclean DimensionStatus.fail xs i h =
    inl (rw (In-contains DimensionStatus.fail xs i) refl)
aggregate_unclean DimensionStatus.inconclusive xs i h =
    elim (Bool-cases (contains DimensionStatus.fail xs)) [
      | inl t ↦ inl (rw t refl)
      | inr f ↦ inr (rw (f, In-contains DimensionStatus.inconclusive xs i) refl)
    ]

moved : (x y : DimensionStatus) → x ≡ y → clean x ≡ true → clean y ≡ true
moved x y e h = cc (e, h)

-- Each member of an aggregate that is clean is clean.
pub aggregate-clean :
    (x : DimensionStatus) (xs : List DimensionStatus)
    → In x xs
    → clean (aggregate xs) ≡ true
    → clean x ≡ true
unfolding clean
aggregate-clean x xs i h = elim (Bool-cases (clean x)) [
  | inl t ↦ t
  | inr f ↦ elim (aggregate_unclean x xs i f) [
    | inl e ↦ absurd (cc (moved _ DimensionStatus.fail e h))
    | inr e ↦ absurd (cc (moved _ DimensionStatus.inconclusive e h))
  ]
]

not_applicable_clean :
    (x : DimensionStatus) → (x == DimensionStatus.not_applicable) ≡ true → clean x ≡ true
unfolding clean
not_applicable_clean x h =
    rw ((dimension_status_eq.agrees_iff x DimensionStatus.not_applicable).0 h) refl

both : (a b : Bool) → (a && b) ≡ true → b ≡ true
both a b h = ground arith

other_branch :
    (b : Bool) (x : DimensionStatus)
    → b ≡ false
    → clean (if b then DimensionStatus.not_applicable else x) ≡ true
    → clean x ≡ true
other_branch true x f h = absurd (cc f)
other_branch false x f h = h

-- Each check of a dimension that is clean is clean.
pub dimension_status-clean :
    (c : Check) (checks : List Check)
    → In c checks
    → clean (dimension_status checks) ≡ true
    → clean c.status ≡ true
unfolding dimension_status statuses
dimension_status-clean c checks i h =
    let all = every (λ k. k.status == DimensionStatus.not_applicable) checks in
    elim (Bool-cases (is_filled checks && all)) [
      | inl t ↦
          not_applicable_clean c.status (every-In _ c checks (both (is_filled checks) all t) i)
      | inr f ↦
          aggregate-clean c.status (statuses checks) (map-In (λ k. k.status) c checks i)
            (other_branch _ _ f h)
    ]

verdict_clean : (x : DimensionStatus) → verdict_of x ≡ EvaluationVerdict.pass → clean x ≡ true
unfolding verdict_of clean
verdict_clean DimensionStatus.pass h = refl
verdict_clean DimensionStatus.not_applicable h = refl
verdict_clean DimensionStatus.fail h = absurd (cc h)
verdict_clean DimensionStatus.inconclusive h = absurd (cc h)

module _ (s : EvaluationState) (policy : EvaluationPolicy) (contract : VerificationContract)
    (now : ℕ) where
  report_given :
      (b : Bool) (made report : EvaluationReport)
      → (if b then some made else none) ≡ some report
      → (b ≡ true) × (made ≡ report)
  report_given true made report h = (refl, cc h)
  report_given false made report h = absurd (cc h)

  -- Each dimension of a report that passes is clean.
  pub dimension_clean :
      (report : EvaluationReport)
      → evaluate_state s policy contract now ≡ some report
      → report.overall_verdict ≡ EvaluationVerdict.pass
      → (d : EvaluationDimension) → In d all_dimensions
      → clean (dimension_status (checks_of s policy contract now d)) ≡ true
  unfolding evaluate_state dimension_result
  dimension_clean report made verdict d i =
      let (every_required, same) = report_given _ _ report made in
      let kept =
        keep-In (λ r. contains r.dimension policy.required_dimensions)
          (dimension_result s policy contract now d)
          (map (dimension_result s policy contract now) all_dimensions)
          (map-In (dimension_result s policy contract now) d all_dimensions i)
          (every-In _ d all_dimensions every_required i) in
      aggregate-clean _ _ (map-In (λ r. r.status) _ _ kept) (verdict_clean _ (cc (same, verdict)))
