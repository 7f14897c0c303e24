-- ===== src/Evaluation/Verified.antt =====
-- What a report that passes states of the state that was evaluated.
use credit_incident_resoluti.Prelude.{
  ℕ, ◌≡◌, ◌==◌, ◌&&◌, ◌||◌, append-In, Bool, Bool-cases, every, false, if◌then◌else◌, In, In-every,
  inl, inr, is_filled, keep-In, map-In, none, not, Option, option_eq, refl, some, subst, true,
  arith,
}
use credit_incident_resoluti.Domain.{is_recoverable}
use credit_incident_resoluti.Evidence.Models.{value_eq}
use credit_incident_resoluti.Hypotheses.Index.{current}
use credit_incident_resoluti.Identity.Models.{
  IdentityMatch, IdentityMatch-discrete, identity_match_eq,
}
use credit_incident_resoluti.Evaluation.Models.{
  BoundEffect, Check, EvaluationDimension, EvaluationPolicy, EvaluationState, EvaluationVerdict,
  Expectation, OutcomePath, OutcomePath-discrete, outcome_path_eq, state_expectations,
  VerificationContract,
}
use credit_incident_resoluti.Evaluation.Checks.{
  contradiction, expect, failed, identity_result, is_transitional, identity_check, is_divided,
  is_erased, money_check, path_of,
}
use credit_incident_resoluti.Evaluation.Effects.{check_if, convergence_checks, effect_check}
use credit_incident_resoluti.Evaluation.Report.{
  all_dimensions, checks_of, insufficient, gap_check, has_unresolved, evaluate_state,
  EvaluationReport, is_blocking, parts, recovery_checks, sufficiency_checks,
}
use credit_incident_resoluti.Evaluation.Passed.{clean, dimension_clean, dimension_status-clean}

-- The state satisfies what the contract asks: the money took a path, the payment is this request's
-- where one is settled, each expected state is observed with no other value, every effect is final,
-- and nothing of the evidence, the policy or the recovery is open.
pub record Verified (s : EvaluationState) (contract : VerificationContract) : Type 0 where
  pub path : OutcomePath
  pub decided : path_of s ≡ some path
  pub identified :
      (path == OutcomePath.no_disbursement_path
        || s.graph.payment_identity.result == IdentityMatch.match)
      ≡ true
  pub converged :
      every
        (λ x.
          is_filled (current s.index x.claim)
          && every (λ e. e.value == x.value) (current s.index x.claim))
        (state_expectations contract path)
      ≡ true
  pub effects_final : every (λ e. not (is_recoverable e.ledger.status)) s.effects ≡ true
  pub provenance : s.provenance_valid ≡ true
  pub reads_published : s.pending_reads ≡ false
  pub gaps_closed : every (λ g. not (is_blocking (some path) g)) s.graph.open_gaps ≡ true
  pub policy_kept : s.policy_invalid ≡ false
  pub recovered : s.recovery_unresolved ≡ false

IsClean : Check → Type 0
IsClean c = clean c.status ≡ true

-- A branch that is not clean was not taken.
passed_over :
    (b : Bool) (x y : Check)
    → IsClean (if b then x else y)
    → clean x.status ≡ false
    → (b ≡ false) × IsClean y
unfolding IsClean
passed_over true x y h u = absurd (cc (u, h))
passed_over false x y h u = (refl, h)

taken : (b : Bool) (x y : Check) → IsClean (if b then x else y) → clean y.status ≡ false → b ≡ true
unfolding IsClean
taken true x y h u = refl
taken false x y h u = absurd (cc (u, h))

-- A condition whose check is not clean does not hold.
unflagged :
    (b : Bool) (c : Check)
    → ((k : Check) → In k (check_if b c) → IsClean k)
    → clean c.status ≡ false
    → b ≡ false
unfolding IsClean check_if In
unflagged true c h u = absurd (cc (u, h c (inl refl)))
unflagged false c h u = refl

-- The money took a path.
money_decided : (s : EvaluationState) → IsClean (money_check s) → (path_of s == none) ≡ false
unfolding money_check clean failed contradiction
money_decided s h =
    let (_, later) = passed_over (is_divided s) _ _ h refl in
    let (_, last) = passed_over (is_erased s) _ _ later refl in
    (passed_over (path_of s == none) _ _ last refl).0

matched_of :
    (s : EvaluationState) (m : IdentityMatch)
    → IsClean (identity_result s m)
    → (m == IdentityMatch.match) ≡ true
unfolding IsClean identity_result clean failed IdentityMatch-discrete
matched_of s IdentityMatch.match h = refl
matched_of s IdentityMatch.mismatch h = absurd (cc h)
matched_of s IdentityMatch.unknown h = absurd (cc h)

remaining : (b : Bool) (x y : Check) → b ≡ false → IsClean (if b then x else y) → IsClean y
remaining true x y f h = absurd (cc f)
remaining false x y f h = h

neither :
    (b : Bool) (x y : Check)
    → clean x.status ≡ false
    → clean y.status ≡ false
    → clean (if b then x else y).status ≡ false
neither true x y u v = u
neither false x y u v = v

both_hold : (a b : Bool) → not a ≡ false → b ≡ true → (a && b) ≡ true
both_hold a b h t = ground arith

is_valid : (b : Bool) → not b ≡ false → b ≡ true
is_valid b h = ground arith

first_false : (a b : Bool) → (a || b) ≡ false → a ≡ false
first_false a b h = ground arith

identity_matched :
    (s : EvaluationState) (path : OutcomePath)
    → path_of s ≡ some path
    → IsClean (identity_check s)
    → (path == OutcomePath.no_disbursement_path
        || s.graph.payment_identity.result == IdentityMatch.match)
      ≡ true
unfolding identity_check clean failed OutcomePath-discrete
identity_matched s OutcomePath.no_disbursement_path p h = refl
identity_matched s OutcomePath.settled_path p h =
    matched_of s s.graph.payment_identity.result
      (remaining (path_of s == some OutcomePath.no_disbursement_path) _ _ (rw p refl) h)

observed_as_expected :
    (s : EvaluationState) (x : Expectation)
    → IsClean (expect s x)
    → (is_filled (current s.index x.claim)
        && every (λ e. e.value == x.value) (current s.index x.claim))
      ≡ true
unfolding expect clean failed
observed_as_expected s x h =
    let (observed, later) = passed_over (not (is_filled (current s.index x.claim))) _ _ h refl in
    both_hold _ _ observed (
      taken (every (λ e. e.value == x.value) (current s.index x.claim)) _ _ later
        (neither (every is_transitional (current s.index x.claim) && s.in_grace) _ _ refl refl))

effect_final :
    (s : EvaluationState) (e : BoundEffect)
    → IsClean (effect_check s e)
    → not (is_recoverable e.ledger.status) ≡ true
unfolding effect_check clean failed
effect_final s e h = rw ((passed_over (is_recoverable e.ledger.status) _ _ h refl).0) refl

expected_checked :
    (s : EvaluationState) (contract : VerificationContract) (path : OutcomePath) (x : Expectation)
    → In x (state_expectations contract path)
    → In (expect s x) (convergence_checks s contract (some path))
unfolding convergence_checks
expected_checked s contract path x i = append-In _ _ _ (inl (map-In (expect s) x _ i))

module _ (s : EvaluationState) (policy : EvaluationPolicy) (contract : VerificationContract)
    (now : ℕ) (report : EvaluationReport)
    (made : evaluate_state s policy contract now ≡ some report)
    (verdict : report.overall_verdict ≡ EvaluationVerdict.pass) where
  -- Each check of a report that passes is clean.
  checked :
      (d : EvaluationDimension) (c : Check)
      → In d all_dimensions
      → In c (checks_of s policy contract now d)
      → IsClean c
  unfolding IsClean
  checked d c i j =
      dimension_status-clean c (checks_of s policy contract now d) j
        (dimension_clean s policy contract now report made verdict d i)

  sufficient : (c : Check) → In c (sufficiency_checks s policy now (path_of s)) → IsClean c
  unfolding In checks_of parts
  sufficient c j =
      checked EvaluationDimension.evidence_sufficiency c (inr (inr (inr (inr (inl refl))))) j

  sourced : s.provenance_valid ≡ true
  unfolding sufficiency_checks insufficient clean failed
  sourced = is_valid _ (
      unflagged (not s.provenance_valid) _
        (λ k j. sufficient k (
          append-In k _ _
            (inl (append-In k _ _ (inl (append-In k _ _ (inl (append-In k _ _ (inl j)))))))))
        refl)

  published : s.pending_reads ≡ false
  unfolding sufficiency_checks insufficient clean failed
  published =
      unflagged s.pending_reads _
        (λ k j. sufficient k (
          append-In k _ _
            (inl (append-In k _ _ (inl (append-In k _ _ (inl (append-In k _ _ (inr j)))))))))
        refl

  unblocked : every (λ g. not (is_blocking (path_of s) g)) s.graph.open_gaps ≡ true
  unfolding sufficiency_checks IsClean gap_check clean failed
  unblocked = In-every _ s.graph.open_gaps (λ g i. elim (Bool-cases (is_blocking (path_of s) g)) [
    | inl b ↦ absurd (
        cc (
          sufficient (gap_check g) (
            append-In (gap_check g) _ _ (
              inr (
                map-In gap_check g _
                  (keep-In (is_blocking (path_of s)) g s.graph.open_gaps i b))))))
    | inr f ↦ rw f refl
  ])

  uncorrupted : s.policy_invalid ≡ false
  unfolding In checks_of parts clean failed
  uncorrupted =
      unflagged s.policy_invalid _
        (λ k j. checked EvaluationDimension.policy k (inr (inr (inr (inr (inr (inl refl)))))) j)
        refl

  resolved : s.recovery_unresolved ≡ false
  unfolding In checks_of parts recovery_checks clean failed
  resolved = first_false _ _ (
      unflagged (s.recovery_unresolved || has_unresolved s) _
        (λ k j.
          checked EvaluationDimension.recovery k (inr (inr (inr (inr (inr (inr (inl refl)))))))
            (append-In k _ _ (inl j)))
        refl)

  converging :
      (path : OutcomePath)
      → path_of s ≡ some path
      → every
          (λ x.
            is_filled (current s.index x.claim)
            && every (λ e. e.value == x.value) (current s.index x.claim))
          (state_expectations contract path)
        ≡ true
  unfolding In checks_of parts
  converging path p = In-every _ (state_expectations contract path) (λ x i.
      observed_as_expected s x (
        checked EvaluationDimension.state_convergence (expect s x) (inr (inr (inl refl)))
          (rw p (expected_checked s contract path x i))))

  on_each_path :
      (p : Option OutcomePath) → path_of s ≡ p → (p == none) ≡ false → Verified s contract
  unfolding In checks_of parts
  on_each_path none p d = absurd (cc d)
  on_each_path (some path) p d = record {
    path = path;
    decided = p;
    identified =
        identity_matched s path p
          (checked EvaluationDimension.identity _ (inr (inl refl)) (inl refl));
    converged = converging path p;
    effects_final = In-every _ s.effects (λ e i. effect_final s e (
        checked EvaluationDimension.side_effect (effect_check s e) (inr (inr (inr (inl refl))))
          (map-In (effect_check s) e s.effects i)));
    provenance = sourced;
    reads_published = published;
    gaps_closed =
        subst (λ q. every (λ g. not (is_blocking q g)) s.graph.open_gaps ≡ true) p unblocked;
    policy_kept = uncorrupted;
    recovered = resolved;
  }

-- A report that passes, of whatever state, policy, contract and instant, is only made of a state in
-- which the money took a path; the payment identity matches, unless nothing was disbursed; each
-- state that the contract expects on that path is observed, and with no other value; no effect is
-- recoverable; the provenance is valid and no read is pending; each open gap is exempt or not
-- critical to safety; no forbidden effect was observed; and no recovery is unresolved.
pub evaluate_state-Verified :
    (s : EvaluationState) (policy : EvaluationPolicy) (contract : VerificationContract) (now : ℕ)
    (report : EvaluationReport)
    → evaluate_state s policy contract now ≡ some report
    → report.overall_verdict ≡ EvaluationVerdict.pass
    → Verified s contract
unfolding In checks_of parts
evaluate_state-Verified s policy contract now report made verdict =
    on_each_path s policy contract now report made verdict (path_of s) refl (
      money_decided s (
        checked s policy contract now report made verdict EvaluationDimension.money _ (inl refl)
          (inl refl)))
