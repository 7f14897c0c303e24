-- ===== src/Evaluation/Final.antt =====
-- What a report that passes states of the ledger and of its recovery, from the tables that were read.
use credit_incident_resoluti.Prelude.{
  ℕ, ◌≡◌, ◌&&◌, ◌||◌, any, ap, arith, Bool, collect, collect-In, every, every-In, false,
  if◌then◌else◌, In, In-every, nat_eq, inl, inr, is_none, List, not, not_any-In, Option, none, refl,
  some, String, subst, ◌∙◌, sym, true, ◌⊎◌,
}
use credit_incident_resoluti.Domain.{effect_status_eq, is_recoverable}
use credit_incident_resoluti.Database.{Db, Deployment}
use credit_incident_resoluti.Authorization.Models.{EffectRow, SideEffectLedger, RemediationIntent}
use credit_incident_resoluti.Evidence.Models.{Case}
use credit_incident_resoluti.Hypotheses.Index.{EvidenceIndex, evidence_index}
use credit_incident_resoluti.Hypotheses.Models.{HypothesisGraphView}
use credit_incident_resoluti.Hypotheses.Engine.{evaluate, graph_of}
use credit_incident_resoluti.Hypotheses.Checked.{evaluate-accepted}
use credit_incident_resoluti.Evaluation.Models.{
  BoundEffect, EvaluationPolicy, EvaluationState, EvaluationVerdict, VerificationContract,
}
use credit_incident_resoluti.Evaluation.Report.{evaluate_state, EvaluationReport}
use credit_incident_resoluti.Evaluation.Snapshot.{
  admitted, state_with, attempt_rows, bound_effects, bound_with, CatalogEntry, effect_rows,
  intent_of, invalid_with, is_invalid, is_row_of, is_unfinished, read_state, recovery_rows,
  VerifiedEvidenceRead,
}
use credit_incident_resoluti.Evaluation.Verified.{evaluate_state-Verified, Verified}

-- Every effect of the Case is final and authorized, no worker recovers one, and no attempt is open.
pub record Final (env : Deployment) (catalog : List CatalogEntry) (db : Db) (case : Case) (now : ℕ)
    : Type 0 where
  pub effects_final :
      every (λ r. not (is_recoverable r.status)) (effect_rows env catalog db case) ≡ true
  pub effects_authorized :
      every (λ r. not (is_invalid env catalog db case r)) (effect_rows env catalog db case) ≡ true
  pub unleased :
      every (λ r. not (is_unfinished env catalog db case now r)) (recovery_rows env catalog db case)
      ≡ true
  pub attempts_completed :
      every (λ a. not (is_none a.completed_at)) (attempt_rows env catalog db case) ≡ true

none-every :
    {A : Type 0} (p : A → Bool) (xs : List A) → any p xs ≡ false → every (λ x. not (p x)) xs ≡ true
none-every p xs h = In-every _ xs (λ x i. rw (not_any-In p x xs h i) refl)

neither_holds : (a b : Bool) → (a || b) ≡ false → (a ≡ false) × (b ≡ false)
neither_holds a b h = ground arith

if_some :
    {X : Type 0} (b : Bool) (x : Option X) (y : X) → (if b then x else none) ≡ some y → b ≡ true
if_some true x y h = refl
if_some false x y h = absurd (cc h)

second_holds : (a b c d e f g : Bool) → (a && b && c && d && e && f && g) ≡ true → b ≡ true
second_holds a b c d e f g h = ground arith

made_state :
    {X E : Type 0} (x : X ⊎ EvidenceIndex) (y : E ⊎ HypothesisGraphView)
    (f : EvidenceIndex → HypothesisGraphView → EvaluationState) (s : EvaluationState)
    → (elim x [
      | inl refused ↦ none
      | inr index ↦ elim y [ inl refused ↦ none | inr graph ↦ some (f index graph) ]
    ])
      ≡ some s
    → (index : EvidenceIndex) × ((graph : HypothesisGraphView) × (f index graph ≡ s))
made_state (inl e) y f s h = absurd (cc h)
made_state (inr i) (inl e) f s h = absurd (cc h)
made_state (inr i) (inr g) f s h = (i, (g, (cc h)))

accepted :
    {X E : Type 0} (x : X ⊎ EvidenceIndex) (y : E ⊎ HypothesisGraphView)
    (f : EvidenceIndex → HypothesisGraphView → EvaluationState) (index : EvidenceIndex)
    (graph : HypothesisGraphView)
    → x ≡ inr index
    → y ≡ inr graph
    → (elim x [
      | inl refused ↦ none
      | inr found ↦ elim y [ inl refused ↦ none | inr made ↦ some (f found made) ]
    ])
      ≡ some (f index graph)
accepted x y f index graph h e =
    subst
      (λ z.
        elim z [
          | inl refused ↦ none
          | inr found ↦ elim y [ inl refused ↦ none | inr made ↦ some (f found made) ]
        ]
        ≡ some (f index graph))
      (sym h)
      (subst
        (λ z. elim z [ inl refused ↦ none | inr made ↦ some (f index made) ] ≡ some (f index graph))
        (sym e) refl)

module _ (env : Deployment) (catalog : List CatalogEntry) (db : Db) (case : Case) where
  -- What the reader takes from the tables.
  read_tables :
      (policy : EvaluationPolicy) (read : VerifiedEvidenceRead) (text_of : ℕ → String) (now : ℕ)
      (s : EvaluationState)
      → read_state env catalog db case policy read text_of now ≡ some s
      → (s.effects ≡ collect (bound_effects env catalog db case) (effect_rows env catalog db case))
        × ((s.policy_invalid
              ≡ any (is_invalid env catalog db case) (effect_rows env catalog db case))
            × (s.recovery_unresolved ≡ (
                any (is_unfinished env catalog db case now) (recovery_rows env catalog db case)
                || any (λ a. is_none a.completed_at) (attempt_rows env catalog db case))))
  unfolding read_state state_with
  read_tables policy read text_of now s h =
      let present = admitted env catalog db case policy read now in
      let (index, (graph, e)) =
        made_state (evidence_index case present) (evaluate case present)
          (state_with env catalog db case policy read text_of now) s h in
      (
        sym (ap (λ t. t.effects) e),
        (sym (ap (λ t. t.policy_invalid) e), sym (ap (λ t. t.recovery_unresolved) e)),
      )

  -- The reader refuses no Evidence that the index accepts.
  pub read_state-indexed :
      (policy : EvaluationPolicy) (read : VerifiedEvidenceRead) (text_of : ℕ → String) (now : ℕ)
      (index : EvidenceIndex)
      → evidence_index case (admitted env catalog db case policy read now) ≡ inr index
      → read_state env catalog db case policy read text_of now
        ≡ some (state_with env catalog db case policy read text_of now index (graph_of index))
  unfolding read_state
  read_state-indexed policy read text_of now index h =
      accepted (evidence_index case (admitted env catalog db case policy read now))
        (evaluate case (admitted env catalog db case policy read now))
        (state_with env catalog db case policy read text_of now) index (graph_of index) h
        (evaluate-accepted case (admitted env catalog db case policy read now) index h)

  bound_row :
      (row : EffectRow) (intent : Option RemediationIntent)
      → intent_of env catalog db case row ≡ intent
      → invalid_with env catalog db case row intent ≡ false
      → (is_row_of env catalog db case row ≡ true)
        × ((b : BoundEffect) × ((b.ledger ≡ row.payload)
              × In b (bound_with env catalog db case row intent)))
  unfolding intent_of In invalid_with bound_with
  bound_row row none h v = absurd (cc v)
  bound_row row (some intent) h v = (if_some _ _ intent h, (_, (refl, inl refl)))

  row_status :
      (row : EffectRow) → is_row_of env catalog db case row ≡ true → row.status ≡ row.payload.status
  unfolding is_row_of
  row_status row h =
      (effect_status_eq.agrees_iff row.status row.payload.status).0 (second_holds _ _ _ _ _ _ _ h)

  final_status :
      (row : EffectRow) (b : BoundEffect)
      → is_row_of env catalog db case row ≡ true
      → b.ledger ≡ row.payload
      → not (is_recoverable b.ledger.status) ≡ true
      → not (is_recoverable row.status) ≡ true
  final_status row b matches same h =
      subst (λ t. not (is_recoverable t) ≡ true)
        (ap (λ (l : SideEffectLedger). l.status) same ∙ sym (row_status row matches)) h

  module _ (policy : EvaluationPolicy) (contract : VerificationContract)
      (read : VerifiedEvidenceRead) (text_of : ℕ → String) (now : ℕ) (s : EvaluationState)
      (given : read_state env catalog db case policy read text_of now ≡ some s)
      (verified : Verified s contract) where
    all_valid : any (is_invalid env catalog db case) (effect_rows env catalog db case) ≡ false
    all_valid = cc ((read_tables policy read text_of now s given).1.0, verified.policy_kept)

    row_final :
        (row : EffectRow)
        → In row (effect_rows env catalog db case)
        → not (is_recoverable row.status) ≡ true
    unfolding bound_effects is_invalid
    row_final row i =
        let (matches, (b, (same, among))) =
          bound_row row (intent_of env catalog db case row) refl
            (not_any-In (is_invalid env catalog db case) row _ all_valid i) in
        let there =
          collect-In (bound_effects env catalog db case) b row (effect_rows env catalog db case) i
            among in
        final_status row b matches same (
          every-In _ b _ verified.effects_final
            (subst (λ xs. In b xs) (sym (read_tables policy read text_of now s given).0) there))

    all_recovered :
        (any (is_unfinished env catalog db case now) (recovery_rows env catalog db case) ≡ false)
        × (any (λ a. is_none a.completed_at) (attempt_rows env catalog db case) ≡ false)
    all_recovered =
        neither_holds _ _
          (cc ((read_tables policy read text_of now s given).1.1, verified.recovered))

-- Where the tables and a verified read of the Evidence are evaluated, with whatever policy and
-- contract, and the report passes, no stored effect of the Case has a status that recovery would
-- take up, each is bound to its intent and capability and is not forbidden, no recovery of the Case
-- is escalated, leased or of another tenant, and every recovery attempt is completed.
pub evaluate_read-Final :
    (env : Deployment) (catalog : List CatalogEntry) (db : Db) (case : Case)
    (policy : EvaluationPolicy) (contract : VerificationContract) (read : VerifiedEvidenceRead)
    (text_of : ℕ → String) (now : ℕ) (s : EvaluationState) (report : EvaluationReport)
    → read_state env catalog db case policy read text_of now ≡ some s
    → evaluate_state s policy contract now ≡ some report
    → report.overall_verdict ≡ EvaluationVerdict.pass
    → Final env catalog db case now
evaluate_read-Final env catalog db case policy contract read text_of now s report given made
      verdict =
    let verified = evaluate_state-Verified s policy contract now report made verdict in
    let (unleased, completed) =
      all_recovered env catalog db case policy contract read text_of now s given verified in
    record {
      effects_final =
          In-every _ (effect_rows env catalog db case)
            (row_final env catalog db case policy contract read text_of now s given verified);
      effects_authorized =
          none-every _ _
            (all_valid env catalog db case policy contract read text_of now s given verified);
      unleased = none-every _ _ unleased;
      attempts_completed = none-every _ _ completed;
    }
