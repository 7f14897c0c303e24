-- ===== src/Identity/Settled.antt =====
-- What a match says of the witnesses.
use credit_incident_resoluti.Prelude.{
  ◌≡◌, refl, sym, ◌⊎◌, ◌∙◌, subst, Option-cases, arith, Bool, collect, collect-In, distinct,
  distinct-In, false, In, In-is_filled, inl, inr, is_filled, is_filled-In, List, [], ◌∷◌, ◌++◌,
  append-In, map-In, nat_eq, some, sole, sole-In, sorted_by, sorted_by-In, String, string_eq, true,
}
use credit_incident_resoluti.Evidence.Models.{claim_type_eq, evidence_subject_eq, value_eq}
use credit_incident_resoluti.Hypotheses.Index.{EvidenceIndex}
use credit_incident_resoluti.Identity.Payment
use credit_incident_resoluti.Identity.Models
use credit_incident_resoluti.Identity.Models.{
  identity_dimension_eq, identity_match_eq, group_key_eq,
}

verdict-match :
    (mismatches unknowns : List Models.IdentityDimension)
    → Payment.verdict mismatches unknowns ≡ Models.IdentityMatch.match
    → (is_filled mismatches ≡ false) × (is_filled unknowns ≡ false)
unfolding Payment.verdict
verdict-match mismatches unknowns h = ground arith

-- A dimension that stands in a list stands in the sorted set of it.
sorted-is_filled :
    (d : Models.IdentityDimension) (xs : List Models.IdentityDimension)
    → In d xs
    → is_filled (sorted_by Payment.dimension_rank (distinct xs)) ≡ true
sorted-is_filled d xs h =
    In-is_filled d _ (sorted_by-In Payment.dimension_rank d (distinct xs) (distinct-In d xs h))

pub listed : (d : Models.IdentityDimension) → In d Models.identity_dimensions
unfolding In
listed Models.finality = inl refl
listed Models.transaction = inr (inl refl)
listed Models.request = inr (inr (inl refl))
listed Models.amount = inr (inr (inr (inl refl)))
listed Models.currency = inr (inr (inr (inr (inl refl))))
listed Models.customer = inr (inr (inr (inr (inr (inl refl)))))
listed Models.beneficiary = inr (inr (inr (inr (inr (inr (inl refl))))))
listed Models.account = inr (inr (inr (inr (inr (inr (inr (inl refl)))))))

-- What a match says of the witnesses: none of them leaves a dimension open or differs in one.
pub record Settled (index : EvidenceIndex) : Type 0 where
  pub no_mismatch :
      (w : Models.PaymentIdentityWitness) (d : Models.IdentityDimension)
      → In w (Payment.payment_witnesses index)
      → ¬ In d w.mismatch_dimensions
  pub no_unknown :
      (w : Models.PaymentIdentityWitness) (d : Models.IdentityDimension)
      → In w (Payment.payment_witnesses index)
      → ¬ In d w.unknown_dimensions
  pub filled : is_filled (Payment.payment_witnesses index) ≡ true
  pub single :
      (w other : Models.PaymentIdentityWitness)
      → In w (Payment.payment_witnesses index)
      → In other (Payment.payment_witnesses index)
      → w.transaction_ref ≡ other.transaction_ref

pub not_filled : (b : Bool) → b ≡ true → b ≡ false → ⊥
not_filled b t f = absurd (cc (t, f))

none_unwitnessed :
    (ws : List Models.PaymentIdentityWitness)
    → ¬ In Models.finality (Payment.unwitnessed ws)
    → is_filled ws ≡ true
unfolding Payment.unwitnessed In is_filled
none_unwitnessed [] h = absurd (h (inl refl))
none_unwitnessed (w ∷ ws) h = refl

none_ambiguous :
    (ws : List Models.PaymentIdentityWitness)
    → is_filled (Payment.transactions_of ws) ≡ true
    → ¬ In Models.transaction (Payment.ambiguous ws)
    → (ref : String) × (sole (Payment.transactions_of ws) ≡ some ref)
unfolding Payment.ambiguous In
none_ambiguous ws f h = elim (Option-cases (sole (Payment.transactions_of ws))) [
  | inl missing ↦
      absurd
        (h (subst (In Models.transaction) {x = Models.transaction ∷ []} (ground arith) (inl refl)))
  | inr found ↦ found
]

transactions-is_filled :
    (w : Models.PaymentIdentityWitness) (ws : List Models.PaymentIdentityWitness)
    → In w ws
    → In w.transaction_ref (Payment.transactions_of ws)
unfolding Payment.transactions_of
transactions-is_filled w ws h =
    distinct-In w.transaction_ref _
      (map-In (λ (x : Models.PaymentIdentityWitness). x.transaction_ref) w ws h)

one_ref :
    (ws : List Models.PaymentIdentityWitness) (ref : String) (w : Models.PaymentIdentityWitness)
    → sole (Payment.transactions_of ws) ≡ some ref
    → In w ws
    → w.transaction_ref ≡ ref
unfolding Payment.transactions_of
one_ref ws ref w s h =
    sole-In w.transaction_ref ref _ s
      (map-In (λ (x : Models.PaymentIdentityWitness). x.transaction_ref) w ws h)

unknown_among :
    (d : Models.IdentityDimension) (ws : List Models.PaymentIdentityWitness)
    → In d (collect (λ w. w.unknown_dimensions) ws)
      ⊎ (In d (Payment.unwitnessed ws) ⊎ In d (Payment.ambiguous ws))
    → In d (Payment.unknowns_of ws)
unfolding Payment.unknowns_of
unknown_among d ws (inl h) =
    append-In d (collect (λ w. w.unknown_dimensions) ws)
      (Payment.unwitnessed ws ++ Payment.ambiguous ws) (inl h)
unknown_among d ws (inr h) =
    append-In d (collect (λ w. w.unknown_dimensions) ws)
      (Payment.unwitnessed ws ++ Payment.ambiguous ws)
      (inr (append-In d (Payment.unwitnessed ws) (Payment.ambiguous ws) h))

pub match-Settled :
    (index : EvidenceIndex)
    → (Payment.verify_payment_identity index).result ≡ Models.IdentityMatch.match
    → Settled index
unfolding Payment.verify_payment_identity
match-Settled index h =
    let ws = Payment.payment_witnesses index in
    let (no_mismatches, no_unknowns) = verdict-match _ _ h in
    let closed : (d : Models.IdentityDimension) → ¬ In d (Payment.unknowns_of ws) =
      λ d i. not_filled _ (sorted-is_filled d (Payment.unknowns_of ws) i) no_unknowns in
    let filled : is_filled ws ≡ true =
      none_unwitnessed ws (λ i. closed Models.finality (unknown_among _ ws (inr (inl i)))) in
    let (w, i) = is_filled-In ws filled in
    let (ref, one) =
      none_ambiguous ws (In-is_filled w.transaction_ref _ (transactions-is_filled w ws i))
        (λ i. closed Models.transaction (unknown_among _ ws (inr (inr i)))) in
    record {
      no_mismatch = λ w d i m.
          not_filled _ (sorted-is_filled d _ (collect-In (λ x. x.mismatch_dimensions) d w ws i m))
            no_mismatches;
      no_unknown = λ w d i m.
          closed d (unknown_among d ws (inl (collect-In (λ x. x.unknown_dimensions) d w ws i m)));
      filled = filled;
      single = λ w other i j. one_ref ws ref w one i ∙ sym (one_ref ws ref other one j);
    }
