-- ===== src/Identity/Matching.antt =====
-- What a payment identity that matches stands for.
use credit_incident_resoluti.Prelude.{
  ◌≡◌, refl, sym, ap, ◌∙◌, ◌==◌, arith, Bool, collect-In, distinct, distinct-In, Equality, false,
  if◌then◌else◌, In, In-keep, is_filled, is_filled-In, keep, keep-In, List, [], ◌∷◌, map, map-In,
  nat_eq, none, Option, some, sole-In, sole-is_filled, string_eq, true,
}
use credit_incident_resoluti.Evidence.Models.{
  claim_type_eq, Evidence, EvidenceSubject, evidence_subject_eq, Value, value_eq,
}
use credit_incident_resoluti.Hypotheses.Index.{EvidenceIndex}
use credit_incident_resoluti.Hypotheses.Current.{current-Current}
use credit_incident_resoluti.Identity.Payment
use credit_incident_resoluti.Identity.Settled.{listed, Settled, match-Settled}
use credit_incident_resoluti.Identity.Models
use credit_incident_resoluti.Identity.Models.{
  identity_dimension_eq, identity_match_eq, group_key_eq,
}

-- Every dimension is stated by a primary payment fact; all payment facts state, for the transaction
-- that they are about, the value that the Case expects; and they are about one transaction.
pub record Matches (index : EvidenceIndex) : Type 0 where
  pub stated :
      (d : Models.IdentityDimension)
      → (e : Evidence) × In e (Payment.payment_facts index (Models.identity_claim d))
  pub expected :
      (d : Models.IdentityDimension) (e : Evidence)
      → In e (Payment.payment_facts index (Models.identity_claim d))
      → Payment.expected index e.subject d ≡ some e.value
  pub one_transaction :
      (e other : Evidence)
      → In e (Payment.all_payment_facts index)
      → In other (Payment.all_payment_facts index)
      → e.subject.identifier ≡ other.subject.identifier

-- The witness that a payment fact belongs to, and the items of it.
items_of : EvidenceIndex → Evidence → List Evidence
items_of index e =
    keep (λ x. Payment.group_key x == Payment.group_key e) (Payment.all_payment_facts index)

witness_of : EvidenceIndex → Evidence → Models.PaymentIdentityWitness
unfolding items_of
witness_of index e = Payment.payment_witness index (Payment.group_key e) (items_of index e)

witnessed :
    (index : EvidenceIndex) (e : Evidence)
    → In e (Payment.all_payment_facts index)
    → In (witness_of index e) (Payment.payment_witnesses index)
unfolding Payment.payment_witnesses witness_of items_of
witnessed index e h =
    map-In
      (λ key.
        Payment.payment_witness index key
          (keep (λ x. Payment.group_key x == key) (Payment.all_payment_facts index)))
      (Payment.group_key e) _
      (distinct-In (Payment.group_key e) _
        (map-In Payment.group_key e (Payment.all_payment_facts index) h))

compared-match :
    (value simultaneous wanted : Option Value)
    → Payment.compared value simultaneous wanted ≡ Models.IdentityMatch.match
    → (v : Value) × ((value ≡ some v)
        × ((wanted ≡ some v) × ((u : Value) × (simultaneous ≡ some u))))
unfolding Payment.compared
compared-match (some v) (some u) (some w) h =
    let same : v ≡ w = ground arith in (v, (refl, (ap some (sym same), (u, refl))))
compared-match none _ _ h = absurd (cc h)
compared-match (some v) none _ h = absurd (cc h)
compared-match (some v) (some u) none h = absurd (cc h)

-- Neither unknown nor a mismatch, in any dimension.
decided :
    (index : EvidenceIndex) (subject : EvidenceSubject) (items : List Evidence)
    (d : Models.IdentityDimension)
    → Payment.is_mismatch index subject items d ≡ false
    → Payment.is_unknown index subject items d ≡ false
    → Payment.compare_dimension index subject items d ≡ Models.IdentityMatch.match
unfolding Payment.is_mismatch Payment.is_unknown
decided index subject items d m u = ground arith

never : (b : Bool) → ¬ (b ≡ true) → b ≡ false
never true h = absurd (h refl)
never false h = refl

compared_of :
    (index : EvidenceIndex) (e : Evidence) (d : Models.IdentityDimension)
    → Settled index
    → In e (Payment.all_payment_facts index)
    → Payment.compare_dimension index e.subject (items_of index e) d ≡ Models.IdentityMatch.match
unfolding witness_of Payment.payment_witness Payment.group_key
compared_of index e d settled h =
    let w = witnessed index e h in
    decided index e.subject (items_of index e) d
      (never _
        (λ t. settled.no_mismatch _ d w (keep-In _ d Models.identity_dimensions (listed d) t)))
      (never _
        (λ t. settled.no_unknown _ d w (keep-In _ d Models.identity_dimensions (listed d) t)))

coherent_match :
    (b : Bool) (m : Models.IdentityMatch)
    → (if b then m else Models.IdentityMatch.unknown) ≡ Models.IdentityMatch.match
    → m ≡ Models.IdentityMatch.match
coherent_match b m h = ground arith

values_of :
    (index : EvidenceIndex) (e : Evidence) (d : Models.IdentityDimension)
    → Settled index
    → In e (Payment.all_payment_facts index)
    → (v : Value) × ((Payment.sole_value
            (keep (λ x. x.claim_type == Models.identity_claim d) (items_of index e))
          ≡ some v)
        × ((Payment.expected index e.subject d ≡ some v)
            × ((u : Value) × (Payment.sole_value (
                    keep
                      (λ x. x.subject == e.subject)
                      (Payment.payment_facts index (Models.identity_claim d)))
                  ≡ some u))))
unfolding Payment.compare_dimension
values_of index e d settled h =
    compared-match _ _ _
      (coherent_match (Payment.is_coherent (items_of index e)) _ (compared_of index e d settled h))

filled_of_map :
    {A B : Type 0} (f : A → B) (xs : List A) → is_filled (map f xs) ≡ true → is_filled xs ≡ true
unfolding is_filled
filled_of_map f [] h = h
filled_of_map f (x ∷ xs) h = refl

filled_of_distinct :
    {A : Type 0} ⦃e : Equality A⦄ (xs : List A)
    → is_filled (distinct xs) ≡ true
    → is_filled xs ≡ true
unfolding is_filled distinct
filled_of_distinct [] h = h
filled_of_distinct (x ∷ xs) h = refl

some_fact :
    (index : EvidenceIndex)
    → Settled index
    → (e : Evidence) × In e (Payment.all_payment_facts index)
unfolding Payment.payment_witnesses
some_fact index settled = is_filled-In _ (
    filled_of_map Payment.group_key (Payment.all_payment_facts index)
      (filled_of_distinct _ (filled_of_map _ _ settled.filled)))

claim_of :
    (index : EvidenceIndex) (d : Models.IdentityDimension) (e : Evidence)
    → In e (Payment.payment_facts index (Models.identity_claim d))
    → (e.claim_type == Models.identity_claim d) ≡ true
unfolding Payment.payment_facts
claim_of index d e h =
    let claims =
      (current-Current index (Models.identity_claim d) e
        (In-keep Payment.is_payment_fact e _ h).0).claims in
    ground arith

stated_of :
    (index : EvidenceIndex) (d : Models.IdentityDimension)
    → Settled index
    → (e : Evidence) × In e (Payment.payment_facts index (Models.identity_claim d))
unfolding Payment.sole_value
stated_of index d settled =
    let (fact, found) = some_fact index settled in
    let (_, (_, (_, (u, simultaneous)))) = values_of index fact d settled found in
    let filled = filled_of_map (λ (x : Evidence). x.value) _ (sole-is_filled u _ simultaneous) in
    let (e, i) = is_filled-In _ filled in
    (
      e,
      (In-keep (λ x. x.subject == fact.subject) e
          (Payment.payment_facts index (Models.identity_claim d)) i).0,
    )

fact_among_all :
    (index : EvidenceIndex) (d : Models.IdentityDimension) (e : Evidence)
    → In e (Payment.payment_facts index (Models.identity_claim d))
    → In e (Payment.all_payment_facts index)
unfolding Payment.all_payment_facts
fact_among_all index d e h =
    collect-In (λ x. Payment.payment_facts index (Models.identity_claim x)) e d
      Models.identity_dimensions (listed d) h

expected_of :
    (index : EvidenceIndex) (d : Models.IdentityDimension) (e : Evidence)
    → Settled index
    → In e (Payment.payment_facts index (Models.identity_claim d))
    → Payment.expected index e.subject d ≡ some e.value
unfolding Payment.sole_value items_of
expected_of index d e settled h =
    let found = fact_among_all index d e h in
    let (v, (sole_v, (wanted, _))) = values_of index e d settled found in
    let item =
      keep-In (λ x. Payment.group_key x == Payment.group_key e) e (Payment.all_payment_facts index)
        found (ground arith) in
    let claims =
      keep-In (λ x. x.claim_type == Models.identity_claim d) e _ item (claim_of index d e h) in
    let same = sole-In e.value v _ sole_v (map-In (λ (x : Evidence). x.value) e _ claims) in
    wanted ∙ ap some (sym same)

-- Where the identity of the payment matches, each of the eight dimensions is stated by a primary
-- fact of the payment source; every such fact states, for its transaction, the value that the Case
-- expects of that dimension; and all of them are about one transaction.
pub verify_payment_identity-Matches :
    (index : EvidenceIndex)
    → (Payment.verify_payment_identity index).result ≡ Models.IdentityMatch.match
    → Matches index
unfolding witness_of Payment.payment_witness Payment.group_key
verify_payment_identity-Matches index h =
    let settled = match-Settled index h in
    record {
      stated = λ d. stated_of index d settled;
      expected = λ d e. expected_of index d e settled;
      one_transaction =
          λ e other i j. settled.single _ _ (witnessed index e i) (witnessed index other j);
    }
