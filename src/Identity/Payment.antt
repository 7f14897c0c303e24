-- ===== src/Identity/Payment.antt =====
-- credit_harness/identity/payment.py and service.py over identity/models.py. The witnesses stand in
-- the order of their first item; the source sorts them by the text of their key.
use credit_incident_resoluti.Prelude.{
  ℕ, ◌==◌, ◌!=◌, ◌&&◌, ◌||◌, Bool, collect, contains, distinct, if◌then◌else◌, is_filled, is_none,
  keep, List, [], ◌∷◌, ◌++◌, map, nat_eq, none, not, Option, option_eq, some, sole, sorted_by,
  String, string_eq,
}
use credit_incident_resoluti.Domain.{ToolName, tool_name_eq}
use credit_incident_resoluti.Evidence.Models.{
  ClaimType, claim_type_eq, Evidence, EvidenceSubject, evidence_subject_eq, FinancialSubject,
  SourceKind, source_kind_eq, SubjectKind, subject_kind_eq, Value, value_eq,
}
use credit_incident_resoluti.Identity.Models.{
  IdentityMatch, IdentityDimension, GroupKey, Snapshot, PaymentIdentityWitness,
  PaymentIdentityResult, identity_match_eq, identity_dimension_eq, identity_claim,
  identity_dimensions, group_key_eq, snapshot_eq,
}
use credit_incident_resoluti.Hypotheses.Index.{current, EvidenceIndex, refs, request_id, request_of}

unfoldable pub group_key : Evidence → GroupKey
group_key e = record {
  subject = e.subject;
  observation_id = e.observation_id;
  event_time = e.event_time;
}

unfoldable pub is_payment_fact : Evidence → Bool
is_payment_fact e =
    e.tool == ToolName.payment
    && e.source_kind == SourceKind.primary
    && e.subject.kind == SubjectKind.transaction

-- `current[claim]`
unfoldable pub payment_facts : EvidenceIndex → ClaimType → List Evidence
unfolding is_payment_fact
payment_facts index claim = keep is_payment_fact (current index claim)

unfoldable pub all_payment_facts : EvidenceIndex → List Evidence
unfolding payment_facts identity_claim
all_payment_facts index = collect (λ d. payment_facts index (identity_claim d)) identity_dimensions

-- Primary facts that name the Case's one request.
unfoldable pub anchors : EvidenceIndex → List Evidence
anchors index =
    keep
      (λ e.
        e.source_kind == SourceKind.primary
        && contains e.tool (ToolName.trace ∷ ToolName.guarantee ∷ ToolName.fund ∷ [])
        && some (request_of e) == request_id index)
      (collect (current index) (
        ClaimType.request_sent ∷ ClaimType.http_response_status ∷ ClaimType.guarantee_status
        ∷ ClaimType.fund_business_status ∷ []))

financial : (FinancialSubject → Value) → Option FinancialSubject → Option Value
financial f none = none
financial f (some s) = some (f s)

requested : Option String → Option Value
requested none = none
requested (some ref) = some (Value.word ref)

unfoldable pub expected : EvidenceIndex → EvidenceSubject → IdentityDimension → Option Value
unfolding financial requested anchors
expected index subject d = elim d [
  | IdentityDimension.finality ↦ some (Value.word "SETTLED")
  | IdentityDimension.transaction ↦ some (Value.word subject.identifier)
  | IdentityDimension.request ↦
      if is_filled (anchors index) then requested (request_id index) else none
  | IdentityDimension.amount ↦
      financial (λ s. Value.number s.expected_principal_minor) index.case.financial_subject
  | IdentityDimension.currency ↦ financial (λ s. Value.word s.currency) index.case.financial_subject
  | IdentityDimension.customer ↦
      financial (λ s. Value.word s.customer_ref) index.case.financial_subject
  | IdentityDimension.beneficiary ↦
      financial (λ s. Value.word s.expected_beneficiary_ref) index.case.financial_subject
  | IdentityDimension.account ↦
      financial (λ s. Value.word s.expected_account_ref) index.case.financial_subject
]

-- The one value of a set of values.
unfoldable pub sole_value : List Evidence → Option Value
sole_value items = sole (distinct (map (λ e. e.value) items))

snapshot : Evidence → Snapshot
snapshot e = record {
  content_hash = e.content_hash;
  source_as_of = e.source_as_of;
  observed_at = e.observed_at;
}

-- The items come from one snapshot of the source.
unfoldable pub is_coherent : List Evidence → Bool
unfolding snapshot
is_coherent items = not (is_none (sole (distinct (map snapshot items))))

-- ReferenceIdentityVerificationService._compare, and the check of the types: both are equality of
-- values here.
unfoldable pub compared : Option Value → Option Value → Option Value → IdentityMatch
compared (some value) (some simultaneous) (some wanted) =
    if value == wanted then IdentityMatch.match else IdentityMatch.mismatch
compared _ _ _ = IdentityMatch.unknown

-- The comparison of one dimension, before the finality is set apart.
unfoldable pub compare_dimension :
    EvidenceIndex → EvidenceSubject → List Evidence → IdentityDimension → IdentityMatch
unfolding compared is_coherent sole_value expected payment_facts identity_claim
compare_dimension index subject items d =
    if is_coherent items
    then compared (sole_value (keep (λ e. e.claim_type == identity_claim d) items))
        (sole_value (keep (λ e. e.subject == subject) (payment_facts index (identity_claim d))))
        (expected index subject d)
    else IdentityMatch.unknown

unfoldable pub is_mismatch :
    EvidenceIndex → EvidenceSubject → List Evidence → IdentityDimension → Bool
unfolding compare_dimension
is_mismatch index subject items d =
    d != IdentityDimension.finality
    && compare_dimension index subject items d == IdentityMatch.mismatch

unfoldable pub is_unknown :
    EvidenceIndex → EvidenceSubject → List Evidence → IdentityDimension → Bool
unfolding compare_dimension
is_unknown index subject items d =
    compare_dimension index subject items d == IdentityMatch.unknown
    || (d == IdentityDimension.finality
        && compare_dimension index subject items d == IdentityMatch.mismatch)

-- `M.MISMATCH if mismatch else M.UNKNOWN if unknown else M.MATCH`
unfoldable pub verdict : List IdentityDimension → List IdentityDimension → IdentityMatch
verdict mismatches unknowns =
    if is_filled mismatches
    then IdentityMatch.mismatch
    else if is_filled unknowns
    then IdentityMatch.unknown
    else IdentityMatch.match

unfoldable pub payment_witness : EvidenceIndex → GroupKey → List Evidence → PaymentIdentityWitness
unfolding is_mismatch is_unknown verdict anchors
payment_witness index key items =
    let mismatches = keep (is_mismatch index key.subject items) identity_dimensions in
    let unknowns = keep (is_unknown index key.subject items) identity_dimensions in
    record {
      observation_id = key.observation_id;
      transaction_ref = key.subject.identifier;
      result = verdict mismatches unknowns;
      mismatch_dimensions = mismatches;
      unknown_dimensions = unknowns;
      evidence_refs = refs (items ++ anchors index);
    }

unfoldable pub payment_witnesses : EvidenceIndex → List PaymentIdentityWitness
unfolding all_payment_facts group_key payment_witness
payment_witnesses index =
    let facts = all_payment_facts index in
    map (λ key. payment_witness index key (keep (λ e. group_key e == key) facts))
      (distinct (map group_key facts))

-- Without a witness every dimension is unknown.
unfoldable pub unwitnessed : List PaymentIdentityWitness → List IdentityDimension
unwitnessed witnesses = if is_filled witnesses then [] else identity_dimensions

unfoldable pub transactions_of : List PaymentIdentityWitness → List String
transactions_of witnesses = distinct (map (λ w. w.transaction_ref) witnesses)

-- Several transactions are reconciled explicitly: none of them is chosen.
unfoldable pub ambiguous : List PaymentIdentityWitness → List IdentityDimension
unfolding transactions_of
ambiguous witnesses =
    if is_filled (transactions_of witnesses) && is_none (sole (transactions_of witnesses))
    then IdentityDimension.transaction ∷ []
    else []

unfoldable pub unknowns_of : List PaymentIdentityWitness → List IdentityDimension
unfolding unwitnessed ambiguous
unknowns_of witnesses =
    collect (λ w. w.unknown_dimensions) witnesses ++ (unwitnessed witnesses ++ ambiguous witnesses)

-- The alphabetical order of the dimensions.
unfoldable pub dimension_rank : IdentityDimension → ℕ
dimension_rank IdentityDimension.account = 0
dimension_rank IdentityDimension.amount = 1
dimension_rank IdentityDimension.beneficiary = 2
dimension_rank IdentityDimension.currency = 3
dimension_rank IdentityDimension.customer = 4
dimension_rank IdentityDimension.finality = 5
dimension_rank IdentityDimension.request = 6
dimension_rank IdentityDimension.transaction = 7

unfoldable pub verify_payment_identity : EvidenceIndex → PaymentIdentityResult
unfolding payment_witnesses unknowns_of verdict dimension_rank
verify_payment_identity index =
    let witnesses = payment_witnesses index in
    let mismatches =
      sorted_by dimension_rank (distinct (collect (λ w. w.mismatch_dimensions) witnesses)) in
    let unknowns = sorted_by dimension_rank (distinct (unknowns_of witnesses)) in
    record {
      result = verdict mismatches unknowns;
      mismatch_dimensions = mismatches;
      unknown_dimensions = unknowns;
      witnesses = witnesses;
      evidence_refs = sorted_by (λ ref. ref) (distinct (collect (λ w. w.evidence_refs) witnesses));
    }
