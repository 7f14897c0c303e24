-- ===== src/Identity/Models.antt =====
-- credit_harness/identity/models.py, and the claims of identity/payment.py.
use credit_incident_resoluti.Prelude.{
  ℕ, by_decision, Equality, ℕ_discrete, List, [], ◌∷◌, Option, String,
}
use credit_incident_resoluti.Evidence.Models.{ClaimType, EvidenceSubject, EvidenceSubject-discrete}

pub data IdentityMatch : Type 0 where
  match mismatch unknown : IdentityMatch

pub data IdentityDimension : Type 0 where
  finality transaction request amount currency customer beneficiary account : IdentityDimension

unfoldable pub IdentityMatch-discrete : Discrete IdentityMatch
IdentityMatch-discrete = hlevel

unfoldable pub IdentityDimension-discrete : Discrete IdentityDimension
IdentityDimension-discrete = hlevel

instance abbrev pub identity_match_eq : Equality IdentityMatch
identity_match_eq = by_decision IdentityMatch-discrete

instance abbrev pub identity_dimension_eq : Equality IdentityDimension
identity_dimension_eq = by_decision IdentityDimension-discrete

unfoldable pub identity_claim : IdentityDimension → ClaimType
identity_claim IdentityDimension.finality = ClaimType.payment_finality
identity_claim IdentityDimension.transaction = ClaimType.payment_transaction_id
identity_claim IdentityDimension.request = ClaimType.transaction_fund_request_id
identity_claim IdentityDimension.amount = ClaimType.payment_amount
identity_claim IdentityDimension.currency = ClaimType.payment_currency
identity_claim IdentityDimension.customer = ClaimType.payment_customer_ref
identity_claim IdentityDimension.beneficiary = ClaimType.payment_beneficiary_ref
identity_claim IdentityDimension.account = ClaimType.payment_account_ref

abbrev pub identity_dimensions : List IdentityDimension
identity_dimensions =
    IdentityDimension.finality ∷ IdentityDimension.transaction ∷ IdentityDimension.request
    ∷ IdentityDimension.amount ∷ IdentityDimension.currency ∷ IdentityDimension.customer
    ∷ IdentityDimension.beneficiary ∷ IdentityDimension.account ∷ []

-- What the items of one witness share.
pub record GroupKey : Type 0 where
  pub subject : EvidenceSubject
  pub observation_id : ℕ
  pub event_time : Option ℕ

unfoldable pub GroupKey-discrete : Discrete GroupKey
GroupKey-discrete = hlevel (ℕ_discrete, EvidenceSubject-discrete)

instance abbrev pub group_key_eq : Equality GroupKey
group_key_eq = by_decision GroupKey-discrete

pub record Snapshot : Type 0 where
  pub content_hash : ℕ
  pub source_as_of : Option ℕ
  pub observed_at : ℕ

unfoldable pub Snapshot-discrete : Discrete Snapshot
Snapshot-discrete = hlevel (ℕ_discrete)

instance abbrev pub snapshot_eq : Equality Snapshot
snapshot_eq = by_decision Snapshot-discrete

pub record PaymentIdentityWitness : Type 0 where
  pub observation_id : ℕ
  pub transaction_ref : String
  pub result : IdentityMatch
  pub mismatch_dimensions : List IdentityDimension
  pub unknown_dimensions : List IdentityDimension
  pub evidence_refs : List ℕ

pub record PaymentIdentityResult : Type 0 where
  pub result : IdentityMatch
  pub mismatch_dimensions : List IdentityDimension
  pub unknown_dimensions : List IdentityDimension
  pub witnesses : List PaymentIdentityWitness
  pub evidence_refs : List ℕ
