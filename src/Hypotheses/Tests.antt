-- ===== src/Hypotheses/Tests.antt =====
-- A Case whose request timed out while the payment was settled.
use credit_incident_resoluti.Prelude.{ℕ, ◌≡◌, ◌≢◌, refl, inl, In, List, [], ◌∷◌, none, some}
use credit_incident_resoluti.Domain.{CaseStatus, ToolName}
use credit_incident_resoluti.Evidence.Models.{
  Case, ClaimType, Completeness, Evidence, EvidenceSubject, Freshness, SourceKind, SubjectKind,
  Value,
}
use credit_incident_resoluti.Hypotheses.Index.{agreed, current, EvidenceIndex}
use credit_incident_resoluti.Hypotheses.Models.{HypothesisId, HypothesisStatus, PriorityClass}
use credit_incident_resoluti.Hypotheses.Execute.{computed}
use credit_incident_resoluti.Hypotheses.Outcome.{rule_result}
use credit_incident_resoluti.Hypotheses.Gaps.{identity_gap}
use credit_incident_resoluti.Hypotheses.Engine.{graph_of}
use credit_incident_resoluti.Hypotheses.Basis.{Basis, confirmed-Basis}
use credit_incident_resoluti.Hypotheses.Current.{agreed-undisputed, Current}
use credit_incident_resoluti.Hypotheses.OpenGaps.{unmatched-open}
use credit_incident_resoluti.Identity.Models.{IdentityMatch}
use credit_incident_resoluti.Identity.Payment.{verify_payment_identity}
use credit_incident_resoluti.Identity.Matching.{Matches, verify_payment_identity-Matches}

abbrev case : Case
case = record {
  case_id = 3;
  internal_order_id = 9;
  allowed_tools = ToolName.payment ∷ ToolName.trace ∷ [];
  status = CaseStatus.investigating;
  created_at = 100;
  financial_subject = some (record {
    expected_principal_minor = 5000;
    currency = "CNY";
    customer_ref = "CUS-1";
    expected_beneficiary_ref = "BEN-1";
    expected_account_ref = "ACC-1";
  });
}

abbrev order_subject : EvidenceSubject
order_subject = record {
  kind = SubjectKind.order;
  identifier = "9";
  internal_order_id = 9;
  field = none;
}

abbrev transaction_subject : EvidenceSubject
transaction_subject = record {
  kind = SubjectKind.transaction;
  identifier = "TX-1";
  internal_order_id = 9;
  field = none;
}

abbrev fact : ℕ → ToolName → EvidenceSubject → ClaimType → Value → Evidence
fact id tool subject claim value = record {
  evidence_id = id;
  case_id = 3;
  observation_id = 40;
  tool = tool;
  source_kind = SourceKind.primary;
  claim_type = claim;
  subject = subject;
  value = value;
  event_time = some 110;
  observed_at = 120;
  source_as_of = some 115;
  source_version = none;
  protocol_version = none;
  completeness = Completeness.complete;
  freshness = Freshness.current;
  raw_ref = some 40;
  content_hash = 77;
  created_at = 121;
  metadata = record {
    scope = record { internal_order_id = 9; protocol_version = none; effective_at = none };
    fund_request_id = some "FR-1";
    callback_event_id = none;
  };
}

abbrev paid : ℕ → ClaimType → Value → Evidence
paid id claim value = fact id ToolName.payment transaction_subject claim value

abbrev timeout_fact : Evidence
timeout_fact =
    fact 1 ToolName.trace order_subject ClaimType.http_response_status (Value.word "TIMEOUT")

abbrev evidence : List Evidence
evidence =
    paid 9 ClaimType.payment_account_ref (Value.word "ACC-1")
    ∷ timeout_fact
    ∷ paid 2 ClaimType.payment_finality (Value.word "SETTLED")
    ∷ paid 3 ClaimType.payment_transaction_id (Value.word "TX-1")
    ∷ paid 4 ClaimType.transaction_fund_request_id (Value.word "FR-1")
    ∷ paid 5 ClaimType.payment_amount (Value.number 5000)
    ∷ paid 6 ClaimType.payment_currency (Value.word "CNY")
    ∷ paid 7 ClaimType.payment_customer_ref (Value.word "CUS-1")
    ∷ paid 8 ClaimType.payment_beneficiary_ref (Value.word "BEN-1")
    ∷ []

abbrev index : EvidenceIndex
index = record {
  case = case;
  evidence =
      timeout_fact
      ∷ paid 2 ClaimType.payment_finality (Value.word "SETTLED")
      ∷ paid 3 ClaimType.payment_transaction_id (Value.word "TX-1")
      ∷ paid 4 ClaimType.transaction_fund_request_id (Value.word "FR-1")
      ∷ paid 5 ClaimType.payment_amount (Value.number 5000)
      ∷ paid 6 ClaimType.payment_currency (Value.word "CNY")
      ∷ paid 7 ClaimType.payment_customer_ref (Value.word "CUS-1")
      ∷ paid 8 ClaimType.payment_beneficiary_ref (Value.word "BEN-1")
      ∷ paid 9 ClaimType.payment_account_ref (Value.word "ACC-1")
      ∷ [];
}

timed_out : In timeout_fact (agreed index ClaimType.http_response_status (Value.word "TIMEOUT"))
unfolding computed In
timed_out = inl refl

matched : (verify_payment_identity index).result ≡ IdentityMatch.match
unfolding computed
matched = refl

settled_without_response : (rule_result index HypothesisId.h4).status ≡ HypothesisStatus.confirmed
unfolding computed
settled_without_response = refl

confirmed-Basis_example : Basis index HypothesisId.h4
confirmed-Basis_example = confirmed-Basis index HypothesisId.h4 settled_without_response

timed_out_now : In timeout_fact (current index ClaimType.http_response_status)
unfolding computed In
timed_out_now = inl refl

agreed-undisputed_example :
    Current index ClaimType.http_response_status timeout_fact
    × ((timeout_fact.value ≡ Value.word "TIMEOUT") × (timeout_fact.value ≡ Value.word "TIMEOUT"))
agreed-undisputed_example =
    agreed-undisputed index ClaimType.http_response_status (Value.word "TIMEOUT") timeout_fact
      timeout_fact timed_out timed_out_now refl

verify_payment_identity-Matches_example : Matches index
verify_payment_identity-Matches_example = verify_payment_identity-Matches index matched

abbrev unidentified : EvidenceIndex
unidentified = record index { case = record case { financial_subject = none } }

unknown_identity : (verify_payment_identity unidentified).result ≡ IdentityMatch.unknown
unfolding computed
unknown_identity = refl

unmatched : (verify_payment_identity unidentified).result ≢ IdentityMatch.match
unmatched h = absurd (cc (h, unknown_identity))

unmatched-open_example :
    In (identity_gap unidentified) (graph_of unidentified).open_gaps
    × ((identity_gap unidentified).priority_class ≡ PriorityClass.safety_critical)
unmatched-open_example = unmatched-open unidentified unmatched
