-- ===== src/Evidence/Models.antt =====
-- credit_harness/evidence/models.py, with the enumerations of domain/enums.py that Evidence names.
use credit_incident_resoluti.Prelude.{
  ℕ, Bool, Option, List, String, Equality, by_decision, nat_eq, String-discrete, ℕ_discrete,
}
use credit_incident_resoluti.Domain.{CaseStatus, ToolName, ToolName-discrete}
use credit_incident_resoluti.Cases.Models.{ToolQuery}

pub data ClaimType : Type 0 where
  request_sent http_response_status fund_business_status loan_no_present : ClaimType
  loan_note_reference payment_finality payment_transaction_id payment_amount : ClaimType
  payment_currency payment_customer_ref payment_beneficiary_ref : ClaimType
  payment_account_ref transaction_fund_request_id callback_gateway_received : ClaimType
  callback_signature_verified callback_protocol_version message_consume_status : ClaimType
  message_dlq message_error_code message_error_field message_expected_field_type : ClaimType
  message_actual_field_type consumer_deployed_schema_version : ClaimType
  consumer_accepted_protocol_version consumer_loan_no_field_type : ClaimType
  accounting_entry_present asset_status guarantee_status guarantee_version : ClaimType
  asset_delivery_status asset_delivery_event_ref protocol_field_type : ClaimType
  protocol_business_semantics source_lookup_status : ClaimType

-- domain/enums.py
pub data SourceKind : Type 0 where
  primary replica cache index : SourceKind

pub data Completeness : Type 0 where
  complete partial unknown : Completeness

pub data Freshness : Type 0 where
  current stale unknown : Freshness

pub data SubjectKind : Type 0 where
  order fund_request transaction callback message protocol : SubjectKind

unfoldable pub ClaimType-discrete : Discrete ClaimType
ClaimType-discrete = hlevel

instance abbrev pub claim_type_eq : Equality ClaimType
claim_type_eq = by_decision ClaimType-discrete

unfoldable pub SourceKind-discrete : Discrete SourceKind
SourceKind-discrete = hlevel

instance abbrev pub source_kind_eq : Equality SourceKind
source_kind_eq = by_decision SourceKind-discrete

unfoldable pub Completeness-discrete : Discrete Completeness
Completeness-discrete = hlevel

instance abbrev pub completeness_eq : Equality Completeness
completeness_eq = by_decision Completeness-discrete

unfoldable pub Freshness-discrete : Discrete Freshness
Freshness-discrete = hlevel

instance abbrev pub freshness_eq : Equality Freshness
freshness_eq = by_decision Freshness-discrete

unfoldable pub SubjectKind-discrete : Discrete SubjectKind
SubjectKind-discrete = hlevel

instance abbrev pub subject_kind_eq : Equality SubjectKind
subject_kind_eq = by_decision SubjectKind-discrete

-- `StrictBool | StrictInt | StrictStr`. The integers that extractors write are amounts and
-- versions, which are not negative.
pub data Value : Type 0 where
  flag : Bool → Value
  number : ℕ → Value
  word : String → Value

-- Python's comparison of `(type(value), value)`.
unfoldable pub Value-discrete : Discrete Value
Value-discrete = hlevel (ℕ_discrete, String-discrete)

instance abbrev pub value_eq : Equality Value
value_eq = by_decision Value-discrete

pub record EvidenceSubject : Type 0 where
  pub kind : SubjectKind
  pub identifier : String
  pub internal_order_id : ℕ
  pub field : Option String

-- The extractor's version and the source path are descriptions that no rule reads.
pub record EvidenceMetadata : Type 0 where
  pub scope : ToolQuery
  pub fund_request_id : Option String
  pub callback_event_id : Option String

-- Times are microseconds. `raw_ref` is the observation that the reference names, and none where
-- the text is not such a reference. The strength is a description that no rule reads.
pub record Evidence : Type 0 where
  pub evidence_id : ℕ
  pub case_id : ℕ
  pub observation_id : ℕ
  pub tool : ToolName
  pub source_kind : SourceKind
  pub claim_type : ClaimType
  pub subject : EvidenceSubject
  pub value : Value
  pub event_time : Option ℕ
  pub observed_at : ℕ
  pub source_as_of : Option ℕ
  pub source_version : Option ℕ
  pub protocol_version : Option String
  pub completeness : Completeness
  pub freshness : Freshness
  pub raw_ref : Option ℕ
  pub content_hash : ℕ
  pub created_at : ℕ
  pub metadata : EvidenceMetadata

unfoldable pub EvidenceSubject-discrete : Discrete EvidenceSubject
EvidenceSubject-discrete = hlevel (ℕ_discrete, String-discrete, SubjectKind-discrete)

instance abbrev pub evidence_subject_eq : Equality EvidenceSubject
evidence_subject_eq = by_decision EvidenceSubject-discrete

unfoldable pub ToolQuery-discrete : Discrete ToolQuery
ToolQuery-discrete = hlevel (ℕ_discrete)

instance abbrev pub tool_query_eq : Equality ToolQuery
tool_query_eq = by_decision ToolQuery-discrete

unfoldable pub EvidenceMetadata-discrete : Discrete EvidenceMetadata
EvidenceMetadata-discrete = hlevel (ℕ_discrete, String-discrete, ToolQuery-discrete)

unfoldable pub Evidence-discrete : Discrete Evidence
Evidence-discrete = hlevel (
  ℕ_discrete, String-discrete, ToolName-discrete, SourceKind-discrete, ClaimType-discrete,
  EvidenceSubject-discrete, Value-discrete, Completeness-discrete, Freshness-discrete,
  EvidenceMetadata-discrete,
)

instance abbrev pub evidence_eq : Equality Evidence
evidence_eq = by_decision Evidence-discrete

-- identity/models.py
pub record FinancialSubject : Type 0 where
  pub expected_principal_minor : ℕ
  pub currency : String
  pub customer_ref : String
  pub expected_beneficiary_ref : String
  pub expected_account_ref : String

-- cases/models.py: what the rules read of a Case.
pub record Case : Type 0 where
  pub case_id : ℕ
  pub internal_order_id : ℕ
  pub allowed_tools : List ToolName
  pub status : CaseStatus
  pub created_at : ℕ
  pub financial_subject : Option FinancialSubject
