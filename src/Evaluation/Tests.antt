-- ===== src/Evaluation/Tests.antt =====
-- A Case whose guarantee was never disbursed: each system states so, and no effect is open.
use credit_incident_resoluti.Prelude.{
  inr, ℕ, ◌≡◌, refl, List, map, true, false, [], ◌∷◌, none, some, String,
}
use credit_incident_resoluti.Domain.{ActionType, CaseStatus, EffectStatus, RiskLevel, ToolName}
use credit_incident_resoluti.Evidence.Models.{
  Case, ClaimType, Completeness, Evidence, EvidenceSubject, Freshness, SourceKind, SubjectKind,
  Value,
}
use credit_incident_resoluti.Hypotheses.Index.{EvidenceIndex, evidence_index}
use credit_incident_resoluti.Hypotheses.Engine.{graph_of}
use credit_incident_resoluti.Hypotheses.Execute.{computed}
use credit_incident_resoluti.Identity.Models.{IdentityMatch}
use credit_incident_resoluti.Evaluation.Models.{
  EvaluationPolicy, EvaluationState, EvaluationVerdict, OutcomePath, VerificationContract,
}
use credit_incident_resoluti.Evaluation.Report.{
  all_dimensions, dimension_result, EvaluationReport, evaluate_state,
}
use credit_incident_resoluti.Authorization.Models.{SideEffectLedger}
use credit_incident_resoluti.Database.{Db}
use credit_incident_resoluti.Fixtures.{capability_of, deployment, issued_db}
use credit_incident_resoluti.Fixtures.Runs.{default_ledger}
use credit_incident_resoluti.Fixtures.Execute.{execute}
use credit_incident_resoluti.Evaluation.Snapshot.{
  admitted, CatalogEntry, EffectScope, read_state, state_with, VerifiedEvidenceRead,
}
use credit_incident_resoluti.Evaluation.Final.{evaluate_read-Final, Final, read_state-indexed}
use credit_incident_resoluti.Evaluation.Execute.{judged}
use credit_incident_resoluti.Evaluation.Verified.{evaluate_state-Verified, Verified}

abbrev case : Case
case = record {
  case_id = 3;
  internal_order_id = 9;
  allowed_tools =
      ToolName.payment ∷ ToolName.fund ∷ ToolName.guarantee ∷ ToolName.asset ∷ ToolName.accounting
      ∷ ToolName.trace ∷ [];
  status = CaseStatus.investigating;
  created_at = 100;
  financial_subject = none;
}

abbrev of_order : EvidenceSubject
of_order = record {
  kind = SubjectKind.order;
  identifier = "9";
  internal_order_id = 9;
  field = none;
}

abbrev of_request : EvidenceSubject
of_request = record {
  kind = SubjectKind.fund_request;
  identifier = "FR-1";
  internal_order_id = 9;
  field = none;
}

abbrev fact : ℕ → ToolName → EvidenceSubject → ClaimType → Value → Evidence
fact id tool subject claim value = record {
  evidence_id = id;
  case_id = 3;
  observation_id = id;
  tool = tool;
  source_kind = SourceKind.primary;
  claim_type = claim;
  subject = subject;
  value = value;
  event_time = some 110;
  observed_at = 120;
  source_as_of = some 115;
  source_version = none;
  protocol_version = none;
  completeness = Completeness.complete;
  freshness = Freshness.current;
  raw_ref = some id;
  content_hash = 77;
  created_at = 121;
  metadata = record {
    scope = record { internal_order_id = 9; protocol_version = none; effective_at = none };
    fund_request_id = some "FR-1";
    callback_event_id = none;
  };
}

abbrev evidence : List Evidence
evidence =
    fact 1 ToolName.payment of_request ClaimType.payment_finality (Value.word "NOT_EXECUTED")
    ∷ fact 2 ToolName.fund of_order ClaimType.fund_business_status (Value.word "FAILED")
    ∷ fact 3 ToolName.guarantee of_order ClaimType.guarantee_status (Value.word "FAILED")
    ∷ fact 4 ToolName.asset of_order ClaimType.asset_status (Value.word "FAILED")
    ∷ fact 5 ToolName.accounting of_order ClaimType.accounting_entry_present (Value.flag false)
    ∷ fact 6 ToolName.trace of_request ClaimType.request_sent (Value.flag false)
    ∷ fact 7 ToolName.trace of_request ClaimType.http_response_status (Value.word "NOT_ATTEMPTED")
    ∷ []

abbrev index : EvidenceIndex
index = record { case = case; evidence = evidence }

abbrev named : ℕ → String
named id = "effect"

abbrev state : EvaluationState
state = record {
  case = case;
  all_evidence = evidence;
  provenance_valid = true;
  latest = evidence;
  index = index;
  graph = record {
    case_id = 3;
    evaluated_at = 120;
    definitions = [];
    hypotheses = [];
    relations = [];
    gaps = [];
    open_gaps = [];
    confirmed = [];
    supported = [];
    eliminated = [];
    payment_identity = record {
      result = IdentityMatch.unknown;
      mismatch_dimensions = [];
      unknown_dimensions = [];
      witnesses = [];
      evidence_refs = [];
    };
  };
  effects = [];
  policy_invalid = false;
  recovery_unresolved = false;
  pending_reads = false;
  in_grace = false;
  text_of = named;
}

abbrev policy : EvaluationPolicy
policy = record {
  required_dimensions = all_dimensions;
  evidence_max_age_seconds = 300;
  convergence_grace_seconds = 30;
}

abbrev contract : VerificationContract
contract = record {
  settled_state = "SUCCESS";
  no_disbursement_state = "FAILED";
  settled_requires_callback = true;
  settled_requires_delivery = true;
}

abbrev report : EvaluationReport
report = record {
  outcome_path = some OutcomePath.no_disbursement_path;
  overall_verdict = EvaluationVerdict.pass;
  dimensions = map (dimension_result state policy contract 130) all_dimensions;
  unresolved = [];
  created_at = 130;
}

reported : evaluate_state state policy contract 130 ≡ some report
unfolding computed judged
reported = refl

evaluate_state-Verified_example : Verified state contract
evaluate_state-Verified_example =
    evaluate_state-Verified state policy contract 130 report reported refl

abbrev refused_ledger : SideEffectLedger
refused_ledger = record default_ledger { effect_id = 30011; status = EffectStatus.failed_confirmed }

-- The tables of a Case whose one effect failed for good.
abbrev settled_db : Db
settled_db = record issued_db {
  capabilities =
      (
        711,
        record {
          capability_id = 711;
          intent_id = 50011;
          payload = capability_of 11 100;
          used_effect_id = some 30011;
        },
      )
      ∷ [];
  effects =
      (
        30011,
        record {
          effect_id = 30011;
          idempotency_key = refused_ledger.idempotency_key;
          capability_id = 711;
          case_id = 3;
          status = EffectStatus.failed_confirmed;
          payload = refused_ledger;
        },
      )
      ∷ [];
}

abbrev catalog : List CatalogEntry
catalog =
    record {
      action_type = ActionType.replay_callback_consumption;
      risk_level = RiskLevel.single_order_side_effect;
      max_effect_scope = EffectScope.message;
    }
    ∷ []

abbrev verified_read : VerifiedEvidenceRead
verified_read = record { evidence = evidence; provenance_valid = true; calls = [] }

abbrev snapshot : EvaluationState
snapshot =
    state_with deployment catalog settled_db case policy verified_read named 130 index
      (graph_of index)

abbrev snapshot_report : EvaluationReport
snapshot_report = record report {
  dimensions = map (dimension_result snapshot policy contract 130) all_dimensions;
}

admitted_index :
    evidence_index case (admitted deployment catalog settled_db case policy verified_read 130)
    ≡ inr index
unfolding computed judged
admitted_index = refl

snapshot_taken :
    read_state deployment catalog settled_db case policy verified_read named 130 ≡ some snapshot
snapshot_taken =
    read_state-indexed deployment catalog settled_db case policy verified_read named 130 index
      admitted_index

snapshot_reported : evaluate_state snapshot policy contract 130 ≡ some snapshot_report
unfolding computed judged execute
snapshot_reported = refl

evaluate_read-Final_example : Final deployment catalog settled_db case 130
evaluate_read-Final_example =
    evaluate_read-Final deployment catalog settled_db case policy contract verified_read named 130
      snapshot snapshot_report snapshot_taken snapshot_reported refl
