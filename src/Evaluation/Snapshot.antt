-- ===== src/Evaluation/Snapshot.antt =====
-- credit_harness/evaluation/snapshot.py: the state that the reader gives to the evaluator, on tables
-- that exist, with the action catalog's risks and scopes. The verified read of the Evidence and the
-- hydrated Case are arguments. Effects stand in the order of the table, and the fingerprints of the
-- snapshot are left out.
use credit_incident_resoluti.Prelude.{
  ℕ, ◌+◌, ◌==◌, ◌!=◌, ◌&&◌, ◌||◌, any, Bool, collect, false, if◌then◌else◌, is_filled, is_none,
  keep, leb, List, [], ◌∷◌, lookup, ltb, map, max, nat_eq, none, not, Option, option_eq, select,
  some, String, true, inl, inr,
}
use credit_incident_resoluti.Domain.{
  ActionType, action_type_eq, EffectStatus, effect_status_eq, RiskLevel, risk_level_eq,
}
use credit_incident_resoluti.Cases.Models.{CallState, CaseCallRow}
use credit_incident_resoluti.Database.{Db, Deployment, intent_json}
use credit_incident_resoluti.Database.Transaction.{err, ok, run, seconds}
use credit_incident_resoluti.Authorization.Models.{
  CapabilityRow, EffectRow, ExecutionCapability, RemediationIntent, SideEffectLedger,
}
use credit_incident_resoluti.Authorization.Commands.{build, effect_key}
use credit_incident_resoluti.Recovery.Models.{Attempt, RecoveryState}
use credit_incident_resoluti.Evidence.Models.{
  Case, ClaimType, claim_type_eq, Completeness, completeness_eq, Evidence, Freshness, freshness_eq,
  SourceKind, source_kind_eq, tool_query_eq,
}
use credit_incident_resoluti.Domain.{tool_name_eq}
use credit_incident_resoluti.Hypotheses.Index.{EvidenceIndex, evidence_index}
use credit_incident_resoluti.Hypotheses.Models.{HypothesisGraphView}
use credit_incident_resoluti.Hypotheses.Engine.{evaluate}
use credit_incident_resoluti.Evaluation.Models.{BoundEffect, EvaluationPolicy, EvaluationState}

pub data EffectScope : Type 0 where
  nothing message delivery reconciliation order_state money bulk : EffectScope

pub record CatalogEntry : Type 0 where
  pub action_type : ActionType
  pub risk_level : RiskLevel
  pub max_effect_scope : EffectScope

-- VerifiedEvidenceRead
pub record VerifiedEvidenceRead : Type 0 where
  pub evidence : List Evidence
  pub provenance_valid : Bool
  pub calls : List CaseCallRow

unfoldable pub latest_of : List ℕ → ℕ
latest_of [] = 0
latest_of (t ∷ ts) = max t (latest_of ts)

watermark : List Evidence → Evidence → ℕ
watermark evidence e = latest_of (
    map (λ d. d.observed_at)
      (keep (λ d. d.tool == e.tool && d.metadata.scope == e.metadata.scope) evidence))

unfoldable pub latest_observation_evidence : List Evidence → List Evidence
unfolding watermark
latest_observation_evidence evidence = keep (λ e. e.observed_at == watermark evidence e) evidence

is_recent : Option ℕ → ℕ → EvaluationPolicy → Bool
is_recent none now policy = false
is_recent (some as_of) now policy =
    leb as_of now && leb now (as_of + seconds policy.evidence_max_age_seconds)

unfoldable pub eligible : Evidence → ℕ → EvaluationPolicy → Bool
unfolding is_recent
eligible e now policy =
    e.claim_type != ClaimType.source_lookup_status
    && e.freshness == Freshness.current
    && e.completeness == Completeness.complete
    && e.source_kind == SourceKind.primary
    && leb e.observed_at now
    && is_recent e.source_as_of now policy

is_systemic : RiskLevel → Bool
is_systemic RiskLevel.money_movement = true
is_systemic RiskLevel.bulk_or_systemic = true
is_systemic _ = false

is_wide : EffectScope → Bool
is_wide EffectScope.money = true
is_wide EffectScope.order_state = true
is_wide EffectScope.bulk = true
is_wide _ = false

-- ForbiddenRemediationPolicy.check, and the risk level that the intent states.
unfoldable pub is_forbidden : RiskLevel → Option CatalogEntry → Bool
unfolding is_systemic is_wide
is_forbidden risk none = true
is_forbidden risk (some entry) =
    is_systemic entry.risk_level || is_wide entry.max_effect_scope || risk != entry.risk_level

entry_for : ActionType → List CatalogEntry → Option CatalogEntry
entry_for action [] = none
entry_for action (entry ∷ entries) =
    let later = entry_for action entries in
    if entry.action_type == action then some entry else later

module _ (env : Deployment) (catalog : List CatalogEntry) (db : Db) (case : Case) where
  -- The columns of the row are those of its payload, in the scope of the Case.
  unfoldable pub is_row_of : EffectRow → Bool
  is_row_of row =
      row.effect_id == row.payload.effect_id
      && row.status == row.payload.status
      && row.capability_id == row.payload.capability_id
      && row.idempotency_key == row.payload.idempotency_key
      && row.payload.tenant_id == env.tenant_id
      && row.payload.case_id == case.case_id
      && row.payload.internal_order_id == case.internal_order_id

  has_approval : Option ℕ → Bool
  has_approval none = true
  has_approval (some id) = not (is_none (lookup id db.approvals))

  -- `DomainCommandBuilder().build(intent, cap)` raises nothing.
  builds : RemediationIntent → ExecutionCapability → Bool
  builds intent cap = elim ((run (build env intent cap) db).0) [ ok command ↦ true | err e ↦ false ]

  -- The effect is the one that the intent and the capability authorize.
  unfoldable pub is_bound : SideEffectLedger → RemediationIntent → CapabilityRow → Bool
  unfolding has_approval builds
  is_bound ledger intent row =
      let cap = row.payload in
      has_approval cap.approval_id
      && intent.intent_id == env.digest (intent_json intent)
      && row.used_effect_id == some ledger.effect_id
      && cap.case_id == case.case_id
      && cap.tenant_id == env.tenant_id
      && cap.intent_id == ledger.intent_id
      && cap.action_type == ledger.action_type
      && cap.target_hash == ledger.target_hash
      && cap.payload_hash == ledger.payload_hash
      && cap.approval_id == ledger.approval_id
      && effect_key env cap == ledger.effect_id
      && builds intent cap

  authorized_by :
      SideEffectLedger → Option RemediationIntent → Option CapabilityRow → Option RemediationIntent
  authorized_by ledger (some intent) (some row) =
      if is_bound ledger intent row then some intent else none
  authorized_by ledger _ _ = none

  -- The intent of the row's effect, where nothing of the row is refused.
  unfoldable pub intent_of : EffectRow → Option RemediationIntent
  unfolding authorized_by
  intent_of row =
      let found =
        authorized_by row.payload (lookup row.payload.intent_id db.intents)
          (lookup row.payload.capability_id db.capabilities) in
      if is_row_of row then found else none

  unfoldable pub bound_with : EffectRow → Option RemediationIntent → List BoundEffect
  bound_with row none = []
  bound_with row (some intent) = record { ledger = row.payload; target = intent.target } ∷ []

  unfoldable pub bound_effects : EffectRow → List BoundEffect
  unfolding bound_with
  bound_effects row = bound_with row (intent_of row)

  unfoldable pub invalid_with : EffectRow → Option RemediationIntent → Bool
  unfolding entry_for
  invalid_with row none = true
  invalid_with row (some intent) =
      is_forbidden intent.risk_level (entry_for row.payload.action_type catalog)

  unfoldable pub is_invalid : EffectRow → Bool
  unfolding invalid_with
  is_invalid row = invalid_with row (intent_of row)

  unfoldable pub effect_rows : List EffectRow
  effect_rows = select (λ r. r.case_id == case.case_id) db.effects

  is_leased : Option ℕ → Option ℕ → ℕ → Bool
  is_leased (some token) (some until) now = ltb now until
  is_leased _ _ now = false

  unfoldable pub is_unfinished : ℕ → RecoveryState → Bool
  unfolding is_leased
  is_unfinished now state =
      state.tenant_id != env.tenant_id
      || state.requires_escalation
      || is_leased state.lease_token state.lease_until now

  unfoldable pub recovery_rows : List RecoveryState
  recovery_rows = select (λ r. r.case_id == case.case_id) db.recovery_states

  -- The attempts of the Case's effects.
  unfoldable pub attempt_rows : List Attempt
  unfolding effect_rows
  attempt_rows = select (λ a. any (λ r. r.effect_id == a.effect_id) effect_rows) db.attempts

  applied_times : List BoundEffect → List ℕ
  applied_times effects =
      map (λ e. e.ledger.updated_at) (keep (λ e. e.ledger.status == EffectStatus.applied) effects)

  event_times : List Evidence → List ℕ
  event_times evidence = collect (λ e. elim e.event_time [ none ↦ [] | some t ↦ t ∷ [] ]) evidence

  is_pending : CaseCallRow → Bool
  is_pending call = elim call.state [
    | CallState.dispatched ↦ true
    | CallState.error ↦ true
    | CallState.observed ↦ false
  ]

  in_grace : EvaluationPolicy → ℕ → List ℕ → Bool
  in_grace policy now anchors =
      is_filled anchors && ltb now (latest_of anchors + seconds policy.convergence_grace_seconds)

  -- The newest Evidence of each tool and scope that the policy admits.
  unfoldable pub admitted : EvaluationPolicy → VerifiedEvidenceRead → ℕ → List Evidence
  admitted policy read now =
      keep (λ e. eligible e now policy) (latest_observation_evidence read.evidence)

  unfoldable pub state_with :
      EvaluationPolicy
      → VerifiedEvidenceRead
      → (ℕ → String)
      → ℕ
      → EvidenceIndex
      → HypothesisGraphView
      → EvaluationState
  unfolding applied_times event_times is_pending in_grace
  state_with policy read text_of now index graph =
      let effects = collect bound_effects effect_rows in
      let applied = applied_times effects in
      let events = event_times (admitted policy read now) in
      record {
        case = case;
        all_evidence = read.evidence;
        provenance_valid = read.provenance_valid;
        latest = latest_observation_evidence read.evidence;
        index = index;
        graph = graph;
        effects = effects;
        policy_invalid = any is_invalid effect_rows;
        recovery_unresolved =
            any (is_unfinished now) recovery_rows || any (λ a. is_none a.completed_at) attempt_rows;
        pending_reads = any is_pending read.calls;
        in_grace = in_grace policy now (if is_filled applied then applied else events);
        text_of = text_of;
      }

  -- VerificationSnapshotReader.read; none where the engine refuses the Evidence.
  unfoldable pub read_state :
      EvaluationPolicy → VerifiedEvidenceRead → (ℕ → String) → ℕ → Option EvaluationState
  read_state policy read text_of now = elim (evidence_index case (admitted policy read now)) [
    | inl refused ↦ none
    | inr index ↦ elim (evaluate case (admitted policy read now)) [
      | inl refused ↦ none
      | inr graph ↦ some (state_with policy read text_of now index graph)
    ]
  ]
