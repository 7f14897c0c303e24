-- ===== src/Authorization/Approvals.antt =====
-- credit_harness/authorization/store.py, lines 25 to 132: intents and approvals.
use credit_incident_resoluti.Prelude.{
  ℕ, Bool, true, false, Option, none, some, [], ◌∷◌, ◌++◌, ◌!=◌, nat_eq, leb, not, is_none,
  if◌then◌else◌, lookup, insert,
}
use credit_incident_resoluti.Domain.{is_terminal}
use credit_incident_resoluti.Cases.Models.{CaseRow}
use credit_incident_resoluti.Cases.Rows.{case_row, lock_case}
use credit_incident_resoluti.Authorization.Models.{
  action_not_allowed, approval_binding_mismatch, approval_expired, approval_not_approved,
  approval_required, approval_revoked, ApprovalDecision, ApprovalReason, ApprovalRequest,
  ApprovalRow, ApprovalStatus, approval_status_eq, AuditEvent, AuthorizationAuditRecord,
  AuthorizationCode, capability_scope_mismatch, RemediationIntent, remediation_intent_eq,
  stale_authorization, Verdict,
}
use credit_incident_resoluti.Database.{Deployment}
use credit_incident_resoluti.Database.Transaction.{
  Tx, pure, raise_if, gets, or_raise, ◌>>=◌, ◌>>◌, modify, if_found, authorization, integrity,
  missing_row,
}

-- The status that counts at an instant: an open approval that has run out is EXPIRED.
unfoldable pub status_at : ApprovalStatus → ℕ → ℕ → ApprovalStatus
status_at ApprovalStatus.pending expires_at now =
    if leb expires_at now then ApprovalStatus.expired else ApprovalStatus.pending
status_at ApprovalStatus.approved expires_at now =
    if leb expires_at now then ApprovalStatus.expired else ApprovalStatus.approved
status_at status expires_at now = status

unfoldable pub approval_from_row : ApprovalRow → ℕ → ApprovalRequest
unfolding status_at
approval_from_row row now = record row.payload {
  status = status_at row.status row.payload.expires_at now;
}

unfoldable pub lock_for_authorization : Deployment → ℕ → Tx CaseRow
lock_for_authorization env case_id = lock_case env (authorization capability_scope_mismatch) case_id

unfoldable pub require_open : CaseRow → Tx Unit
require_open case = raise_if (is_terminal case.status) (authorization action_not_allowed)

-- `_intent` and `get_intent`
unfoldable pub get_intent : Deployment → ℕ → Tx RemediationIntent
get_intent env intent_id = do
  found ← gets (λ db. lookup intent_id db.intents)
  intent ← or_raise found (authorization stale_authorization)
  case_row env intent.case_id
  pure intent

unfoldable pub add_intent : RemediationIntent → Tx Unit
add_intent intent = modify (λ db. record db { intents = insert intent.intent_id intent db.intents })

unfoldable pub save_intent : RemediationIntent → Tx Unit
save_intent intent = do
  found ← gets (λ db. lookup intent.intent_id db.intents)
  if_found found (λ row. raise_if (row != intent) (authorization stale_authorization))
      (add_intent intent)

unfoldable pub audit : AuthorizationAuditRecord → Tx Unit
audit entry =
    modify (λ db. record db { authorization_audit = db.authorization_audit ++ entry ∷ [] })

abbrev pub audit_entry : AuditEvent → RemediationIntent → ℕ → AuthorizationAuditRecord
audit_entry event intent now = record {
  event = event;
  tenant_id = intent.tenant_id;
  case_id = intent.case_id;
  intent_id = intent.intent_id;
  approval_id = none;
  capability_id = none;
  effect_id = none;
  correlation_id = none;
  effect_status = none;
  actor_ref = none;
  recorded_at = now;
}

unfoldable pub save_approval : ApprovalRow → Tx Unit
save_approval row = modify (λ db. record db { approvals = insert row.approval_id row db.approvals })

unfoldable pub request_approval : Deployment → ApprovalRequest → ℕ → Tx ApprovalRequest
request_approval env request revision = do
  case ← lock_for_authorization env request.intent.case_id
  require_open case
  raise_if (case.updated_at != revision) (authorization stale_authorization)
  save_intent request.intent
  old ← gets (λ db. lookup request.approval_id db.approvals)
  raise_if (not (is_none old)) integrity
  save_approval (record {
    approval_id = request.approval_id;
    intent_id = request.intent.intent_id;
    status = request.status;
    payload = request;
  })
  audit (record (audit_entry AuditEvent.approval_requested request.intent request.requested_at) {
    approval_id = some request.approval_id;
  })
  pure request

unfoldable pub get_approval : Deployment → ℕ → ℕ → Tx ApprovalRequest
get_approval env approval_id now = do
  found ← gets (λ db. lookup approval_id db.approvals)
  row ← or_raise found (authorization approval_required)
  get_intent env row.intent_id
  pure (approval_from_row row now)

unfoldable pub verdict_status : Verdict → ApprovalStatus
verdict_status Verdict.approve = ApprovalStatus.approved
verdict_status Verdict.reject = ApprovalStatus.rejected
verdict_status Verdict.revoke = ApprovalStatus.revoked

verdict_reason : Verdict → ApprovalReason
verdict_reason Verdict.approve = ApprovalReason.operator_approved
verdict_reason Verdict.reject = ApprovalReason.operator_rejected
verdict_reason Verdict.revoke = ApprovalReason.operator_revoked

-- A pending approval takes any decision, an approved one only its revocation.
unfoldable pub may_decide : ApprovalStatus → Verdict → Bool
may_decide ApprovalStatus.pending _ = true
may_decide ApprovalStatus.approved Verdict.revoke = true
may_decide _ _ = false

unfoldable pub undecidable_code : ApprovalStatus → AuthorizationCode
undecidable_code ApprovalStatus.expired = approval_expired
undecidable_code _ = approval_not_approved

unfoldable pub decided : ApprovalRequest → ApprovalDecision → ℕ → ApprovalRequest
unfolding verdict_status verdict_reason
decided current decision now = record current {
  status = verdict_status decision.decision;
  decided_at = some now;
  actor_ref = some decision.actor_ref;
  reason_code = verdict_reason decision.decision;
}

-- `decide_approval`. Its first read, in a session of its own, gives only the Case to lock, and an
-- approval's intent never changes, so the two sessions are one transaction here.
unfoldable pub decide_approval : Deployment → ApprovalDecision → ℕ → Tx ApprovalRequest
unfolding may_decide undecidable_code decided
decide_approval env decision now = do
  first ← get_approval env decision.approval_id now
  case ← lock_for_authorization env first.intent.case_id
  require_open case
  found ← gets (λ db. lookup decision.approval_id db.approvals)
  row ← or_raise found missing_row
  let current = approval_from_row row now
  raise_if (not (may_decide current.status decision.decision))
      (authorization (undecidable_code current.status))
  let changed = decided current decision now
  save_approval (record row { status = changed.status; payload = changed })
  audit (record (audit_entry AuditEvent.approval_decided changed.intent now) {
    approval_id = some changed.approval_id;
    actor_ref = changed.actor_ref;
  })
  pure changed

unfoldable pub refused_code : ApprovalStatus → AuthorizationCode
refused_code ApprovalStatus.expired = approval_expired
refused_code ApprovalStatus.revoked = approval_revoked
refused_code _ = approval_not_approved

unfoldable pub check_given : RemediationIntent → ℕ → ℕ → Tx Unit
unfolding refused_code
check_given intent approval_id now = do
  found ← gets (λ db. lookup approval_id db.approvals)
  row ← or_raise found (authorization approval_required)
  let approval = approval_from_row row now
  raise_if (approval.intent != intent) (authorization approval_binding_mismatch)
  raise_if (approval.status != ApprovalStatus.approved)
      (authorization (refused_code approval.status))

-- `_check_approval`
unfoldable pub check_approval : RemediationIntent → Option ℕ → ℕ → Tx Unit
unfolding check_given
check_approval intent (some approval_id) now = check_given intent approval_id now
check_approval intent none now = raise_if intent.requires_approval (authorization approval_required)
