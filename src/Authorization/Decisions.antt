-- ===== src/Authorization/Decisions.antt =====
-- When an operator's decision is accepted, and when a new capability is issued.
use credit_incident_resoluti.Prelude.{
  ℕ, ◌<◌, Bool, false, ◌&&◌, Option, some, List, [], ◌∷◌, ◌≡◌, refl, sym, ◌⊎◌, inl, inr, ◌==◌,
  nat_eq, not, is_none, lookup, insert, select_first, arith, Bool-cases,
}
use mathlib.Core.Path.{subst}
use credit_incident_resoluti.Domain.{is_lookup_only}
use credit_incident_resoluti.Authorization.Models.{
  ApprovalDecision, ApprovalRequest, ApprovalRow, ApprovalStatus, approval_status_eq, EffectRow,
  ExecutionCapability, RemediationIntent, Verdict,
}
use credit_incident_resoluti.Authorization.Commands.{effect_key}
use credit_incident_resoluti.Authorization.Approvals.{
  approval_from_row, audit, decide_approval, decided, get_approval, may_decide, save_approval,
  status_at, verdict_status,
}
use credit_incident_resoluti.Authorization.Capabilities.{issue, unresolved_effect}
use credit_incident_resoluti.Authorization.Guards.{
  check_approval-Ensures, Ensures-read, get_intent-Ensures, lock-Ensures, require_open-Ensures,
}
use credit_incident_resoluti.Database.{Db, Deployment}
use credit_incident_resoluti.Database.Transaction.{ok}
use credit_incident_resoluti.Database.Frame.{Frames, Frames-modify}
use credit_incident_resoluti.Database.Ensures.{
  Ensures, Ensures-bind, Ensures-gets, Ensures-guard, Ensures-or_raise, Ensures-pure, Ensures-skip,
  modify-Ensures,
}

-- The decisions that an approval takes: a pending one that has not run out takes any, an approved
-- one that has not run out only its revocation.
pub data Decidable (expires_at now : ℕ) : ApprovalStatus → Verdict → Type 0 where
  pending :
      (verdict : Verdict)
      → now < expires_at
      → Decidable expires_at now ApprovalStatus.pending verdict
  revocable : now < expires_at → Decidable expires_at now ApprovalStatus.approved Verdict.revoke

pub record Decides (decision : ApprovalDecision) (now : ℕ) (before after : Db)
    (changed : ApprovalRequest) : Type 0 where
  pub row : ApprovalRow
  pub found : lookup decision.approval_id before.approvals ≡ some row
  pub decidable : Decidable row.payload.expires_at now row.status decision.decision
  pub verdict : changed.status ≡ verdict_status decision.decision
  pub same_intent : changed.intent ≡ row.payload.intent
  pub same_expiry : changed.expires_at ≡ row.payload.expires_at
  pub written :
      after.approvals
      ≡ insert row.approval_id
          (record row { status = changed.status; payload = changed })
          before.approvals

abbrev approvals_of : Db → List (ℕ × ApprovalRow)
approvals_of db = db.approvals

Frames-audit : (entry : _) → Frames approvals_of (audit entry)
unfolding audit
Frames-audit entry = Frames-modify _ (λ db. refl)

open_until :
    (status : ApprovalStatus) (verdict : Verdict) (expires_at now : ℕ)
    → not (may_decide (status_at status expires_at now) verdict) ≡ false
    → ((status ≡ ApprovalStatus.pending) × (now < expires_at))
      ⊎ ((status ≡ ApprovalStatus.approved) × ((verdict ≡ Verdict.revoke) × (now < expires_at)))
unfolding may_decide status_at
open_until status verdict expires_at now h = ground arith

row-Decidable :
    (row : ApprovalRow) (verdict : Verdict) (now : ℕ)
    → not (may_decide (approval_from_row row now).status verdict) ≡ false
    → Decidable row.payload.expires_at now row.status verdict
unfolding approval_from_row
row-Decidable row verdict now h =
    elim (open_until row.status verdict row.payload.expires_at now h) [
      | inl (was, live) ↦
          subst (λ s. Decidable row.payload.expires_at now s verdict) (sym was)
            (Decidable.pending verdict live)
      | inr (was, (revokes, live)) ↦
          subst (λ s. Decidable row.payload.expires_at now s verdict) (sym was)
            (subst (λ v. Decidable row.payload.expires_at now ApprovalStatus.approved v)
              (sym revokes) (Decidable.revocable live))
    ]

get_approval-reads :
    (env : Deployment) (approval_id now : ℕ) (db : Db)
    → Ensures (get_approval env approval_id now) db (λ _ db'. (db' ≡ db) × Unit {0})
unfolding get_approval
get_approval-reads env approval_id now db = Ensures-gets _ _ (
    Ensures-or_raise _ _ _ λ row found.
      Ensures-read (get_intent-Ensures env row.intent_id db)
        λ intent there. Ensures-pure (refl, tt))

-- A decision that commits was allowed by the approval's stored status and its expiry; it changes
-- that approval's status to the verdict, and neither its intent nor its expiry.
pub decide_approval-Decides :
    (env : Deployment) (decision : ApprovalDecision) (now : ℕ) (db db' : Db)
    (changed : ApprovalRequest)
    → decide_approval env decision now db ≡ ok (changed, db')
    → Decides decision now db db' changed
unfolding decide_approval save_approval decided approval_from_row
decide_approval-Decides env decision now db db' changed h =
    let whole : Ensures (decide_approval env decision now) db (λ c d. Decides decision now db d c) =
      Ensures-read (get_approval-reads env decision.approval_id now db) λ first _.
        Ensures-read (lock-Ensures env first.intent.case_id db) λ case there.
          Ensures-read (require_open-Ensures case db) λ _ still_open. Ensures-gets _ _ (
            Ensures-or_raise _ _ _ λ row found. Ensures-guard _ _ _ λ may. Ensures-bind (
              modify-Ensures _ _ (
                Ensures-skip (Frames-audit _) λ _ db1 e1. Ensures-pure (record {
                  row = row;
                  found = found;
                  decidable = row-Decidable row decision.decision now may;
                  verdict = refl;
                  same_intent = refl;
                  same_expiry = refl;
                  written = e1;
                })))) in
    whole.at changed db' h

-- A query that selects nothing selects no row that a lookup finds.
select_first-none :
    {V : Type 0} (p : V → Bool) (t : List (ℕ × V)) (k : ℕ) (v : V)
    → not (is_none (select_first p t)) ≡ false
    → lookup k t ≡ some v
    → p v ≡ false
unfolding select_first lookup
select_first-none p [] k v h found = absurd (cc found)
select_first-none p ((j, w) ∷ t) k v h found = elim (Bool-cases (p w)) [
  | inl hit ↦ absurd (cc (hit, h))
  | inr miss ↦ elim (Bool-cases (j == k)) [
    | inl same ↦ cc (same, found, miss)
    | inr other ↦ select_first-none p t k v (cc (miss, h)) (cc (other, found))
  ]
]

-- No capability is issued while an effect of the same business key is out with an outcome that is
-- not known.
pub issue-fenced :
    (env : Deployment) (intent : RemediationIntent) (capability : ExecutionCapability) (now : ℕ)
    (signature : Option ℕ) (db db' : Db) (key : ℕ) (row : EffectRow)
    → issue env intent capability now signature db ≡ ok (tt, db')
    → lookup key db.effects ≡ some row
    → row.case_id ≡ capability.case_id
    → row.idempotency_key ≡ effect_key env capability
    → is_lookup_only row.status ≡ false
unfolding issue unresolved_effect
issue-fenced env intent capability now signature db db' key row h found same_case same_key =
    let whole : Ensures (issue env intent capability now signature) db (λ _ _.
      not (is_none (unresolved_effect capability.case_id (effect_key env capability) db)) ≡ false) =
      Ensures-read (lock-Ensures env intent.case_id db) λ case there.
        Ensures-read (require_open-Ensures case db) λ _ still_open. Ensures-guard _ _ _ λ current.
          Ensures-read (check_approval-Ensures intent capability.approval_id now db) λ _ approved.
            Ensures-gets _ _ (Ensures-guard _ _ _ λ resolved. record { at = λ _ _ _. resolved }) in
    let clear = select_first-none _ db.effects key row (whole.at tt db' h) found in
    unfenced row.case_id capability.case_id row.idempotency_key (effect_key env capability)
      (is_lookup_only row.status) same_case same_key clear
  where
    unfenced :
        (a b c d : ℕ) (only : Bool)
        → a ≡ b
        → c ≡ d
        → ((a == b) && ((c == d) && only)) ≡ false
        → only ≡ false
    unfenced a b c d only e f g = ground arith
