-- ===== src/Authorization/Guards.antt =====
-- What the guards of a write check, on the tables that the transaction starts from.
use credit_incident_resoluti.Prelude.{
  ℕ, ◌≤◌, ◌<◌, Bool, false, Option, none, some, ◌≡◌, refl, sym, ◌!=◌, lookup, arith, nat_eq,
}
use mathlib.Core.Path.{subst}
use credit_incident_resoluti.Domain.{is_terminal}
use credit_incident_resoluti.Cases.Models.{CaseRow}
use credit_incident_resoluti.Cases.Rows.{case_row, find_case, lock_case}
use credit_incident_resoluti.Authorization.Models.{
  ApprovalRow, ApprovalStatus, approval_status_eq, CapabilityRow, ExecutionCapability,
  execution_capability_eq, RemediationIntent, remediation_intent_eq, SideEffectLedger,
}
use credit_incident_resoluti.Authorization.Approvals.{
  approval_from_row, check_approval, check_given, get_intent, lock_for_authorization, require_open,
  status_at,
}
use credit_incident_resoluti.Authorization.Capabilities.{check_capability}
use credit_incident_resoluti.Authorization.Ledger.{dispatch_prepared, prepare}
use credit_incident_resoluti.Recovery.Models.{RecoveryClaim}
use credit_incident_resoluti.Database.{Db, Deployment}
use credit_incident_resoluti.Database.Transaction.{ok, Tx, ◌>>=◌}
use credit_incident_resoluti.Database.Ensures.{
  Ensures, Ensures-bind, Ensures-gets, Ensures-guard, Ensures-or_raise, Ensures-pure,
  or_raise-Ensures, raise_if-Ensures,
}

-- The approval that a capability names covers this intent at this instant, or none is needed.
pub data Approved (intent : RemediationIntent) (db : Db) (now : ℕ) : Option ℕ → Type 0 where
  unneeded : intent.requires_approval ≡ false → Approved intent db now none
  given :
      (approval_id : ℕ) (row : ApprovalRow)
      → lookup approval_id db.approvals ≡ some row
      → row.payload.intent ≡ intent
      → row.status ≡ ApprovalStatus.approved
      → now < row.payload.expires_at
      → Approved intent db now (some approval_id)

-- Everything that a write with this capability needs.
pub record Authorized (env : Deployment) (cap' : ExecutionCapability) (now : ℕ) (db : Db)
    : Type 0 where
  pub case : CaseRow
  pub case_found : find_case env cap'.case_id db ≡ some case
  pub is_open : is_terminal case.status ≡ false
  pub tenant : cap'.tenant_id ≡ env.tenant_id
  pub issued : cap'.issued_at ≤ now
  pub unexpired : now < cap'.expires_at
  pub row : CapabilityRow
  pub row_found : lookup cap'.capability_id db.capabilities ≡ some row
  pub as_issued : row.payload ≡ cap'
  pub intent : RemediationIntent
  pub intent_found : lookup cap'.intent_id db.intents ≡ some intent
  pub approved : Approved intent db now cap'.approval_id

case_row-Ensures :
    (env : Deployment) (case_id : ℕ) (db : Db)
    → Ensures
        (case_row env case_id)
        db
        (λ case db'. (db' ≡ db) × (find_case env case_id db ≡ some case))
unfolding case_row
case_row-Ensures env case_id db =
    Ensures-gets _ _ (or_raise-Ensures _ _ _ λ case found. (refl, found))

pub lock-Ensures :
    (env : Deployment) (case_id : ℕ) (db : Db)
    → Ensures
        (lock_for_authorization env case_id)
        db
        (λ case db'. (db' ≡ db) × (find_case env case_id db ≡ some case))
unfolding lock_for_authorization lock_case
lock-Ensures env case_id db = Ensures-gets _ _ (or_raise-Ensures _ _ _ λ case found. (refl, found))

-- A step that only reads.
pub Ensures-read :
    {A B : Type 0} {P : A → Db → Type 0} {R : B → Type 0} {m : Tx B} {k : B → Tx A} {db : Db}
    → Ensures m db (λ b mid. (mid ≡ db) × R b)
    → ((b : B) → R b → Ensures (k b) db P)
    → Ensures (m >>= k) db P
Ensures-read {P = P} {k = k} first next = Ensures-bind (record {
  at = λ b mid h.
      let (same, r) = first.at b mid h in subst (λ d. Ensures (k b) d P) (sym same) (next b r);
})

pub get_intent-Ensures :
    (env : Deployment) (intent_id : ℕ) (db : Db)
    → Ensures
        (get_intent env intent_id)
        db
        (λ intent db'. (db' ≡ db) × (lookup intent_id db.intents ≡ some intent))
unfolding get_intent
get_intent-Ensures env intent_id db = Ensures-gets _ _ (
    Ensures-or_raise _ _ _ λ intent found.
      Ensures-read (case_row-Ensures env intent.case_id db)
        λ case there. Ensures-pure (refl, found))

approved-status :
    (row : ApprovalRow) (now : ℕ)
    → ((approval_from_row row now).status != ApprovalStatus.approved) ≡ false
    → (row.status ≡ ApprovalStatus.approved) × (now < row.payload.expires_at)
unfolding approval_from_row status_at
approved-status row now h = ground arith

pub check_approval-Ensures :
    (intent : RemediationIntent) (approval_id : Option ℕ) (now : ℕ) (db : Db)
    → Ensures
        (check_approval intent approval_id now)
        db
        (λ _ db'. (db' ≡ db) × Approved intent db now approval_id)
unfolding check_approval check_given approval_from_row
check_approval-Ensures intent none now db =
    raise_if-Ensures _ _ _ λ unneeded. (refl, Approved.unneeded unneeded)
check_approval-Ensures intent (some approval_id) now db = Ensures-gets _ _ (
    Ensures-or_raise _ _ _ λ row found. Ensures-guard _ _ _ λ same. raise_if-Ensures _ _ _ λ status.
      let (approved, unexpired) = approved-status row now status in
      (refl, Approved.given approval_id row found (ground arith) approved unexpired))

check_capability-Ensures :
    (env : Deployment) (cap' : ExecutionCapability) (now : ℕ) (db : Db) (case : CaseRow)
    → find_case env cap'.case_id db ≡ some case
    → is_terminal case.status ≡ false
    → Ensures
        (check_capability env cap' now)
        db
        (λ checked db'. (db' ≡ db) × Authorized env cap' now db)
unfolding check_capability
check_capability-Ensures env cap' now db case there open_case = Ensures-guard _ _ _ λ tenant.
    Ensures-guard _ _ _ λ instant. Ensures-guard _ _ _ λ policy. Ensures-gets _ _ (
      Ensures-or_raise _ _ _ λ row found. Ensures-guard _ _ _ λ same.
        Ensures-read (get_intent-Ensures env cap'.intent_id db) λ intent intent_there.
          Ensures-read (check_approval-Ensures intent cap'.approval_id now db) λ _ approved.
            Ensures-pure (
              refl,
              record {
                case = case;
                case_found = there;
                is_open = open_case;
                tenant = ground arith;
                issued = ground arith;
                unexpired = ground arith;
                row = row;
                row_found = found;
                as_issued = ground arith;
                intent = intent;
                intent_found = intent_there;
                approved = approved;
              },
            ))

pub require_open-Ensures :
    (case : CaseRow) (db : Db)
    → Ensures (require_open case) db (λ _ db'. (db' ≡ db) × (is_terminal case.status ≡ false))
unfolding require_open
require_open-Ensures case db = raise_if-Ensures _ _ _ λ still_open. (refl, still_open)

-- A dispatch commits only for an open Case, an unexpired capability that is the one on record, and
-- an unexpired approval of the same intent where the intent needs one.
pub dispatch-Authorized :
    (env : Deployment) (cap' : ExecutionCapability) (now : ℕ) (claim : Option RecoveryClaim)
    (db db' : Db) (ledger : SideEffectLedger)
    → dispatch_prepared env cap' now claim db ≡ ok (ledger, db')
    → Authorized env cap' now db
unfolding dispatch_prepared
dispatch-Authorized env cap' now claim db db' ledger h =
    let whole : Ensures (dispatch_prepared env cap' now claim) db
        (λ _ _. Authorized env cap' now db) =
      Ensures-read (lock-Ensures env cap'.case_id db) λ case there.
        Ensures-read (require_open-Ensures case db) λ _ still_open.
          Ensures-read (check_capability-Ensures env cap' now db case there still_open)
            λ checked authorized. record { at = λ _ _ _. authorized } in
    whole.at ledger db' h

-- A preparation commits only under the same conditions: an open Case, an unexpired capability that
-- is the one on record, and an unexpired approval of the same intent where it needs one.
pub prepare-Authorized :
    (env : Deployment) (cap' : ExecutionCapability) (now wall correlation : ℕ) (db db' : Db)
    (answer : SideEffectLedger × Bool)
    → prepare env cap' now wall correlation db ≡ ok (answer, db')
    → Authorized env cap' now db
unfolding prepare
prepare-Authorized env cap' now wall correlation db db' answer h =
    let whole : Ensures (prepare env cap' now wall correlation) db
        (λ _ _. Authorized env cap' now db) =
      Ensures-read (lock-Ensures env cap'.case_id db) λ case there.
        Ensures-read (require_open-Ensures case db) λ _ still_open.
          Ensures-read (check_capability-Ensures env cap' now db case there still_open)
            λ checked authorized. record { at = λ _ _ _. authorized } in
    whole.at answer db' h
