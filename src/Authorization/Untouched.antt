-- ===== src/Authorization/Untouched.antt =====
-- The steps of the authorization transactions that leave the side-effect ledger as it is.
use credit_incident_resoluti.Prelude.{ℕ, Option, Table, refl}
use credit_incident_resoluti.Cases.Models.{CaseRow}
use credit_incident_resoluti.Cases.Rows.{case_row, lock_case, save_case}
use credit_incident_resoluti.Authorization.Models.{
  ApprovalRow, AuthorizationAuditRecord, CapabilityRow, EffectRow, ExecutionCapability,
  RemediationIntent, SideEffectLedger,
}
use credit_incident_resoluti.Authorization.Approvals.{
  add_intent, audit, check_approval, check_given, get_intent, lock_for_authorization, require_open,
  save_approval, save_intent,
}
use credit_incident_resoluti.Authorization.Capabilities.{
  check_capability, existing, existing_effect, save_capability,
}
use credit_incident_resoluti.Recovery.Models.{RecoveryState}
use credit_incident_resoluti.Recovery.Sync.{save_recovery_state, synchronize_effect}
use credit_incident_resoluti.Orchestration.Quiet.{IsQuiet}
use credit_incident_resoluti.Orchestration.QuietHandoff.{Frames-effect_handoff}
use credit_incident_resoluti.Database.{Db, Deployment}
use credit_incident_resoluti.Database.Transaction.{Error}
use credit_incident_resoluti.Database.Frame.{Frames, Frames-modify, frame_rules}

abbrev pub effects_of : Db → Table EffectRow
effects_of db = db.effects

pub effects-IsQuiet : IsQuiet effects_of
effects-IsQuiet = record {
  cases = λ db t. refl;
  work_items = λ db t. refl;
  states = λ db t. refl;
  audit = λ db t. refl;
}

pub Frames-lock_case :
    (env : Deployment) (e : Error) (case_id : ℕ) → Frames effects_of (lock_case env e case_id)
unfolding lock_case
Frames-lock_case env e case_id = search frame_rules

pub Frames-case_row : (env : Deployment) (case_id : ℕ) → Frames effects_of (case_row env case_id)
unfolding case_row
Frames-case_row env case_id = search frame_rules

pub Frames-save_case : (row : CaseRow) → Frames effects_of (save_case row)
unfolding save_case
Frames-save_case row = Frames-modify _ (λ db. refl)

pub Frames-lock_for_authorization :
    (env : Deployment) (case_id : ℕ) → Frames effects_of (lock_for_authorization env case_id)
unfolding lock_for_authorization
Frames-lock_for_authorization env case_id = Frames-lock_case env _ case_id

pub Frames-require_open : (case : CaseRow) → Frames effects_of (require_open case)
unfolding require_open
Frames-require_open case = search frame_rules

pub Frames-get_intent :
    (env : Deployment) (intent_id : ℕ) → Frames effects_of (get_intent env intent_id)
unfolding get_intent
Frames-get_intent env intent_id = search (frame_rules, Frames-case_row) depth 8

Frames-add_intent : (intent : RemediationIntent) → Frames effects_of (add_intent intent)
unfolding add_intent
Frames-add_intent intent = Frames-modify _ (λ db. refl)

pub Frames-save_intent : (intent : RemediationIntent) → Frames effects_of (save_intent intent)
unfolding save_intent
Frames-save_intent intent = search (frame_rules, Frames-add_intent) depth 8

pub Frames-audit : (entry : AuthorizationAuditRecord) → Frames effects_of (audit entry)
unfolding audit
Frames-audit entry = Frames-modify _ (λ db. refl)

pub Frames-save_approval : (row : ApprovalRow) → Frames effects_of (save_approval row)
unfolding save_approval
Frames-save_approval row = Frames-modify _ (λ db. refl)

pub Frames-check_approval :
    (intent : RemediationIntent) (approval_id : Option ℕ) (now : ℕ)
    → Frames effects_of (check_approval intent approval_id now)
unfolding check_approval check_given
Frames-check_approval intent (Option.some approval_id) now = search frame_rules depth 10
Frames-check_approval intent Option.none now = search frame_rules

pub Frames-save_capability : (row : CapabilityRow) → Frames effects_of (save_capability row)
unfolding save_capability
Frames-save_capability row = Frames-modify _ (λ db. refl)

pub Frames-check_capability :
    (env : Deployment) (cap : ExecutionCapability) (now : ℕ)
    → Frames effects_of (check_capability env cap now)
unfolding check_capability
Frames-check_capability env cap now =
    search (frame_rules, Frames-get_intent, Frames-check_approval) depth 14

pub Frames-existing_effect :
    (cap : ExecutionCapability) (row : CapabilityRow) (key : ℕ)
    → Frames effects_of (existing_effect cap row key)
unfolding existing_effect
Frames-existing_effect cap row key = search (frame_rules, Frames-save_capability) depth 10

pub Frames-existing :
    (env : Deployment) (cap : ExecutionCapability) (now : ℕ)
    → Frames effects_of (existing env cap now)
unfolding existing
Frames-existing env cap now =
    search
      (frame_rules, Frames-lock_for_authorization, Frames-check_capability, Frames-existing_effect)
      depth 8

pub Frames-save_recovery_state :
    (state : RecoveryState) → Frames effects_of (save_recovery_state state)
unfolding save_recovery_state
Frames-save_recovery_state state = Frames-modify _ (λ db. refl)

pub Frames-synchronize_effect :
    (env : Deployment) (ledger : SideEffectLedger)
    → Frames effects_of (synchronize_effect env ledger)
unfolding synchronize_effect
Frames-synchronize_effect env ledger =
    search (frame_rules, Frames-effect_handoff effects-IsQuiet, Frames-save_recovery_state) depth 8
