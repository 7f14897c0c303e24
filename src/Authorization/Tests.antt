-- ===== src/Authorization/Tests.antt =====
-- The guards of the test run, an operator's decision, and a second capability for a known effect.
use credit_incident_resoluti.Prelude.{true, false, none, some, ◌≡◌, refl, lookup, insert}
use credit_incident_resoluti.Domain.{is_lookup_only}
use credit_incident_resoluti.Authorization.Models.{
  ApprovalDecision, ApprovalRequest, ApprovalStatus, ExecutionCapability, Verdict,
}
use credit_incident_resoluti.Authorization.Approvals.{decide_approval}
use credit_incident_resoluti.Authorization.Capabilities.{issue}
use credit_incident_resoluti.Authorization.Ledger.{ledger_row}
use credit_incident_resoluti.Authorization.Guards.{
  Authorized, dispatch-Authorized, prepare-Authorized,
}
use credit_incident_resoluti.Authorization.Decisions.{
  decide_approval-Decides, Decides, issue-fenced,
}
use credit_incident_resoluti.Database.{Db}
use credit_incident_resoluti.Database.Transaction.{ok}
use credit_incident_resoluti.Fixtures.{approval_of, capability_of, deployment, issued_db, replay}
use credit_incident_resoluti.Fixtures.Execute.{execute, value}
use credit_incident_resoluti.Fixtures.Runs.{
  dispatches_first_run, first_db, first_ledger, prepares_first_run, sent_db, sent_ledger,
}

dispatch-Authorized_example : Authorized deployment (capability_of 11 100) 140 first_db
dispatch-Authorized_example =
    dispatch-Authorized deployment (capability_of 11 100) 140 none first_db sent_db sent_ledger
      dispatches_first_run

prepare-Authorized_example : Authorized deployment (capability_of 11 100) 130 issued_db
prepare-Authorized_example =
    prepare-Authorized deployment (capability_of 11 100) 130 130 1 issued_db first_db
      (first_ledger, true) prepares_first_run

abbrev approves : ApprovalDecision
approves = record { approval_id = 611; decision = Verdict.approve; actor_ref = 8 }

abbrev pending_db : Db
pending_db = record issued_db {
  approvals =
      insert 611
        (record {
          approval_id = 611;
          intent_id = 50011;
          status = ApprovalStatus.pending;
          payload = approval_of 11;
        })
        issued_db.approvals;
}

abbrev approved_db : Db
unfolding execute
approved_db = (execute (decide_approval deployment approves 120) pending_db).1

abbrev approved_request : ApprovalRequest
unfolding execute
approved_request =
    value (approval_of 11) (execute (decide_approval deployment approves 120) pending_db).0

approves_run :
    decide_approval deployment approves 120 pending_db ≡ ok (approved_request, approved_db)
unfolding execute
approves_run = refl

decide_approval-Decides_example : Decides approves 120 pending_db approved_db approved_request
decide_approval-Decides_example =
    decide_approval-Decides deployment approves 120 pending_db approved_db approved_request
      approves_run

-- A second capability for the effect that is prepared, at the Case revision of now.
abbrev reissued : ExecutionCapability
reissued = record (capability_of 11 130) { capability_id = 799 }

abbrev reissued_db : Db
unfolding execute
reissued_db = (execute (issue deployment (replay 11) reissued 135 (some 1)) first_db).1

reissued_run : issue deployment (replay 11) reissued 135 (some 1) first_db ≡ ok (tt, reissued_db)
unfolding execute
reissued_run = refl

prepared_found : lookup 30011 first_db.effects ≡ some (ledger_row first_ledger)
unfolding execute
prepared_found = refl

prepared_case : (ledger_row first_ledger).case_id ≡ reissued.case_id
unfolding execute
prepared_case = refl

prepared_key : (ledger_row first_ledger).idempotency_key ≡ 30011
unfolding execute
prepared_key = refl

issue-fenced_example : is_lookup_only (ledger_row first_ledger).status ≡ false
unfolding execute
issue-fenced_example =
    issue-fenced deployment (replay 11) reissued 135 (some 1) first_db reissued_db 30011
      (ledger_row first_ledger) reissued_run prepared_found prepared_case prepared_key
