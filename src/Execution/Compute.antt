-- ===== src/Execution/Compute.antt =====
-- Computes what a service call does on concrete tables.
use credit_incident_resoluti.Execution.Process
use credit_incident_resoluti.Execution.Service
use credit_incident_resoluti.Execution.Recover
use credit_incident_resoluti.Execution.Twice
use credit_incident_resoluti.Recovery.Resume

unfoldable pub ran {ℓ} : {A : Type ℓ} → A → A
unfolding credit_incident_resoluti.Execution.Process.arrive
    credit_incident_resoluti.Execution.Process.pure
    credit_incident_resoluti.Execution.Process.answer
    credit_incident_resoluti.Execution.Process.raise
    credit_incident_resoluti.Execution.Process.commit
    credit_incident_resoluti.Execution.Process.attempt
    credit_incident_resoluti.Execution.Process.◌>>=◌
    credit_incident_resoluti.Execution.Process.dispatch
    credit_incident_resoluti.Execution.Service.is_consistent
    credit_incident_resoluti.Execution.Service.settlement
    credit_incident_resoluti.Execution.Service.record_outcome
    credit_incident_resoluti.Execution.Service.complete_dispatch
    credit_incident_resoluti.Execution.Service.replayed
    credit_incident_resoluti.Execution.Service.or_replay
    credit_incident_resoluti.Execution.Service.replay_or
    credit_incident_resoluti.Execution.Service.outside
    credit_incident_resoluti.Execution.Service.after_prepare
    credit_incident_resoluti.Execution.Service.prepare_and_dispatch
    credit_incident_resoluti.Execution.Service.after_verify
    credit_incident_resoluti.Execution.Service.execute
    credit_incident_resoluti.Execution.Recover.stale_if
    credit_incident_resoluti.Execution.Recover.invalid_if
    credit_incident_resoluti.Execution.Recover.capture
    credit_incident_resoluti.Execution.Recover.resume_dispatch
    credit_incident_resoluti.Execution.Recover.resume
    credit_incident_resoluti.Execution.Recover.outcome_of
    credit_incident_resoluti.Execution.Recover.resume_and_finish
    credit_incident_resoluti.Execution.Recover.look_up_and_settle
    credit_incident_resoluti.Execution.Recover.settle_claim
    credit_incident_resoluti.Execution.Recover.failure_of
    credit_incident_resoluti.Execution.Recover.or_reread
    credit_incident_resoluti.Execution.Recover.failed_action
    credit_incident_resoluti.Execution.Recover.record_failure
    credit_incident_resoluti.Execution.Recover.recover_claimed
    credit_incident_resoluti.Execution.Recover.unclaimed
    credit_incident_resoluti.Execution.Recover.after_claim
    credit_incident_resoluti.Execution.Recover.recover
    credit_incident_resoluti.Execution.Twice.perform
    credit_incident_resoluti.Recovery.Resume.original_capability
    credit_incident_resoluti.Recovery.Resume.prepared_case
    credit_incident_resoluti.Recovery.Resume.own_attempt
ran a = a
