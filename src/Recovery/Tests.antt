-- ===== src/Recovery/Tests.antt =====
-- A worker claims the dispatched effect of the test run, records a lookup and settles the ledger;
-- another is granted a claim after the lease.
use credit_incident_resoluti.Prelude.{
  ◌+◌, ◌≤◌, true, false, none, some, ◌≡◌, ◌↔◌, ◌⊎◌, refl, lookup,
}
use credit_incident_resoluti.Domain.{EffectStatus}
use credit_incident_resoluti.Authorization.Models.{DomainCommand, SideEffectLedger}
use credit_incident_resoluti.Recovery.Models.{
  EffectIdentity, LookupStatus, RecoveryClaim, RecoveryState, SideEffectLookupResult,
}
use credit_incident_resoluti.Recovery.Lease.{claim}
use credit_incident_resoluti.Recovery.Proof.{reconcile_status}
use credit_incident_resoluti.Recovery.Settle.{persist_lookup, recover_transition}
use credit_incident_resoluti.Recovery.Exclusion.{claim-Granted, Granted, reconcile-failed_confirmed}
use credit_incident_resoluti.Recovery.Holder.{claim-excludes, Holds, Settles, Settles-Holds}
use credit_incident_resoluti.Recovery.Proved.{Proved, recover_transition-Proved}
use credit_incident_resoluti.Database.{Db}
use credit_incident_resoluti.Database.Transaction.{ok, seconds}
use credit_incident_resoluti.Fixtures.{deployment}
use credit_incident_resoluti.Fixtures.Execute.{execute, is_ok-value, value}
use credit_incident_resoluti.Fixtures.Runs.{sent_db, sent_ledger}

abbrev first_claim : RecoveryClaim
first_claim = record {
  recovery_id = 81;
  effect_id = 30011;
  worker_id = 91;
  source_status = EffectStatus.dispatched;
  sequence = 1;
}

abbrev second_claim : RecoveryClaim
second_claim = record {
  recovery_id = 82;
  effect_id = 30011;
  worker_id = 92;
  source_status = EffectStatus.dispatched;
  sequence = 2;
}

abbrev claimed_db : Db
unfolding execute
claimed_db = (execute (claim deployment 30011 91 2000000 81) sent_db).1

abbrev taken_over_db : Db
unfolding execute
taken_over_db = (execute (claim deployment 30011 92 33000000 82) claimed_db).1

first_claim_run : claim deployment 30011 91 2000000 81 sent_db ≡ ok (some first_claim, claimed_db)
unfolding execute
first_claim_run = refl

second_claim_run :
    claim deployment 30011 92 33000000 82 claimed_db ≡ ok (some second_claim, taken_over_db)
unfolding execute
second_claim_run = refl

claim-Granted_example : Granted deployment 30011 91 2000000 81 sent_db claimed_db first_claim
claim-Granted_example =
    claim-Granted deployment 30011 91 2000000 81 sent_db claimed_db first_claim first_claim_run

own_state :
    (s : RecoveryState) → lookup 30011 sent_db.recovery_states ≡ some s → s.effect_id ≡ 30011
unfolding execute
own_state s h = cc

same_lease :
    (s s' : RecoveryState)
    → lookup 30011 claimed_db.recovery_states ≡ some s
    → lookup 30011 claimed_db.recovery_states ≡ some s'
    → s'.lease_until ≡ s.lease_until
same_lease s s' h g = cc (h, g)

claim-excludes_example : 2000000 + seconds 30 ≤ 33000000
claim-excludes_example =
    claim-excludes deployment 30011 91 92 2000000 33000000 81 82 sent_db claimed_db claimed_db
      taken_over_db first_claim second_claim own_state first_claim_run same_lease second_claim_run

abbrev identity : EffectIdentity
identity = record {
  effect_id = 30011;
  target_hash = 20011;
  payload_hash = 30011;
  command = DomainCommand.replay_callback 7 3 9 11 4;
}

abbrev found_applied : SideEffectLookupResult
found_applied = record {
  correlation_id = 1;
  command_identity_hash = 90011;
  resolver_id = 5;
  lookup_status = LookupStatus.found_applied;
  external_effect_ref = some 77;
  observed_at = 2500000;
  no_effect_confirmed = false;
  remote_status_reference = none;
}

abbrev looked_up_db : Db
unfolding execute
looked_up_db =
    (execute (persist_lookup deployment first_claim identity found_applied 3000000) claimed_db).1

abbrev settled : SideEffectLedger × Db
settled =
    value (sent_ledger, looked_up_db)
      (recover_transition deployment first_claim 4000000 looked_up_db)

persist_lookup_run :
    persist_lookup deployment first_claim identity found_applied 3000000 claimed_db
    ≡ ok (tt, looked_up_db)
unfolding execute
persist_lookup_run = refl

recover_transition_run :
    recover_transition deployment first_claim 4000000 looked_up_db ≡ ok (settled.0, settled.1)
unfolding execute
recover_transition_run = is_ok-value (sent_ledger, looked_up_db) _ refl

Settles-Holds_example : Holds first_claim 3000000 claimed_db
Settles-Holds_example =
    Settles-Holds deployment first_claim 3000000 claimed_db
      (Settles.persists identity found_applied looked_up_db persist_lookup_run)

recover_transition-Proved_example :
    Proved deployment first_claim 4000000 looked_up_db settled.1 settled.0
recover_transition-Proved_example =
    recover_transition-Proved deployment first_claim 4000000 looked_up_db settled.1 settled.0
      recover_transition_run

reconcile-failed_confirmed_example :
    ((reconcile_status found_applied deployment.contract).0 ≡ EffectStatus.failed_confirmed) ↔ (
      ((found_applied.lookup_status ≡ LookupStatus.found_failed_no_effect)
        × (found_applied.no_effect_confirmed ≡ true))
      ⊎ ((found_applied.lookup_status ≡ LookupStatus.not_found)
          × (deployment.contract.not_found_proves_no_effect ≡ true)))
reconcile-failed_confirmed_example = reconcile-failed_confirmed found_applied deployment.contract
