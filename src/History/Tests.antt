-- ===== src/History/Tests.antt =====
-- What the theorems on histories say of the run of two effects.
use credit_incident_resoluti.Prelude.{none, some, ◌≡◌, ◌≢◌, refl, lookup}
use credit_incident_resoluti.Authorization.Models.{EffectRow}
use credit_incident_resoluti.Fixtures.{capability_of, deployment}
use credit_incident_resoluti.Fixtures.Execute.{execute}
use credit_incident_resoluti.Fixtures.Runs.{
  dispatches_first_run, dispatches_second_run, first-LedgerIsSound, first_db, first_ledger, last_db,
  last_ledger, second_db, second-Steps, sent_db, sent_ledger,
}
use credit_incident_resoluti.Authorization.Ledger.{ledger_row}
use credit_incident_resoluti.History.Sound.{LedgerIsSound}
use credit_incident_resoluti.History.Steps.{Step, Steps, Steps-LedgerIsSound}
use credit_incident_resoluti.History.Reach.{dispatches_once, Evolved, Steps-Evolved}

dispatches_once_example : last_ledger.effect_id ≢ sent_ledger.effect_id
dispatches_once_example =
    dispatches_once deployment (capability_of 11 100) (capability_of 12 130) 140 160 none none
      first_db sent_db second_db last_db sent_ledger last_ledger first-LedgerIsSound
      dispatches_first_run second-Steps dispatches_second_run

sent-Steps : Steps deployment first_db sent_db
sent-Steps =
    Steps.next Steps.start
      (Step.dispatches (capability_of 11 100) 140 none sent_ledger dispatches_first_run)

Steps-LedgerIsSound_example : LedgerIsSound sent_db.effects
Steps-LedgerIsSound_example =
    Steps-LedgerIsSound deployment first_db sent_db sent-Steps first-LedgerIsSound

first_found : lookup 30011 first_db.effects ≡ some (ledger_row first_ledger)
unfolding execute
first_found = refl

Steps-Evolved_example :
    (now : EffectRow) × (lookup 30011 sent_db.effects ≡ some now)
    × Evolved (ledger_row first_ledger) now
Steps-Evolved_example =
    Steps-Evolved deployment first_db sent_db 30011 (ledger_row first_ledger) sent-Steps
      first-LedgerIsSound first_found
