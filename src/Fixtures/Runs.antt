-- ===== src/Fixtures/Runs.antt =====
-- A run of two effects of one Case: each is prepared and then dispatched.
use credit_incident_resoluti.Prelude.{Bool, true, false, none, ◌≡◌, refl, lookup}
use credit_incident_resoluti.Authorization.Models.{SideEffectLedger}
use credit_incident_resoluti.Authorization.Ledger.{dispatch_prepared, new_ledger, prepare}
use credit_incident_resoluti.Database.{Db}
use credit_incident_resoluti.Database.Transaction.{ok, Tx}
use credit_incident_resoluti.Fixtures.{capability_of, deployment, issued_db}
use credit_incident_resoluti.Fixtures.Execute.{execute, value}
use credit_incident_resoluti.History.Sound.{LedgerIsSound}
use credit_incident_resoluti.History.Steps.{Step, Steps, Steps-LedgerIsSound}

pub issued-LedgerIsSound : LedgerIsSound issued_db.effects
unfolding lookup
issued-LedgerIsSound = record { at = λ key row h. absurd (cc h) }

abbrev pub prepares_first : Tx (SideEffectLedger × Bool)
prepares_first = prepare deployment (capability_of 11 100) 130 130 1

abbrev pub prepares_second : Tx (SideEffectLedger × Bool)
prepares_second = prepare deployment (capability_of 12 130) 150 150 2

abbrev pub dispatches_first : Tx SideEffectLedger
dispatches_first = dispatch_prepared deployment (capability_of 11 100) 140 none

abbrev pub dispatches_second : Tx SideEffectLedger
dispatches_second = dispatch_prepared deployment (capability_of 12 130) 160 none

abbrev pub default_ledger : SideEffectLedger
default_ledger = new_ledger (capability_of 11 100) 0 0 0 0

abbrev pub first_db : Db
unfolding execute
first_db = (execute prepares_first issued_db).1

abbrev pub sent_db : Db
unfolding execute
sent_db = (execute dispatches_first first_db).1

abbrev pub second_db : Db
unfolding execute
second_db = (execute prepares_second sent_db).1

abbrev pub last_db : Db
unfolding execute
last_db = (execute dispatches_second second_db).1

abbrev pub first_ledger : SideEffectLedger
unfolding execute
first_ledger = (value (default_ledger, false) (execute prepares_first issued_db).0).0

abbrev pub sent_ledger : SideEffectLedger
unfolding execute
sent_ledger = value default_ledger (execute dispatches_first first_db).0

abbrev pub second_ledger : SideEffectLedger
unfolding execute
second_ledger = (value (default_ledger, false) (execute prepares_second sent_db).0).0

abbrev pub last_ledger : SideEffectLedger
unfolding execute
last_ledger = value default_ledger (execute dispatches_second second_db).0

pub prepares_first_run : prepares_first issued_db ≡ ok ((first_ledger, true), first_db)
unfolding execute
prepares_first_run = refl

pub dispatches_first_run : dispatches_first first_db ≡ ok (sent_ledger, sent_db)
unfolding execute
dispatches_first_run = refl

pub prepares_second_run : prepares_second sent_db ≡ ok ((second_ledger, true), second_db)
unfolding execute
prepares_second_run = refl

pub dispatches_second_run : dispatches_second second_db ≡ ok (last_ledger, last_db)
unfolding execute
dispatches_second_run = refl

pub first-Steps : Steps deployment issued_db first_db
first-Steps =
    Steps.next Steps.start (Step.prepares (capability_of 11 100) 130 130 1 _ prepares_first_run)

pub second-Steps : Steps deployment sent_db second_db
second-Steps =
    Steps.next Steps.start (Step.prepares (capability_of 12 130) 150 150 2 _ prepares_second_run)

pub first-LedgerIsSound : LedgerIsSound first_db.effects
first-LedgerIsSound =
    Steps-LedgerIsSound deployment issued_db first_db first-Steps issued-LedgerIsSound
