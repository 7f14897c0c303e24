-- ===== src/History/Steps.antt =====
-- Sequences of committed transactions, and what they keep of the side-effect ledger.
use credit_incident_resoluti.Prelude.{ℕ, Bool, Option, Table, ◌≡◌, sym, inl, inr, nat_eq}
use mathlib.Core.Path.{subst}
use credit_incident_resoluti.Domain.{EffectStatus}
use credit_incident_resoluti.Authorization.Models.{
  EffectRow, ExecutionCapability, FailureCode, SideEffectLedger, SideEffectReceipt,
}
use credit_incident_resoluti.Authorization.Ledger.{dispatch_prepared, prepare, transition}
use credit_incident_resoluti.Authorization.Lifecycle.{Adds, Moves}
use credit_incident_resoluti.Authorization.Commits.{
  dispatch_commits, prepare_commits, transition_commits,
}
use credit_incident_resoluti.Recovery.Models.{RecoveryClaim, RecoveryFailure}
use credit_incident_resoluti.Recovery.Settle.{finish_error, recover_transition}
use credit_incident_resoluti.Recovery.Commits.{finish_error_commits, recover_transition_commits}
use credit_incident_resoluti.History.Sound.{Adds-LedgerIsSound, LedgerIsSound, Moves-LedgerIsSound}
use credit_incident_resoluti.Database.{Db, Deployment}
use credit_incident_resoluti.Database.Transaction.{ok}

-- One committed transaction: the five that write the ledger, with any arguments, or any other.
pub data Step (env : Deployment) (db db' : Db) : Type 0 where
  prepares :
      (capability : ExecutionCapability) (now wall correlation : ℕ)
      (answer : SideEffectLedger × Bool)
      → prepare env capability now wall correlation db ≡ ok (answer, db')
      → Step env db db'
  dispatches :
      (capability : ExecutionCapability) (now : ℕ) (claim : Option RecoveryClaim)
      (ledger : SideEffectLedger)
      → dispatch_prepared env capability now claim db ≡ ok (ledger, db')
      → Step env db db'
  transitions :
      (effect_id : ℕ) (expected status : EffectStatus) (now : ℕ)
      (receipt : Option SideEffectReceipt) (failure : Option FailureCode)
      (ledger : SideEffectLedger)
      → transition env effect_id expected status now receipt failure db ≡ ok (ledger, db')
      → Step env db db'
  recovers :
      (claim : RecoveryClaim) (now : ℕ) (ledger : SideEffectLedger)
      → recover_transition env claim now db ≡ ok (ledger, db')
      → Step env db db'
  fails :
      (claim : RecoveryClaim) (now : ℕ) (failure : RecoveryFailure) (ledger : SideEffectLedger)
      → finish_error env claim now failure db ≡ ok (ledger, db')
      → Step env db db'
  elsewhere : db'.effects ≡ db.effects → Step env db db'

pub data Steps (env : Deployment) (db : Db) : Db → Type 0 where
  start : Steps env db db
  next : {mid db' : Db} → Steps env db mid → Step env mid db' → Steps env db db'

-- What one transaction has done to the ledger.
pub data Written (before after : Table EffectRow) : Type 0 where
  kept : after ≡ before → Written before after
  added : (ledger : SideEffectLedger) → Adds before after ledger → Written before after
  moved : (ledger : SideEffectLedger) → Moves before after ledger → Written before after

pub Step-Written :
    (env : Deployment) (db db' : Db) → Step env db db' → Written db.effects db'.effects
Step-Written env db db' (prepares c now wall correlation answer h) =
    elim ((prepare_commits env c now wall correlation db).at _ _ h) [
      | inl same ↦ Written.kept same
      | inr adds ↦ Written.added _ adds
    ]
Step-Written env db db' (dispatches c now claim ledger h) =
    Written.moved _ ((dispatch_commits env c now claim db).at _ _ h).0
Step-Written env db db' (transitions e expected status now receipt failure ledger h) =
    Written.moved _ ((transition_commits env e expected status now receipt failure db).at _ _ h).0
Step-Written env db db' (recovers c now ledger h) =
    Written.moved _ ((recover_transition_commits env c now db).at _ _ h)
Step-Written env db db' (fails c now failure ledger h) =
    elim ((finish_error_commits env c now failure db).at _ _ h) [
      | inl same ↦ Written.kept same
      | inr moves ↦ Written.moved _ moves
    ]
Step-Written env db db' (elsewhere same) = Written.kept same

Written-LedgerIsSound :
    {before after : Table EffectRow}
    → Written before after
    → LedgerIsSound before
    → LedgerIsSound after
Written-LedgerIsSound (kept same) sound = subst LedgerIsSound (sym same) sound
Written-LedgerIsSound (added ledger adds) sound = Adds-LedgerIsSound adds sound
Written-LedgerIsSound (moved ledger moves) sound = Moves-LedgerIsSound moves sound

-- Whatever transactions commit, every row of the ledger stays sound if every row was: its columns
-- repeat its ledger, it is stored under its own key, which is its idempotency key too, and its
-- attempt count is 0 while it is PREPARED or NOOP and 1 in every other status.
pub Steps-LedgerIsSound :
    (env : Deployment) (db db' : Db)
    → Steps env db db'
    → LedgerIsSound db.effects
    → LedgerIsSound db'.effects
Steps-LedgerIsSound env db db' start sound = sound
Steps-LedgerIsSound env db db' (next {mid} before step) sound =
    Written-LedgerIsSound (Step-Written env mid db' step)
      (Steps-LedgerIsSound env db mid before sound)
