-- ===== src/Authorization/Lifecycle.antt =====
-- The life of an effect, as a specification of the side-effect ledger: which status may follow
-- which, what a change of a ledger never touches, and what one transaction does to the table.
use credit_incident_resoluti.Prelude.{
  ℕ, Bool, true, false, none, some, Table, ◌≡◌, ◌⊎◌, lookup, insert,
}
use credit_incident_resoluti.Domain.{EffectStatus}
use credit_incident_resoluti.Authorization.Models.{EffectRow, SideEffectLedger}
use credit_incident_resoluti.Authorization.Ledger.{ledger_row}

-- What a receipt or a lookup may say of an effect.
unfoldable pub is_outcome : EffectStatus → Bool
is_outcome EffectStatus.accepted = true
is_outcome EffectStatus.applied = true
is_outcome EffectStatus.unknown = true
is_outcome EffectStatus.failed_confirmed = true
is_outcome _ = false

-- One step of the life of an effect.
unfoldable pub may_become : EffectStatus → EffectStatus → Bool
may_become EffectStatus.prepared EffectStatus.dispatched = true
may_become EffectStatus.dispatched to = is_outcome to
may_become EffectStatus.accepted to = is_outcome to
may_become EffectStatus.unknown to = is_outcome to
may_become _ to = false

-- Any number of steps.
unfoldable pub may_reach : EffectStatus → EffectStatus → Bool
may_reach EffectStatus.prepared EffectStatus.prepared = true
may_reach EffectStatus.prepared EffectStatus.dispatched = true
may_reach EffectStatus.prepared to = is_outcome to
may_reach EffectStatus.dispatched EffectStatus.dispatched = true
may_reach EffectStatus.dispatched to = is_outcome to
may_reach EffectStatus.accepted to = is_outcome to
may_reach EffectStatus.unknown to = is_outcome to
may_reach EffectStatus.applied EffectStatus.applied = true
may_reach EffectStatus.failed_confirmed EffectStatus.failed_confirmed = true
may_reach EffectStatus.noop EffectStatus.noop = true
may_reach EffectStatus.verified EffectStatus.verified = true
may_reach EffectStatus.rejected EffectStatus.rejected = true
may_reach _ to = false

-- The remote write is sent in the step out of PREPARED, and at no other.
unfoldable pub attempts_after : EffectStatus → ℕ → ℕ
attempts_after EffectStatus.prepared attempts = 1
attempts_after _ attempts = attempts

-- The fields of a ledger that no transaction changes.
unfoldable pub bindings : SideEffectLedger → SideEffectLedger
bindings ledger = record ledger {
  status = EffectStatus.prepared;
  attempt_count = 0;
  updated_at = 0;
  external_effect_ref = none;
  failure_code = none;
}

-- One row takes one step, to this ledger.
pub record Moves (before after : Table EffectRow) (ledger : SideEffectLedger) : Type 0 where
  pub key : ℕ
  pub row : EffectRow
  pub found : lookup key before ≡ some row
  pub allowed : may_become row.status ledger.status ≡ true
  pub same : bindings ledger ≡ bindings row.payload
  pub attempts : ledger.attempt_count ≡ attempts_after row.status row.payload.attempt_count
  pub written :
      after ≡ insert row.effect_id (record row { status = ledger.status; payload = ledger }) before

-- One row is new, and nothing has been sent for it.
pub record Adds (before after : Table EffectRow) (ledger : SideEffectLedger) : Type 0 where
  pub missing : lookup ledger.effect_id before ≡ none
  pub one_key : ledger.idempotency_key ≡ ledger.effect_id
  pub unsent : ledger.attempt_count ≡ 0
  pub starts : (ledger.status ≡ EffectStatus.prepared) ⊎ (ledger.status ≡ EffectStatus.noop)
  pub written : after ≡ insert ledger.effect_id (ledger_row ledger) before
