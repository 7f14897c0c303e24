-- ===== src/Recovery/Scan.antt =====
-- `list_recoverable_effects` of credit_harness/recovery/repository.py, and the reads beside it.
use credit_incident_resoluti.Prelude.{
  ℕ, ◌+◌, zero, suc, Bool, true, ◌&&◌, ◌||◌, Option, none, some, List, [], ◌∷◌, ◌==◌, nat_eq, leb,
  ltb, not, or_else, lookup, select, if◌then◌else◌,
}
use credit_incident_resoluti.Domain.{is_recoverable}
use credit_incident_resoluti.Authorization.Ledger.{get_ledger}
use credit_incident_resoluti.Recovery.Models.{RecoveryState}
use credit_incident_resoluti.Database.{Db, Deployment}
use credit_incident_resoluti.Database.Transaction.{
  missing_row, pure, seconds, Tx, ◌>>=◌, ◌>>◌, gets, or_raise,
}

no_live_lease : RecoveryState → ℕ → Bool
no_live_lease state now = elim state.lease_until [ none ↦ true | some until ↦ leb until now ]

-- The ledger has not changed since min (now - grace, older_than).
is_settling : Deployment → RecoveryState → (now : ℕ) → Option ℕ → Bool
is_settling env state now older_than =
    ltb now (state.ledger_updated_at + seconds env.policy.grace_seconds)
    || ltb (or_else older_than now) state.ledger_updated_at

-- The WHERE clause of the scan.
unfoldable pub is_eligible : Deployment → (now : ℕ) → Option ℕ → RecoveryState → Bool
unfolding no_live_lease is_settling
is_eligible env now older_than state =
    state.tenant_id == env.tenant_id
    && (is_recoverable state.status
        && (not (is_settling env state now older_than)
            && (leb state.next_eligible_at now
                && (not state.requires_escalation && no_live_lease state now))))

before : RecoveryState → RecoveryState → Bool
before a b =
    ltb a.next_eligible_at b.next_eligible_at
    || (a.next_eligible_at == b.next_eligible_at && leb a.effect_id b.effect_id)

add_ordered : RecoveryState → List RecoveryState → List RecoveryState
unfolding before
add_ordered s [] = s ∷ []
add_ordered s (t ∷ ts) =
    let later = add_ordered s ts in if before s t then s ∷ t ∷ ts else t ∷ later

in_order : List RecoveryState → List RecoveryState
unfolding add_ordered
in_order [] = []
in_order (s ∷ ss) = add_ordered s (in_order ss)

first_ids : ℕ → List RecoveryState → List ℕ
first_ids limit [] = []
first_ids zero (s ∷ ss) = []
first_ids (suc limit) (s ∷ ss) = s.effect_id ∷ first_ids limit ss

unfoldable pub list_recoverable_effects :
    Deployment → (now : ℕ) → Option ℕ → (limit : ℕ) → Db → List ℕ
unfolding is_eligible in_order first_ids
list_recoverable_effects env now older_than limit db =
    first_ids limit (in_order (select (is_eligible env now older_than) db.recovery_states))

-- `requires_escalation`
unfoldable pub requires_escalation : Deployment → ℕ → Tx Bool
requires_escalation env effect_id = do
  get_ledger env effect_id
  found ← gets (λ db. lookup effect_id db.recovery_states)
  state ← or_raise found missing_row
  pure state.requires_escalation
