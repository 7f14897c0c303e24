-- ===== src/History/Sound.antt =====
-- What holds of every row of the side-effect ledger, and how the two ways of writing one keep it.
use credit_incident_resoluti.Prelude.{
  ℕ, true, some, Table, ◌≡◌, refl, ap, sym, ◌∙◌, ◌⊎◌, inl, inr, ◌==◌, nat_eq, lookup, insert,
  lookup-insert, Bool-cases, arith,
}
use mathlib.Core.Path.{subst₂}
use credit_incident_resoluti.Domain.{EffectStatus}
use credit_incident_resoluti.Authorization.Models.{EffectRow, SideEffectLedger}
use credit_incident_resoluti.Authorization.Ledger.{ledger_row}
use credit_incident_resoluti.Authorization.Lifecycle.{
  Adds, attempts_after, bindings, is_outcome, may_become, Moves,
}

-- How often the remote write has been sent: not while it is only prepared, once after that.
unfoldable pub sent : EffectStatus → ℕ
sent EffectStatus.prepared = 0
sent EffectStatus.noop = 0
sent _ = 1

-- A row and its ledger under a key: the columns repeat the ledger, the effect is its own
-- idempotency key, and its attempts are those of its status.
pub record SoundRow (key : ℕ) (row : EffectRow) : Type 0 where
  pub own_key : row.effect_id ≡ key
  pub ledger_key : row.payload.effect_id ≡ key
  pub one_key : row.payload.idempotency_key ≡ key
  pub idempotency : row.idempotency_key ≡ row.payload.idempotency_key
  pub capability : row.capability_id ≡ row.payload.capability_id
  pub case : row.case_id ≡ row.payload.case_id
  pub status : row.status ≡ row.payload.status
  pub attempts : row.payload.attempt_count ≡ sent row.payload.status

pub record LedgerIsSound (effects : Table EffectRow) : Type 0 where
  pub at : (key : ℕ) (row : EffectRow) → lookup key effects ≡ some row → SoundRow key row

-- A lookup after an insert finds the new row, or the row that was there under another key.
pub lookup-insert-cases :
    {V : Type 0} (k j : ℕ) (v w : V) (t : Table V)
    → lookup j (insert k v t) ≡ some w
    → ((j ≡ k) × (w ≡ v)) ⊎ (lookup j t ≡ some w)
lookup-insert-cases k j v w t h = elim (Bool-cases (k == j)) [
  | inl same ↦ inl (ground arith, cc (lookup-insert k j v t, same, h))
  | inr other ↦ inr (cc (lookup-insert k j v t, other, h))
]

sent-may_become :
    (from to : EffectStatus) (attempts : ℕ)
    → may_become from to ≡ true
    → attempts ≡ sent from
    → attempts_after from attempts ≡ sent to
unfolding may_become is_outcome attempts_after sent
sent-may_become from to attempts step h = ground arith

-- The row that a move writes.
abbrev pub moved :
    {before after : Table EffectRow} {ledger : SideEffectLedger}
    → Moves before after ledger
    → EffectRow
moved {ledger = ledger} moves = record moves.row { status = ledger.status; payload = ledger }

module _ {before after : Table EffectRow} {ledger : SideEffectLedger} where
  moved-SoundRow :
      (moves : Moves before after ledger)
      → SoundRow moves.key moves.row
      → SoundRow moves.key (moved moves)
  unfolding bindings
  moved-SoundRow moves sound = record {
    own_key = sound.own_key;
    ledger_key = ap (λ l. l.effect_id) moves.same ∙ sound.ledger_key;
    one_key = ap (λ l. l.idempotency_key) moves.same ∙ sound.one_key;
    idempotency = sound.idempotency ∙ sym (ap (λ l. l.idempotency_key) moves.same);
    capability = sound.capability ∙ sym (ap (λ l. l.capability_id) moves.same);
    case = sound.case ∙ sym (ap (λ l. l.case_id) moves.same);
    status = refl;
    attempts =
        moves.attempts
        ∙ sent-may_become moves.row.status ledger.status _ moves.allowed
            (sound.attempts ∙ ap sent (sym sound.status));
  }

  pub Moves-lookup :
      (moves : Moves before after ledger) (key : ℕ) (row : EffectRow)
      → lookup key after ≡ some row
      → ((key ≡ moves.row.effect_id) × (row ≡ moved moves)) ⊎ (lookup key before ≡ some row)
  Moves-lookup moves key row h =
      lookup-insert-cases moves.row.effect_id key (moved moves) row before
        (ap (lookup key) (sym moves.written) ∙ h)

  pub Adds-lookup :
      (adds : Adds before after ledger) (key : ℕ) (row : EffectRow)
      → lookup key after ≡ some row
      → ((key ≡ ledger.effect_id) × (row ≡ ledger_row ledger)) ⊎ (lookup key before ≡ some row)
  Adds-lookup adds key row h =
      lookup-insert-cases ledger.effect_id key (ledger_row ledger) row before
        (ap (lookup key) (sym adds.written) ∙ h)

  pub Moves-LedgerIsSound : Moves before after ledger → LedgerIsSound before → LedgerIsSound after
  Moves-LedgerIsSound moves sound = record {
    at = λ key row h. elim (Moves-lookup moves key row h) [
      | inl (same, new) ↦
          let old = sound.at moves.key moves.row moves.found in
          subst₂ SoundRow (sym old.own_key ∙ sym same) (sym new) (moved-SoundRow moves old)
      | inr kept ↦ sound.at key row kept
    ];
  }

  new-SoundRow : Adds before after ledger → SoundRow ledger.effect_id (ledger_row ledger)
  unfolding ledger_row sent
  new-SoundRow adds = record {
    own_key = refl;
    ledger_key = refl;
    one_key = adds.one_key;
    idempotency = refl;
    capability = refl;
    case = refl;
    status = refl;
    attempts = elim adds.starts [
      | inl prepared ↦ adds.unsent ∙ ap sent (sym prepared)
      | inr noop ↦ adds.unsent ∙ ap sent (sym noop)
    ];
  }

  pub Adds-LedgerIsSound : Adds before after ledger → LedgerIsSound before → LedgerIsSound after
  Adds-LedgerIsSound adds sound = record {
    at = λ key row h. elim (Adds-lookup adds key row h) [
      | inl (same, new) ↦ subst₂ SoundRow (sym same) (sym new) (new-SoundRow adds)
      | inr kept ↦ sound.at key row kept
    ];
  }
