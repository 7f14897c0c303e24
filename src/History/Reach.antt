-- ===== src/History/Reach.antt =====
-- The life of one effect over any sequence of committed transactions.
use credit_incident_resoluti.Prelude.{
  ℕ, true, false, Option, some, Table, ◌≡◌, ◌≢◌, refl, ap, sym, ◌∙◌, ◌⊎◌, inl, inr, lookup, insert,
  lookup-insert, arith, if◌then◌else◌, ◌==◌, nat_eq, Bool-cases,
}
use mathlib.Core.Path.{subst}
use credit_incident_resoluti.Domain.{EffectStatus}
use credit_incident_resoluti.Authorization.Models.{EffectRow, ExecutionCapability, SideEffectLedger}
use credit_incident_resoluti.Authorization.Ledger.{dispatch_prepared}
use credit_incident_resoluti.Authorization.Lifecycle.{
  Adds, bindings, is_outcome, may_become, may_reach, Moves,
}
use credit_incident_resoluti.Authorization.Commits.{dispatch_commits}
use credit_incident_resoluti.Recovery.Models.{RecoveryClaim}
use credit_incident_resoluti.History.Sound.{LedgerIsSound, moved}
use credit_incident_resoluti.History.Steps.{Step, Step-Written, Steps, Steps-LedgerIsSound, Written}
use credit_incident_resoluti.Database.{Db, Deployment}
use credit_incident_resoluti.Database.Transaction.{ok}

-- What became of a row: its status has moved along the life of an effect, the rest is as it was.
pub record Evolved (before after : EffectRow) : Type 0 where
  pub reach : may_reach before.status after.status ≡ true
  pub same : bindings after.payload ≡ bindings before.payload

may_reach_refl : (status : EffectStatus) → may_reach status status ≡ true
unfolding may_reach is_outcome
may_reach_refl status = ground arith

may_reach-step :
    (from mid to : EffectStatus)
    → may_reach from mid ≡ true
    → may_become mid to ≡ true
    → may_reach from to ≡ true
unfolding may_reach may_become is_outcome
may_reach-step from mid to far near = ground arith

insert-same : {V : Type 0} (k : ℕ) (v : V) (t : Table V) → lookup k (insert k v t) ≡ some v
insert-same k v t = lookup-insert k k v t ∙ ground arith

insert-other :
    {V : Type 0} (k j : ℕ) (v : V) (t : Table V)
    → (k == j) ≡ false
    → lookup j (insert k v t) ≡ lookup j t
insert-other k j v t other =
    lookup-insert k j v t ∙ ap (λ b. if b then some v else lookup j t) other

-- A row survives a write, as itself or moved by one step.
abbrev Survives : ℕ → EffectRow → Table EffectRow → Type 0
Survives key row after =
    (now : EffectRow) × (lookup key after ≡ some now)
    × ((now ≡ row)
        ⊎ ((may_become row.status now.status ≡ true)
            × (bindings now.payload ≡ bindings row.payload)))

Moves-Survives :
    {before after : Table EffectRow} {ledger : SideEffectLedger} (moves : Moves before after ledger)
    (key : ℕ) (row : EffectRow)
    → LedgerIsSound before
    → lookup key before ≡ some row
    → Survives key row after
Moves-Survives {before} {after} moves key row sound h =
    let own = (sound.at moves.key moves.row moves.found).own_key in
    elim (Bool-cases (moves.row.effect_id == key)) [
      | inl same ↦
          let here : moves.row.effect_id ≡ key = ground arith in
          let this : row ≡ moves.row = cc (h, moves.found, own, here) in
          (
            moved moves,
            ap (lookup key) moves.written
                ∙ subst
                    (λ k.
                      lookup k (insert moves.row.effect_id (moved moves) before)
                      ≡ some (moved moves))
                    here (insert-same moves.row.effect_id (moved moves) before),
            inr (
              ap (λ r. may_become r.status (moved moves).status) this ∙ moves.allowed,
              moves.same ∙ ap (λ r. bindings r.payload) (sym this),
            ),
          )
      | inr other ↦
          (row, ap (lookup key) moves.written ∙ insert-other _ key _ before other ∙ h, inl refl)
    ]

Adds-Survives :
    {before after : Table EffectRow} {ledger : SideEffectLedger} (adds : Adds before after ledger)
    (key : ℕ) (row : EffectRow)
    → lookup key before ≡ some row
    → Survives key row after
Adds-Survives {before} {ledger = ledger} adds key row h =
    elim (Bool-cases (ledger.effect_id == key)) [
      | inl same ↦
          let here : ledger.effect_id ≡ key = ground arith in absurd (cc (h, adds.missing, here))
      | inr other ↦
          (row, ap (lookup key) adds.written ∙ insert-other _ key _ before other ∙ h, inl refl)
    ]

Written-Survives :
    {before after : Table EffectRow} (key : ℕ) (row : EffectRow)
    → Written before after
    → LedgerIsSound before
    → lookup key before ≡ some row
    → Survives key row after
Written-Survives key row (Written.kept same) sound h = (row, ap (lookup key) same ∙ h, inl refl)
Written-Survives key row (Written.added ledger adds) sound h = Adds-Survives adds key row h
Written-Survives key row (Written.moved ledger moves) sound h = Moves-Survives moves key row sound h

-- From a sound ledger, whatever transactions commit, a stored effect stays stored, its status has
-- moved only forward along `may_reach`, and the fields of its ledger that `bindings` keeps are
-- unchanged.
pub Steps-Evolved :
    (env : Deployment) (db db' : Db) (key : ℕ) (row : EffectRow)
    → Steps env db db'
    → LedgerIsSound db.effects
    → lookup key db.effects ≡ some row
    → (now : EffectRow) × (lookup key db'.effects ≡ some now) × Evolved row now
Steps-Evolved env db db' key row Steps.start sound h =
    (row, h, record { reach = may_reach_refl row.status; same = refl })
Steps-Evolved env db db' key row (Steps.next {mid} before step) sound h =
    let (now, there, evolved) = Steps-Evolved env db mid key row before sound h in
    let mid_sound = Steps-LedgerIsSound env db mid before sound in
    let (last, at_last, how) =
      Written-Survives key now (Step-Written env mid db' step) mid_sound there in
    (
      last,
      at_last,
      elim how [
        | inl same ↦ record {
          reach = ap (λ r. may_reach row.status r.status) same ∙ evolved.reach;
          same = ap (λ r. bindings r.payload) same ∙ evolved.same;
        }
        | inr (step_on, kept) ↦ record {
          reach = may_reach-step row.status now.status last.status evolved.reach step_on;
          same = kept ∙ evolved.same;
        }
      ],
    )

-- The only way to DISPATCHED is from PREPARED, and there is no way back to PREPARED.
was_prepared :
    (from : EffectStatus)
    → may_become from EffectStatus.dispatched ≡ true
    → from ≡ EffectStatus.prepared
unfolding may_become is_outcome
was_prepared from h = ground arith

not_prepared_again : may_reach EffectStatus.dispatched EffectStatus.prepared ≡ true → ⊥
unfolding may_reach is_outcome
not_prepared_again h = cc

-- The row that a dispatch leaves behind.
dispatch-leaves :
    (env : Deployment) (capability : ExecutionCapability) (now : ℕ) (claim : Option RecoveryClaim)
    (db db' : Db) (ledger : SideEffectLedger)
    → LedgerIsSound db.effects
    → dispatch_prepared env capability now claim db ≡ ok (ledger, db')
    → (row : EffectRow) × (lookup ledger.effect_id db'.effects ≡ some row)
      × (row.status ≡ EffectStatus.dispatched)
unfolding bindings
dispatch-leaves env capability now claim db db' ledger sound h =
    let (moves, to) = (dispatch_commits env capability now claim db).at ledger db' h in
    let old = sound.at moves.key moves.row moves.found in
    let here : ledger.effect_id ≡ moves.row.effect_id =
      ap (λ l. l.effect_id) moves.same ∙ old.ledger_key ∙ sym old.own_key in
    (
      moved moves,
      ap (lookup ledger.effect_id) moves.written
          ∙ ap (λ k. lookup k (insert moves.row.effect_id (moved moves) db.effects)) here
          ∙ insert-same moves.row.effect_id (moved moves) db.effects,
      to,
    )

-- The row that a dispatch starts from.
dispatch-starts :
    (env : Deployment) (capability : ExecutionCapability) (now : ℕ) (claim : Option RecoveryClaim)
    (db db' : Db) (ledger : SideEffectLedger)
    → LedgerIsSound db.effects
    → dispatch_prepared env capability now claim db ≡ ok (ledger, db')
    → (row : EffectRow) × (lookup ledger.effect_id db.effects ≡ some row)
      × (row.status ≡ EffectStatus.prepared)
unfolding bindings
dispatch-starts env capability now claim db db' ledger sound h =
    let (moves, to) = (dispatch_commits env capability now claim db).at ledger db' h in
    let old = sound.at moves.key moves.row moves.found in
    let here : ledger.effect_id ≡ moves.key = ap (λ l. l.effect_id) moves.same ∙ old.ledger_key in
    (
      moves.row,
      ap (λ k. lookup k db.effects) here ∙ moves.found,
      was_prepared moves.row.status
          (ap (λ s. may_become moves.row.status s) (sym to) ∙ moves.allowed),
    )

-- An effect is dispatched at most once: from a sound ledger, after a committed `dispatch_prepared`, and
-- whatever commits in between, a later `dispatch_prepared` that commits, with any capability and
-- any claim, is of another effect.
pub dispatches_once :
    (env : Deployment) (first second : ExecutionCapability) (now later : ℕ)
    (claim other : Option RecoveryClaim) (db sent_db mid db' : Db) (ledger again : SideEffectLedger)
    → LedgerIsSound db.effects
    → dispatch_prepared env first now claim db ≡ ok (ledger, sent_db)
    → Steps env sent_db mid
    → dispatch_prepared env second later other mid ≡ ok (again, db')
    → again.effect_id ≢ ledger.effect_id
dispatches_once env first second now later claim other db sent_db mid db' ledger again sound sends
      between resends same =
    let one : Steps env db sent_db =
      Steps.next Steps.start (Step.dispatches first now claim ledger sends) in
    let sent_sound = Steps-LedgerIsSound env db sent_db one sound in
    let mid_sound = Steps-LedgerIsSound env sent_db mid between sent_sound in
    let (row, there, is_dispatched) =
      dispatch-leaves env first now claim db sent_db ledger sound sends in
    let (now_row, still, evolved) =
      Steps-Evolved env sent_db mid ledger.effect_id row between sent_sound there in
    let (again_row, at_again, is_prepared) =
      dispatch-starts env second later other mid db' again mid_sound resends in
    not_prepared_again (cc (evolved.reach, is_dispatched, is_prepared, still, at_again, same))
