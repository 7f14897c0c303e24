-- ===== src/Recovery/Holder.antt =====
-- The holder of a lease: what a worker's transactions on its claim find of the recovery row, and when
-- another claim may follow.
use credit_incident_resoluti.Prelude.{
  ℕ, ◌+◌, ◌≤◌, true, false, Option, none, some, ◌≡◌, refl, ap, sym, ◌∙◌, ◌==◌, option_eq, not,
  lookup, lookup-insert, arith, nat_eq, if◌then◌else◌, is_none,
}
use credit_incident_resoluti.Authorization.Models.{EffectRow, SideEffectLedger}
use credit_incident_resoluti.Authorization.Guards.{Ensures-read}
use credit_incident_resoluti.Recovery.Models.{
  Attempt, EffectIdentity, RecoveryClaim, RecoveryFailure, RecoveryState, SideEffectLookupResult,
}
use credit_incident_resoluti.Recovery.Lease.{claim, holds, is_live, locked, owned}
use credit_incident_resoluti.Recovery.Settle.{
  finish_error, finish_resume, persist_lookup, recover_transition,
}
use credit_incident_resoluti.Recovery.Exclusion.{claim-Granted, locked-state}
use credit_incident_resoluti.Database.{Db, Deployment}
use credit_incident_resoluti.Database.Transaction.{ok, seconds, Tx, ◌>>=◌}
use credit_incident_resoluti.Database.Ensures.{
  Ensures, Ensures-gets, Ensures-guard, Ensures-or_raise, Ensures-pure,
}

-- The claim is the one that the effect's lease names, unexpired, and its attempt is still open.
pub record Holds (c : RecoveryClaim) (now : ℕ) (db : Db) : Type 0 where
  pub state : RecoveryState
  pub stored : lookup c.effect_id db.recovery_states ≡ some state
  pub token : state.lease_token ≡ some c.recovery_id
  pub owner : state.lease_owner ≡ some c.worker_id
  pub live : is_live state.lease_until now ≡ true
  pub attempt : Attempt
  pub attempt_stored : lookup c.recovery_id db.attempts ≡ some attempt
  pub still_open : attempt.completed_at ≡ none

-- A committed transaction of a worker that acts on its claim.
pub data Settles (env : Deployment) (c : RecoveryClaim) (now : ℕ) (db : Db) : Type 0 where
  persists :
      (identity : EffectIdentity) (result : SideEffectLookupResult) (db' : Db)
      → persist_lookup env c identity result now db ≡ ok (tt, db')
      → Settles env c now db
  transitions :
      (ledger : SideEffectLedger) (db' : Db)
      → recover_transition env c now db ≡ ok (ledger, db')
      → Settles env c now db
  fails :
      (failure : RecoveryFailure) (ledger : SideEffectLedger) (db' : Db)
      → finish_error env c now failure db ≡ ok (ledger, db')
      → Settles env c now db
  resumes :
      (ledger : SideEffectLedger) (db' : Db)
      → finish_resume env c now db ≡ ok (ledger, db')
      → Settles env c now db

is_none-none : {A : Type 0} (o : Option A) → not (is_none o) ≡ false → o ≡ none
is_none-none none h = refl
is_none-none (some a) h = absurd (cc h)

holding :
    (c : RecoveryClaim) (state : RecoveryState) (now : ℕ)
    → not (holds c state now) ≡ false
    → (state.lease_token ≡ some c.recovery_id)
      × (state.lease_owner ≡ some c.worker_id)
      × (is_live state.lease_until now ≡ true)
unfolding holds
holding c state now h = ground arith

pub owned-Ensures :
    (c : RecoveryClaim) (state : RecoveryState) (now : ℕ) (db : Db)
    → lookup c.effect_id db.recovery_states ≡ some state
    → Ensures (owned c state now) db (λ attempt db'.
      (db' ≡ db) × ((lookup c.recovery_id db.attempts ≡ some attempt) × Holds c now db))
unfolding owned
owned-Ensures c state now db stored = Ensures-guard _ _ _ λ held. Ensures-gets _ _ (
    Ensures-or_raise _ _ _ λ attempt found. Ensures-guard _ _ _ λ kept.
      let (token, owner, live) = holding c state now held in
      Ensures-pure (
        refl,
        (
          found,
          record {
            state = state;
            stored = stored;
            token = token;
            owner = owner;
            live = live;
            attempt = attempt;
            attempt_stored = found;
            still_open = is_none-none attempt.completed_at (ground arith);
          },
        ),
      ))

-- The two steps that every transaction on a claim starts with.
after_owned :
    {A : Type 0} (env : Deployment) (c : RecoveryClaim) (now : ℕ) (db : Db)
    (k : EffectRow × RecoveryState → Attempt → Tx A)
    → Ensures
        (locked env c.effect_id >>= λ bound. owned c bound.1 now >>= k bound)
        db
        (λ _ _. Holds c now db)
after_owned env c now db k = Ensures-read (locked-state env c.effect_id db) λ bound stored.
    Ensures-read {R = λ attempt. (lookup c.recovery_id db.attempts ≡ some attempt) × Holds c now db}
      (owned-Ensures c bound.1 now db stored.1) λ attempt held. record { at = λ _ _ _. held.1 }

-- When `_persist_lookup`, `recover_transition`, `finish_error` or `finish_resume` commits on a claim
-- at `now`, the effect's recovery row names that claim and its worker, its lease is live, and the
-- claim's attempt is stored and not completed.
pub Settles-Holds :
    (env : Deployment) (c : RecoveryClaim) (now : ℕ) (db : Db)
    → Settles env c now db
    → Holds c now db
unfolding persist_lookup recover_transition finish_error finish_resume
Settles-Holds env c now db (persists identity result db' h) =
    (after_owned env c now db _).at tt db' h
Settles-Holds env c now db (transitions ledger db' h) = (after_owned env c now db _).at ledger db' h
Settles-Holds env c now db (fails failure ledger db' h) =
    (after_owned env c now db _).at ledger db' h
Settles-Holds env c now db (resumes ledger db' h) = (after_owned env c now db _).at ledger db' h

-- If the effect's recovery row is stored under the effect's key, then after a granted claim another
-- one is granted no earlier than the end of the first one's lease, on the tables that the first has
-- left or on any others in which the row has kept the end of the lease.
pub claim-excludes :
    (env : Deployment) (effect_id worker other now later first_id second_id : ℕ)
    (db mid before db' : Db) (c d : RecoveryClaim)
    → ((s : RecoveryState) → lookup effect_id db.recovery_states ≡ some s → s.effect_id ≡ effect_id)
    → claim env effect_id worker now first_id db ≡ ok (some c, mid)
    → ((s s' : RecoveryState)
        → lookup effect_id mid.recovery_states ≡ some s
        → lookup effect_id before.recovery_states ≡ some s'
        → s'.lease_until ≡ s.lease_until)
    → claim env effect_id other later second_id before ≡ ok (some d, db')
    → now + seconds env.policy.lease_seconds ≤ later
unfolding is_live
claim-excludes env effect_id worker other now later first_id second_id db mid before db' c d keyed h
      kept g =
    let first = claim-Granted env effect_id worker now first_id db mid c h in
    let second = claim-Granted env effect_id other later second_id before db' d g in
    let own = keyed first.state first.stored in
    let taken : RecoveryState = record first.state {
      lease_owner = some worker;
      lease_token = some first_id;
      lease_until = some (now + seconds env.policy.lease_seconds);
      attempt_count = first.state.attempt_count + 1;
    } in
    let there : lookup effect_id mid.recovery_states ≡ some taken =
      ap (lookup effect_id) first.leases
      ∙ lookup-insert first.state.effect_id effect_id taken db.recovery_states
      ∙ same_key first.state.effect_id effect_id own (some taken)
          (lookup effect_id db.recovery_states) in
    expired later _ (
      ap (λ u. is_live u later) (sym (kept taken second.state there second.stored))
      ∙ second.was_free.unleased)
  where
    same_key : {A : Type 0} (k j : ℕ) → k ≡ j → (a b : A) → (if k == j then a else b) ≡ a
    same_key k j e a b = ground arith

    expired : (later until : ℕ) → is_live (some until) later ≡ false → until ≤ later
    expired later until h = ground arith
