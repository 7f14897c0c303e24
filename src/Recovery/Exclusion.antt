-- ===== src/Recovery/Exclusion.antt =====
-- What a claim takes of an effect's recovery row, and when a lookup settles an effect as failed.
use credit_incident_resoluti.Prelude.{
  ℕ, ◌+◌, ◌≤◌, ◌<◌, true, false, Option, none, some, ◌≡◌, ◌↔◌, refl, sym, ◌⊎◌, option_eq, lookup,
  insert, lookup-insert, ap, ◌∙◌, Bool, not, false, arith, nat_eq, Table,
}
use mathlib.Core.Path.{subst}
use credit_incident_resoluti.Domain.{EffectStatus, is_recoverable}
use credit_incident_resoluti.Authorization.Models.{EffectRow, SideEffectLedger}
use credit_incident_resoluti.Authorization.Guards.{Ensures-read, lock-Ensures}
use credit_incident_resoluti.Recovery.Models.{
  Attempt, LookupStatus, RecoveryCapability, RecoveryClaim, RecoveryFailure, RecoveryState,
  SideEffectLookupResult, RecoveryAuditEvent, RecoveryProof,
}
use credit_incident_resoluti.Recovery.Sync.{save_recovery_state}
use credit_incident_resoluti.Recovery.Proof.{reconcile, reconcile_status}
use credit_incident_resoluti.Recovery.Lease.{
  abandon, abandon_previous, add_attempt, audit, claim, exhausted, is_live, leased, locked,
  new_attempt, new_claim, not_due, save_attempt, take_lease,
}
use credit_incident_resoluti.Database.{Db, Deployment}
use credit_incident_resoluti.Database.Transaction.{ok, seconds}
use credit_incident_resoluti.Database.Frame.{Frames, Frames-modify, frame_rules}
use credit_incident_resoluti.Database.Ensures.{
  Ensures, Ensures-bind, Ensures-branch, Ensures-gets, Ensures-guard, Ensures-or_raise,
  Ensures-pure, Ensures-skip, modify-Ensures,
}

-- A lookup settles an effect as failed exactly when it confirms that there was no effect, or when
-- it finds nothing and the contract says that this is proof.
pub reconcile-failed_confirmed :
    (result : SideEffectLookupResult) (contract : RecoveryCapability)
    → ((reconcile_status result contract).0 ≡ EffectStatus.failed_confirmed) ↔ (
        ((result.lookup_status ≡ LookupStatus.found_failed_no_effect)
          × (result.no_effect_confirmed ≡ true))
        ⊎ ((result.lookup_status ≡ LookupStatus.not_found)
            × (contract.not_found_proves_no_effect ≡ true)))
unfolding reconcile_status reconcile
reconcile-failed_confirmed result contract = (λ h. ground arith, λ h. ground arith)

abbrev states_of : Db → Table RecoveryState
states_of db = db.recovery_states

-- What `_locked` reads of the effect and of its recovery row.
pub locked-state :
    (env : Deployment) (effect_id : ℕ) (db : Db)
    → Ensures (locked env effect_id) db (λ bound db'.
      (db' ≡ db)
      × ((lookup effect_id db.effects ≡ some bound.0)
          × (lookup effect_id db.recovery_states ≡ some bound.1)))
unfolding locked
locked-state env effect_id db = Ensures-gets _ _ (
    Ensures-or_raise _ _ _ λ row found. Ensures-read (lock-Ensures env row.case_id db) λ case there.
      Ensures-guard _ _ _ λ closure.
        Ensures-gets _ _
          (Ensures-or_raise _ _ _ λ state stored. Ensures-pure (refl, (found, stored))))

-- The state is free at `now`: it is below its limit, nobody asked for an operator, and it is due.
pub record IsFree (env : Deployment) (state : RecoveryState) (now : ℕ) : Type 0 where
  pub below_limit : state.attempt_count < env.policy.max_attempts
  pub unescalated : state.requires_escalation ≡ false
  pub unleased : is_live state.lease_until now ≡ false
  pub eligible : state.next_eligible_at ≤ now

free :
    (env : Deployment) (state : RecoveryState) (now : ℕ)
    → exhausted env state ≡ false
    → not_due env state now ≡ false
    → IsFree env state now
unfolding exhausted not_due
free env state now h g = record {
  below_limit = ground arith;
  unescalated = ground arith;
  unleased = ground arith;
  eligible = ground arith;
}

abbrev leases_of : Db → Table RecoveryState × Table Attempt
leases_of db = (db.recovery_states, db.attempts)

Frames-audit :
    (ledger : SideEffectLedger) (c : RecoveryClaim) (event : RecoveryAuditEvent) (now : ℕ)
    (proof : Option RecoveryProof) (failure : Option RecoveryFailure)
    → Frames leases_of (audit ledger c event now proof failure)
unfolding audit
Frames-audit ledger c event now proof failure = Frames-modify _ (λ db. refl)

Frames-save_attempt : (attempt : Attempt) → Frames states_of (save_attempt attempt)
unfolding save_attempt
Frames-save_attempt attempt = Frames-modify _ (λ db. refl)

Frames-abandon : (attempt : Option Attempt) (now : ℕ) → Frames states_of (abandon attempt now)
unfolding abandon
Frames-abandon (some attempt) now = search (frame_rules, Frames-save_attempt)
Frames-abandon none now = search frame_rules

Frames-abandon_previous :
    (state : RecoveryState) (now : ℕ) → Frames states_of (abandon_previous state now)
unfolding abandon_previous
Frames-abandon_previous state now = search (frame_rules, Frames-abandon) depth 8

insert-same : {V : Type 0} (k : ℕ) (v : V) (t : Table V) → lookup k (insert k v t) ≡ some v
insert-same k v t = lookup-insert k k v t ∙ ground arith

add_attempt-Ensures :
    (attempt : Attempt) (db : Db)
    → Ensures (add_attempt attempt) db (λ _ db'.
      (db'.recovery_states ≡ db.recovery_states)
      × (lookup attempt.recovery_id db'.attempts ≡ some attempt))
unfolding add_attempt save_attempt
add_attempt-Ensures attempt db = Ensures-gets _ _ (
    Ensures-guard _ _ _ λ unused. Ensures-gets _ _ (
      Ensures-guard _ _ _
        λ next. modify-Ensures _ _ (refl, insert-same attempt.recovery_id attempt db.attempts)))

-- What a claim that is granted has written.
pub record Granted (env : Deployment) (effect_id worker_id now recovery_id : ℕ) (db db' : Db)
    (c : RecoveryClaim) : Type 0 where
  pub state : RecoveryState
  pub stored : lookup effect_id db.recovery_states ≡ some state
  pub effect : EffectRow
  pub effect_stored : lookup effect_id db.effects ≡ some effect
  pub recoverable : is_recoverable effect.payload.status ≡ true
  pub source : c.source_status ≡ effect.payload.status
  pub was_free : IsFree env state now
  pub names : (c.effect_id ≡ effect_id) × (c.worker_id ≡ worker_id) × (c.recovery_id ≡ recovery_id)
  pub counts : c.sequence ≡ state.attempt_count + 1
  pub leases :
      db'.recovery_states
      ≡ insert state.effect_id
          (record state {
            lease_owner = some worker_id;
            lease_token = some recovery_id;
            lease_until = some (now + seconds env.policy.lease_seconds);
            attempt_count = state.attempt_count + 1;
          })
          db.recovery_states
  pub attempt :
      lookup recovery_id db'.attempts
      ≡ some (record {
        recovery_id = recovery_id;
        worker_id = worker_id;
        effect_id = effect_id;
        sequence = state.attempt_count + 1;
        started_at = now;
        completed_at = none;
        source_status = effect.payload.status;
        resolver_id = env.contract.resolver_id;
        result_status = none;
        lookup_result = none;
        proof = none;
        proof_hash = none;
        failure_code = none;
      })

is_true : (b : Bool) → not b ≡ false → b ≡ true
is_true b h = ground arith

take_lease-Ensures :
    (env : Deployment) (ledger : SideEffectLedger) (state : RecoveryState) (c : RecoveryClaim)
    (now : ℕ) (db : Db)
    → Ensures (take_lease env ledger state c now) db (λ answer db'.
      (answer ≡ some c)
      × ((db'.recovery_states ≡ insert state.effect_id (leased env state c now) db.recovery_states)
          × (lookup c.recovery_id db'.attempts ≡ some (new_attempt env c now))))
unfolding take_lease save_recovery_state leased new_attempt
take_lease-Ensures env ledger state c now db =
    Ensures-skip (Frames-abandon_previous state now) λ _ db1 e1. Ensures-bind (
      modify-Ensures _ _ (
        Ensures-bind (record {
          at = λ _ db2 run.
              let (kept, added) = (add_attempt-Ensures (new_attempt env c now) _).at _ db2 run in
              Ensures-skip (Frames-audit ledger c _ now _ _) λ _ db3 e3. Ensures-pure (
                refl,
                (ap (λ t. t.0) e3 ∙ kept ∙ cc (e1), ap (λ t. lookup c.recovery_id t.1) e3 ∙ added),
              );
        })))

-- A claim that is granted found the effect in a recoverable status, which it records, and its
-- recovery row free (below the attempt limit, not escalated, due, and without a live lease). It has
-- the next sequence number, and it has written into that row and no other that its worker and its
-- token hold the lease for the policy's time from now, with one attempt more, and it has stored its
-- own open attempt.
pub claim-Granted :
    (env : Deployment) (effect_id worker_id now recovery_id : ℕ) (db db' : Db) (c : RecoveryClaim)
    → claim env effect_id worker_id now recovery_id db ≡ ok (some c, db')
    → Granted env effect_id worker_id now recovery_id db db' c
unfolding claim new_claim leased new_attempt
claim-Granted env effect_id worker_id now recovery_id db db' c h =
    let whole : Ensures (claim env effect_id worker_id now recovery_id) db (λ answer d.
      (c' : RecoveryClaim)
      → answer ≡ some c'
      → Granted env effect_id worker_id now recovery_id db d c') =
      Ensures-read (locked-state env effect_id db) λ bound stored.
        Ensures-branch _ _ _ (λ _. Ensures-pure (λ c' e. absurd (cc e)))
          λ can_recover.
            Ensures-branch _ _ _
              (λ _. Ensures-bind (record { at = λ _ d _. Ensures-pure (λ c' e. absurd (cc e)) }))
              λ below.
                Ensures-branch _ _ _ (λ _. Ensures-pure (λ c' e. absurd (cc e)))
                  λ due. record {
                    at = λ answer d run.
                        let (granted, (wrote, opened)) =
                          (take_lease-Ensures env _ _ _ now db).at answer d run in
                        λ c' e.
                          let same : c'
                              ≡ new_claim bound.1 bound.0.payload.status effect_id recovery_id
                                  worker_id =
                            cc (granted, e) in
                          subst (Granted env effect_id worker_id now recovery_id db d) (sym same)
                            (record {
                              state = bound.1;
                              stored = stored.1;
                              effect = bound.0;
                              effect_stored = stored.0;
                              recoverable = is_true _ can_recover;
                              source = refl;
                              was_free = free env bound.1 now below due;
                              names = (refl, refl, refl);
                              counts = refl;
                              leases = wrote;
                              attempt = opened;
                            });
                  } in
    whole.at (some c) db' h c refl
