-- ===== src/Recovery/Commits.antt =====
-- What a committed recovery transaction has done to the ledger.
use credit_incident_resoluti.Prelude.{
  ℕ, true, false, some, Table, inl, inr, ◌⊎◌, ◌≡◌, refl, ap, lookup, insert, arith,
}
use credit_incident_resoluti.Domain.{EffectStatus, effect_status_eq, is_lookup_only}
use credit_incident_resoluti.Authorization.Models.{EffectRow, SideEffectLedger}
use credit_incident_resoluti.Authorization.Ledger.{save_effect}
use credit_incident_resoluti.Authorization.Lifecycle.{
  attempts_after, bindings, is_outcome, may_become, Moves,
}
use credit_incident_resoluti.Authorization.Untouched.{
  Frames-lock_for_authorization, Frames-synchronize_effect,
}
use credit_incident_resoluti.Recovery.Models.{
  RecoveryClaim, RecoveryFailure, SideEffectLookupResult, RecoveryCapability,
}
use credit_incident_resoluti.Recovery.Lease.{locked}
use credit_incident_resoluti.Recovery.Proof.{reconcile, reconcile_status}
use credit_incident_resoluti.Recovery.Settle.{
  cas, finish_error, moved_on, recover_transition, settled,
}
use credit_incident_resoluti.Recovery.Untouched.{
  Frames-finish, Frames-owned, Frames-reconstruct_identity, Frames-validate_lookup,
}
use credit_incident_resoluti.Database.{Db, Deployment}
use credit_incident_resoluti.Database.Ensures.{
  Ensures, Ensures-bind, Ensures-branch, Ensures-gets, Ensures-guard, Ensures-or_raise,
  Ensures-pure, Ensures-skip, modify-Ensures,
}

-- What `_locked` reads: the row of the effect.
locked-Ensures :
    (env : Deployment) (effect_id : ℕ) (db : Db)
    → Ensures
        (locked env effect_id)
        db
        (λ bound db'. (lookup effect_id db.effects ≡ some bound.0) × (db'.effects ≡ db.effects))
unfolding locked
locked-Ensures env effect_id db = Ensures-gets _ _ (
    Ensures-or_raise _ _ _ λ row found.
      Ensures-skip (Frames-lock_for_authorization env _) λ case db1 e1.
        Ensures-guard _ _ _ λ closure.
          Ensures-gets _ _ (Ensures-or_raise _ _ _ λ state stored. Ensures-pure (found, cc)))

pub cas-Ensures :
    (env : Deployment) (row : EffectRow) (before after : SideEffectLedger) (db : Db)
    → Ensures (cas env row before after) db (λ _ db'.
      (row.status ≡ before.status)
      × (db'.effects
          ≡ insert row.effect_id
              (record row { status = after.status; payload = after })
              db.effects))
unfolding cas save_effect
cas-Ensures env row before after db = Ensures-guard _ _ _ λ same. Ensures-bind (
    modify-Ensures _ _
      (record { at = λ _ db' h. (ground arith, (Frames-synchronize_effect env after).at _ _ _ h) }))

-- A ledger that has not moved on is in a lookup-only status, which any outcome may follow.
outcome-allowed :
    (ledger : SideEffectLedger) (c : RecoveryClaim) (to : EffectStatus) (attempts : ℕ)
    → moved_on ledger c ≡ false
    → is_outcome to ≡ true
    → (may_become ledger.status to ≡ true) × (attempts_after ledger.status attempts ≡ attempts)
unfolding moved_on may_become attempts_after is_lookup_only
outcome-allowed ledger c to attempts h out = ground arith

reconcile-is_outcome :
    (result : SideEffectLookupResult) (contract : RecoveryCapability)
    → is_outcome (reconcile_status result contract).0 ≡ true
unfolding reconcile_status reconcile is_outcome
reconcile-is_outcome result contract = ground arith

-- A row whose status the CAS has compared takes the step that its ledger may take.
row-Moves :
    (before : Table EffectRow) (key : ℕ) (row : EffectRow) (c : RecoveryClaim)
    (after : SideEffectLedger) (now_in : Table EffectRow)
    → lookup key before ≡ some row
    → moved_on row.payload c ≡ false
    → is_outcome after.status ≡ true
    → row.status ≡ row.payload.status
    → bindings after ≡ bindings row.payload
    → after.attempt_count ≡ row.payload.attempt_count
    → now_in ≡ insert row.effect_id (record row { status = after.status; payload = after }) before
    → Moves before now_in after
row-Moves before key row c after now_in found current outcome compared same attempts written =
    let (allowed, unsent) =
      outcome-allowed row.payload c after.status row.payload.attempt_count current outcome in
    record {
      key = key;
      row = row;
      found = found;
      allowed = cc (ap (λ s. may_become s after.status) compared);
      same = same;
      attempts = cc (ap (λ s. attempts_after s row.payload.attempt_count) compared);
      written = written;
    }

pub recover_transition_commits :
    (env : Deployment) (c : RecoveryClaim) (now : ℕ) (db : Db)
    → Ensures (recover_transition env c now) db (λ ledger db'. Moves db.effects db'.effects ledger)
unfolding recover_transition settled bindings
recover_transition_commits env c now db = Ensures-bind (record {
  at = λ bound db1 run1.
      let (found, e1) = (locked-Ensures env c.effect_id db).at _ _ run1 in
      Ensures-skip (Frames-owned c bound.1 now) λ attempt db2 e2. Ensures-guard _ _ _ λ current.
        Ensures-or_raise _ _ _ λ result looked. Ensures-or_raise _ _ _ λ recorded proven.
          Ensures-guard _ _ _ λ resolver.
            Ensures-skip (Frames-reconstruct_identity env _) λ identity db3 e3.
              Ensures-skip (Frames-validate_lookup env _ _ _ _ now) λ proof db4 e4.
                Ensures-guard _ _ _ λ agrees. Ensures-bind (record {
                  at = λ _ db5 run5.
                      let (compared, e5) =
                        (cas-Ensures env bound.0 bound.0.payload
                            (settled bound.0.payload result (reconcile_status result env.contract).0
                              now)
                            db4).at
                          _ _ run5 in
                      Ensures-skip (Frames-finish env _ _ c now _ _ _) λ _ db6 e6. Ensures-pure (
                        row-Moves db.effects c.effect_id bound.0 c _ db6.effects found current
                          (reconcile-is_outcome result env.contract) compared refl refl cc);
                });
})

-- `finish_error` ends with the ledger as it was, or with UNKNOWN.
pub finish_error_commits :
    (env : Deployment) (c : RecoveryClaim) (now : ℕ) (failure : RecoveryFailure) (db : Db)
    → Ensures
        (finish_error env c now failure)
        db
        (λ ledger db'. (db'.effects ≡ db.effects) ⊎ Moves db.effects db'.effects ledger)
unfolding finish_error bindings is_outcome
finish_error_commits env c now failure db = Ensures-bind (record {
  at = λ bound db1 run1.
      let (found, e1) = (locked-Ensures env c.effect_id db).at _ _ run1 in
      Ensures-skip (Frames-owned c bound.1 now) λ attempt db2 e2.
        Ensures-branch _ _ _
          (λ moved.
            Ensures-skip (Frames-finish env _ _ c now _ _ _) λ _ db3 e3. Ensures-pure (inl cc))
          (λ current. Ensures-bind (record {
            at = λ _ db3 run3.
                let (compared, e3) =
                  (cas-Ensures env bound.0 bound.0.payload
                      (record bound.0.payload { status = EffectStatus.unknown; updated_at = now })
                      db2).at
                    _ _ run3 in
                Ensures-skip (Frames-finish env _ _ c now _ _ _) λ _ db4 e4. Ensures-pure (
                  inr (
                    row-Moves db.effects c.effect_id bound.0 c _ db4.effects found current refl
                      compared refl refl cc));
          }));
})
