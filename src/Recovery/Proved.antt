-- ===== src/Recovery/Proved.antt =====
-- What a committed `recover_transition` of recovery/repository.py has read and written.
use credit_incident_resoluti.Prelude.{
  ℕ, ◌+◌, ◌≤◌, Bool, true, false, ◌||◌, some, ◌≡◌, refl, ap, ◌∙◌, ◌!=◌, option_eq, not, lookup,
  insert, arith, nat_eq,
}
use credit_incident_resoluti.Authorization.Models.{EffectRow, SideEffectLedger}
use credit_incident_resoluti.Authorization.Guards.{Ensures-read}
use credit_incident_resoluti.Recovery.Models.{
  Attempt, EffectIdentity, RecoveryCapability, RecoveryClaim, RecoveryProof, recovery_proof_eq,
  SideEffectLookupResult,
}
use credit_incident_resoluti.Recovery.Proof.{
  not_fresh, proof_of, reconcile_status, unbound, validate_lookup, well_formed,
}
use credit_incident_resoluti.Recovery.Settle.{recover_transition, settled}
use credit_incident_resoluti.Recovery.Exclusion.{locked-state}
use credit_incident_resoluti.Recovery.Holder.{Holds, owned-Ensures}
use credit_incident_resoluti.Recovery.Untouched.{Frames-finish, Frames-reconstruct_identity}
use credit_incident_resoluti.Recovery.Commits.{cas-Ensures}
use credit_incident_resoluti.Database.{Db, Deployment}
use credit_incident_resoluti.Database.Transaction.{ok, seconds}
use credit_incident_resoluti.Database.Ensures.{
  Ensures, Ensures-bind, Ensures-guard, Ensures-or_raise, Ensures-pure, Ensures-skip,
}

-- A lookup result that `validate_lookup` accepts for a ledger.
pub record Acceptable (env : Deployment) (ledger : SideEffectLedger)
    (result : SideEffectLookupResult) (contract : RecoveryCapability) (now : ℕ) : Type 0 where
  pub meaning : well_formed result.lookup_status result.no_effect_confirmed ≡ true
  pub supported : contract.supports_lookup ≡ true
  pub resolver : result.resolver_id ≡ contract.resolver_id
  pub correlation : result.correlation_id ≡ ledger.dispatch_correlation_id
  pub not_future : result.observed_at ≤ now
  pub fresh : now ≤ result.observed_at + seconds contract.lookup_freshness_sla_seconds

not-false : (b : Bool) → not b ≡ false → b ≡ true
not-false b h = ground arith

bound_result :
    (env : Deployment) (ledger : SideEffectLedger) (identity : EffectIdentity)
    (result : SideEffectLookupResult) (contract : RecoveryCapability)
    → unbound env ledger identity result contract ≡ false
    → (contract.supports_lookup ≡ true)
      × ((result.resolver_id ≡ contract.resolver_id)
          × (result.correlation_id ≡ ledger.dispatch_correlation_id))
unfolding unbound
bound_result env ledger identity result contract h = ground arith

fresh_result :
    (result : SideEffectLookupResult) (contract : RecoveryCapability) (now : ℕ)
    → not_fresh result contract now ≡ false
    → (result.observed_at ≤ now)
      × (now ≤ result.observed_at + seconds contract.lookup_freshness_sla_seconds)
unfolding not_fresh
fresh_result result contract now h = ground arith

pub validate_lookup-Acceptable :
    (env : Deployment) (ledger : SideEffectLedger) (identity : EffectIdentity)
    (result : SideEffectLookupResult) (contract : RecoveryCapability) (now : ℕ) (db : Db)
    → Ensures (validate_lookup env ledger identity result contract now) db (λ proof db'.
      (db' ≡ db)
      × (Acceptable env ledger result contract now × (proof ≡ proof_of env ledger result contract)))
unfolding validate_lookup
validate_lookup-Acceptable env ledger identity result contract now db =
    Ensures-guard _ _ _ λ formed. Ensures-guard _ _ _ λ bound. Ensures-guard _ _ _ λ recent.
      Ensures-guard _ _ _ λ refs. Ensures-guard _ _ _ λ kept. Ensures-guard _ _ _ λ supported.
        let (supports, (resolver, correlation)) =
          bound_result env ledger identity result contract bound in
        let (not_future, fresh) = fresh_result result contract now recent in
        Ensures-pure (
          refl,
          (
            record {
              meaning = not-false _ formed;
              supported = supports;
              resolver = resolver;
              correlation = correlation;
              not_future = not_future;
              fresh = fresh;
            },
            refl,
          ),
        )

-- The lookup that has settled a ledger.
pub record Proved (env : Deployment) (c : RecoveryClaim) (now : ℕ) (before : Db) (after : Db)
    (ledger : SideEffectLedger) : Type 0 where
  pub row : EffectRow
  pub found : lookup c.effect_id before.effects ≡ some row
  pub attempt : Attempt
  pub on_record : lookup c.recovery_id before.attempts ≡ some attempt
  pub result : SideEffectLookupResult
  pub looked_up : attempt.lookup_result ≡ some result
  pub acceptable : Acceptable env row.payload result env.contract now
  pub proof : attempt.proof ≡ some (proof_of env row.payload result env.contract)
  pub same_dispatch : ledger.dispatch_correlation_id ≡ row.payload.dispatch_correlation_id
  pub written :
      after.effects
      ≡ insert row.effect_id
          (record row { status = ledger.status; payload = ledger })
          before.effects
  pub status : ledger.status ≡ (reconcile_status result env.contract).0

same_proof :
    (recorded proof : RecoveryProof) (rest : Bool)
    → (recorded != proof || rest) ≡ false
    → recorded ≡ proof
same_proof recorded proof rest h = ground arith

-- A committed `recover_transition` writes the effect's row, and no other effect, with the ledger that
-- it returns. The status there is the one that the attempt's recorded lookup proves, and that lookup
-- is bound to the dispatch of the row that was read, neither stale nor of the future, and of the
-- trusted resolver.
pub recover_transition-Proved :
    (env : Deployment) (c : RecoveryClaim) (now : ℕ) (db db' : Db) (ledger : SideEffectLedger)
    → recover_transition env c now db ≡ ok (ledger, db')
    → Proved env c now db db' ledger
unfolding recover_transition settled
recover_transition-Proved env c now db db' ledger h =
    let whole : Ensures (recover_transition env c now) db (λ l d. Proved env c now db d l) =
      Ensures-read (locked-state env c.effect_id db) λ bound stored.
        Ensures-read
          {R = λ attempt. (lookup c.recovery_id db.attempts ≡ some attempt) × Holds c now db}
          (owned-Ensures c bound.1 now db stored.1)
          λ attempt held. Ensures-guard _ _ _ λ current. Ensures-or_raise _ _ _ λ result looked.
            Ensures-or_raise _ _ _ λ recorded proven. Ensures-guard _ _ _ λ resolver.
              Ensures-skip (Frames-reconstruct_identity env _) λ identity db1 e1.
                Ensures-read
                  {R = λ proof.
                    Acceptable env bound.0.payload result env.contract now
                    × (proof ≡ proof_of env bound.0.payload result env.contract)}
                  (validate_lookup-Acceptable env _ identity.0 result env.contract now db1)
                  λ proof valid. Ensures-guard _ _ _ λ agrees.
                    let told : recorded ≡ proof = same_proof recorded proof _ agrees in
                    Ensures-bind (record {
                      at = λ _ db2 run.
                          let (_, wrote) =
                            (cas-Ensures env bound.0 bound.0.payload
                                (settled bound.0.payload result
                                  (reconcile_status result env.contract).0 now)
                                db1).at
                              _ db2 run in
                          Ensures-skip (Frames-finish env _ _ c now _ _ _) λ _ db3 e3.
                            Ensures-pure (record {
                              row = bound.0;
                              found = stored.0;
                              written = cc (e3, wrote, e1);
                              attempt = attempt;
                              on_record = held.0;
                              result = result;
                              looked_up = looked;
                              acceptable = valid.0;
                              proof = proven ∙ ap (λ p. some p) (told ∙ valid.1);
                              same_dispatch = refl;
                              status = refl;
                            });
                    }) in
    whole.at ledger db' h
