-- ===== src/Execution/Claimed.antt =====
-- The whole recovery: the claim that it was granted, and the one write under it.
use credit_incident_resoluti.Prelude.{ℕ, ◌≡◌, ◌∙◌, lookup, none, Option, some, sym}
use credit_incident_resoluti.Domain.{EffectStatus, effect_status_eq}
use credit_incident_resoluti.Authorization.Models.{EffectRow, SideEffectLedger}
use credit_incident_resoluti.Recovery.Models.{RecoveryClaim}
use credit_incident_resoluti.Recovery.Untouched.{Frames-claim}
use credit_incident_resoluti.Recovery.Lease
use credit_incident_resoluti.Recovery.Exclusion.{claim-Granted}
use credit_incident_resoluti.Database.{Db, Deployment}
use credit_incident_resoluti.Database.Transaction.{err, ok, Result, Tx}
use credit_incident_resoluti.History.Steps.{Steps}
use credit_incident_resoluti.Execution.Process
use credit_incident_resoluti.Execution.Process.{◌>>=◌, Runtime, Service, World}
use credit_incident_resoluti.Execution.Sends.{
  commit-Ended, Ended, Executed, Fair, join-Steps, Quiet, Sent,
}
use credit_incident_resoluti.Execution.Recovers.{Frames-get_ledger, reads-Quiet, Resumes}
use credit_incident_resoluti.Execution.Recover
use credit_incident_resoluti.Execution.Settled.{recover_claimed-Executed, unclaimed-Executed}

-- The one write of a recovery. The recovery was granted a claim by its own transaction, on tables in
-- which the effect was PREPARED, and the dispatch behind the write was made under that claim.
pub record Resumed (env : Deployment) (effect_id worker_id : ℕ) (w w' : World) : Type 0 where
  pub claim : RecoveryClaim
  pub now : ℕ
  pub recovery_id : ℕ
  pub unclaimed : Db
  pub earlier : Steps env w.db unclaimed
  pub claimed : World
  pub grants :
      Lease.claim env effect_id worker_id now recovery_id unclaimed ≡ ok (some claim, claimed.db)
  pub effect : EffectRow
  pub found : lookup effect_id unclaimed.effects ≡ some effect
  pub was_prepared : effect.payload.status ≡ EffectStatus.prepared
  pub quiet : Quiet env w claimed
  pub sends : Sent env claimed w'
  pub under_claim : sends.claim ≡ some claim

-- What a recovery did: it sent nothing, or one write.
pub data Recovered (env : Deployment) (effect_id worker_id : ℕ) (w w' : World) : Type 0 where
  silent : Quiet env w w' → Recovered env effect_id worker_id w w'
  resumed : Resumed env effect_id worker_id w w' → Recovered env effect_id worker_id w w'

join-Quiet :
    {env : Deployment} {w mid w' : World} → Quiet env w mid → Quiet env mid w' → Quiet env w w'
join-Quiet q r = record { steps = join-Steps q.steps r.steps; silent = r.silent ∙ q.silent }

module _ {env : Deployment} {effect_id worker_id : ℕ} where
  later_Recovered :
      {w mid w' : World}
      → Quiet env w mid
      → Recovered env effect_id worker_id mid w'
      → Recovered env effect_id worker_id w w'
  later_Recovered q (Recovered.silent r) = Recovered.silent (join-Quiet q r)
  later_Recovered q (Recovered.resumed r) = Recovered.resumed (record {
    claim = r.claim;
    now = r.now;
    recovery_id = r.recovery_id;
    unclaimed = r.unclaimed;
    earlier = join-Steps q.steps r.earlier;
    claimed = r.claimed;
    grants = r.grants;
    effect = r.effect;
    found = r.found;
    was_prepared = r.was_prepared;
    quiet = join-Quiet q r.quiet;
    sends = r.sends;
    under_claim = r.under_claim;
  })

  -- A claim that was granted, and what was done under it.
  under_claim :
      {w claimed w' : World} (c : RecoveryClaim) (now recovery_id : ℕ) (unclaimed : Db)
      → Steps env w.db unclaimed
      → Lease.claim env effect_id worker_id now recovery_id unclaimed ≡ ok (some c, claimed.db)
      → Quiet env w claimed
      → Executed env (Resumes c) claimed w'
      → Recovered env effect_id worker_id w w'
  under_claim c now recovery_id unclaimed earlier grants q (Executed.quiet r) =
      Recovered.silent (join-Quiet q r)
  under_claim {claimed = claimed} c now recovery_id unclaimed earlier grants q (Executed.sent s p) =
      let granted =
        claim-Granted env effect_id worker_id now recovery_id unclaimed claimed.db c grants in
      Recovered.resumed (record {
        claim = c;
        now = now;
        recovery_id = recovery_id;
        unclaimed = unclaimed;
        earlier = earlier;
        claimed = claimed;
        grants = grants;
        effect = granted.effect;
        found = granted.effect_stored;
        was_prepared = sym granted.source ∙ p.was_prepared;
        quiet = q;
        sends = s;
        under_claim = p.under_claim;
      })

module _ (rt : Runtime) (fair : Fair rt) (before : SideEffectLedger) (effect_id : ℕ)
    (w : World) where
  abbrev claims : ℕ → Tx (Option RecoveryClaim)
  claims n = Lease.claim rt.env effect_id rt.worker_id (rt.clock n) (rt.fresh_id n)

  claim_end :
      (r : Result (Option RecoveryClaim) × World)
      → Ended rt claims w r
      → Quiet rt.env w r.1
      → Recovered rt.env effect_id rt.worker_id w
          (elim r.0 as (λ _. Result Recover.RecoveryResult × World) [
            | ok c ↦ Recover.after_claim rt before effect_id c r.1
            | err e ↦ (err e, r.1)
          ]).1
  unfolding Process.arrive Recover.after_claim
  claim_end _ (Ended.rolled_back e) q = Recovered.silent q
  claim_end _ (Ended.committed none db h) q =
      elim (unclaimed-Executed rt fair {P = λ _. ⊥} before effect_id _) [
        | Executed.quiet r ↦ Recovered.silent (join-Quiet q r)
        | Executed.sent s p ↦ absurd p
      ]
  claim_end _ (Ended.committed (some c) db h) q =
      under_claim c (rt.clock w.turn) (rt.fresh_id w.turn) (rt.others w.turn w.db)
        (fair.others w.turn w.db) h q (recover_claimed-Executed rt fair before c _)

  claim_then :
      Recovered rt.env effect_id rt.worker_id w
        ((Process.commit rt claims >>= Recover.after_claim rt before effect_id) w).1
  unfolding ◌>>=◌
  claim_then = claim_end _ (commit-Ended rt claims w) (
      reads-Quiet rt claims w fair
        (λ n. Frames-claim rt.env effect_id rt.worker_id (rt.clock n) (rt.fresh_id n)))

goes_on :
    {A B : Type 0} {env : Deployment} {effect_id worker_id : ℕ} (k : A → Service B) (w : World)
    (r : Result A × World)
    → Quiet env w r.1
    → ((a : A) (w' : World) → Recovered env effect_id worker_id w' (k a w').1)
    → Recovered env effect_id worker_id w
        (elim r.0 as (λ _. Result B × World) [ ok a ↦ k a r.1 | err e ↦ (err e, r.1) ]).1
goes_on k w (ok a, w') q later = later_Recovered q (later a w')
goes_on k w (err e, w') q later = Recovered.silent q

bind-Recovered :
    {A B : Type 0} {env : Deployment} {effect_id worker_id : ℕ} (s : Service A) (k : A → Service B)
    (w : World)
    → Quiet env w (s w).1
    → ((a : A) (w' : World) → Recovered env effect_id worker_id w' (k a w').1)
    → Recovered env effect_id worker_id w ((s >>= k) w).1
unfolding ◌>>=◌
bind-Recovered s k w q later = goes_on k w (s w) q later

-- Whatever the resolver, the adapter and the verifier answer and whatever other workers commit in
-- between, a recovery moves the tables by committed transactions alone, and it calls the adapter at
-- most once. If it does, then its own transaction had granted it a claim on tables in which the
-- effect was PREPARED, and after that its own `dispatch_prepared` under this claim had committed.
-- The conditions are that the other workers keep to committed transactions and that the check of the
-- facts does not write the ledger.
pub recover-Recovered :
    (rt : Runtime) (effect_id : ℕ) (w : World)
    → Fair rt
    → Recovered rt.env effect_id rt.worker_id w (Recover.recover rt effect_id w).1
unfolding Recover.recover
recover-Recovered rt effect_id w fair =
    bind-Recovered _ _ w (reads-Quiet rt _ w fair (λ n. Frames-get_ledger rt.env effect_id))
      λ before w1. claim_then rt fair before effect_id w1
