-- ===== src/Execution/Settled.antt =====
-- What a recovery does under its claim, and without one: what it sends, and that it settles by
-- transactions.
use credit_incident_resoluti.Prelude.{
  ℕ, ◌≡◌, refl, ◌∙◌, ◌==◌, arith, Bool, true, false, if◌then◌else◌, Option,
}
use credit_incident_resoluti.Domain.{EffectStatus, effect_status_eq}
use credit_incident_resoluti.Authorization.Models.{SideEffectLedger}
use credit_incident_resoluti.Recovery.Models.{RecoveryClaim, RecoveryOutcome}
use credit_incident_resoluti.Recovery.Untouched.{Frames-finish_resume}
use credit_incident_resoluti.Recovery.Settle.{finish_error}
use credit_incident_resoluti.Database.{Deployment}
use credit_incident_resoluti.Database.Transaction.{err, Error, ok, Result}
use credit_incident_resoluti.History.Steps.{Step}
use credit_incident_resoluti.Execution.Process
use credit_incident_resoluti.Execution.Process.{◌>>=◌, Runtime, Service, World}
use credit_incident_resoluti.Execution.Sends.{
  bind-Executed, bind-Quiet, commit-Quiet, Executed, Fair, join-Steps, Quiet, stay,
}
use credit_incident_resoluti.Execution.Recovers.{
  capture-Executed, Frames-get_ledger, Frames-own_attempt, Frames-requires_escalation, nothing,
  read_first, reads-Quiet, resume-Executed, Resumes, stale_if-Executed,
}
use credit_incident_resoluti.Execution.Recover

module _ {env : Deployment} {P : Option RecoveryClaim → Type 0} where
  -- Nothing is sent after the one write.
  then_quietly : {w mid w' : World} → Executed env P w mid → Quiet env mid w' → Executed env P w w'
  then_quietly (Executed.quiet q) r =
      Executed.quiet (record { steps = join-Steps q.steps r.steps; silent = r.silent ∙ q.silent })
  then_quietly (Executed.sent s p) r =
      Executed.sent
        (record {
          capability = s.capability;
          now = s.now;
          claim = s.claim;
          before = s.before;
          sent_db = s.sent_db;
          ledger = s.ledger;
          command = s.command;
          earlier = s.earlier;
          dispatches = s.dispatches;
          later = join-Steps s.later r.steps;
          one_call = r.silent ∙ s.one_call;
        })
        p

  sent_then :
      {A B : Type 0} (k : A → Service B) (w : World) (r : Result A × World)
      → Executed env P w r.1
      → ((a : A) (w' : World) → Quiet env w' (k a w').1)
      → Executed env P w
          (elim r.0 as (λ _. Result B × World) [ ok a ↦ k a r.1 | err e ↦ (err e, r.1) ]).1
  sent_then k w (ok a, w') x rest = then_quietly x (rest a w')
  sent_then k w (err e, w') x rest = x

  bind-sent :
      {A B : Type 0} (s : Service A) (k : A → Service B) (w : World)
      → Executed env P w (s w).1
      → ((a : A) (w' : World) → Quiet env w' (k a w').1)
      → Executed env P w ((s >>= k) w).1
  unfolding ◌>>=◌
  bind-sent s k w x rest = sent_then k w (s w) x rest

  attempt-sent :
      {A B : Type 0} (s : Service A) (handler : Result A → Service B) (w : World)
      → Executed env P w (s w).1
      → ((r : Result A) (w' : World) → Quiet env w' (handler r w').1)
      → Executed env P w (Process.attempt s handler w).1
  unfolding Process.attempt
  attempt-sent s handler w x rest = then_quietly x (rest _ _)

module _ (rt : Runtime) (fair : Fair rt) where
  by_choice :
      {A : Type 0} {P : Option RecoveryClaim → Type 0} (b : Bool) (s t : Service A) (w : World)
      → (b ≡ true → Executed rt.env P w (s w).1)
      → Executed rt.env P w (t w).1
      → Executed rt.env P w ((if b then s else t) w).1
  by_choice true s t w x y = x refl
  by_choice false s t w x y = y

  resume_and_finish-Executed :
      (c : RecoveryClaim) (w : World)
      → c.source_status ≡ EffectStatus.prepared
      → Executed rt.env (Resumes c) w (Recover.resume_and_finish rt c w).1
  unfolding Recover.resume_and_finish Process.pure
  resume_and_finish-Executed c w is_prepared = stale_if-Executed rt fair _ _ w λ w1.
      bind-sent (Recover.resume rt c) _ w1 (resume-Executed rt fair c w1 is_prepared) λ sent w2.
        bind-Quiet _ _ w2
          (reads-Quiet rt _ w2 fair (λ n. Frames-finish_resume rt.env c (rt.clock n)))
          λ ledger w3. nothing w3

  look_up_and_settle-Executed :
      (c : RecoveryClaim) (w : World)
      → Executed rt.env (Resumes c) w (Recover.look_up_and_settle rt c w).1
  unfolding Recover.look_up_and_settle Process.pure Process.answer
  look_up_and_settle-Executed c w =
      bind-sent (Recover.capture rt c) _ w (capture-Executed rt fair c w) λ _ w1.
        bind-Quiet _ _ w1
          (commit-Quiet rt _ w1 fair (λ n db ledger db' h. Step.recovers c (rt.clock n) ledger h))
          λ ledger w2. bind-Quiet _ _ w2 (nothing w2) λ action w3. nothing w3

  settle_claim-Executed :
      (c : RecoveryClaim) (w : World)
      → Executed rt.env (Resumes c) w (Recover.settle_claim rt c w).1
  unfolding Recover.settle_claim
  settle_claim-Executed c w =
      by_choice (c.source_status == EffectStatus.prepared) _ _ w
        (λ is_prepared. resume_and_finish-Executed c w (ground arith))
        (look_up_and_settle-Executed c w)

  or_reread-Quiet :
      (c : RecoveryClaim) (r : Result SideEffectLedger) (w : World)
      → Quiet rt.env w (Recover.or_reread rt c r w).1
  unfolding Recover.or_reread Process.pure Process.raise
  or_reread-Quiet c (ok ledger) w = nothing w
  or_reread-Quiet c (err (Error.recovery _)) w =
      reads-Quiet rt _ w fair (λ n. Frames-get_ledger rt.env c.effect_id)
  or_reread-Quiet c (err _) w = nothing w

  then_reread :
      (c : RecoveryClaim) (e : Error) (w : World)
      → Quiet rt.env w
          (Process.attempt
            (Process.commit rt (λ n. finish_error rt.env c (rt.clock n) (Recover.failure_of e)))
            (Recover.or_reread rt c)
            w).1
  unfolding Process.attempt
  then_reread c e w =
      let q =
        commit-Quiet rt (λ n. finish_error rt.env c (rt.clock n) (Recover.failure_of e)) w fair
          (λ n db ledger db' h. Step.fails c (rt.clock n) (Recover.failure_of e) ledger h) in
      let r = or_reread-Quiet c _ _ in
      record { steps = join-Steps q.steps r.steps; silent = r.silent ∙ q.silent }

  record_failure-Quiet :
      (c : RecoveryClaim) (r : Result (SideEffectLedger × RecoveryOutcome)) (w : World)
      → Quiet rt.env w (Recover.record_failure rt c r w).1
  unfolding Recover.record_failure Process.pure Process.attempt
  record_failure-Quiet c (ok (ledger, action)) w = nothing w
  record_failure-Quiet c (err e) w = bind-Quiet _ _ w (then_reread c e w) λ ledger w1. nothing w1

  pub recover_claimed-Executed :
      (before : SideEffectLedger) (c : RecoveryClaim) (w : World)
      → Executed rt.env (Resumes c) w (Recover.recover_claimed rt before c w).1
  unfolding Recover.recover_claimed Process.pure
  recover_claimed-Executed before c w =
      bind-sent _ _ w
        (attempt-sent (Recover.settle_claim rt c) (Recover.record_failure rt c) w
          (settle_claim-Executed c w) (record_failure-Quiet c))
        λ settled w1.
          bind-Quiet _ _ w1
            (reads-Quiet rt _ w1 fair (λ n. Frames-requires_escalation rt.env c.effect_id))
            λ escalation w2.
              bind-Quiet _ _ w2 (reads-Quiet rt _ w2 fair (λ n. Frames-own_attempt rt.env c))
                λ own w3. nothing w3

  pub unclaimed-Executed :
      {P : Option RecoveryClaim → Type 0} (before : SideEffectLedger) (effect_id : ℕ) (w : World)
      → Executed rt.env P w (Recover.unclaimed rt before effect_id w).1
  unfolding Recover.unclaimed Process.pure
  unclaimed-Executed before effect_id w =
      read_first rt fair _ _ w (λ n. Frames-get_ledger rt.env effect_id)
        λ ledger w1.
          read_first rt fair _ _ w1 (λ n. Frames-requires_escalation rt.env effect_id)
            λ escalation w2. bind-Executed _ _ w2 (nothing w2) λ id w3. stay w3
