-- ===== src/Execution/Twice.antt =====
-- Two service calls, executions or recoveries, one after the other.
use credit_incident_resoluti.Prelude.{ℕ, ◌≡◌, ◌≢◌, ap, ◌∙◌, ◌∷◌, Option, subst}
use credit_incident_resoluti.Recovery.Models.{RecoveryClaim}
use credit_incident_resoluti.Database.{Deployment}
use credit_incident_resoluti.History.Sound.{LedgerIsSound}
use credit_incident_resoluti.History.Steps.{Steps, Steps-LedgerIsSound}
use credit_incident_resoluti.History.Reach.{dispatches_once}
use credit_incident_resoluti.Execution.Process.{Runtime, SignedExecutionCapability, World}
use credit_incident_resoluti.Execution.Service.{execute}
use credit_incident_resoluti.Execution.Recover.{recover}
use credit_incident_resoluti.Execution.Sends.{Executed, Fair, join-Steps, Quiet, Sent}
use credit_incident_resoluti.Execution.Once.{execute-Executed}
use credit_incident_resoluti.Execution.Claimed.{recover-Recovered, Recovered}

-- A call of RemediationExecutionService.execute or of SideEffectRecoveryCoordinator.recover.
pub data Operation : Type 0 where
  executes : SignedExecutionCapability → Operation
  recovers : ℕ → Operation

unfoldable pub perform : Runtime → Operation → World → World
perform rt (Operation.executes signed) w = (execute rt signed w).1
perform rt (Operation.recovers effect_id) w = (recover rt effect_id w).1

-- Of two service calls, one sent nothing, or each sent one write, of two effects.
pub data Apart (env : Deployment) (w w1 w2 w3 : World) : Type 0 where
  first_silent : w1.calls ≡ w.calls → Apart env w w1 w2 w3
  second_silent : w3.calls ≡ w2.calls → Apart env w w1 w2 w3
  both_sent :
      (first : Sent env w w1) (second : Sent env w2 w3)
      → second.ledger.effect_id ≢ first.ledger.effect_id
      → Apart env w w1 w2 w3

-- What one service call sent.
data Outgoing (env : Deployment) (w w' : World) : Type 0 where
  nothing_sent : w'.calls ≡ w.calls → Outgoing env w w'
  one_sent : Sent env w w' → Outgoing env w w'

execution_sends :
    {env : Deployment} {P : Option RecoveryClaim → Type 0} {w w' : World}
    → Executed env P w w'
    → Outgoing env w w'
execution_sends (Executed.quiet q) = Outgoing.nothing_sent q.silent
execution_sends (Executed.sent s p) = Outgoing.one_sent s

sends_after :
    {env : Deployment} {w mid w' : World} → Quiet env w mid → Sent env mid w' → Sent env w w'
sends_after q s = record {
  capability = s.capability;
  now = s.now;
  claim = s.claim;
  before = s.before;
  sent_db = s.sent_db;
  ledger = s.ledger;
  command = s.command;
  earlier = join-Steps q.steps s.earlier;
  dispatches = s.dispatches;
  later = s.later;
  one_call =
      s.one_call
      ∙ ap
          (λ cs.
            record { command = s.command; correlation_id = s.ledger.dispatch_correlation_id } ∷ cs)
          q.silent;
}

recovery_sends :
    {env : Deployment} {effect_id worker_id : ℕ} {w w' : World}
    → Recovered env effect_id worker_id w w'
    → Outgoing env w w'
recovery_sends (Recovered.silent q) = Outgoing.nothing_sent q.silent
recovery_sends (Recovered.resumed r) = Outgoing.one_sent (sends_after r.quiet r.sends)

performed :
    (rt : Runtime) (op : Operation) (w : World) → Fair rt → Outgoing rt.env w (perform rt op w)
unfolding perform
performed rt (Operation.executes signed) w fair =
    execution_sends (execute-Executed rt signed w fair)
performed rt (Operation.recovers effect_id) w fair =
    recovery_sends (recover-Recovered rt effect_id w fair)

two_dispatches :
    {env : Deployment} {w w1 w2 w3 : World} (first : Sent env w w1) (second : Sent env w2 w3)
    → LedgerIsSound w.db.effects
    → Steps env w1.db w2.db
    → second.ledger.effect_id ≢ first.ledger.effect_id
two_dispatches {env} {w} first second sound between =
    dispatches_once env first.capability second.capability first.now second.now first.claim
      second.claim first.before first.sent_db second.before second.sent_db first.ledger
      second.ledger (Steps-LedgerIsSound env w.db first.before first.earlier sound) first.dispatches
      (join-Steps first.later (join-Steps between second.earlier)) second.dispatches

apart :
    {env : Deployment} {w w1 w2 w3 : World}
    → Outgoing env w w1
    → Outgoing env w2 w3
    → LedgerIsSound w.db.effects
    → Steps env w1.db w2.db
    → Apart env w w1 w2 w3
apart (Outgoing.nothing_sent h) second sound between = Apart.first_silent h
apart (Outgoing.one_sent s) (Outgoing.nothing_sent h) sound between = Apart.second_silent h
apart (Outgoing.one_sent s) (Outgoing.one_sent t) sound between =
    Apart.both_sent s t (two_dispatches s t sound between)

-- Two service calls, each an execution or a recovery, of two workers of one deployment, the second
-- after the first and after whatever transactions commit in between: from a sound ledger, and with
-- other workers that keep to committed transactions and checks that do not write the ledger, one of
-- the two calls the adapter not at all, or each calls it exactly once, with the correlation id of its
-- own dispatched ledger, and the two ledgers are of two effects.
pub perform-Apart :
    (rt other : Runtime) (first second : Operation) (w later : World)
    → other.env ≡ rt.env
    → Fair rt
    → Fair other
    → LedgerIsSound w.db.effects
    → Steps rt.env (perform rt first w).db later.db
    → Apart rt.env w (perform rt first w) later (perform other second later)
perform-Apart rt other first second w later same fair fair_too sound between =
    apart (performed rt first w fair)
      (subst (λ e. Outgoing e later (perform other second later)) same
        (performed other second later fair_too))
      sound between
