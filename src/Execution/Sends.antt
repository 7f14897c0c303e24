-- ===== src/Execution/Sends.antt =====
-- The remote writes of an execution, in the history of the ledger.
use credit_incident_resoluti.Prelude.{ℕ, ◌+◌, ◌≡◌, refl, ap, ◌∙◌, ◌∷◌, Option}
use credit_incident_resoluti.Authorization.Models.{
  DomainCommand, ExecutionCapability, RemediationIntent, SideEffectLedger,
}
use credit_incident_resoluti.Authorization.Ledger.{dispatch_prepared}
use credit_incident_resoluti.Authorization.Untouched.{effects_of}
use credit_incident_resoluti.Cases.Models.{CaseRow}
use credit_incident_resoluti.Recovery.Models.{RecoveryClaim}
use credit_incident_resoluti.Database.{Db, Deployment}
use credit_incident_resoluti.Database.Frame.{Frames}
use credit_incident_resoluti.Database.Transaction.{err, Error, ok, Result, run, Tx}
use credit_incident_resoluti.History.Steps.{Step, Steps}
use credit_incident_resoluti.Execution.Process
use credit_incident_resoluti.Execution.Process.{
  ◌>>=◌, Call, Reply, Runtime, Service, SignedExecutionCapability, World,
}

pub join-Steps : {env : Deployment} {a b c : Db} → Steps env a b → Steps env b c → Steps env a c
join-Steps first Steps.start = first
join-Steps first (Steps.next later step) = Steps.next (join-Steps first later) step

-- The tables moved by committed transactions, and nothing was sent.
pub record Quiet (env : Deployment) (w w' : World) : Type 0 where
  pub steps : Steps env w.db w'.db
  pub silent : w'.calls ≡ w.calls

-- One remote write was sent, and before it this worker's `dispatch_prepared` had committed.
pub record Sent (env : Deployment) (w w' : World) : Type 0 where
  pub capability : ExecutionCapability
  pub now : ℕ
  pub claim : Option RecoveryClaim
  pub before : Db
  pub sent_db : Db
  pub ledger : SideEffectLedger
  pub command : Option DomainCommand
  pub earlier : Steps env w.db before
  pub dispatches : dispatch_prepared env capability now claim before ≡ ok (ledger, sent_db)
  pub later : Steps env sent_db w'.db
  pub one_call :
      w'.calls
      ≡ (record { command = command; correlation_id = ledger.dispatch_correlation_id } ∷ w.calls)

-- What one service call did: it sent nothing, or one write, under a claim of this kind.
pub data Executed (env : Deployment) (P : Option RecoveryClaim → Type 0) (w w' : World)
    : Type 0 where
  quiet : Quiet env w w' → Executed env P w w'
  sent : (s : Sent env w w') → P s.claim → Executed env P w w'

pub quietly :
    {env : Deployment} {P : Option RecoveryClaim → Type 0} {w mid w' : World}
    → Quiet env w mid
    → Executed env P mid w'
    → Executed env P w w'
quietly q (Executed.quiet r) =
    Executed.quiet (record { steps = join-Steps q.steps r.steps; silent = r.silent ∙ q.silent })
quietly q (Executed.sent s p) =
    Executed.sent
      (record {
        capability = s.capability;
        now = s.now;
        claim = s.claim;
        before = s.before;
        sent_db = s.sent_db;
        ledger = s.ledger;
        command = s.command;
        earlier = join-Steps q.steps s.earlier;
        dispatches = s.dispatches;
        later = s.later;
        one_call =
            s.one_call
            ∙ ap
                (λ cs.
                  record { command = s.command; correlation_id = s.ledger.dispatch_correlation_id }
                  ∷ cs)
                q.silent;
      })
      p

-- The other workers commit transactions, and nothing else writes the ledger.
pub record Fair (rt : Runtime) : Type 0 where
  pub others : (n : ℕ) (db : Db) → Steps rt.env db (rt.others n db)
  pub verify :
      (reader : ℕ → Tx CaseRow) (intent : RemediationIntent)
      → ((case_id : ℕ) → Frames effects_of (reader case_id))
      → Frames effects_of (rt.verify reader intent)

module _ {A : Type 0} where
  -- How a transaction of a service ends.
  pub data Ended (rt : Runtime) (m : ℕ → Tx A) (w : World) : Result A × World → Type 0 where
    committed :
        (a : A) (db : Db)
        → m w.turn (Process.arrive rt w) ≡ ok (a, db)
        → Ended rt m w (ok a, record w { db = db; turn = w.turn + 1 })
    rolled_back :
        (e : Error) → Ended rt m w (err e, record w { db = Process.arrive rt w; turn = w.turn + 1 })

  ended :
      (rt : Runtime) (m : ℕ → Tx A) (w : World) (result : Result (A × Db))
      → m w.turn (Process.arrive rt w) ≡ result
      → Ended rt m w (
        (elim result as (λ _. Result A × Db) [
          | ok (a, db) ↦ (ok a, db)
          | err e ↦ (err e, Process.arrive rt w)
        ]).0,
        record w {
          db =
              (elim result as (λ _. Result A × Db) [
                | ok (a, db) ↦ (ok a, db)
                | err e ↦ (err e, Process.arrive rt w)
              ]).1;
          turn = w.turn + 1;
        },
      )
  ended rt m w (ok (a, db)) h = Ended.committed a db h
  ended rt m w (err e) h = Ended.rolled_back e

  pub commit-Ended :
      (rt : Runtime) (m : ℕ → Tx A) (w : World) → Ended rt m w (Process.commit rt m w)
  unfolding Process.commit run
  commit-Ended rt m w = ended rt m w (m w.turn (Process.arrive rt w)) refl

end_quietly :
    {A : Type 0} (rt : Runtime) (m : ℕ → Tx A) (w : World)
    → Fair rt
    → ((n : ℕ) (db : Db) (a : A) (db' : Db) → m n db ≡ ok (a, db') → Step rt.env db db')
    → (r : Result A × World) → Ended rt m w r
    → Quiet rt.env w r.1
unfolding Process.arrive
end_quietly rt m w fair steps _ (Ended.committed a db h) = record {
  steps = Steps.next (fair.others w.turn w.db) (steps w.turn _ a db h);
  silent = refl;
}
end_quietly rt m w fair steps _ (Ended.rolled_back e) = record {
  steps = fair.others w.turn w.db;
  silent = refl;
}

-- A transaction that keeps to the steps of the history sends nothing.
pub commit-Quiet :
    {A : Type 0} (rt : Runtime) (m : ℕ → Tx A) (w : World)
    → Fair rt
    → ((n : ℕ) (db : Db) (a : A) (db' : Db) → m n db ≡ ok (a, db') → Step rt.env db db')
    → Quiet rt.env w (Process.commit rt m w).1
commit-Quiet rt m w fair steps =
    end_quietly rt m w fair steps (Process.commit rt m w) (commit-Ended rt m w)

pub reads-Step :
    {A : Type 0} {env : Deployment} {m : Tx A}
    → Frames effects_of m
    → (db : Db) (a : A) (db' : Db) → m db ≡ ok (a, db')
    → Step env db db'
reads-Step frames db a db' h = Step.elsewhere (frames.at db a db' h)

then_executes :
    {A B : Type 0} {env : Deployment} {P : Option RecoveryClaim → Type 0} (k : A → Service B)
    (w : World) (r : Result A × World)
    → Quiet env w r.1
    → ((a : A) (w' : World) → Executed env P w' (k a w').1)
    → Executed env P w
        (elim r.0 as (λ _. Result B × World) [ ok a ↦ k a r.1 | err e ↦ (err e, r.1) ]).1
then_executes k w (ok a, w') q later = quietly q (later a w')
then_executes k w (err e, w') q later = Executed.quiet q

then_goes_on :
    {A B : Type 0} {env : Deployment} (k : A → Service B) (w : World) (r : Result A × World)
    → Quiet env w r.1
    → ((a : A) (w' : World) → Quiet env w' (k a w').1)
    → Quiet env w (elim r.0 as (λ _. Result B × World) [ ok a ↦ k a r.1 | err e ↦ (err e, r.1) ]).1
then_goes_on k w (ok a, w') q later = record {
  steps = join-Steps q.steps (later a w').steps;
  silent = (later a w').silent ∙ q.silent;
}
then_goes_on k w (err e, w') q later = q

pub bind-Quiet :
    {A B : Type 0} {env : Deployment} (s : Service A) (k : A → Service B) (w : World)
    → Quiet env w (s w).1
    → ((a : A) (w' : World) → Quiet env w' (k a w').1)
    → Quiet env w ((s >>= k) w).1
unfolding ◌>>=◌
bind-Quiet s k w q later = then_goes_on k w (s w) q later

-- What sends nothing, and then goes on.
pub bind-Executed :
    {A B : Type 0} {env : Deployment} {P : Option RecoveryClaim → Type 0} (s : Service A)
    (k : A → Service B) (w : World)
    → Quiet env w (s w).1
    → ((a : A) (w' : World) → Executed env P w' (k a w').1)
    → Executed env P w ((s >>= k) w).1
unfolding ◌>>=◌
bind-Executed s k w q later = then_executes k w (s w) q later

pub stay : {env : Deployment} {P : Option RecoveryClaim → Type 0} (w : World) → Executed env P w w
stay w = Executed.quiet (record { steps = Steps.start; silent = refl })
