-- ===== src/Execution/Once.antt =====
-- What one execution sends, and the transactions around it.
use credit_incident_resoluti.Prelude.{
  ℕ, ◌+◌, ◌≡◌, refl, ◌==◌, Bool, true, false, if◌then◌else◌, ◌∷◌, nat_eq, none, Option, some,
}
use credit_incident_resoluti.Domain.{EffectStatus}
use credit_incident_resoluti.Authorization.Models.{
  stale_authorization, AuthorizationCode, DomainCommand, ExecutionCapability, RemediationIntent,
  SideEffectLedger,
}
use credit_incident_resoluti.Authorization.Ledger.{dispatch_prepared}
use credit_incident_resoluti.Authorization.Untouched.{
  Frames-case_row, Frames-existing, Frames-get_intent,
}
use credit_incident_resoluti.Cases.Rows.{case_row}
use credit_incident_resoluti.Recovery.Models.{RecoveryClaim}
use credit_incident_resoluti.Database.Transaction.{authorization, err, Error, ok, Result}
use credit_incident_resoluti.History.Steps.{Step, Steps}
use credit_incident_resoluti.Execution.Process
use credit_incident_resoluti.Execution.Process.{
  ◌>>=◌, Reply, Runtime, Service, SignedExecutionCapability, World,
}
use credit_incident_resoluti.Execution.Sends.{
  bind-Executed, bind-Quiet, quietly, commit-Ended, commit-Quiet, Ended, Executed, Fair, Quiet,
  reads-Step, stay,
}
use credit_incident_resoluti.Execution.Service.{
  record_outcome, Settlement, after_verify, complete_dispatch, execute, after_prepare, or_replay,
  prepare_and_dispatch, replay_or, settlement, SideEffectExecutionResult,
}

called : Option DomainCommand → SideEffectLedger → World → World
called command ledger w = record w {
  calls = record { command = command; correlation_id = ledger.dispatch_correlation_id } ∷ w.calls;
}

outcome-Quiet :
    (rt : Runtime) (ledger : SideEffectLedger) (settled : Settlement) (w : World)
    → Fair rt
    → Quiet rt.env w (record_outcome rt ledger settled w).1
unfolding record_outcome Process.pure
outcome-Quiet rt ledger settled w fair =
    bind-Quiet _ _ w
      (commit-Quiet rt _ w fair (λ n db changed db' h.
        Step.transitions ledger.effect_id EffectStatus.dispatched settled.status (rt.clock n)
          settled.receipt settled.failure changed h))
      (λ changed w'. record { steps = Steps.start; silent = refl })

-- After the dispatch has committed: the call, and the transaction that records its outcome.
completed :
    (rt : Runtime) (command : Option DomainCommand) (ledger : SideEffectLedger) (w : World)
    → Fair rt
    → Steps rt.env w.db (complete_dispatch rt command ledger w).1.db
      × ((complete_dispatch rt command ledger w).1.calls ≡ (
          record { command = command; correlation_id = ledger.dispatch_correlation_id } ∷ w.calls))
unfolding complete_dispatch Process.dispatch called ◌>>=◌
completed rt command ledger w fair =
    let settled = settlement ledger (rt.adapter command ledger.dispatch_correlation_id) in
    let rest = outcome-Quiet rt ledger settled (called command ledger w) fair in
    (rest.steps, rest.silent)

dispatch_end :
    (rt : Runtime) (cap : ExecutionCapability) (claim : Option RecoveryClaim)
    (command : Option DomainCommand) (P : Option RecoveryClaim → Type 0) (w : World)
    → Fair rt
    → P claim
    → (r : Result SideEffectLedger × World)
    → Ended rt (λ n. dispatch_prepared rt.env cap (rt.clock n) claim) w r
    → Executed rt.env P w
        (elim r.0 as (λ _. Result SideEffectExecutionResult × World) [
          | ok ledger ↦ complete_dispatch rt command ledger r.1
          | err e ↦ (err e, r.1)
        ]).1
unfolding Process.arrive
dispatch_end rt cap claim command P w fair p _ (Ended.committed ledger db h) =
    let (later, call) =
      completed rt command ledger (record w { db = db; turn = w.turn + 1 }) fair in
    Executed.sent
      (record {
        capability = cap;
        now = rt.clock w.turn;
        claim = claim;
        before = rt.others w.turn w.db;
        sent_db = db;
        ledger = ledger;
        command = command;
        earlier = fair.others w.turn w.db;
        dispatches = h;
        later = later;
        one_call = call;
      })
      p
dispatch_end rt cap claim command P w fair p _ (Ended.rolled_back e) =
    Executed.quiet (record { steps = fair.others w.turn w.db; silent = refl })

pub dispatches-Executed :
    (rt : Runtime) (cap : ExecutionCapability) (claim : Option RecoveryClaim)
    (command : Option DomainCommand) (P : Option RecoveryClaim → Type 0) (w : World)
    → Fair rt
    → P claim
    → Executed rt.env P w
        ((Process.commit rt (λ n. dispatch_prepared rt.env cap (rt.clock n) claim)
            >>= complete_dispatch rt command)
          w).1
unfolding ◌>>=◌
dispatches-Executed rt cap claim command P w fair p =
    dispatch_end rt cap claim command P w fair p _ (commit-Ended rt _ w)

replay_or-Executed :
    (rt : Runtime) (cap : ExecutionCapability) (s : Service SideEffectExecutionResult) (w : World)
    → Fair rt
    → ((w' : World) → Executed rt.env (λ c. c ≡ none) w' (s w').1)
    → Executed rt.env (λ c. c ≡ none) w (replay_or rt cap s w).1
unfolding replay_or or_replay Process.pure
replay_or-Executed rt cap s w fair rest =
    bind-Executed _ _ w
      (commit-Quiet rt _ w fair (λ n. reads-Step (Frames-existing rt.env cap (rt.clock n))))
      (λ found w'. elim found as (λ f. Executed rt.env (λ c. c ≡ none) w' (or_replay f s w').1) [
        | none ↦ rest w'
        | some ledger ↦ stay w'
      ])

raise-Executed :
    (rt : Runtime) (cap : ExecutionCapability) (e : Error) (w : World)
    → Fair rt
    → Executed rt.env (λ c. c ≡ none) w (replay_or rt cap (Process.raise e) w).1
unfolding Process.raise
raise-Executed rt cap e w fair = replay_or-Executed rt cap (Process.raise e) w fair (λ w'. stay w')

after_prepare-Executed :
    (rt : Runtime) (cap : ExecutionCapability) (command : Option DomainCommand)
    (prepared : SideEffectLedger × Bool) (w : World)
    → Fair rt
    → Executed rt.env (λ c. c ≡ none) w (after_prepare rt cap command prepared w).1
unfolding after_prepare Process.pure
after_prepare-Executed rt cap command (ledger, true) w fair =
    dispatches-Executed rt cap none command (λ c. c ≡ none) w fair refl
after_prepare-Executed rt cap command (ledger, false) w fair = stay w

prepare-Executed :
    (rt : Runtime) (cap : ExecutionCapability) (intent : RemediationIntent) (w : World)
    → Fair rt
    → Executed rt.env (λ c. c ≡ none) w (prepare_and_dispatch rt cap intent w).1
unfolding prepare_and_dispatch Process.answer
prepare-Executed rt cap intent w fair =
    bind-Executed _ _ w (record { steps = Steps.start; silent = refl })
      λ command w1.
        bind-Executed _ (after_prepare rt cap command) w1
          (commit-Quiet rt _ w1 fair (λ n db answer db' h.
            Step.prepares cap (rt.clock n) (rt.wall n) (rt.fresh_id n) answer h))
          λ prepared w2. after_prepare-Executed rt cap command prepared w2 fair

after_verify-Executed :
    (rt : Runtime) (cap : ExecutionCapability) (result : Result (RemediationIntent × ℕ)) (w : World)
    → Fair rt
    → Executed rt.env (λ c. c ≡ none) w (after_verify rt cap result w).1
unfolding after_verify Process.raise
after_verify-Executed rt cap (ok (intent, revision)) w fair =
    elim (revision == cap.expected_case_revision)
      as (λ b.
        Executed rt.env (λ c. c ≡ none) w
          ((if b
              then prepare_and_dispatch rt cap intent
              else replay_or rt cap (Process.raise (authorization stale_authorization)))
            w).1) [
              | true ↦ prepare-Executed rt cap intent w fair
              | false ↦ raise-Executed rt cap (authorization stale_authorization) w fair
            ]
after_verify-Executed rt cap (err (Error.authorization AuthorizationCode.stale_authorization)) w
      fair =
    raise-Executed rt cap (authorization stale_authorization) w fair
after_verify-Executed rt cap (err _) w fair = stay w

-- Whatever the collaborators answer and whatever other workers commit in between, an execution
-- moves the tables by committed transactions alone, and it calls the adapter at most once: then its
-- own `dispatch_prepared` had committed before, and the call carries the correlation id of the
-- ledger that it returned. The conditions are that the other workers keep to committed transactions
-- and that the check of the facts does not write the ledger.
pub execute-Executed :
    (rt : Runtime) (signed : SignedExecutionCapability) (w : World)
    → Fair rt
    → Executed rt.env (λ c. c ≡ none) w (execute rt signed w).1
unfolding execute Process.answer Process.attempt
execute-Executed rt signed w fair =
    bind-Executed _ _ w (record { steps = Steps.start; silent = refl })
      λ cap w1. replay_or-Executed rt cap _ w1 fair λ w2.
        bind-Executed _ _ w2
          (commit-Quiet rt _ w2 fair (λ n. reads-Step (Frames-get_intent rt.env cap.intent_id)))
          λ intent w3.
            quietly
              (commit-Quiet rt _ w3 fair
                (λ n. reads-Step (fair.verify (case_row rt.env) intent (Frames-case_row rt.env))))
              (after_verify-Executed rt cap _ _ fair)
