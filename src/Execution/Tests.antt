-- ===== src/Execution/Tests.antt =====
-- An execution and a recovery over the tables of a test run, without other workers.
use credit_incident_resoluti.Prelude.{ℕ, ◌+◌, ◌≡◌, refl, [], ◌∷◌, false, true, none, some}
use credit_incident_resoluti.Domain.{EffectStatus}
use credit_incident_resoluti.Authorization.Models.{DomainCommand, ReceiptOutcome, SideEffectReceipt}
use credit_incident_resoluti.Authorization.Ledger.{may_follow, unproven}
use credit_incident_resoluti.Database.Frame.{Frames-bind, Frames-pure}
use credit_incident_resoluti.Database.Transaction
use credit_incident_resoluti.Database.Transaction.{err, ok, timeout_error}
use credit_incident_resoluti.Database.{Deployment}
use credit_incident_resoluti.Fixtures.{capability_of, deployment, issued_db}
use credit_incident_resoluti.Fixtures.Runs.{first_db, issued-LedgerIsSound, sent_ledger}
use credit_incident_resoluti.History.Steps.{Steps}
use credit_incident_resoluti.Execution.Process.{received, Runtime, SignedExecutionCapability, World}
use credit_incident_resoluti.Fixtures.Execute
use credit_incident_resoluti.Execution.Compute.{ran}
use credit_incident_resoluti.Execution.Sends.{Executed, Fair}
use credit_incident_resoluti.Execution.Once.{execute-Executed}
use credit_incident_resoluti.Execution.Recover.{recover}
use credit_incident_resoluti.Execution.Replies.{Concluded, settlement-Concluded}
use credit_incident_resoluti.Execution.Claimed.{recover-Recovered, Recovered}
use credit_incident_resoluti.Execution.Twice.{Apart, Operation, perform, perform-Apart}
use credit_incident_resoluti.Execution.Service.{execute, settlement}

abbrev receipt : ℕ → SideEffectReceipt
receipt correlation = record {
  correlation_id = correlation;
  outcome = ReceiptOutcome.accepted;
  external_effect_ref = some 5;
  observed_at = 141;
  no_effect_confirmed = false;
}

abbrev runtime : Runtime
runtime = record {
  env = deployment;
  worker_id = 8;
  others = λ n db. db;
  clock = λ n. 130 + n;
  wall = λ n. 130 + n;
  fresh_id = λ n. n;
  authenticate = λ signed. ok signed.payload;
  verify = λ reader intent.
      Transaction.◌>>=◌ (reader intent.case_id)
        (λ case. Transaction.pure (intent, case.updated_at));
  adapter = λ command correlation. received (receipt correlation);
  resolver_capability = deployment.contract;
  resolver = λ correlation identity. err timeout_error;
  has_resumer = true;
}

runtime-Fair : Fair runtime
runtime-Fair = record {
  others = λ n db. Steps.start;
  verify = λ reader intent reads. Frames-bind _ _ (reads intent.case_id) (λ case. Frames-pure _);
}

abbrev issued : World
issued = record { db = issued_db; turn = 0; calls = [] }

abbrev signed : SignedExecutionCapability
signed = record { payload = capability_of 11 100; signature = 1 }

execute-Executed_example :
    Executed deployment (λ c. c ≡ none) issued (execute runtime signed issued).1
execute-Executed_example = execute-Executed runtime signed issued runtime-Fair

-- A deployment without a grace period, and the tables after the first effect was prepared.
abbrev prompt : Deployment
prompt = record deployment { policy = record deployment.policy { grace_seconds = 0 } }

abbrev recoverer : Runtime
recoverer = record runtime { env = prompt; clock = λ n. 140 + n; fresh_id = λ n. 80 + n }

recoverer-Fair : Fair recoverer
recoverer-Fair = record {
  others = λ n db. Steps.start;
  verify = λ reader intent reads. Frames-bind _ _ (reads intent.case_id) (λ case. Frames-pure _);
}

abbrev prepared_world : World
prepared_world = record {
  db = record first_db { signatures = (711, 1) ∷ [] };
  turn = 0;
  calls = [];
}

-- The recovery resumes the effect and calls the adapter.
resumed_calls :
    (recover recoverer 30011 prepared_world).1.calls
    ≡ record { command = some (DomainCommand.replay_callback 7 3 9 11 4); correlation_id = 1 } ∷ []
unfolding Execute.execute ran
resumed_calls = refl

recover-Recovered_example :
    Recovered prompt 30011 8 prepared_world (recover recoverer 30011 prepared_world).1
recover-Recovered_example = recover-Recovered recoverer 30011 prepared_world recoverer-Fair

abbrev second_signed : SignedExecutionCapability
second_signed = record { payload = capability_of 12 130; signature = 1 }

abbrev steady : Runtime
steady = record runtime { wall = λ n. 130 }

abbrev after_first : World
after_first = perform steady (Operation.executes signed) issued

steady-Fair : Fair steady
steady-Fair = record {
  others = λ n db. Steps.start;
  verify = λ reader intent reads. Frames-bind _ _ (reads intent.case_id) (λ case. Frames-pure _);
}

-- Each of two executions calls the adapter.
two_calls :
    (perform steady (Operation.executes second_signed) after_first).calls
    ≡ record { command = some (DomainCommand.replay_callback 7 3 9 12 4); correlation_id = 9 }
      ∷ record { command = some (DomainCommand.replay_callback 7 3 9 11 4); correlation_id = 3 }
      ∷ []
unfolding Execute.execute ran
two_calls = refl

perform-Apart_example :
    Apart deployment issued after_first after_first
      (perform steady (Operation.executes second_signed) after_first)
perform-Apart_example =
    perform-Apart steady steady (Operation.executes signed) (Operation.executes second_signed)
      issued after_first refl steady-Fair steady-Fair issued-LedgerIsSound Steps.start

settlement-Concluded_example :
    Concluded sent_ledger (received (receipt 99)) (settlement sent_ledger (received (receipt 99)))
    × ((may_follow EffectStatus.dispatched (settlement sent_ledger (received (receipt 99))).status
          ≡ true)
        × (unproven
              (settlement sent_ledger (received (receipt 99))).status
              (settlement sent_ledger (received (receipt 99))).receipt
            ≡ false))
settlement-Concluded_example = settlement-Concluded sent_ledger (received (receipt 99))
