-- ===== src/Orchestration/Signals.antt =====
-- `submit_signal` of credit_harness/orchestration/repository.py: the answer that an item waits for.
use credit_incident_resoluti.Prelude.{
  ℕ, Bool, false, ◌||◌, none, some, ◌!=◌, nat_eq, option_eq, ltb, not, lookup, insert,
}
use credit_incident_resoluti.Domain.{case_status_eq, is_terminal}
use credit_incident_resoluti.Cases.Models.{CaseRow}
use credit_incident_resoluti.Cases.Rows.{lock_case}
use credit_incident_resoluti.Orchestration.Models.{
  CaseWorkItem, ResolutionSignal, resolution_signal_eq, signal_type_eq, Trigger,
  work_binding_mode_eq, work_status_eq, work_type_eq,
}
use credit_incident_resoluti.Orchestration.Work.{is_queued, save_work}
use credit_incident_resoluti.Orchestration.Leases.{off_revision, get_work}
use credit_incident_resoluti.Database.{Deployment}
use credit_incident_resoluti.Database.Transaction.{
  orchestration, pure, Tx, ◌>>=◌, ◌>>◌, gets, if_found, modify, raise_if,
}

-- The signal does not answer this item of this Case.
unfoldable pub signal_mismatch : ResolutionSignal → CaseRow → CaseWorkItem → ℕ → Bool
unfolding off_revision
signal_mismatch signal case item now =
    item.case_id != case.case_id
    || (is_terminal case.status
        || (ltb now signal.created_at
            || (ltb signal.created_at item.created_at
                || (not (is_queued item.status)
                    || (item.required_signal != some signal.signal_type
                        || (signal.subject != case.internal_order_id || off_revision case item))))))

save_signal : ResolutionSignal → Tx Unit
save_signal signal =
    modify (λ db. record db { signals = insert signal.signal_id signal db.signals })

bound_to_other : CaseWorkItem → ℕ → Bool
bound_to_other item signal_id = elim item.signal_id [ none ↦ false | some old ↦ old != signal_id ]

unfoldable pub submit_signal : Deployment → ResolutionSignal → ℕ → Tx CaseWorkItem
unfolding signal_mismatch save_signal bound_to_other
submit_signal env signal now = do
  raise_if (signal.tenant_id != env.tenant_id) orchestration
  case ← lock_case env orchestration signal.case_id
  item ← get_work env signal.work_item_id
  raise_if (signal_mismatch signal case item now) orchestration
  old ← gets (λ db. lookup signal.signal_id db.signals)
  if_found old (λ stored. raise_if (stored != signal) orchestration) (pure tt)
  raise_if (bound_to_other item signal.signal_id) orchestration
  if_found old (λ _. pure tt) (save_signal signal)
  let changed = record item {
    signal_id = some signal.signal_id;
    trigger = Trigger.resolution_signal;
  }
  save_work changed
  pure changed
