-- ===== src/Orchestration/Polling.antt =====
-- `poll_due_work` and `claim_next` of credit_harness/orchestration/repository.py.
use credit_incident_resoluti.Prelude.{
  ℕ, ◌+◌, Bool, true, ◌&&◌, ◌||◌, Option, none, some, List, [], ◌∷◌, ◌==◌, nat_eq, zero, suc,
  option_eq, leb, ltb, not, if◌then◌else◌, select,
}
use credit_incident_resoluti.Domain.{case_status_eq, is_terminal}
use credit_incident_resoluti.Cases.Rows.{lock_case}
use credit_incident_resoluti.Orchestration.Models.{
  binding_mode, CaseWorkItem, resolution_signal_eq, signal_type_eq, WorkBindingMode,
  work_binding_mode_eq, WorkClaim, WorkEvent, WorkItemRow, WorkStatus, work_status_eq, work_type_eq,
}
use credit_incident_resoluti.Orchestration.Work.{audit, cancel_terminal_work, is_queued, save_work}
use credit_incident_resoluti.Orchestration.EffectWork.{check_recovery_work}
use credit_incident_resoluti.Orchestration.Leases.{
  awaits_signal, lease_expired, off_revision, get_work, claim_work,
}
use credit_incident_resoluti.Database.{Db, Deployment}
use credit_incident_resoluti.Database.Transaction.{
  err, ok, orchestration, pure, Result, run, Tx, ◌>>=◌, ◌>>◌, branch, if_found,
}

-- The rows that the scan of `poll_due_work` selects.
unfoldable pub is_due : Deployment → ℕ → WorkItemRow → Bool
unfolding awaits_signal lease_expired
is_due env now row =
    row.tenant_id == env.tenant_id
    && (leb row.not_before now
        && ((is_queued row.status && not (awaits_signal row.payload))
            || (row.status == WorkStatus.claimed && lease_expired row.lease_until now)))

sooner : WorkItemRow → WorkItemRow → Bool
sooner a b =
    ltb a.not_before b.not_before
    || (a.not_before == b.not_before && leb a.work_item_id b.work_item_id)

add_ordered : WorkItemRow → List WorkItemRow → List WorkItemRow
unfolding sooner
add_ordered row [] = row ∷ []
add_ordered row (r ∷ rows) =
    let later = add_ordered row rows in if sooner row r then row ∷ r ∷ rows else r ∷ later

in_order : List WorkItemRow → List WorkItemRow
unfolding add_ordered
in_order [] = []
in_order (row ∷ rows) = add_ordered row (in_order rows)

first_ids : ℕ → List WorkItemRow → List ℕ
first_ids limit [] = []
first_ids zero (row ∷ rows) = []
first_ids (suc limit) (row ∷ rows) = row.work_item_id ∷ first_ids limit rows

unfoldable pub due_ids : Deployment → (now limit : ℕ) → Db → List ℕ
unfolding is_due in_order first_ids
due_ids env now limit db = first_ids limit (in_order (select (is_due env now) db.work_items))

-- The last part of a poll: a queued item becomes READY, an expired lease is offered again.
unfoldable pub offer : CaseWorkItem → ℕ → Tx (Option ℕ)
unfolding awaits_signal lease_expired
offer item now =
    branch (is_queued item.status && not (awaits_signal item))
      (do
        let changed = record item { status = WorkStatus.ready }
        branch (item.status == WorkStatus.pending)
            (do save_work changed; audit changed WorkEvent.ready now (some item.status) none)
            (pure tt)
        pure (some item.work_item_id))
      (pure (
        if item.status == WorkStatus.claimed && lease_expired item.lease_until now
        then some item.work_item_id
        else none))

unfoldable pub cancel_stale : CaseWorkItem → ℕ → Tx (Option ℕ)
cancel_stale item now = do
  let changed = record item { status = WorkStatus.canceled; lease_until = none }
  save_work changed
  audit changed WorkEvent.stale now (some item.status) none
  pure none

-- The transaction of `poll_due_work` for one item.
unfoldable pub poll_one : Deployment → (work_id now : ℕ) → Tx (Option ℕ)
unfolding offer off_revision cancel_stale
poll_one env work_id now = do
  item ← get_work env work_id
  case ← lock_case env orchestration item.case_id
  branch (is_terminal case.status) (do cancel_terminal_work case.case_id now; pure none)
      (branch (binding_mode item.work_type == WorkBindingMode.side_effect)
        (do
          binding ← check_recovery_work env case item now true
          if_found binding (λ _. offer item now) (pure none))
        (branch (is_queued item.status && off_revision case item) (cancel_stale item now)
          (offer item now)))

-- Each item is polled in a transaction of its own; the first that raises ends the poll.
unfoldable pub poll_each : Deployment → ℕ → List ℕ → Db → Result (List ℕ) × Db
poll_each env now [] db = (ok [], db)
poll_each env now (work_id ∷ ids) db =
    let (first, after) = run (poll_one env work_id now) db in
    let (rest, last) = poll_each env now ids after in
    elim first [
      | err e ↦ (err e, after)
      | ok none ↦ (rest, last)
      | ok (some ready) ↦ (elim rest [ err e ↦ err e | ok others ↦ ok (ready ∷ others) ], last)
    ]

unfoldable pub poll_due_work : Deployment → (now limit : ℕ) → Db → Result (List ℕ) × Db
unfolding due_ids poll_each
poll_due_work env now limit db = poll_each env now (due_ids env now limit db) db

-- The first ready item that can be claimed, each tried in a transaction of its own; every try has
-- a fresh token.
claim_first : Deployment → (worker_id now token : ℕ) → List ℕ → Db → Result (Option WorkClaim) × Db
claim_first env worker_id now token [] db = (ok none, db)
claim_first env worker_id now token (work_id ∷ ids) db =
    let (first, after) = run (claim_work env work_id worker_id now token) db in
    let rest = claim_first env worker_id now (token + 1) ids after in
    elim first [
      | err e ↦ (err e, after)
      | ok none ↦ rest
      | ok (some claim) ↦ (ok (some claim), after)
    ]

unfoldable pub claim_next :
    Deployment → (worker_id now token : ℕ) → Db → Result (Option WorkClaim) × Db
unfolding claim_first
claim_next env worker_id now token db =
    let (ready, after) = poll_due_work env now 100 db in
    elim ready [ err e ↦ (err e, after) | ok ids ↦ claim_first env worker_id now token ids after ]
