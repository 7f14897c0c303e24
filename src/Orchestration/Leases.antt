-- ===== src/Orchestration/Leases.antt =====
-- `WorkRepository` of credit_harness/orchestration/repository.py: its state, and leasing an item to
-- one worker. `now` is what its clock reads.
use credit_incident_resoluti.Prelude.{
  ℕ, ◌+◌, Bool, true, false, ◌&&◌, ◌||◌, Option, none, some, List, [], ◌∷◌, ◌==◌, ◌!=◌, nat_eq,
  option_eq, leb, ltb, not, is_none, if◌then◌else◌, lookup, select, select_first,
}
use credit_incident_resoluti.Domain.{case_status_eq, is_terminal}
use credit_incident_resoluti.Cases.Models.{CaseRow, WorkLeasePrecondition}
use credit_incident_resoluti.Cases.Rows.{lock_case}
use credit_incident_resoluti.Orchestration.Models.{
  binding_mode, CaseWorkItem, OrchestrationBudget, CaseOrchestrationState, resolution_signal_eq,
  signal_type_eq, WorkBindingMode, work_binding_mode_eq, WorkClaim, WorkEvent, WorkItemRow,
  WorkStatus, work_status_eq, work_type_eq,
}
use credit_incident_resoluti.Orchestration.Work.{
  audit, cancel_terminal_work, is_active, save_state, save_work, state_in,
}
use credit_incident_resoluti.Orchestration.EffectWork.{check_recovery_work}
use credit_incident_resoluti.Database.{Db, Deployment}
use credit_incident_resoluti.Database.Transaction.{
  orchestration, pure, seconds, Tx, ◌>>=◌, ◌>>◌, branch, gets, if_found, or_raise, raise_if,
}

find_work : Deployment → ℕ → Db → Option WorkItemRow
find_work env work_id db = elim (lookup work_id db.work_items) [
  | none ↦ none
  | some row ↦ if row.tenant_id == env.tenant_id then some row else none
]

-- `_row` and `get`
unfoldable pub get_work : Deployment → ℕ → Tx CaseWorkItem
unfolding find_work
get_work env work_id = do
  found ← gets (find_work env work_id)
  row ← or_raise found orchestration
  pure row.payload

-- The number of active items that `state` reports.
count_active : ℕ → List WorkItemRow → ℕ
count_active case_id [] = 0
count_active case_id (row ∷ rows) =
    let rest = count_active case_id rows in
    if row.case_id == case_id && is_active row.status then rest + 1 else rest

unfoldable pub state : Deployment → ℕ → Tx (CaseOrchestrationState × ℕ)
unfolding count_active
state env case_id = do
  case ← lock_case env orchestration case_id
  current ← state_in case
  rows ← gets (λ db. select (λ row. true) db.work_items)
  pure (current, count_active case_id rows)

unfoldable pub configure : Deployment → ℕ → OrchestrationBudget → Tx Unit
configure env case_id budget = do
  case ← lock_case env orchestration case_id
  current ← state_in case
  raise_if (current.resume_cycle_count != 0 || current.verification_cycle_count != 0) orchestration
  save_state (record current { budget = budget })

-- The work of a Case snapshot waits for its signal; the recovery of an effect does not.
unfoldable pub awaits_signal : CaseWorkItem → Bool
awaits_signal item =
    binding_mode item.work_type == WorkBindingMode.case_snapshot
    && (not (is_none item.required_signal) && is_none item.signal_id)

unfoldable pub lease_expired : Option ℕ → ℕ → Bool
lease_expired none now = false
lease_expired (some until) now = leb until now

unfoldable pub lease_live : Option ℕ → ℕ → Bool
lease_live none now = false
lease_live (some until) now = ltb now until

-- The Case is no longer the one that the item was made for.
unfoldable pub off_revision : CaseRow → CaseWorkItem → Bool
off_revision case item =
    case.status != item.expected_case_status || case.updated_at != item.expected_case_revision

-- The item may not be leased now.
unfoldable pub unavailable : CaseWorkItem → ℕ → Bool
unfolding awaits_signal lease_live
unavailable item now =
    not (is_active item.status)
    || (ltb now item.not_before || (awaits_signal item || lease_live item.lease_until now))

unfoldable pub other_claimed : CaseWorkItem → Db → Option WorkItemRow
other_claimed item db =
    select_first
      (λ row.
        row.case_id == item.case_id
        && (row.work_item_id != item.work_item_id && row.status == WorkStatus.claimed))
      db.work_items

unfoldable pub leased_item : Deployment → CaseWorkItem → (worker_id token now : ℕ) → CaseWorkItem
leased_item env item worker_id token now = record item {
  status = WorkStatus.claimed;
  claimed_by = some worker_id;
  lease_token = some token;
  lease_until = some (now + seconds env.lease_seconds);
  attempt_count = item.attempt_count + 1;
}

-- The end of `claim`: one item of a Case is in flight at a time.
unfoldable pub lease_item :
    Deployment → CaseWorkItem → (worker_id token now : ℕ) → Tx (Option WorkClaim)
unfolding other_claimed leased_item
lease_item env item worker_id token now = do
  other ← gets (other_claimed item)
  if_found other (λ _. pure none)
      do
        save_work (leased_item env item worker_id token now)
        audit (leased_item env item worker_id token now) WorkEvent.claimed now (some item.status)
            (some worker_id)
        pure (
            some (record {
              work_item_id = item.work_item_id;
              worker_id = worker_id;
              lease_token = token;
            }))

-- `claim`; `token` is its fresh uuid4.
unfoldable pub claim_work : Deployment → (work_id worker_id now token : ℕ) → Tx (Option WorkClaim)
unfolding unavailable lease_item
claim_work env work_id worker_id now token = do
  item ← get_work env work_id
  case ← lock_case env orchestration item.case_id
  branch (is_terminal case.status) (do cancel_terminal_work case.case_id now; pure none)
      (branch (unavailable item now) (pure none) (
        branch (binding_mode item.work_type == WorkBindingMode.side_effect)
          (do
            binding ← check_recovery_work env case item now true
            if_found binding (λ _. lease_item env item worker_id token now) (pure none))
          (lease_item env item worker_id token now)))

-- The claim does not hold the lease of this item at `now`.
unfoldable pub lease_not_held : WorkClaim → CaseWorkItem → ℕ → Bool
unfolding lease_live
lease_not_held claim item now =
    item.status != WorkStatus.claimed
    || (item.lease_token != some claim.lease_token
        || (item.claimed_by != some claim.worker_id || not (lease_live item.lease_until now)))

unfoldable pub owned_work : Deployment → WorkClaim → ℕ → Tx CaseWorkItem
unfolding lease_not_held
owned_work env claim now = do
  item ← get_work env claim.work_item_id
  raise_if (lease_not_held claim item now) orchestration
  pure item

unfoldable pub renew : Deployment → WorkClaim → ℕ → Tx WorkLeasePrecondition
renew env claim now = do
  item ← get_work env claim.work_item_id
  case ← lock_case env orchestration item.case_id
  raise_if (is_terminal case.status) orchestration
  owned ← owned_work env claim now
  save_work (record owned { lease_until = some (now + seconds env.lease_seconds) })
  pure (record {
    work_item_id = claim.work_item_id;
    worker_id = claim.worker_id;
    lease_token = claim.lease_token;
  })

unfoldable pub completed_by : WorkClaim → CaseWorkItem → Bool
completed_by claim item =
    item.status == WorkStatus.completed
    && (item.lease_token == some claim.lease_token && item.claimed_by == some claim.worker_id)

unfoldable pub complete : Deployment → WorkClaim → ℕ → Tx CaseWorkItem
unfolding completed_by
complete env claim now = do
  item ← get_work env claim.work_item_id
  lock_case env orchestration item.case_id
  branch (completed_by claim item) (pure item) do
    owned ← owned_work env claim now
    let result = record owned {
      status = WorkStatus.completed;
      completed_at = some now;
      lease_until = none;
    }
    save_work result
    audit result WorkEvent.completed now (some owned.status) (some claim.worker_id)
    pure result

-- EffectRecoveryWorkGuard.current of orchestration/effect_work.py
unfoldable pub current_recovery : Deployment → WorkClaim → ℕ → Tx (Option (CaseRow × CaseWorkItem))
current_recovery env claim now = do
  item ← get_work env claim.work_item_id
  case ← lock_case env orchestration item.case_id
  branch (is_terminal case.status) (do cancel_terminal_work case.case_id now; pure none)
      do
        owned ← owned_work env claim now
        binding ← check_recovery_work env case owned now false
        if_found binding (λ _. pure (some (case, owned))) (pure none)
