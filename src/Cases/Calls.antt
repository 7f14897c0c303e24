-- ===== src/Cases/Calls.antt =====
-- `CaseRepository` of credit_harness/cases/repository.py: reserving a tool call against the Case's
-- budget, and pausing a Case. `wall` is what `utc_now` reads. The registry of sources is another
-- component: `Registry` is what a reservation asks of it.
use credit_incident_resoluti.Prelude.{
  ℕ, ◌+◌, Bool, true, false, ◌&&◌, ◌||◌, Option, none, some, ◌==◌, ◌!=◌, nat_eq, option_eq, leb,
  ltb, not, is_none, contains, lookup, insert, select_first,
}
use credit_incident_resoluti.Domain.{
  CaseStatus, case_status_eq, is_terminal, ToolName, tool_name_eq,
}
use credit_incident_resoluti.Cases.Models.{
  AgentExecutionPrecondition, CallState, call_state_eq, CaseCallRow, CaseRow, ToolQuery,
  WorkLeasePrecondition,
}
use credit_incident_resoluti.Cases.Rows.{case_row, find_case, next_update_time, save_case}
use credit_incident_resoluti.Orchestration.Models.{
  PauseReservation, WorkItemRow, WorkStatus, work_status_eq,
}
use credit_incident_resoluti.Orchestration.Pause.{pause_handoff}
use credit_incident_resoluti.Database.{Db, Deployment}
use credit_incident_resoluti.Database.Transaction.{
  case_policy, Error, integrity, precondition_failed, pure, Tx, ◌>>=◌, ◌>>◌, branch, gets, if_found,
  modify, or_raise, raise_if,
}

-- The registry's guard: whether a Case has a registered route, and, where the repository has a
-- guard, its `prepare` and `record`. A resolved route is a number.
pub record Registry : Type 0 where
  pub has_route : ℕ → Db → Bool
  pub has_guard : Bool
  pub resolve : CaseRow → ToolName → Option AgentExecutionPrecondition → Tx ℕ
  pub record_call : (call_id : ℕ) → CaseRow → ℕ → Tx Unit

-- The scope check of `execution_conditions`.
scope_differs : Deployment → ℕ → AgentExecutionPrecondition → Bool
scope_differs env case_id p = p.case_id != case_id || p.tenant_id != env.tenant_id

unfoldable pub check_scope : Deployment → ℕ → Option AgentExecutionPrecondition → Tx Unit
unfolding scope_differs
check_scope env case_id none = pure tt
check_scope env case_id (some p) = raise_if (scope_differs env case_id p) precondition_failed

-- The conditions themselves, on the row that the UPDATE finds.
unfoldable pub is_expected : Option AgentExecutionPrecondition → CaseRow → Bool
is_expected none case = true
is_expected (some p) case =
    case.status == p.expected_case_status
    && (case.used_tool_calls == p.expected_used_tool_calls
        && case.updated_at == p.expected_case_updated_at)

claimed_work : Deployment → ℕ → Db → Option WorkItemRow
claimed_work env case_id db =
    select_first
      (λ row.
        row.case_id == case_id
        && (row.tenant_id == env.tenant_id && row.status == WorkStatus.claimed))
      db.work_items

fence_of : Option AgentExecutionPrecondition → Option WorkLeasePrecondition
fence_of none = none
fence_of (some p) = p.work_lease

-- The claimed item and the lease that the caller brings do not agree.
unfoldable pub fence_fails : Option WorkItemRow → Option WorkLeasePrecondition → ℕ → Bool
fence_fails none none wall = false
fence_fails none (some fence) wall = true
fence_fails (some row) none wall = true
fence_fails (some row) (some fence) wall =
    row.work_item_id != fence.work_item_id
    || (row.payload.claimed_by != some fence.worker_id
        || (row.payload.lease_token != some fence.lease_token
            || elim row.lease_until [ none ↦ true | some until ↦ leb until wall ]))

-- `_work_fence`
unfoldable pub work_fence : Deployment → ℕ → Option AgentExecutionPrecondition → ℕ → Tx Unit
unfolding claimed_work fence_of fence_fails
work_fence env case_id precondition wall = do
  active ← gets (claimed_work env case_id)
  raise_if (fence_fails active (fence_of precondition) wall) precondition_failed

-- NEW or INVESTIGATING
unfoldable pub is_running : CaseStatus → Bool
is_running CaseStatus.new = true
is_running CaseStatus.investigating = true
is_running _ = false

-- Only the protocol tool takes protocol parameters.
misplaced_parameters : ToolName → ToolQuery → Bool
misplaced_parameters tool query =
    tool != ToolName.protocol
    && (not (is_none query.protocol_version) || not (is_none query.effective_at))

-- The WHERE clause of the conditional UPDATE.
unfoldable pub may_reserve : Option AgentExecutionPrecondition → CaseRow → Bool
unfolding is_running is_expected
may_reserve precondition case =
    is_running case.status
    && (ltb case.used_tool_calls case.max_tool_calls && is_expected precondition case)

unfoldable pub reserved : CaseRow → (revision : ℕ) → CaseRow
reserved case revision = record case {
  used_tool_calls = case.used_tool_calls + 1;
  status = CaseStatus.investigating;
  updated_at = revision;
}

reserve_error : Option AgentExecutionPrecondition → Error
reserve_error none = case_policy
reserve_error (some p) = precondition_failed

unfoldable pub save_call : CaseCallRow → Tx Unit
save_call row = modify (λ db. record db { calls = insert row.call_id row db.calls })

-- `session.add` of a call: its primary key, and UniqueConstraint(case_id, sequence).
unfoldable pub add_call : CaseCallRow → Tx Unit
add_call row = do
  same ← gets (λ db. lookup row.call_id db.calls)
  raise_if (not (is_none same)) integrity
  clash ←
      gets
        (λ db. select_first (λ c. c.case_id == row.case_id && c.sequence == row.sequence) db.calls)
  raise_if (not (is_none clash)) integrity
  save_call row

-- `reserve_call`; `call_id` is its fresh uuid4.
unfoldable pub reserve_call :
    Deployment
    → Registry
    → (case_id : ℕ) → ToolName
    → ToolQuery
    → Option AgentExecutionPrecondition
    → (wall call_id : ℕ) → Tx ℕ
unfolding check_scope work_fence misplaced_parameters may_reserve reserved reserve_error add_call
reserve_call env registry case_id tool query precondition wall call_id = do
  check_scope env case_id precondition
  work_fence env case_id precondition wall
  case ← case_row env case_id
  raise_if (not (contains query.internal_order_id case.allowed_order_ids)) case_policy
  raise_if (not (contains tool case.allowed_tools) || contains tool case.forbidden_actions)
      case_policy
  raise_if (misplaced_parameters tool query) case_policy
  routed ← gets (registry.has_route case_id)
  raise_if (routed && not registry.has_guard) precondition_failed
  resolved ←
      branch registry.has_guard
        (do route ← registry.resolve case tool precondition; pure (some route)) (pure none)
  found ← gets (find_case env case_id)
  row ← or_raise found (reserve_error precondition)
  raise_if (not (may_reserve precondition row)) (reserve_error precondition)
  save_case (reserved row (next_update_time wall case.updated_at))
  add_call (record {
    call_id = call_id;
    dispatch_correlation_id = some call_id;
    case_id = case_id;
    sequence = row.used_tool_calls + 1;
    tool = tool;
    request = query;
    state = CallState.dispatched;
    observation_id = none;
  })
  if_found resolved (registry.record_call call_id case) (pure tt)
  pure call_id

-- `mark_error`: only a call that is still out becomes an error.
unfoldable pub mark_error : Deployment → (case_id call_id : ℕ) → Tx Unit
mark_error env case_id call_id = do
  case_row env case_id
  found ← gets (λ db. lookup call_id db.calls)
  if_found found
      (λ call.
        branch (call.case_id == case_id && call.state == CallState.dispatched)
          (save_call (record call { state = CallState.error })) (pure tt))
      (pure tt)

-- WAITING or ESCALATED
unfoldable pub is_pause : CaseStatus → Bool
is_pause CaseStatus.waiting = true
is_pause CaseStatus.escalated = true
is_pause _ = false

unfoldable pub paused : CaseRow → CaseStatus → ℕ → CaseRow
paused case status wall = record case {
  status = status;
  updated_at = next_update_time wall case.updated_at;
}

unfoldable pub pause : Deployment → ℕ → CaseStatus → ℕ → Tx Unit
unfolding is_pause paused
pause env case_id status wall = do
  raise_if (not (is_pause status)) case_policy
  case ← case_row env case_id
  raise_if (is_terminal case.status) case_policy
  save_case (paused case status wall)

unfoldable pub pause_if_current :
    Deployment → ℕ → CaseStatus → AgentExecutionPrecondition → Option PauseReservation → ℕ → Tx Unit
unfolding is_pause check_scope work_fence is_running is_expected paused
pause_if_current env case_id status precondition reservation wall = do
  raise_if (not (is_pause status)) case_policy
  check_scope env case_id (some precondition)
  work_fence env case_id (some precondition) wall
  case ← case_row env case_id
  raise_if (not (is_running case.status && is_expected (some precondition) case))
      precondition_failed
  save_case (paused case status wall)
  if_found reservation (λ r. do pause_handoff env (paused case status wall) r wall; pure tt)
      (pure tt)
