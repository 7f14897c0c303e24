-- ===== src/Cases/Budget.antt =====
-- A Case's tool budget: what a reserved call found of the Case and has written to it.
use credit_incident_resoluti.Prelude.{ℕ, ◌+◌, ◌<◌, true, Option, some, ◌≡◌, insert, nat_eq, Table}
use credit_incident_resoluti.Domain.{CaseStatus, case_status_eq, ToolName, tool_name_eq}
use credit_incident_resoluti.Cases.Models.{AgentExecutionPrecondition, CaseRow}
use credit_incident_resoluti.Cases.Rows.{find_case}
use credit_incident_resoluti.Cases.Calls.{is_expected, is_running, Registry}
use credit_incident_resoluti.Database.{Db, Deployment}
use credit_incident_resoluti.Database.Frame.{Frames}
use credit_incident_resoluti.Database.Ensures.{Ensures}

abbrev pub cases_of : Db → Table CaseRow
cases_of db = db.cases

-- A registry that resolves and records routes without writing the Cases.
pub record KeepsCases (registry : Registry) : Type 0 where
  pub resolve :
      (case : CaseRow) (tool : ToolName) (p : Option AgentExecutionPrecondition)
      → Frames cases_of (registry.resolve case tool p)
  pub record_call :
      (call_id : ℕ) (case : CaseRow) (route : ℕ)
      → Frames cases_of (registry.record_call call_id case route)

-- What a reservation that commits has found and written.
pub record Reserves (env : Deployment) (case_id : ℕ) (p : Option AgentExecutionPrecondition)
    (before after : Db) : Type 0 where
  pub case : CaseRow
  pub found : find_case env case_id before ≡ some case
  pub running : is_running case.status ≡ true
  pub below_budget : case.used_tool_calls < case.max_tool_calls
  pub expected : is_expected p case ≡ true
  pub revision : ℕ
  pub written :
      after.cases
      ≡ insert case.case_id
          (record case {
            used_tool_calls = case.used_tool_calls + 1;
            status = CaseStatus.investigating;
            updated_at = revision;
          })
          before.cases
