-- ===== src/Cases/Tests.antt =====
-- A tool call reserved on a Case without a registered route.
use credit_incident_resoluti.Prelude.{false, none, [], ◌∷◌}
use credit_incident_resoluti.Domain.{ToolName}
use credit_incident_resoluti.Cases.Models.{ToolQuery}
use credit_incident_resoluti.Cases.Calls.{Registry, reserve_call}
use credit_incident_resoluti.Database.{Db}
use credit_incident_resoluti.Database.Transaction.{precondition_failed, pure, raise}
use credit_incident_resoluti.Fixtures.{deployment, empty_db, open_case}
use credit_incident_resoluti.Fixtures.Execute.{execute}

abbrev no_registry : Registry
no_registry = record {
  has_route = λ case_id db. false;
  has_guard = false;
  resolve = λ case tool p. raise precondition_failed;
  record_call = λ call_id case route. pure tt;
}

abbrev tooled_db : Db
tooled_db = record empty_db {
  cases = (3, record open_case { allowed_tools = ToolName.payment ∷ [] }) ∷ [];
}

abbrev query : ToolQuery
query = record { internal_order_id = 9; protocol_version = none; effective_at = none }

abbrev reserved_db : Db
unfolding execute
reserved_db =
    (execute (reserve_call deployment no_registry 3 ToolName.payment query none 150 61) tooled_db).1
