-- ===== src/Orchestration/Tests.antt =====
-- Publishing and canceling work on the test Case.
use credit_incident_resoluti.Prelude.{some, false, ◌≡◌, refl, lookup}
use credit_incident_resoluti.Orchestration.Models.{CaseWorkItem, Trigger, WorkReason, WorkType}
use credit_incident_resoluti.Orchestration.Work.{
  cancel_terminal_work, canceled, create_item, new_item, new_work, NewWork, work_row,
}
use credit_incident_resoluti.Orchestration.Single.{
  cancel_terminal_work-dead, create_item-Created, Created, is_live_work,
}
use credit_incident_resoluti.Database.{Db}
use credit_incident_resoluti.Database.Transaction.{ok}
use credit_incident_resoluti.Fixtures.{deployment, empty_db, open_case}
use credit_incident_resoluti.Fixtures.Execute.{execute, value}

abbrev followup : NewWork
followup = new_work WorkType.operator_followup WorkReason.no_progress 5 Trigger.evaluation 200

abbrev published : CaseWorkItem
unfolding execute
published =
    value (new_item deployment open_case followup 0)
      (execute (create_item deployment open_case followup) empty_db).0

abbrev published_db : Db
unfolding execute
published_db = (execute (create_item deployment open_case followup) empty_db).1

published_run : create_item deployment open_case followup empty_db ≡ ok (published, published_db)
unfolding execute
published_run = refl

create_item-Created_example : Created deployment open_case followup empty_db published_db published
create_item-Created_example =
    create_item-Created deployment open_case followup empty_db published_db published published_run

abbrev canceled_db : Db
unfolding execute
canceled_db = (execute (cancel_terminal_work 3 300) published_db).1

canceled_run : cancel_terminal_work 3 300 published_db ≡ ok (tt, canceled_db)
unfolding execute
canceled_run = refl

canceled_found :
    lookup published.work_item_id canceled_db.work_items ≡ some (work_row (canceled published))
unfolding execute
canceled_found = refl

of_case : (work_row (canceled published)).case_id ≡ 3
unfolding execute
of_case = refl

cancel_terminal_work-dead_example : is_live_work (work_row (canceled published)).status ≡ false
cancel_terminal_work-dead_example =
    cancel_terminal_work-dead 3 300 published.work_item_id published_db canceled_db
      (work_row (canceled published)) canceled_run canceled_found of_case
