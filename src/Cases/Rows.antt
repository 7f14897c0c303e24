-- ===== src/Cases/Rows.antt =====
-- The Case row that a transaction works on: `CaseRepository._row`, the lock that every writer takes
-- first, and `next_update_time`. The lock's UPDATE writes the row's own revision back; what it
-- gives is that transactions on one Case run one after the other, as the model's do.
use credit_incident_resoluti.Prelude.{
  ℕ, ◌+◌, max, Option, none, some, ◌==◌, nat_eq, if◌then◌else◌, lookup, insert,
}
use credit_incident_resoluti.Cases.Models.{CaseRow}
use credit_incident_resoluti.Database.{Db, Deployment}
use credit_incident_resoluti.Database.Transaction.{
  Error, case_unavailable, Tx, gets, or_raise, ◌>>=◌, modify,
}

-- The row of this Case, if it belongs to the deployment's tenant.
unfoldable pub find_case : Deployment → ℕ → Db → Option CaseRow
find_case env case_id db = elim (lookup case_id db.cases) [
  | none ↦ none
  | some row ↦ if row.tenant_id == env.tenant_id then some row else none
]

-- `_lock_case` and `lock_case`, which differ in what they raise.
unfoldable pub lock_case : Deployment → Error → ℕ → Tx CaseRow
lock_case env error case_id = do found ← gets (find_case env case_id); or_raise found error

-- CaseRepository._row
unfoldable pub case_row : Deployment → ℕ → Tx CaseRow
case_row env case_id = do found ← gets (find_case env case_id); or_raise found case_unavailable

unfoldable pub save_case : CaseRow → Tx Unit
save_case row = modify (λ db. record db { cases = insert row.case_id row db.cases })

-- The revision after `previous`: later than it even if the clock stands still.
unfoldable pub next_update_time : ℕ → ℕ → ℕ
next_update_time wall previous = max wall (previous + 1)
