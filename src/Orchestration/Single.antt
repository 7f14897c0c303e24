-- ===== src/Orchestration/Single.antt =====
-- Creating a work item under its key, and canceling those of a Case.
use credit_incident_resoluti.Prelude.{
  ℕ, ◌≤◌, max, true, ◌&&◌, ◌!=◌, is_none, or_else, Bool, false, ◌||◌, Option, none, some, List, [],
  ◌∷◌, ◌≡◌, refl, ap, sym, ◌∙◌, inl, inr, ◌==◌, option_eq, lookup, insert, select, update_where,
  lookup-insert, arith, nat_eq, if◌then◌else◌, Bool-cases,
}
use credit_incident_resoluti.Domain.{CaseStatus, case_status_eq, is_terminal}
use credit_incident_resoluti.Cases.Models.{CaseRow}
use credit_incident_resoluti.Orchestration.Models.{
  CaseWorkItem, WorkItemRow, WorkReason, work_reason_eq, WorkStatus, WorkType, work_status_eq,
  work_type_eq,
}
use credit_incident_resoluti.Orchestration.Work.{
  add_work, audit, cancel_terminal_work, canceled, cancels, create_item, due_time, latest_timer,
  signal_for, is_queued, is_active, new_item, NewWork, save_state, save_work, state_in, work_key,
  work_row,
}
use credit_incident_resoluti.Database.{Db, Deployment}
use credit_incident_resoluti.Database.Transaction.{modify, ok}
use credit_incident_resoluti.Database.Frame.{Frames, Frames-modify, frame_rules}
use credit_incident_resoluti.Database.Ensures.{
  Ensures, Ensures-bind, Ensures-gets, Ensures-if_found, Ensures-pure, Ensures-skip, modify-Ensures,
}

-- A new item for this Case and these arguments: it is of the Case as it is, it is dead for a closed
-- Case and pending for an open one, it is due no earlier than it was asked for, and for an escalated
-- Case it waits for a signal, unless it is a recovery.
pub record IsNew (case : CaseRow) (w : NewWork) (item : CaseWorkItem) : Type 0 where
  pub of_case :
      (item.case_id ≡ case.case_id)
      × ((item.tenant_id ≡ case.tenant_id)
          × ((item.expected_case_status ≡ case.status)
              × (item.expected_case_revision ≡ case.updated_at)))
  pub asked :
      (item.work_type ≡ w.work_type)
      × ((item.reason_code ≡ w.reason) × (item.source_ref ≡ w.source_ref))
  pub status :
      item.status ≡ (if is_terminal case.status then WorkStatus.canceled else WorkStatus.pending)
  pub unclaimed : (item.claimed_by ≡ none) × (item.lease_until ≡ none)
  pub due : or_else w.not_before w.now ≤ item.not_before
  pub fenced :
      (case.status == CaseStatus.escalated
        && w.work_type != WorkType.recovery_recheck
        && is_none item.required_signal)
      ≡ false

timer_later : (rows : List WorkItemRow) (at : ℕ) → at ≤ latest_timer at rows
unfolding latest_timer
timer_later [] at = ground arith
timer_later (row ∷ rows) at =
    later_of at (row.payload.reason_code == WorkReason.wait_requested) row.payload.not_before _
      (timer_later rows _)
  where
    later_of :
        (at : ℕ) (b : Bool) (timer last : ℕ) → (if b then max at timer else at) ≤ last → at ≤ last
    later_of at true timer last h = ground arith
    later_of at false timer last h = h

due_later :
    (case : CaseRow) (w : NewWork) (db : Db) → or_else w.not_before w.now ≤ due_time case w db
unfolding due_time
due_later case w db =
    by_test (case.status == CaseStatus.waiting && w.work_type == WorkType.verification_required) _ _
      (timer_later
        (select (λ row. row.case_id == case.case_id && is_queued row.status) db.work_items)
        (or_else w.not_before w.now))
  where
    by_test : (b : Bool) (at last : ℕ) → at ≤ last → at ≤ (if b then last else at)
    by_test true at last h = h
    by_test false at last h = ground arith

signal_fences :
    (case : CaseRow) (w : NewWork)
    → (case.status == CaseStatus.escalated
        && w.work_type != WorkType.recovery_recheck
        && is_none (signal_for case w))
      ≡ false
unfolding signal_for
signal_fences case w = ground arith

new_item-IsNew :
    (env : Deployment) (case : CaseRow) (w : NewWork) (db : Db)
    → IsNew case w (new_item env case w (due_time case w db))
unfolding new_item
new_item-IsNew env case w db = record {
  of_case = (refl, (refl, (refl, refl)));
  asked = (refl, (refl, refl));
  status = refl;
  unclaimed = (refl, refl);
  due = due_later case w db;
  fenced = signal_fences case w;
}

-- What `_create_work` has done: an item of the same key is returned as it is and nothing is
-- written, or the new item is stored under its key.
pub data Created (env : Deployment) (case : CaseRow) (w : NewWork) (before after : Db)
    (item : CaseWorkItem) : Type 0 where
  reused :
      (old : WorkItemRow)
      → lookup (work_key env case w) before.work_items ≡ some old
      → item ≡ old.payload
      → after ≡ before
      → Created env case w before after item
  added :
      (not_before : ℕ)
      → lookup (work_key env case w) before.work_items ≡ none
      → item ≡ new_item env case w not_before
      → IsNew case w item
      → after.work_items ≡ insert (work_key env case w) (work_row item) before.work_items
      → lookup (work_key env case w) after.work_items ≡ some (work_row item)
      → Created env case w before after item

abbrev work_of : Db → List (ℕ × WorkItemRow)
work_of db = db.work_items

Frames-save_state : (s : _) → Frames work_of (save_state s)
unfolding save_state
Frames-save_state s = Frames-modify _ (λ db. refl)

Frames-state_in : (case : CaseRow) → Frames work_of (state_in case)
unfolding state_in
Frames-state_in case = search (frame_rules, Frames-save_state)

Frames-audit :
    (item : CaseWorkItem) (event : _) (now : ℕ) (before : Option WorkStatus) (worker : Option ℕ)
    → Frames work_of (audit item event now before worker)
unfolding audit
Frames-audit item event now before worker = Frames-modify _ (λ db. refl)

insert-same : {V : Type 0} (k : ℕ) (v : V) (t : List (ℕ × V)) → lookup k (insert k v t) ≡ some v
insert-same k v t = lookup-insert k k v t ∙ ground arith

add_work-Ensures :
    (env : Deployment) (case : CaseRow) (w : NewWork) (db : Db)
    → Ensures (add_work env case w) db (λ item d.
      (not_before : ℕ) × ((item ≡ new_item env case w not_before)
        × (IsNew case w item
            × ((d.work_items ≡ insert (work_key env case w) (work_row item) db.work_items)
                × (lookup (work_key env case w) d.work_items ≡ some (work_row item))))))
unfolding add_work save_work new_item
add_work-Ensures env case w db = Ensures-skip (Frames-state_in case) λ s db1 e1. Ensures-gets _ _ (
    Ensures-bind (
      modify-Ensures _ _ (
        Ensures-skip (Frames-save_state _) λ _ db2 e2.
          Ensures-skip (Frames-audit _ _ _ _ _) λ _ db3 e3. Ensures-pure (
            due_time case w db1,
            (
              refl,
              (
                new_item-IsNew env case w db1,
                (
                  cc (e3, e2, e1),
                  ap (lookup (work_key env case w)) (e3 ∙ e2) ∙ insert-same _ _ db1.work_items,
                ),
              ),
            ),
          ))))

-- There is one item per key: `_create_work` either returns the item that its key has, and writes
-- nothing, or stores a new one under its key and changes no other item. A new item is bound to the
-- Case and its revision; it is canceled for a closed Case and pending for any other, unclaimed, and
-- due no earlier than was asked for; and for an escalated Case it needs a signal, unless it is a
-- RECOVERY_RECHECK.
pub create_item-Created :
    (env : Deployment) (case : CaseRow) (w : NewWork) (db db' : Db) (item : CaseWorkItem)
    → create_item env case w db ≡ ok (item, db')
    → Created env case w db db' item
unfolding create_item
create_item-Created env case w db db' item h =
    let whole : Ensures (create_item env case w) db (λ i d. Created env case w db d i) =
      Ensures-gets _ _ (
        Ensures-if_found _ _ _ (λ row there. Ensures-pure (Created.reused row there refl refl))
          (λ missing. record {
            at = λ i d run.
                let (not_before, (is_new, (fits, (written, stored)))) =
                  (add_work-Ensures env case w db).at i d run in
                Created.added not_before missing is_new fits written stored;
          })) in
    whole.at item db' h

-- A row after an update of a table.
update-lookup :
    {V : Type 0} (p : V → Bool) (f : V → V) (k : ℕ) (t : List (ℕ × V)) (v : V)
    → lookup k (update_where p f t) ≡ some v
    → (old : V) × ((lookup k t ≡ some old) × (v ≡ (if p old then f old else old)))
unfolding lookup update_where
update-lookup p f k [] v h = absurd (cc h)
update-lookup p f k ((j, w) ∷ t) v h = elim (Bool-cases (j == k)) [
  | inl same ↦ (w, (cc (same), cc (same, h)))
  | inr other ↦
      let (old, (found, is)) = update-lookup p f k t v (cc (other, h)) in
      (old, (cc (other, found), is))
]

-- No item of the Case can still run, or wait for an operator.
abbrev pub is_live_work : WorkStatus → Bool
is_live_work status = is_active status || status == WorkStatus.blocked

canceled-dead :
    (case_id : ℕ) (row : WorkItemRow)
    → let now = if cancels case_id row then work_row (canceled row.payload) else row in
      now.case_id ≡ case_id → is_live_work now.status ≡ false
unfolding cancels canceled work_row is_active
canceled-dead case_id row same = ground arith

-- After `cancel_terminal_work` no item of the Case is pending, ready, claimed or blocked.
pub cancel_terminal_work-dead :
    (case_id now key : ℕ) (db db' : Db) (row : WorkItemRow)
    → cancel_terminal_work case_id now db ≡ ok (tt, db')
    → lookup key db'.work_items ≡ some row
    → row.case_id ≡ case_id
    → is_live_work row.status ≡ false
unfolding cancel_terminal_work modify
cancel_terminal_work-dead case_id now key db db' row h found same =
    let after : db'.work_items
        ≡ update_where (cancels case_id) (λ r. work_row (canceled r.payload)) db.work_items =
      cc in
    let (old, (there, is)) =
      update-lookup (cancels case_id) (λ r. work_row (canceled r.payload)) key db.work_items row
        (ap (lookup key) (sym after) ∙ found) in
    ap (λ r. is_live_work r.status) is
    ∙ canceled-dead case_id old (ap (λ r. r.case_id) (sym is) ∙ same)
