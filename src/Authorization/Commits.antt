-- ===== src/Authorization/Commits.antt =====
-- What a committed ledger transaction has done to the ledger.
use credit_incident_resoluti.Prelude.{
  ℕ, true, false, Option, none, some, inl, inr, ◌⊎◌, not, ◌==◌, if◌then◌else◌, ◌≡◌, refl, ap,
  lookup, insert, arith,
}
use credit_incident_resoluti.Domain.{ActionType, action_type_eq, EffectStatus, effect_status_eq}
use credit_incident_resoluti.Cases.Models.{CaseRow}
use credit_incident_resoluti.Authorization.Models.{
  EffectRow, ExecutionCapability, SideEffectLedger, SideEffectReceipt, FailureCode,
}
use credit_incident_resoluti.Authorization.Ledger.{
  add_effect, bump_revision, new_ledger, prepare, transition, transitioned, may_follow, check_lease,
  dispatch_prepared, dispatched, save_effect, used_effect,
}
use credit_incident_resoluti.Authorization.Untouched.{
  effects_of, Frames-synchronize_effect, Frames-audit, Frames-lock_for_authorization,
  Frames-require_open, Frames-check_capability, Frames-existing_effect, Frames-save_capability,
  Frames-get_intent, Frames-save_case,
}
use credit_incident_resoluti.Authorization.Lifecycle.{
  Adds, is_outcome, attempts_after, bindings, may_become, Moves,
}
use credit_incident_resoluti.Recovery.Models.{RecoveryClaim}
use credit_incident_resoluti.Database.{Db, Deployment}
use credit_incident_resoluti.Database.Frame.{Frames, frame_rules}
use credit_incident_resoluti.Database.Ensures.{
  Ensures, Ensures-skip, Ensures-gets, Ensures-guard, Ensures-or_raise, Ensures-modify,
  Ensures-pure, Ensures-bind, Ensures-if_found, modify-Ensures,
}

Frames-check_lease :
    (ledger : SideEffectLedger) (now : ℕ) (claim : Option RecoveryClaim)
    → Frames effects_of (check_lease ledger now claim)
unfolding check_lease
Frames-check_lease ledger now none = search frame_rules
Frames-check_lease ledger now (some c) = search frame_rules depth 8

used_effect-found :
    (used : Option ℕ) (db : Db) (row : EffectRow)
    → used_effect used db ≡ some row
    → (key : ℕ) × (lookup key db.effects ≡ some row)
unfolding used_effect
used_effect-found none db row h = absurd (cc h)
used_effect-found (some key) db row h = (key, h)

pub dispatch_commits :
    (env : Deployment) (cap' : ExecutionCapability) (now : ℕ) (claim : Option RecoveryClaim)
    (db : Db)
    → Ensures (dispatch_prepared env cap' now claim) db (λ ledger db'.
      Moves db.effects db'.effects ledger × (ledger.status ≡ EffectStatus.dispatched))
unfolding dispatch_prepared save_effect dispatched may_become bindings attempts_after
dispatch_commits env cap' now claim db =
    Ensures-skip (Frames-lock_for_authorization env _) λ case db1 e1.
      Ensures-skip (Frames-require_open case) λ _ db2 e2.
        Ensures-skip (Frames-check_capability env cap' now) λ checked db3 e3. Ensures-gets _ _ (
          Ensures-or_raise _ _ _ λ row found. Ensures-guard _ _ _ λ same.
            Ensures-skip (Frames-check_lease row.payload now claim) λ _ db4 e4.
              Ensures-guard _ _ _ λ fresh. Ensures-guard _ _ _ λ prepared. Ensures-modify _ _ (
                Ensures-skip (Frames-synchronize_effect env _) λ _ db5 e5.
                  Ensures-skip (Frames-audit _) λ _ db6 e6.
                    let was : row.status ≡ EffectStatus.prepared = ground arith in
                    let (key, at) = used_effect-found _ _ _ found in
                    Ensures-pure (
                      record {
                        key = key;
                        row = row;
                        found = cc;
                        allowed = cc (ap (λ s. may_become s EffectStatus.dispatched) was);
                        same = refl;
                        attempts = cc (ap (λ s. attempts_after s row.payload.attempt_count) was);
                        written = cc;
                      },
                      refl,
                    )))

add_effect-Ensures :
    (row : EffectRow) (db : Db)
    → Ensures (add_effect row) db (λ _ db'.
      (lookup row.effect_id db.effects ≡ none)
      × (db'.effects ≡ insert row.effect_id row db.effects))
unfolding add_effect save_effect
add_effect-Ensures row db = Ensures-gets _ _ (
    Ensures-guard _ _ _ λ same.
      Ensures-gets _ _ (Ensures-guard _ _ _ λ clash. modify-Ensures _ _ (ground arith, refl)))

Frames-bump_revision :
    (cap' : ExecutionCapability) (case : CaseRow) (revision : ℕ)
    → Frames effects_of (bump_revision cap' case revision)
unfolding bump_revision
Frames-bump_revision cap' case revision = search (frame_rules, Frames-save_case)

first_status :
    (action : ActionType)
    → let status =
        if action == ActionType.no_remediation then EffectStatus.noop else EffectStatus.prepared in
      (status ≡ EffectStatus.prepared) ⊎ (status ≡ EffectStatus.noop)
first_status action = ground arith

pub prepare_commits :
    (env : Deployment) (cap' : ExecutionCapability) (now wall correlation : ℕ) (db : Db)
    → Ensures
        (prepare env cap' now wall correlation)
        db
        (λ answer db'. (db'.effects ≡ db.effects) ⊎ Adds db.effects db'.effects answer.0)
unfolding prepare new_ledger
prepare_commits env cap' now wall correlation db =
    Ensures-skip (Frames-lock_for_authorization env _) λ case db1 e1.
      Ensures-skip (Frames-require_open case) λ _ db2 e2.
        Ensures-skip (Frames-check_capability env cap' now) λ checked db3 e3.
          Ensures-skip (Frames-existing_effect cap' checked.0 _) λ old db4 e4.
            Ensures-if_found old _ _ (λ ledger replay. Ensures-pure (inl cc))
              λ fresh. Ensures-skip (Frames-bump_revision cap' case _) λ _ db5 e5.
                Ensures-bind (record {
                  at = λ _ db6 run6.
                      let (missing, e6) = (add_effect-Ensures _ _).at _ _ run6 in
                      Ensures-skip (Frames-save_capability _) λ _ db7 e7.
                        Ensures-skip (Frames-synchronize_effect env _) λ _ db8 e8.
                          Ensures-skip (Frames-audit _) λ _ db9 e9. Ensures-pure (
                            inr (record {
                              missing = cc;
                              one_key = refl;
                              unsent = refl;
                              starts = first_status cap'.action_type;
                              written = cc;
                            }));
                })

-- An entry of TRANSITIONS is a step of the life of an effect that sends nothing.
may_follow-allowed :
    (from to : EffectStatus) (attempts : ℕ)
    → not (may_follow from to) ≡ false
    → (may_become from to ≡ true)
      × (attempts_after from attempts ≡ attempts)
      × ((if to == EffectStatus.dispatched then 1 else attempts) ≡ attempts)
unfolding may_follow may_become attempts_after is_outcome
may_follow-allowed from to attempts h = ground arith

pub transition_commits :
    (env : Deployment) (effect_id : ℕ) (expected status : EffectStatus) (now : ℕ)
    (receipt : Option SideEffectReceipt) (failure : Option FailureCode) (db : Db)
    → Ensures
        (transition env effect_id expected status now receipt failure)
        db
        (λ ledger db'. Moves db.effects db'.effects ledger × (ledger.status ≡ status))
unfolding transition save_effect transitioned bindings
transition_commits env effect_id expected status now receipt failure db =
    Ensures-guard _ _ _ λ allowed. Ensures-guard _ _ _ λ proven. Ensures-gets _ _ (
      Ensures-or_raise _ _ _ λ row found.
        Ensures-skip (Frames-lock_for_authorization env _) λ case db1 e1.
          Ensures-guard _ _ _ λ matching. Ensures-guard _ _ _ λ as_expected. Ensures-modify _ _ (
            Ensures-skip (Frames-synchronize_effect env _) λ _ db2 e2.
              Ensures-skip (Frames-get_intent env _) λ intent db3 e3.
                Ensures-skip (Frames-audit _) λ _ db4 e4.
                  let was : row.status ≡ expected = ground arith in
                  let (may_be, unsent, kept) =
                    may_follow-allowed expected status row.payload.attempt_count allowed in
                  Ensures-pure (
                    record {
                      key = effect_id;
                      row = row;
                      found = cc;
                      allowed = cc (ap (λ s. may_become s status) was);
                      same = refl;
                      attempts = cc (ap (λ s. attempts_after s row.payload.attempt_count) was);
                      written = cc;
                    },
                    refl,
                  )))
