-- ===== src/Execution/Recovers.antt =====
-- What the resumption of a PREPARED effect sends, and the transactions of a lookup.
use credit_incident_resoluti.Prelude.{ℕ, ◌≡◌, refl, Bool, true, false, Option, some}
use credit_incident_resoluti.Domain.{EffectStatus, effect_status_eq}
use credit_incident_resoluti.Authorization.Models.{ExecutionCapability, SideEffectLedger}
use credit_incident_resoluti.Authorization.Ledger.{get_ledger}
use credit_incident_resoluti.Authorization.Untouched.{effects_of, Frames-case_row, Frames-existing}
use credit_incident_resoluti.Recovery.Models.{RecoveryClaim}
use credit_incident_resoluti.Recovery.Resume.{original_capability, own_attempt, prepared_case}
use credit_incident_resoluti.Recovery.Scan.{requires_escalation}
use credit_incident_resoluti.Recovery.Untouched.{Frames-persist_lookup, Frames-reconstruct_identity}
use credit_incident_resoluti.Database.{Deployment}
use credit_incident_resoluti.Database.Frame.{Frames, frame_rules}
use credit_incident_resoluti.Database.Transaction.{Result, Tx}
use credit_incident_resoluti.History.Steps.{Steps}
use credit_incident_resoluti.Execution.Process
use credit_incident_resoluti.Execution.Process.{◌>>=◌, Runtime, Service, World}
use credit_incident_resoluti.Execution.Sends.{
  bind-Executed, commit-Quiet, Executed, Fair, Quiet, reads-Step,
}
use credit_incident_resoluti.Execution.Once.{dispatches-Executed}
use credit_incident_resoluti.Execution.Recover

-- A dispatch under this very claim, which is of an effect that was PREPARED.
pub record Resumes (c : RecoveryClaim) (given : Option RecoveryClaim) : Type 0 where
  pub under_claim : given ≡ some c
  pub was_prepared : c.source_status ≡ EffectStatus.prepared

pub Frames-get_ledger :
    (env : Deployment) (effect_id : ℕ) → Frames effects_of (get_ledger env effect_id)
unfolding get_ledger
Frames-get_ledger env effect_id = search (frame_rules, Frames-case_row) depth 8

pub Frames-requires_escalation :
    (env : Deployment) (effect_id : ℕ) → Frames effects_of (requires_escalation env effect_id)
unfolding requires_escalation
Frames-requires_escalation env effect_id = search (frame_rules, Frames-get_ledger) depth 8

pub Frames-own_attempt :
    (env : Deployment) (c : RecoveryClaim) → Frames effects_of (own_attempt env c)
unfolding own_attempt
Frames-own_attempt env c = search (frame_rules, Frames-get_ledger) depth 10

Frames-original_capability :
    (cap : ExecutionCapability) → Frames effects_of (original_capability cap)
unfolding original_capability
Frames-original_capability cap = search frame_rules depth 6

Frames-prepared_case :
    (env : Deployment) (ledger : SideEffectLedger) (cap : ExecutionCapability) (case_id : ℕ)
    → Frames effects_of (prepared_case env ledger cap case_id)
unfolding prepared_case
Frames-prepared_case env ledger cap case_id = search (frame_rules, Frames-case_row) depth 8

pub nothing : {env : Deployment} (w : World) → Quiet env w w
nothing w = record { steps = Steps.start; silent = refl }

-- A transaction that does not write the ledger sends nothing.
pub reads-Quiet :
    {A : Type 0} (rt : Runtime) (m : ℕ → Tx A) (w : World)
    → Fair rt
    → ((n : ℕ) → Frames effects_of (m n))
    → Quiet rt.env w (Process.commit rt m w).1
reads-Quiet rt m w fair frames = commit-Quiet rt m w fair (λ n. reads-Step (frames n))

module _ (rt : Runtime) (fair : Fair rt) where
  -- First a transaction that reads, then the rest.
  pub read_first :
      {A B : Type 0} {P : Option RecoveryClaim → Type 0} (m : ℕ → Tx A) (k : A → Service B)
      (w : World)
      → ((n : ℕ) → Frames effects_of (m n))
      → ((a : A) (w' : World) → Executed rt.env P w' (k a w').1)
      → Executed rt.env P w ((Process.commit rt m >>= k) w).1
  read_first m k w frames rest =
      bind-Executed (Process.commit rt m) k w (reads-Quiet rt m w fair frames) rest

  -- First a computation without transactions, then the rest.
  answer_first :
      {A B : Type 0} {P : Option RecoveryClaim → Type 0} (r : World → Result A) (k : A → Service B)
      (w : World)
      → ((a : A) (w' : World) → Executed rt.env P w' (k a w').1)
      → Executed rt.env P w (((λ w. (r w, w)) >>= k) w).1
  answer_first r k w rest = bind-Executed (λ w. (r w, w)) k w (nothing w) rest

  pub stale_if-Executed :
      {B : Type 0} {P : Option RecoveryClaim → Type 0} (b : Bool) (k : Unit → Service B) (w : World)
      → ((w' : World) → Executed rt.env P w' (k tt w').1)
      → Executed rt.env P w ((Recover.stale_if b >>= k) w).1
  unfolding Recover.stale_if Process.raise Process.pure
  stale_if-Executed true k w rest = bind-Executed _ k w (nothing w) (λ _ w'. rest w')
  stale_if-Executed false k w rest = bind-Executed _ k w (nothing w) (λ _ w'. rest w')

  invalid_if-Executed :
      {B : Type 0} {P : Option RecoveryClaim → Type 0} (b : Bool) (k : Unit → Service B) (w : World)
      → ((w' : World) → Executed rt.env P w' (k tt w').1)
      → Executed rt.env P w ((Recover.invalid_if b >>= k) w).1
  unfolding Recover.invalid_if Process.raise Process.pure
  invalid_if-Executed true k w rest = bind-Executed _ k w (nothing w) (λ _ w'. rest w')
  invalid_if-Executed false k w rest = bind-Executed _ k w (nothing w) (λ _ w'. rest w')

  pub capture-Executed :
      {P : Option RecoveryClaim → Type 0} (c : RecoveryClaim) (w : World)
      → Executed rt.env P w (Recover.capture rt c w).1
  unfolding Recover.capture Process.answer
  capture-Executed c w = invalid_if-Executed _ _ w λ w1.
      read_first _ _ w1 (λ n. Frames-get_ledger rt.env c.effect_id)
        λ ledger w2. stale_if-Executed _ _ w2 λ w3.
          read_first _ _ w3 (λ n. Frames-reconstruct_identity rt.env ledger)
            λ identity w4. answer_first _ _ w4 λ result w5. Executed.quiet (
              reads-Quiet rt _ w5 fair
                (λ n. Frames-persist_lookup rt.env c identity.0 result (rt.clock n)))

  pub resume-Executed :
      (c : RecoveryClaim) (w : World)
      → c.source_status ≡ EffectStatus.prepared
      → Executed rt.env (Resumes c) w (Recover.resume rt c w).1
  unfolding Recover.resume Recover.resume_dispatch Process.answer
  resume-Executed c w was_prepared =
      read_first _ _ w (λ n. Frames-get_ledger rt.env c.effect_id)
        λ ledger w1. stale_if-Executed _ _ w1 λ w2.
          read_first _ _ w2 (λ n. Frames-reconstruct_identity rt.env ledger)
            λ bound w3.
              read_first _ _ w3 (λ n. Frames-original_capability bound.1)
                λ signature w4. answer_first _ _ w4 λ cap w5.
                  read_first _ _ w5 (λ n. Frames-existing rt.env bound.1 (rt.clock n))
                    λ old w6.
                      read_first _ _ w6
                        (λ n. fair.verify _ bound.2 (Frames-prepared_case rt.env ledger bound.1))
                        λ fresh w7. answer_first _ _ w7 λ command w8.
                          dispatches-Executed rt bound.1 (some c) command (Resumes c) w8 fair
                            (record { under_claim = refl; was_prepared = was_prepared })
