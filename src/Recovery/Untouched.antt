-- ===== src/Recovery/Untouched.antt =====
-- The recovery transactions that leave the side-effect ledger as it is.
use credit_incident_resoluti.Prelude.{ℕ, Bool, Option, none, some, refl}
use credit_incident_resoluti.Domain.{ActionType}
use credit_incident_resoluti.Authorization.Models.{
  ExecutionCapability, RemediationIntent, SideEffectLedger,
}
use credit_incident_resoluti.Authorization.Commands.{
  build, command_for, for_intent, payload_hash, redeliver_command, replay_command,
}
use credit_incident_resoluti.Authorization.Untouched.{
  effects_of, Frames-get_intent, Frames-lock_for_authorization, Frames-save_recovery_state,
}
use credit_incident_resoluti.Recovery.Models.{
  Attempt, EffectIdentity, RecoveryAuditEvent, RecoveryCapability, RecoveryClaim, RecoveryFailure,
  RecoveryProof, RecoveryState, SideEffectLookupResult,
}
use credit_incident_resoluti.Recovery.Proof.{reconstruct_identity, validate_lookup}
use credit_incident_resoluti.Recovery.Lease.{
  abandon, abandon_previous, add_attempt, audit, claim, locked, owned, save_attempt, take_lease,
}
use credit_incident_resoluti.Recovery.Settle.{finish, finish_resume, persist_lookup}
use credit_incident_resoluti.Database.{Deployment}
use credit_incident_resoluti.Database.Frame.{Frames, Frames-modify, frame_rules}

pub Frames-locked : (env : Deployment) (effect_id : ℕ) → Frames effects_of (locked env effect_id)
unfolding locked
Frames-locked env effect_id = search (frame_rules, Frames-lock_for_authorization) depth 12

pub Frames-audit :
    (ledger : SideEffectLedger) (c : RecoveryClaim) (event : RecoveryAuditEvent) (now : ℕ)
    (proof : Option RecoveryProof) (failure : Option RecoveryFailure)
    → Frames effects_of (audit ledger c event now proof failure)
unfolding audit
Frames-audit ledger c event now proof failure = Frames-modify _ (λ db. refl)

pub Frames-save_attempt : (attempt : Attempt) → Frames effects_of (save_attempt attempt)
unfolding save_attempt
Frames-save_attempt attempt = Frames-modify _ (λ db. refl)

Frames-abandon : (attempt : Option Attempt) (now : ℕ) → Frames effects_of (abandon attempt now)
unfolding abandon
Frames-abandon (some attempt) now = search (frame_rules, Frames-save_attempt)
Frames-abandon none now = search frame_rules

Frames-abandon_previous :
    (state : RecoveryState) (now : ℕ) → Frames effects_of (abandon_previous state now)
unfolding abandon_previous
Frames-abandon_previous state now = search (frame_rules, Frames-abandon) depth 8

Frames-add_attempt : (attempt : Attempt) → Frames effects_of (add_attempt attempt)
unfolding add_attempt
Frames-add_attempt attempt = search (frame_rules, Frames-save_attempt) depth 12

Frames-take_lease :
    (env : Deployment) (ledger : SideEffectLedger) (state : RecoveryState) (c : RecoveryClaim)
    (now : ℕ)
    → Frames effects_of (take_lease env ledger state c now)
unfolding take_lease
Frames-take_lease env ledger state c now =
    search
      (
        frame_rules, Frames-abandon_previous, Frames-add_attempt, Frames-save_recovery_state,
        Frames-audit,
      )
      depth 12

pub Frames-claim :
    (env : Deployment) (effect worker now recovery_id : ℕ)
    → Frames effects_of (claim env effect worker now recovery_id)
unfolding claim
Frames-claim env effect worker now recovery_id =
    search (frame_rules, Frames-locked, Frames-take_lease, Frames-save_recovery_state) depth 12

pub Frames-owned :
    (c : RecoveryClaim) (state : RecoveryState) (now : ℕ) → Frames effects_of (owned c state now)
unfolding owned
Frames-owned c state now = search frame_rules depth 10

pub Frames-validate_lookup :
    (env : Deployment) (ledger : SideEffectLedger) (identity : EffectIdentity)
    (result : SideEffectLookupResult) (contract : RecoveryCapability) (now : ℕ)
    → Frames effects_of (validate_lookup env ledger identity result contract now)
unfolding validate_lookup
Frames-validate_lookup env ledger identity result contract now = search frame_rules depth 14

Frames-replay_command :
    (env : Deployment) (intent : RemediationIntent) (message callback : Option ℕ)
    → Frames effects_of (replay_command env intent message callback)
unfolding replay_command
Frames-replay_command env intent (some m) (some c) = search frame_rules
Frames-replay_command env intent (some m) none = search frame_rules
Frames-replay_command env intent none c = search frame_rules

Frames-redeliver_command :
    (env : Deployment) (intent : RemediationIntent) (delivery : Option ℕ)
    → Frames effects_of (redeliver_command env intent delivery)
unfolding redeliver_command
Frames-redeliver_command env intent (some d) = search frame_rules
Frames-redeliver_command env intent none = search frame_rules

Frames-command_for :
    (env : Deployment) (intent : RemediationIntent) (action : ActionType)
    → Frames effects_of (command_for env intent action)
unfolding command_for
Frames-command_for env intent ActionType.no_remediation = search frame_rules
Frames-command_for env intent ActionType.replay_callback_consumption =
    Frames-replay_command env intent _ _
Frames-command_for env intent ActionType.redeliver_asset_notification =
    Frames-redeliver_command env intent _
Frames-command_for env intent ActionType.create_reconciliation_task = search frame_rules
Frames-command_for env intent ActionType.request_operator_review = search frame_rules

Frames-for_intent :
    (env : Deployment) (intent : RemediationIntent) → Frames effects_of (for_intent env intent)
unfolding for_intent
Frames-for_intent env intent = Frames-command_for env intent intent.action_type

Frames-build :
    (env : Deployment) (intent : RemediationIntent) (capability : ExecutionCapability)
    → Frames effects_of (build env intent capability)
unfolding build payload_hash
Frames-build env intent capability = search (frame_rules, Frames-for_intent) depth 12

pub Frames-reconstruct_identity :
    (env : Deployment) (ledger : SideEffectLedger)
    → Frames effects_of (reconstruct_identity env ledger)
unfolding reconstruct_identity
Frames-reconstruct_identity env ledger =
    search (frame_rules, Frames-get_intent, Frames-build) depth 20

pub Frames-persist_lookup :
    (env : Deployment) (c : RecoveryClaim) (identity : EffectIdentity)
    (result : SideEffectLookupResult) (now : ℕ)
    → Frames effects_of (persist_lookup env c identity result now)
unfolding persist_lookup
Frames-persist_lookup env c identity result now =
    search
      (
        frame_rules, Frames-locked, Frames-owned, Frames-validate_lookup, Frames-save_attempt,
        Frames-audit,
      )
      depth 16

pub Frames-finish :
    (env : Deployment) (ledger : SideEffectLedger) (attempt : Attempt) (c : RecoveryClaim) (now : ℕ)
    (failure : Option RecoveryFailure) (proof : Option RecoveryProof) (escalate : Bool)
    → Frames effects_of (finish env ledger attempt c now failure proof escalate)
unfolding finish
Frames-finish env ledger attempt c now failure proof escalate =
    search (frame_rules, Frames-save_attempt, Frames-save_recovery_state, Frames-audit) depth 16

pub Frames-finish_resume :
    (env : Deployment) (c : RecoveryClaim) (now : ℕ) → Frames effects_of (finish_resume env c now)
unfolding finish_resume
Frames-finish_resume env c now =
    search (frame_rules, Frames-locked, Frames-owned, Frames-finish) depth 10
