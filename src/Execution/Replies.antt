-- ===== src/Execution/Replies.antt =====
-- What the tail of a dispatch makes of every reply.
use credit_incident_resoluti.Prelude.{
  ℕ, ◌≡◌, ◌==◌, arith, Bool, false, nat_eq, none, Option, refl, some, true,
}
use credit_incident_resoluti.Domain.{EffectStatus, effect_status_eq}
use credit_incident_resoluti.Authorization.Models.{
  FailureCode, ReceiptOutcome, SideEffectLedger, SideEffectReceipt,
}
use credit_incident_resoluti.Authorization.Ledger.{may_follow, outcome_status, unproven}
use credit_incident_resoluti.Execution.Process.{Reply}
use credit_incident_resoluti.Execution.Service.{is_consistent, Settlement, settlement}

-- What an adapter's answer says of a failure.
unfoldable pub reported : ReceiptOutcome → Option FailureCode
reported ReceiptOutcome.failed_confirmed = some FailureCode.remote_rejected
reported ReceiptOutcome.accepted = none
reported ReceiptOutcome.applied = none

-- A confirmed failure says that there was no effect, and no other outcome says so.
unfoldable pub denies : ReceiptOutcome → Bool
denies ReceiptOutcome.failed_confirmed = true
denies ReceiptOutcome.accepted = false
denies ReceiptOutcome.applied = false

-- The receipt is of this very dispatch, and its two statements on the effect agree.
unfoldable pub Binding : SideEffectLedger → SideEffectReceipt → Type 0
Binding ledger receipt =
    (receipt.no_effect_confirmed ≡ denies receipt.outcome)
    × (receipt.correlation_id ≡ ledger.dispatch_correlation_id)

abbrev left_open : FailureCode → Settlement
left_open failure = record { status = EffectStatus.unknown; receipt = none; failure = some failure }

abbrev settled_by : SideEffectReceipt → Settlement
settled_by receipt = record {
  status = outcome_status receipt.outcome;
  receipt = some receipt;
  failure = reported receipt.outcome;
}

-- How each reply is concluded.
pub data Concluded (ledger : SideEffectLedger) (reply : Reply) (s : Settlement) : Type 0 where
  lost :
      reply ≡ Reply.interrupted
      → s ≡ left_open FailureCode.transport_uncertain
      → Concluded ledger reply s
  invalid :
      reply ≡ Reply.malformed → s ≡ left_open FailureCode.invalid_receipt → Concluded ledger reply s
  refused :
      (receipt : SideEffectReceipt)
      → reply ≡ Reply.received receipt
      → ¬ Binding ledger receipt
      → s ≡ left_open FailureCode.invalid_receipt
      → Concluded ledger reply s
  proved :
      (receipt : SideEffectReceipt)
      → reply ≡ Reply.received receipt
      → Binding ledger receipt
      → s ≡ settled_by receipt
      → Concluded ledger reply s

consistent :
    (receipt : SideEffectReceipt)
    → is_consistent receipt ≡ true
    → receipt.no_effect_confirmed ≡ denies receipt.outcome
unfolding is_consistent denies
consistent receipt h = ground arith

inconsistent :
    (receipt : SideEffectReceipt)
    → is_consistent receipt ≡ false
    → ¬ (receipt.no_effect_confirmed ≡ denies receipt.outcome)
unfolding is_consistent denies
inconsistent receipt h e = ground arith

foreign : (a b : ℕ) → (a == b) ≡ false → ¬ (a ≡ b)
foreign a b h e = ground arith

conclude :
    (ledger : SideEffectLedger) (receipt : SideEffectReceipt) (right same : Bool)
    → is_consistent receipt ≡ right
    → (receipt.correlation_id == ledger.dispatch_correlation_id) ≡ same
    → Concluded ledger (Reply.received receipt) (settlement ledger (Reply.received receipt))
unfolding settlement Binding reported
conclude ledger receipt false same h e =
    Concluded.refused receipt refl (λ b. inconsistent receipt h b.0) (ground arith)
conclude ledger receipt true false h e =
    Concluded.refused receipt refl (λ b. foreign _ _ e b.1) (ground arith)
conclude ledger receipt true true h e =
    Concluded.proved receipt refl (consistent receipt h, ground arith) (ground arith)

concluded :
    (ledger : SideEffectLedger) (reply : Reply) → Concluded ledger reply (settlement ledger reply)
unfolding settlement
concluded ledger (Reply.received receipt) = conclude ledger receipt _ _ refl refl
concluded ledger Reply.malformed = Concluded.invalid refl refl
concluded ledger Reply.interrupted = Concluded.lost refl refl

unknown_follows : may_follow EffectStatus.dispatched EffectStatus.unknown ≡ true
unfolding may_follow
unknown_follows = refl

unknown_is_proven :
    (receipt : Option SideEffectReceipt) → unproven EffectStatus.unknown receipt ≡ false
unfolding unproven
unknown_is_proven receipt = refl

outcome_follows :
    (outcome : ReceiptOutcome) → may_follow EffectStatus.dispatched (outcome_status outcome) ≡ true
unfolding may_follow outcome_status
outcome_follows outcome = ground arith

outcome_is_proven :
    (receipt : SideEffectReceipt) → unproven (outcome_status receipt.outcome) (some receipt) ≡ false
unfolding unproven outcome_status
outcome_is_proven receipt = ground arith

open_follows :
    (s : Settlement) (failure : FailureCode)
    → s ≡ left_open failure
    → (may_follow EffectStatus.dispatched s.status ≡ true) × (unproven s.status s.receipt ≡ false)
open_follows s failure is = (cc (unknown_follows, is), cc (unknown_is_proven none, is))

admissible :
    (ledger : SideEffectLedger) (reply : Reply) (s : Settlement)
    → Concluded ledger reply s
    → (may_follow EffectStatus.dispatched s.status ≡ true) × (unproven s.status s.receipt ≡ false)
admissible ledger reply s (Concluded.lost replied is) = open_follows s _ is
admissible ledger reply s (Concluded.invalid replied is) = open_follows s _ is
admissible ledger reply s (Concluded.refused r replied foreign is) = open_follows s _ is
admissible ledger reply s (Concluded.proved r replied binding is) =
    (cc (outcome_follows r.outcome, is), cc (outcome_is_proven r, is))

-- Whatever the adapter does, its reply is concluded in one of four ways. An exception of the
-- transport leaves the effect UNKNOWN with TRANSPORT_UNCERTAIN, and a malformed receipt leaves it
-- UNKNOWN with INVALID_RECEIPT, as does a receipt of another dispatch or one that contradicts itself
-- on whether there was an effect. Any other receipt settles it: the status is the outcome of the
-- receipt, the receipt is kept, and the failure is REMOTE_REJECTED exactly for a confirmed failure.
-- The transition out of DISPATCHED admits every such status with its receipt.
pub settlement-Concluded :
    (ledger : SideEffectLedger) (reply : Reply)
    → Concluded ledger reply (settlement ledger reply)
      × ((may_follow EffectStatus.dispatched (settlement ledger reply).status ≡ true)
          × (unproven (settlement ledger reply).status (settlement ledger reply).receipt ≡ false))
settlement-Concluded ledger reply =
    (concluded ledger reply, admissible ledger reply _ (concluded ledger reply))
