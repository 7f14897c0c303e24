-- ===== src/Execution/Process.antt =====
-- A service call: transactions of one worker, with the transactions of all other workers before each
-- of them, and calls of the remote adapter in between. A transaction that raises leaves the tables
-- as the others left them.
use credit_incident_resoluti.Prelude.{ℕ, ◌+◌, List, ◌∷◌, Option, Bool}
use credit_incident_resoluti.Authorization.Models.{
  DomainCommand, ExecutionCapability, RemediationIntent, SideEffectReceipt,
}
use credit_incident_resoluti.Cases.Models.{CaseRow}
use credit_incident_resoluti.Recovery.Models.{
  EffectIdentity, RecoveryCapability, SideEffectLookupResult,
}
use credit_incident_resoluti.Database.{Db, Deployment}
use credit_incident_resoluti.Database.Transaction.{err, Error, ok, Result, run, Tx}

-- What the adapter's call came to: a receipt; a ValueError, TypeError, AttributeError or
-- ValidationError; or any other exception.
pub data Reply : Type 0 where
  received : SideEffectReceipt → Reply
  malformed interrupted : Reply

pub record SignedExecutionCapability : Type 0 where
  pub payload : ExecutionCapability
  pub signature : ℕ

-- The collaborators of a service. `others n` is what the other workers commit before the worker's
-- n-th transaction; the clocks and the uuids are read by the same number. `authenticate` is the
-- signer's check. `verify` is FreshIntentVerifier.verify over a reader of Cases, with the revision of
-- the Case that it read. `resolver` answers a lookup or raises, and `has_resumer` says whether the
-- coordinator was given a PreparedEffectResumer.
pub record Runtime : Type 0 where
  pub env : Deployment
  pub worker_id : ℕ
  pub others : ℕ → Db → Db
  pub clock : ℕ → ℕ
  pub wall : ℕ → ℕ
  pub fresh_id : ℕ → ℕ
  pub authenticate : SignedExecutionCapability → Result ExecutionCapability
  pub verify : (ℕ → Tx CaseRow) → RemediationIntent → Tx (RemediationIntent × ℕ)
  pub adapter : Option DomainCommand → ℕ → Reply
  pub resolver_capability : RecoveryCapability
  pub resolver : ℕ → EffectIdentity → Result SideEffectLookupResult
  pub has_resumer : Bool

-- A call of the adapter.
pub record Call : Type 0 where
  pub command : Option DomainCommand
  pub correlation_id : ℕ

pub record World : Type 0 where
  pub db : Db
  pub turn : ℕ
  pub calls : List Call

abbrev pub Service : Type 0 → Type 0
Service A = World → Result A × World

-- The tables after the other workers' transactions.
unfoldable pub arrive : Runtime → World → Db
arrive rt w = rt.others w.turn w.db

module _ {A : Type 0} where
  unfoldable pub pure : A → Service A
  pure a w = (ok a, w)

  -- A computation on values that may raise.
  unfoldable pub answer : Result A → Service A
  answer r w = (r, w)

  unfoldable pub raise : Error → Service A
  raise e w = (err e, w)

  -- One transaction, given its number.
  unfoldable pub commit : Runtime → (ℕ → Tx A) → Service A
  unfolding arrive
  commit rt m w =
      let (result, db) = run (m w.turn) (arrive rt w) in
      (result, record w { db = db; turn = w.turn + 1 })

  -- `try: s; except …: handler`, for the exceptions that the handler knows.
  unfoldable pub attempt : {B : Type 0} → Service A → (Result A → Service B) → Service B
  attempt s handler w = let (result, w') = s w in handler result w'

infixl 5 ◌>>=◌ ◌>>◌
unfoldable pub ◌>>=◌ : {A B : Type 0} → Service A → (A → Service B) → Service B
◌>>=◌ s k w = let (result, w') = s w in elim result [ ok a ↦ k a w' | err e ↦ (err e, w') ]

abbrev pub ◌>>◌ : {A B : Type 0} → Service A → Service B → Service B
s >> k = s >>= λ _. k

-- The call is made, whatever comes of it.
unfoldable pub dispatch : Runtime → Option DomainCommand → ℕ → Service Reply
dispatch rt command correlation w = (
  ok (rt.adapter command correlation),
  record w { calls = record { command = command; correlation_id = correlation } ∷ w.calls },
)
