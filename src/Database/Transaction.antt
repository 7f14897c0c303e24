-- ===== src/Database/Transaction.antt =====
-- A transaction: it reads and writes the tables, and commits or raises. A raise carries no tables,
-- since `session.begin()` rolls back.
use credit_incident_resoluti.Prelude.{
  ℕ, ◌*◌, ◌≡◌, ◌⊎◌, inl, inr, Bool, true, false, Option, none, some,
}
use credit_incident_resoluti.Authorization.Models.{AuthorizationCode}
use credit_incident_resoluti.Recovery.Models.{RecoveryFailure}
use credit_incident_resoluti.Database.Schema.{Db}

-- The exceptions that the modelled code raises. `missing_row` is the AttributeError of a read
-- through a row that `session.get` did not find, `integrity` SQLAlchemy's IntegrityError, and
-- `transport_error` any exception of a remote call that has no name here.
pub data Error : Type 0 where
  authorization : AuthorizationCode → Error
  recovery : RecoveryFailure → Error
  orchestration case_unavailable case_policy precondition_failed : Error
  integrity missing_row key_error value_error : Error
  timeout_error transport_error stop_iteration : Error

pub data Result {ℓ} (A : Type ℓ) : Type ℓ where
  ok : A → Result A
  err : Error → Result A

abbrev pub Tx : Type 0 → Type 0
Tx A = Db → Result (A × Db)

module _ {A : Type 0} where
  abbrev pub pure : A → Tx A
  pure a db = ok (a, db)

  abbrev pub raise : Error → Tx A
  raise e db = err e

  unfoldable pub gets : (Db → A) → Tx A
  gets f db = ok (f db, db)

  unfoldable pub or_raise : Option A → Error → Tx A
  or_raise none e = raise e
  or_raise (some a) e = pure a

infixl 5 ◌>>=◌ ◌>>◌
unfoldable pub ◌>>=◌ : {A B : Type 0} → Tx A → (A → Tx B) → Tx B
◌>>=◌ m f db = elim (m db) [ ok (a, db') ↦ f a db' | err e ↦ err e ]

abbrev pub ◌>>◌ : {A B : Type 0} → Tx A → Tx B → Tx B
m >> k = m >>= λ _. k

unfoldable pub raise_if : Bool → Error → Tx (Unit {0})
raise_if true e = raise e
raise_if false e = pure tt

unfoldable pub modify : (Db → Db) → Tx (Unit {0})
modify f db = ok (tt, f db)

-- `if c: m else: k`, as transactions: only the chosen one runs.
unfoldable pub branch : {A : Type 0} → Bool → Tx A → Tx A → Tx A
branch true m k = m
branch false m k = k

-- A row that may be missing: what to do with it, and without it.
unfoldable pub if_found : {A B : Type 0} → Option A → (A → Tx B) → Tx B → Tx B
if_found none k m = m
if_found (some a) k m = k a

caught : {A : Type 0} → Result A → (Error → Result A) → Result A
caught (ok r) handler = ok r
caught (err e) handler = handler e

handled : {A : Type 0} → (AuthorizationCode → Tx A) → Error → Tx A
handled handler (authorization code) = handler code
handled handler e = raise e

-- `try: m; except AuthorizationError: handler`
unfoldable pub on_authorization_error : {A : Type 0} → Tx A → (AuthorizationCode → Tx A) → Tx A
unfolding caught handled
on_authorization_error m handler db = caught (m db) (λ e. handled handler e db)

by_error :
    {A : Type 0} (handler : AuthorizationCode → Tx A) (e : Error) (db : Db) (r : A × Db)
    → handled handler e db ≡ ok r
    → (code : AuthorizationCode) × (handler code db ≡ ok r)
unfolding handled
by_error handler (authorization code) db r h = (code, h)
by_error handler _ db r h = absurd (cc h)

by_result :
    {A : Type 0} (m : Result A) (handler : Error → Result A) (r : A)
    → caught m handler ≡ ok r
    → (m ≡ ok r) ⊎ ((e : Error) × (handler e ≡ ok r))
unfolding caught
by_result (ok a) handler r h = inl h
by_result (err e) handler r h = inr (e, h)

-- A caught transaction commits as its body does, or as its handler does.
pub on_authorization_error-ok :
    {A : Type 0} (m : Tx A) (handler : AuthorizationCode → Tx A) (db : Db) (r : A × Db)
    → on_authorization_error m handler db ≡ ok r
    → (m db ≡ ok r) ⊎ ((code : AuthorizationCode) × (handler code db ≡ ok r))
unfolding on_authorization_error
on_authorization_error-ok m handler db r h = elim (by_result (m db) _ r h) [
  | inl e ↦ inl e
  | inr (e, again) ↦ inr (by_error handler e db r again)
]

-- `with Session(engine) as session, session.begin(): m`: an exception leaves the tables alone.
unfoldable pub run : {A : Type 0} → Tx A → Db → Result A × Db
unfolding on_authorization_error ◌>>=◌ gets or_raise raise_if modify branch if_found
run m db = elim (m db) [ ok (a, db') ↦ (ok a, db') | err e ↦ (err e, db) ]

-- Seconds in microseconds.
abbrev pub seconds : ℕ → ℕ
seconds n = n * 1000000
