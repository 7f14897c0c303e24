-- ===== src/Database/Ensures.antt =====
-- What a transaction guarantees when it commits: `Ensures m db P` says that every committed run of
-- `m` from `db` ends in a value and tables of `P`. The rules follow a `do` block line by line.
use credit_incident_resoluti.Prelude.{Bool, true, false, Option, none, some, ◌≡◌, refl}
use mathlib.Core.Path.{subst₂}
use credit_incident_resoluti.Database.Schema.{Db}
use credit_incident_resoluti.Database.Transaction.{
  Error, ok, Tx, pure, raise, gets, or_raise, ◌>>=◌, raise_if, modify, branch, if_found,
}
use credit_incident_resoluti.Database.Frame.{Frames, >>=-eq-ok}

pub record Ensures {A : Type 0} (m : Tx A) (db : Db) (P : A → Db → Type 0) : Type 0 where
  pub at : (a : A) (db' : Db) → m db ≡ ok (a, db') → P a db'

pub Ensures-raise :
    {A : Type 0} (e : Error) (db : Db) (P : A → Db → Type 0) → Ensures (raise e) db P
Ensures-raise e db P = record { at = λ a db' h. absurd (cc h) }

module _ {A : Type 0} {P : A → Db → Type 0} where
  pub Ensures-pure : {a : A} {db : Db} → P a db → Ensures (pure a) db P
  Ensures-pure {a} {db} p = record {
    at = λ b db' h.
        let same : ◌≡◌ {A = A} a b = cc in let kept : db ≡ db' = cc in subst₂ P same kept p;
  }

  pub Ensures-bind :
      {B : Type 0} {m : Tx B} {k : B → Tx A} {db : Db}
      → Ensures m db (λ b mid. Ensures (k b) mid P)
      → Ensures (m >>= k) db P
  Ensures-bind {m = m} {k = k} {db = db} first = record {
    at = λ a db' h. let (b, mid, e, rest) = >>=-eq-ok m k db h in (first.at b mid e).at a db' rest;
  }

  -- A step that leaves the part `f` alone.
  pub Ensures-skip :
      {X : Type 0} {f : Db → X} {B : Type 0} {m : Tx B} {k : B → Tx A} {db : Db}
      → Frames f m
      → ((b : B) (mid : Db) → f mid ≡ f db → Ensures (k b) mid P)
      → Ensures (m >>= k) db P
  Ensures-skip {m = m} {k = k} {db = db} frame next = record {
    at = λ a db' h.
        let (b, mid, e, rest) = >>=-eq-ok m k db h in
        (next b mid (frame.at db b mid e)).at a db' rest;
  }

gets-Ensures :
    {A : Type 0} {Q : A → Db → Type 0} (g : Db → A) (db : Db) → Q (g db) db → Ensures (gets g) db Q
unfolding gets
gets-Ensures {Q = Q} g db q = record { at = (Ensures-pure {P = Q} {a = g db} {db = db} q).at }

pub raise_if-Ensures :
    {Q : Unit {0} → Db → Type 0} (c : Bool) (e : Error) (db : Db)
    → (c ≡ false → Q tt db)
    → Ensures (raise_if c e) db Q
unfolding raise_if
raise_if-Ensures true e db q = Ensures-raise e db _
raise_if-Ensures false e db q = Ensures-pure (q refl)

pub or_raise-Ensures :
    {A : Type 0} {Q : A → Db → Type 0} (o : Option A) (e : Error) (db : Db)
    → ((a : A) → o ≡ some a → Q a db)
    → Ensures (or_raise o e) db Q
unfolding or_raise
or_raise-Ensures none e db q = Ensures-raise e db _
or_raise-Ensures (some a) e db q = Ensures-pure (q a refl)

pub modify-Ensures :
    {Q : Unit {0} → Db → Type 0} (g : Db → Db) (db : Db) → Q tt (g db) → Ensures (modify g) db Q
unfolding modify
modify-Ensures {Q} g db q = record { at = (Ensures-pure {P = Q} {a = tt} {db = g db} q).at }

module _ {A : Type 0} {P : A → Db → Type 0} where
  pub Ensures-gets :
      {B : Type 0} (g : Db → B) (k : B → Tx A) {db : Db}
      → Ensures (k (g db)) db P
      → Ensures (gets g >>= k) db P
  Ensures-gets g k {db} rest = Ensures-bind (gets-Ensures g db rest)

  pub Ensures-guard :
      (c : Bool) (e : Error) (k : Unit {0} → Tx A) {db : Db}
      → (c ≡ false → Ensures (k tt) db P)
      → Ensures (raise_if c e >>= k) db P
  Ensures-guard c e k {db} rest = Ensures-bind (raise_if-Ensures c e db rest)

  pub Ensures-or_raise :
      {B : Type 0} (o : Option B) (e : Error) (k : B → Tx A) {db : Db}
      → ((b : B) → o ≡ some b → Ensures (k b) db P)
      → Ensures (or_raise o e >>= k) db P
  Ensures-or_raise o e k {db} rest = Ensures-bind (or_raise-Ensures o e db rest)

  pub Ensures-modify :
      (g : Db → Db) (k : Unit {0} → Tx A) {db : Db}
      → Ensures (k tt) (g db) P
      → Ensures (modify g >>= k) db P
  Ensures-modify g k {db} rest = Ensures-bind (modify-Ensures g db rest)

  pub Ensures-branch :
      (c : Bool) (m k : Tx A) {db : Db}
      → (c ≡ true → Ensures m db P)
      → (c ≡ false → Ensures k db P)
      → Ensures (branch c m k) db P
  unfolding branch
  Ensures-branch true m k left right = left refl
  Ensures-branch false m k left right = right refl

  pub Ensures-if_found :
      {B : Type 0} (o : Option B) (k : B → Tx A) (m : Tx A) {db : Db}
      → ((b : B) → o ≡ some b → Ensures (k b) db P)
      → (o ≡ none → Ensures m db P)
      → Ensures (if_found o k m) db P
  unfolding if_found
  Ensures-if_found none k m found missing = missing refl
  Ensures-if_found (some b) k m found missing = found b refl
