-- ===== src/Database/Frame.antt =====
-- What a transaction leaves alone: `Frames f m` says that `m`, when it commits, does not change the
-- part `f` of the tables. The rules let `search` prove it of a `do` block.
use credit_incident_resoluti.Prelude.{
  Bool, true, false, Option, none, some, ◌≡◌, refl, ◌∙◌, inl, inr,
}
use credit_incident_resoluti.Authorization.Models.{AuthorizationCode}
use credit_incident_resoluti.Database.Schema.{Db}
use credit_incident_resoluti.Database.Transaction.{
  Error, Result, ok, err, Tx, pure, raise, gets, or_raise, ◌>>=◌, raise_if, modify, branch,
  if_found, on_authorization_error, on_authorization_error-ok,
}

-- The inversion of a bind that commits: `r` is the result of its first part.
bind_ok :
    {A B : Type 0} (r : Result (A × Db)) (k : A → Tx B) (b : B) (db' : Db)
    → elim r as (λ _. Result (B × Db)) [ ok (a, mid) ↦ k a mid | err e ↦ err e ] ≡ ok (b, db')
    → (a : A) × (mid : Db) × (r ≡ ok (a, mid)) × (k a mid ≡ ok (b, db'))
bind_ok (ok (a, mid)) k b db' h = (a, mid, refl, h)
bind_ok (err e) k b db' h = cc

pub >>=-eq-ok :
    {A B : Type 0} (m : Tx A) (k : A → Tx B) (db : Db) {b : B} {db' : Db}
    → (m >>= k) db ≡ ok (b, db')
    → (a : A) × (mid : Db) × (m db ≡ ok (a, mid)) × (k a mid ≡ ok (b, db'))
unfolding ◌>>=◌
>>=-eq-ok m k db {b} {db'} h = bind_ok (m db) k b db' h

module _ {X : Type 0} (f : Db → X) where
  pub record Frames {A : Type 0} (m : Tx A) : Type 0 where
    pub at : (db : Db) (a : A) (db' : Db) → m db ≡ ok (a, db') → f db' ≡ f db

module _ {X : Type 0} {f : Db → X} where
  pub Frames-pure : {A : Type 0} (a : A) → Frames f (pure a)
  Frames-pure a = record { at = λ db b db' h. cc }

  pub Frames-raise : {A : Type 0} (e : Error) → Frames f (raise {A = A} e)
  Frames-raise e = record { at = λ db b db' h. cc }

  pub Frames-gets : {A : Type 0} (g : Db → A) → Frames f (gets g)
  unfolding gets
  Frames-gets g = record { at = λ db b db' h. cc }

  pub Frames-modify : (g : Db → Db) → ((db : Db) → f (g db) ≡ f db) → Frames f (modify g)
  unfolding modify
  Frames-modify g same = record { at = λ db b db' h. cc (same db) }

  pub Frames-or_raise : {A : Type 0} (o : Option A) (e : Error) → Frames f (or_raise o e)
  unfolding or_raise
  Frames-or_raise none e = Frames-raise e
  Frames-or_raise (some a) e = Frames-pure a

  pub Frames-raise_if : (c : Bool) (e : Error) → Frames f (raise_if c e)
  unfolding raise_if
  Frames-raise_if true e = Frames-raise e
  Frames-raise_if false e = Frames-pure tt

  pub Frames-bind :
      {A B : Type 0} (m : Tx A) (k : A → Tx B)
      → Frames f m
      → ((a : A) → Frames f (k a))
      → Frames f (m >>= k)
  Frames-bind m k hm hk = record {
    at = λ db b db' h.
        let (a, mid, first, rest) = >>=-eq-ok m k db h in
        (hk a).at mid b db' rest ∙ hm.at db a mid first;
  }

  pub Frames-branch :
      {A : Type 0} (c : Bool) (m k : Tx A) → Frames f m → Frames f k → Frames f (branch c m k)
  unfolding branch
  Frames-branch true m k hm hk = hm
  Frames-branch false m k hm hk = hk

  pub Frames-if_found :
      {A B : Type 0} (o : Option A) (k : A → Tx B) (m : Tx B)
      → ((a : A) → Frames f (k a))
      → Frames f m
      → Frames f (if_found o k m)
  unfolding if_found
  Frames-if_found none k m hk hm = hm
  Frames-if_found (some a) k m hk hm = hk a

  pub Frames-on_authorization_error :
      {A : Type 0} (m : Tx A) (handler : AuthorizationCode → Tx A)
      → Frames f m
      → ((code : AuthorizationCode) → Frames f (handler code))
      → Frames f (on_authorization_error m handler)
  Frames-on_authorization_error m handler hm hk = record {
    at = λ db a db' h. elim (on_authorization_error-ok m handler db (a, db') h) [
      | inl e ↦ hm.at db a db' e
      | inr (code, e) ↦ (hk code).at db a db' e
    ];
  }

pub ruleset frame_rules = (
  Frames-pure, Frames-raise, Frames-gets, Frames-or_raise, Frames-raise_if, Frames-bind,
  Frames-branch, Frames-if_found, Frames-on_authorization_error,
)
