-- ===== src/Prelude/Tables.antt =====
-- A database table with a primary key, as an association list in insertion order.
use Prim.Native.Nat.{ℕ}
use mathlib.Core.Path.{◌≡◌, refl}
use mathlib.Core.Bool.{Bool}
use mathlib.Core.Option.{Option, none, some}
use mathlib.Core.List.{List, [], ◌∷◌}
use native.Mathlib.Omega.{arith}
use credit_incident_resoluti.Prelude.Tests.{◌==◌, nat_eq, if◌then◌else◌}

abbrev pub Table {ℓ} : Type ℓ → Type ℓ
Table V = List (ℕ × V)

module _ {ℓ} {V : Type ℓ} where
  -- session.get
  unfoldable pub lookup : ℕ → Table V → Option V
  lookup k [] = none
  lookup k ((j, v) ∷ t) = if j == k then some v else lookup k t

  -- session.add of a new row, or an update of the row with this key
  unfoldable pub insert : ℕ → V → Table V → Table V
  insert k v [] = (k, v) ∷ []
  insert k v ((j, w) ∷ t) = if j == k then (k, v) ∷ t else (j, w) ∷ insert k v t

  pub lookup-insert :
      (k j : ℕ) (v : V) (t : Table V)
      → lookup j (insert k v t) ≡ (if k == j then some v else lookup j t)
  unfolding lookup insert
  lookup-insert k j v [] = refl
  lookup-insert k j v ((i, w) ∷ t) = ground (arith, lookup-insert k j v t)

  -- The first row, in key order of insertion, that a query selects.
  unfoldable pub select_first : (V → Bool) → Table V → Option V
  select_first p [] = none
  select_first p ((j, v) ∷ t) = if p v then some v else select_first p t

  unfoldable pub select : (V → Bool) → Table V → List V
  select p [] = []
  select p ((j, v) ∷ t) = let rest = select p t in if p v then v ∷ rest else rest

  -- An UPDATE of every row that a condition selects.
  unfoldable pub update_where : (V → Bool) → (V → V) → Table V → Table V
  update_where p f [] = []
  update_where p f ((j, v) ∷ t) = (j, if p v then f v else v) ∷ update_where p f t
