-- ===== src/Prelude/Lists.antt =====
-- Comprehensions over lists with Boolean conditions, and occurrence in a list as a sum, so that a
-- proof reads off which element it is.
use Prim.Native.Nat.{ℕ}
use mathlib.Core.Path.{◌≡◌, ap, refl, subst, sym}
use mathlib.Core.Logic.{◌↔◌, ◌⊎◌, inl, inr}
use mathlib.Core.Bool.{Bool, true, false}
use mathlib.Core.Option.{Option, none, some}
use mathlib.Core.List.{List, [], ◌∷◌, ◌++◌, map}
use native.Mathlib.Omega.{arith}
use credit_incident_resoluti.Prelude.Tests.{
  Bool-cases, contains, Equality, if◌then◌else◌, leb, nat_eq,
}

module _ {ℓ} {A : Type ℓ} where
  -- `[x for x in xs if p(x)]`
  unfoldable pub keep : (A → Bool) → List A → List A
  keep p [] = []
  keep p (x ∷ xs) = let rest = keep p xs in if p x then x ∷ rest else rest

  -- `any(p(x) for x in xs)`
  unfoldable pub any : (A → Bool) → List A → Bool
  any p [] = false
  any p (x ∷ xs) = let rest = any p xs in if p x then true else rest

  -- `all(p(x) for x in xs)`
  unfoldable pub every : (A → Bool) → List A → Bool
  every p [] = true
  every p (x ∷ xs) = let rest = every p xs in if p x then rest else false

  -- `bool(xs)`
  unfoldable pub is_filled : List A → Bool
  is_filled [] = false
  is_filled (x ∷ xs) = true

  -- One of each element, as a set of them has.
  unfoldable pub distinct : ⦃e : Equality A⦄ → List A → List A
  distinct [] = []
  distinct (x ∷ xs) = let rest = distinct xs in if contains x rest then rest else x ∷ rest

  -- The element of a set that has exactly one.
  abbrev pub sole : List A → Option A
  sole (x ∷ []) = some x
  sole _ = none

  insert_by : (A → ℕ) → A → List A → List A
  insert_by key x [] = x ∷ []
  insert_by key x (y ∷ ys) =
      let rest = insert_by key x ys in if leb (key x) (key y) then x ∷ y ∷ ys else y ∷ rest

  -- `sorted(xs, key=key)`
  unfoldable pub sorted_by : (A → ℕ) → List A → List A
  unfolding insert_by
  sorted_by key [] = []
  sorted_by key (x ∷ xs) = insert_by key x (sorted_by key xs)

  -- `[y for x in xs for y in f(x)]`
  unfoldable pub collect {κ} : {B : Type κ} → (B → List A) → List B → List A
  collect f [] = []
  collect f (x ∷ xs) = f x ++ collect f xs

both_of : (b r : Bool) → (if b then r else false) ≡ true → (b ≡ true) × (r ≡ true)
both_of true r h = (refl, h)
both_of false r h = absurd (cc h)

none_of : (b r : Bool) → (if b then true else r) ≡ false → (b ≡ false) × (r ≡ false)
none_of true r h = absurd (cc h)
none_of false r h = (refl, h)

either_way : (b : Bool) → (if b then true else true) ≡ true
either_way true = refl
either_way false = refl

module _ {A : Type 0} where
  -- x occurs in the list.
  unfoldable pub In : A → List A → Type 0
  In x [] = ⊥
  In x (y ∷ ys) = (x ≡ y) ⊎ In x ys

  kept_cases :
      (p : A → Bool) (a x : A) (rest : List A) (b : Bool)
      → In a (if b then x ∷ rest else rest)
      → ((b ≡ true) × (a ≡ x)) ⊎ In a rest
  unfolding In
  kept_cases p a x rest true (inl e) = inl (refl, e)
  kept_cases p a x rest true (inr h) = inr h
  kept_cases p a x rest false h = inr h

  kept_by :
      (a x : A) (rest : List A) (b : Bool)
      → ((b ≡ true) × (a ≡ x)) ⊎ In a rest
      → In a (if b then x ∷ rest else rest)
  unfolding In
  kept_by a x rest true (inl (t, e)) = inl e
  kept_by a x rest true (inr h) = inr h
  kept_by a x rest false (inl (t, e)) = absurd (cc t)
  kept_by a x rest false (inr h) = h

  -- What a filter keeps occurs in the list and passes the test.
  pub In-keep : (p : A → Bool) (a : A) (xs : List A) → In a (keep p xs) → In a xs × (p a ≡ true)
  unfolding In keep
  In-keep p a [] h = absurd h
  In-keep p a (x ∷ xs) h = elim (kept_cases p a x (keep p xs) (p x) h) [
    | inl (t, e) ↦ (inl e, (cc))
    | inr rest ↦ let later = In-keep p a xs rest in (inr later.0, later.1)
  ]

  -- What occurs in the list and passes the test is kept.
  pub keep-In : (p : A → Bool) (a : A) (xs : List A) → In a xs → p a ≡ true → In a (keep p xs)
  unfolding In keep
  keep-In p a [] h t = absurd h
  keep-In p a (x ∷ xs) (inl e) t = kept_by a x (keep p xs) (p x) (inl ((cc), e))
  keep-In p a (x ∷ xs) (inr h) t = kept_by a x (keep p xs) (p x) (inr (keep-In p a xs h t))

  pub In-append : (a : A) (xs ys : List A) → In a (xs ++ ys) → In a xs ⊎ In a ys
  unfolding In
  In-append a [] ys h = inr h
  In-append a (x ∷ xs) ys (inl e) = inl (inl e)
  In-append a (x ∷ xs) ys (inr h) = elim (In-append a xs ys h) [
    | inl l ↦ inl (inr l)
    | inr r ↦ inr r
  ]

  pub append-In : (a : A) (xs ys : List A) → In a xs ⊎ In a ys → In a (xs ++ ys)
  unfolding In
  append-In a [] ys (inl h) = absurd h
  append-In a [] ys (inr h) = h
  append-In a (x ∷ xs) ys (inl (inl e)) = inl e
  append-In a (x ∷ xs) ys (inl (inr h)) = inr (append-In a xs ys (inl h))
  append-In a (x ∷ xs) ys (inr h) = inr (append-In a xs ys (inr h))

  pub is_filled-In : (xs : List A) → is_filled xs ≡ true → (a : A) × In a xs
  unfolding In is_filled
  is_filled-In [] h = absurd (cc h)
  is_filled-In (x ∷ xs) h = (x, inl refl)

  pub In-is_filled : (a : A) (xs : List A) → In a xs → is_filled xs ≡ true
  unfolding In is_filled
  In-is_filled a [] h = absurd h
  In-is_filled a (x ∷ xs) h = refl

  pub every-In : (p : A → Bool) (a : A) (xs : List A) → every p xs ≡ true → In a xs → p a ≡ true
  unfolding In every
  every-In p a [] h i = absurd i
  every-In p a (x ∷ xs) h (inl e) = ground arith
  every-In p a (x ∷ xs) h (inr i) = every-In p a xs (both_of (p x) (every p xs) h).1 i

  pub not_any-In : (p : A → Bool) (a : A) (xs : List A) → any p xs ≡ false → In a xs → p a ≡ false
  unfolding In any
  not_any-In p a [] h i = absurd i
  not_any-In p a (x ∷ xs) h (inl e) = ground arith
  not_any-In p a (x ∷ xs) h (inr i) = not_any-In p a xs (none_of (p x) (any p xs) h).1 i

  -- What holds of each element holds of all.
  pub In-every : (p : A → Bool) (xs : List A) → ((a : A) → In a xs → p a ≡ true) → every p xs ≡ true
  unfolding In every
  In-every p [] h = refl
  In-every p (x ∷ xs) h = rw (h x (inl refl), In-every p xs (λ a i. h a (inr i))) refl

  placed :
      (a x y : A) (ys rest : List A) (b : Bool)
      → (In a rest) ↔ ((a ≡ x) ⊎ In a ys)
      → (In a (if b then x ∷ y ∷ ys else y ∷ rest)) ↔ ((a ≡ x) ⊎ In a (y ∷ ys))
  unfolding In
  placed a x y ys rest true later = (λ h. h, λ h. h)
  placed a x y ys rest false later = (
    λ h. elim h [
      | inl e ↦ inr (inl e)
      | inr h ↦ elim (later.0 h) [ inl e ↦ inl e | inr i ↦ inr (inr i) ]
    ],
    λ h. elim h [
      | inl e ↦ inr (later.1 (inl e))
      | inr (inl e) ↦ inl e
      | inr (inr i) ↦ inr (later.1 (inr i))
    ],
  )

  inserted_iff :
      (key : A → ℕ) (a x : A) (xs : List A) → (In a (insert_by key x xs)) ↔ ((a ≡ x) ⊎ In a xs)
  unfolding In insert_by
  inserted_iff key a x [] = (λ h. h, λ h. h)
  inserted_iff key a x (y ∷ ys) =
      placed a x y ys (insert_by key x ys) (leb (key x) (key y)) (inserted_iff key a x ys)

  pub In-sorted_by : (key : A → ℕ) (a : A) (xs : List A) → In a (sorted_by key xs) → In a xs
  unfolding In sorted_by
  In-sorted_by key a [] h = absurd h
  In-sorted_by key a (x ∷ xs) h = elim ((inserted_iff key a x (sorted_by key xs)).0 h) [
    | inl e ↦ inl e
    | inr later ↦ inr (In-sorted_by key a xs later)
  ]

  pub sorted_by-In : (key : A → ℕ) (a : A) (xs : List A) → In a xs → In a (sorted_by key xs)
  unfolding In sorted_by
  sorted_by-In key a [] h = absurd h
  sorted_by-In key a (x ∷ xs) (inl e) = (inserted_iff key a x (sorted_by key xs)).1 (inl e)
  sorted_by-In key a (x ∷ xs) (inr h) =
      (inserted_iff key a x (sorted_by key xs)).1 (inr (sorted_by-In key a xs h))

module _ {A B : Type 0} where
  -- What a nested comprehension lists comes from an element of the outer list.
  pub In-collect :
      (f : B → List A) (a : A) (xs : List B)
      → In a (collect f xs)
      → (b : B) × (In b xs × In a (f b))
  unfolding In collect
  In-collect f a [] h = absurd h
  In-collect f a (x ∷ xs) h = elim (In-append a (f x) (collect f xs) h) [
    | inl first ↦ (x, (inl refl, first))
    | inr rest ↦ let later = In-collect f a xs rest in (later.0, (inr later.1.0, later.1.1))
  ]

  pub collect-In :
      (f : B → List A) (a : A) (b : B) (xs : List B) → In b xs → In a (f b) → In a (collect f xs)
  unfolding In collect
  collect-In f a b [] i h = absurd i
  collect-In f a b (x ∷ xs) (inl e) h =
      append-In a (f x) (collect f xs) (inl (subst (λ (y : B). In a (f y)) e h))
  collect-In f a b (x ∷ xs) (inr i) h =
      append-In a (f x) (collect f xs) (inr (collect-In f a b xs i h))

module _ {A B : Type 0} where
  pub map-In : (f : A → B) (a : A) (xs : List A) → In a xs → In (f a) (map f xs)
  unfolding In
  map-In f a [] h = absurd h
  map-In f a (x ∷ xs) (inl e) = inl (ap f e)
  map-In f a (x ∷ xs) (inr h) = inr (map-In f a xs h)

module _ {A : Type 0} ⦃e : Equality A⦄ where
  agrees_or :
      (a x : A) (later : Bool)
      → (if e.agrees a x then true else later) ≡ true
      → (a ≡ x) ⊎ (later ≡ true)
  agrees_or a x later h = elim (Bool-cases (e.agrees a x)) [
    | inl t ↦ inl ((e.agrees_iff a x).0 t)
    | inr f ↦ inr (ground arith)
  ]

  contains-In : (a : A) (xs : List A) → contains a xs ≡ true → In a xs
  unfolding In
  contains-In a [] h = absurd (cc h)
  contains-In a (x ∷ xs) h = elim (agrees_or a x (contains a xs) h) [
    | inl t ↦ inl t
    | inr later ↦ inr (contains-In a xs later)
  ]

  pub In-contains : (a : A) (xs : List A) → In a xs → contains a xs ≡ true
  unfolding In
  In-contains a [] i = absurd i
  In-contains a (x ∷ xs) (inl h) = rw ((e.agrees_iff a x).1 h) refl
  In-contains a (x ∷ xs) (inr i) = rw (In-contains a xs i) (either_way (e.agrees a x))

  set_member :
      (a x : A) (rest : List A) (b : Bool)
      → (b ≡ true → In x rest)
      → (a ≡ x) ⊎ In a rest
      → In a (if b then rest else x ∷ rest)
  unfolding In
  set_member a x rest true there (inl h) = subst (λ y. In y rest) (sym h) (there refl)
  set_member a x rest true there (inr h) = h
  set_member a x rest false there h = h

  -- A set has each element of the list that it is made of.
  pub distinct-In : (a : A) (xs : List A) → In a xs → In a (distinct xs)
  unfolding In distinct
  distinct-In a [] h = absurd h
  distinct-In a (x ∷ xs) (inl h) =
      set_member a x (distinct xs) (contains x (distinct xs)) (contains-In x (distinct xs)) (inl h)
  distinct-In a (x ∷ xs) (inr h) =
      set_member a x (distinct xs) (contains x (distinct xs)) (contains-In x (distinct xs))
        (inr (distinct-In a xs h))

  sole_member : (a b : A) (xs : List A) → sole xs ≡ some b → In a xs → a ≡ b
  unfolding In
  sole_member a b [] h i = absurd i
  sole_member a b (x ∷ []) h (inl t) = cc (h, t)
  sole_member a b (x ∷ []) h (inr i) = absurd i
  sole_member a b (x ∷ y ∷ rest) h i = absurd (cc h)

  -- All elements of a set of one are that one.
  pub sole-In : (a b : A) (xs : List A) → sole (distinct xs) ≡ some b → In a xs → a ≡ b
  sole-In a b xs h i = sole_member a b (distinct xs) h (distinct-In a xs i)

  -- A set of one is made of some element.
  pub sole-is_filled : (b : A) (xs : List A) → sole (distinct xs) ≡ some b → is_filled xs ≡ true
  unfolding distinct is_filled
  sole-is_filled b [] h = absurd (cc h)
  sole-is_filled b (x ∷ xs) h = refl
