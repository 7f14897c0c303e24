-- ===== src/Prelude/Texts.antt =====
-- Texts and the values that compare like Python's.
use Prim.Native.String.{String, [], ◌∷◌}
use Prim.Native.Char.{code}
use mathlib.Core.Path.{sym, ◌∙◌}
use mathlib.Core.Bool.{false≢true}
use mathlib.Core.Logic.{inl, inr}
use mathlib.Core.Option.{Option, none, some}
use text.Mathlib.Text.{◌==◌ as str_eq}
use text.Mathlib.TextEquality.{eq_iff}
use credit_incident_resoluti.Prelude.Tests.{
  ◌==◌, Bool-cases, Equality, if◌then◌else◌, nat_eq, or_else,
}

instance abbrev pub string_eq : Equality String
string_eq = record { agrees = str_eq; agrees_iff = eq_iff }

-- What stands before the last `@` (64) of a text, if there is one.
unfoldable pub before_last_at : String → Option String
before_last_at [] = none
before_last_at (c ∷ s) = elim (before_last_at s) [
  | some p ↦ some (c ∷ p)
  | none ↦ if code c == 64 then some [] else none
]

-- `text.rsplit("@", 1)[0]`
unfoldable pub before_version : String → String
unfolding before_last_at
before_version s = or_else (before_last_at s) s

unfoldable pub String-discrete : Discrete String
String-discrete s t = elim (Bool-cases (str_eq s t)) [
  | inl e ↦ yes ((eq_iff s t).0 e)
  | inr d ↦ no (λ e. absurd (false≢true (sym d ∙ (eq_iff s t).1 e)))
]
