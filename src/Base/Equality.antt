-- ===== src/Base/Equality.antt =====
-- Types whose values the program compares: a Boolean test that decides equality.
use Prim.Native.String.{String}
use mathlib.Core.Path.{◌≡◌}
use mathlib.Core.Logic.{◌↔◌}
use mathlib.Core.Bool.{Bool, true}
use text.Mathlib.Text
use text.Mathlib.TextEquality.{eq_iff}

pub record Eq {ℓ} (A : Type ℓ) : Type ℓ where
  pub beq : A → A → Bool
  pub beq_iff : (a b : A) → (beq a b ≡ true) ↔ (a ≡ b)

abbrev pub beq {ℓ} : {A : Type ℓ} ⦃e : Eq A⦄ → A → A → Bool
beq ⦃e⦄ = e.beq

-- Strings, compared by their code points.
abbrev pub string_eq : String → String → Bool
string_eq = text.Mathlib.Text.◌==◌

pub string_eq_iff : (s t : String) → (string_eq s t ≡ true) ↔ (s ≡ t)
string_eq_iff = eq_iff
