-- ===== src/Base/Fallible.antt =====
-- Results of fallible code, and Rust's `?` on them; unsigned integers that refuse to overflow.
use Prim.Native.Nat.{ℕ, ◌+◌, ◌*◌, ◌-◌}
use mathlib.Core.Path.{◌≡◌, refl, ap}
use mathlib.Core.Logic.{◌⊎◌, inl, inr}
use mathlib.Core.Bool.{Bool, true, false, not}
use mathlib.Core.Option.{Option, none, some}
use resonance_signal.Base.Tests.{ltb, leb, if◌then◌else◌}

pub data Result {ℓ} (E A : Type ℓ) : Type ℓ where
  ok : A → Result E A
  err : E → Result E A

-- `x?` in a method on `&mut self`: an error returns at once, with the state as it then is.
abbrev pub try {ℓ} : {E A B S : Type ℓ} → Result E A → S → (A → Result E B × S) → Result E B × S
try (ok a) s k = k a
try (err e) s k = (err e, s)

-- `x?` in a function that changes nothing.
infixl 5 ◌>>=◌ ◌>>◌
abbrev pub ◌>>=◌ {ℓ} : {E A B : Type ℓ} → Result E A → (A → Result E B) → Result E B
ok a >>= k = k a
err e >>= k = err e

abbrev pub ◌>>◌ {ℓ} : {E A B : Type ℓ} → Result E A → Result E B → Result E B
m >> k = m >>= λ _. k

abbrev pub ok_or {ℓ} : {E A : Type ℓ} → Option A → E → Result E A
ok_or none e = err e
ok_or (some a) e = ok a

-- `if !test { return Err(e) }`
abbrev pub ensure {ℓ} : {E : Type ℓ} → Bool → E → Result E (Unit {ℓ})
ensure true e = ok tt
ensure false e = err e

abbrev pub is_ok {ℓ} : {E A : Type ℓ} → Result E A → Bool
is_ok (ok a) = true
is_ok (err e) = false

abbrev pub u16_max : ℕ
u16_max = 65535

abbrev pub u32_max : ℕ
u32_max = 4294967295

abbrev pub u64_max : ℕ
u64_max = 18446744073709551615

-- u64::checked_add, checked_mul and checked_sub
abbrev pub checked_add : ℕ → ℕ → Option ℕ
checked_add a b = if leb (a + b) u64_max then some (a + b) else none

abbrev pub checked_mul : ℕ → ℕ → Option ℕ
checked_mul a b = if leb (a * b) u64_max then some (a * b) else none

abbrev pub checked_sub : ℕ → ℕ → Option ℕ
checked_sub a b = if ltb a b then none else some (a - b)

-- A property of every end of `try` is one of its error and of what goes on from each success.
pub try-cases {ℓ κ} :
    {E A B S : Type ℓ} (P : Result E B × S → Type κ) (r : Result E A) (s : S)
    (k : A → Result E B × S)
    → ((e : E) → r ≡ err e → P (err e, s))
    → ((a : A) → r ≡ ok a → P (k a))
    → P (try r s k)
try-cases P (ok a) s k h g = g a refl
try-cases P (err e) s k h g = h e refl

-- A chain that succeeds has succeeded at its first step.
pub bind-ok {ℓ} :
    {E A B : Type ℓ} (r : Result E A) (k : A → Result E B) (b : B)
    → (r >>= k) ≡ ok b
    → (a : A) × (r ≡ ok a) × (k a ≡ ok b)
bind-ok (ok a) k b h = (a, refl, h)
bind-ok (err e) k b h = cc

pub ensure-false :
    {E : Type 0} (b : Bool) (e : E) (u : Unit {0}) → ensure (not b) e ≡ ok u → b ≡ false
ensure-false true e u h = cc
ensure-false false e u h = refl

abbrev ok_value {ℓ} : {E A : Type ℓ} → A → Result E A → A
ok_value default (ok a) = a
ok_value default (err e) = default

pub ok-injective {ℓ} : {E A : Type ℓ} (a b : A) → ◌≡◌ {A = Result E A} (ok a) (ok b) → a ≡ b
ok-injective a b h = ap (ok_value a) h

pub Result-cases {ℓ} :
    {E A : Type ℓ} (r : Result E A) → ((a : A) × (r ≡ ok a)) ⊎ ((e : E) × (r ≡ err e))
Result-cases (ok a) = inl (a, refl)
Result-cases (err e) = inr (e, refl)
