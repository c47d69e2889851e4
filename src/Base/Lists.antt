-- ===== src/Base/Lists.antt =====
-- Lists measured and cut by native numbers, under the library's names.
use Prim.Native.Nat.{ℕ, zero, suc, ◌+◌, ◌-◌, ◌≤◌, ◌<◌, min}
use mathlib.Core.Bool.{true, false}
use mathlib.Core.Path.{◌≡◌, refl}
use mathlib.Core.Logic.{◌≢◌}
use mathlib.Core.List.{List, [], ◌∷◌, ◌++◌}
use native.Mathlib.Omega.{arith}
use native.Mathlib.Decide.{dec_lt}
use resonance_signal.Base.Tests.{◌==◌, if◌then◌else◌}

-- The value differs from every one of the list.
abbrev pub Absent : {A : Type 0} → A → List A → Type 0
Absent x [] = Unit
Absent x (y ∷ ys) = (y ≢ x) × Absent x ys

module _ {ℓ} {A : Type ℓ} where
  abbrev pub length : List A → ℕ
  length [] = 0
  length (x ∷ xs) = suc (length xs)

  abbrev pub take : ℕ → List A → List A
  take zero xs = []
  take (suc n) [] = []
  take (suc n) (x ∷ xs) = x ∷ take n xs

  abbrev pub drop : ℕ → List A → List A
  drop zero xs = xs
  drop (suc n) [] = []
  drop (suc n) (x ∷ xs) = drop n xs

  pub length-append : (xs ys : List A) → length (xs ++ ys) ≡ length xs + length ys
  length-append [] ys = omega arith
  length-append (x ∷ xs) ys = omega (arith, length-append xs ys)

  pub take-append-drop : (n : ℕ) (xs : List A) → take n xs ++ drop n xs ≡ xs
  take-append-drop zero xs = refl
  take-append-drop (suc n) [] = refl
  take-append-drop (suc n) (x ∷ xs) = rw (take-append-drop n xs)

  pub length-take : (n : ℕ) (xs : List A) → length (take n xs) ≡ min n (length xs)
  length-take zero xs = omega arith
  length-take (suc n) [] = omega arith
  length-take (suc n) (x ∷ xs) = omega (arith, length-take n xs)

  pub length-drop : (n : ℕ) (xs : List A) → length (drop n xs) ≡ length xs - n
  length-drop zero xs = omega arith
  length-drop (suc n) [] = omega arith
  length-drop (suc n) (x ∷ xs) = omega (arith, length-drop n xs)

  -- What is dropped from a list that is long enough can be dropped before more is appended.
  pub drop-append_le :
      (n : ℕ) (xs ys : List A) → n ≤ length xs → drop n (xs ++ ys) ≡ drop n xs ++ ys
  drop-append_le zero xs ys h = refl
  drop-append_le (suc n) [] ys h = absurd (omega arith)
  drop-append_le (suc n) (x ∷ xs) ys h = drop-append_le n xs ys (omega arith)

-- The last `n` elements of a list.
abbrev pub last {ℓ} : {A : Type ℓ} → ℕ → List A → List A
last n xs = drop (length xs - n) xs

module _ {ℓ} {A : Type ℓ} where
  drop-drop : (n : ℕ) (xs : List A) → drop 1 (drop n xs) ≡ drop (suc n) xs
  drop-drop zero xs = refl
  drop-drop (suc n) [] = refl
  drop-drop (suc n) (x ∷ xs) = drop-drop n xs

  last-short : (capacity : ℕ) (log : List A) → length log ≤ capacity → last capacity log ≡ log
  last-short capacity log h = let e : length log - capacity ≡ 0 = omega arith in rw e

  last-long :
      (capacity : ℕ) (log : List A) (x : A)
      → 0 < capacity
      → capacity ≤ length log
      → last capacity (log ++ x ∷ []) ≡ drop 1 (last capacity log) ++ x ∷ []
  last-long capacity log x pos h =
      let e : length (log ++ x ∷ []) - capacity ≡ suc (length log - capacity) =
        omega (arith, length-append log (x ∷ [])) in
      rw e (
        rw (drop-append_le (suc (length log - capacity)) log (x ∷ []) (omega arith)) (rw drop-drop))

  -- The bounded history of an extended log, from that of the log.
  pub last-append :
      (capacity : ℕ) (log : List A) (x : A)
      → 0 < capacity
      → last capacity (log ++ x ∷ [])
        ≡ (if length (last capacity log) == capacity
            then drop 1 (last capacity log)
            else last capacity log)
          ++ x ∷ []
  last-append capacity log x pos = elim (dec_lt (length log) capacity) [
    | yes p ↦
        let e : (length log == capacity) ≡ false = ground arith in
        rw (
          last-short capacity (log ++ x ∷ []) (omega (arith, length-append log (x ∷ []))),
          last-short capacity log (omega arith),
          e,
        )
    | no p ↦
        let e : (length (last capacity log) == capacity) ≡ true =
          ground (arith, length-drop (length log - capacity) log) in
        rw (last-long capacity log x pos (omega arith), e)
  ]
