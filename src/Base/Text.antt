-- ===== src/Base/Text.antt =====
-- Strings: what the standard library of the source does with them.
use Prim.Native.Nat.{ℕ, zero, suc, ◌+◌, ◌*◌, ◌-◌, ◌/◌, ◌%◌}
use Prim.Native.Char.{code}
use Prim.Native.String.{String, [], ◌∷◌, ◌++◌}
use mathlib.Core.Bool.{Bool, true, false, ◌&&◌, ◌||◌}
use mathlib.Core.Option.{Option, none, some}
use resonance_signal.Base.Tests.{leb, ltb, ◌==◌, if◌then◌else◌}

-- `char::is_whitespace`
abbrev is_whitespace : ℕ → Bool
is_whitespace c =
    (leb 9 c && leb c 13)
    || c == 32
    || c == 133
    || c == 160
    || c == 5760
    || (leb 8192 c && leb c 8202)
    || c == 8232
    || c == 8233
    || c == 8239
    || c == 8287
    || c == 12288

abbrev pub is_empty_string : String → Bool
is_empty_string [] = true
is_empty_string (c ∷ s) = false

-- `s.trim().is_empty()`
abbrev pub is_blank : String → Bool
is_blank [] = true
is_blank (c ∷ s) = is_whitespace (code c) && is_blank s

-- What follows the last character of a code, `rsplit_once`.
abbrev pub after_last : ℕ → String → Option String
after_last mark [] = none
after_last mark (c ∷ s) = elim (after_last mark s) [
  | some rest ↦ some rest
  | none ↦ if code c == mark then some s else none
]

-- The number of digits up to a limit, after the number `value`.
abbrev parse_digits : ℕ → ℕ → String → Option ℕ
parse_digits limit value [] = if leb value limit then some value else none
parse_digits limit value (c ∷ s) =
    let rest = parse_digits limit (value * 10 + (code c - 48)) s in
    if leb 48 (code c) && leb (code c) 57 then rest else none

abbrev parse_unsigned : ℕ → String → Option ℕ
parse_unsigned limit [] = none
parse_unsigned limit (c ∷ s) = parse_digits limit 0 (c ∷ s)

-- `str::parse` into an unsigned integer with a limit; a plus sign may come first.
abbrev pub parse_number : ℕ → String → Option ℕ
parse_number limit [] = none
parse_number limit (c ∷ s) =
    if code c == 43 then parse_unsigned limit s else parse_unsigned limit (c ∷ s)

abbrev digit : ℕ → String
digit n =
    if n == 0
    then "0"
    else (if n == 1
        then "1"
        else (if n == 2
            then "2"
            else (if n == 3
                then "3"
                else (if n == 4
                    then "4"
                    else (if n == 5
                        then "5"
                        else (if n == 6
                            then "6"
                            else (if n == 7 then "7" else (if n == 8 then "8" else "9"))))))))

-- A number in decimal, of at most as many digits as the fuel; a number of u64 has at most 20.
abbrev pub decimal : ℕ → ℕ → String
decimal zero n = ""
decimal (suc fuel) n =
    let high = decimal fuel (n / 10) in if ltb n 10 then digit n else high ++ digit (n % 10)
