-- ===== src/Identity/Field.antt =====
-- crates/resonance-agent/src/identity.rs: a field of the registry's file. A text is the list of its
-- code points; `as_bytes` and `from_utf8` of the standard library are parameters.
use resonance_signal.Base.{
  ℕ, ◌+◌, ◌*◌, ◌-◌, ◌/◌, ◌%◌, ◌<◌, ◌≡◌, refl, ap, ◌∙◌, Bool, true, false, Bool-cases, inl, inr,
  Option, none, some, List, [], ◌∷◌, ◌++◌, not, ◌&&◌, ◌==◌, leb, ltb, Result, ok, err, ok_or, ◌>>=◌,
  if◌then◌else◌, arith,
}
use resonance_signal.Identity.{RegistryError, corrupt_registry}

abbrev percent : ℕ
percent = 37

-- `{:X}` of a number below 16
abbrev pub upper_hex : ℕ → ℕ
upper_hex n = if ltb n 10 then 48 + n else 55 + n

-- The bytes that stand for themselves.
abbrev pub is_plain : ℕ → Bool
is_plain byte = leb 32 byte && leb byte 126 && not (byte == 124) && not (byte == 37)

abbrev pub encode_byte : ℕ → List ℕ
encode_byte byte =
    if is_plain byte
    then byte ∷ []
    else percent ∷ upper_hex (byte / 16) ∷ upper_hex (byte % 16) ∷ []

-- `encode_field`, of the bytes of its argument
unfoldable pub encode_field : List ℕ → List ℕ
encode_field [] = []
encode_field (byte ∷ bytes) = encode_byte byte ++ encode_field bytes

abbrev pub hex_digit : ℕ → Option ℕ
hex_digit c =
    if leb 48 c && leb c 57
    then some (c - 48)
    else (if leb 65 c && leb c 70
        then some (c - 55)
        else (if leb 97 c && leb c 102 then some (c - 87) else none))

-- `u8::from_str_radix` of two characters, in base 16: the first may be a plus sign.
abbrev pub from_hex : ℕ → ℕ → Option ℕ
from_hex hi lo = if hi == 43 then hex_digit lo else elim (hex_digit hi) [
  | none ↦ none
  | some h ↦ elim (hex_digit lo) [ none ↦ none | some l ↦ some (h * 16 + l) ]
]

-- `char::encode_utf8`
abbrev pub encode_utf8 : ℕ → List ℕ
encode_utf8 c =
    if ltb c 128
    then c ∷ []
    else (if ltb c 2048
        then (192 + c / 64) ∷ (128 + c % 64) ∷ []
        else (if ltb c 65536
            then (224 + c / 4096) ∷ (128 + c / 64 % 64) ∷ (128 + c % 64) ∷ []
            else (240 + c / 262144)
              ∷ (128 + c / 4096 % 64)
              ∷ (128 + c / 64 % 64)
              ∷ (128 + c % 64)
              ∷ []))

-- The loop of `decode_field`.
unfoldable pub decode_bytes : List ℕ → Result RegistryError (List ℕ)
decode_bytes [] = ok []
decode_bytes (c ∷ []) = if not (c == percent) then ok (encode_utf8 c) else err corrupt_registry
decode_bytes (c ∷ hi ∷ []) = elim (not (c == percent)) [
  | true ↦ decode_bytes (hi ∷ []) >>= λ bytes. ok (encode_utf8 c ++ bytes)
  | false ↦ err corrupt_registry
]
decode_bytes (c ∷ hi ∷ lo ∷ text) = elim (not (c == percent)) [
  | true ↦ decode_bytes (hi ∷ lo ∷ text) >>= λ bytes. ok (encode_utf8 c ++ bytes)
  | false ↦ ok_or (from_hex hi lo) corrupt_registry >>= λ byte.
      decode_bytes text >>= λ bytes. ok (byte ∷ bytes)
]

plain_tests : (c : ℕ) → is_plain c ≡ true → (not (c == percent) ≡ true) × (encode_utf8 c ≡ c ∷ [])
plain_tests c h = (ground arith, ground arith)

-- A byte that stands for itself is read back.
decode_bytes-plain :
    (c : ℕ) (text bytes : List ℕ)
    → is_plain c ≡ true
    → decode_bytes text ≡ ok bytes
    → decode_bytes (c ∷ text) ≡ ok (c ∷ bytes)
unfolding decode_bytes
decode_bytes-plain c [] bytes h k =
    let (other, one) = plain_tests c h in let none_left : ok [] ≡ ok bytes = k in rw (other, one) cc
decode_bytes-plain c (x ∷ []) bytes h k =
    let (other, one) = plain_tests c h in rw (other, k, one, decode_bytes) refl
decode_bytes-plain c (x ∷ y ∷ text) bytes h k =
    let (other, one) = plain_tests c h in rw (other, k, one, decode_bytes) refl

-- A hexadecimal digit is read back, and it is no sign.
hex_digit-upper_hex :
    (n : ℕ) → n < 16 → (hex_digit (upper_hex n) ≡ some n) × ((upper_hex n == 43) ≡ false)
hex_digit-upper_hex n h = (ground arith, ground arith)

from_hex-digits :
    (hi lo h l : ℕ)
    → (hi == 43) ≡ false
    → hex_digit hi ≡ some h
    → hex_digit lo ≡ some l
    → from_hex hi lo ≡ some (h * 16 + l)
from_hex-digits hi lo h l sign e f = rw (sign, e, f) refl

from_hex-upper_hex :
    (byte : ℕ) → byte < 256 → from_hex (upper_hex (byte / 16)) (upper_hex (byte % 16)) ≡ some byte
from_hex-upper_hex byte h =
    let (high, sign) = hex_digit-upper_hex (byte / 16) (omega arith) in
    let (low, _) = hex_digit-upper_hex (byte % 16) (omega arith) in
    let whole : byte / 16 * 16 + byte % 16 ≡ byte = omega arith in
    from_hex-digits (upper_hex (byte / 16)) (upper_hex (byte % 16)) (byte / 16) (byte % 16) sign
      high low
    ∙ ap some whole

decode_bytes-escaped :
    (hi lo byte : ℕ) (text bytes : List ℕ)
    → from_hex hi lo ≡ some byte
    → decode_bytes text ≡ ok bytes
    → decode_bytes (percent ∷ hi ∷ lo ∷ text) ≡ ok (byte ∷ bytes)
unfolding decode_bytes
decode_bytes-escaped hi lo byte text bytes h k = rw (h, k) refl

abbrev pub Bytes : List ℕ → Type 0
Bytes [] = Unit
Bytes (byte ∷ bytes) = (byte < 256) × Bytes bytes

decode_bytes-encode_field :
    (bytes : List ℕ) → Bytes bytes → decode_bytes (encode_field bytes) ≡ ok bytes
unfolding encode_field decode_bytes
decode_bytes-encode_field [] h = refl
decode_bytes-encode_field (byte ∷ bytes) (h, k) = elim (Bool-cases (is_plain byte)) [
  | inl p ↦
      rw p
        (decode_bytes-plain byte (encode_field bytes) bytes p (decode_bytes-encode_field bytes k))
  | inr p ↦ rw p (
      decode_bytes-escaped (upper_hex (byte / 16)) (upper_hex (byte % 16)) byte (encode_field bytes)
        bytes (from_hex-upper_hex byte h) (decode_bytes-encode_field bytes k))
]

module _ {Text : Type 0} (as_bytes : Text → List ℕ) (from_utf8 : List ℕ → Option Text) where
  unfoldable pub decode_field : List ℕ → Result RegistryError Text
  decode_field value = decode_bytes value >>= λ bytes. ok_or (from_utf8 bytes) corrupt_registry

  -- A field that was written is read back: for a text whose bytes are below 256 and that is read
  -- back from them, decoding the encoded bytes gives the text, with whatever characters it has.
  pub decode_field-encode_field :
      (value : Text)
      → Bytes (as_bytes value)
      → from_utf8 (as_bytes value) ≡ some value
      → decode_field (encode_field (as_bytes value)) ≡ ok value
  unfolding decode_field
  decode_field-encode_field value h k =
      let read = decode_bytes-encode_field (as_bytes value) h in rw (read, k) refl
