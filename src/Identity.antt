-- ===== src/Identity.antt =====
-- identity.rs: hexadecimal text and fingerprints. Text is the list of its bytes.
use chrono_shift.Prelude.{
  ℕ, zero, suc, ◌+◌, ◌-◌, ◌*◌, ◌/◌, ◌%◌, ◌<◌, ◌≡◌, refl, ap, ◌∙◌, Bool, true, false, not, ◌&&◌,
  ◌||◌, Option, some, none, [], ◌∷◌, ◌++◌, length, take, drop, arith, ltb, leb, ◌==◌, if◌then◌else◌,
  All,
}
use chrono_shift.Prelude.Keys.{Bytes, IsByte}
use chrono_shift.Primitives.{Hash}

-- A digit of `{:02x}`.
abbrev pub hex_digit : ℕ → ℕ
hex_digit n = if ltb n 10 then 48 + n else 87 + n

unfoldable pub hex_encode : Bytes → Bytes
hex_encode [] = []
hex_encode (b ∷ bs) = hex_digit (b / 16) ∷ hex_digit (b % 16) ∷ hex_encode bs

-- `char::to_digit(16)`: digits and letters of both cases.
abbrev pub digit_value : ℕ → Option ℕ
digit_value c =
    if leb 48 c && leb c 57
    then some (c - 48)
    else if leb 97 c && leb c 102
    then some (c - 87)
    else if leb 65 c && leb c 70
    then some (c - 55)
    else none

-- `u8::from_str_radix(.., 16)` on two characters. The standard library takes a sign `+` in front.
abbrev pub pair_value : ℕ → ℕ → Option ℕ
pair_value c d = if c == 43 then digit_value d else elim (digit_value c) [
  | none ↦ none
  | some high ↦ elim (digit_value d) [ none ↦ none | some low ↦ some (high * 16 + low) ]
]

-- `collect` into an `Option`; the length is even.
unfoldable pub decode_pairs : Bytes → Option Bytes
decode_pairs [] = some []
decode_pairs (c ∷ []) = none
decode_pairs (c ∷ d ∷ rest) = elim (pair_value c d) [
  | none ↦ none
  | some b ↦ elim (decode_pairs rest) [ none ↦ none | some bs ↦ some (b ∷ bs) ]
]

abbrev pub is_ascii : Bytes → Bool
is_ascii [] = true
is_ascii (c ∷ cs) = ltb c 128 && is_ascii cs

unfoldable pub hex_decode : Bytes → Option Bytes
unfolding decode_pairs
hex_decode hex = if not (length hex % 2 == 0) || not (is_ascii hex) then none else decode_pairs hex

digit_value-hex_digit : (n : ℕ) → n < 16 → digit_value (hex_digit n) ≡ some n
digit_value-hex_digit n small = ground arith

pair_value-hex_digit :
    (high low : ℕ)
    → high < 16
    → low < 16
    → pair_value (hex_digit high) (hex_digit low) ≡ some (high * 16 + low)
pair_value-hex_digit high low p q =
    let unsigned : (hex_digit high == 43) ≡ false = ground arith in
    rw (unsigned, digit_value-hex_digit high p, digit_value-hex_digit low q) refl

decode_pairs-cons :
    (c d : ℕ) (rest : Bytes) (b : ℕ) (bs : Bytes)
    → pair_value c d ≡ some b
    → decode_pairs rest ≡ some bs
    → decode_pairs (c ∷ d ∷ rest) ≡ some (b ∷ bs)
unfolding decode_pairs
decode_pairs-cons c d rest b bs p q = rw (decode_pairs, p, q) refl

decode_pairs-hex_encode : (bs : Bytes) → All IsByte bs → decode_pairs (hex_encode bs) ≡ some bs
unfolding decode_pairs hex_encode
decode_pairs-hex_encode [] small = refl
decode_pairs-hex_encode (b ∷ bs) small =
    decode_pairs-cons (hex_digit (b / 16)) (hex_digit (b % 16)) (hex_encode bs) b bs
      (pair_value-hex_digit (b / 16) (b % 16) (omega (arith, small.0)) (omega arith)
        ∙ ap some (omega arith))
      (decode_pairs-hex_encode bs small.1)

length-hex_encode : (bs : Bytes) → length (hex_encode bs) ≡ 2 * length bs
unfolding hex_encode
length-hex_encode [] = refl
length-hex_encode (b ∷ bs) = omega (arith, length-hex_encode bs)

is_ascii-hex_encode : (bs : Bytes) → All IsByte bs → is_ascii (hex_encode bs) ≡ true
unfolding hex_encode
is_ascii-hex_encode [] small = refl
is_ascii-hex_encode (b ∷ bs) small = ground (arith, is_ascii-hex_encode bs small.1)

-- Decoding the hexadecimal text of bytes gives the bytes.
pub hex_decode-hex_encode : (bs : Bytes) → All IsByte bs → hex_decode (hex_encode bs) ≡ some bs
unfolding hex_decode
hex_decode-hex_encode bs small =
    let even : (length (hex_encode bs) % 2 == 0) ≡ true = ground (arith, length-hex_encode bs) in
    rw (hex_decode, even, is_ascii-hex_encode bs small) (decode_pairs-hex_encode bs small)

module _ (h : Hash) where
  -- `chunks(4).take(8)`, joined by spaces.
  abbrev pub join_chunks : ℕ → Bytes → Bytes
  join_chunks zero text = []
  join_chunks (suc zero) text = take 4 text
  join_chunks (suc (suc n)) text = take 4 text ++ 32 ∷ join_chunks (suc n) (drop 4 text)

  -- `to_uppercase` of ASCII text.
  abbrev pub uppercase : Bytes → Bytes
  uppercase [] = []
  uppercase (c ∷ cs) = (if leb 97 c && leb c 122 then c - 32 else c) ∷ uppercase cs

  abbrev pub fingerprint_of_public_hex : Bytes → Bytes
  fingerprint_of_public_hex public_hex =
      uppercase (join_chunks 8 (hex_encode (h.digest public_hex)))

-- `hex_to_32`, `public_key` and `parse_verifying_key` ask for 32 bytes.
unfoldable pub decode_key : Bytes → Option Bytes
decode_key hex = elim (hex_decode hex) [
  | none ↦ none
  | some bytes ↦ if length bytes == 32 then some bytes else none
]

pub decode_key-hex_encode :
    (key : Bytes) → length key ≡ 32 → All IsByte key → decode_key (hex_encode key) ≡ some key
unfolding decode_key
decode_key-hex_encode key len small =
    let sized : (length key == 32) ≡ true = ground arith in
    rw (decode_key, hex_decode-hex_encode key small, sized) refl
