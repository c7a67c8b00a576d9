-- ===== src/Prelude/Words.antt =====
-- `to_be_bytes` and `from_be_bytes`, and slices that are written in place.
use Prim.Native.Nat.{ℕ, zero, suc, ◌+◌, ◌*◌, ◌/◌, ◌%◌, ◌^◌, ◌<◌}
use mathlib.Core.Path.{◌≡◌, refl, sym, ap, ap₂, ◌∙◌}
use mathlib.Core.List.{append_assoc, append-nil, [], ◌∷◌, ◌++◌}
use native.Mathlib.Omega.{arith}
use chrono_shift.Prelude.Keys.{Bytes}
use chrono_shift.Prelude.Lists.{
  length, take, drop, drop_all, take-append, drop-append, length-append,
}

-- The `w` low bytes of `n`, highest first.
abbrev pub to_be_bytes : ℕ → ℕ → Bytes
to_be_bytes zero n = []
to_be_bytes (suc w) n = (n / 256 ^ w % 256) ∷ to_be_bytes w n

abbrev pub from_be : ℕ → Bytes → ℕ
from_be acc [] = acc
from_be acc (b ∷ bs) = from_be (acc * 256 + b) bs

abbrev pub from_be_bytes : Bytes → ℕ
from_be_bytes = from_be 0

pub length-to_be_bytes : (w n : ℕ) → length (to_be_bytes w n) ≡ w
length-to_be_bytes zero n = refl
length-to_be_bytes (suc w) n = omega (arith, length-to_be_bytes w n)

-- A u32 survives the wire.
pub from_be_bytes-to_be_bytes : (n : ℕ) → n < 2 ^ 32 → from_be_bytes (to_be_bytes 4 n) ≡ n
from_be_bytes-to_be_bytes n h = omega arith

-- And a u64.
pub from_be_bytes-u64 : (n : ℕ) → n < 2 ^ 64 → from_be_bytes (to_be_bytes 8 n) ≡ n
from_be_bytes-u64 n h = omega arith

-- So equal bytes come from equal numbers.
pub u32_injective : (m n : ℕ) → m < 2 ^ 32 → n < 2 ^ 32 → to_be_bytes 4 m ≡ to_be_bytes 4 n → m ≡ n
u32_injective m n p q e =
    sym (from_be_bytes-to_be_bytes m p) ∙ ap from_be_bytes e ∙ from_be_bytes-to_be_bytes n q

pub u64_injective : (m n : ℕ) → m < 2 ^ 64 → n < 2 ^ 64 → to_be_bytes 8 m ≡ to_be_bytes 8 n → m ≡ n
u64_injective m n p q e = sym (from_be_bytes-u64 m p) ∙ ap from_be_bytes e ∙ from_be_bytes-u64 n q

-- A part of known length is cut off on both sides.
pub split_equal : (a b c d : Bytes) → length a ≡ length b → a ++ c ≡ b ++ d → (a ≡ b) × (c ≡ d)
split_equal a b c d same e = (
  sym (take-append a c) ∙ ap₂ take same e ∙ take-append b d,
  sym (drop-append a c) ∙ ap₂ drop same e ∙ drop-append b d,
)

-- A field with its length in front is read off in one way.
pub field_injective :
    (a b c d : Bytes)
    → length a < 2 ^ 32
    → length b < 2 ^ 32
    → to_be_bytes 4 (length a) ++ (a ++ c) ≡ to_be_bytes 4 (length b) ++ (b ++ d)
    → (a ≡ b) × (c ≡ d)
field_injective a b c d p q e =
    let (len, rest) =
      split_equal (to_be_bytes 4 (length a)) (to_be_bytes 4 (length b)) (a ++ c) (b ++ d) refl e in
    split_equal a b c d (u32_injective (length a) (length b) p q len) rest

-- `dst[i..i + src.len()].copy_from_slice(src)`
unfoldable pub copy_at : ℕ → Bytes → Bytes → Bytes
copy_at i src dst = take i dst ++ (src ++ drop (i + length src) dst)

-- The bytes before and behind the slice stay.
pub copy_at_layout :
    (i : ℕ) (src xs us vs : Bytes)
    → length xs ≡ i
    → length us ≡ length src
    → copy_at i src (xs ++ (us ++ vs)) ≡ xs ++ (src ++ vs)
unfolding copy_at
copy_at_layout i src xs us vs p q =
    ap₂ (λ (a b : Bytes). a ++ (src ++ b)) (rw (← p) (take-append xs (us ++ vs)))
      (rw (← append_assoc) (rw behind (drop-append (xs ++ us) vs)))
  where
    behind : i + length src ≡ length (xs ++ us)
    behind = omega (arith, length-append xs us)

-- A slice of the whole length replaces everything.
pub copy_at_whole : (src dst : Bytes) → length src ≡ length dst → copy_at 0 src dst ≡ src
unfolding copy_at
copy_at_whole src dst e =
    ap (◌++◌ src) (drop_all (0 + length src) dst (omega arith)) ∙ append-nil src
