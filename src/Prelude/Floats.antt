-- ===== src/Prelude/Floats.antt =====
-- f64, for the finite numbers from 0 on: `mant` / 2 ^ `exp`, where a number may stand in several
-- ways. Results are rounded to the nearest, ties to even, to 53 bits, and to multiples of 2 ^ -1074.
use Prim.Native.Nat.{ℕ, zero, suc, ◌+◌, ◌-◌, ◌*◌, ◌/◌, ◌%◌, ◌^◌, max}
use mathlib.Core.Bool.{Bool, true, false, not, ◌&&◌, ◌||◌}
use chrono_shift.Prelude.Tests.{ltb, ◌==◌, if◌then◌else◌}

pub record F64 : Type 0 where
  pub mant : ℕ
  pub exp : ℕ

-- How many binary digits there are, up to a bound.
unfoldable pub bit_length : ℕ → ℕ → ℕ
bit_length zero n = 0
bit_length (suc bound) n = elim (n == 0) [ true ↦ 0 | false ↦ suc (bit_length bound (n / 2)) ]

-- `n / 2 ^ k` to the nearest, ties to even.
unfoldable pub shift_right : ℕ → ℕ → ℕ
shift_right n k =
    let q = n / 2 ^ k in
    let r = n % 2 ^ k in if ltb (2 ^ k) (2 * r) || (2 ^ k == 2 * r && q % 2 == 1) then q + 1 else q

-- 1200 digits are more than the operations on scores, which are at most 2 ^ 64, come to.
unfoldable pub round : ℕ → ℕ → F64
round m e =
    let k = max (bit_length 1200 m - 53) (e - 1074) in
    record { mant = shift_right m k * 2 ^ (k - e); exp = e - k }

unfoldable pub f_add : F64 → F64 → F64
f_add a b = let e = max a.exp b.exp in round (a.mant * 2 ^ (e - a.exp) + b.mant * 2 ^ (e - b.exp)) e

unfoldable pub f_mul : F64 → F64 → F64
f_mul a b = round (a.mant * b.mant) (a.exp + b.exp)

-- The lowest digit says whether the division left something.
unfoldable pub f_div : F64 → F64 → F64
f_div a b =
    let n = a.mant * 2 ^ (200 + b.exp) in
    round (2 * (n / b.mant) + (if n % b.mant == 0 then 0 else 1)) (201 + a.exp)

unfoldable pub f_ltb : F64 → F64 → Bool
f_ltb a b = ltb (a.mant * 2 ^ b.exp) (b.mant * 2 ^ a.exp)

unfoldable pub f_leb : F64 → F64 → Bool
unfolding f_ltb
f_leb a b = not (f_ltb b a)

unfoldable pub f_min : F64 → F64 → F64
unfolding f_ltb
f_min a b = if f_ltb a b then a else b

-- `n as f64`
unfoldable pub of_nat : ℕ → F64
of_nat n = round n 0

-- The constants of the source, as the nearest numbers.
abbrev pub f_zero : F64
f_zero = record { mant = 0; exp = 0 }

abbrev pub f_one : F64
f_one = record { mant = 1; exp = 0 }

abbrev pub f_half : F64
f_half = record { mant = 1; exp = 1 }

-- 0.7
abbrev pub f_0_7 : F64
f_0_7 = record { mant = 6305039478318694; exp = 53 }

-- 0.05
abbrev pub f_0_05 : F64
f_0_05 = record { mant = 7205759403792794; exp = 57 }

-- 0.3
abbrev pub f_0_3 : F64
f_0_3 = record { mant = 5404319552844595; exp = 54 }

-- 0.8
abbrev pub f_0_8 : F64
f_0_8 = record { mant = 7205759403792794; exp = 53 }
