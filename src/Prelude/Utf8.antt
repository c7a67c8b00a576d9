-- ===== src/Prelude/Utf8.antt =====
-- `String::from_utf8`: which byte strings are text.
use Prim.Native.Nat.{ℕ}
use mathlib.Core.Bool.{Bool, true, ◌&&◌, ◌||◌}
use mathlib.Core.List.{[], ◌∷◌}
use chrono_shift.Prelude.Tests.{ltb, leb, ◌==◌, if◌then◌else◌}
use chrono_shift.Prelude.Keys.{Bytes}

abbrev pub between : ℕ → ℕ → ℕ → Bool
between lo hi b = leb lo b && leb b hi

-- 128 to 191.
abbrev pub is_continuation : ℕ → Bool
is_continuation b = between 128 191 b

-- The second byte that may follow the first of three, and the first of four.
abbrev pub second_of_three : ℕ → ℕ → Bool
second_of_three b c =
    if b == 224
    then between 160 191 c
    else if b == 237
    then between 128 159 c
    else is_continuation c

abbrev pub second_of_four : ℕ → ℕ → Bool
second_of_four b c =
    if b == 240
    then between 144 191 c
    else if b == 244
    then between 128 143 c
    else is_continuation c

unfoldable pub is_utf8 : Bytes → Bool
is_utf8 [] = true
is_utf8 (b ∷ []) = ltb b 128
is_utf8 (b ∷ c ∷ []) = ltb b 128 && ltb c 128 || between 194 223 b && is_continuation c
is_utf8 (b ∷ c ∷ d ∷ []) =
    (ltb b 128 && is_utf8 (c ∷ d ∷ []))
    || (between 194 223 b && is_continuation c && ltb d 128)
    || (between 224 239 b && second_of_three b c && is_continuation d)
is_utf8 (b ∷ c ∷ d ∷ e ∷ rest) =
    let after_one = is_utf8 (c ∷ d ∷ e ∷ rest) in
    let after_two = is_utf8 (d ∷ e ∷ rest) in
    let after_three = is_utf8 (e ∷ rest) in
    let after_four = is_utf8 rest in
    (ltb b 128 && after_one)
    || (between 194 223 b && is_continuation c && after_two)
    || (between 224 239 b && second_of_three b c && is_continuation d && after_three)
    || (between 240 244 b
        && second_of_four b c
        && is_continuation d
        && is_continuation e
        && after_four)
