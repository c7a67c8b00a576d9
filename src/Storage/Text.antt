-- ===== src/Storage/Text.antt =====
-- The text of a line of the log.
use chrono_shift.Prelude.{
  ℕ, zero, suc, ◌+◌, ◌/◌, ◌%◌, ◌≤◌, ◌<◌, ◌≡◌, ◌≢◌, refl, ap, ◌∙◌, true, false, none, some, [], ◌∷◌,
  ◌++◌, take, ltb, ◌==◌, arith, All, Bool-cases, inl, inr,
}
use chrono_shift.Prelude.Keys.{Bytes}
use chrono_shift.Prelude.Utf8.{is_utf8, between}
use chrono_shift.Storage.{decimal, decimal_from, lines_of, from_brace, extend_first}

abbrev pub IsDigit : ℕ → Type 0
IsDigit b = (48 ≤ b) × (b ≤ 57)

decimal_from-IsDigit :
    (fuel n : ℕ) (tail : Bytes) → All IsDigit tail → All IsDigit (decimal_from fuel n tail)
unfolding decimal_from
decimal_from-IsDigit zero n tail all = all
decimal_from-IsDigit (suc fuel) n tail all =
    let here : All IsDigit ((48 + n % 10) ∷ tail) = ((omega arith, omega arith), all) in
    elim (Bool-cases (n / 10 == 0)) [
      | inl done ↦ rw (decimal_from, done) here
      | inr more ↦ rw (decimal_from, more) (decimal_from-IsDigit fuel (n / 10) _ here)
    ]

pub decimal-IsDigit : (n : ℕ) → All IsDigit (decimal n)
unfolding decimal
decimal-IsDigit n = decimal_from-IsDigit (n + 1) n [] tt

-- No control characters.
abbrev pub IsPlain : ℕ → Type 0
IsPlain b = 32 ≤ b

lines_of-plain : (b : ℕ) (bs : Bytes) → 32 ≤ b → lines_of (b ∷ bs) ≡ extend_first b (lines_of bs)
unfolding lines_of
lines_of-plain b bs h =
    let not_newline : (b == 10) ≡ false = ground arith in
    let not_return : (b == 13) ≡ false = ground arith in rw (lines_of, not_newline, not_return) refl

lines_of-nil : lines_of [] ≡ []
unfolding lines_of
lines_of-nil = refl

pub lines_of-line :
    (line more : Bytes) → All IsPlain line → lines_of (line ++ 10 ∷ more) ≡ line ∷ lines_of more
unfolding lines_of
lines_of-line [] more all = refl
lines_of-line (b ∷ line) more all =
    lines_of-plain b (line ++ 10 ∷ more) all.0 ∙ ap (extend_first b) (lines_of-line line more all.1)

-- What is left of a line without its end is a line of its own.
pub lines_of-torn :
    (b : ℕ) (torn : Bytes) → All IsPlain (b ∷ torn) → lines_of (b ∷ torn) ≡ (b ∷ torn) ∷ []
lines_of-torn b [] all = lines_of-plain b [] all.0 ∙ ap (extend_first b) lines_of-nil
lines_of-torn b (c ∷ torn) all =
    lines_of-plain b (c ∷ torn) all.0 ∙ ap (extend_first b) (lines_of-torn c torn all.1)

pub from_brace-behind :
    (front rest : Bytes)
    → All (λ b. b ≢ 123) front
    → from_brace (front ++ 123 ∷ rest) ≡ some (123 ∷ rest)
unfolding from_brace
from_brace-behind [] rest all = refl
from_brace-behind (b ∷ front) rest all = ground (arith, from_brace-behind front rest all.1, all.0)

pub from_brace-none : (bs : Bytes) → All (λ b. b ≢ 123) bs → from_brace bs ≡ none
unfolding from_brace
from_brace-none [] all = refl
from_brace-none (b ∷ bs) all = ground (arith, from_brace-none bs all.1, all.0)

is_utf8-ascii : (b : ℕ) (bs : Bytes) → b < 128 → is_utf8 (b ∷ bs) ≡ is_utf8 bs
unfolding is_utf8
is_utf8-ascii b [] h = ground arith
is_utf8-ascii b (c ∷ []) h = ground arith
is_utf8-ascii b (c ∷ d ∷ []) h = ground arith
is_utf8-ascii b (c ∷ d ∷ e ∷ rest) h =
    let low : ltb b 128 ≡ true = ground arith in
    let two : between 194 223 b ≡ false = ground arith in
    let three : between 224 239 b ≡ false = ground arith in
    let four : between 240 244 b ≡ false = ground arith in
    elim (Bool-cases (is_utf8 (c ∷ d ∷ e ∷ rest))) [
      | inl yes_text ↦ rw (low, two, three, four, yes_text) refl
      | inr no_text ↦ rw (low, two, three, four, no_text) refl
    ]

pub is_utf8-behind :
    (front bs : Bytes) → All (λ b. b < 128) front → is_utf8 (front ++ bs) ≡ is_utf8 bs
is_utf8-behind [] bs all = refl
is_utf8-behind (b ∷ front) bs all =
    is_utf8-ascii b (front ++ bs) all.0 ∙ is_utf8-behind front bs all.1

pub All-append {κ} : (P : ℕ → Type κ) (xs ys : Bytes) → All P xs → All P ys → All P (xs ++ ys)
All-append P [] ys p q = q
All-append P (x ∷ xs) ys p q = (p.0, All-append P xs ys p.1 q)

pub All-take {κ} : (P : ℕ → Type κ) (n : ℕ) (xs : Bytes) → All P xs → All P (take n xs)
All-take P zero xs all = tt
All-take P (suc n) [] all = tt
All-take P (suc n) (x ∷ xs) all = (all.0, All-take P n xs all.1)
