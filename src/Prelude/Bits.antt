-- ===== src/Prelude/Bits.antt =====
-- The laws of `^` on numbers of every width, from the digit recursion of the native operation.
use Prim.Native.Nat.{
  ℕ, zero, suc, ◌+◌, ◌*◌, ◌/◌, ◌%◌, ◌^◌, ◌≤◌, ◌<◌, bit_xor, digits, differ, bit_xor-bitwise, bit_or,
  bit_or-bitwise, max,
}
use mathlib.Core.Path.{◌≡◌, refl, ap, sym, ◌∙◌}
use mathlib.Core.WellFounded.{Acc, WellFounded, induction}
use native.Mathlib.Omega.{arith}
use native.Mathlib.Decide.{dec_lt}
use native.Mathlib.Nat.{pow-suc}

Acc-below : (k n : ℕ) → n < k → Acc ◌<◌ n
Acc-below zero n h = elim h [ ]
Acc-below (suc k) n h = Acc.intro n (λ m hm. Acc-below k m (omega arith))

pub lt_wf : WellFounded ◌<◌
lt_wf = record { apply = λ n. Acc-below (suc n) n (omega arith) }

-- The digit recursion gives the same on all fuel that is enough.
module _ (z : ℕ → ℕ) (f : ℕ → ℕ → ℕ) where
  abbrev on_fuel : ℕ → ℕ → ℕ → ℕ
  on_fuel fuel a b = digits z f fuel a b

  one_more : (fuel a b : ℕ) → a ≤ fuel → on_fuel (suc fuel) a b ≡ on_fuel fuel a b
  one_more zero zero b room = refl
  one_more zero (suc a) b room = absurd (omega arith)
  one_more (suc fuel) zero b room = refl
  one_more (suc fuel) (suc a) b room =
      ap (λ (rest : ℕ). rest * 2 + f (suc a % 2) (b % 2))
        (one_more fuel (suc a / 2) (b / 2) (omega arith))

  fuel_enough : (more less a b : ℕ) → less ≤ more → a ≤ less → on_fuel more a b ≡ on_fuel less a b
  fuel_enough zero less a b order room = ap (λ (k : ℕ). on_fuel k a b) {x = 0} (omega arith)
  fuel_enough (suc more) less a b order room = elim (dec_lt more less) [
    | yes equal ↦ ap (λ (k : ℕ). on_fuel k a b) {x = suc more} (omega arith)
    | no smaller ↦ one_more more a b (omega arith) ∙ fuel_enough more less a b (omega arith) room
  ]

xor-suc :
    (a b : ℕ) → bit_xor (suc a) b ≡ bit_xor (suc a / 2) (b / 2) * 2 + differ (suc a % 2) (b % 2)
xor-suc a b = omega (
  arith,
  bit_xor-bitwise (suc a) b,
  bit_xor-bitwise (suc a / 2) (b / 2),
  fuel_enough (λ y. y) differ a (suc a / 2) (suc a / 2) (b / 2) (omega arith) (omega arith),
)

differ_digits : (x y : ℕ) → x < 2 → y < 2 → differ x y ≡ (x + y) % 2
differ_digits zero y p q = omega arith
differ_digits (suc zero) zero p q = refl
differ_digits (suc zero) (suc zero) p q = refl
differ_digits (suc zero) (suc (suc y)) p q = absurd (omega arith)
differ_digits (suc (suc x)) y p q = absurd (omega arith)

pub zero-xor : (b : ℕ) → bit_xor 0 b ≡ b
zero-xor b = bit_xor-bitwise 0 b

-- One equation for the lowest digit.
pub xor_step : (a b : ℕ) → bit_xor a b ≡ bit_xor (a / 2) (b / 2) * 2 + (a + b) % 2
xor_step zero b = omega (arith, zero-xor b, zero-xor (b / 2))
xor_step (suc a) b =
    omega (arith, xor-suc a b, differ_digits (suc a % 2) (b % 2) (omega arith) (omega arith))

-- Each law goes from the halves to the whole.
halving {ℓ} : (P : ℕ → Type ℓ) → P 0 → ((n : ℕ) → P (suc n / 2) → P (suc n)) → (a : ℕ) → P a
halving P base half a = induction lt_wf {C = P} a go
  where
    go : (n : ℕ) → ((m : ℕ) → m < n → P m) → P n
    go zero ih = base
    go (suc n) ih = half n (ih (suc n / 2) (omega arith))

pub xor-zero : (a : ℕ) → bit_xor a 0 ≡ a
xor-zero =
    halving (λ a. bit_xor a 0 ≡ a) (zero-xor 0) (λ n ih. omega (arith, xor_step (suc n) 0, ih))

pub xor_self : (a : ℕ) → bit_xor a a ≡ 0
xor_self =
    halving (λ a. bit_xor a a ≡ 0) (zero-xor 0)
      (λ n ih. omega (arith, xor_step (suc n) (suc n), ih))

pub xor_comm : (a b : ℕ) → bit_xor a b ≡ bit_xor b a
xor_comm =
    halving (λ a. (b : ℕ) → bit_xor a b ≡ bit_xor b a) (λ b. omega (arith, zero-xor b, xor-zero b))
      (λ n ih b. omega (arith, xor_step (suc n) b, xor_step b (suc n), ih (b / 2)))

xor-half : (a b : ℕ) → bit_xor a b / 2 ≡ bit_xor (a / 2) (b / 2)
xor-half a b = omega (arith, xor_step a b)

pub xor_assoc : (a b c : ℕ) → bit_xor (bit_xor a b) c ≡ bit_xor a (bit_xor b c)
xor_assoc =
    halving (λ a. (b c : ℕ) → bit_xor (bit_xor a b) c ≡ bit_xor a (bit_xor b c))
      (λ b c. rw (zero-xor b, zero-xor (bit_xor b c)))
      λ n ih b c. omega (
        arith,
        xor_step (bit_xor (suc n) b) c,
        xor_step (suc n) (bit_xor b c),
        xor_step (suc n) b,
        xor_step b c,
        ap (λ (t : ℕ). bit_xor t (c / 2)) (xor-half (suc n) b),
        ap (λ (t : ℕ). bit_xor (suc n / 2) t) (xor-half b c),
        ih (b / 2) (c / 2),
      )

pub xor_left_comm : (a b c : ℕ) → bit_xor a (bit_xor b c) ≡ bit_xor b (bit_xor a c)
xor_left_comm a b c =
    sym (xor_assoc a b c) ∙ ap (λ (t : ℕ). bit_xor t c) (xor_comm a b) ∙ xor_assoc b a c

pub xor_medial :
    (a b c d : ℕ) → bit_xor (bit_xor a b) (bit_xor c d) ≡ bit_xor (bit_xor a c) (bit_xor b d)
xor_medial a b c d =
    xor_assoc a b (bit_xor c d)
    ∙ ap (bit_xor a) (xor_left_comm b c d)
    ∙ sym (xor_assoc a c (bit_xor b d))

half_zero : (a : ℕ) → a < 2 ^ 0 → a / 2 ≡ 0
half_zero a p = omega arith

-- The bits of a result lie within the bits of its arguments.
pub xor-lt : (k a b : ℕ) → a < 2 ^ k → b < 2 ^ k → bit_xor a b < 2 ^ k
xor-lt zero a b p q =
    omega (arith, xor_step a b, zero-xor (b / 2), ap (λ (t : ℕ). bit_xor t (b / 2)) (half_zero a p))
xor-lt (suc k) a b p q =
    omega (arith, xor_step a b, pow-suc 2 k, xor-lt k (a / 2) (b / 2) (omega arith) (omega arith))

-- Only equal numbers have no bit that differs.
pub xor_equal : (a b : ℕ) → bit_xor a b ≡ 0 → a ≡ b
xor_equal a b e =
    sym (xor-zero a)
    ∙ ap (bit_xor a) (sym (xor_self b))
    ∙ sym (xor_assoc a b b)
    ∙ ap (λ (t : ℕ). bit_xor t b) e
    ∙ zero-xor b

or-suc : (a b : ℕ) → bit_or (suc a) b ≡ bit_or (suc a / 2) (b / 2) * 2 + max (suc a % 2) (b % 2)
or-suc a b = omega (
  arith,
  bit_or-bitwise (suc a) b,
  bit_or-bitwise (suc a / 2) (b / 2),
  fuel_enough (λ y. y) max a (suc a / 2) (suc a / 2) (b / 2) (omega arith) (omega arith),
)

pub or_zero : (a b : ℕ) → bit_or a b ≡ 0 → (a ≡ 0) × (b ≡ 0)
or_zero =
    halving (λ a. (b : ℕ) → bit_or a b ≡ 0 → (a ≡ 0) × (b ≡ 0))
      (λ b e. (refl, sym (bit_or-bitwise 0 b) ∙ e))
      λ n ih b e.
        let below : bit_or (suc n / 2) (b / 2) ≡ 0 = omega (arith, or-suc n b) in
        let (p, q) = ih (b / 2) below in absurd (omega (arith, or-suc n b))

pub zero-or : (b : ℕ) → bit_or 0 b ≡ b
zero-or b = bit_or-bitwise 0 b
