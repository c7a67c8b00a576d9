-- ===== src/Crypto/Compare.antt =====
-- `constant_time_eq` of crypto.rs.
use Prim.Native.Nat.{bit_or}
use chrono_shift.Prelude.{
  ℕ, zero, suc, ◌+◌, ◌<◌, ◌≡◌, ◌↔◌, refl, sym, subst, get_or_ext, get_or_past, ap, ap₂, ◌∙◌, Bool,
  true, ◌&&◌, bit_xor, length, get_or, arith, min, ◌==◌,
}
use native.Mathlib.Decide.{dec_lt}
use chrono_shift.Prelude.Bits.{or_zero, zero-or, xor_equal, xor_self}
use chrono_shift.Prelude.Keys.{Bytes}

-- The loop at index `i`, with `n` indices left.
diff_from : ℕ → ℕ → ℕ → Bytes → Bytes → ℕ
diff_from zero i diff a b = diff
diff_from (suc n) i diff a b =
    diff_from n (suc i) (bit_or diff (bit_xor (get_or a i 0) (get_or b i 0))) a b

unfoldable pub constant_time_eq : Bytes → Bytes → Bool
unfolding diff_from
constant_time_eq a b = diff_from (min (length a) (length b)) 0 0 a b == 0 && length a == length b

-- No difference so far and none to come.
diff_from_iff :
    (n i diff : ℕ) (a b : Bytes)
    → (diff_from n i diff a b ≡ 0)
      ↔ ((diff ≡ 0) × ((j : ℕ) → j < n → get_or a (i + j) 0 ≡ get_or b (i + j) 0))
unfolding diff_from
diff_from_iff zero i diff a b = (λ e. (e, λ j small. absurd (omega arith)), λ (e, same). e)
diff_from_iff (suc n) i diff a b =
    let rest = diff_from_iff n (suc i) (bit_or diff (bit_xor (get_or a i 0) (get_or b i 0))) a b in
    (
      λ e.
          let (mixed, later) = rest.0 e in
          let (before, here) = or_zero diff (bit_xor (get_or a i 0) (get_or b i 0)) mixed in
          (before, same_at i n a b (xor_equal (get_or a i 0) (get_or b i 0) here) later),
      λ (before, same). rest.1 (
        ap₂ bit_or before
              (ap (λ t. bit_xor t (get_or b i 0)) (here_at i n a b same) ∙ xor_self (get_or b i 0))
            ∙ zero-or 0,
        λ j small. later_at i n a b same j small,
      ),
    )
  where
    here_at :
        (i n : ℕ) (a b : Bytes)
        → ((j : ℕ) → j < suc n → get_or a (i + j) 0 ≡ get_or b (i + j) 0)
        → get_or a i 0 ≡ get_or b i 0
    here_at i n a b same =
        subst (λ (k : ℕ). get_or a k 0 ≡ get_or b k 0) {x = i + 0} {y = i} (omega arith)
          (same 0 (omega arith))

    later_at :
        (i n : ℕ) (a b : Bytes)
        → ((j : ℕ) → j < suc n → get_or a (i + j) 0 ≡ get_or b (i + j) 0)
        → (j : ℕ) → j < n
        → get_or a (suc i + j) 0 ≡ get_or b (suc i + j) 0
    later_at i n a b same j small =
        subst (λ (k : ℕ). get_or a k 0 ≡ get_or b k 0) {x = i + suc j} {y = suc i + j} (omega arith)
          (same (suc j) (omega arith))

    same_at :
        (i n : ℕ) (a b : Bytes)
        → get_or a i 0 ≡ get_or b i 0
        → ((j : ℕ) → j < n → get_or a (suc i + j) 0 ≡ get_or b (suc i + j) 0)
        → (j : ℕ) → j < suc n
        → get_or a (i + j) 0 ≡ get_or b (i + j) 0
    same_at i n a b here later zero small =
        subst (λ (k : ℕ). get_or a k 0 ≡ get_or b k 0) {x = i} {y = i + 0} (omega arith) here
    same_at i n a b here later (suc j) small =
        subst (λ (k : ℕ). get_or a k 0 ≡ get_or b k 0) {x = suc i + j} {y = i + suc j} (omega arith)
          (later j (omega arith))

-- The comparison looks at every index of the shorter string and at the two lengths; it holds
-- exactly for equal strings.
pub constant_time_eq_iff : (a b : Bytes) → (constant_time_eq a b ≡ true) ↔ (a ≡ b)
unfolding constant_time_eq
constant_time_eq_iff a b =
    let n = min (length a) (length b) in
    let loop = diff_from_iff n 0 0 a b in
    (
      λ e.
          let len : length a ≡ length b = ground arith in
          let none_differs : diff_from n 0 0 a b ≡ 0 = ground arith in
          get_or_ext 0 a b len (all_same a b len (loop.0 none_differs).1),
      λ e. rw e (
          let no_diff =
            (diff_from_iff (min (length b) (length b)) 0 0 b b).1 (refl, λ j small. refl) in
          ground arith),
    )
  where
    all_same :
        (a b : Bytes)
        → length a ≡ length b
        → ((j : ℕ) → j < min (length a) (length b) → get_or a (0 + j) 0 ≡ get_or b (0 + j) 0)
        → (j : ℕ) → get_or a j 0 ≡ get_or b j 0
    all_same a b len same j = elim (dec_lt j (length a)) [
      | yes inside ↦
          subst (λ (k : ℕ). get_or a k 0 ≡ get_or b k 0) {x = 0 + j} {y = j} (omega arith)
            (same j (omega arith))
      | no outside ↦ get_or_past a j (omega arith) ∙ sym (get_or_past b j (omega arith))
    ]
