-- ===== src/Dcnet/Xor.antt =====
-- `xor_bytes` of dcnet/mod.rs: the bytes of the longer input, the shorter one read as if it
-- ended in zeros.
use Prim.Native.Nat.{max}
use chrono_shift.Prelude.{
  ℕ, zero, suc, ◌+◌, ◌≤◌, ◌<◌, bit_xor, ◌≡◌, refl, ap, ap₂, ◌∙◌, [], ◌∷◌, arith, length, get_or,
  replicate, length-replicate, get_or_ext, get_or_past, get_or-replicate,
}
use native.Mathlib.Decide.{dec_lt}
use chrono_shift.Prelude.Keys.{Bytes}
use chrono_shift.Prelude.Bits.{xor_comm, xor_assoc, xor_self, xor-zero, zero-xor}

-- The loop at index `i`, with `n` bytes of the result left to write.
xor_from : ℕ → ℕ → Bytes → Bytes → Bytes
xor_from zero i a b = []
xor_from (suc n) i a b = bit_xor (get_or a i 0) (get_or b i 0) ∷ xor_from n (suc i) a b

unfoldable pub xor_bytes : Bytes → Bytes → Bytes
unfolding xor_from
xor_bytes a b = xor_from (max (length a) (length b)) 0 a b

length-xor_from : (n i : ℕ) (a b : Bytes) → length (xor_from n i a b) ≡ n
unfolding xor_from
length-xor_from zero i a b = refl
length-xor_from (suc n) i a b = ap suc (length-xor_from n (suc i) a b)

pub length-xor_bytes : (a b : Bytes) → length (xor_bytes a b) ≡ max (length a) (length b)
unfolding xor_bytes
length-xor_bytes a b = length-xor_from (max (length a) (length b)) 0 a b

get_or-xor_from :
    (n i j : ℕ) (a b : Bytes)
    → j < n
    → get_or (xor_from n i a b) j 0 ≡ bit_xor (get_or a (i + j) 0) (get_or b (i + j) 0)
unfolding xor_from
get_or-xor_from zero i j a b h = absurd (omega arith)
get_or-xor_from (suc n) i zero a b h =
    ap (λ (t : ℕ). bit_xor (get_or a t 0) (get_or b t 0)) (omega arith)
get_or-xor_from (suc n) i (suc j) a b h =
    get_or-xor_from n (suc i) j a b (omega arith)
    ∙ ap (λ (t : ℕ). bit_xor (get_or a t 0) (get_or b t 0)) (omega arith)

-- Every byte of the result, those out of range being 0.
pub get_or-xor_bytes :
    (a b : Bytes) (j : ℕ) → get_or (xor_bytes a b) j 0 ≡ bit_xor (get_or a j 0) (get_or b j 0)
get_or-xor_bytes a b j = elim (dec_lt j (max (length a) (length b))) [
  | yes inside ↦
      unfold xor_bytes in
      get_or-xor_from (max (length a) (length b)) 0 j a b inside
      ∙ ap (λ (t : ℕ). bit_xor (get_or a t 0) (get_or b t 0)) (omega arith)
  | no outside ↦ omega (
    arith,
    get_or_past (xor_bytes a b) j (omega (arith, length-xor_bytes a b)),
    ap₂ bit_xor (get_or_past a j (omega arith)) (get_or_past b j (omega arith)),
    zero-xor 0,
  )
]

-- Two results of one length are equal when their bytes are.
xor_bytes_ext :
    (a b : Bytes) → length a ≡ length b → ((i : ℕ) → get_or a i 0 ≡ get_or b i 0) → a ≡ b
xor_bytes_ext = get_or_ext 0

pub xor_bytes_comm : (a b : Bytes) → xor_bytes a b ≡ xor_bytes b a
xor_bytes_comm a b =
    xor_bytes_ext _ _ (omega (arith, length-xor_bytes a b, length-xor_bytes b a))
      λ i. rw (get_or-xor_bytes a b i, get_or-xor_bytes b a i) (xor_comm _ _)

pub xor_bytes_assoc : (a b c : Bytes) → xor_bytes (xor_bytes a b) c ≡ xor_bytes a (xor_bytes b c)
xor_bytes_assoc a b c =
    xor_bytes_ext _ _
      (omega (
        arith,
        length-xor_bytes (xor_bytes a b) c,
        length-xor_bytes a b,
        length-xor_bytes a (xor_bytes b c),
        length-xor_bytes b c,
      ))
      λ i. simp get_or-xor_bytes (xor_assoc _ _ _)

-- A mask that is no longer than the text comes off again.
pub xor_bytes_cancel : (a b : Bytes) → length b ≤ length a → xor_bytes (xor_bytes a b) b ≡ a
xor_bytes_cancel a b h =
    xor_bytes_ext _ _ (omega (arith, length-xor_bytes (xor_bytes a b) b, length-xor_bytes a b))
      λ i. simp (get_or-xor_bytes, xor_assoc, xor_self, xor-zero)

-- Zeros that are no longer than the text change nothing.
pub zeros-xor_bytes : (n : ℕ) (a : Bytes) → n ≤ length a → xor_bytes (replicate n 0) a ≡ a
zeros-xor_bytes n a h =
    xor_bytes_ext _ _
      (omega (arith, length-xor_bytes (replicate n 0) a, length-replicate {A = ℕ} n 0))
      λ i. simp (get_or-xor_bytes, get_or-replicate, zero-xor)
