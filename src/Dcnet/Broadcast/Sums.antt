-- ===== src/Dcnet/Broadcast/Sums.antt =====
-- Sums under `^` over a list of members.
use mathlib.Core.List.{Perm, Permᴰ}
use mathlib.Core.Logic.{∥∥₁_elim}
use native.Mathlib.Nat.{ℕ_set}
use chrono_shift.Prelude.{
  ℕ, ◌≡◌, refl, sym, ap, ap₂, ◌∙◌, bit_xor, true, false, List, [], ◌∷◌, if◌then◌else◌, Bool-cases,
  inl, inr,
}
use chrono_shift.Prelude.Bits.{xor_self, xor-zero, zero-xor, xor_left_comm, xor_medial}
use chrono_shift.Prelude.Keys.{Eq, ◌=?◌, =?_iff, contains, contains_head, contains_tail, Distinct}

module _ {ℓ} {A : Type ℓ} where
  abbrev pub xor_sum : (A → ℕ) → List A → ℕ
  xor_sum f [] = 0
  xor_sum f (x ∷ xs) = bit_xor (f x) (xor_sum f xs)

  xor_sum-permᴰ : (f : A → ℕ) {xs ys : List A} → Permᴰ xs ys → xor_sum f xs ≡ xor_sum f ys
  xor_sum-permᴰ f Permᴰ.nil = refl
  xor_sum-permᴰ f (Permᴰ.cons e p) = ap₂ bit_xor (ap f e) (xor_sum-permᴰ f p)
  xor_sum-permᴰ f (Permᴰ.swap {a = a} {b = b} {l = l} p q) =
      xor_left_comm (f a) (f b) (xor_sum f l)
      ∙ ap₂ (λ (s t : ℕ). bit_xor s (bit_xor t (xor_sum f l))) (ap f q) (ap f p)
  xor_sum-permᴰ f (Permᴰ.trans p q) = xor_sum-permᴰ f p ∙ xor_sum-permᴰ f q

  -- The order of the members does not matter.
  pub xor_sum-perm : (f : A → ℕ) {xs ys : List A} → Perm xs ys → xor_sum f xs ≡ xor_sum f ys
  xor_sum-perm f p = ∥∥₁_elim p (ℕ_set _ _) (xor_sum-permᴰ f)

  pub xor_sum-xor :
      (f g : A → ℕ) (xs : List A)
      → xor_sum (λ x. bit_xor (f x) (g x)) xs ≡ bit_xor (xor_sum f xs) (xor_sum g xs)
  xor_sum-xor f g [] = sym (xor_self 0)
  xor_sum-xor f g (x ∷ xs) =
      rw (xor_sum-xor f g xs) (xor_medial (f x) (g x) (xor_sum f xs) (xor_sum g xs))

module _ {ℓ} {A : Type ℓ} ⦃e : Eq A⦄ where
  pub xor_sum_ext :
      (f g : A → ℕ) (xs : List A)
      → ((x : A) → contains xs x ≡ true → f x ≡ g x)
      → xor_sum f xs ≡ xor_sum g xs
  xor_sum_ext f g [] same = refl
  xor_sum_ext f g (x ∷ xs) same =
      ap₂ bit_xor (same x (contains_head x xs))
        (xor_sum_ext f g xs (λ y m. same y (contains_tail x xs y m)))

  grid_column :
      (d : A → A → ℕ) (p : A) (xs ys : List A)
      → ((x : A) → contains xs x ≡ true → d x p ≡ d p x)
      → xor_sum (λ x. xor_sum (d x) (p ∷ ys)) xs
        ≡ bit_xor (xor_sum (d p) xs) (xor_sum (λ x. xor_sum (d x) ys) xs)
  grid_column d p xs ys comm =
      xor_sum-xor (λ x. d x p) (λ x. xor_sum (d x) ys) xs
      ∙ ap (λ (t : ℕ). bit_xor t (xor_sum (λ x. xor_sum (d x) ys) xs))
          (xor_sum_ext (λ x. d x p) (d p) xs comm)

  -- Every pair of members stands twice in the grid, and cancels.
  pub xor_sum-grid :
      (d : A → A → ℕ) (xs : List A)
      → ((x y : A) → contains xs x ≡ true → contains xs y ≡ true → d x y ≡ d y x)
      → ((x : A) → d x x ≡ 0)
      → xor_sum (λ x. xor_sum (d x) xs) xs ≡ 0
  xor_sum-grid d [] comm diagonal = refl
  xor_sum-grid d (p ∷ xs) comm diagonal =
      let inner =
        xor_sum-grid d xs (λ x y m n. comm x y (contains_tail p xs x m) (contains_tail p xs y n))
          diagonal in
      let column =
        grid_column d p xs xs (λ x m. comm x p (contains_tail p xs x m) (contains_head p xs)) in
      rw (column, inner, diagonal p) (simp (zero-xor, xor-zero, xor_self))

module _ {ℓ} {A : Type ℓ} ⦃e : Eq A⦄ (a : A) (v : ℕ) where
  xor_sum_absent :
      (xs : List A) → contains xs a ≡ false → xor_sum (λ x. if x =? a then v else 0) xs ≡ 0
  xor_sum_absent [] c = refl
  xor_sum_absent (x ∷ xs) c = elim (Bool-cases (x =? a)) [
    | inl here ↦ cc (rw here at c)
    | inr there ↦ rw there (zero-xor _ ∙ xor_sum_absent xs (rw there at c))
  ]

  -- A member's own contribution is the whole sum.
  pub xor_sum_single :
      (xs : List A)
      → Distinct xs
      → contains xs a ≡ true
      → xor_sum (λ x. if x =? a then v else 0) xs ≡ v
  xor_sum_single [] d c = cc
  xor_sum_single (x ∷ xs) d c = elim (Bool-cases (x =? a)) [
    | inl here ↦
        rw here (ap (bit_xor v) (xor_sum_absent xs (rw ((=?_iff x a).0 here) at d.0)) ∙ xor-zero v)
    | inr there ↦ rw there (zero-xor _ ∙ xor_sum_single xs d.1 (rw there at c))
  ]
