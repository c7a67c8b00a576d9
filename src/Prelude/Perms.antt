-- ===== src/Prelude/Perms.antt =====
-- Facts that carry over to a list of the same elements in another order.
use mathlib.Core.List.{Perm, Permᴰ}
use mathlib.Core.Logic.{∥∥₁_elim}
use mathlib.Core.HLevel.{×_prop, Unit-prop}
use native.Mathlib.Nat.{ℕ_set}
use mathlib.Core.Path.{◌≡◌, refl, ap, ◌∙◌, sym}
use mathlib.Core.Bool.{true, Bool-set}
use mathlib.Core.List.{List, [], ◌∷◌}
use native.Mathlib.Omega.{arith}
use chrono_shift.Prelude.Lists.{length, All}
use chrono_shift.Prelude.Keys.{Eq, ◌=?◌, =?_iff, contains, contains_head, contains_tail, Distinct}

module _ {ℓ} {A : Type ℓ} where
  length-permᴰ : {xs ys : List A} → Permᴰ xs ys → length xs ≡ length ys
  length-permᴰ Permᴰ.nil = refl
  length-permᴰ (Permᴰ.cons e p) = omega (arith, length-permᴰ p)
  length-permᴰ (Permᴰ.swap p q) = refl
  length-permᴰ (Permᴰ.trans p q) = length-permᴰ p ∙ length-permᴰ q

  pub length-perm : {xs ys : List A} → Perm xs ys → length xs ≡ length ys
  length-perm p = ∥∥₁_elim p (ℕ_set _ _) length-permᴰ

module _ {ℓ} {A : Type ℓ} ⦃e : Eq A⦄ where
  contains-permᴰ : {xs ys : List A} → Permᴰ xs ys → (a : A) → contains xs a ≡ contains ys a
  contains-permᴰ Permᴰ.nil a = refl
  contains-permᴰ (Permᴰ.cons {a = x} {b = y} same p) a =
      ground (arith, contains-permᴰ p a, ap (λ t. t =? a) same)
  contains-permᴰ (Permᴰ.swap {a = x} {b = y} {a' = x'} {b' = y'} {l = l} p q) a =
      ground (arith, ap (λ t. t =? a) p, ap (λ t. t =? a) q)
  contains-permᴰ (Permᴰ.trans p q) a = contains-permᴰ p a ∙ contains-permᴰ q a

  pub contains-perm : {xs ys : List A} → Perm xs ys → (a : A) → contains xs a ≡ contains ys a
  contains-perm p a = ∥∥₁_elim p (Bool-set _ _) (λ d. contains-permᴰ d a)

  Distinct-permᴰ : {xs ys : List A} → Permᴰ xs ys → Distinct xs → Distinct ys
  Distinct-permᴰ Permᴰ.nil d = d
  Distinct-permᴰ (Permᴰ.cons {a = x} {b = y} {l₂ = ys} same p) d =
      (ap (contains ys) (sym same) ∙ sym (contains-permᴰ p x) ∙ d.0, Distinct-permᴰ p d.1)
  Distinct-permᴰ (Permᴰ.swap {a = x} {b = y} {a' = x'} {b' = y'} {l = l} p q) d = ground (
    arith,
    ap (λ t. x =? y) p,
    =?_iff x y,
    =?_iff y x,
    =?_iff x' y',
    =?_iff y' x',
    ap (contains l) p,
    ap (contains l) q,
  )
  Distinct-permᴰ (Permᴰ.trans p q) d = Distinct-permᴰ q (Distinct-permᴰ p d)

  Distinct-prop : (xs : List A) → IsProp (Distinct xs)
  Distinct-prop [] = Unit-prop
  Distinct-prop (x ∷ xs) = ×_prop (Bool-set _ _) (Distinct-prop xs)

  pub Distinct-perm : {xs ys : List A} → Perm xs ys → Distinct xs → Distinct ys
  Distinct-perm {ys = ys} p d = ∥∥₁_elim p (Distinct-prop ys) (λ q. Distinct-permᴰ q d)

  pub All-contains {κ} :
      (P : A → Type κ) (xs : List A) → ((x : A) → contains xs x ≡ true → P x) → All P xs
  All-contains P [] h = tt
  All-contains P (x ∷ xs) h =
      (h x (contains_head x xs), All-contains P xs (λ y m. h y (contains_tail x xs y m)))
