-- ===== src/Prelude/Sets.antt =====
-- Vectors that are used as sets: `contains`, `retain` and `push`.
use mathlib.Core.Path.{◌≡◌, refl, subst}
use mathlib.Core.Logic.{inl, inr}
use chrono_shift.Prelude.Lists.{All, All-map}
use mathlib.Core.Bool.{true, false, ◌||◌}
use mathlib.Core.List.{List, [], ◌∷◌, ◌++◌}
use native.Mathlib.Omega.{arith}
use chrono_shift.Prelude.Tests.{if◌then◌else◌, Bool-cases}
use chrono_shift.Prelude.Keys.{
  Eq, ◌=?◌, =?_iff, contains, without, Distinct, contains_head, contains_tail,
}

module _ {ℓ} {A : Type ℓ} ⦃e : Eq A⦄ where
  pub contains-append :
      (xs ys : List A) (a : A) → contains (xs ++ ys) a ≡ (contains xs a || contains ys a)
  contains-append [] ys a = refl
  contains-append (x ∷ xs) ys a = ground (arith, contains-append xs ys a)

  pub contains-without :
      (a : A) (xs : List A) (b : A)
      → contains (without a xs) b ≡ (if a =? b then false else contains xs b)
  contains-without a [] b = ground arith
  contains-without a (x ∷ xs) b =
      ground (arith, =?_iff x a, =?_iff x b, =?_iff a b, contains-without a xs b)

  pub Distinct-without : (a : A) (xs : List A) → Distinct xs → Distinct (without a xs)
  Distinct-without a [] d = tt
  Distinct-without a (x ∷ xs) d =
      ground (arith, =?_iff x a, =?_iff a x, contains-without a xs x, Distinct-without a xs d.1)

  pub Distinct-push :
      (xs : List A) (a : A) → Distinct xs → contains xs a ≡ false → Distinct (xs ++ a ∷ [])
  Distinct-push [] a d fresh = (refl, tt)
  Distinct-push (x ∷ xs) a d fresh =
      ground (arith, =?_iff x a, =?_iff a x, contains-append xs (a ∷ []) x, Distinct-push xs a d.1)

  -- Every element of a list is in it, and what holds of all holds of each.
  pub All-contains : (xs : List A) → All (λ a. contains xs a ≡ true) xs
  All-contains [] = tt
  All-contains (x ∷ xs) = (
    contains_head x xs,
    All-map (λ a. contains xs a ≡ true) (λ a. contains (x ∷ xs) a ≡ true) xs
        (λ a h. contains_tail x xs a h) (All-contains xs),
  )

  pub All-at {κ} : (P : A → Type κ) (xs : List A) (a : A) → All P xs → contains xs a ≡ true → P a
  All-at P [] a all h = cc
  All-at P (x ∷ xs) a all h = elim (Bool-cases (x =? a)) [
    | inl same ↦ subst P ((=?_iff x a).0 same) all.0
    | inr other ↦ All-at P xs a all.1 (ground arith)
  ]
