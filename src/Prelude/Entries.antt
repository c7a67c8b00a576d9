-- ===== src/Prelude/Entries.antt =====
-- Maps with one entry for each key, and what holds of all entries.
use mathlib.Core.Path.{◌≡◌, refl, sym, ap, ◌∙◌, subst}
use mathlib.Core.Logic.{inl, inr}
use mathlib.Core.Bool.{true, false}
use mathlib.Core.Option.{some}
use mathlib.Core.List.{[], ◌∷◌, ◌++◌}
use native.Mathlib.Omega.{arith}
use chrono_shift.Prelude.Lists.{All}
use chrono_shift.Prelude.Tests.{if◌then◌else◌, Bool-cases}
use chrono_shift.Prelude.Keys.{Eq, ◌=?◌, =?_iff}
use chrono_shift.Prelude.Dict.{
  Dict, lookup, has_key, insert, remove, modify, lookup-insert, lookup-remove,
}

module _ {ℓ κ} {K : Type ℓ} {V : Type κ} ⦃e : Eq K⦄ where
  pub has_key-insert :
      (k j : K) (v : V) (d : Dict K V)
      → has_key j (insert k v d) ≡ (if k =? j then true else has_key j d)
  has_key-insert k j v d = ground (arith, lookup-insert k j v d)

  pub has_key-remove :
      (k j : K) (d : Dict K V) → has_key j (remove k d) ≡ (if k =? j then false else has_key j d)
  has_key-remove k j d = ground (arith, lookup-remove k j d)

  pub has_key-modify : (k j : K) (f : V → V) (d : Dict K V) → has_key j (modify k f d) ≡ has_key j d
  has_key-modify k j f [] = refl
  has_key-modify k j f ((i, v) ∷ d) = ground (arith, has_key-modify k j f d, =?_iff i k, =?_iff i j)

  -- No key stands twice.
  abbrev pub OncePerKey : Dict K V → Type 0
  OncePerKey [] = Unit
  OncePerKey ((k, v) ∷ d) = (has_key k d ≡ false) × OncePerKey d

  pub insert-OncePerKey : (k : K) (v : V) (d : Dict K V) → OncePerKey d → OncePerKey (insert k v d)
  insert-OncePerKey k v [] once = (refl, tt)
  insert-OncePerKey k v ((j, w) ∷ d) (fresh, once) =
      ground (arith, has_key-insert k j v d, insert-OncePerKey k v d once, =?_iff j k, =?_iff k j)

  pub remove-OncePerKey : (k : K) (d : Dict K V) → OncePerKey d → OncePerKey (remove k d)
  remove-OncePerKey k [] once = tt
  remove-OncePerKey k ((j, w) ∷ d) (fresh, once) =
      ground (arith, has_key-remove k j d, remove-OncePerKey k d once, =?_iff j k, =?_iff k j)

  pub modify-OncePerKey :
      (k : K) (f : V → V) (d : Dict K V) → OncePerKey d → OncePerKey (modify k f d)
  modify-OncePerKey k f [] once = tt
  modify-OncePerKey k f ((j, w) ∷ d) (fresh, once) = elim (Bool-cases (j =? k)) [
    | inl here ↦ rw here (fresh, once)
    | inr away ↦ rw away (has_key-modify k j f d ∙ fresh, modify-OncePerKey k f d once)
  ]

  module _ {μ} (P : K × V → Type μ) where
    pub insert-All : (k : K) (v : V) (d : Dict K V) → P (k, v) → All P d → All P (insert k v d)
    insert-All k v [] p all = (p, tt)
    insert-All k v ((j, w) ∷ d) p all = elim (Bool-cases (j =? k)) [
      | inl here ↦ rw here (subst (λ i. P (i, v)) (sym ((=?_iff j k).0 here)) p, all.1)
      | inr away ↦ rw away (all.0, insert-All k v d p all.1)
    ]

    pub remove-All : (k : K) (d : Dict K V) → All P d → All P (remove k d)
    remove-All k [] all = tt
    remove-All k ((j, w) ∷ d) all = elim (Bool-cases (j =? k)) [
      | inl here ↦ rw here (remove-All k d all.1)
      | inr away ↦ rw away (all.0, remove-All k d all.1)
    ]

    pub modify-All :
        (k : K) (f : V → V) (d : Dict K V)
        → ((j : K) (v : V) → P (j, v) → P (j, f v))
        → All P d
        → All P (modify k f d)
    modify-All k f [] keeps all = tt
    modify-All k f ((j, w) ∷ d) keeps all = elim (Bool-cases (j =? k)) [
      | inl here ↦ rw here (keeps j w all.0, all.1)
      | inr away ↦ rw away (all.0, modify-All k f d keeps all.1)
    ]

    pub lookup-All : (k : K) (v : V) (d : Dict K V) → All P d → lookup k d ≡ some v → P (k, v)
    lookup-All k v [] all found = absurd cc
    lookup-All k v ((j, w) ∷ d) all found = elim (Bool-cases (j =? k)) [
      | inl here ↦
          let same : some w ≡ some v =
            ap (λ b. if b then some w else lookup k d) (sym here) ∙ found in
          let value : w ≡ v = cc same in
          subst (λ x. P (k, x)) value (subst (λ i. P (i, w)) ((=?_iff j k).0 here) all.0)
      | inr away ↦
          lookup-All k v d all.1 (ap (λ b. if b then some w else lookup k d) (sym away) ∙ found)
    ]

  -- A change of a new entry at the end.
  pub modify-push :
      (k : K) (f : V → V) (v : V) (d : Dict K V)
      → has_key k d ≡ false
      → modify k f (d ++ (k, v) ∷ []) ≡ d ++ (k, f v) ∷ []
  modify-push k f v [] fresh = ground (arith, =?_iff k k)
  modify-push k f v ((j, w) ∷ d) fresh = ground (arith, modify-push k f v d, =?_iff j k)
