-- ===== src/Prelude/Dict.antt =====
-- A `HashMap` as a list of entries, one for each key; the order stands for the map's own.
use mathlib.Core.Path.{◌≡◌, refl}
use mathlib.Core.Bool.{Bool, true, false, ◌||◌}
use mathlib.Core.Option.{Option, none, some}
use mathlib.Core.List.{List, [], ◌∷◌, ◌++◌}
use native.Mathlib.Omega.{arith}
use chrono_shift.Prelude.Tests.{if◌then◌else◌}
use Prim.Native.Nat.{suc, ◌≤◌}
use chrono_shift.Prelude.Lists.{length}
use chrono_shift.Prelude.Keys.{Eq, ◌=?◌, =?_iff}

abbrev pub Dict {ℓ κ} : Type ℓ → Type κ → Type (ℓ ⊔ κ)
Dict K V = List (K × V)

module _ {ℓ κ} {K : Type ℓ} {V : Type κ} ⦃e : Eq K⦄ where
  -- `get`
  abbrev pub lookup : K → Dict K V → Option V
  lookup k [] = none
  lookup k ((j, v) ∷ d) = if j =? k then some v else lookup k d

  -- `contains_key`
  abbrev pub has_key : K → Dict K V → Bool
  has_key k d = elim (lookup k d) [ none ↦ false | some _ ↦ true ]

  -- `insert`: an entry with the key keeps its place.
  abbrev pub insert : K → V → Dict K V → Dict K V
  insert k v [] = (k, v) ∷ []
  insert k v ((j, w) ∷ d) = let rest = insert k v d in if j =? k then (j, v) ∷ d else (j, w) ∷ rest

  -- `remove`
  abbrev pub remove : K → Dict K V → Dict K V
  remove k [] = []
  remove k ((j, w) ∷ d) = let rest = remove k d in if j =? k then rest else (j, w) ∷ rest

  pub length-insert : (k : K) (v : V) (d : Dict K V) → length (insert k v d) ≤ suc (length d)
  length-insert k v [] = omega arith
  length-insert k v ((j, w) ∷ d) = ground (arith, length-insert k v d)

  pub lookup-insert :
      (k j : K) (v : V) (d : Dict K V)
      → lookup j (insert k v d) ≡ (if k =? j then some v else lookup j d)
  lookup-insert k j v [] = refl
  lookup-insert k j v ((i, w) ∷ d) =
      ground (arith, =?_iff k j, =?_iff i k, =?_iff i j, lookup-insert k j v d)

  pub lookup-remove :
      (k j : K) (d : Dict K V) → lookup j (remove k d) ≡ (if k =? j then none else lookup j d)
  lookup-remove k j [] = ground arith
  lookup-remove k j ((i, w) ∷ d) =
      ground (arith, =?_iff k j, =?_iff i k, =?_iff i j, lookup-remove k j d)

  pub has_key-append :
      (k j : K) (v : V) (d : Dict K V) → has_key k (d ++ (j, v) ∷ []) ≡ (has_key k d || j =? k)
  has_key-append k j v [] = ground arith
  has_key-append k j v ((i, w) ∷ d) = ground (arith, has_key-append k j v d)

  -- A new key goes to the end.
  pub insert-fresh :
      (k : K) (v : V) (d : Dict K V) → has_key k d ≡ false → insert k v d ≡ d ++ (k, v) ∷ []
  insert-fresh k v [] h = refl
  insert-fresh k v ((i, w) ∷ d) h = ground (arith, insert-fresh k v d)

  -- `get_mut`, and a change of what is there.
  abbrev pub modify : K → (V → V) → Dict K V → Dict K V
  modify k f [] = []
  modify k f ((j, v) ∷ d) =
      let rest = modify k f d in if j =? k then (j, f v) ∷ d else (j, v) ∷ rest
