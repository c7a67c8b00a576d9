-- ===== src/Pgp/WebOfTrust/Rounds.antt =====
-- The passes over the keys: what each change keeps, and that they come to an end.
use chrono_shift.Prelude.{
  ℕ, zero, suc, ◌+◌, ◌-◌, ◌*◌, ◌≤◌, ◌<◌, ◌≡◌, ◌≢◌, ◌⊎◌, inl, inr, refl, sym, ap, ◌∙◌, subst, Bool,
  true, false, List, [], ◌∷◌, arith, ◌==◌, ==_iff, if◌then◌else◌, Bool-cases, length, All,
}
use chrono_shift.Prelude.Keys.{Bytes, ◌=?◌, =?_iff, bytes_eq, contains}
use chrono_shift.Prelude.Dict.{Dict, insert, lookup-insert}
use chrono_shift.Pgp.Trust.{TrustLevel, rank}
use chrono_shift.Pgp.WebOfTrust.{TrustSignature, Progress, level, visit, visit_all, passes}
use chrono_shift.Pgp.WebOfTrust.Order.{rank_injective}
use chrono_shift.Pgp.WebOfTrust.Monotone.{derived}

pub level-insert :
    (fp q : Bytes) (l : TrustLevel) (trust : Dict Bytes TrustLevel)
    → level (insert fp l trust) q ≡ (if fp =? q then l else level trust q)
level-insert fp q l trust = ground (arith, lookup-insert fp q l trust)

-- How far the levels of these keys are from the top.
abbrev pub slack : Dict Bytes TrustLevel → List Bytes → ℕ
slack trust [] = 0
slack trust (fp ∷ fps) = (3 - rank (level trust fp)) + slack trust fps

pub slack-le : (trust : Dict Bytes TrustLevel) (fps : List Bytes) → slack trust fps ≤ 3 * length fps
slack-le trust [] = omega arith
slack-le trust (fp ∷ fps) = omega (arith, slack-le trust fps)

pub slack-insert :
    (fp : Bytes) (l : TrustLevel) (trust : Dict Bytes TrustLevel) (fps : List Bytes)
    → rank (level trust fp) < rank l
    → rank l ≤ 3
    → (slack (insert fp l trust) fps ≤ slack trust fps)
      × (contains fps fp ≡ true → slack (insert fp l trust) fps < slack trust fps)
slack-insert fp l trust [] up top = (omega arith, λ absent. cc)
slack-insert fp l trust (q ∷ fps) up top =
    let (rest, strict) = slack-insert fp l trust fps up top in
    let here = level-insert fp q l trust in
    elim (Bool-cases (fp =? q)) [
      | inl same ↦
          let e : fp ≡ q = (=?_iff fp q).0 same in
          let was : rank (level trust q) < rank l =
            subst (λ k. rank (level trust k) < rank l) e up in
          let now : level (insert fp l trust) q ≡ l =
            here ∙ ap (λ b. if b then l else level trust q) same in
          (omega (arith, ap rank now), λ present. omega (arith, ap rank now))
      | inr other ↦
          let now : level (insert fp l trust) q ≡ level trust q =
            here ∙ ap (λ b. if b then l else level trust q) other in
          let away : (q =? fp) ≡ false = ground (arith, =?_iff fp q, =?_iff q fp) in
          (omega (arith, ap rank now), λ present. omega (arith, ap rank now, strict (ground arith)))
    ]

module _ (pins : Bytes → Bool) (sigs : List TrustSignature) where
  -- A change of a level by `visit`.
  abbrev pub raise : Bytes → Dict Bytes TrustLevel → Dict Bytes TrustLevel
  raise fp trust = insert fp (derived sigs (level trust) fp) trust

  abbrev pub Settled : Dict Bytes TrustLevel → Bytes → Type 0
  Settled trust fp = (pins fp ≡ true) ⊎ (level trust fp ≡ derived sigs (level trust) fp)

  pub visit-cases :
      (fp : Bytes) (p : Progress)
      → ((visit pins sigs fp p ≡ p) × Settled p.trust fp)
        ⊎ ((visit pins sigs fp p ≡ record { changed = true; trust = raise fp p.trust })
            × (pins fp ≡ false)
            × (rank (derived sigs (level p.trust) fp) ≢ rank (level p.trust fp)))
  unfolding visit
  visit-cases fp p = elim (Bool-cases (pins fp)) [
    | inl pin ↦ inl (rw pin refl, inl pin)
    | inr free ↦
        let next = derived sigs (level p.trust) fp in
        elim (Bool-cases (rank next == rank (level p.trust fp))) [
          | inl same ↦
              let e = (==_iff (rank next) (rank (level p.trust fp))).0 same in
              inl (rw (free, same) refl, inr (sym (rank_injective next (level p.trust fp) e)))
          | inr other ↦ inr (
            rw (free, other) refl,
            free,
            λ e. cc (other, (==_iff (rank next) (rank (level p.trust fp))).1 e),
          )
        ]
  ]

  -- What every change keeps, the passes keep.
  module _ {ℓ κ} (Q : Bytes → Type ℓ) (P : Dict Bytes TrustLevel → Type κ)
      (keep : (fp : Bytes) (trust : Dict Bytes TrustLevel)
        → Q fp
        → pins fp ≡ false
        → P trust
        → P (raise fp trust)) where
    pub visit_all_rule :
        (fps : List Bytes) (p : Progress)
        → All Q fps
        → P p.trust
        → P (visit_all pins sigs fps p).trust
    unfolding visit_all
    visit_all_rule [] p q h = h
    visit_all_rule (fp ∷ fps) p q h = elim (visit-cases fp p) [
      | inl (same, settled) ↦ rw (visit_all, same) (visit_all_rule fps p q.1 h)
      | inr (raised, free, up) ↦
          rw (visit_all, raised)
            (visit_all_rule fps (record { changed = true; trust = raise fp p.trust }) q.1
              (keep fp p.trust q.0 free h))
    ]

    pub passes_rule :
        (fuel : ℕ) (fps : List Bytes) (trust : Dict Bytes TrustLevel)
        → All Q fps
        → P trust
        → P (passes pins sigs fuel fps trust)
    unfolding passes
    passes_rule zero fps trust q h = h
    passes_rule (suc fuel) fps trust q h =
        let p = visit_all pins sigs fps (record { changed = false; trust = trust }) in
        let kept = visit_all_rule fps (record { changed = false; trust = trust }) q h in
        elim (Bool-cases p.changed) [
          | inl again ↦ rw (passes, again) (passes_rule fuel fps p.trust q kept)
          | inr stable ↦ rw (passes, stable) kept
        ]
