-- ===== src/Pgp/WebOfTrust/Passes.antt =====
-- The passes end with every level settled.
use chrono_shift.Prelude.{
  ℕ, zero, suc, ◌≤◌, ◌<◌, ◌≡◌, ◌⊎◌, inl, inr, refl, sym, ap, ◌∙◌, subst, Bool, true, false, List,
  [], ◌∷◌, arith, if◌then◌else◌, Bool-cases, All,
}
use chrono_shift.Prelude.Keys.{Bytes, ◌=?◌, =?_iff, bytes_eq, contains}
use chrono_shift.Prelude.Dict.{Dict}
use chrono_shift.Pgp.Trust.{TrustLevel, rank}
use chrono_shift.Pgp.WebOfTrust.{TrustSignature, Progress, level, visit_all, passes}
use chrono_shift.Pgp.WebOfTrust.Order.{Below}
use chrono_shift.Pgp.WebOfTrust.Monotone.{derived, derived_mono, new_level_range}
use chrono_shift.Pgp.WebOfTrust.Rounds.{
  slack, slack-insert, level-insert, raise, Settled, visit-cases, visit_all_rule,
}
use chrono_shift.Prelude.Sets.{All-contains}

module _ (pins : Bytes → Bool) (sigs : List TrustSignature) where
  -- No level is above what the signatures give.
  abbrev pub Ascends : Dict Bytes TrustLevel → Type 0
  Ascends trust =
      (fp : Bytes) → pins fp ≡ false → rank (level trust fp) ≤ rank (derived sigs (level trust) fp)

  pub raise-Below :
      (fp : Bytes) (trust : Dict Bytes TrustLevel)
      → pins fp ≡ false
      → Ascends trust
      → Below (level trust) (level (raise pins sigs fp trust))
  raise-Below fp trust free up q =
      let here = level-insert fp q (derived sigs (level trust) fp) trust in
      elim (Bool-cases (fp =? q)) [
        | inl same ↦
            let e : fp ≡ q = (=?_iff fp q).0 same in
            rw (here, same)
              (subst (λ k. rank (level trust k) ≤ rank (derived sigs (level trust) fp)) e
                (up fp free))
        | inr other ↦ rw (here, other) (omega arith)
      ]

  pub Ascends-raise :
      (fp : Bytes) (trust : Dict Bytes TrustLevel)
      → pins fp ≡ false
      → Ascends trust
      → Ascends (raise pins sigs fp trust)
  Ascends-raise fp trust free up q open_q =
      let here = level-insert fp q (derived sigs (level trust) fp) trust in
      let more =
        derived_mono sigs (level trust) (level (raise pins sigs fp trust))
          (raise-Below fp trust free up) q in
      elim (Bool-cases (fp =? q)) [
        | inl same ↦
            let e : fp ≡ q = (=?_iff fp q).0 same in
            let now : level (raise pins sigs fp trust) q ≡ derived sigs (level trust) q =
              here
              ∙ ap (λ b. if b then derived sigs (level trust) fp else level trust q) same
              ∙ ap (derived sigs (level trust)) e in
            omega (arith, ap rank now)
        | inr other ↦
            let now : level (raise pins sigs fp trust) q ≡ level trust q =
              here ∙ ap (λ b. if b then derived sigs (level trust) fp else level trust q) other in
            omega (arith, ap rank now, up q open_q)
      ]

  -- A pass without a change finds all settled; a pass with one takes up slack.
  visit_all-shrinks :
      (all fps : List Bytes) (p : Progress)
      → All (λ fp. contains all fp ≡ true) fps
      → Ascends p.trust
      → let p' = visit_all pins sigs fps p in
        (slack p'.trust all ≤ slack p.trust all)
        × (p'.changed ≡ false → (p' ≡ p) × All (Settled pins sigs p.trust) fps)
        × (p'.changed ≡ true → (p.changed ≡ true) ⊎ (slack p'.trust all < slack p.trust all))
  unfolding visit_all
  visit_all-shrinks all [] p within up = (omega arith, λ same. (refl, tt), λ again. inl again)
  visit_all-shrinks all (fp ∷ fps) p within up = elim (visit-cases pins sigs fp p) [
    | inl (same, settled) ↦
        let (less, still, strict) = visit_all-shrinks all fps p within.1 up in
        rw (visit_all, same)
          (less, λ unchanged. ((still unchanged).0, (settled, (still unchanged).1)), strict)
    | inr (raised, free, apart) ↦
        let p'' : Progress = record { changed = true; trust = raise pins sigs fp p.trust } in
        let (less, still, strict) =
          visit_all-shrinks all fps p'' within.1 (Ascends-raise fp p.trust free up) in
        let drop =
          (slack-insert fp (derived sigs (level p.trust) fp) p.trust all
              (omega (arith, up fp free, apart)) (new_level_range _).1).1
            within.0 in
        rw (visit_all, raised)
          (
            omega (arith, less, drop),
            λ unchanged.
                absurd (let e = ap (λ (x : Progress). x.changed) (still unchanged).0 in cc),
            λ again. inr (omega (arith, less, drop)),
          )
  ]

  pub passes-Settled :
      (fuel : ℕ) (fps : List Bytes) (trust : Dict Bytes TrustLevel)
      → Ascends trust
      → slack trust fps < fuel
      → All (Settled pins sigs (passes pins sigs fuel fps trust)) fps
  unfolding passes
  passes-Settled zero fps trust up enough = absurd (omega arith)
  passes-Settled (suc fuel) fps trust up enough =
      let start : Progress = record { changed = false; trust = trust } in
      let p = visit_all pins sigs fps start in
      let (less, still, strict) = visit_all-shrinks fps fps start (All-contains fps) up in
      elim (Bool-cases p.changed) [
        | inl again ↦
            let shrunk : slack p.trust fps < slack trust fps = elim (strict again) [
              | inl no_change ↦ cc
              | inr s ↦ s
            ] in
            let up' =
              visit_all_rule pins sigs (λ fp. contains fps fp ≡ true) Ascends
                (λ fp t q free h. Ascends-raise fp t free h) fps start (All-contains fps) up in
            rw (passes, again) (passes-Settled fuel fps p.trust up' (omega arith))
        | inr stable ↦
            let (same, settled) = still stable in
            let kept : trust ≡ p.trust = sym (ap (λ (x : Progress). x.trust) same) in
            rw (passes, stable) (subst (λ t. All (Settled pins sigs t) fps) kept settled)
      ]
