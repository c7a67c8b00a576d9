-- ===== src/Pgp/WebOfTrust/Solution.antt =====
-- The levels that the passes end with: the least that fit the signatures.
use chrono_shift.Prelude.{
  ◌+◌, ◌*◌, ◌≤◌, ◌≡◌, ◌⊎◌, inl, inr, refl, ap, ◌∙◌, subst, Bool, true, false, List, [], ◌∷◌, arith,
  if◌then◌else◌, Bool-cases, length, All,
}
use chrono_shift.Prelude.Keys.{Bytes, ◌=?◌, =?_iff, bytes_eq, contains}
use chrono_shift.Prelude.Dict.{Dict, lookup, insert, has_key, lookup-insert}
use chrono_shift.Primitives.{Signer}
use chrono_shift.Pgp.Trust.{TrustLevel, rank}
use chrono_shift.Pgp.WebOfTrust.{
  WebOfTrust, TrustSignature, PgpIdentity, level, set_all, set_each, initial, pinned, key_names,
  valid_sigs, compute_trust_map,
}
use chrono_shift.Pgp.WebOfTrust.Order.{Below}
use chrono_shift.Pgp.WebOfTrust.Monotone.{derived, derived_mono, new_level_range}
use chrono_shift.Pgp.WebOfTrust.{tally}
use chrono_shift.Pgp.WebOfTrust.Rounds.{slack-le, level-insert, Settled, passes_rule}
use chrono_shift.Pgp.WebOfTrust.Passes.{Ascends, passes-Settled}
use chrono_shift.Prelude.Sets.{All-contains, All-at}

-- Pinned keys keep the level they start with, known keys have the one that the valid signatures
-- of them give, and nothing is known of others.
pub record IsSolution (pins : Bytes → Bool) (sigs : List TrustSignature) (fps : List Bytes)
    (start : Bytes → TrustLevel) (trust : Bytes → TrustLevel) : Type 0 where
  pub fixed : (fp : Bytes) → pins fp ≡ true → trust fp ≡ start fp
  pub fits :
      (fp : Bytes) → pins fp ≡ false → contains fps fp ≡ true → trust fp ≡ derived sigs trust fp
  pub strange :
      (fp : Bytes) → pins fp ≡ false → contains fps fp ≡ false → trust fp ≡ TrustLevel.unknown

lookup-set_all :
    (fps : List Bytes) (l : TrustLevel) (trust : Dict Bytes TrustLevel) (fp : Bytes)
    → contains fps fp ≡ false
    → lookup fp (set_all fps l trust) ≡ lookup fp trust
lookup-set_all [] l trust fp h = refl
lookup-set_all (q ∷ fps) l trust fp h =
    ground (arith, lookup-set_all fps l (insert q l trust) fp, lookup-insert q fp l trust)

lookup-set_each :
    (d trust : Dict Bytes TrustLevel) (fp : Bytes)
    → has_key fp d ≡ false
    → lookup fp (set_each d trust) ≡ lookup fp trust
lookup-set_each [] trust fp h = refl
lookup-set_each ((q, l) ∷ d) trust fp h =
    ground (arith, lookup-set_each d (insert q l trust) fp, lookup-insert q fp l trust)

pub level-initial :
    (w : WebOfTrust) (fp : Bytes) → pinned w fp ≡ false → level (initial w) fp ≡ TrustLevel.unknown
level-initial w fp free =
    let no_override : has_key fp w.manual_overrides ≡ false = ground arith in
    let not_own : contains w.own_fingerprints fp ≡ false = ground arith in
    let e =
      lookup-set_each w.manual_overrides (set_all w.own_fingerprints TrustLevel.ultimate []) fp
        no_override
      ∙ lookup-set_all w.own_fingerprints TrustLevel.ultimate [] fp not_own in
    rw (level, e) refl

module _ (signer : Signer) (w : WebOfTrust) where
  abbrev pub sigs : List TrustSignature
  sigs = valid_sigs signer w.keys w.signatures

  abbrev pub Solves : (Bytes → TrustLevel) → Type 0
  Solves = IsSolution (pinned w) sigs (key_names w.keys) (level (initial w))

  length-key_names : (d : Dict Bytes PgpIdentity) → length (key_names d) ≡ length d
  length-key_names [] = refl
  length-key_names ((fp, identity) ∷ d) = omega (arith, length-key_names d)

  Ascends-initial : Ascends (pinned w) sigs (initial w)
  Ascends-initial fp free = omega (
    arith,
    ap rank (level-initial w fp free),
    (new_level_range (tally (level (initial w)) fp sigs)).0,
  )

  settled : All (Settled (pinned w) sigs (compute_trust_map signer w)) (key_names w.keys)
  unfolding compute_trust_map
  settled =
      passes-Settled (pinned w) sigs (4 * length w.keys + 1) (key_names w.keys) (initial w)
        Ascends-initial
        (omega (arith, slack-le (initial w) (key_names w.keys), length-key_names w.keys))

  -- The levels of pinned and of strange keys are never changed.
  untouched :
      (fp : Bytes)
      → (pinned w fp ≡ true) ⊎ (contains (key_names w.keys) fp ≡ false)
      → level (compute_trust_map signer w) fp ≡ level (initial w) fp
  unfolding compute_trust_map
  untouched fp apart =
      passes_rule (pinned w) sigs (λ q. contains (key_names w.keys) q ≡ true)
        (λ t. level t fp ≡ level (initial w) fp)
        (λ q t known free h.
          let other : (q =? fp) ≡ false = elim (Bool-cases (q =? fp)) [
            | inl same ↦
                let e = (=?_iff q fp).0 same in
                elim apart [
                  | inl pin ↦ cc (pin, ap (pinned w) e, free)
                  | inr strange ↦ cc (strange, ap (contains (key_names w.keys)) e, known)
                ]
            | inr away ↦ away
          ] in
          level-insert q fp (derived sigs (level t) q) t
          ∙ ap (λ b. if b then derived sigs (level t) q else level t fp) other
          ∙ h)
        (4 * length w.keys + 1) (key_names w.keys) (initial w) (All-contains (key_names w.keys))
        refl

  pub compute_trust_map-Solves : Solves (level (compute_trust_map signer w))
  compute_trust_map-Solves = record {
    fixed = λ fp pin. untouched fp (inl pin);
    fits = λ fp free known.
        elim (All-at (Settled (pinned w) sigs (compute_trust_map signer w)) (key_names w.keys) fp
          settled known) [ inl pin ↦ cc (pin, free) | inr e ↦ e ];
    strange = λ fp free unknown. untouched fp (inr unknown) ∙ level-initial w fp free;
  }

  pub compute_trust_map_least :
      (trust : Bytes → TrustLevel) → Solves trust → Below (level (compute_trust_map signer w)) trust
  unfolding compute_trust_map
  compute_trust_map_least trust solves =
      passes_rule (pinned w) sigs (λ q. contains (key_names w.keys) q ≡ true)
        (λ t. Below (level t) trust)
        (λ q t known free h fp.
          let here = level-insert q fp (derived sigs (level t) q) t in
          elim (Bool-cases (q =? fp)) [
            | inl same ↦
                let e : q ≡ fp = (=?_iff q fp).0 same in
                let more = derived_mono sigs (level t) trust h q in
                let fit : rank (derived sigs (level t) q) ≤ rank (trust q) =
                  omega (arith, ap rank (solves.fits q free known), more) in
                rw (here, same)
                  (subst (λ k. rank (derived sigs (level t) q) ≤ rank (trust k)) e fit)
            | inr other ↦ rw (here, other) (h fp)
          ])
        (4 * length w.keys + 1) (key_names w.keys) (initial w) (All-contains (key_names w.keys))
        start
    where
      start : Below (level (initial w)) trust
      start fp = elim (Bool-cases (pinned w fp)) [
        | inl pin ↦ omega (arith, ap rank (solves.fixed fp pin))
        | inr free ↦ elim (Bool-cases (contains (key_names w.keys) fp)) [
          | inl known ↦ omega (
            arith,
            ap rank (level-initial w fp free),
            ap rank (solves.fits fp free known),
            (new_level_range (tally trust fp sigs)).0,
          )
          | inr unknown ↦
              omega
                (arith, ap rank (level-initial w fp free), ap rank (solves.strange fp free unknown))
        ]
      ]

  -- The levels computed fit the valid signatures, and are the least that do, key by key, so that
  -- the passes were enough and no trust comes from a circle of signatures alone.
  pub compute_trust_map_lem :
      Solves (level (compute_trust_map signer w))
      × ((trust : Bytes → TrustLevel)
          → Solves trust
          → Below (level (compute_trust_map signer w)) trust)
  compute_trust_map_lem = (compute_trust_map-Solves, compute_trust_map_least)
