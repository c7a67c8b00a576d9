-- ===== src/Pgp/WebOfTrust/Chains.antt =====
-- Where trust comes from.
use chrono_shift.Prelude.{
  ◌+◌, ◌*◌, ◌≤◌, ◌≡◌, ◌⊎◌, inl, inr, refl, ap, subst, true, List, [], ◌∷◌, arith, Bool-cases,
  length,
}
use chrono_shift.Prelude.Keys.{Bytes, ◌=?◌, =?_iff, bytes_eq, contains}
use chrono_shift.Prelude.Sets.{All-contains}
use chrono_shift.Prelude.Dict.{Dict}
use chrono_shift.Primitives.{Signer}
use chrono_shift.Pgp.Trust.{TrustLevel, I32, from_i32, rank}
use chrono_shift.Pgp.WebOfTrust.{
  WebOfTrust, TrustSignature, Tally, level, initial, pinned, key_names, valid_sigs,
  signature_is_valid, compute_trust_map, tally, count, new_level, min_level,
}
use chrono_shift.Pgp.WebOfTrust.Monotone.{derived}
use chrono_shift.Pgp.WebOfTrust.Rounds.{level-insert, passes_rule}
use chrono_shift.Pgp.WebOfTrust.Solution.{level-initial}

abbrev pub Among : TrustSignature → List TrustSignature → Type 0
Among s [] = ⊥
Among s (t ∷ sigs) = (t ≡ s) ⊎ Among s sigs

-- A signature of the key that counts, by a signer who counts.
abbrev pub Backed : (Bytes → TrustLevel) → List TrustSignature → Bytes → Type 0
Backed trust sigs fp =
    (s : TrustSignature) × Among s sigs
    × (s.subject_fingerprint ≡ fp)
    × (2 ≤ rank (trust s.signer_fingerprint))
    × (2 ≤ rank (from_i32 (I32.pos s.trust_level)))

count_rises :
    (l : TrustLevel) (t : Tally)
    → 1 ≤ (count l t).full + (count l t).marginal
    → (2 ≤ rank l) ⊎ (1 ≤ t.full + t.marginal)
unfolding count
count_rises l t h = ground arith

rank-min_level : (a b : TrustLevel) → 2 ≤ rank (min_level a b) → (2 ≤ rank a) × (2 ≤ rank b)
rank-min_level a b h = ground arith

tally-Backed :
    (trust : Bytes → TrustLevel) (fp : Bytes) (sigs : List TrustSignature)
    → 1 ≤ (tally trust fp sigs).full + (tally trust fp sigs).marginal
    → Backed trust sigs fp
unfolding tally
tally-Backed trust fp [] h = absurd (omega arith)
tally-Backed trust fp (s ∷ sigs) h = elim (Bool-cases (s.subject_fingerprint =? fp)) [
  | inr other ↦
      let (t, among, is_of, high, granted) = tally-Backed trust fp sigs (rw (tally, other) at h) in
      (t, inr among, is_of, high, granted)
  | inl mine ↦
      let given = from_i32 (I32.pos s.trust_level) in
      elim (count_rises (min_level (trust s.signer_fingerprint) given) (tally trust fp sigs)
        (rw (tally, mine) at h)) [
          | inr before ↦
              let (t, among, is_of, high, granted) = tally-Backed trust fp sigs before in
              (t, inr among, is_of, high, granted)
          | inl counts ↦
              let (high, granted) = rank-min_level (trust s.signer_fingerprint) given counts in
              (s, inl refl, (=?_iff s.subject_fingerprint fp).0 mine, high, granted)
        ]
]

new_level-tally : (t : Tally) → 2 ≤ rank (new_level t) → 1 ≤ t.full + t.marginal
unfolding new_level
new_level-tally t h = ground arith

module _ (signer : Signer) (w : WebOfTrust) where
  -- Valid signatures that lead from an own or an overridden key of some trust to this one.
  pub data Chain : Bytes → Type 0 where
    anchor : {fp : Bytes} → pinned w fp ≡ true → 2 ≤ rank (level (initial w) fp) → Chain fp
    signed :
        {fp : Bytes} (s : TrustSignature)
        → Among s w.signatures
        → signature_is_valid signer w.keys s ≡ true
        → 2 ≤ rank (from_i32 (I32.pos s.trust_level))
        → s.subject_fingerprint ≡ fp
        → Chain s.signer_fingerprint
        → Chain fp

  Among-valid_sigs :
      (s : TrustSignature) (sigs : List TrustSignature)
      → Among s (valid_sigs signer w.keys sigs)
      → Among s sigs × (signature_is_valid signer w.keys s ≡ true)
  unfolding valid_sigs
  Among-valid_sigs s [] among = absurd among
  Among-valid_sigs s (t ∷ sigs) among = elim (Bool-cases (signature_is_valid signer w.keys t)) [
    | inr refused ↦
        let (there, valid) = Among-valid_sigs s sigs (rw (valid_sigs, refused) at among) in
        (inr there, valid)
    | inl accepted ↦
        let here : Among s (t ∷ valid_sigs signer w.keys sigs) =
          rw (valid_sigs, accepted) at among in
        elim here [
          | inl e ↦ (inl e, subst (λ x. signature_is_valid signer w.keys x ≡ true) e accepted)
          | inr among' ↦ let (there, valid) = Among-valid_sigs s sigs among' in (inr there, valid)
        ]
  ]

  abbrev AllChained : Dict Bytes TrustLevel → Type 0
  AllChained trust = (fp : Bytes) → 2 ≤ rank (level trust fp) → Chain fp

  Chain-initial : AllChained (initial w)
  Chain-initial fp high = elim (Bool-cases (pinned w fp)) [
    | inl pin ↦ Chain.anchor pin high
    | inr free ↦ absurd (omega (arith, ap rank (level-initial w fp free)))
  ]

  Chain-derived :
      (trust : Dict Bytes TrustLevel) (fp : Bytes)
      → AllChained trust
      → 2 ≤ rank (derived (valid_sigs signer w.keys w.signatures) (level trust) fp)
      → Chain fp
  Chain-derived trust fp all high =
      let sigs = valid_sigs signer w.keys w.signatures in
      let (s, among, is_of, trusted, granted) =
        tally-Backed (level trust) fp sigs (new_level-tally (tally (level trust) fp sigs) high) in
      let (there, valid) = Among-valid_sigs s w.signatures among in
      Chain.signed s there valid granted is_of (all s.signer_fingerprint trusted)

  -- A key that is trusted at all, Marginal or above, is one's own, or overridden by hand, or stands
  -- at the end of a chain of valid signatures that each grant as much, from such a key on.
  pub compute_trust_map-Chain :
      (fp : Bytes) → 2 ≤ rank (level (compute_trust_map signer w) fp) → Chain fp
  unfolding compute_trust_map
  compute_trust_map-Chain =
      let sigs = valid_sigs signer w.keys w.signatures in
      passes_rule (pinned w) sigs (λ q. contains (key_names w.keys) q ≡ true) AllChained
        (λ q t known free all fp high.
          let here = level-insert q fp (derived sigs (level t) q) t in
          elim (Bool-cases (q =? fp)) [
            | inl same ↦
                subst Chain ((=?_iff q fp).0 same) (Chain-derived t q all (rw (here, same) at high))
            | inr other ↦ all fp (rw (here, other) at high)
          ])
        (4 * length w.keys + 1) (key_names w.keys) (initial w) (All-contains (key_names w.keys))
        Chain-initial
