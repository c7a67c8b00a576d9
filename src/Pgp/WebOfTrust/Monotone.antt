-- ===== src/Pgp/WebOfTrust/Monotone.antt =====
-- The level of a key grows with the levels of its signers.
use chrono_shift.Prelude.{◌+◌, ◌≤◌, List, [], ◌∷◌, arith, Bool-cases, inl, inr}
use chrono_shift.Prelude.Keys.{Bytes, ◌=?◌, bytes_eq}
use chrono_shift.Pgp.Trust.{TrustLevel, I32, from_i32, rank}
use chrono_shift.Pgp.WebOfTrust.{TrustSignature, Tally, min_level, count, tally, new_level}
use chrono_shift.Pgp.WebOfTrust.Order.{Below}

abbrev TallyBelow : Tally → Tally → Type 0
TallyBelow t u = (t.full ≤ u.full) × (t.full + t.marginal ≤ u.full + u.marginal)

rank-min_level_mono :
    (a b l : TrustLevel) → rank a ≤ rank b → rank (min_level a l) ≤ rank (min_level b l)
rank-min_level_mono a b l h = ground arith

count_mono :
    (a b : TrustLevel) (t u : Tally)
    → rank a ≤ rank b
    → TallyBelow t u
    → TallyBelow (count a t) (count b u)
unfolding count
count_mono a b t u h below = ground arith

pub tally_mono :
    (r s : Bytes → TrustLevel) (fp : Bytes) (sigs : List TrustSignature)
    → Below r s
    → TallyBelow (tally r fp sigs) (tally s fp sigs)
unfolding tally
tally_mono r s fp [] h = omega arith
tally_mono r s fp (sig ∷ sigs) h = elim (Bool-cases (sig.subject_fingerprint =? fp)) [
  | inl mine ↦
      let given = from_i32 (I32.pos sig.trust_level) in
      rw mine (
        count_mono (min_level (r sig.signer_fingerprint) given)
          (min_level (s sig.signer_fingerprint) given) (tally r fp sigs) (tally s fp sigs)
          (rank-min_level_mono (r sig.signer_fingerprint) (s sig.signer_fingerprint) given
            (h sig.signer_fingerprint))
          (tally_mono r s fp sigs h))
  | inr other ↦ rw other (tally_mono r s fp sigs h)
]

new_level_mono : (t u : Tally) → TallyBelow t u → rank (new_level t) ≤ rank (new_level u)
unfolding new_level
new_level_mono t u h = ground arith

-- What the signatures make of a key.
abbrev pub derived : List TrustSignature → (Bytes → TrustLevel) → Bytes → TrustLevel
derived sigs trust fp = new_level (tally trust fp sigs)

pub derived_mono :
    (sigs : List TrustSignature) (r s : Bytes → TrustLevel)
    → Below r s
    → Below (derived sigs r) (derived sigs s)
derived_mono sigs r s h fp =
    new_level_mono (tally r fp sigs) (tally s fp sigs) (tally_mono r s fp sigs h)

pub new_level_range : (t : Tally) → (1 ≤ rank (new_level t)) × (rank (new_level t) ≤ 3)
unfolding new_level
new_level_range t = ground arith
