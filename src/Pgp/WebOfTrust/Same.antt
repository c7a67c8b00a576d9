-- ===== src/Pgp/WebOfTrust/Same.antt =====
-- The order in which the maps and the set are gone through makes no difference.
use chrono_shift.Prelude.{◌≡◌, refl, sym, ap, ◌∙◌, List, [], ◌∷◌, arith, if◌then◌else◌, none, some}
use chrono_shift.Prelude.Keys.{Bytes, =?_iff, bytes_eq, contains, Distinct}
use chrono_shift.Prelude.Dict.{Dict, lookup, insert, has_key, lookup-insert}
use chrono_shift.Primitives.{Signer}
use chrono_shift.Pgp.Trust.{TrustLevel}
use chrono_shift.Pgp.WebOfTrust.{
  WebOfTrust, TrustSignature, level, set_all, set_each, initial, pinned, key_names, valid_sigs,
  signature_is_valid, compute_trust_map,
}
use chrono_shift.Pgp.WebOfTrust.Order.{rank_injective}
use chrono_shift.Pgp.WebOfTrust.Monotone.{derived}
use chrono_shift.Pgp.WebOfTrust.Solution.{Solves, compute_trust_map-Solves, compute_trust_map_least}

-- The same content, in whatever order the maps and the set hold it; a map has each key once.
pub record SameWeb (w v : WebOfTrust) : Type 0 where
  pub same_keys : (fp : Bytes) → lookup fp w.keys ≡ lookup fp v.keys
  pub same_signatures : w.signatures ≡ v.signatures
  pub same_own : (fp : Bytes) → contains w.own_fingerprints fp ≡ contains v.own_fingerprints fp
  pub same_overrides : (fp : Bytes) → lookup fp w.manual_overrides ≡ lookup fp v.manual_overrides
  pub once_w : Distinct (key_names w.manual_overrides)
  pub once_v : Distinct (key_names v.manual_overrides)

SameWeb-sym : (w v : WebOfTrust) → SameWeb w v → SameWeb v w
SameWeb-sym w v same = record {
  same_keys = λ fp. sym (same.same_keys fp);
  same_signatures = sym same.same_signatures;
  same_own = λ fp. sym (same.same_own fp);
  same_overrides = λ fp. sym (same.same_overrides fp);
  once_w = same.once_v;
  once_v = same.once_w;
}

contains-key_names {ℓ} :
    {V : Type ℓ} (d : Dict Bytes V) (fp : Bytes) → contains (key_names d) fp ≡ has_key fp d
contains-key_names [] fp = refl
contains-key_names ((q, v) ∷ d) fp = ground (arith, contains-key_names d fp)

lookup-set_all :
    (fps : List Bytes) (l : TrustLevel) (trust : Dict Bytes TrustLevel) (fp : Bytes)
    → lookup fp (set_all fps l trust) ≡ (if contains fps fp then some l else lookup fp trust)
lookup-set_all [] l trust fp = refl
lookup-set_all (q ∷ fps) l trust fp =
    ground (arith, lookup-set_all fps l (insert q l trust) fp, lookup-insert q fp l trust)

lookup-set_each :
    (d trust : Dict Bytes TrustLevel) (fp : Bytes)
    → Distinct (key_names d)
    → lookup fp (set_each d trust)
      ≡ (elim (lookup fp d) [ none ↦ lookup fp trust | some l ↦ some l ])
lookup-set_each [] trust fp once = refl
lookup-set_each ((q, l) ∷ d) trust fp once = ground (
  arith,
  lookup-set_each d (insert q l trust) fp,
  lookup-insert q fp l trust,
  contains-key_names d q,
  =?_iff q fp,
)

module _ (signer : Signer) (w v : WebOfTrust) (same : SameWeb w v) where
  same_pinned : (fp : Bytes) → pinned w fp ≡ pinned v fp
  same_pinned fp = ground (arith, same.same_own fp, same.same_overrides fp)

  same_known : (fp : Bytes) → contains (key_names w.keys) fp ≡ contains (key_names v.keys) fp
  same_known fp =
      ground (arith, contains-key_names w.keys fp, contains-key_names v.keys fp, same.same_keys fp)

  same_initial : (fp : Bytes) → level (initial w) fp ≡ level (initial v) fp
  same_initial fp =
      let ultimate = TrustLevel.ultimate in
      ground (
        arith,
        lookup-set_each w.manual_overrides (set_all w.own_fingerprints ultimate []) fp same.once_w,
        lookup-set_each v.manual_overrides (set_all v.own_fingerprints ultimate []) fp same.once_v,
        lookup-set_all w.own_fingerprints ultimate [] fp,
        lookup-set_all v.own_fingerprints ultimate [] fp,
        same.same_own fp,
        same.same_overrides fp,
      )

  same_valid :
      (s : TrustSignature) → signature_is_valid signer w.keys s ≡ signature_is_valid signer v.keys s
  unfolding signature_is_valid
  same_valid s = rw (signature_is_valid, same.same_keys s.signer_fingerprint) refl

  same_valid_sigs :
      (sigs : List TrustSignature) → valid_sigs signer w.keys sigs ≡ valid_sigs signer v.keys sigs
  unfolding valid_sigs
  same_valid_sigs [] = refl
  same_valid_sigs (s ∷ sigs) = rw (valid_sigs, same_valid s, same_valid_sigs sigs) refl

  same_Solves : (trust : Bytes → TrustLevel) → Solves signer w trust → Solves signer v trust
  same_Solves trust solves =
      let sigs =
        same_valid_sigs w.signatures ∙ ap (valid_sigs signer v.keys) same.same_signatures in
      record {
        fixed = λ fp pin. solves.fixed fp (same_pinned fp ∙ pin) ∙ same_initial fp;
        fits = λ fp free known.
            solves.fits fp (same_pinned fp ∙ free) (same_known fp ∙ known)
            ∙ ap (λ s. derived s trust fp) sigs;
        strange =
            λ fp free unknown. solves.strange fp (same_pinned fp ∙ free) (same_known fp ∙ unknown);
      }

-- Two webs of the same content, whose maps are gone through in different orders, give every key
-- the same level.
pub compute_trust_map_order :
    (signer : Signer) (w v : WebOfTrust)
    → SameWeb w v
    → (fp : Bytes) → level (compute_trust_map signer w) fp ≡ level (compute_trust_map signer v) fp
compute_trust_map_order signer w v same fp =
    let at_w =
      compute_trust_map_least signer w (level (compute_trust_map signer v))
        (same_Solves signer v w (SameWeb-sym w v same) (level (compute_trust_map signer v))
          (compute_trust_map-Solves signer v))
        fp in
    let at_v =
      compute_trust_map_least signer v (level (compute_trust_map signer w))
        (same_Solves signer w v same (level (compute_trust_map signer w))
          (compute_trust_map-Solves signer w))
        fp in
    rank_injective (level (compute_trust_map signer w) fp) (level (compute_trust_map signer v) fp)
      (omega (arith, at_w, at_v))
