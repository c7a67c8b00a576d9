-- ===== src/Pgp/WebOfTrust/Cache.antt =====
-- The cache of `calculate_trust`.
use chrono_shift.Prelude.{
  ◌≡◌, refl, ap, true, false, List, [], ◌∷◌, arith, if◌then◌else◌, Bool-cases, inl, inr, none, some,
  Option-cases,
}
use chrono_shift.Prelude.Keys.{Bytes, contains, bytes_eq}
use chrono_shift.Prelude.Dict.{lookup}
use chrono_shift.Primitives.{Signer}
use chrono_shift.Pgp.Trust.{TrustLevel}
use chrono_shift.Pgp.WebOfTrust.{
  WebOfTrust, PgpIdentity, TrustSignature, add_key, add_own_key, add_signature, remove_signature,
  set_manual_trust, calculate_trust, compute_trust_map, refresh, level,
}

-- The calls that change a web; a query fills the cache.
pub data WotCall : Type 0 where
  key own_key : PgpIdentity → WotCall
  signature : TrustSignature → WotCall
  unsign : (signer_fp subject_fp : Bytes) → WotCall
  override : Bytes → TrustLevel → WotCall
  query : Bytes → WotCall

module _ (signer : Signer) where
  abbrev pub call : WotCall → WebOfTrust → WebOfTrust
  call (WotCall.key identity) w = add_key identity w
  call (WotCall.own_key identity) w = add_own_key identity w
  call (WotCall.signature sig) w = (add_signature signer sig w).1
  call (WotCall.unsign signer_fp subject_fp) w = remove_signature signer_fp subject_fp w
  call (WotCall.override fp l) w = set_manual_trust fp l w
  call (WotCall.query fp) w = (calculate_trust signer fp w).1

  unfoldable pub call_all : List WotCall → WebOfTrust → WebOfTrust
  call_all [] w = w
  call_all (c ∷ cs) w = call_all cs (call c w)

  -- The level without a cache.
  unfoldable pub fresh_trust : Bytes → WebOfTrust → TrustLevel
  fresh_trust fp w = elim (lookup fp w.manual_overrides) [
    | some l ↦ l
    | none ↦
        if contains w.own_fingerprints fp
        then TrustLevel.ultimate
        else level (compute_trust_map signer w) fp
  ]

  abbrev IsCurrent : WebOfTrust → Type 0
  IsCurrent w = w.cache_valid ≡ true → w.trust_cache ≡ compute_trust_map signer w

  refresh-cache :
      (w : WebOfTrust) → IsCurrent w → (refresh signer w).trust_cache ≡ compute_trust_map signer w
  unfolding compute_trust_map
  refresh-cache w current = elim (Bool-cases w.cache_valid) [
    | inl valid ↦ rw valid (current valid)
    | inr stale ↦ rw stale refl
  ]

  refresh-IsCurrent : (w : WebOfTrust) → IsCurrent w → IsCurrent (refresh signer w)
  unfolding compute_trust_map
  refresh-IsCurrent w current = elim (Bool-cases w.cache_valid) [
    | inl valid ↦ rw valid (λ now. current valid)
    | inr stale ↦ rw stale (λ now. refl)
  ]

  calculate_trust-IsCurrent :
      (fp : Bytes) (w : WebOfTrust) → IsCurrent w → IsCurrent (calculate_trust signer fp w).1
  unfolding calculate_trust
  calculate_trust-IsCurrent fp w current = elim (Option-cases (lookup fp w.manual_overrides)) [
    | inr (l, found) ↦ rw (calculate_trust, found) current
    | inl free ↦ elim (Bool-cases (contains w.own_fingerprints fp)) [
      | inl own ↦ rw (calculate_trust, free, own) current
      | inr other ↦ rw (calculate_trust, free, other) (refresh-IsCurrent w current)
    ]
  ]

  add_signature-IsCurrent :
      (sig : TrustSignature) (w : WebOfTrust)
      → IsCurrent w
      → IsCurrent (add_signature signer sig w).1
  unfolding add_signature
  add_signature-IsCurrent sig w current = ground arith

  call-IsCurrent : (c : WotCall) (w : WebOfTrust) → IsCurrent w → IsCurrent (call c w)
  call-IsCurrent (WotCall.key identity) w current = λ valid. cc
  call-IsCurrent (WotCall.own_key identity) w current = λ valid. cc
  call-IsCurrent (WotCall.signature sig) w current = add_signature-IsCurrent sig w current
  call-IsCurrent (WotCall.unsign signer_fp subject_fp) w current = λ valid. cc
  call-IsCurrent (WotCall.override fp l) w current = λ valid. cc
  call-IsCurrent (WotCall.query fp) w current = calculate_trust-IsCurrent fp w current

  call_all-IsCurrent :
      (cs : List WotCall) (w : WebOfTrust) → IsCurrent w → IsCurrent (call_all cs w)
  unfolding call_all
  call_all-IsCurrent [] w current = current
  call_all-IsCurrent (c ∷ cs) w current =
      call_all-IsCurrent cs (call c w) (call-IsCurrent c w current)

  calculate_trust_current :
      (fp : Bytes) (w : WebOfTrust)
      → IsCurrent w
      → (calculate_trust signer fp w).0 ≡ fresh_trust fp w
  unfolding calculate_trust fresh_trust
  calculate_trust_current fp w current = elim (Option-cases (lookup fp w.manual_overrides)) [
    | inr (l, found) ↦ rw (calculate_trust, fresh_trust, found) refl
    | inl free ↦ elim (Bool-cases (contains w.own_fingerprints fp)) [
      | inl own ↦ rw (calculate_trust, fresh_trust, free, own) refl
      | inr other ↦
          rw (calculate_trust, fresh_trust, free, other)
            (ap (λ t. level t fp) (refresh-cache w current))
    ]
  ]

  -- Whatever was called before, queries included, on a new web or one with an empty cache, the
  -- answer of `calculate_trust` is the level that the keys, signatures and overrides give now.
  pub calculate_trust-call_all :
      (cs : List WotCall) (w : WebOfTrust) (fp : Bytes)
      → w.cache_valid ≡ false
      → (calculate_trust signer fp (call_all cs w)).0 ≡ fresh_trust fp (call_all cs w)
  calculate_trust-call_all cs w fp empty =
      calculate_trust_current fp (call_all cs w) (call_all-IsCurrent cs w (λ valid. cc))
