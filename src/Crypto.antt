-- ===== src/Crypto.antt =====
-- crypto.rs: AES-256-GCM with the nonce in front, the comparison of byte strings, and the keys of a
-- session. Random nonces are arguments.
pub mod Compare
use chrono_shift.Prelude.{
  ℕ, zero, suc, ◌+◌, ◌<◌, ◌≤◌, ◌≡◌, refl, sym, ap, ap₂, ◌∙◌, Bool, true, false, Option, some, none,
  [], ◌∷◌, ◌++◌, length, take, drop, arith, ltb, if◌then◌else◌, length-append, take-append,
  drop-append, Option-cases, Bool-cases, inl, inr,
}
use chrono_shift.Prelude.Keys.{Bytes}
use chrono_shift.Primitives.{Aead, Kdf}
use chrono_shift.Dcnet.Share.{bytes_ltb, bytes_ltb_total, bytes_ltb_asym}

module _ (aead : Aead) where
  unfoldable pub encrypt_e2e : Bytes → Bytes → Bytes → Option Bytes
  encrypt_e2e nonce_bytes plaintext key = elim (aead.encrypt key nonce_bytes plaintext) [
    | none ↦ none
    | some ciphertext ↦ some (nonce_bytes ++ ciphertext)
  ]

  unfoldable pub decrypt_e2e : Bytes → Bytes → Option Bytes
  decrypt_e2e encrypted key =
      if ltb (length encrypted) 28
      then none
      else aead.decrypt key (take 12 encrypted) (drop 12 encrypted)

  pub length-encrypt_e2e :
      (nonce plain key : Bytes) {enc : Bytes}
      → length nonce ≡ 12
      → encrypt_e2e nonce plain key ≡ some enc
      → length enc ≡ length plain + 28
  unfolding encrypt_e2e
  length-encrypt_e2e nonce plain key n e = elim (Option-cases (aead.encrypt key nonce plain)) [
    | inl failed ↦ cc
    | inr (c, made) ↦
        ground (arith, length-append nonce c, aead.length-encrypt key nonce plain made)
  ]

  opens :
      (nonce plain key c : Bytes)
      → length nonce ≡ 12
      → aead.encrypt key nonce plain ≡ some c
      → decrypt_e2e (nonce ++ c) key ≡ some plain
  unfolding decrypt_e2e
  opens nonce plain key c n made =
      let long : ltb (length (nonce ++ c)) 28 ≡ false =
        ground (arith, length-append nonce c, aead.length-encrypt key nonce plain made) in
      let front : take 12 (nonce ++ c) ≡ nonce = rw (← n) (take-append nonce c) in
      let behind : drop 12 (nonce ++ c) ≡ c = rw (← n) (drop-append nonce c) in
      rw (decrypt_e2e, long, front, behind) (aead.decrypt-encrypt key nonce plain made)

  -- What `encrypt_e2e` returns, `decrypt_e2e` opens under the same key, whatever the nonce.
  pub decrypt_e2e-encrypt_e2e :
      (nonce plain key : Bytes) {enc : Bytes}
      → length nonce ≡ 12
      → encrypt_e2e nonce plain key ≡ some enc
      → decrypt_e2e enc key ≡ some plain
  unfolding encrypt_e2e
  decrypt_e2e-encrypt_e2e nonce plain key {enc = enc} n e =
      elim (Option-cases (aead.encrypt key nonce plain)) [
        | inl failed ↦ cc
        | inr (c, made) ↦ cc (opens nonce plain key c n made)
      ]

-- b"chrono-session-v1"
abbrev pub session_label : Bytes
session_label =
    99 ∷ 104 ∷ 114 ∷ 111 ∷ 110 ∷ 111 ∷ 45 ∷ 115 ∷ 101 ∷ 115 ∷ 115 ∷ 105 ∷ 111 ∷ 110 ∷ 45 ∷ 118 ∷ 49
    ∷ []

module _ (kdf : Kdf) where
  abbrev pub hkdf_expand32 : Bytes → Bytes → Bytes
  hkdf_expand32 prk info = kdf.expand prk info

  unfoldable pub derive_session_key : Bytes → Bytes → Bytes → Bytes
  derive_session_key shared_secret eph_a eph_b =
      kdf.expand_salted (if bytes_ltb eph_a eph_b then eph_a ++ eph_b else eph_b ++ eph_a)
        shared_secret session_label

  -- Both ends derive one key, whichever of the two ephemeral keys they name first.
  pub derive_session_key_comm :
      (shared_secret eph_a eph_b : Bytes)
      → derive_session_key shared_secret eph_a eph_b ≡ derive_session_key shared_secret eph_b eph_a
  unfolding derive_session_key
  derive_session_key_comm shared_secret a b = elim (Bool-cases (bytes_ltb a b)) [
    | inl lt ↦ rw (derive_session_key, lt, bytes_ltb_asym a b lt) refl
    | inr ge ↦ elim (Bool-cases (bytes_ltb b a)) [
      | inl lt ↦ rw (derive_session_key, ge, lt) refl
      | inr le ↦
          rw (derive_session_key, ge, le)
            (ap (λ salt. kdf.expand_salted salt shared_secret session_label)
              (ap₂ ◌++◌ (sym (bytes_ltb_total a b ge le)) (bytes_ltb_total a b ge le)))
    ]
  ]
