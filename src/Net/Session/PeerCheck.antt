-- ===== src/Net/Session/PeerCheck.antt =====
-- `check_peer_sig` of net/session.rs, characterised.
use chrono_shift.Prelude.{
  ◌≡◌, ◌↔◌, ◌⊎◌, refl, sym, ap, ◌∙◌, true, some, arith, Bool-cases, Option-cases, inl, inr,
}
use chrono_shift.Prelude.Keys.{Bytes, bytes_eq, ◌=?◌, =?_iff}
use chrono_shift.Prelude.Dict.{Dict, lookup}
use chrono_shift.Primitives.{Signer, Dh, Kdf}
use chrono_shift.Net.Session.Handshake.{
  PeerSigCheck, signature_holds, parse_verifying_key, check_peer_sig,
}

pub check_peer_sig-cases :
    (c : PeerSigCheck)
    → (c ≡ PeerSigCheck.verified) ⊎ ((c ≡ PeerSigCheck.unverified) ⊎ (c ≡ PeerSigCheck.rejected))
check_peer_sig-cases PeerSigCheck.verified = inl refl
check_peer_sig-cases PeerSigCheck.unverified = inr (inl refl)
check_peer_sig-cases PeerSigCheck.rejected = inr (inr refl)

module _ (signer : Signer) (dh : Dh) (kdf : Kdf) where
  check_known :
      (known_keys : Dict Bytes Bytes) (uid expected claimed msg sig : Bytes)
      → lookup uid known_keys ≡ some expected
      → (check_peer_sig signer dh kdf known_keys uid claimed msg sig ≡ PeerSigCheck.verified) ↔ (
          (vk : Bytes) × (expected ≡ claimed)
          × (parse_verifying_key signer expected ≡ some vk)
          × (signature_holds signer vk msg sig ≡ true))
  unfolding check_peer_sig
  check_known known_keys uid expected claimed msg sig known =
      elim (Bool-cases (expected =? claimed)) [
        | inr differs ↦
            rw (check_peer_sig, known, differs)
              (
                λ e. absurd (ground arith),
                λ (vk, same, p, h). cc (differs, (=?_iff expected claimed).1 same),
              )
        | inl same ↦ elim (Option-cases (parse_verifying_key signer expected)) [
          | inl unparsed ↦
              rw (check_peer_sig, known, same, unparsed)
                (λ e. absurd (ground arith), λ (vk, s, p, h). cc p)
          | inr (vk, parsed) ↦ elim (Bool-cases (signature_holds signer vk msg sig)) [
            | inl holds ↦
                rw (check_peer_sig, known, same, parsed, holds)
                  (λ e. (vk, (=?_iff expected claimed).0 same, refl, holds), λ h. refl)
            | inr fails ↦
                rw (check_peer_sig, known, same, parsed, fails)
                  (λ e. absurd (ground arith), λ (vk', s, p, h). cc (fails, p, h))
          ]
        ]
      ]

  -- A peer counts as verified exactly when its key is the one on record, that key is one, and the
  -- signature holds under it.
  pub check_peer_sig_verified :
      (known_keys : Dict Bytes Bytes) (uid claimed_key_hex msg sig : Bytes)
      → (check_peer_sig signer dh kdf known_keys uid claimed_key_hex msg sig
          ≡ PeerSigCheck.verified)
        ↔ ((vk : Bytes) × (lookup uid known_keys ≡ some claimed_key_hex)
            × (parse_verifying_key signer claimed_key_hex ≡ some vk)
            × (signature_holds signer vk msg sig ≡ true))
  unfolding check_peer_sig
  check_peer_sig_verified known_keys uid claimed msg sig =
      elim (Option-cases (lookup uid known_keys)) [
        | inl unknown ↦
            rw (check_peer_sig, unknown) (λ e. absurd (ground arith), λ (vk, k, p, h). cc k)
        | inr (expected, known) ↦
            let iff = check_known known_keys uid expected claimed msg sig known in
            (
              λ e.
                  let (vk, same, p, h) = iff.0 e in
                  (vk, known ∙ ap some same, ap (parse_verifying_key signer) (sym same) ∙ p, h),
              λ (vk, k, p, h).
                  let same : expected ≡ claimed = cc (known, k) in
                  iff.1 (vk, same, ap (parse_verifying_key signer) same ∙ p, h),
            )
      ]
