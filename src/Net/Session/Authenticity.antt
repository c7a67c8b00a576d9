-- ===== src/Net/Session/Authenticity.antt =====
-- What the initiator of net/session.rs has checked when it trusts its peer.
use chrono_shift.Prelude.{
  ◌≡◌, sym, ap, Bool, true, false, some, ◌++◌, Result, ok, err, Bool-cases, Option-cases, inl, inr,
}
use chrono_shift.Prelude.Keys.{Bytes, bytes_eq}
use chrono_shift.Prelude.Dict.{Dict, lookup}
use chrono_shift.Primitives.{Signer, Dh, Kdf}
use chrono_shift.Identity.{decode_key}
use chrono_shift.Uid.{validate_uid}
use chrono_shift.Net.Message.{PeerMessage}
use chrono_shift.Net.Session.Handshake.{
  SessionKeys, HandshakeError, signature_holds, parse_verifying_key, check_peer_sig, hex_to_32,
  derive_shared, finish_with, finish,
}
use chrono_shift.Net.Session.PeerCheck.{check_peer_sig-cases, check_peer_sig_verified}

abbrev peer_flag : Bool → Result SessionKeys HandshakeError → Bool
peer_flag default (ok keys) = keys.peer_authenticated
peer_flag default (err e) = default

abbrev peer_of : Bytes → Result SessionKeys HandshakeError → Bytes
peer_of default (ok keys) = keys.peer_uid
peer_of default (err e) = default

module _ (signer : Signer) (dh : Dh) (kdf : Kdf) where
  -- What an initiator that takes its peer for authenticated has seen: a valid uid with a key on
  -- record, and a signature under that key over both ephemeral keys and its own nonce.
  pub finish_authenticated :
      (known_keys : Dict Bytes Bytes) (eph_secret nonce uid key_hex eph_hex sig : Bytes)
      (keys : SessionKeys)
      → finish signer dh kdf known_keys eph_secret nonce
          (PeerMessage.auth_response uid key_hex eph_hex sig)
        ≡ ok keys
      → keys.peer_authenticated ≡ true
      → (validate_uid uid ≡ true)
        × (keys.peer_uid ≡ uid)
        × (eph vk : Bytes) × (decode_key eph_hex ≡ some eph)
        × (lookup uid known_keys ≡ some key_hex)
        × (parse_verifying_key signer key_hex ≡ some vk)
        × (signature_holds signer vk (dh.public eph_secret ++ (eph ++ nonce)) sig ≡ true)
  unfolding finish finish_with hex_to_32 derive_shared
  finish_authenticated known_keys eph_secret nonce uid key_hex eph_hex sig keys e auth =
      elim (Bool-cases (validate_uid uid)) [
        | inr bad ↦ let failed = rw (finish_with, bad) at e in cc failed
        | inl valid ↦ elim (Option-cases (decode_key eph_hex)) [
          | inl bad ↦ let failed = rw (finish_with, valid, hex_to_32, bad) at e in cc failed
          | inr (eph, decoded) ↦
              elim (check_peer_sig-cases (
                check_peer_sig signer dh kdf known_keys uid key_hex
                  (dh.public eph_secret ++ (eph ++ nonce)) sig)) [
                    | inl verified ↦
                        elim (Bool-cases (dh.was_contributory (dh.shared eph_secret eph))) [
                          | inr weak ↦
                              let failed =
                                rw
                                  (
                                    finish_with, valid, hex_to_32, decoded, verified, derive_shared,
                                    weak,
                                  )
                                  at e in
                              cc failed
                          | inl strong ↦
                              let made =
                                rw
                                  (
                                    finish_with, valid, hex_to_32, decoded, verified, derive_shared,
                                    strong,
                                  )
                                  at e in
                              let (vk, known, parsed, holds) =
                                (check_peer_sig_verified signer dh kdf known_keys uid key_hex
                                    (dh.public eph_secret ++ (eph ++ nonce)) sig).0
                                  verified in
                              (
                                valid,
                                sym (ap (peer_of uid) made),
                                eph,
                                vk,
                                decoded,
                                known,
                                parsed,
                                holds,
                              )
                        ]
                    | inr (inl unverified) ↦
                        elim (Bool-cases (dh.was_contributory (dh.shared eph_secret eph))) [
                          | inr weak ↦
                              let failed =
                                rw
                                  (
                                    finish_with, valid, hex_to_32, decoded, unverified,
                                    derive_shared, weak,
                                  )
                                  at e in
                              cc failed
                          | inl strong ↦
                              let made =
                                rw
                                  (
                                    finish_with, valid, hex_to_32, decoded, unverified,
                                    derive_shared, strong,
                                  )
                                  at e in
                              cc (auth, ap (peer_flag false) made)
                        ]
                    | inr (inr rejected) ↦
                        let failed = rw (finish_with, valid, hex_to_32, decoded, rejected) at e in
                        cc failed
                  ]
        ]
      ]
