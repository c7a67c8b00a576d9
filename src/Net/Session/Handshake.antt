-- ===== src/Net/Session/Handshake.antt =====
-- The handshake of net/session.rs, between its sends and receives: the initiator's challenge, what
-- the responder does with it, and what the initiator does with the response. Ephemeral secrets and
-- the nonce are arguments; the map of known keys is a Dict, its lock being always free.
use chrono_shift.Prelude.{
  Bool, true, false, not, ◌&&◌, Option, none, some, [], ◌∷◌, ◌++◌, Result, ok, err, and_then,
  length, ◌==◌, if◌then◌else◌,
}
use chrono_shift.Prelude.Keys.{Bytes, bytes_eq, ◌=?◌}
use chrono_shift.Prelude.Dict.{Dict, lookup}
use chrono_shift.Primitives.{Signer, Dh, Kdf}
use chrono_shift.Identity.{hex_encode, decode_key}
use chrono_shift.Uid.{validate_uid}
use chrono_shift.Crypto.{hkdf_expand32, derive_session_key}
use chrono_shift.Net.Message.{PeerMessage}

pub record SessionAuth : Type 0 where
  pub uid : Bytes
  pub public_hex : Bytes
  pub signing_key : Bytes

pub record SessionKeys : Type 0 where
  pub send_key : Bytes
  pub recv_key : Bytes
  pub peer_uid : Bytes
  pub peer_public_hex : Bytes
  pub peer_authenticated : Bool

pub data PeerSigCheck : Type 0 where
  verified unverified rejected : PeerSigCheck

pub data HandshakeError : Type 0 where
  unexpected_message invalid_uid bad_key signature_rejected not_contributory : HandshakeError

-- b"chrono-dir-a" and b"chrono-dir-b"
abbrev pub dir_a_label : Bytes
dir_a_label = 99 ∷ 104 ∷ 114 ∷ 111 ∷ 110 ∷ 111 ∷ 45 ∷ 100 ∷ 105 ∷ 114 ∷ 45 ∷ 97 ∷ []

abbrev pub dir_b_label : Bytes
dir_b_label = 99 ∷ 104 ∷ 114 ∷ 111 ∷ 110 ∷ 111 ∷ 45 ∷ 100 ∷ 105 ∷ 114 ∷ 45 ∷ 98 ∷ []

module _ (signer : Signer) where
  -- `Signature::from_slice` wants 64 bytes.
  unfoldable pub signature_holds : Bytes → Bytes → Bytes → Bool
  signature_holds vk msg sig = length sig == 64 && signer.verify vk msg sig

  unfoldable pub parse_verifying_key : Bytes → Option Bytes
  parse_verifying_key key_hex = elim (decode_key key_hex) [
    | none ↦ none
    | some vk ↦ if signer.valid_key vk then some vk else none
  ]

module _ (signer : Signer) (dh : Dh) (kdf : Kdf) where
  unfoldable pub check_peer_sig : Dict Bytes Bytes → Bytes → Bytes → Bytes → Bytes → PeerSigCheck
  check_peer_sig known_keys uid claimed_key_hex msg sig = elim (lookup uid known_keys) [
    | none ↦ PeerSigCheck.unverified
    | some expected ↦
        if not (expected =? claimed_key_hex)
        then PeerSigCheck.rejected
        else elim (parse_verifying_key signer expected) [
          | none ↦ PeerSigCheck.unverified
          | some vk ↦
              if signature_holds signer vk msg sig
              then PeerSigCheck.verified
              else PeerSigCheck.rejected
        ]
  ]

  -- Whether the session may go on, and whether the peer is authenticated.
  abbrev pub authenticated : PeerSigCheck → Result Bool HandshakeError
  authenticated PeerSigCheck.verified = ok true
  authenticated PeerSigCheck.unverified = ok false
  authenticated PeerSigCheck.rejected = err HandshakeError.signature_rejected

  unfoldable pub hex_to_32 : Bytes → Result Bytes HandshakeError
  hex_to_32 hex = elim (decode_key hex) [ none ↦ err HandshakeError.bad_key | some key ↦ ok key ]

  unfoldable pub derive_shared : Bytes → Bytes → Result Bytes HandshakeError
  derive_shared secret peer_eph =
      if dh.was_contributory (dh.shared secret peer_eph)
      then ok (dh.shared secret peer_eph)
      else err HandshakeError.not_contributory

  -- The first half of `outbound_handshake`.
  unfoldable pub challenge : SessionAuth → Bytes → Bytes → PeerMessage
  challenge auth eph_secret nonce =
      PeerMessage.auth_challenge auth.uid auth.public_hex (hex_encode (dh.public eph_secret)) nonce
        (signer.sign auth.signing_key (dh.public eph_secret ++ nonce))

  -- The second half, on the fields of an `AuthResponse`.
  unfoldable pub finish_with :
      Dict Bytes Bytes
      → Bytes
      → Bytes
      → Bytes
      → Bytes
      → Bytes
      → Bytes
      → Result SessionKeys HandshakeError
  finish_with known_keys eph_secret nonce resp_uid resp_key_hex resp_eph_hex resp_sig =
      if not (validate_uid resp_uid)
      then err HandshakeError.invalid_uid
      else and_then (hex_to_32 resp_eph_hex) λ resp_eph.
        and_then
          (authenticated (
            check_peer_sig known_keys resp_uid resp_key_hex
              (dh.public eph_secret ++ (resp_eph ++ nonce)) resp_sig))
          λ peer_authenticated. and_then (derive_shared eph_secret resp_eph) λ shared.
            let master = derive_session_key kdf shared (dh.public eph_secret) resp_eph in
            ok (record {
              send_key = hkdf_expand32 kdf master dir_a_label;
              recv_key = hkdf_expand32 kdf master dir_b_label;
              peer_uid = resp_uid;
              peer_public_hex = resp_key_hex;
              peer_authenticated = peer_authenticated;
            })

  unfoldable pub finish :
      Dict Bytes Bytes → Bytes → Bytes → PeerMessage → Result SessionKeys HandshakeError
  finish known_keys eph_secret nonce
        (PeerMessage.auth_response resp_uid resp_key_hex resp_eph_hex resp_sig) =
      finish_with known_keys eph_secret nonce resp_uid resp_key_hex resp_eph_hex resp_sig
  finish known_keys eph_secret nonce _ = err HandshakeError.unexpected_message

  -- `inbound_handshake` up to its response: the peer's ephemeral key, and whether it is authenticated.
  unfoldable pub admit_challenge :
      Dict Bytes Bytes
      → Bytes
      → Bytes
      → Bytes
      → Bytes
      → Bytes
      → Result (Bytes × Bool) HandshakeError
  admit_challenge known_keys chal_uid chal_key_hex chal_eph_hex chal_nonce chal_sig =
      if not (validate_uid chal_uid)
      then err HandshakeError.invalid_uid
      else and_then (hex_to_32 chal_eph_hex) λ chal_eph.
        and_then
          (authenticated
            (check_peer_sig known_keys chal_uid chal_key_hex (chal_eph ++ chal_nonce) chal_sig))
          λ peer_authenticated. ok (chal_eph, peer_authenticated)

  unfoldable pub response : SessionAuth → Bytes → Bytes → Bytes → PeerMessage
  response auth eph_secret chal_eph chal_nonce =
      PeerMessage.auth_response auth.uid auth.public_hex (hex_encode (dh.public eph_secret))
        (signer.sign auth.signing_key (chal_eph ++ (dh.public eph_secret ++ chal_nonce)))

  unfoldable pub responder_keys :
      Bytes → Bytes → Bytes → Bytes → Bool → Result SessionKeys HandshakeError
  responder_keys eph_secret chal_eph chal_uid chal_key_hex peer_authenticated =
      and_then (derive_shared eph_secret chal_eph) λ shared.
        let master = derive_session_key kdf shared chal_eph (dh.public eph_secret) in
        ok (record {
          send_key = hkdf_expand32 kdf master dir_b_label;
          recv_key = hkdf_expand32 kdf master dir_a_label;
          peer_uid = chal_uid;
          peer_public_hex = chal_key_hex;
          peer_authenticated = peer_authenticated;
        })

  -- The response goes out before the shared secret is looked at.
  unfoldable pub respond :
      SessionAuth
      → Dict Bytes Bytes
      → Bytes
      → PeerMessage
      → Option PeerMessage × Result SessionKeys HandshakeError
  respond auth known_keys eph_secret
        (PeerMessage.auth_challenge chal_uid chal_key_hex chal_eph_hex chal_nonce chal_sig) =
      elim (admit_challenge known_keys chal_uid chal_key_hex chal_eph_hex chal_nonce chal_sig) [
        | err e ↦ (none, err e)
        | ok (chal_eph, peer_authenticated) ↦ (
          some (response auth eph_secret chal_eph chal_nonce),
          responder_keys eph_secret chal_eph chal_uid chal_key_hex peer_authenticated,
        )
      ]
  respond auth known_keys eph_secret _ = (none, err HandshakeError.unexpected_message)
