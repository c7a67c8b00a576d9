-- ===== src/Net/Session/Agreement.antt =====
-- Both sides of the handshake of net/session.rs end with the same keys.
use chrono_shift.Prelude.{◌≡◌, refl, ap, ◌∙◌, true, some, ◌++◌, ok, arith}
use chrono_shift.Prelude.Keys.{Bytes, bytes_eq}
use chrono_shift.Prelude.Dict.{Dict, lookup}
use chrono_shift.Primitives.{Signer, Dh, Kdf}
use chrono_shift.Identity.{hex_encode, decode_key-hex_encode}
use chrono_shift.Uid.{validate_uid}
use chrono_shift.Crypto.{hkdf_expand32, derive_session_key}
use chrono_shift.Net.Message.{PeerMessage}
use chrono_shift.Net.Session.Handshake.{
  SessionAuth, SessionKeys, dir_a_label, dir_b_label, signature_holds, parse_verifying_key,
  check_peer_sig, authenticated, hex_to_32, derive_shared, challenge, finish_with, finish,
  admit_challenge, response, responder_keys, respond,
}
use chrono_shift.Net.Session.PeerCheck.{check_peer_sig_verified}

module _ (signer : Signer) where
  pub parse-verifying_key :
      (sk : Bytes)
      → parse_verifying_key signer (hex_encode (signer.verifying_key sk))
        ≡ some (signer.verifying_key sk)
  unfolding parse_verifying_key
  parse-verifying_key sk =
      rw
        (
          parse_verifying_key,
          decode_key-hex_encode (signer.verifying_key sk) (signer.length-verifying_key sk)
              (signer.verifying_key_bytes sk),
          signer.valid_key-verifying_key sk,
        )
        refl

module _ (signer : Signer) (dh : Dh) (kdf : Kdf) where
  -- The identity of a user with this secret key.
  abbrev pub auth_of : Bytes → Bytes → SessionAuth
  auth_of uid sk = record {
    uid = uid;
    public_hex = hex_encode (signer.verifying_key sk);
    signing_key = sk;
  }

  hex_to_32-public :
      (eph_secret : Bytes)
      → hex_to_32 signer dh kdf (hex_encode (dh.public eph_secret)) ≡ ok (dh.public eph_secret)
  unfolding hex_to_32
  hex_to_32-public e =
      rw (hex_to_32, decode_key-hex_encode (dh.public e) (dh.length-public e) (dh.public_bytes e))
        refl

  signature_holds-sign :
      (sk msg : Bytes)
      → signature_holds signer (signer.verifying_key sk) msg (signer.sign sk msg) ≡ true
  unfolding signature_holds
  signature_holds-sign sk msg = ground (arith, signer.length-sign sk msg, signer.verify-sign sk msg)

  honest :
      (known_keys : Dict Bytes Bytes) (uid sk msg : Bytes)
      → lookup uid known_keys ≡ some (hex_encode (signer.verifying_key sk))
      → authenticated signer dh kdf (
          check_peer_sig signer dh kdf known_keys uid
            (hex_encode (signer.verifying_key sk))
            msg
            (signer.sign sk msg))
        ≡ ok true
  honest known_keys uid sk msg known = ap (authenticated signer dh kdf) (
      (check_peer_sig_verified signer dh kdf known_keys uid (hex_encode (signer.verifying_key sk))
          msg (signer.sign sk msg)).1
        (
          signer.verifying_key sk,
          known,
          parse-verifying_key signer sk,
          signature_holds-sign sk msg,
        ))

  derive_shared-honest :
      (e f : Bytes)
      → dh.was_contributory (dh.shared e f) ≡ true
      → derive_shared signer dh kdf e f ≡ ok (dh.shared e f)
  unfolding derive_shared
  derive_shared-honest e f c = rw (derive_shared, c) refl

  module _ (uid_a uid_b sk_a sk_b eph_a eph_b nonce : Bytes) (known_a known_b : Dict Bytes Bytes)
      (valid_a : validate_uid uid_a ≡ true) (valid_b : validate_uid uid_b ≡ true)
      (a_knows : lookup uid_b known_a ≡ some (hex_encode (signer.verifying_key sk_b)))
      (b_knows : lookup uid_a known_b ≡ some (hex_encode (signer.verifying_key sk_a)))
      (contributory : dh.was_contributory (dh.shared eph_a (dh.public eph_b)) ≡ true) where
    abbrev key_a_hex : Bytes
    key_a_hex = hex_encode (signer.verifying_key sk_a)

    abbrev key_b_hex : Bytes
    key_b_hex = hex_encode (signer.verifying_key sk_b)

    abbrev pub_a : Bytes
    pub_a = dh.public eph_a

    abbrev pub_b : Bytes
    pub_b = dh.public eph_b

    -- The two master keys are one.
    abbrev master : Bytes
    master = derive_session_key kdf (dh.shared eph_a pub_b) pub_a pub_b

    abbrev initiator : SessionKeys
    initiator = record {
      send_key = hkdf_expand32 kdf master dir_a_label;
      recv_key = hkdf_expand32 kdf master dir_b_label;
      peer_uid = uid_b;
      peer_public_hex = key_b_hex;
      peer_authenticated = true;
    }

    abbrev responder : SessionKeys
    responder = record {
      send_key = hkdf_expand32 kdf master dir_b_label;
      recv_key = hkdf_expand32 kdf master dir_a_label;
      peer_uid = uid_a;
      peer_public_hex = key_a_hex;
      peer_authenticated = true;
    }

    admitted :
        admit_challenge signer dh kdf known_b uid_a key_a_hex
          (hex_encode pub_a)
          nonce
          (signer.sign sk_a (pub_a ++ nonce))
        ≡ ok (pub_a, true)
    unfolding admit_challenge
    admitted =
        rw
          (
            admit_challenge,
            valid_a,
            hex_to_32-public eph_a,
            honest known_b uid_a sk_a (pub_a ++ nonce) b_knows,
          )
          refl

    responder_done : responder_keys signer dh kdf eph_b pub_a uid_a key_a_hex true ≡ ok responder
    unfolding responder_keys
    responder_done =
        let same = dh.shared_comm eph_b eph_a in
        let c : dh.was_contributory (dh.shared eph_b pub_a) ≡ true =
          ap dh.was_contributory same ∙ contributory in
        rw (responder_keys, derive_shared-honest eph_b pub_a c, same) refl

    responded :
        respond signer dh kdf
          (auth_of uid_b sk_b)
          known_b
          eph_b
          (challenge signer dh kdf (auth_of uid_a sk_a) eph_a nonce)
        ≡ (some (response signer dh kdf (auth_of uid_b sk_b) eph_b pub_a nonce), ok responder)
    unfolding respond challenge
    responded = rw (respond, admitted, responder_done) refl

    finished :
        finish signer dh kdf known_a eph_a nonce
          (response signer dh kdf (auth_of uid_b sk_b) eph_b pub_a nonce)
        ≡ ok initiator
    unfolding finish finish_with response
    finished =
        rw
          (
            finish_with,
            valid_b,
            hex_to_32-public eph_b,
            honest known_a uid_b sk_b (pub_a ++ (pub_b ++ nonce)) a_knows,
            derive_shared-honest eph_a pub_b contributory,
          )
          refl

  -- Two users of valid uids with each other's keys on record end the handshake with one key for
  -- each direction, both authenticated, whatever the secrets, as long as the shared secret is
  -- contributory.
  pub handshake_agrees :
      (uid_a uid_b sk_a sk_b eph_a eph_b nonce : Bytes) (known_a known_b : Dict Bytes Bytes)
      → validate_uid uid_a ≡ true
      → validate_uid uid_b ≡ true
      → lookup uid_b known_a ≡ some (hex_encode (signer.verifying_key sk_b))
      → lookup uid_a known_b ≡ some (hex_encode (signer.verifying_key sk_a))
      → dh.was_contributory (dh.shared eph_a (dh.public eph_b)) ≡ true
      → (reply : PeerMessage) × (keys_a keys_b : SessionKeys) × (respond signer dh kdf
            (auth_of uid_b sk_b)
            known_b
            eph_b
            (challenge signer dh kdf (auth_of uid_a sk_a) eph_a nonce)
          ≡ (some reply, ok keys_b))
        × (finish signer dh kdf known_a eph_a nonce reply ≡ ok keys_a)
        × (keys_a.send_key ≡ keys_b.recv_key)
        × (keys_a.recv_key ≡ keys_b.send_key)
        × (keys_a.peer_uid ≡ uid_b)
        × (keys_b.peer_uid ≡ uid_a)
        × (keys_a.peer_authenticated ≡ true)
        × (keys_b.peer_authenticated ≡ true)
  handshake_agrees uid_a uid_b sk_a sk_b eph_a eph_b nonce known_a known_b valid_a valid_b a_knows
        b_knows c =
      (
        _,
        _,
        _,
        responded uid_a uid_b sk_a sk_b eph_a eph_b nonce known_a known_b valid_a valid_b a_knows
            b_knows c,
        finished uid_a uid_b sk_a sk_b eph_a eph_b nonce known_a known_b valid_a valid_b a_knows
            b_knows c,
        refl,
        refl,
        refl,
        refl,
        refl,
        refl,
      )
