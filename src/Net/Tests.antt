-- ===== src/Net/Tests.antt =====
-- Runs of net/ on small inputs.
use chrono_shift.Prelude.{
  ℕ, ◌+◌, ◌≤◌, ◌<◌, ◌≡◌, ◌↔◌, refl, true, some, none, List, [], ◌∷◌, ◌++◌, ok, err, arith,
  replicate,
}
use chrono_shift.Prelude.Keys.{Bytes, bytes_eq, bytes_beq}
use chrono_shift.Prelude.Dict.{lookup}
use chrono_shift.Primitives.{toy_signer, toy_aead, toy_encrypt, toy_dh, toy_kdf}
use chrono_shift.Identity.{hex_encode, hex_decode, decode_pairs, decode_key}
use chrono_shift.Uid.{validate_uid}
use chrono_shift.Net.Message.{PeerMessage}
use chrono_shift.Net.Frames.{FrameError, send_frame, recv_frame}
use chrono_shift.Net.Session.{
  Received, recv_secure_frame, open_frame, accept, send_secure_frame, seal,
}
use chrono_shift.Crypto.{derive_session_key, encrypt_e2e, decrypt_e2e}
use chrono_shift.Prelude.Words.{to_be_bytes}
use chrono_shift.Net.Session.Streams.{
  done, send_all, recv_all, recv_all-send_all, recv_secure_frame-replayed,
}
use chrono_shift.Net.Session.Handshake.{
  SessionKeys, PeerSigCheck, check_peer_sig, respond, challenge, finish, finish_with, hex_to_32,
  derive_shared, signature_holds, parse_verifying_key,
}
use chrono_shift.Net.Session.Agreement.{auth_of, handshake_agrees}
use chrono_shift.Net.Session.PeerCheck.{check_peer_sig_verified}
use chrono_shift.Net.Session.Authenticity.{finish_authenticated}
use chrono_shift.Net.Relay
use chrono_shift.Net.Relay.{RelayVerifier, pin_key, check}
use chrono_shift.Net.Relay.Replay.{
  Request, check_all, admitted_nonces, Increasing, check_all-Increasing,
}
use chrono_shift.Net.Relay.Rate.{admitted_count, check_all-rate}

abbrev key_one : Bytes
key_one = 1 ∷ []

abbrev key_two : Bytes
key_two = 2 ∷ []

abbrev requests : List Request
requests =
    record { key_hex = key_one; nonce = 5; timestamp = 100; now = 100 }
    ∷ record { key_hex = key_two; nonce = 3; timestamp = 101; now = 102 }
    ∷ record { key_hex = key_one; nonce = 5; timestamp = 100; now = 103 }
    ∷ record { key_hex = key_one; nonce = 6; timestamp = 100; now = 110 }
    ∷ []

check_all-Increasing_example :
    Increasing none (admitted_nonces key_one requests (check_all requests Relay.new).1)
check_all-Increasing_example = check_all-Increasing key_one requests Relay.new (omega arith)

abbrev counting : RelayVerifier
counting = record {
  last_nonce = [];
  rate = (key_one, (100, 59)) ∷ [];
  key_pins = (alice, key_one) ∷ [];
}
  where
    alice : Bytes
    alice = 97 ∷ []

check_all-rate_example : 59 + admitted_count key_one requests (check_all requests counting).1 ≤ 60
unfolding bytes_beq
check_all-rate_example =
    check_all-rate key_one 100 59 requests counting (omega arith) refl (omega arith)
      (λ m. omega arith, (λ m. omega arith, (λ m. omega arith, (λ m. omega arith, tt))))

abbrev noise : Bytes
noise = replicate 1024 7

abbrev padded_two : Bytes
padded_two = 1 ∷ 2 ∷ replicate 1022 7

abbrev twelve : Bytes
twelve = replicate 12 1

-- The frame with number n around a payload, as the toy cipher seals it.
abbrev toy_enc : ℕ → Bytes → Bytes
toy_enc n payload = twelve ++ (replicate 16 0 ++ (to_be_bytes 8 n ++ payload))

abbrev conversation : List (Bytes × Bytes)
conversation = (twelve, 5 ∷ []) ∷ (twelve, 6 ∷ 7 ∷ []) ∷ []

abbrev wire : Bytes
wire = send_frame (toy_enc 1 (5 ∷ [])) ++ (send_frame (toy_enc 2 (6 ∷ 7 ∷ [])) ++ [])

wire_sent : send_all toy_aead conversation key_one 0 ≡ some wire
unfolding send_all send_secure_frame seal encrypt_e2e toy_aead toy_encrypt
wire_sent = refl

recv_all-send_all_example :
    recv_all toy_aead 2 key_one 0 (wire ++ key_two)
    ≡ done ((5 ∷ []) ∷ (6 ∷ 7 ∷ []) ∷ []) key_two (0 + 2)
recv_all-send_all_example =
    recv_all-send_all toy_aead conversation key_one key_two 0
      ((refl, omega arith), ((refl, omega arith), tt)) (omega arith) wire_sent

first_received : Received toy_aead
first_received = record { payload = 5 ∷ []; rest = []; last_seq = 1 }

first_accepted :
    recv_secure_frame toy_aead key_one 0 (send_frame (toy_enc 1 (5 ∷ [])) ++ []) ≡ ok first_received
unfolding recv_secure_frame open_frame accept recv_frame decrypt_e2e toy_aead toy_encrypt
    first_received
first_accepted = refl

recv_secure_frame-replayed_example :
    (0 < first_received.last_seq)
    × ((last' : ℕ) (rest' : Bytes)
        → first_received.last_seq ≤ last'
        → recv_secure_frame toy_aead key_one last' (send_frame (toy_enc 1 (5 ∷ [])) ++ rest')
          ≡ err FrameError.replayed_frame)
recv_secure_frame-replayed_example =
    recv_secure_frame-replayed toy_aead key_one (toy_enc 1 (5 ∷ [])) [] 0 first_received
      (omega arith) first_accepted

abbrev alice : Bytes
alice = 97 ∷ []

abbrev bob : Bytes
bob = 98 ∷ []

abbrev alice_hex : Bytes
alice_hex = hex_encode (toy_signer.verifying_key key_one)

abbrev bob_hex : Bytes
bob_hex = hex_encode (toy_signer.verifying_key key_two)

check_peer_sig_verified_example :
    (check_peer_sig toy_signer toy_dh toy_kdf ((alice, alice_hex) ∷ []) alice alice_hex [] []
      ≡ PeerSigCheck.verified)
    ↔ ((vk : Bytes) × (lookup alice ((alice, alice_hex) ∷ []) ≡ some alice_hex)
        × (parse_verifying_key toy_signer alice_hex ≡ some vk)
        × (signature_holds toy_signer vk [] [] ≡ true))
check_peer_sig_verified_example =
    check_peer_sig_verified toy_signer toy_dh toy_kdf ((alice, alice_hex) ∷ []) alice alice_hex []
      []

handshake_agrees_example :
    (reply : PeerMessage) × (keys_a keys_b : SessionKeys) × (respond toy_signer toy_dh toy_kdf
        (auth_of toy_signer toy_dh toy_kdf bob key_two)
        ((alice, alice_hex) ∷ [])
        key_two
        (challenge toy_signer toy_dh toy_kdf
          (auth_of toy_signer toy_dh toy_kdf alice key_one)
          key_one
          twelve)
      ≡ (some reply, ok keys_b))
    × (finish toy_signer toy_dh toy_kdf ((bob, bob_hex) ∷ []) key_one twelve reply ≡ ok keys_a)
    × (keys_a.send_key ≡ keys_b.recv_key)
    × (keys_a.recv_key ≡ keys_b.send_key)
    × (keys_a.peer_uid ≡ bob)
    × (keys_b.peer_uid ≡ alice)
    × (keys_a.peer_authenticated ≡ true)
    × (keys_b.peer_authenticated ≡ true)
unfolding bytes_beq
handshake_agrees_example =
    handshake_agrees toy_signer toy_dh toy_kdf alice bob key_one key_two key_one key_two twelve
      ((bob, bob_hex) ∷ []) ((alice, alice_hex) ∷ []) (unfold validate_uid in refl)
      (unfold validate_uid in refl) refl refl refl

abbrev bob_eph_hex : Bytes
bob_eph_hex = hex_encode (toy_dh.public key_two)

abbrev bob_sig : Bytes
bob_sig = toy_signer.sign key_two (toy_dh.public key_one ++ (toy_dh.public key_two ++ twelve))

abbrev with_bob : SessionKeys
with_bob = record {
  send_key = replicate 32 3;
  recv_key = replicate 32 3;
  peer_uid = bob;
  peer_public_hex = bob_hex;
  peer_authenticated = true;
}

bob_accepted :
    finish toy_signer toy_dh toy_kdf
      ((bob, bob_hex) ∷ [])
      key_one
      twelve
      (PeerMessage.auth_response bob bob_hex bob_eph_hex bob_sig)
    ≡ ok with_bob
unfolding finish finish_with check_peer_sig hex_to_32 decode_key hex_decode decode_pairs hex_encode
    derive_shared signature_holds parse_verifying_key validate_uid derive_session_key bytes_beq
bob_accepted = refl

finish_authenticated_example :
    (validate_uid bob ≡ true)
    × (bob ≡ bob)
    × (eph vk : Bytes) × (decode_key bob_eph_hex ≡ some eph)
    × (lookup bob ((bob, bob_hex) ∷ []) ≡ some bob_hex)
    × (parse_verifying_key toy_signer bob_hex ≡ some vk)
    × (signature_holds toy_signer vk (toy_dh.public key_one ++ (eph ++ twelve)) bob_sig ≡ true)
finish_authenticated_example =
    finish_authenticated toy_signer toy_dh toy_kdf ((bob, bob_hex) ∷ []) key_one twelve bob bob_hex
      bob_eph_hex bob_sig with_bob bob_accepted refl
