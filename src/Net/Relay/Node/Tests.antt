-- ===== src/Net/Relay/Node/Tests.antt =====
-- A request from 1 to 3 through 2, and messages that a node drops.
use chrono_shift.Prelude.{ℕ, ◌≡◌, inr, refl, true, some, List, [], ◌∷◌, arith}
use chrono_shift.Prelude.Keys.{Bytes, bytes_beq}
use chrono_shift.Primitives.{toy_signer}
use chrono_shift.Identity.{hex_encode, hex_decode, decode_pairs, decode_key}
use chrono_shift.Net.Message.{PeerMessage}
use chrono_shift.Net.Connections
use chrono_shift.Net.Session.Handshake.{parse_verifying_key}
use chrono_shift.Net.Relay
use chrono_shift.Net.Relay.{check, admit, charge, pin_key}
use chrono_shift.Net.Relay.Signing.{sign_relay, verify_relay, relay_signature_message}
use chrono_shift.Net.Relay.Node.{
  RelayOrigin, AppState, relay_info, send_relay, build_relay_request, handle_relay_message,
  verify_and_admit, admit_relay, deliver_or_forward, key_for,
}
use chrono_shift.Net.Relay.Node.Delivery.{IsReady, Route, carry, carry-send_relay, origin_of}

abbrev key_of : ℕ → Bytes
key_of n = hex_encode (toy_signer.verifying_key (n ∷ []))

-- A node with a path to 3 over the given relay.
abbrev node : ℕ → ℕ → AppState
node n relay = record {
  uid = n ∷ [];
  signing_key = some (n ∷ []);
  public_hex = key_of n;
  connection_manager = Connections.new 9000;
  relay = record {
    paths =
        (
          3 ∷ [],
          record { relay_uid = relay ∷ []; target_uid = 3 ∷ []; active = true; bytes_relayed = 0 }
              ∷ [],
        )
        ∷ [];
  };
  relay_verifier = Relay.new;
  relay_nonce = 0;
  outgoing_open = true;
}

abbrev origin : RelayOrigin
origin = origin_of toy_signer 100 (3 ∷ []) (1 ∷ []) (node 1 2)

ready : (n : ℕ) → IsReady origin 110 (node n 3)
unfolding admit charge
ready n = record {
  key_known = inr (refl, inr refl);
  fresh = refl;
  timely = omega arith;
  room = refl;
}

abbrev nodes : List (ℕ × AppState)
nodes = (110, node 2 3) ∷ (110, node 3 3) ∷ []

route : Route origin nodes (2 ∷ [])
unfolding bytes_beq
route =
    Route.hop 110 (node 2 3) ((110, node 3 3) ∷ []) (3 ∷ []) refl (ready 2) refl refl
      (Route.target 110 (node 3 3) refl (ready 3))

carry-send_relay_example :
    carry toy_signer nodes (send_relay toy_signer 100 (3 ∷ []) (7 ∷ 8 ∷ []) (node 1 2)).1
    ≡ relay_info (1 ∷ []) (7 ∷ 8 ∷ []) ∷ []
unfolding bytes_beq
carry-send_relay_example =
    carry-send_relay toy_signer 100 (3 ∷ []) (7 ∷ 8 ∷ []) (1 ∷ []) (2 ∷ []) (node 1 2) nodes refl
      refl refl refl route (omega arith)

abbrev request : PeerMessage
request = build_relay_request toy_signer origin (7 ∷ 8 ∷ [])

-- The relay sends the request on, with 7 hops left.
request_forwarded :
    (handle_relay_message toy_signer 110 request (node 2 3)).sent
    ≡ (
      3 ∷ [],
      PeerMessage.relay_request
          (1 ∷ [])
          (3 ∷ [])
          (key_of 1)
          1
          100
          7
          (sign_relay toy_signer (1 ∷ []) (1 ∷ []) (3 ∷ []) 1 100 (7 ∷ 8 ∷ []))
          (7 ∷ 8 ∷ []),
    )
      ∷ []
unfolding handle_relay_message verify_and_admit admit_relay deliver_or_forward key_for
    build_relay_request sign_relay verify_relay relay_signature_message parse_verifying_key
    decode_key hex_decode decode_pairs hex_encode check admit charge pin_key bytes_beq
request_forwarded = refl

-- The same request is not sent on again.
request_replayed :
    (let after = (handle_relay_message toy_signer 110 request (node 2 3)).state in
      (handle_relay_message toy_signer 111 request after).sent)
    ≡ []
unfolding handle_relay_message verify_and_admit admit_relay deliver_or_forward key_for
    build_relay_request sign_relay verify_relay relay_signature_message parse_verifying_key
    decode_key hex_decode decode_pairs hex_encode check admit charge pin_key bytes_beq
request_replayed = refl
