-- ===== src/Net/Relay/Node.antt =====
-- The relaying of app.rs: `send_relay` and `handle_relay_message` of `AppState`, with the messages that
-- net/relay.rs builds. Clock readings are arguments; locks are free, and the queue of outgoing messages
-- is what the calls put into it, with a flag for a queue that is closed.
pub mod Admission
pub mod Delivery
mod Tests
use chrono_shift.Prelude.{
  ℕ, ◌+◌, ◌-◌, ◌%◌, ◌^◌, Bool, true, false, not, Option, none, some, List, [], ◌∷◌, ◌++◌, Result,
  ok, err, length, leb, if◌then◌else◌, ◌==◌, min,
}
use chrono_shift.Prelude.Keys.{Bytes, bytes_eq, ◌=?◌}
use chrono_shift.Prelude.Dict.{lookup}
use chrono_shift.Primitives.{Signer}
use chrono_shift.Storage.{decimal}
use chrono_shift.Net.Message.{PeerMessage}
use chrono_shift.Net.Connections.{ConnectionManager, is_connected}
use chrono_shift.Net.Session.Handshake.{parse_verifying_key}
use chrono_shift.Net.Relay.{RelayVerifier, relay_max_hops, valid_inbound_hops, pin_key, check}
use chrono_shift.Net.Relay.Routes.{RelayRouter, next_hop}
use chrono_shift.Net.Relay.Signing.{sign_relay, verify_relay}

pub record RelayOrigin : Type 0 where
  pub signing_key : Bytes
  pub origin_key_hex : Bytes
  pub from_uid : Bytes
  pub to_uid : Bytes
  pub nonce : ℕ
  pub timestamp : ℕ
  pub hops_left : ℕ

-- The fields that a request and a response have in common.
pub record RelayFields : Type 0 where
  pub from_uid : Bytes
  pub to_uid : Bytes
  pub origin_key_hex : Bytes
  pub nonce : ℕ
  pub timestamp : ℕ
  pub hops_left : ℕ
  pub signature : Bytes
  pub encrypted_payload : Bytes
  pub is_request : Bool

abbrev pub message_of : RelayFields → PeerMessage
message_of r =
    if r.is_request
    then PeerMessage.relay_request r.from_uid r.to_uid r.origin_key_hex r.nonce r.timestamp
        r.hops_left r.signature r.encrypted_payload
    else PeerMessage.relay_response r.from_uid r.to_uid r.origin_key_hex r.nonce r.timestamp
        r.hops_left r.signature r.encrypted_payload

abbrev pub fields_of : PeerMessage → Option RelayFields
fields_of
      (PeerMessage.relay_request from_uid to_uid key nonce timestamp hops_left signature payload) =
    some (record {
      from_uid = from_uid;
      to_uid = to_uid;
      origin_key_hex = key;
      nonce = nonce;
      timestamp = timestamp;
      hops_left = hops_left;
      signature = signature;
      encrypted_payload = payload;
      is_request = true;
    })
fields_of
      (PeerMessage.relay_response from_uid to_uid key nonce timestamp hops_left signature payload) =
    some (record {
      from_uid = from_uid;
      to_uid = to_uid;
      origin_key_hex = key;
      nonce = nonce;
      timestamp = timestamp;
      hops_left = hops_left;
      signature = signature;
      encrypted_payload = payload;
      is_request = false;
    })
fields_of _ = none

pub data AppEvent : Type 0 where
  info : (message : Bytes) → AppEvent
  error : (message : Bytes) → AppEvent

-- The part of the state of the application that relays.
pub record AppState : Type 0 where
  pub uid : Bytes
  pub signing_key : Option Bytes
  pub public_hex : Bytes
  pub connection_manager : ConnectionManager
  pub relay : RelayRouter
  pub relay_verifier : RelayVerifier
  pub relay_nonce : ℕ
  pub outgoing_open : Bool

-- The state after a call, what it shows, and what it puts into the outgoing queue.
pub record Handled : Type 0 where
  pub state : AppState
  pub events : List AppEvent
  pub sent : List (Bytes × PeerMessage)

abbrev pub dropped : AppState → Handled
dropped s = record { state = s; events = []; sent = [] }

-- To the peer itself, or to the first relay on a path to it.
abbrev pub hop_toward : Bytes → AppState → Option Bytes
hop_toward to_uid s =
    if is_connected to_uid s.connection_manager then some to_uid else next_hop to_uid s.relay

-- "relay from {}: {} bytes"
abbrev pub relay_info : Bytes → Bytes → AppEvent
relay_info from_uid payload = AppEvent.info (
    114 ∷ 101 ∷ 108 ∷ 97 ∷ 121 ∷ 32 ∷ 102 ∷ 114 ∷ 111 ∷ 109 ∷ 32 ∷ from_uid
    ++ 58 ∷ 32 ∷ decimal (length payload)
    ++ 32 ∷ 98 ∷ 121 ∷ 116 ∷ 101 ∷ 115 ∷ [])

-- A message with one hop less.
abbrev pub forwarded : RelayFields → PeerMessage
forwarded r = message_of (record r { hops_left = r.hops_left - 1 })

-- What becomes of a message that was admitted.
unfoldable pub deliver_or_forward : RelayFields → AppState → Handled
deliver_or_forward r s =
    if r.to_uid =? s.uid
    then record { state = s; events = relay_info r.from_uid r.encrypted_payload ∷ []; sent = [] }
    else if not (valid_inbound_hops r.hops_left)
    then dropped s
    else if r.hops_left == 0
    then dropped s
    else elim (hop_toward r.to_uid s) [
      | none ↦ dropped s
      | some next_uid ↦ record {
        state = s;
        events = [];
        sent = if s.outgoing_open then (next_uid, forwarded r) ∷ [] else [];
      }
    ]

-- The key to verify with: the one that is known from a session, or the one that the message brings,
-- if it can be pinned.
unfoldable pub key_for : RelayFields → AppState → RelayVerifier × Option Bytes
key_for r s = elim (lookup r.from_uid s.connection_manager.known_peer_keys) [
  | some key ↦ (s.relay_verifier, some key)
  | none ↦
      let (verifier, answer) = pin_key r.from_uid r.origin_key_hex s.relay_verifier in
      elim answer [ ok _ ↦ (verifier, some r.origin_key_hex) | err _ ↦ (verifier, none) ]
]

-- `check`, and what follows it.
unfoldable pub admit_relay : ℕ → RelayFields → Bytes → AppState → Handled
admit_relay now r key_hex s =
    let (verifier, answer) = check key_hex r.nonce r.timestamp now s.relay_verifier in
    let s' : AppState = record s { relay_verifier = verifier } in
    elim answer [ err _ ↦ dropped s' | ok _ ↦ deliver_or_forward r s' ]

module _ (signer : Signer) where
  abbrev pub sign_origin : RelayOrigin → Bytes → Bytes
  sign_origin origin encrypted =
      sign_relay signer origin.signing_key origin.from_uid origin.to_uid origin.nonce
        origin.timestamp encrypted

  unfoldable pub build_relay_request : RelayOrigin → Bytes → PeerMessage
  build_relay_request origin encrypted =
      PeerMessage.relay_request origin.from_uid origin.to_uid origin.origin_key_hex origin.nonce
        origin.timestamp (min origin.hops_left relay_max_hops) (sign_origin origin encrypted)
        encrypted

  unfoldable pub build_relay_response : RelayOrigin → Bytes → PeerMessage
  build_relay_response origin encrypted =
      PeerMessage.relay_response origin.from_uid origin.to_uid origin.origin_key_hex origin.nonce
        origin.timestamp (min origin.hops_left relay_max_hops) (sign_origin origin encrypted)
        encrypted

  -- "[relay] request for {} routed via {}"
  abbrev pub routed_text : Bytes → Bytes → Bytes
  routed_text to_uid next_hop =
      91 ∷ 114 ∷ 101 ∷ 108 ∷ 97 ∷ 121 ∷ 93 ∷ 32 ∷ 114 ∷ 101 ∷ 113 ∷ 117 ∷ 101 ∷ 115 ∷ 116 ∷ 32 ∷ 102
        ∷ 111 ∷ 114 ∷ 32 ∷ to_uid
      ++ 32 ∷ 114 ∷ 111 ∷ 117 ∷ 116 ∷ 101 ∷ 100 ∷ 32 ∷ 118 ∷ 105 ∷ 97 ∷ 32 ∷ next_hop

  -- The answer, the state after it, and what is sent.
  unfoldable pub send_relay :
      ℕ → Bytes → Bytes → AppState → (Option Bytes × AppState) × List (Bytes × PeerMessage)
  send_relay now to_uid payload s = elim s.signing_key [
    | none ↦ ((none, s), [])
    | some signing_key ↦
        let nonce = (s.relay_nonce + 1) % 2 ^ 64 in
        let s' : AppState = record s { relay_nonce = nonce } in
        let origin : RelayOrigin = record {
          signing_key = signing_key;
          origin_key_hex = s.public_hex;
          from_uid = s.uid;
          to_uid = to_uid;
          nonce = nonce;
          timestamp = now;
          hops_left = relay_max_hops;
        } in
        elim (hop_toward to_uid s) [
          | none ↦ ((none, s'), [])
          | some next_uid ↦
              if s.outgoing_open
              then (
                (some (routed_text to_uid next_uid), s'),
                (next_uid, build_relay_request origin payload) ∷ [],
              )
              else ((none, s'), [])
        ]
  ]

  -- A message of which the fields were read.
  unfoldable pub verify_and_admit : ℕ → RelayFields → AppState → Handled
  verify_and_admit now r s =
      let (verifier, key) = key_for r s in
      let s' : AppState = record s { relay_verifier = verifier } in
      elim key [
        | none ↦ dropped s'
        | some key_hex ↦ elim (parse_verifying_key signer key_hex) [
          | none ↦ dropped s'
          | some vk ↦
              if not (
                verify_relay signer vk r.from_uid r.to_uid r.nonce r.timestamp r.encrypted_payload
                  r.signature)
              then dropped s'
              else admit_relay now r key_hex s'
        ]
      ]

  unfoldable pub handle_relay_message : ℕ → PeerMessage → AppState → Handled
  handle_relay_message now msg s = elim (fields_of msg) [
    | none ↦ dropped s
    | some r ↦ verify_and_admit now r s
  ]
