-- ===== src/Net/Connections.antt =====
-- net/connection_manager.rs: the table of connections, what a reader lets through, and the slots of
-- the listener. An address is its text; the locks are always free; the clock is an argument; the
-- JSON form of a message is an argument, since serde makes it.
pub mod Table
pub mod Inbound
mod Tests
use chrono_shift.Prelude.{
  ℕ, ◌+◌, ◌-◌, ◌%◌, ◌^◌, Bool, true, false, not, ◌&&◌, ◌||◌, Option, none, some, List, [], ◌∷◌,
  ◌++◌, Result, ok, err, length, leb, ◌==◌, if◌then◌else◌,
}
use chrono_shift.Prelude.Keys.{Bytes, bytes_eq, ◌=?◌, contains}
use chrono_shift.Prelude.Dict.{Dict, lookup, has_key, insert, remove}
use chrono_shift.Uid.{validate_uid}
use chrono_shift.Net.Message.{PeerMessage}

pub record PeerInfo : Type 0 where
  pub uid : Bytes
  pub addresses : List Bytes
  pub public_key : Bytes
  pub last_seen : ℕ
  pub pgp_fingerprint : Option Bytes

abbrev pub writer_queue_cap : ℕ
writer_queue_cap = 64

abbrev pub max_connections : ℕ
max_connections = 256

-- The queue is what the writer task has not taken yet.
pub record PeerWriter : Type 0 where
  pub queue : List Bytes
  pub conn_id : ℕ

-- The counter `NEXT_CONN_ID` stands with the manager.
pub record ConnectionManager : Type 0 where
  pub active_connections : Dict Bytes PeerWriter
  pub known_peers : Dict Bytes PeerInfo
  pub known_peer_keys : Dict Bytes Bytes
  pub listen_port : ℕ
  pub next_conn_id : ℕ

abbrev pub new : ℕ → ConnectionManager
new listen_port = record {
  active_connections = [];
  known_peers = [];
  known_peer_keys = [];
  listen_port = listen_port;
  next_conn_id = 1;
}

unfoldable pub register_peer : ℕ → Bytes → Bytes → Bytes → ConnectionManager → ConnectionManager
register_peer now uid addr public_key cm =
    let info : PeerInfo = elim (lookup uid cm.known_peers) [
      | none ↦ record {
        uid = uid;
        addresses = addr ∷ [];
        public_key = public_key;
        last_seen = now;
        pgp_fingerprint = none;
      }
      | some p ↦ record p {
        addresses = if contains p.addresses addr then p.addresses else p.addresses ++ addr ∷ [];
        last_seen = now;
        public_key = public_key;
      }
    ] in
    record cm {
      known_peers = insert uid info cm.known_peers;
      known_peer_keys = insert uid public_key cm.known_peer_keys;
    }

abbrev pub is_connected : Bytes → ConnectionManager → Bool
is_connected uid cm = has_key uid cm.active_connections

abbrev pub peer_addresses : Bytes → ConnectionManager → List Bytes
peer_addresses uid cm = elim (lookup uid cm.known_peers) [ none ↦ [] | some p ↦ p.addresses ]

pub data SendError : Type 0 where
  not_connected queue_full : SendError

-- `try_send` on the bounded queue.
abbrev pub try_send : Bytes → PeerWriter → Result PeerWriter SendError
try_send payload w =
    if leb writer_queue_cap (length w.queue)
    then err SendError.queue_full
    else ok (record w { queue = w.queue ++ payload ∷ [] })

module _ (to_json : PeerMessage → Bytes) where
  unfoldable pub send_to :
      Bytes → PeerMessage → ConnectionManager → Result ConnectionManager SendError
  send_to uid msg cm = elim (lookup uid cm.active_connections) [
    | none ↦ err SendError.not_connected
    | some w ↦ elim (try_send (to_json msg) w) [
      | err e ↦ err e
      | ok w' ↦ ok (record cm { active_connections = insert uid w' cm.active_connections })
    ]
  ]

  -- Best effort: an error leaves the table.
  unfoldable pub broadcast_to : List Bytes → PeerMessage → ConnectionManager → ConnectionManager
  broadcast_to [] msg cm = cm
  broadcast_to (uid ∷ uids) msg cm =
      broadcast_to uids msg (elim (send_to uid msg cm) [ err e ↦ cm | ok cm' ↦ cm' ])

-- `entry(uid).or_insert(key)` after a handshake that authenticated the peer.
unfoldable pub pin_identity : Bytes → Bytes → Bool → Dict Bytes Bytes → Dict Bytes Bytes
pin_identity uid key_hex authenticated keys =
    if authenticated && not (has_key uid keys) then insert uid key_hex keys else keys

-- A connection whose handshake is over: its id, and its entry in the table.
unfoldable pub open_connection : Bytes → Bytes → Bool → ConnectionManager → ConnectionManager × ℕ
open_connection uid key_hex authenticated cm = (
  record cm {
    known_peer_keys = pin_identity uid key_hex authenticated cm.known_peer_keys;
    active_connections =
        insert uid (record { queue = []; conn_id = cm.next_conn_id }) cm.active_connections;
    next_conn_id = (cm.next_conn_id + 1) % 2 ^ 64;
  },
  cm.next_conn_id,
)

unfoldable pub remove_connection : Bytes → ℕ → ConnectionManager → ConnectionManager
remove_connection uid conn_id cm = elim (lookup uid cm.active_connections) [
  | none ↦ cm
  | some w ↦
      if w.conn_id == conn_id
      then record cm { active_connections = remove uid cm.active_connections }
      else cm
]

abbrev pub connected_count : ConnectionManager → ℕ
connected_count cm = length cm.active_connections

abbrev pub allowed_unauthenticated : PeerMessage → Bool
allowed_unauthenticated (PeerMessage.ping ts) = true
allowed_unauthenticated (PeerMessage.pong ts) = true
allowed_unauthenticated _ = false

-- `format!("peer@{}", addr)`
abbrev pub peer_at : Bytes → Bytes
peer_at addr = 112 ∷ 101 ∷ 101 ∷ 114 ∷ 64 ∷ addr

unfoldable pub extract_uid : PeerMessage → Bytes → Bytes
extract_uid (PeerMessage.friend_request from_uid _) addr = from_uid
extract_uid (PeerMessage.friend_accept from_uid) addr = from_uid
extract_uid (PeerMessage.channel_message _ from_uid _) addr = from_uid
extract_uid (PeerMessage.dc_round_share _ _ peer_uid _ _) addr = peer_uid
extract_uid (PeerMessage.network_invite from_uid _ _ _) addr = from_uid
extract_uid (PeerMessage.network_join_request from_uid _ _ _) addr = from_uid
extract_uid (PeerMessage.network_join_accept from_uid _ _ _) addr = from_uid
extract_uid (PeerMessage.network_kick from_uid _ _ _ _) addr = from_uid
extract_uid (PeerMessage.network_sync from_uid _ _ _ _ _) addr = from_uid
extract_uid (PeerMessage.auth_challenge from_uid _ _ _ _) addr = from_uid
extract_uid (PeerMessage.auth_response from_uid _ _ _) addr = from_uid
extract_uid (PeerMessage.relay_request from_uid _ _ _ _ _ _ _) addr = from_uid
extract_uid (PeerMessage.relay_response from_uid _ _ _ _ _ _ _) addr = from_uid
extract_uid (PeerMessage.dc_round_start _ _ leader_id _ _ _) addr = leader_id
extract_uid (PeerMessage.leader_change _ new_leader _ _) addr = new_leader
extract_uid (PeerMessage.round_sync_request from_uid _) addr = from_uid
extract_uid (PeerMessage.round_sync_response leader_uid _ _ _ _) addr = leader_uid
extract_uid (PeerMessage.dc_round _ _ _) addr = peer_at addr
extract_uid (PeerMessage.dc_round_result _ _ _ _) addr = peer_at addr
extract_uid (PeerMessage.ping _) addr = peer_at addr
extract_uid (PeerMessage.pong _) addr = peer_at addr

abbrev pub is_relay : PeerMessage → Bool
is_relay (PeerMessage.relay_request _ _ _ _ _ _ _ _) = true
is_relay (PeerMessage.relay_response _ _ _ _ _ _ _ _) = true
is_relay _ = false

-- `starts_with`
abbrev pub starts_with : Bytes → Bytes → Bool
starts_with [] text = true
starts_with (p ∷ ps) [] = false
starts_with (p ∷ ps) (c ∷ cs) = p == c && starts_with ps cs

-- What the reader of a connection hands on: the peer's uid and the message, or nothing.
unfoldable pub forward : Bytes → Bool → Bytes → PeerMessage → Option (Bytes × PeerMessage)
forward peer_uid peer_authenticated addr msg =
    let claimed_uid = extract_uid msg addr in
    let is_anonymous = starts_with (peer_at []) claimed_uid in
    if not (validate_uid claimed_uid)
    then none
    else if not peer_authenticated && not (allowed_unauthenticated msg)
    then none
    else if not is_anonymous && not (is_relay msg) && not (claimed_uid =? peer_uid)
    then none
    else some (peer_uid, msg)

-- The listener's count of slots: an accept takes one, and gives it back at once past the limit.
unfoldable pub accept_slot : ℕ → ℕ × Bool
accept_slot count =
    let taken = count + 1 in if leb max_connections count then (taken - 1, false) else (taken, true)

-- The drop of a `ConnectionGuard`.
abbrev pub release_slot : ℕ → ℕ
release_slot count = count - 1
