-- ===== src/Net/Message.antt =====
-- `PeerMessage` of net/tcp.rs. Its JSON form is serde's.
use chrono_shift.Prelude.{ℕ, List}
use chrono_shift.Prelude.Keys.{Bytes}

pub data PeerMessage : Type 0 where
  friend_request : (from_uid greeting : Bytes) → PeerMessage
  friend_accept : (from_uid : Bytes) → PeerMessage
  channel_message : (channel from_uid text : Bytes) → PeerMessage
  dc_round : (channel : Bytes) (round_id : ℕ) (xored_payload : Bytes) → PeerMessage
  dc_round_start :
      (channel : Bytes) (round_id : ℕ) (leader_id : Bytes) (participants : List Bytes)
      (deadline_secs payload_len : ℕ)
      → PeerMessage
  dc_round_share :
      (channel : Bytes) (round_id : ℕ) (peer_uid xored_payload signature : Bytes) → PeerMessage
  dc_round_result :
      (channel : Bytes) (round_id : ℕ) (extracted_message leader_signature : Bytes) → PeerMessage
  round_sync_request : (from_uid channel : Bytes) → PeerMessage
  round_sync_response :
      (leader_uid channel : Bytes) (round_id payload_len : ℕ)
      (share_commitments : List (Bytes × Bytes))
      → PeerMessage
  leader_change : (network new_leader reason : Bytes) (round_id : ℕ) → PeerMessage
  network_invite : (from_uid network_name pgp_fingerprint signature : Bytes) → PeerMessage
  network_join_request : (from_uid network_name pgp_fingerprint signature : Bytes) → PeerMessage
  network_join_accept :
      (from_uid network_name : Bytes) (member_list : List Bytes) (signature : Bytes) → PeerMessage
  network_kick : (from_uid network_name kicked_uid reason signature : Bytes) → PeerMessage
  network_sync :
      (from_uid network_name : Bytes) (members : List Bytes) (topic : Bytes) (round_id : ℕ)
      (signature : Bytes)
      → PeerMessage
  ping pong : (ts : ℕ) → PeerMessage
  auth_challenge : (from_uid public_key_hex eph_pub_hex nonce signature : Bytes) → PeerMessage
  auth_response : (from_uid public_key_hex eph_pub_hex signature : Bytes) → PeerMessage
  relay_request :
      (from_uid to_uid origin_key_hex : Bytes) (nonce timestamp hops_left : ℕ)
      (signature encrypted_payload : Bytes)
      → PeerMessage
  relay_response :
      (from_uid to_uid origin_key_hex : Bytes) (nonce timestamp hops_left : ℕ)
      (signature encrypted_payload : Bytes)
      → PeerMessage
