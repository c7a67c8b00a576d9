-- ===== src/Net/Connections/Inbound.antt =====
-- What reaches the program from a peer, and how many peers there are: net/connection_manager.rs.
use chrono_shift.Prelude.{
  ℕ, suc, ◌≤◌, ◌≡◌, ◌⊎◌, refl, sym, ap, ap₂, [], List, ◌∷◌, ◌++◌, Bool, true, false, not, ◌&&◌,
  Option, none, some, arith, Bool-cases, inl, inr,
}
use chrono_shift.Prelude.Keys.{Bytes, bytes_eq, bytes_beq_iff, ◌=?◌}
use chrono_shift.Uid.{validate_uid}
use chrono_shift.Net.Message.{PeerMessage}
use chrono_shift.Net.Connections.{
  forward, extract_uid, allowed_unauthenticated, is_relay, starts_with, peer_at, accept_slot,
  release_slot, max_connections,
}

abbrev sender_of : Bytes → Option (Bytes × PeerMessage) → Bytes
sender_of default none = default
sender_of default (some (uid, msg)) = uid

abbrev message_of : PeerMessage → Option (Bytes × PeerMessage) → PeerMessage
message_of default none = default
message_of default (some (uid, msg)) = msg

-- The keepalives.
pub data IsKeepalive : PeerMessage → Type 0 where
  ping : (ts : ℕ) → IsKeepalive (PeerMessage.ping ts)
  pong : (ts : ℕ) → IsKeepalive (PeerMessage.pong ts)

-- The messages that are relayed, whose originator another peer may be.
pub data IsRelayed : PeerMessage → Type 0 where
  asked :
      (from_uid to_uid key : Bytes) (nonce timestamp hops : ℕ) (signature payload : Bytes)
      → IsRelayed
          (PeerMessage.relay_request from_uid to_uid key nonce timestamp hops signature payload)
  answered :
      (from_uid to_uid key : Bytes) (nonce timestamp hops : ℕ) (signature payload : Bytes)
      → IsRelayed
          (PeerMessage.relay_response from_uid to_uid key nonce timestamp hops signature payload)

-- The sender, or the leader of a round, that a message names.
pub data Names : PeerMessage → Bytes → Type 0 where
  friend_request : (u text : Bytes) → Names (PeerMessage.friend_request u text) u
  friend_accept : (u : Bytes) → Names (PeerMessage.friend_accept u) u
  channel_message : (channel u text : Bytes) → Names (PeerMessage.channel_message channel u text) u
  round_share :
      (channel : Bytes) (n : ℕ) (u share signature : Bytes)
      → Names (PeerMessage.dc_round_share channel n u share signature) u
  round_start :
      (channel : Bytes) (n : ℕ) (u : Bytes) (ps : List Bytes) (secs len : ℕ)
      → Names (PeerMessage.dc_round_start channel n u ps secs len) u
  sync_request : (u channel : Bytes) → Names (PeerMessage.round_sync_request u channel) u
  sync_response :
      (u channel : Bytes) (n len : ℕ) (commitments : List (Bytes × Bytes))
      → Names (PeerMessage.round_sync_response u channel n len commitments) u
  leader_change :
      (network u reason : Bytes) (n : ℕ) → Names (PeerMessage.leader_change network u reason n) u
  invite :
      (u name pgp signature : Bytes) → Names (PeerMessage.network_invite u name pgp signature) u
  join_request :
      (u name pgp signature : Bytes)
      → Names (PeerMessage.network_join_request u name pgp signature) u
  join_accept :
      (u name : Bytes) (members : List Bytes) (signature : Bytes)
      → Names (PeerMessage.network_join_accept u name members signature) u
  kick :
      (u name kicked reason signature : Bytes)
      → Names (PeerMessage.network_kick u name kicked reason signature) u
  sync :
      (u name : Bytes) (members : List Bytes) (topic : Bytes) (n : ℕ) (signature : Bytes)
      → Names (PeerMessage.network_sync u name members topic n signature) u
  auth_asked :
      (u key eph nonce signature : Bytes)
      → Names (PeerMessage.auth_challenge u key eph nonce signature) u
  auth_answer :
      (u key eph signature : Bytes) → Names (PeerMessage.auth_response u key eph signature) u
  relay_asked :
      (u to_uid key : Bytes) (nonce timestamp hops : ℕ) (signature payload : Bytes)
      → Names (PeerMessage.relay_request u to_uid key nonce timestamp hops signature payload) u
  relay_answered :
      (u to_uid key : Bytes) (nonce timestamp hops : ℕ) (signature payload : Bytes)
      → Names (PeerMessage.relay_response u to_uid key nonce timestamp hops signature payload) u

extract_uid-Names :
    {msg : PeerMessage} {u : Bytes} (addr : Bytes) → Names msg u → extract_uid msg addr ≡ u
unfolding extract_uid
extract_uid-Names addr (Names.friend_request u text) = refl
extract_uid-Names addr _ = refl

allowed_unauthenticated-IsKeepalive :
    (msg : PeerMessage) → allowed_unauthenticated msg ≡ true → IsKeepalive msg
allowed_unauthenticated-IsKeepalive (PeerMessage.ping ts) allowed = IsKeepalive.ping ts
allowed_unauthenticated-IsKeepalive (PeerMessage.pong ts) allowed = IsKeepalive.pong ts
allowed_unauthenticated-IsKeepalive _ allowed = absurd cc

is_relay-IsRelayed : (msg : PeerMessage) → is_relay msg ≡ true → IsRelayed msg
is_relay-IsRelayed
      (PeerMessage.relay_request from_uid to_uid key nonce timestamp hops signature payload) relay =
    IsRelayed.asked from_uid to_uid key nonce timestamp hops signature payload
is_relay-IsRelayed
      (PeerMessage.relay_response from_uid to_uid key nonce timestamp hops signature payload)
      relay =
    IsRelayed.answered from_uid to_uid key nonce timestamp hops signature payload
is_relay-IsRelayed _ relay = absurd cc

starts_with-split :
    (p text : Bytes) → starts_with p text ≡ true → (rest : Bytes) × (text ≡ p ++ rest)
starts_with-split [] text begins = (text, refl)
starts_with-split (c ∷ p) [] begins = absurd cc
starts_with-split (c ∷ p) (d ∷ text) begins =
    let (rest, same) = starts_with-split p text (ground (arith, begins)) in
    let first : d ≡ c = ground (arith, begins) in
    (rest, ap₂ (λ (x : ℕ) (xs : Bytes). x ∷ xs) first same)

guards :
    (peer_uid : Bytes) (authenticated : Bool) (addr : Bytes) (msg : PeerMessage) (uid : Bytes)
    (out : PeerMessage)
    → forward peer_uid authenticated addr msg ≡ some (uid, out)
    → (uid ≡ peer_uid)
      × (out ≡ msg)
      × (validate_uid (extract_uid msg addr) ≡ true)
      × ((authenticated ≡ true) ⊎ (allowed_unauthenticated msg ≡ true))
      × ((extract_uid msg addr ≡ peer_uid)
          ⊎ ((starts_with (peer_at []) (extract_uid msg addr) ≡ true) ⊎ (is_relay msg ≡ true)))
unfolding forward
guards peer_uid authenticated addr msg uid out e =
    elim (Bool-cases (validate_uid (extract_uid msg addr))) [
      | inr bad ↦ let dropped = rw (forward, bad) at e in cc dropped
      | inl valid ↦ elim (Bool-cases (not authenticated && not (allowed_unauthenticated msg))) [
        | inl barred ↦ let dropped = rw (forward, valid, barred) at e in cc dropped
        | inr admitted ↦
            elim (Bool-cases (
              not (starts_with (peer_at []) (extract_uid msg addr))
              && not (is_relay msg)
              && not (extract_uid msg addr =? peer_uid))) [
                | inl foreign ↦
                    let dropped = rw (forward, valid, admitted, foreign) at e in cc dropped
                | inr bound ↦
                    let out_is = rw (forward, valid, admitted, bound) at e in
                    (
                      sym (ap (sender_of uid) out_is),
                      sym (ap (message_of out) out_is),
                      valid,
                      ground arith,
                      ground (arith, bytes_beq_iff (extract_uid msg addr) peer_uid),
                    )
              ]
      ]
    ]

-- Whatever a reader hands on is the peer's message under the peer's own uid. The uid that it
-- claims - where the message names a sender or leader, that one - is valid, and is the peer's
-- unless it begins with "peer@" or the message is a relay request or response; and in a session
-- that is not authenticated it is a ping or a pong.
pub forward_bound :
    (peer_uid : Bytes) (authenticated : Bool) (addr : Bytes) (msg : PeerMessage) (uid : Bytes)
    (out : PeerMessage)
    → forward peer_uid authenticated addr msg ≡ some (uid, out)
    → (uid ≡ peer_uid)
      × (out ≡ msg)
      × (validate_uid (extract_uid msg addr) ≡ true)
      × ((claimed : Bytes) → Names msg claimed → extract_uid msg addr ≡ claimed)
      × ((authenticated ≡ true) ⊎ IsKeepalive msg)
      × ((extract_uid msg addr ≡ peer_uid)
          ⊎ (((rest : Bytes) × (extract_uid msg addr ≡ 112 ∷ 101 ∷ 101 ∷ 114 ∷ 64 ∷ rest))
              ⊎ IsRelayed msg))
forward_bound peer_uid authenticated addr msg uid out e =
    let (own, same, valid, admitted, bound) = guards peer_uid authenticated addr msg uid out e in
    (
      own,
      same,
      valid,
      λ claimed names. extract_uid-Names addr names,
      elim admitted [
        | inl known ↦ inl known
        | inr allowed ↦ inr (allowed_unauthenticated-IsKeepalive msg allowed)
      ],
      elim bound [
        | inl claimed ↦ inl claimed
        | inr (inl anonymous) ↦
            inr (inl (starts_with-split (peer_at []) (extract_uid msg addr) anonymous))
        | inr (inr relay) ↦ inr (inr (is_relay-IsRelayed msg relay))
      ],
    )

-- Accepts and ends of connections, in whatever order the tasks run. The first number is the
-- counter, the second how many connections the tasks serve.
pub data SlotStep : ℕ × ℕ → ℕ × ℕ → Type 0 where
  served :
      (count running : ℕ)
      → (accept_slot count).1 ≡ true
      → SlotStep (count, running) ((accept_slot count).0, suc running)
  refused :
      (count running : ℕ)
      → (accept_slot count).1 ≡ false
      → SlotStep (count, running) ((accept_slot count).0, running)
  ended : (count running : ℕ) → SlotStep (count, suc running) (release_slot count, running)

pub data SlotsReached : ℕ × ℕ → Type 0 where
  start : SlotsReached (0, 0)
  later : {s s' : ℕ × ℕ} → SlotsReached s → SlotStep s s' → SlotsReached s'

abbrev SlotsValid : ℕ × ℕ → Type 0
SlotsValid (count, running) = (count ≡ running) × (running ≤ max_connections)

SlotStep-SlotsValid : {s s' : ℕ × ℕ} → SlotsValid s → SlotStep s s' → SlotsValid s'
unfolding accept_slot
SlotStep-SlotsValid v (SlotStep.served count running e) = ground arith
SlotStep-SlotsValid v (SlotStep.refused count running e) = ground arith
SlotStep-SlotsValid v (SlotStep.ended count running) = omega arith

-- In whatever order connections come and end, the listener serves at most 256 at a time, and its
-- counter is the number of those that it serves.
pub SlotsReached-SlotsValid : {s : ℕ × ℕ} → SlotsReached s → SlotsValid s
SlotsReached-SlotsValid SlotsReached.start = (refl, omega arith)
SlotsReached-SlotsValid (SlotsReached.later r step) =
    SlotStep-SlotsValid (SlotsReached-SlotsValid r) step
