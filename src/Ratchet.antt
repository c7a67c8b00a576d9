-- ===== src/Ratchet.antt =====
-- ratchet.rs: the chains of message keys of two peers, their message numbers and the hash of the
-- frames. Key pairs and nonces are arguments; the message numbers are u64, whose `+ 1` wraps in a
-- release build. An encryption that fails, which panics in the source, is `none`.
pub mod Window
pub mod Exchange
pub mod Lockstep
mod Tests
use chrono_shift.Prelude.{
  ℕ, zero, suc, ◌+◌, ◌/◌, ◌%◌, ◌^◌, Bool, true, false, Option, none, some, [], ◌∷◌, ◌++◌, length,
  take, drop, replicate, ltb, if◌then◌else◌,
}
use chrono_shift.Prelude.Keys.{Bytes}
use chrono_shift.Primitives.{Hash, Kdf, Aead, Dh}

pub record RatchetState : Type 0 where
  pub dh_private : Bytes
  pub dh_public : Bytes
  pub root_key : Bytes
  pub send_chain : Bytes
  pub recv_chain : Bytes
  pub send_idx : ℕ
  pub recv_idx : ℕ
  pub expected_recv_idx : ℕ
  pub prev_hash : Bytes
  pub snapshot_count : ℕ
  pub handshake_done : Bool

-- The `w` low bytes of `n`, lowest first.
abbrev pub to_le_bytes : ℕ → ℕ → Bytes
to_le_bytes zero n = []
to_le_bytes (suc w) n = (n % 256) ∷ to_le_bytes w (n / 256)

-- b"chrono-ratchet-v1"
abbrev pub ratchet_label : Bytes
ratchet_label =
    99 ∷ 104 ∷ 114 ∷ 111 ∷ 110 ∷ 111 ∷ 45 ∷ 114 ∷ 97 ∷ 116 ∷ 99 ∷ 104 ∷ 101 ∷ 116 ∷ 45 ∷ 118 ∷ 49
    ∷ []

-- b"chain-advance"
abbrev pub chain_label : Bytes
chain_label = 99 ∷ 104 ∷ 97 ∷ 105 ∷ 110 ∷ 45 ∷ 97 ∷ 100 ∷ 118 ∷ 97 ∷ 110 ∷ 99 ∷ 101 ∷ []

-- b"dh-ratchet"
abbrev pub dh_label : Bytes
dh_label = 100 ∷ 104 ∷ 45 ∷ 114 ∷ 97 ∷ 116 ∷ 99 ∷ 104 ∷ 101 ∷ 116 ∷ []

module _ (dh : Dh) (kdf : Kdf) where
  unfoldable pub new_alice : Bytes → RatchetState
  new_alice private = record {
    dh_private = private;
    dh_public = dh.public private;
    root_key = replicate 32 0;
    send_chain = replicate 32 0;
    recv_chain = replicate 32 0;
    send_idx = 0;
    recv_idx = 0;
    expected_recv_idx = 1;
    prev_hash = replicate 32 0;
    snapshot_count = 0;
    handshake_done = false;
  }

  unfoldable pub complete_handshake : Bytes → RatchetState → RatchetState
  complete_handshake peer_public s =
      if s.handshake_done
      then s
      else let root = kdf.expand (dh.shared s.dh_private peer_public) ratchet_label in
        record s { root_key = root; send_chain = root; recv_chain = root; handshake_done = true }

  unfoldable pub new_bob : Bytes → Bytes → RatchetState
  new_bob private alice_public = complete_handshake alice_public (new_alice private)

  unfoldable pub dh_ratchet_advance : Bytes → Bytes → RatchetState → RatchetState
  dh_ratchet_advance new_private peer_new_public s = record s {
    root_key =
        kdf.expand (dh.shared s.dh_private peer_new_public ++ dh.shared new_private peer_new_public)
          dh_label;
    dh_private = new_private;
    dh_public = dh.public new_private;
  }

module _ (aead : Aead) (hash : Hash) (kdf : Kdf) where
  -- The state after a frame was sent as number `next`.
  unfoldable pub advance_send : ℕ → Bytes → RatchetState → RatchetState
  advance_send next frame s = record s {
    send_idx = next;
    send_chain = kdf.expand s.send_chain chain_label;
    prev_hash = hash.digest (s.prev_hash ++ frame);
  }

  -- The frame, its number and the hash, and the new state.
  unfoldable pub encrypt_as :
      ℕ → Bytes → Bytes → RatchetState → Option ((Bytes × ℕ × Bytes) × RatchetState)
  encrypt_as next nonce plaintext s =
      let msg_key = kdf.expand s.send_chain (to_le_bytes 8 next) in
      elim (aead.encrypt msg_key nonce plaintext) [
        | none ↦ none
        | some ciphertext ↦
            let after = advance_send next (nonce ++ ciphertext) s in
            some ((nonce ++ ciphertext, next, after.prev_hash), after)
      ]

  unfoldable pub encrypt :
      Bytes → Bytes → RatchetState → Option ((Bytes × ℕ × Bytes) × RatchetState)
  encrypt nonce plaintext s = encrypt_as ((s.send_idx + 1) % 2 ^ 64) nonce plaintext s

  -- The state after a frame was opened under the number `msg_idx`.
  unfoldable pub advance_recv : ℕ → Bytes → RatchetState → RatchetState
  advance_recv msg_idx encrypted s = record s {
    expected_recv_idx = (msg_idx + 1) % 2 ^ 64;
    recv_chain = kdf.expand s.recv_chain chain_label;
    prev_hash = hash.digest (s.prev_hash ++ encrypted);
    recv_idx = msg_idx;
  }

  -- The plaintext and the hash, if the frame is accepted, and the new state.
  unfoldable pub decrypt : Bytes → ℕ → RatchetState → Option (Bytes × Bytes) × RatchetState
  decrypt encrypted msg_idx s =
      if ltb (length encrypted) 28
      then (none, s)
      else if ltb msg_idx s.expected_recv_idx
      then (none, s)
      else elim (aead.decrypt (kdf.expand s.recv_chain (to_le_bytes 8 msg_idx)) (take 12 encrypted)
          (drop 12 encrypted)) [
            | none ↦ (none, s)
            | some plaintext ↦
                let after = advance_recv msg_idx encrypted s in
                (some (plaintext, after.prev_hash), after)
          ]
