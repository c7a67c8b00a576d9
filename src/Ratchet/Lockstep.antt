-- ===== src/Ratchet/Lockstep.antt =====
-- Conversations of two peers over the ratchet: every frame is delivered, in the order of sending.
use mathlib.Core.Option.{Option}
use chrono_shift.Prelude.{
  ◌+◌, ◌^◌, ◌≤◌, ◌<◌, ◌≡◌, refl, sym, ap, Bool, none, some, List, [], ◌∷◌, length, arith,
  if◌then◌else◌, All, map, Bool-cases, inl, inr,
}
use chrono_shift.Prelude.Keys.{Bytes}
use chrono_shift.Primitives.{Encrypts, Hash, Kdf, Aead, Dh}
use chrono_shift.Ratchet.{
  RatchetState, advance_send, advance_recv, new_alice, new_bob, complete_handshake, ratchet_label,
}
use chrono_shift.Ratchet.Exchange.{
  Linked, Outcome, exchange, after_a, after_b, exchange-delivers, exchange-Linked,
}

-- One message: who sends it, and with which nonce.
pub record Turn : Type 0 where
  pub first_speaks : Bool
  pub nonce : Bytes
  pub plaintext : Bytes

-- AES-256-GCM takes at most 2^36 bytes.
abbrev pub IsSendable : Turn → Type 0
IsSendable t = (length t.nonce ≡ 12) × (length t.plaintext ≤ 2 ^ 36)

abbrev swap : Option Outcome → Option Outcome
swap none = none
swap (some (got, b, a)) = some (got, a, b)

abbrev plain_of : Option (Bytes × Bytes) → Option Bytes
plain_of none = none
plain_of (some (plain, h)) = some plain

abbrev heard :
    Option (Bytes × Bytes)
    → Option (List (Option Bytes) × RatchetState × RatchetState)
    → Option (List (Option Bytes) × RatchetState × RatchetState)
heard got none = none
heard got (some (outs, a, b)) = some (plain_of got ∷ outs, a, b)

module _ (aead : Aead) (hash : Hash) (kdf : Kdf) where
  unfoldable pub take_turn : Turn → RatchetState → RatchetState → Option Outcome
  take_turn t a b =
      if t.first_speaks
      then exchange aead hash kdf t.nonce t.plaintext a b
      else swap (exchange aead hash kdf t.nonce t.plaintext b a)

  -- What was received in each turn, and the last states.
  unfoldable pub converse :
      List Turn
      → RatchetState
      → RatchetState
      → Option (List (Option Bytes) × RatchetState × RatchetState)
  converse [] a b = some ([], a, b)
  converse (t ∷ ts) a b = elim (take_turn t a b) [
    | none ↦ none
    | some (got, a', b') ↦ heard got (converse ts a' b')
  ]

  take_turn-delivers :
      (t : Turn) (a b : RatchetState)
      → Encrypts aead
      → IsSendable t
      → a.send_idx + 2 < 2 ^ 64
      → b.send_idx + 2 < 2 ^ 64
      → Linked a b
      → (h : Bytes) × (a' b' : RatchetState) × (take_turn t a b
          ≡ some (some (t.plaintext, h), a', b'))
        × Linked a' b'
        × (a'.send_idx ≤ a.send_idx + 1)
        × (b'.send_idx ≤ b.send_idx + 1)
  unfolding take_turn advance_send advance_recv
  take_turn-delivers t a b encrypts (n, fits) small_a small_b (same, ab, ba) =
      elim (Bool-cases t.first_speaks) [
        | inl first ↦
            let linked : Linked a b = (same, ab, ba) in
            let (c, h, done) =
              exchange-delivers aead hash kdf t.nonce t.plaintext a b encrypts n fits small_a
                linked in
            (
              h,
              after_a aead hash kdf t.nonce c a,
              after_b aead hash kdf t.nonce c a b,
              rw first done,
              exchange-Linked aead hash kdf t.nonce c a b small_a linked,
              omega arith,
              omega arith,
            )
        | inr second ↦
            let linked : Linked b a = (sym same, ba, ab) in
            let (c, h, done) =
              exchange-delivers aead hash kdf t.nonce t.plaintext b a encrypts n fits small_b
                linked in
            let (same', ba', ab') = exchange-Linked aead hash kdf t.nonce c b a small_b linked in
            (
              h,
              after_b aead hash kdf t.nonce c b a,
              after_a aead hash kdf t.nonce c b,
              rw second (ap swap done),
              (sym same', ab', ba'),
              omega arith,
              omega arith,
            )
      ]

  -- What linked peers say to each other arrives, turn by turn, and leaves them linked.
  pub converse-delivers :
      (ts : List Turn) (a b : RatchetState)
      → Encrypts aead
      → All IsSendable ts
      → a.send_idx + length ts + 1 < 2 ^ 64
      → b.send_idx + length ts + 1 < 2 ^ 64
      → Linked a b
      → (a' b' : RatchetState) × (converse ts a b ≡ some (map (λ t. some t.plaintext) ts, a', b'))
        × Linked a' b'
  unfolding converse
  converse-delivers [] a b encrypts sendable small_a small_b linked = (a, b, refl, linked)
  converse-delivers (t ∷ ts) a b encrypts sendable small_a small_b linked =
      let (h, a', b', first, linked', grown_a, grown_b) =
        take_turn-delivers t a b encrypts sendable.0 (omega arith) (omega arith) linked in
      let (a'', b'', later, end) =
        converse-delivers ts a' b' encrypts sendable.1 (omega arith) (omega arith) linked' in
      (a'', b'', rw (converse, first, later) refl, end)

module _ (dh : Dh) (kdf : Kdf) where
  handshake-Linked :
      (sk_a sk_b : Bytes)
      → Linked
          (complete_handshake dh kdf (dh.public sk_b) (new_alice dh kdf sk_a))
          (new_bob dh kdf sk_b (dh.public sk_a))
  unfolding complete_handshake new_alice new_bob
  handshake-Linked sk_a sk_b =
      let one = ap (λ s. kdf.expand s ratchet_label) (dh.shared_comm sk_b sk_a) in
      (refl, (one, refl), (sym one, refl))

-- After a handshake of two fresh states, every message of a conversation arrives as it was sent,
-- whoever speaks in each turn, and the two states stay linked: when each frame is delivered before
-- the next is sent, the encryption does not fail, and there are less than 2^64 - 1 turns.
pub converse-handshake :
    (aead : Aead) (hash : Hash) (dh : Dh) (kdf : Kdf) (sk_a sk_b : Bytes) (ts : List Turn)
    → Encrypts aead
    → All IsSendable ts
    → length ts + 1 < 2 ^ 64
    → (a' b' : RatchetState) × (converse aead hash kdf ts
          (complete_handshake dh kdf (dh.public sk_b) (new_alice dh kdf sk_a))
          (new_bob dh kdf sk_b (dh.public sk_a))
        ≡ some (map (λ t. some t.plaintext) ts, a', b'))
      × Linked a' b'
unfolding new_alice complete_handshake new_bob
converse-handshake aead hash dh kdf sk_a sk_b ts encrypts sendable small =
    converse-delivers aead hash kdf ts _ _ encrypts sendable (omega arith) (omega arith)
      (handshake-Linked dh kdf sk_a sk_b)
