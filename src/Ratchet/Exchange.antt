-- ===== src/Ratchet/Exchange.antt =====
-- One message over the ratchet, from one state to another.
use mathlib.Core.Option.{Option}
use chrono_shift.Prelude.{
  ℕ, ◌+◌, ◌%◌, ◌^◌, ◌≤◌, ◌<◌, ◌≡◌, refl, ap, ◌∙◌, false, none, some, ◌++◌, length, take, drop,
  arith, ltb, take-append, drop-append, length-append,
}
use native.Mathlib.Nat.{mod-eq_of_lt}
use chrono_shift.Prelude.Keys.{Bytes}
use chrono_shift.Primitives.{Encrypts, Hash, Kdf, Aead}
use chrono_shift.Ratchet.{
  RatchetState, to_le_bytes, encrypt_as, encrypt, decrypt, advance_send, advance_recv, chain_label,
}

-- The receiver's chain and window stand where the sender is.
abbrev pub InStep : RatchetState → RatchetState → Type 0
InStep a b = (b.recv_chain ≡ a.send_chain) × (b.expected_recv_idx ≡ a.send_idx + 1)

abbrev pub Linked : RatchetState → RatchetState → Type 0
Linked a b = (b.prev_hash ≡ a.prev_hash) × InStep a b × InStep b a

-- What the receiver makes of a frame, and both states after it, the first peer's first.
abbrev pub Outcome : Type 0
Outcome = Option (Bytes × Bytes) × RatchetState × RatchetState

module _ (aead : Aead) (hash : Hash) (kdf : Kdf) where
  -- The sender encrypts, the receiver decrypts: the sender's state stands first.
  unfoldable pub exchange : Bytes → Bytes → RatchetState → RatchetState → Option Outcome
  exchange nonce plaintext a b = elim (encrypt aead hash kdf nonce plaintext a) [
    | none ↦ none
    | some ((frame, idx, h), a') ↦
        let (got, b') = decrypt aead hash kdf frame idx b in some (got, a', b')
  ]

  encrypt-made :
      (nonce plain c : Bytes) (a : RatchetState)
      → a.send_idx + 1 < 2 ^ 64
      → aead.encrypt (kdf.expand a.send_chain (to_le_bytes 8 (a.send_idx + 1))) nonce plain ≡ some c
      → encrypt aead hash kdf nonce plain a
        ≡ some (
          (
            nonce ++ c,
            a.send_idx + 1,
            (advance_send aead hash kdf (a.send_idx + 1) (nonce ++ c) a).prev_hash,
          ),
          advance_send aead hash kdf (a.send_idx + 1) (nonce ++ c) a,
        )
  unfolding encrypt encrypt_as
  encrypt-made nonce plain c a small made =
      let next : (a.send_idx + 1) % 2 ^ 64 ≡ a.send_idx + 1 =
        mod-eq_of_lt {n = a.send_idx + 1} {m = 2 ^ 64} small in
      ap (λ (m : ℕ). encrypt_as aead hash kdf m nonce plain a) next ∙ rw (encrypt_as, made) refl

  decrypt-opened :
      (frame plain : Bytes) (idx : ℕ) (b : RatchetState)
      → 28 ≤ length frame
      → b.expected_recv_idx ≤ idx
      → aead.decrypt (kdf.expand b.recv_chain (to_le_bytes 8 idx)) (take 12 frame) (drop 12 frame)
        ≡ some plain
      → decrypt aead hash kdf frame idx b ≡ (
        some (plain, (advance_recv aead hash kdf idx frame b).prev_hash),
        advance_recv aead hash kdf idx frame b,
      )
  unfolding decrypt
  decrypt-opened frame plain idx b enough newer opened =
      let long : ltb (length frame) 28 ≡ false = ground arith in
      let fresh : ltb idx b.expected_recv_idx ≡ false = ground arith in
      rw (decrypt, long, fresh, opened) refl

  -- The states after a frame with ciphertext `c`.
  abbrev pub after_a : Bytes → Bytes → RatchetState → RatchetState
  after_a nonce c a = advance_send aead hash kdf (a.send_idx + 1) (nonce ++ c) a

  abbrev pub after_b : Bytes → Bytes → RatchetState → RatchetState → RatchetState
  after_b nonce c a b = advance_recv aead hash kdf (a.send_idx + 1) (nonce ++ c) b

  pub exchange-delivers :
      (nonce plain : Bytes) (a b : RatchetState)
      → Encrypts aead
      → length nonce ≡ 12
      → length plain ≤ 2 ^ 36
      → a.send_idx + 2 < 2 ^ 64
      → Linked a b
      → (c h : Bytes) × (exchange nonce plain a b
          ≡ some (some (plain, h), after_a nonce c a, after_b nonce c a b))
  unfolding exchange
  exchange-delivers nonce plain a b encrypts n fits small (same, (chain, window), back) =
      let key = kdf.expand a.send_chain (to_le_bytes 8 (a.send_idx + 1)) in
      let (c, made) = encrypts key nonce plain n fits in
      let frame = nonce ++ c in
      let front : take 12 frame ≡ nonce = rw (← n) (take-append nonce c) in
      let behind : drop 12 frame ≡ c = rw (← n) (drop-append nonce c) in
      let opened : aead.decrypt (kdf.expand b.recv_chain (to_le_bytes 8 (a.send_idx + 1)))
            (take 12 frame) (drop 12 frame)
          ≡ some plain =
        rw (chain, front, behind) (aead.decrypt-encrypt key nonce plain made) in
      let sends = encrypt-made nonce plain c a (omega arith) made in
      let opens =
        decrypt-opened frame plain (a.send_idx + 1) b
          (omega (arith, length-append nonce c, aead.length-encrypt key nonce plain made))
          (omega arith) opened in
      (c, (after_b nonce c a b).prev_hash, rw (exchange, sends, opens) refl)

  pub exchange-Linked :
      (nonce c : Bytes) (a b : RatchetState)
      → a.send_idx + 2 < 2 ^ 64
      → Linked a b
      → Linked (after_a nonce c a) (after_b nonce c a b)
  unfolding advance_send advance_recv
  exchange-Linked nonce c a b small (same, (chain, window), back) = (
    ap (λ p. hash.digest (p ++ (nonce ++ c))) same,
    (
      ap (λ k. kdf.expand k chain_label) chain,
      mod-eq_of_lt {n = a.send_idx + 1 + 1} {m = 2 ^ 64} (omega arith),
    ),
    back,
  )
