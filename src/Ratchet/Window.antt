-- ===== src/Ratchet/Window.antt =====
-- The window against replays of `RatchetState::decrypt`.
use chrono_shift.Prelude.{
  ℕ, ◌+◌, ◌%◌, ◌^◌, ◌≤◌, ◌<◌, ◌≡◌, ◌⊎◌, refl, subst, Option, none, some, List, [], ◌∷◌, length,
  take, drop, arith, ltb, Bool-cases, Option-cases, inl, inr, All,
}
use native.Mathlib.Nat.{mod-eq_of_lt}
use chrono_shift.Prelude.Keys.{Bytes}
use chrono_shift.Primitives.{Hash, Kdf, Aead}
use chrono_shift.Ratchet.{RatchetState, to_le_bytes, decrypt, advance_recv}

-- Each number is at least the bound, and above the one before.
abbrev pub IncreasingFrom : ℕ → List ℕ → Type 0
IncreasingFrom bound [] = Unit {0}
IncreasingFrom bound (x ∷ xs) = (bound ≤ x) × IncreasingFrom (x + 1) xs

-- A frame and the number that it comes with, which is not the last one of a u64.
abbrev pub Arriving : Type 0
Arriving = Bytes × ℕ

abbrev pub IsBelowLast : Arriving → Type 0
IsBelowLast (encrypted, msg_idx) = msg_idx + 1 < 2 ^ 64

abbrev note : ℕ → Option (Bytes × Bytes) → List ℕ → List ℕ
note msg_idx none rest = rest
note msg_idx (some opened) rest = msg_idx ∷ rest

module _ (aead : Aead) (hash : Hash) (kdf : Kdf) where
  -- Frames as they come in, and the numbers of those that are accepted.
  unfoldable pub accepted_all : List Arriving → RatchetState → List ℕ
  accepted_all [] s = []
  accepted_all ((encrypted, msg_idx) ∷ fs) s =
      let (opened, after) = decrypt aead hash kdf encrypted msg_idx s in
      let rest = accepted_all fs after in note msg_idx opened rest

  -- A frame is refused and nothing changes, or its number is not behind the window, which moves.
  pub decrypt-cases :
      (encrypted : Bytes) (msg_idx : ℕ) (s : RatchetState)
      → (decrypt aead hash kdf encrypted msg_idx s ≡ (none, s))
        ⊎ ((plaintext : Bytes) × (s.expected_recv_idx ≤ msg_idx)
            × (decrypt aead hash kdf encrypted msg_idx s ≡ (
              some (plaintext, (advance_recv aead hash kdf msg_idx encrypted s).prev_hash),
              advance_recv aead hash kdf msg_idx encrypted s,
            )))
  unfolding decrypt
  decrypt-cases encrypted msg_idx s = elim (Bool-cases (ltb (length encrypted) 28)) [
    | inl short ↦ inl (rw short refl)
    | inr long ↦ elim (Bool-cases (ltb msg_idx s.expected_recv_idx)) [
      | inl old ↦ inl (rw (long, old) refl)
      | inr fresh ↦
          elim (Option-cases (
            aead.decrypt (kdf.expand s.recv_chain (to_le_bytes 8 msg_idx)) (take 12 encrypted)
              (drop 12 encrypted))) [
                | inl failed ↦ inl (rw (long, fresh, failed) refl)
                | inr (plaintext, opened) ↦
                    inr (plaintext, ground arith, rw (long, fresh, opened) refl)
              ]
    ]
  ]

  -- Of any sequence of frames, forged ones included, the numbers of the accepted ones increase
  -- strictly, from the start of the window, so that none is accepted twice: as long as none comes
  -- with the last number of a u64, after which the window starts at 0 again.
  pub accepted_all-IncreasingFrom :
      (fs : List Arriving) (s : RatchetState)
      → All IsBelowLast fs
      → IncreasingFrom s.expected_recv_idx (accepted_all fs s)
  unfolding accepted_all advance_recv
  accepted_all-IncreasingFrom [] s below = tt
  accepted_all-IncreasingFrom ((encrypted, msg_idx) ∷ fs) s below =
      elim (decrypt-cases encrypted msg_idx s) [
        | inl refused ↦ rw refused (accepted_all-IncreasingFrom fs s below.1)
        | inr (plaintext, fresh, accepted) ↦
            let next : (msg_idx + 1) % 2 ^ 64 ≡ msg_idx + 1 =
              mod-eq_of_lt {n = msg_idx + 1} {m = 2 ^ 64} below.0 in
            let after = advance_recv aead hash kdf msg_idx encrypted s in
            rw accepted (
              fresh,
              subst (λ n. IncreasingFrom n (accepted_all fs after)) next
                  (accepted_all-IncreasingFrom fs after below.1),
            )
      ]

  -- The state after all of the frames.
  unfoldable pub decrypt_all : List Arriving → RatchetState → RatchetState
  decrypt_all [] s = s
  decrypt_all ((encrypted, msg_idx) ∷ fs) s =
      decrypt_all fs (decrypt aead hash kdf encrypted msg_idx s).1

  -- Frames of which none is accepted, whatever their numbers, leave the state as it was: the
  -- window, the chain and the hash, so that the next frame of the peer is opened as before.
  pub decrypt_all-refused :
      (fs : List Arriving) (s : RatchetState) → accepted_all fs s ≡ [] → decrypt_all fs s ≡ s
  unfolding decrypt_all accepted_all
  decrypt_all-refused [] s none_accepted = refl
  decrypt_all-refused ((encrypted, msg_idx) ∷ fs) s none_accepted =
      elim (decrypt-cases encrypted msg_idx s) [
        | inl refused ↦
            rw refused (decrypt_all-refused fs s (rw (accepted_all, refused) at none_accepted))
        | inr (plaintext, fresh, accepted) ↦
            let some_accepted : msg_idx
                  ∷ accepted_all fs (advance_recv aead hash kdf msg_idx encrypted s)
                ≡ [] =
              rw (accepted_all, accepted) at none_accepted in
            cc
      ]
