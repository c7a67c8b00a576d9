-- ===== src/Net/Session.antt =====
-- The encrypted frames of net/session.rs. A stream is the list of the bytes still to be read; the
-- sequence numbers are u64, whose `+ 1` wraps in a release build; the random nonce is an argument.
pub mod Streams
pub mod Handshake
pub mod PeerCheck
pub mod Agreement
pub mod Authenticity
use chrono_shift.Prelude.{
  ℕ, suc, ◌+◌, ◌%◌, ◌^◌, ◌≤◌, ◌<◌, ◌≡◌, refl, sym, ap, ◌∙◌, Bool, true, false, Option, none, some,
  List, [], ◌∷◌, ◌++◌, Result, ok, err, and_then, length, take, drop, arith, ltb, leb,
  if◌then◌else◌, take-append, drop-append, length-append, Bool-cases, Option-cases, inl, inr, subst,
  All,
}
use mathlib.Core.List.{append_assoc}
use chrono_shift.Prelude.Keys.{Bytes}
use chrono_shift.Prelude.Words.{to_be_bytes, from_be_bytes, from_be_bytes-u64}
use chrono_shift.Primitives.{Aead}
use chrono_shift.Crypto.{encrypt_e2e, decrypt_e2e, length-encrypt_e2e, decrypt_e2e-encrypt_e2e}
use chrono_shift.Net.Frames.{FrameError, send_frame, recv_frame, recv_frame-send_frame}

module _ (aead : Aead) where
  -- The bytes of the frame with this number; `none` if the encryption fails.
  unfoldable pub seal : Bytes → Bytes → Bytes → ℕ → Option Bytes
  seal nonce payload key seq = elim (encrypt_e2e aead nonce (to_be_bytes 8 seq ++ payload) key) [
    | none ↦ none
    | some enc ↦ some (send_frame enc)
  ]

  -- The new sequence number, and the bytes written.
  unfoldable pub send_secure_frame : Bytes → Bytes → Bytes → ℕ → ℕ × Option Bytes
  send_secure_frame nonce payload key seq =
      let next = (seq + 1) % 2 ^ 64 in (next, seal nonce payload key next)

  -- The payload, the rest of the stream and the new `last_seq`.
  pub record Received : Type 0 where
    pub payload : Bytes
    pub rest : Bytes
    pub last_seq : ℕ

  -- What is done with an opened frame.
  unfoldable pub accept : ℕ → Bytes → Bytes → Result Received FrameError
  accept last_seq rest plain =
      if ltb (length plain) 8
      then err FrameError.short_frame
      else if leb (from_be_bytes (take 8 plain)) last_seq
      then err FrameError.replayed_frame
      else ok
          (record { payload = drop 8 plain; rest = rest; last_seq = from_be_bytes (take 8 plain) })

  unfoldable pub open_frame : Bytes → ℕ → Bytes × Bytes → Result Received FrameError
  open_frame key last_seq (enc, rest) = elim (decrypt_e2e aead enc key) [
    | none ↦ err FrameError.decrypt_failed
    | some plain ↦ accept last_seq rest plain
  ]

  unfoldable pub recv_secure_frame : Bytes → ℕ → Bytes → Result Received FrameError
  unfolding open_frame
  recv_secure_frame key last_seq stream = and_then (recv_frame stream) (open_frame key last_seq)

  accept_sound :
      (last_seq : ℕ) (rest plain : Bytes) (r : Received)
      → accept last_seq rest plain ≡ ok r
      → (last_seq < r.last_seq)
        × ((last' : ℕ)
            → r.last_seq ≤ last'
            → (rest' : Bytes) → accept last' rest' plain ≡ err FrameError.replayed_frame)
  unfolding accept
  accept_sound last_seq rest plain r e = (ground arith, λ last' newer rest'. ground arith)

  pub open_frame_sound :
      (key : Bytes) (last_seq : ℕ) (enc rest : Bytes) (r : Received)
      → open_frame key last_seq (enc, rest) ≡ ok r
      → (last_seq < r.last_seq)
        × ((last' : ℕ)
            → r.last_seq ≤ last'
            → (rest' : Bytes) → open_frame key last' (enc, rest') ≡ err FrameError.replayed_frame)
  unfolding open_frame
  open_frame_sound key last_seq enc rest r e = elim (Option-cases (decrypt_e2e aead enc key)) [
    | inl failed ↦ ground arith
    | inr (plain, opened) ↦
        let (newer, later) = accept_sound last_seq rest plain r (rw (open_frame, opened) at e) in
        (newer, λ last' past rest'. rw (open_frame, opened) (later last' past rest'))
  ]

  accept-sealed :
      (payload rest : Bytes) (next last_seq : ℕ)
      → next < 2 ^ 64
      → last_seq < next
      → accept last_seq rest (to_be_bytes 8 next ++ payload)
        ≡ ok (record { payload = payload; rest = rest; last_seq = next })
  unfolding accept
  accept-sealed payload rest next last_seq small newer =
      let long : ltb (length (to_be_bytes 8 next ++ payload)) 8 ≡ false =
        ground (arith, length-append (to_be_bytes 8 next) payload) in
      let fresh : leb next last_seq ≡ false = ground arith in
      rw (accept, long, from_be_bytes-u64 next small, fresh) refl

  -- A frame that was sent is received, by whoever has seen no later one.
  pub recv-seal :
      (nonce payload key rest : Bytes) (next last_seq : ℕ) {wire : Bytes}
      → length nonce ≡ 12
      → length payload ≤ 65500
      → next < 2 ^ 64
      → last_seq < next
      → seal nonce payload key next ≡ some wire
      → recv_secure_frame key last_seq (wire ++ rest)
        ≡ ok (record { payload = payload; rest = rest; last_seq = next })
  unfolding recv_secure_frame seal
  recv-seal nonce payload key rest next last_seq {wire = wire} n fits small newer e =
      let plain = to_be_bytes 8 next ++ payload in
      elim (Option-cases (encrypt_e2e aead nonce plain key)) [
        | inl failed ↦ let nothing : none ≡ some wire = rw (seal, failed) at e in cc
        | inr (enc, made) ↦
            let written : some (send_frame enc) ≡ some wire = rw (seal, made) at e in
            let size = length-encrypt_e2e aead nonce plain key n made in
            let opened = decrypt_e2e-encrypt_e2e aead nonce plain key n made in
            let is_wire : send_frame enc ≡ wire = cc written in
            subst
              (λ w.
                and_then (recv_frame (w ++ rest)) (open_frame key last_seq)
                ≡ ok (record { payload = payload; rest = rest; last_seq = next }))
              is_wire
              (ap (λ r. and_then r (open_frame key last_seq))
                  (recv_frame-send_frame enc rest
                    (omega (arith, length-append (to_be_bytes 8 next) payload)))
                ∙ rw (open_frame, opened) (accept-sealed payload rest next last_seq small newer))
      ]
