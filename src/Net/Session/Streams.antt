-- ===== src/Net/Session/Streams.antt =====
-- Whole conversations over the frames of net/session.rs.
use mathlib.Core.List.{append_assoc}
use chrono_shift.Prelude.{
  ℕ, zero, suc, ◌+◌, ◌%◌, ◌^◌, ◌≤◌, ◌<◌, ◌≡◌, refl, sym, ap, ◌∙◌, Option, none, some, List, [], ◌∷◌,
  ◌++◌, Result, ok, err, and_then, length, arith, subst, All,
}
use native.Mathlib.Nat.{mod-eq_of_lt}
use chrono_shift.Prelude.Keys.{Bytes}
use chrono_shift.Primitives.{Aead}
use chrono_shift.Net.Frames.{FrameError, recv_frame, send_frame, recv_frame-send_frame}
use chrono_shift.Net.Session.{
  Received, seal, send_secure_frame, recv_secure_frame, open_frame, recv-seal, open_frame_sound,
}

-- A nonce and a payload.
abbrev pub Outgoing : Type 0
Outgoing = Bytes × Bytes

abbrev pub payloads : List Outgoing → List Bytes
payloads [] = []
payloads ((nonce, payload) ∷ ms) = payload ∷ payloads ms

abbrev pub IsSendable : Outgoing → Type 0
IsSendable (nonce, payload) = (length nonce ≡ 12) × (length payload ≤ 65500)

-- The payloads, the rest of the stream and the last number.
abbrev pub done : List Bytes → Bytes → ℕ → Result (List Bytes × (Bytes × ℕ)) FrameError
done ps rest last_seq = ok (ps, (rest, last_seq))

-- What both writes have written.
abbrev join : Option Bytes → Option Bytes → Option Bytes
join none more = none
join (some w) none = none
join (some w) (some ws) = some (w ++ ws)

join-some :
    (wire more : Option Bytes) {stream : Bytes}
    → join wire more ≡ some stream
    → (w ws : Bytes) × (wire ≡ some w) × (more ≡ some ws) × (w ++ ws ≡ stream)
join-some none more e = cc
join-some (some w) none e = cc
join-some (some w) (some ws) e = (w, ws, refl, refl, cc e)

module _ (aead : Aead) where
  -- The bytes of all frames, in order.
  unfoldable pub send_all : List Outgoing → Bytes → ℕ → Option Bytes
  send_all [] key seq = some []
  send_all ((nonce, payload) ∷ ms) key seq =
      let (next, wire) = send_secure_frame aead nonce payload key seq in
      let more = send_all ms key next in join wire more

  -- So many frames, one after the other: the payloads, and what is left.
  unfoldable pub recv_all : ℕ → Bytes → ℕ → Bytes → Result (List Bytes × (Bytes × ℕ)) FrameError
  recv_all zero key last_seq stream = ok ([], (stream, last_seq))
  recv_all (suc n) key last_seq stream =
      and_then (recv_secure_frame aead key last_seq stream)
        λ r. and_then (recv_all n key r.last_seq r.rest) λ (ps, left). ok (r.payload ∷ ps, left)

  send_all-cons :
      (nonce payload : Bytes) (ms : List Outgoing) (key : Bytes) (seq : ℕ) {stream : Bytes}
      → seq + 1 < 2 ^ 64
      → send_all ((nonce, payload) ∷ ms) key seq ≡ some stream
      → (w ws : Bytes) × (seal aead nonce payload key (seq + 1) ≡ some w)
        × (send_all ms key (seq + 1) ≡ some ws)
        × (w ++ ws ≡ stream)
  unfolding send_all send_secure_frame
  send_all-cons nonce payload ms key seq {stream = stream} small e =
      let next : (seq + 1) % 2 ^ 64 ≡ seq + 1 = mod-eq_of_lt {n = seq + 1} {m = 2 ^ 64} small in
      join-some (seal aead nonce payload key (seq + 1)) (send_all ms key (seq + 1)) (
        subst (λ (n : ℕ). join (seal aead nonce payload key n) (send_all ms key n) ≡ some stream)
          next e)

  recv_all-received :
      (n : ℕ) (key stream rest : Bytes) (last_seq : ℕ) (payload : Bytes) (next : ℕ)
      → recv_secure_frame aead key last_seq stream
        ≡ ok (record { payload = payload; rest = rest; last_seq = next })
      → recv_all (suc n) key last_seq stream
        ≡ and_then (recv_all n key next rest) (λ (ps, left). ok (payload ∷ ps, left))
  unfolding recv_all
  recv_all-received n key stream rest last_seq payload next e =
      ap
        (λ r.
          and_then r λ r.
            and_then (recv_all n key r.last_seq r.rest) λ (ps, left). ok (r.payload ∷ ps, left))
        e

  -- The frames of a conversation arrive as they were sent, in order and completely, with nothing
  -- read beyond them, when the receiver starts at the sender's number.
  pub recv_all-send_all :
      (ms : List Outgoing) (key rest : Bytes) (seq : ℕ) {stream : Bytes}
      → All IsSendable ms
      → seq + length ms < 2 ^ 64
      → send_all ms key seq ≡ some stream
      → recv_all (length ms) key seq (stream ++ rest) ≡ done (payloads ms) rest (seq + length ms)
  unfolding recv_all send_all
  recv_all-send_all [] key rest seq {stream = stream} sendable small e =
      let empty : [] ≡ stream = cc e in
      subst (λ s. done [] (s ++ rest) seq ≡ done [] rest (seq + 0)) empty
        (ap (λ (n : ℕ). done [] rest n) {x = seq} {y = seq + 0} (omega arith))
  recv_all-send_all ((nonce, payload) ∷ ms) key rest seq {stream = stream} sendable small e =
      let (w, ws, sealed, sent, all) = send_all-cons nonce payload ms key seq (omega arith) e in
      let first =
        recv-seal aead nonce payload key (ws ++ rest) (seq + 1) seq sendable.0.0 sendable.0.1
          (omega arith) (omega arith) sealed in
      let later = recv_all-send_all ms key rest (seq + 1) sendable.1 (omega arith) sent in
      subst
        (λ s.
          recv_all (suc (length ms)) key seq (s ++ rest)
          ≡ done (payload ∷ payloads ms) rest (seq + suc (length ms)))
        all
        (ap (recv_all (suc (length ms)) key seq) (append_assoc w ws rest)
          ∙ recv_all-received (length ms) key (w ++ (ws ++ rest)) (ws ++ rest) seq payload (seq + 1)
              first
          ∙ ap (λ r. and_then r (λ (ps, left). ok (payload ∷ ps, left))) later
          ∙ ap (λ (n : ℕ). done (payload ∷ payloads ms) rest n) {x = seq + 1 + length ms}
              {y = seq + suc (length ms)} (omega arith))

  recv_secure_frame-open :
      (key stream : Bytes) (last_seq : ℕ) (enc rest : Bytes)
      → recv_frame stream ≡ ok (enc, rest)
      → recv_secure_frame aead key last_seq stream ≡ open_frame aead key last_seq (enc, rest)
  unfolding recv_secure_frame
  recv_secure_frame-open key stream last_seq enc rest e =
      ap (λ r. and_then r (open_frame aead key last_seq)) e

  -- A frame that was accepted moves the number up, and is refused as a replay ever after: by a
  -- receiver at that number or later, whatever follows it on the stream.
  pub recv_secure_frame-replayed :
      (key enc rest : Bytes) (last_seq : ℕ) (r : Received aead)
      → length enc ≤ 65536
      → recv_secure_frame aead key last_seq (send_frame enc ++ rest) ≡ ok r
      → (last_seq < r.last_seq)
        × ((last' : ℕ) (rest' : Bytes)
            → r.last_seq ≤ last'
            → recv_secure_frame aead key last' (send_frame enc ++ rest')
              ≡ err FrameError.replayed_frame)
  recv_secure_frame-replayed key enc rest last_seq r small e =
      let (newer, later) = open_frame_sound aead key last_seq enc rest r (
        sym (
          recv_secure_frame-open key (send_frame enc ++ rest) last_seq enc rest
            (recv_frame-send_frame enc rest small))
        ∙ e) in
      (
        newer,
        λ last' rest' past.
            recv_secure_frame-open key (send_frame enc ++ rest') last' enc rest'
              (recv_frame-send_frame enc rest' small)
            ∙ later last' past rest',
      )
