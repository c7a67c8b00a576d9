-- ===== src/Net/Frames.antt =====
-- net/tcp.rs: length-prefixed frames on a stream, and frames of one padded size. A stream is the
-- list of the bytes that are still to be read; random bytes are an argument.
use chrono_shift.Prelude.{
  ℕ, ◌-◌, ◌≤◌, ◌≡◌, refl, ap, ◌∙◌, false, Option, none, some, ◌++◌, Result, ok, err, length, take,
  drop, arith, min, ltb, if◌then◌else◌, take-append, drop-append, length-append, length-take,
  and_then, Bool-cases, inl, inr, subst,
}
use chrono_shift.Prelude.Keys.{Bytes}
use chrono_shift.Prelude.Words.{to_be_bytes, from_be_bytes, from_be_bytes-to_be_bytes}

pub data FrameError : Type 0 where
  unexpected_eof frame_too_large decrypt_failed short_frame replayed_frame : FrameError

-- `read_exact`: the bytes and the rest of the stream.
abbrev pub read_exact : ℕ → Bytes → Result (Bytes × Bytes) FrameError
read_exact n stream =
    if ltb (length stream) n
    then err FrameError.unexpected_eof
    else ok (take n stream, drop n stream)

-- The bytes that `send_frame` writes; `len() as u32` keeps the low 32 bits.
abbrev pub send_frame : Bytes → Bytes
send_frame payload = to_be_bytes 4 (length payload) ++ payload

abbrev pub max_frame : ℕ
max_frame = 65536

abbrev pub recv_body : Bytes × Bytes → Result (Bytes × Bytes) FrameError
recv_body (len_buf, rest) =
    if ltb max_frame (from_be_bytes len_buf)
    then err FrameError.frame_too_large
    else read_exact (from_be_bytes len_buf) rest

unfoldable pub recv_frame : Bytes → Result (Bytes × Bytes) FrameError
recv_frame stream = and_then (read_exact 4 stream) recv_body

pub read_exact-append :
    (xs rest : Bytes) (n : ℕ) → length xs ≡ n → read_exact n (xs ++ rest) ≡ ok (xs, rest)
read_exact-append xs rest n e =
    let long : ltb (length (xs ++ rest)) n ≡ false = ground (arith, length-append xs rest) in
    rw long (rw (← e) (rw (take-append xs rest, drop-append xs rest) refl))

-- A frame of at most 65536 bytes that was sent is received, and the stream goes on behind it.
pub recv_frame-send_frame :
    (payload rest : Bytes)
    → length payload ≤ 65536
    → recv_frame (send_frame payload ++ rest) ≡ ok (payload, rest)
unfolding recv_frame
recv_frame-send_frame payload rest small =
    let len_buf = to_be_bytes 4 (length payload) in
    let known : from_be_bytes len_buf ≡ length payload =
      from_be_bytes-to_be_bytes (length payload) (omega arith) in
    let fits : ltb max_frame (length payload) ≡ false = ground arith in
    ap (λ r. and_then r recv_body) (read_exact-append len_buf (payload ++ rest) 4 refl)
    ∙ rw (known, fits) (read_exact-append payload rest (length payload) refl)

abbrev pub padded_size : ℕ
padded_size = 1024

-- `random` stands for what `fill_bytes` writes behind the payload.
unfoldable pub pad_frame : Bytes → Bytes → Option Bytes
pad_frame random payload =
    if ltb padded_size (length payload)
    then none
    else some (payload ++ take (padded_size - length payload) random)

abbrev pub unpad_frame : Bytes → ℕ → Bytes
unpad_frame padded original_len = take (min original_len (length padded)) padded

padded_layout :
    (random payload : Bytes)
    → length random ≡ 1024
    → length payload ≤ 1024
    → (length (payload ++ take (1024 - length payload) random) ≡ 1024)
      × (unpad_frame (payload ++ take (1024 - length payload) random) (length payload) ≡ payload)
padded_layout random payload enough fits =
    let size : length (payload ++ take (1024 - length payload) random) ≡ 1024 = omega (
      arith,
      length-append payload (take (1024 - length payload) random),
      length-take (1024 - length payload) random,
    ) in
    (
      size,
      ap (λ n. take n (payload ++ take (1024 - length payload) random))
            {x = min (length payload) (length (payload ++ take (1024 - length payload) random))}
            {y = length payload} (omega arith)
          ∙ take-append payload (take (1024 - length payload) random),
    )

-- All padded frames have one size, and unpadding at the payload's length gives it back.
pub unpad_frame-pad_frame :
    (random payload : Bytes) {padded : Bytes}
    → length random ≡ 1024
    → pad_frame random payload ≡ some padded
    → (length padded ≡ 1024) × (unpad_frame padded (length payload) ≡ payload)
unfolding pad_frame
unpad_frame-pad_frame random payload {padded = padded} enough e =
    elim (Bool-cases (ltb 1024 (length payload))) [
      | inl long ↦ let failed : none ≡ some padded = rw (pad_frame, long) at e in cc
      | inr fits ↦
          let made : some (payload ++ take (1024 - length payload) random) ≡ some padded =
            rw (pad_frame, fits) at e in
          let same : payload ++ take (1024 - length payload) random ≡ padded = cc made in
          subst (λ p. (length p ≡ 1024) × (unpad_frame p (length payload) ≡ payload)) same
            (padded_layout random payload enough (ground arith))
    ]
