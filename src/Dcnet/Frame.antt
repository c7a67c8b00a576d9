-- ===== src/Dcnet/Frame.antt =====
-- `pad_message` and `unpad_message` of dcnet/round_network.rs: length, checksum, message, zeros.
use native.Mathlib.Decide.{dec_lt}
use mathlib.Core.List.{append_assoc}
use chrono_shift.Prelude.{
  ℕ, ◌+◌, ◌-◌, ◌^◌, ◌≤◌, ◌<◌, ◌≡◌, refl, ap, ◌∙◌, sym, true, false, Option, some, none, [], ◌++◌,
  arith, length, take, drop, replicate, ltb, if◌then◌else◌, take-append, drop-append, length-append,
  length-take, length-drop, lt→ltb, length-replicate, replicate_add,
}
use chrono_shift.Prelude.Keys.{Bytes, bytes_beq, bytes_beq_iff}
use chrono_shift.Prelude.Words.{
  to_be_bytes, from_be_bytes, from_be_bytes-to_be_bytes, copy_at, copy_at_layout,
}
use chrono_shift.Primitives.{Hash}

module _ (h : Hash) where
  -- `none` where the payload is too short for the frame.
  unfoldable pub pad_message : Bytes → ℕ → Option Bytes
  pad_message msg payload_len =
      let frame_len = 36 + length msg in
      let padded = replicate payload_len 0 in
      let with_len = copy_at 0 (to_be_bytes 4 (length msg)) padded in
      let with_sum = copy_at 4 (h.digest msg) with_len in
      if ltb payload_len frame_len then none else some (copy_at 36 msg with_sum)

  -- `none` on any corruption.
  unfoldable pub unpad_message : Bytes → Option Bytes
  unpad_message padded =
      let len = from_be_bytes (take 4 padded) in
      let msg = take len (drop 36 padded) in
      if ltb (length padded) 36
      then none
      else if ltb (length padded - 36) len
      then none
      else if bytes_beq (h.digest msg) (take 32 (drop 4 padded))
      then some msg
      else none

  -- The frame as one concatenation.
  unfoldable pub frame : Bytes → ℕ → Bytes
  frame msg rest = to_be_bytes 4 (length msg) ++ (h.digest msg ++ (msg ++ replicate rest 0))

  zeros_layout :
      (l n : ℕ)
      → replicate (36 + l + n) 0
        ≡ replicate 4 0 ++ (replicate 32 0 ++ (replicate l 0 ++ replicate {A = ℕ} n 0))
  zeros_layout l n =
      ap (λ (k : ℕ). replicate k 0) {x = 36 + l + n} {y = 36 + (l + n)} (omega arith)
      ∙ replicate_add 36 (l + n) 0
      ∙ ap (◌++◌ (replicate 36 0)) (replicate_add l n 0)

  pad_message_layout :
      (msg : Bytes) (n : ℕ)
      → copy_at 36 msg (
          copy_at 4
            (h.digest msg)
            (copy_at 0 (to_be_bytes 4 (length msg)) (replicate (36 + length msg + n) 0)))
        ≡ frame msg n
  unfolding frame
  pad_message_layout msg n = rw (zeros_layout (length msg) n) (
      rw (copy_at_layout 0 len [] (replicate 4 0) _ refl refl) (
        rw (copy_at_layout 4 (h.digest msg) len (replicate 32 0) _ refl (sym (h.length-digest msg)))
          (rw (← append_assoc len (h.digest msg) (replicate (length msg) 0 ++ replicate n 0)) (
            copy_at_layout 36 msg (len ++ h.digest msg) (replicate (length msg) 0) _
              (omega (arith, length-append len (h.digest msg), h.length-digest msg))
              (length-replicate (length msg) 0)
            ∙ append_assoc len (h.digest msg) _))))
    where
      len : Bytes
      len = to_be_bytes 4 (length msg)

  frame_fits : (msg : Bytes) (n : ℕ) → pad_message msg (36 + length msg + n) ≡ some (frame msg n)
  unfolding pad_message
  frame_fits msg n =
      let fits : ltb (36 + length msg + n) (36 + length msg) ≡ false = ground arith in
      rw fits (ap some (pad_message_layout msg n))

  -- The frame needs 36 bytes beside the message; the rest is zeros.
  pub pad_message_fits :
      (msg : Bytes) (payload_len : ℕ)
      → 36 + length msg ≤ payload_len
      → pad_message msg payload_len ≡ some (frame msg (payload_len - (36 + length msg)))
  pad_message_fits msg payload_len fits =
      ap (pad_message msg) {x = payload_len}
        {y = 36 + length msg + (payload_len - (36 + length msg))} (omega arith)
      ∙ frame_fits msg _

  pub pad_message_long :
      (msg : Bytes) (payload_len : ℕ)
      → payload_len < 36 + length msg
      → pad_message msg payload_len ≡ none
  unfolding pad_message
  pad_message_long msg payload_len long = rw (lt→ltb _ _ long)

  length-frame : (msg : Bytes) (n : ℕ) → length (frame msg n) ≡ 36 + length msg + n
  unfolding frame
  length-frame msg n = omega (
    arith,
    length-append (to_be_bytes 4 (length msg)) (h.digest msg ++ (msg ++ replicate n 0)),
    length-append (h.digest msg) (msg ++ replicate n 0),
    length-append msg (replicate n 0),
    length-replicate {A = ℕ} n 0,
    h.length-digest msg,
  )

  pub pad_message_room :
      (msg : Bytes) (payload_len : ℕ) {padded : Bytes}
      → pad_message msg payload_len ≡ some padded
      → 36 + length msg ≤ payload_len
  pad_message_room msg payload_len e = elim (dec_lt payload_len (36 + length msg)) [
    | yes long ↦ cc (pad_message_long msg payload_len long)
    | no fits ↦ omega arith
  ]

  pub length-pad_message :
      (msg : Bytes) (payload_len : ℕ) {padded : Bytes}
      → pad_message msg payload_len ≡ some padded
      → length padded ≡ payload_len
  length-pad_message msg payload_len e = elim (dec_lt payload_len (36 + length msg)) [
    | yes long ↦ cc (pad_message_long msg payload_len long)
    | no fits ↦ ground (
      arith,
      pad_message_fits msg payload_len (omega arith),
      length-frame msg (payload_len - (36 + length msg)),
    )
  ]

  take_digest : (msg rest : Bytes) → take 32 (h.digest msg ++ rest) ≡ h.digest msg
  take_digest msg rest = rw (← h.length-digest msg) (take-append (h.digest msg) rest)

  drop_digest : (msg rest : Bytes) → drop 32 (h.digest msg ++ rest) ≡ rest
  drop_digest msg rest = rw (← h.length-digest msg) (drop-append (h.digest msg) rest)

  header-frame :
      (msg : Bytes) (n : ℕ)
      → length msg < 2 ^ 32
      → from_be_bytes (take 4 (frame msg n)) ≡ length msg
  unfolding frame
  header-frame msg n small = from_be_bytes-to_be_bytes (length msg) small

  checksum-frame : (msg : Bytes) (n : ℕ) → take 32 (drop 4 (frame msg n)) ≡ h.digest msg
  unfolding frame
  checksum-frame msg n = take_digest msg (msg ++ replicate n 0)

  body-frame : (msg : Bytes) (n : ℕ) → take (length msg) (drop 36 (frame msg n)) ≡ msg
  unfolding frame
  body-frame msg n = rw (drop_digest msg (msg ++ replicate n 0)) (take-append msg (replicate n 0))

  unpad_frame : (msg : Bytes) (n : ℕ) → length msg < 2 ^ 32 → unpad_message (frame msg n) ≡ some msg
  unfolding unpad_message
  unpad_frame msg n small =
      let long : ltb (length (frame msg n)) 36 ≡ false = ground (arith, length-frame msg n) in
      let enough : ltb (length (frame msg n) - 36) (length msg) ≡ false =
        ground (arith, length-frame msg n) in
      let same : bytes_beq (h.digest msg) (h.digest msg) ≡ true =
        (bytes_beq_iff (h.digest msg) (h.digest msg)).1 refl in
      rw header-frame' (rw body-frame (rw checksum-frame (rw (long, enough, same))))
    where
      header-frame' : from_be_bytes (take 4 (frame msg n)) ≡ length msg
      header-frame' = header-frame msg n small

  -- Unpadding a padded message gives the message, whatever its bytes, with zeros at its end too,
  -- for every payload that the frame fits in.
  pub unpad-pad :
      (msg : Bytes) (payload_len : ℕ) {padded : Bytes}
      → length msg < 2 ^ 32
      → pad_message msg payload_len ≡ some padded
      → unpad_message padded ≡ some msg
  unpad-pad msg payload_len small e = elim (dec_lt payload_len (36 + length msg)) [
    | yes long ↦ cc (pad_message_long msg payload_len long)
    | no fits ↦ cc (
      pad_message_fits msg payload_len (omega arith),
      unpad_frame msg (payload_len - (36 + length msg)) small,
    )
  ]

  -- A message that comes out is the one that the header and the checksum speak of.
  pub unpad_sound :
      (padded : Bytes) {msg : Bytes}
      → unpad_message padded ≡ some msg
      → (from_be_bytes (take 4 padded) ≡ length msg)
        × (take 32 (drop 4 padded) ≡ h.digest msg)
        × (take (length msg) (drop 36 padded) ≡ msg)
        × (36 + length msg ≤ length padded)
  unfolding unpad_message
  unpad_sound padded e =
      let len : ℕ = from_be_bytes (take 4 padded) in
      let found : Bytes = take len (drop 36 padded) in
      ground (
        arith,
        bytes_beq_iff (h.digest found) (take 32 (drop 4 padded)),
        length-take len (drop 36 padded),
        length-drop 36 padded,
      )
