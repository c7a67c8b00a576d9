-- ===== src/Dcnet/Broadcast/Delivery.antt =====
-- The message of one sender reaches whoever collects the shares.
use mathlib.Core.List.{Perm}
use mathlib.Core.List.Perm
use mathlib.Core.Option
use chrono_shift.Prelude.{
  ok, ok, ℕ, ◌+◌, ◌≤◌, ◌≡◌, refl, sym, ap, ap₂, ◌∙◌, bit_xor, true, false, Option, some, none, List,
  [], ◌∷◌, ◌++◌, arith, All, length, get_or, get_or_ext, replicate, length-replicate,
  get_or-replicate, if◌then◌else◌, Bool-cases, inl, inr,
}
use chrono_shift.Prelude.Bits.{zero-xor}
use chrono_shift.Prelude.Keys.{
  Bytes, bytes_eq, ◌=?◌, contains, contains_head, contains_tail, ne→=?_false, Distinct,
}
use chrono_shift.Prelude.Dict.{Dict}
use chrono_shift.Prelude.Perms.{All-contains, length-perm, contains-perm, Distinct-perm}
use chrono_shift.Primitives.{Hash, Kdf}
use chrono_shift.Dcnet.Frame.{
  pad_message, unpad_message, pad_message_room, pad_message_fits, unpad-pad, length-pad_message,
}
use chrono_shift.Dcnet.Collector.{
  RoundCollector, new, collect_set, is_complete, extract_message, xor_values,
  compute_xor_share_secure,
}
use chrono_shift.Dcnet.Broadcast.Sums.{
  xor_sum, xor_sum-perm, xor_sum-xor, xor_sum_ext, xor_sum-grid, xor_sum_single,
}
use chrono_shift.Dcnet.Broadcast.Masks.{
  SharedEdges, pad_at, pad_at_comm, pad_at_diagonal, Carries, share_at,
}
use chrono_shift.Dcnet.Broadcast.Submissions.{
  submit_all, from_members, length-from_members, submit_all_ok, extract_nonempty, xor_values_at,
}

-- Only the sender has a message.
abbrev pub message_of : Bytes → Bytes → Bytes → Option Bytes
message_of sender msg me = if me =? sender then some msg else none

pub collect_set-Distinct :
    (seen us : List Bytes)
    → Distinct us
    → ((u : Bytes) → contains us u ≡ true → contains seen u ≡ false)
    → collect_set seen us ≡ us
unfolding collect_set
collect_set-Distinct seen [] d apart = refl
collect_set-Distinct seen (u ∷ us) d apart = rw (apart u (contains_head u us)) (
    ap (◌∷◌ u) (
      collect_set-Distinct (u ∷ seen) us d.1 λ v m.
        rw (ne→=?_false u v (λ e. cc (d.0, m, ap (contains us) e)))
          (apart v (contains_tail u us v m))))

module _ (h : Hash) (kdf : Kdf) (round_id payload_len : ℕ) (keys : Bytes → Dict Bytes Bytes)
    (ps order : List Bytes) (sender msg padded : Bytes) (distinct : Distinct ps)
    (many : 2 ≤ length ps) (edges : SharedEdges ps keys) (sends : contains ps sender ≡ true)
    (shuffled : Perm order ps) (framed : pad_message h msg payload_len ≡ some padded) where
  abbrev carried : Bytes → ℕ → ℕ
  carried me j = if me =? sender then get_or padded j 0 else 0

  carried-Carries :
      (me : Bytes) → Carries h kdf round_id payload_len keys (message_of sender msg me) (carried me)
  carried-Carries me = elim (Bool-cases (me =? sender)) [
    | inl mine ↦
        rw mine (padded, framed, length-pad_message h msg payload_len framed, λ j. rw mine refl)
    | inr other ↦ rw other (λ j. rw other refl)
  ]

  abbrev computed : Bytes → Option Bytes
  computed me =
      compute_xor_share_secure h kdf round_id me ps (message_of sender msg me) payload_len (keys me)

  abbrev share_of : Bytes → Bytes
  share_of me = Option.get_or (computed me) []

  share_of-at :
      (me : Bytes)
      → contains ps me ≡ true
      → (computed me ≡ some (share_of me))
        × (length (share_of me) ≡ payload_len)
        × ((j : ℕ)
            → get_or (share_of me) j 0
              ≡ bit_xor (xor_sum (pad_at h kdf round_id payload_len keys j me) ps) (carried me j))
  share_of-at me member =
      let s =
        share_at h kdf round_id payload_len keys ps many edges me (message_of sender msg me)
          (carried me) member (carried-Carries me) in
      rw s.1 (refl, s.2, s.3)

  -- The pads cancel, and what is left of all shares is the frame.
  shares_cancel : (j : ℕ) → xor_sum (λ me. get_or (share_of me) j 0) order ≡ get_or padded j 0
  shares_cancel j =
      let pads = λ (me : Bytes). xor_sum (pad_at h kdf round_id payload_len keys j me) ps in
      xor_sum-perm (λ me. get_or (share_of me) j 0) shuffled
      ∙ xor_sum_ext (λ me. get_or (share_of me) j 0) (λ me. bit_xor (pads me) (carried me j)) ps
          (λ me m. (share_of-at me m).2 j)
      ∙ xor_sum-xor pads (λ me. carried me j) ps
      ∙ ap₂ bit_xor
          (xor_sum-grid (pad_at h kdf round_id payload_len keys j) ps
            (pad_at_comm h kdf round_id payload_len keys ps edges j)
            (pad_at_diagonal h kdf round_id payload_len keys j))
          (xor_sum_single sender (get_or padded j 0) ps distinct sends)
      ∙ zero-xor _

  total : Bytes
  total = xor_values (replicate payload_len 0) (from_members share_of order)

  order_member : (me : Bytes) → contains order me ≡ true → contains ps me ≡ true
  order_member me m = sym (contains-perm shuffled me) ∙ m

  total-eq-padded : total ≡ padded
  unfolding total
  total-eq-padded =
      let at =
        xor_values_at share_of payload_len order (replicate payload_len 0)
          (length-replicate payload_len 0) (λ me m. (share_of-at me (order_member me m)).1) in
      get_or_ext 0 _ padded (at.0 ∙ sym (length-pad_message h msg payload_len framed)) (λ j.
        at.1 j ∙ ap₂ bit_xor (get_or-replicate payload_len j 0) (shares_cancel j) ∙ zero-xor _)

  module _ (now deadline_secs : ℕ) (channel : Bytes) (bounded : payload_len ≤ 65536) where
    abbrev fresh : RoundCollector
    fresh = new now channel round_id ps deadline_secs payload_len

    abbrev full : RoundCollector
    full = record fresh { shares_received = from_members share_of order }

    fresh_participants : fresh.participants ≡ ps
    unfolding new
    fresh_participants = collect_set-Distinct [] ps distinct (λ u m. refl)

    fresh_payload_len : fresh.payload_len ≡ payload_len
    unfolding new
    fresh_payload_len = ground (arith, pad_message_room h msg payload_len framed)

    fresh_empty : fresh.shares_received ≡ []
    unfolding new
    fresh_empty = refl

    submitted : submit_all (from_members share_of order) fresh ≡ ok full
    submitted =
        submit_all_ok share_of order fresh (Distinct-perm (Perm.symm shuffled) distinct)
          (λ u m. rw fresh_participants (order_member u m)) (λ u m. rw fresh_empty refl)
          (λ u m. (share_of-at u (order_member u m)).1 ∙ sym fresh_payload_len)
        ∙ ap (λ s. ok (record fresh { shares_received = s ++ from_members share_of order }))
            fresh_empty

    complete : is_complete full ≡ true
    unfolding is_complete
    complete = ground (
      arith,
      ap length fresh_participants,
      length-from_members share_of order,
      length-perm shuffled,
    )

    extracted : extract_message full ≡ some padded
    unfolding total
    extracted =
        extract_nonempty full
          (omega (arith, length-from_members share_of order, length-perm shuffled))
        ∙ ap (λ n. some (xor_values (replicate n 0) (from_members share_of order)))
            fresh_payload_len
        ∙ ap some total-eq-padded

    delivered :
        (shares : Bytes → Bytes) × All
          (λ u.
            compute_xor_share_secure h kdf round_id u ps
              (message_of sender msg u)
              payload_len
              (keys u)
            ≡ some (shares u))
          ps
        × (collector : RoundCollector) × (submit_all (from_members shares order) fresh
            ≡ ok collector)
        × (is_complete collector ≡ true)
        × (payload : Bytes) × (extract_message collector ≡ some payload)
        × (unpad_message h payload ≡ some msg)
    delivered = (
      share_of,
      All-contains _ ps (λ u m. (share_of-at u m).0),
      full,
      submitted,
      complete,
      padded,
      extracted,
      unpad-pad h msg payload_len (omega (arith, pad_message_room h msg payload_len framed)) framed,
    )

-- In a round among at least two distinct members, any two of whom hold one key with each other,
-- with a message that fits the frame (its length and 36 bytes are at most payload_len, which is at
-- most 65536), every member computes a share, the collector accepts the shares in every order and
-- is then complete, and what it extracts unpads to the sender's message.
pub broadcast_delivers :
    (h : Hash) (kdf : Kdf) (round_id payload_len now deadline_secs : ℕ) (channel : Bytes)
    (keys : Bytes → Dict Bytes Bytes) (ps order : List Bytes) (sender msg : Bytes)
    → Distinct ps
    → 2 ≤ length ps
    → SharedEdges ps keys
    → contains ps sender ≡ true
    → Perm order ps
    → 36 + length msg ≤ payload_len
    → payload_len ≤ 65536
    → (shares : Bytes → Bytes) × All
        (λ u.
          compute_xor_share_secure h kdf round_id u ps
            (message_of sender msg u)
            payload_len
            (keys u)
          ≡ some (shares u))
        ps
      × (collector : RoundCollector) × (submit_all
            (from_members shares order)
            (new now channel round_id ps deadline_secs payload_len)
          ≡ ok collector)
      × (is_complete collector ≡ true)
      × (payload : Bytes) × (extract_message collector ≡ some payload)
      × (unpad_message h payload ≡ some msg)
broadcast_delivers h kdf round_id payload_len now deadline_secs channel keys ps order sender msg
      distinct many edges sends shuffled room bounded =
    delivered h kdf round_id payload_len keys ps order sender msg _ distinct many edges sends
      shuffled (pad_message_fits h msg payload_len room) now deadline_secs channel bounded
