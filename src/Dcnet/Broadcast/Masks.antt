-- ===== src/Dcnet/Broadcast/Masks.antt =====
-- What `compute_xor_share_secure` returns, byte by byte, when every edge key is there.
use mathlib.Core.Option
use chrono_shift.Prelude.{
  ℕ, ◌≤◌, ◌≡◌, ◌≢◌, refl, sym, ap, ap₂, ◌∙◌, bit_xor, true, false, Option, some, none, List, [],
  ◌∷◌, arith, length, get_or, replicate, length-replicate, get_or-replicate, ltb, if◌then◌else◌,
  Bool-cases, inl, inr,
}
use chrono_shift.Prelude.Bits.{xor-zero, zero-xor, xor_assoc}
use chrono_shift.Prelude.Keys.{
  Bytes, bytes_eq, ◌=?◌, =?_false, ne→=?_false, =?_refl, =?_iff, contains, contains_head,
  contains_tail,
}
use chrono_shift.Prelude.Dict.{Dict, lookup}
use chrono_shift.Primitives.{Hash, Kdf}
use chrono_shift.Dcnet.Xor.{xor_bytes, length-xor_bytes, get_or-xor_bytes}
use chrono_shift.Dcnet.Share.{derive_pair_share, length-derive_pair_share, derive_pair_share_comm}
use chrono_shift.Dcnet.Frame.{pad_message}
use chrono_shift.Dcnet.Collector.{mask, add_message, compute_xor_share_secure}
use chrono_shift.Dcnet.Broadcast.Sums.{xor_sum}

-- Any two members hold one key for the edge between them.
abbrev pub SharedEdges : List Bytes → (Bytes → Dict Bytes Bytes) → Type 0
SharedEdges ps keys =
    (a b : Bytes)
    → contains ps a ≡ true
    → contains ps b ≡ true
    → a ≢ b
    → (key : Bytes) × (lookup b (keys a) ≡ some key) × (lookup a (keys b) ≡ some key)

module _ (h : Hash) (kdf : Kdf) (round_id : ℕ) (payload_len : ℕ)
    (keys : Bytes → Dict Bytes Bytes) where
  abbrev pair : Bytes → Bytes → Bytes
  pair a b =
      derive_pair_share kdf (Option.get_or (lookup b (keys a)) []) round_id (h.digest a)
        (h.digest b) payload_len

  -- What `b` contributes to byte `j` of the share of `a`.
  pub pad_at : ℕ → Bytes → Bytes → ℕ
  pad_at j a b = if b =? a then 0 else get_or (pair a b) j 0

  pub pad_at_diagonal : (j : ℕ) (a : Bytes) → pad_at j a a ≡ 0
  unfolding pad_at
  pad_at_diagonal j a = rw (=?_refl a)

  -- The two ends of an edge contribute the same bytes.
  pub pad_at_comm :
      (ps : List Bytes)
      → SharedEdges ps keys
      → (j : ℕ) (a b : Bytes) → contains ps a ≡ true
      → contains ps b ≡ true
      → pad_at j a b ≡ pad_at j b a
  unfolding pad_at
  pad_at_comm ps edges j a b ma mb = elim (Bool-cases (b =? a)) [
    | inl same ↦ ap₂ (pad_at j) (sym ((=?_iff b a).0 same)) ((=?_iff b a).0 same)
    | inr other ↦
        let edge = edges a b ma mb (λ e. =?_false b a other (sym e)) in
        rw (other, ne→=?_false a b (λ e. =?_false b a other (sym e)), edge.1, edge.2)
          (ap (λ (s : Bytes). get_or s j 0)
            (derive_pair_share_comm kdf edge.0 round_id (h.digest a) (h.digest b) payload_len))
  ]

  abbrev Masked : Bytes → List Bytes → Bytes → Option Bytes → Type 0
  Masked me others output result =
      (share : Bytes) × (result ≡ some share)
      × (length share ≡ payload_len)
      × ((j : ℕ) → get_or share j 0 ≡ bit_xor (get_or output j 0) (xor_sum (pad_at j me) others))

  length-masked :
      (key a b output : Bytes)
      → length output ≡ payload_len
      → length (
          xor_bytes output
            (derive_pair_share kdf key round_id (h.digest a) (h.digest b) payload_len))
        ≡ payload_len
  length-masked key a b output len = omega (
    arith,
    length-xor_bytes output
        (derive_pair_share kdf key round_id (h.digest a) (h.digest b) payload_len),
    length-derive_pair_share kdf key round_id (h.digest a) (h.digest b) payload_len,
  )

  mask-Masked :
      (me : Bytes) (others : List Bytes) (output : Bytes)
      → ((b : Bytes)
          → contains others b ≡ true
          → b ≢ me
          → (key : Bytes) × (lookup b (keys me) ≡ some key))
      → length output ≡ payload_len
      → Masked me others output (mask h kdf round_id me others payload_len (keys me) output)
  unfolding mask pad_at
  mask-Masked me [] output known len = (output, refl, len, λ j. sym (xor-zero _))
  mask-Masked me (b ∷ others) output known len = elim (Bool-cases (b =? me)) [
    | inl mine ↦
        let ih = mask-Masked me others output known_tail len in
        (
          ih.0,
          rw mine ih.1,
          ih.2,
          λ j. rw mine (ih.3 j ∙ ap (bit_xor (get_or output j 0)) (sym (zero-xor _))),
        )
    | inr other ↦
        let edge = known b (contains_head b others) (=?_false b me other) in
        let masked : Bytes =
          xor_bytes output
            (derive_pair_share kdf edge.0 round_id (h.digest me) (h.digest b) payload_len) in
        let ih = mask-Masked me others masked known_tail (length-masked edge.0 me b output len) in
        (
          ih.0,
          rw (other, edge.1) ih.1,
          ih.2,
          λ j.
              rw (other, edge.1)
                (ih.3 j
                  ∙ ap (λ (t : ℕ). bit_xor t (xor_sum (pad_at j me) others))
                      (get_or-xor_bytes output _ j)
                  ∙ xor_assoc _ _ _),
        )
  ]
    where
      known_tail :
          (a : Bytes)
          → contains others a ≡ true
          → a ≢ me
          → (key : Bytes) × (lookup a (keys me) ≡ some key)
      known_tail a c ne = known a (contains_tail b others a c) ne

  -- What the message adds to byte `j`: nothing, or a byte of its frame.
  abbrev pub Carries : Option Bytes → (ℕ → ℕ) → Type 0
  Carries none c = (j : ℕ) → c j ≡ 0
  Carries (some msg) c =
      (padded : Bytes) × (pad_message h msg payload_len ≡ some padded)
      × (length padded ≡ payload_len)
      × ((j : ℕ) → c j ≡ get_or padded j 0)

  module _ (ps : List Bytes) (many : 2 ≤ length ps) (edges : SharedEdges ps keys) where
    add_message_at :
        (message : Option Bytes) (c : ℕ → ℕ) (output : Bytes)
        → Carries message c
        → length output ≡ payload_len
        → (share : Bytes) × (add_message h kdf message payload_len output ≡ some share)
          × (length share ≡ payload_len)
          × ((j : ℕ) → get_or share j 0 ≡ bit_xor (get_or output j 0) (c j))
    unfolding add_message
    add_message_at none c output carried len =
        (output, refl, len, λ j. sym (ap (bit_xor (get_or output j 0)) (carried j) ∙ xor-zero _))
    add_message_at (some msg) c output (padded, framed, wide, at) len = (
      xor_bytes output padded,
      rw (framed, add_message),
      omega (arith, length-xor_bytes output padded),
      λ j. get_or-xor_bytes output padded j ∙ ap (bit_xor (get_or output j 0)) (sym (at j)),
    )

    -- A member that holds its edge keys has a share: its pads, and the message if it has one.
    pub share_at :
        (me : Bytes) (message : Option Bytes) (c : ℕ → ℕ)
        → contains ps me ≡ true
        → Carries message c
        → (share : Bytes) × (compute_xor_share_secure h kdf round_id me ps message payload_len
              (keys me)
            ≡ some share)
          × (length share ≡ payload_len)
          × ((j : ℕ) → get_or share j 0 ≡ bit_xor (xor_sum (pad_at j me) ps) (c j))
    share_at me message c member carried =
        let masked =
          mask-Masked me ps (replicate payload_len 0)
            (λ b m ne. let edge = edges me b member m (λ e. ne (sym e)) in (edge.0, edge.1))
            (length-replicate payload_len 0) in
        let sent = add_message_at message c masked.0 carried masked.2 in
        (
          sent.0,
          computed masked.0 masked.1 sent.1,
          sent.2,
          λ j.
              sent.3 j
              ∙ ap (λ (t : ℕ). bit_xor t (c j))
                  (masked.3 j
                    ∙ ap (λ (t : ℕ). bit_xor t (xor_sum (pad_at j me) ps))
                        (get_or-replicate payload_len j 0)
                    ∙ zero-xor _),
        )
      where
        computed :
            (output : Bytes) {share : Bytes}
            → mask h kdf round_id me ps payload_len (keys me) (replicate payload_len 0)
              ≡ some output
            → add_message h kdf message payload_len output ≡ some share
            → compute_xor_share_secure h kdf round_id me ps message payload_len (keys me)
              ≡ some share
        computed output p q =
            let few : ltb (length ps) 2 ≡ false = ground arith in
            unfold compute_xor_share_secure in rw (few, member) (rw (p, compute_xor_share_secure) q)
