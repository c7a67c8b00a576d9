-- ===== src/Dcnet/Share.antt =====
-- `derive_pair_share` of dcnet/mod.rs: the bytes that two friends share for one round.
use chrono_shift.Prelude.{
  ℕ, zero, suc, ◌+◌, ◌%◌, ◌≤◌, ◌≡◌, refl, ap, ap₂, sym, Bool, true, false, [], ◌∷◌, ◌++◌, arith,
  length, take, length-append, length-take, ltb, ◌==◌, if◌then◌else◌, Bool-cases, inl, inr,
}
use chrono_shift.Prelude.Keys.{Bytes}
use chrono_shift.Prelude.Words.{to_be_bytes}
use chrono_shift.Primitives.{Kdf}

-- `<` on arrays of bytes: lexicographic.
unfoldable pub bytes_ltb : Bytes → Bytes → Bool
bytes_ltb [] [] = false
bytes_ltb [] (y ∷ ys) = true
bytes_ltb (x ∷ xs) [] = false
bytes_ltb (x ∷ xs) (y ∷ ys) = let rest = bytes_ltb xs ys in if x == y then rest else ltb x y

-- b"chrono-dcnet-pair-v1"
abbrev pub pair_label : Bytes
pair_label =
    99 ∷ 104 ∷ 114 ∷ 111 ∷ 110 ∷ 111 ∷ 45 ∷ 100 ∷ 99 ∷ 110 ∷ 101 ∷ 116 ∷ 45 ∷ 112 ∷ 97 ∷ 105 ∷ 114
    ∷ 45 ∷ 118 ∷ 49 ∷ []

abbrev pub pair_info : ℕ → Bytes → Bytes → Bytes
pair_info round_id lo hi = pair_label ++ (to_be_bytes 8 round_id ++ (lo ++ hi))

module _ (kdf : Kdf) where
  -- The loop `while out.len() < len`; `block` is a u8, whose `+= 1` wraps in a release build.
  expand_blocks : ℕ → Bytes → Bytes → ℕ → Bytes → ℕ → Bytes
  expand_blocks zero key info len out block = out
  expand_blocks (suc fuel) key info len out block =
      let rest =
        expand_blocks fuel key info len (out ++ kdf.expand key (info ++ block ∷ []))
          ((block + 1) % 256) in
      if ltb (length out) len then rest else out

  -- The fuel `len` is enough, since a round adds 32 bytes.
  unfoldable pub derive_pair_share : Bytes → ℕ → Bytes → Bytes → ℕ → Bytes
  unfolding expand_blocks bytes_ltb
  derive_pair_share edge_key round_id peer_a peer_b len =
      let info =
        if bytes_ltb peer_a peer_b
        then pair_info round_id peer_a peer_b
        else pair_info round_id peer_b peer_a in
      take len (expand_blocks len edge_key info len [] 0)

  length-expand_blocks :
      (fuel : ℕ) (key info : Bytes) (len : ℕ) (out : Bytes) (block : ℕ)
      → len ≤ length out + fuel
      → len ≤ length (expand_blocks fuel key info len out block)
  unfolding expand_blocks
  length-expand_blocks zero key info len out block h = omega arith
  length-expand_blocks (suc fuel) key info len out block h = ground (
    arith,
    length-expand_blocks fuel key info len (out ++ kdf.expand key (info ++ block ∷ []))
        ((block + 1) % 256),
    length-append out (kdf.expand key (info ++ block ∷ [])),
    kdf.length-expand key (info ++ block ∷ []),
  )

  length-take-expand_blocks :
      (key info : Bytes) (len : ℕ) → length (take len (expand_blocks len key info len [] 0)) ≡ len
  length-take-expand_blocks key info len = omega (
    arith,
    length-take len (expand_blocks len key info len [] 0),
    length-expand_blocks len key info len [] 0 (omega arith),
  )

  -- A share has the length that was asked for.
  pub length-derive_pair_share :
      (edge_key : Bytes) (round_id : ℕ) (a b : Bytes) (len : ℕ)
      → length (derive_pair_share edge_key round_id a b len) ≡ len
  length-derive_pair_share edge_key round_id a b len =
      unfold derive_pair_share in length-take-expand_blocks edge_key _ len

pub bytes_ltb_total : (a b : Bytes) → bytes_ltb a b ≡ false → bytes_ltb b a ≡ false → a ≡ b
unfolding bytes_ltb
bytes_ltb_total [] [] p q = refl
bytes_ltb_total [] (y ∷ b) p q = cc
bytes_ltb_total (x ∷ a) [] p q = cc
bytes_ltb_total (x ∷ a) (y ∷ b) p q = ground (arith, bytes_ltb_total a b)

pub bytes_ltb_asym : (a b : Bytes) → bytes_ltb a b ≡ true → bytes_ltb b a ≡ false
unfolding bytes_ltb
bytes_ltb_asym [] [] p = cc
bytes_ltb_asym [] (y ∷ b) p = refl
bytes_ltb_asym (x ∷ a) [] p = cc
bytes_ltb_asym (x ∷ a) (y ∷ b) p = ground (arith, bytes_ltb_asym a b)

pair_info-order :
    (round_id : ℕ) (a b : Bytes)
    → (if bytes_ltb a b then pair_info round_id a b else pair_info round_id b a)
      ≡ (if bytes_ltb b a then pair_info round_id b a else pair_info round_id a b)
pair_info-order round_id a b = elim (Bool-cases (bytes_ltb a b)) [
  | inl lt ↦ rw (lt, bytes_ltb_asym a b lt)
  | inr ge ↦ elim (Bool-cases (bytes_ltb b a)) [
    | inl lt ↦ rw (ge, lt)
    | inr le ↦
        rw (ge, le)
          (ap₂ (pair_info round_id) (sym (bytes_ltb_total a b ge le)) (bytes_ltb_total a b ge le))
  ]
]

-- Both ends of an edge derive the same bytes, in whichever order they name the two peers.
pub derive_pair_share_comm :
    (kdf : Kdf) (edge_key : Bytes) (round_id : ℕ) (a b : Bytes) (len : ℕ)
    → derive_pair_share kdf edge_key round_id a b len
      ≡ derive_pair_share kdf edge_key round_id b a len
unfolding derive_pair_share
derive_pair_share_comm kdf edge_key round_id a b len =
    ap (λ info. take len (expand_blocks kdf len edge_key info len [] 0))
      (pair_info-order round_id a b)
