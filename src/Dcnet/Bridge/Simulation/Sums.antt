-- ===== src/Dcnet/Bridge/Simulation/Sums.antt =====
-- Every key that two members share stands in both their shares, and cancels.
use chrono_shift.Prelude.{
  ℕ, zero, suc, ◌+◌, ◌*◌, ◌%◌, ◌^◌, ◌≤◌, ◌<◌, ◌≡◌, refl, sym, ap, ap₂, ◌∙◌, bit_xor, List, [], ◌∷◌,
  ◌++◌, ltb, length, get_or, arith, All, Bool-cases, inl, inr, length-take, length-append,
}
use chrono_shift.Prelude.Keys.{Bytes}
use chrono_shift.Prelude.Bits.{xor_comm, xor_assoc, xor_self, xor-zero, zero-xor, xor_left_comm}
use chrono_shift.Prelude.Words.{to_be_bytes}
use chrono_shift.Primitives.{Hash, Dh}
use chrono_shift.Dcnet.Xor.{xor_bytes, length-xor_bytes, get_or-xor_bytes}
use chrono_shift.Dcnet.Bridge.Simulation.{
  expand_from, expand_share, pair_row, pair_rows, update_at, xor_all,
}

-- The XOR of the bytes at one place.
abbrev pub column : ℕ → List Bytes → ℕ
column k [] = 0
column k (s ∷ shares) = bit_xor (get_or s k 0) (column k shares)

abbrev pub OfLength : ℕ → Bytes → Type 0
OfLength n s = length s ≡ n

length-masked : (n : ℕ) (s e : Bytes) → OfLength n s → OfLength n e → OfLength n (xor_bytes s e)
length-masked n s e size size' = omega (arith, length-xor_bytes s e)

module _ (h : Hash) where
  expand_from-reaches :
      (fuel len : ℕ) (seed : Bytes) (counter : ℕ) (out : Bytes)
      → len ≤ length out + 32 * fuel
      → len ≤ length (expand_from h fuel len seed counter out)
  unfolding expand_from
  expand_from-reaches zero len seed counter out enough = omega arith
  expand_from-reaches (suc fuel) len seed counter out enough =
      let block = h.digest (seed ++ to_be_bytes 8 counter) in
      elim (Bool-cases (ltb (length out) len)) [
        | inl short ↦
            rw (expand_from, short)
              (expand_from-reaches fuel len seed ((counter + 1) % 2 ^ 64) (out ++ block) (
                omega (
                  arith,
                  length-append out block,
                  h.length-digest (seed ++ to_be_bytes 8 counter),
                )))
        | inr full ↦ rw (expand_from, full) (ground arith)
      ]

  -- The expanded key has exactly the length that was asked for.
  length-expand_share : (seed : Bytes) (len : ℕ) → OfLength len (expand_share h seed len)
  unfolding expand_share
  length-expand_share seed len = omega (
    arith,
    length-take len (expand_from h len len seed 0 []),
    expand_from-reaches len len seed 0 [] (omega arith),
  )

  module _ (dh : Dh) where
    pair_row-column :
        (k len : ℕ) (secret : Bytes) (publics : List Bytes) (share : Bytes) (shares : List Bytes)
        → bit_xor
            (get_or (pair_row h dh len secret publics share shares).0 k 0)
            (column k (pair_row h dh len secret publics share shares).1)
          ≡ bit_xor (get_or share k 0) (column k shares)
    unfolding pair_row
    pair_row-column k len secret [] share shares = refl
    pair_row-column k len secret (p ∷ publics) share [] = refl
    pair_row-column k len secret (p ∷ publics) share (s ∷ shares) =
        let e = expand_share h (dh.shared secret p) len in
        let row = pair_row h dh len secret publics (xor_bytes share e) shares in
        let x = get_or share k 0 in
        let y = get_or s k 0 in
        let z = get_or e k 0 in
        xor_left_comm (get_or row.0 k 0) (get_or (xor_bytes s e) k 0) (column k row.1)
        ∙ ap₂ bit_xor (get_or-xor_bytes s e k) (
            pair_row-column k len secret publics (xor_bytes share e) shares
            ∙ ap (λ t. bit_xor t (column k shares)) (get_or-xor_bytes share e k))
        ∙ cancel x y z (column k shares)
      where
        cancel :
            (x y z c : ℕ)
            → bit_xor (bit_xor y z) (bit_xor (bit_xor x z) c) ≡ bit_xor x (bit_xor y c)
        cancel x y z c =
            ap (bit_xor (bit_xor y z)) (ap (λ t. bit_xor t c) (xor_comm x z) ∙ xor_assoc z x c)
            ∙ xor_assoc y z (bit_xor z (bit_xor x c))
            ∙ ap (bit_xor y) (
                sym (xor_assoc z z (bit_xor x c))
                ∙ ap (λ t. bit_xor t (bit_xor x c)) (xor_self z)
                ∙ zero-xor (bit_xor x c))
            ∙ xor_left_comm y x c

    pub pair_rows-column :
        (k len : ℕ) (secrets publics shares : List Bytes)
        → column k (pair_rows h dh len secrets publics shares) ≡ column k shares
    unfolding pair_rows
    pair_rows-column k len [] publics shares = refl
    pair_rows-column k len (secret ∷ secrets) [] shares = refl
    pair_rows-column k len (secret ∷ secrets) (p ∷ publics) [] = refl
    pair_rows-column k len (secret ∷ secrets) (p ∷ publics) (s ∷ shares) =
        let row = pair_row h dh len secret publics s shares in
        ap (bit_xor (get_or row.0 k 0)) (pair_rows-column k len secrets publics row.1)
        ∙ pair_row-column k len secret publics s shares

    pair_row-OfLength :
        (len : ℕ) (secret : Bytes) (publics : List Bytes) (share : Bytes) (shares : List Bytes)
        → OfLength len share
        → All (OfLength len) shares
        → OfLength len (pair_row h dh len secret publics share shares).0
          × All (OfLength len) (pair_row h dh len secret publics share shares).1
          × (length (pair_row h dh len secret publics share shares).1 ≡ length shares)
    unfolding pair_row
    pair_row-OfLength len secret [] share shares size sizes = (size, sizes, refl)
    pair_row-OfLength len secret (p ∷ publics) share [] size sizes = (size, tt, refl)
    pair_row-OfLength len secret (p ∷ publics) share (s ∷ shares) size (size', sizes) =
        let e = expand_share h (dh.shared secret p) len in
        let long = length-expand_share (dh.shared secret p) len in
        let (mine, theirs, count) =
          pair_row-OfLength len secret publics (xor_bytes share e) shares
            (length-masked len share e size long) sizes in
        (mine, (length-masked len s e size' long, theirs), ap suc count)

    pub pair_rows-OfLength :
        (len : ℕ) (secrets publics shares : List Bytes)
        → All (OfLength len) shares
        → All (OfLength len) (pair_rows h dh len secrets publics shares)
          × (length (pair_rows h dh len secrets publics shares) ≡ length shares)
    unfolding pair_rows
    pair_rows-OfLength len [] publics shares sizes = (sizes, refl)
    pair_rows-OfLength len (secret ∷ secrets) [] shares sizes = (sizes, refl)
    pair_rows-OfLength len (secret ∷ secrets) (p ∷ publics) [] sizes = (tt, refl)
    pair_rows-OfLength len (secret ∷ secrets) (p ∷ publics) (s ∷ shares) (size, sizes) =
        let row = pair_row h dh len secret publics s shares in
        let (mine, theirs, count) = pair_row-OfLength len secret publics s shares size sizes in
        let (rest, count') = pair_rows-OfLength len secrets publics row.1 theirs in
        ((mine, rest), ap suc (count' ∙ count))

-- The XOR of shares of one length, byte by byte.
pub xor_all-column :
    (k : ℕ) (acc : Bytes) (shares : List Bytes)
    → get_or (xor_all acc shares) k 0 ≡ bit_xor (get_or acc k 0) (column k shares)
unfolding xor_all
xor_all-column k acc [] = sym (xor-zero (get_or acc k 0))
xor_all-column k acc (s ∷ shares) =
    xor_all-column k (xor_bytes acc s) shares
    ∙ ap (λ t. bit_xor t (column k shares)) (get_or-xor_bytes acc s k)
    ∙ xor_assoc (get_or acc k 0) (get_or s k 0) (column k shares)

pub xor_all-OfLength :
    (len : ℕ) (acc : Bytes) (shares : List Bytes)
    → OfLength len acc
    → All (OfLength len) shares
    → OfLength len (xor_all acc shares)
unfolding xor_all
xor_all-OfLength len acc [] size sizes = size
xor_all-OfLength len acc (s ∷ shares) size (size', sizes) =
    xor_all-OfLength len (xor_bytes acc s) shares (length-masked len acc s size size') sizes

-- What the sender adds is all that is added to the column.
pub update_at-column :
    (k n : ℕ) (payload : Bytes) (shares : List Bytes)
    → n < length shares
    → column k (update_at n (λ s. xor_bytes s payload) shares)
      ≡ bit_xor (get_or payload k 0) (column k shares)
update_at-column k n payload [] inside = absurd (omega arith)
update_at-column k zero payload (s ∷ shares) inside =
    ap (λ t. bit_xor t (column k shares))
      (get_or-xor_bytes s payload k ∙ xor_comm (get_or s k 0) (get_or payload k 0))
    ∙ xor_assoc (get_or payload k 0) (get_or s k 0) (column k shares)
update_at-column k (suc n) payload (s ∷ shares) inside =
    ap (bit_xor (get_or s k 0)) (update_at-column k n payload shares (omega arith))
    ∙ xor_left_comm (get_or s k 0) (get_or payload k 0) (column k shares)

pub update_at-OfLength :
    (len n : ℕ) (payload : Bytes) (shares : List Bytes)
    → OfLength len payload
    → All (OfLength len) shares
    → All (OfLength len) (update_at n (λ s. xor_bytes s payload) shares)
update_at-OfLength len n payload [] size sizes = tt
update_at-OfLength len zero payload (s ∷ shares) size (size', sizes) =
    (length-masked len s payload size' size, sizes)
update_at-OfLength len (suc n) payload (s ∷ shares) size (size', sizes) =
    (size', update_at-OfLength len n payload shares size sizes)
