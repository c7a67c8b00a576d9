-- ===== src/Dcnet/Bridge/Simulation/Delivery.antt =====
-- What a broadcast in one process gives back.
use chrono_shift.Prelude.{
  ℕ, suc, ◌+◌, ◌-◌, ◌^◌, ◌≤◌, ◌<◌, ◌≡◌, refl, sym, ap, ap₂, ◌∙◌, bit_xor, true, false, none, some,
  List, [], ◌∷◌, ◌++◌, leb, ltb, min, length, take, drop, replicate, map, get_or, arith, All,
  if◌then◌else◌, Bool-cases, Option-cases, inl, inr, length-append, length-replicate, get_or_ext,
  get_or-replicate, take-append, drop-append,
}
use chrono_shift.Prelude.Keys.{Bytes, ◌=?◌, bytes_eq}
use chrono_shift.Prelude.Bits.{xor-zero, zero-xor}
use chrono_shift.Prelude.Dict.{lookup}
use chrono_shift.Prelude.Utf8.{is_utf8}
use chrono_shift.Prelude.Words.{
  to_be_bytes, from_be_bytes, length-to_be_bytes, from_be_bytes-to_be_bytes,
}
use chrono_shift.Primitives.{Hash, Dh}
use chrono_shift.Dcnet.Xor.{xor_bytes}
use chrono_shift.Dcnet.Group.{DcGroup, DcRound, start_round}
use chrono_shift.Dcnet.Bridge.{F2fDcNetBridge, uid_to_peer}
use chrono_shift.Dcnet.Bridge.Simulation.{
  peer_ids, position, update_at, pair_rows, xor_all, global_xor, extracted, announcement,
  broadcast_message, next_round_id,
}
use chrono_shift.Dcnet.Bridge.Simulation.Sums.{
  column, OfLength, pair_rows-column, pair_rows-OfLength, xor_all-column, xor_all-OfLength,
  update_at-column, update_at-OfLength,
}

column-zeros : (k n : ℕ) (secrets : List Bytes) → column k (map (λ s. replicate n 0) secrets) ≡ 0
column-zeros k n [] = refl
column-zeros k n (s ∷ secrets) =
    ap₂ bit_xor (get_or-replicate n k 0) (column-zeros k n secrets) ∙ zero-xor 0

OfLength-zeros :
    (n : ℕ) (secrets : List Bytes)
    → All (OfLength n) (map (λ s. replicate n 0) secrets)
      × (length (map (λ s. replicate {A = ℕ} n 0) secrets) ≡ length secrets)
OfLength-zeros n [] = (tt, refl)
OfLength-zeros n (s ∷ secrets) =
    let (sizes, count) = OfLength-zeros n secrets in ((length-replicate n 0, sizes), ap suc count)

-- The position of an element is within the list.
position-lt : (x : Bytes) (ys : List Bytes) (n : ℕ) → position x ys ≡ some n → n < length ys
position-lt x [] n found = absurd cc
position-lt x (y ∷ ys) n found = elim (Bool-cases (y =? x)) [
  | inl here ↦
      let first : some 0 ≡ some n =
        ap (λ b. if b then some 0 else elim (position x ys) [ none ↦ none | some m ↦ some (suc m) ])
          (sym here)
        ∙ found in
      let zeroth : 0 ≡ n = cc first in omega (arith, zeroth)
  | inr away ↦
      let later : (elim (position x ys) [ none ↦ none | some m ↦ some (suc m) ]) ≡ some n =
        ap (λ b. if b then some 0 else elim (position x ys) [ none ↦ none | some m ↦ some (suc m) ])
          (sym away)
        ∙ found in
      elim (Option-cases (position x ys)) [
        | inl gone ↦
            let clash : none ≡ some n =
              ap (λ o. elim o [ none ↦ none | some m ↦ some (suc m) ]) (sym gone) ∙ later in
            absurd cc
        | inr (m, there) ↦
            let next : some (suc m) ≡ some n =
              ap (λ o. elim o [ none ↦ none | some m ↦ some (suc m) ]) (sym there) ∙ later in
            let same : suc m ≡ n = cc next in omega (arith, same, position-lt x ys m there)
      ]
]

module _ (h : Hash) (dh : Dh) where
  -- The XOR of all that is sent is the payload.
  global_xor-payload :
      (secrets : List Bytes) (sender : ℕ) (text : Bytes)
      → sender < length secrets
      → global_xor h dh secrets sender text ≡ to_be_bytes 4 (length text) ++ text
  unfolding global_xor
  global_xor-payload secrets sender text inside =
      let len = 4 + length text in
      let payload = to_be_bytes 4 (length text) ++ text in
      let publics = map dh.public secrets in
      let blank = map (λ (s : Bytes). replicate len 0) secrets in
      let shares = pair_rows h dh len secrets publics blank in
      let sent = update_at sender (λ s. xor_bytes s payload) shares in
      let (sizes, count) = OfLength-zeros len secrets in
      let (sizes', count') = pair_rows-OfLength h dh len secrets publics blank sizes in
      let long : OfLength len payload =
        length-append (to_be_bytes 4 (length text)) text
        ∙ ap (λ n. n + length text) (length-to_be_bytes 4 (length text)) in
      get_or_ext 0 (xor_all (replicate len 0) sent) payload
        (xor_all-OfLength len (replicate len 0) sent (length-replicate len 0)
            (update_at-OfLength len sender payload shares long sizes')
          ∙ sym long)
        (λ k.
          xor_all-column k (replicate len 0) sent
          ∙ ap (λ t. bit_xor t (column k sent)) (get_or-replicate len k 0)
          ∙ zero-xor (column k sent)
          ∙ update_at-column k sender payload shares (omega (arith, count, count'))
          ∙ ap (bit_xor (get_or payload k 0))
              (pair_rows-column h dh k len secrets publics blank ∙ column-zeros k len secrets)
          ∙ xor-zero (get_or payload k 0))

  module _ (lossy : Bytes → Bytes) where
    extracted-payload :
        (text : Bytes)
        → length text < 2 ^ 32
        → lossy text ≡ text
        → extracted lossy (to_be_bytes 4 (length text) ++ text) ≡ text
    unfolding extracted
    extracted-payload text small clean =
        let prefix = to_be_bytes 4 (length text) in
        let payload = prefix ++ text in
        let size = length-append prefix text in
        let four = length-to_be_bytes 4 (length text) in
        let long : leb 4 (length payload) ≡ true = ground arith in
        let first : take 4 payload ≡ prefix =
          ap (λ n. take n payload) (sym four) ∙ take-append prefix text in
        let behind : drop 4 payload ≡ text =
          ap (λ n. drop n payload) (sym four) ∙ drop-append prefix text in
        let declared : from_be_bytes (take 4 payload) ≡ length text =
          ap from_be_bytes first ∙ from_be_bytes-to_be_bytes (length text) small in
        let all : min (length text) (length payload - 4) ≡ length text =
          omega (arith, size, four) in
        ap
          (λ b.
            if b
            then lossy
                (take (min (from_be_bytes (take 4 payload)) (length payload - 4)) (drop 4 payload))
            else lossy payload)
          long
        ∙ ap₂ (λ n rest. lossy (take n rest)) (ap (λ d. min d (length payload - 4)) declared ∙ all)
            behind
        ∙ ap lossy (take_all text)
        ∙ clean
      where
        take_all : (xs : Bytes) → take (length xs) xs ≡ xs
        take_all [] = refl
        take_all (x ∷ xs) = ap (◌∷◌ x) (take_all xs)

    -- A member of a group of two or more, whose round can start, is given back exactly the text that it
    -- sends, under the next number of the round: whatever the ephemeral secrets are, and whatever the
    -- length of the text, as long as it is UTF-8 of less than 4 GB.
    pub broadcast_message-delivers :
        (now sender : ℕ) (secrets : List Bytes) (channel text : Bytes) (b : F2fDcNetBridge)
        (group : DcGroup) (round : DcRound)
        → lookup channel b.groups ≡ some group
        → (start_round now (next_round_id channel b) group).0 ≡ some round
        → position (uid_to_peer h b.my_uid) (peer_ids group.participants) ≡ some sender
        → length secrets ≡ length (peer_ids group.participants)
        → 2 ≤ length (peer_ids group.participants)
        → length text < 2 ^ 32
        → is_utf8 text ≡ true
        → ((t : Bytes) → is_utf8 t ≡ true → lossy t ≡ t)
        → (broadcast_message h dh lossy now secrets channel text b).0
          ≡ some
              (announcement (next_round_id channel b) (length (peer_ids group.participants)) text)
    unfolding broadcast_message
    broadcast_message-delivers now sender secrets channel text b group round grouped starts inside
          drawn several small utf8 clean =
        let parties = peer_ids group.participants in
        let enough : ltb (length parties) 2 ≡ false = ground arith in
        let within : sender < length secrets =
          omega (arith, drawn, position-lt (uid_to_peer h b.my_uid) parties sender inside) in
        let heard : extracted lossy (global_xor h dh secrets sender text) ≡ text =
          ap (extracted lossy) (global_xor-payload secrets sender text within)
          ∙ extracted-payload text small (clean text utf8) in
        rw (broadcast_message, grouped, enough, starts, inside)
          (ap (λ t. some (announcement (next_round_id channel b) (length parties) t)) heard)
