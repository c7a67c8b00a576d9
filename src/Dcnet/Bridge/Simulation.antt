-- ===== src/Dcnet/Bridge/Simulation.antt =====
-- dcnet/f2f.rs, `broadcast_message`: all members of a round in one process. The ephemeral secrets
-- and the clock are arguments, and so is `from_utf8_lossy` of the standard library.
pub mod Sums
pub mod Delivery
mod Tests
use chrono_shift.Prelude.{
  ℕ, zero, suc, ◌+◌, ◌-◌, ◌%◌, ◌^◌, Bool, true, false, not, ◌&&◌, ◌||◌, Option, none, some, List,
  [], ◌∷◌, ◌++◌, leb, ltb, ◌==◌, min, length, take, drop, replicate, map, if◌then◌else◌,
}
use chrono_shift.Prelude.Keys.{Bytes, ◌=?◌, bytes_eq, contains, without}
use chrono_shift.Prelude.Dict.{Dict, lookup, has_key, insert, modify}
use chrono_shift.Prelude.Words.{to_be_bytes, from_be_bytes}
use chrono_shift.Prelude.Floats.{f_half, f_0_8, f_leb}
use chrono_shift.Primitives.{Hash, Dh}
use chrono_shift.Storage.{decimal}
use chrono_shift.Dcnet.Xor.{xor_bytes}
use chrono_shift.Dcnet.Group.{DcGroup, Participant, start_round, finish_round_with}
use chrono_shift.Dcnet.Reputation
use chrono_shift.Dcnet.Reputation.{Peers, get_or_create, process_round}
use chrono_shift.Dcnet.Bridge.{F2fDcNetBridge, F2fFriend, ChannelInfo, uid_to_peer}

abbrev pub peer_ids : List Participant → List Bytes
peer_ids [] = []
peer_ids (p ∷ ps) = p.peer_id ∷ peer_ids ps

-- `position`, and a change of the element there.
abbrev pub position : Bytes → List Bytes → Option ℕ
position x [] = none
position x (y ∷ ys) =
    let rest = position x ys in
    if y =? x then some 0 else elim rest [ none ↦ none | some n ↦ some (suc n) ]

abbrev pub update_at : ℕ → (Bytes → Bytes) → List Bytes → List Bytes
update_at n f [] = []
update_at zero f (x ∷ xs) = f x ∷ xs
update_at (suc n) f (x ∷ xs) = x ∷ update_at n f xs

unfoldable pub xor_all : Bytes → List Bytes → Bytes
xor_all acc [] = acc
xor_all acc (s ∷ shares) = xor_all (xor_bytes acc s) shares

module _ (h : Hash) where
  unfoldable pub expand_from : ℕ → ℕ → Bytes → ℕ → Bytes → Bytes
  expand_from zero len seed counter out = out
  expand_from (suc fuel) len seed counter out =
      let more =
        expand_from fuel len seed ((counter + 1) % 2 ^ 64)
          (out ++ h.digest (seed ++ to_be_bytes 8 counter)) in
      if ltb (length out) len then more else out

  unfoldable pub expand_share : Bytes → ℕ → Bytes
  expand_share seed len = take len (expand_from len len seed 0 [])

  module _ (dh : Dh) where
    -- One member and those after it: the share of the one, and the others' shares.
    unfoldable pub pair_row : ℕ → Bytes → List Bytes → Bytes → List Bytes → Bytes × List Bytes
    pair_row len secret [] share shares = (share, shares)
    pair_row len secret (p ∷ publics) share [] = (share, [])
    pair_row len secret (p ∷ publics) share (s ∷ shares) =
        let expanded = expand_share (dh.shared secret p) len in
        let (share', shares') = pair_row len secret publics (xor_bytes share expanded) shares in
        (share', xor_bytes s expanded ∷ shares')

    unfoldable pub pair_rows : ℕ → List Bytes → List Bytes → List Bytes → List Bytes
    pair_rows len (secret ∷ secrets) (p ∷ publics) (s ∷ shares) =
        let (s', shares') = pair_row len secret publics s shares in
        s' ∷ pair_rows len secrets publics shares'
    pair_rows len [] publics shares = shares
    pair_rows len (secret ∷ secrets) [] shares = shares
    pair_rows len (secret ∷ secrets) (p ∷ publics) [] = []

    -- The XOR of all that the members send.
    unfoldable pub global_xor : List Bytes → ℕ → Bytes → Bytes
    global_xor secrets sender text =
        let payload_len = 4 + length text in
        let zeros = replicate payload_len 0 in
        let shares =
          pair_rows payload_len secrets (map dh.public secrets) (map (λ s. zeros) secrets) in
        let payload = to_be_bytes 4 (length text) ++ text in
        xor_all zeros (update_at sender (λ s. xor_bytes s payload) shares)

unfoldable pub extracted : (Bytes → Bytes) → Bytes → Bytes
extracted lossy global =
    if leb 4 (length global)
    then lossy (take (min (from_be_bytes (take 4 global)) (length global - 4)) (drop 4 global))
    else lossy global

-- "[DC-Net round #{} ({} parties)] {}"
abbrev pub announcement : ℕ → ℕ → Bytes → Bytes
announcement round_id parties text =
    91
    ∷ 68
    ∷ 67
    ∷ 45
    ∷ 78
    ∷ 101
    ∷ 116
    ∷ 32
    ∷ 114
    ∷ 111
    ∷ 117
    ∷ 110
    ∷ 100
    ∷ 32
    ∷ 35
    ∷ (decimal round_id
        ++ (32
            ∷ 40
            ∷ (decimal parties
                ++ (32 ∷ 112 ∷ 97 ∷ 114 ∷ 116 ∷ 105 ∷ 101 ∷ 115 ∷ 41 ∷ 93 ∷ 32 ∷ text))))

-- The trust that a reputation gives.
unfoldable pub standing : Reputation.Reputation → ℕ
standing r =
    if Reputation.is_malicious r
    then 0
    else if f_leb f_0_8 r.score
    then 2
    else if f_leb f_half r.score
    then 1
    else 0

unfoldable pub sync_each : ℕ → List F2fFriend → F2fDcNetBridge → List (Bytes × ℕ) × F2fDcNetBridge
sync_each now [] b = ([], b)
sync_each now (f ∷ fs) b =
    let (rep, peers) = get_or_create now f.peer_id b.reputation in
    let trust = standing rep in
    let changed = not (f.trust_level == trust) && has_key f.uid b.friends in
    let friends =
      if changed
      then modify f.uid (λ g. record g { trust_level = trust }) b.friends
      else b.friends in
    let (changes, b') = sync_each now fs (record b { reputation = peers; friends = friends }) in
    (if changed then (f.uid, trust) ∷ changes else changes, b')

abbrev pub values : Dict Bytes F2fFriend → List F2fFriend
values [] = []
values ((uid, f) ∷ d) = f ∷ values d

unfoldable pub sync_reputation_to_trust : ℕ → F2fDcNetBridge → List (Bytes × ℕ) × F2fDcNetBridge
sync_reputation_to_trust now b = sync_each now (values b.friends) b

unfoldable pub next_round_id : Bytes → F2fDcNetBridge → ℕ
next_round_id channel b = elim (lookup channel b.channels) [
  | none ↦ 1
  | some ch ↦ (ch.round_id + 1) % 2 ^ 64
]

module _ (h : Hash) where
  -- The participants whose peers are malicious, and the list without them.
  unfoldable pub evicted : List Bytes → List Bytes → List Bytes
  evicted malicious [] = []
  evicted malicious (u ∷ us) =
      let rest = evicted malicious us in
      if contains malicious (uid_to_peer h u) then u ∷ rest else rest

  unfoldable pub evict : List Bytes → List Bytes → List Bytes
  evict [] ps = ps
  evict (u ∷ us) ps = evict us (without u ps)

  abbrev pub of_32_bytes : List Bytes → List Bytes
  of_32_bytes [] = []
  of_32_bytes (m ∷ ms) = let rest = of_32_bytes ms in if length m == 32 then m ∷ rest else rest

  module _ (dh : Dh) (lossy : Bytes → Bytes) where
    unfoldable pub broadcast_message :
        ℕ → List Bytes → Bytes → Bytes → F2fDcNetBridge → Option Bytes × F2fDcNetBridge
    broadcast_message now secrets channel text b = elim (lookup channel b.groups) [
      | none ↦ (none, b)
      | some group ↦
          let participants = peer_ids group.participants in
          let next_id = next_round_id channel b in
          if ltb (length participants) 2
          then (some text, b)
          else let (started, group') = start_round now next_id group in
            let stopped : Option Bytes × F2fDcNetBridge =
              (none, record b { groups = insert channel group' b.groups }) in
            elim started [
              | none ↦ stopped
              | some round ↦ elim (position (uid_to_peer h b.my_uid) participants) [
                | none ↦ stopped
                | some sender ↦
                    let heard = extracted lossy (global_xor h dh secrets sender text) in
                    let ((dropouts, thrown), group'') = finish_round_with participants group' in
                    let (named, peers) =
                      process_round now participants participants 100 b.reputation in
                    let malicious = thrown ++ of_32_bytes named in
                    let b' =
                      (sync_reputation_to_trust now (record b {
                        groups = insert channel group'' b.groups;
                        reputation = peers;
                      })).1 in
                    (
                      some (announcement next_id (length participants) heard),
                      record b' {
                        channels =
                            modify channel
                              (λ ch. record ch {
                                round_id = next_id;
                                participants =
                                    evict (evicted malicious ch.participants) ch.participants;
                              })
                              b'.channels;
                      },
                    )
              ]
            ]
    ]
