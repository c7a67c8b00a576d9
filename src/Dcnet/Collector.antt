-- ===== src/Dcnet/Collector.antt =====
-- `RoundCollector` and `compute_xor_share_secure` of dcnet/round_network.rs. Uids are byte strings;
-- time is an argument of the calls that read the clock. The fields `my_message` and
-- `my_share_submitted`, which nothing reads or writes after `new`, are left out.
pub mod Invariant
use chrono_shift.Prelude.{
  Result, ok, err, ℕ, zero, suc, ◌+◌, ◌-◌, ◌≤◌, ◌<◌, ◌≡◌, refl, min, Bool, true, false, not, ◌&&◌,
  ◌||◌, Option, some, none, List, [], ◌∷◌, ◌++◌, arith, length, ltb, leb, ◌==◌, if◌then◌else◌,
  replicate, take, drop,
}
use Prim.Native.Nat.{max}
use chrono_shift.Prelude.Keys.{Bytes, ◌=?◌, bytes_eq, contains}
use chrono_shift.Prelude.Dict.{Dict, lookup, has_key, insert}
use chrono_shift.Prelude.Words.{copy_at}
use chrono_shift.Primitives.{Hash, Kdf}
use chrono_shift.Dcnet.Xor.{xor_bytes}
use chrono_shift.Dcnet.Share.{derive_pair_share}
use chrono_shift.Dcnet.Frame.{pad_message}

pub record RoundCollector : Type 0 where
  pub channel : Bytes
  pub round_id : ℕ
  pub participants : List Bytes
  pub shares_received : Dict Bytes Bytes
  pub deadline : ℕ
  pub payload_len : ℕ

-- `iter().cloned().collect::<HashSet<_>>()`: a later copy is dropped.
unfoldable pub collect_set : List Bytes → List Bytes → List Bytes
collect_set seen [] = []
collect_set seen (u ∷ us) =
    let rest = collect_set seen us in
    let fresh = collect_set (u ∷ seen) us in if contains seen u then rest else u ∷ fresh

abbrev pub max_round_deadline_secs : ℕ
max_round_deadline_secs = 30

-- `usize::clamp`
abbrev pub clamp : ℕ → ℕ → ℕ → ℕ
clamp lo hi x = if ltb x lo then lo else if ltb hi x then hi else x

unfoldable pub new : ℕ → Bytes → ℕ → List Bytes → ℕ → ℕ → RoundCollector
unfolding collect_set
new now channel round_id participants deadline_secs payload_len = record {
  channel = channel;
  round_id = round_id;
  participants = collect_set [] participants;
  shares_received = [];
  deadline = now + min deadline_secs max_round_deadline_secs;
  payload_len = clamp 4 65536 payload_len;
}

unfoldable pub is_expired : ℕ → RoundCollector → Bool
is_expired now c = leb c.deadline now

unfoldable pub is_complete : RoundCollector → Bool
is_complete c = leb (length c.participants) (length c.shares_received)

-- The three refusals of `submit_share`, whose texts are left out.
pub data SubmitError : Type 0 where
  not_a_participant duplicate_share : SubmitError
  length_mismatch : ℕ → ℕ → SubmitError

unfoldable pub submit_share : Bytes → Bytes → RoundCollector → Result RoundCollector SubmitError
submit_share peer_uid xored c =
    if not (contains c.participants peer_uid)
    then err not_a_participant
    else if has_key peer_uid c.shares_received
    then err duplicate_share
    else if not (length xored == c.payload_len)
    then err (length_mismatch (length xored) c.payload_len)
    else ok (record c { shares_received = insert peer_uid xored c.shares_received })

missing : List Bytes → Dict Bytes Bytes → List Bytes
missing [] shares = []
missing (p ∷ ps) shares =
    let rest = missing ps shares in if has_key p shares then rest else p ∷ rest

unfoldable pub missing_participants : RoundCollector → List Bytes
unfolding missing
missing_participants c = missing c.participants c.shares_received

-- The loop over `shares_received.values()`.
unfoldable pub xor_values : Bytes → Dict Bytes Bytes → Bytes
xor_values result [] = result
xor_values result ((uid, share) ∷ rest) =
    xor_values (copy_at 0 (xor_bytes result share) result) rest

unfoldable pub extract_message : RoundCollector → Option Bytes
unfolding xor_values
extract_message c = elim c.shares_received [
  | [] ↦ none
  | _ ∷ _ ↦ some (xor_values (replicate c.payload_len 0) c.shares_received)
]

module _ (h : Hash) (kdf : Kdf) where
  -- The loop over the participants; `none` where an edge key is missing.
  unfoldable pub mask : ℕ → Bytes → List Bytes → ℕ → Dict Bytes Bytes → Bytes → Option Bytes
  mask round_id my_uid [] payload_len edge_keys output = some output
  mask round_id my_uid (other ∷ others) payload_len edge_keys output =
      let skipped = mask round_id my_uid others payload_len edge_keys output in
      if other =? my_uid then skipped else elim (lookup other edge_keys) [
        | none ↦ none
        | some key ↦ mask round_id my_uid others payload_len edge_keys (
            xor_bytes output
              (derive_pair_share kdf key round_id (h.digest my_uid) (h.digest other) payload_len))
      ]

  unfoldable pub add_message : Option Bytes → ℕ → Bytes → Option Bytes
  add_message none payload_len output = some output
  add_message (some msg) payload_len output = elim (pad_message h msg payload_len) [
    | none ↦ none
    | some padded ↦ some (xor_bytes output padded)
  ]

  unfoldable pub compute_xor_share_secure :
      ℕ → Bytes → List Bytes → Option Bytes → ℕ → Dict Bytes Bytes → Option Bytes
  unfolding mask add_message
  compute_xor_share_secure round_id my_uid participants message payload_len edge_keys =
      if ltb (length participants) 2 || not (contains participants my_uid)
      then none
      else elim (mask round_id my_uid participants payload_len edge_keys
          (replicate payload_len 0)) [
            | none ↦ none
            | some output ↦ add_message message payload_len output
          ]
