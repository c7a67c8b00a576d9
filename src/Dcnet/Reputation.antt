-- ===== src/Dcnet/Reputation.antt =====
-- dcnet/reputation.rs: scores of the peers. The clock is an argument; a share of 0 rounds, which is
-- not a number, is not reached.
pub mod Judged
pub mod Rounds
mod Tests
use chrono_shift.Prelude.{
  ℕ, zero, suc, ◌+◌, ◌%◌, ◌^◌, Bool, true, false, not, ◌&&◌, ◌||◌, Option, none, some, List, [],
  ◌∷◌, ◌++◌, length, take, leb, ltb, if◌then◌else◌,
}
use chrono_shift.Prelude.Keys.{Bytes, ◌=?◌, bytes_eq, contains}
use chrono_shift.Prelude.Dict.{Dict, lookup, insert}
use chrono_shift.Prelude.Floats.{
  F64, f_zero, f_one, f_half, f_0_7, f_0_05, f_0_3, f_0_8, f_add, f_mul, f_div, f_min, f_ltb, f_leb,
  of_nat,
}

pub record Reputation : Type 0 where
  pub peer_id : Bytes
  pub score : F64
  pub rounds_total : ℕ
  pub rounds_dropped : ℕ
  pub consecutive_drops : ℕ
  pub drop_timing_pct : List ℕ
  pub first_seen : ℕ
  pub banned : Bool

abbrev pub new_reputation : ℕ → Bytes → Reputation
new_reputation now peer_id = record {
  peer_id = peer_id;
  score = f_half;
  rounds_total = 0;
  rounds_dropped = 0;
  consecutive_drops = 0;
  drop_timing_pct = [];
  first_seen = now;
  banned = false;
}

abbrev pub reward : Reputation → Reputation
reward r = record r {
  rounds_total = (r.rounds_total + 1) % 2 ^ 64;
  consecutive_drops = 0;
  score = f_min (f_add r.score f_0_05) f_one;
}

abbrev pub penalize : ℕ → Reputation → Reputation
penalize timing_pct r = record r {
  rounds_total = (r.rounds_total + 1) % 2 ^ 64;
  rounds_dropped = (r.rounds_dropped + 1) % 2 ^ 64;
  consecutive_drops = (r.consecutive_drops + 1) % 2 ^ 32;
  drop_timing_pct = r.drop_timing_pct ++ timing_pct ∷ [];
  score = f_mul r.score f_0_7;
}

unfoldable pub reverse : List ℕ → List ℕ
reverse [] = []
reverse (x ∷ xs) = reverse xs ++ x ∷ []

unfoldable pub count_late : List ℕ → ℕ
count_late [] = 0
count_late (p ∷ ps) = let rest = count_late ps in if ltb 80 p then suc rest else rest

-- Late drops of the last three, and more than half of the rounds dropped.
unfoldable pub drops_late : Reputation → Bool
unfolding reverse count_late
drops_late r = leb 3 r.consecutive_drops && leb 2 (count_late (take 3 (reverse r.drop_timing_pct)))

unfoldable pub drops_often : Reputation → Bool
drops_often r =
    leb 10 r.rounds_total && f_ltb f_half (f_div (of_nat r.rounds_dropped) (of_nat r.rounds_total))

unfoldable pub is_malicious : Reputation → Bool
is_malicious r =
    if r.banned
    then true
    else if drops_late r
    then true
    else if drops_often r
    then true
    else f_ltb r.score f_0_3

abbrev pub ban : Reputation → Reputation
ban r = record r { banned = true; score = f_zero }

unfoldable pub trust_level : Reputation → ℕ
trust_level r =
    if r.banned then 0 else if f_leb f_0_8 r.score then 2 else if f_leb f_half r.score then 1 else 0

-- The peers of a `ReputationManager`.
abbrev pub Peers : Type 0
Peers = Dict Bytes Reputation

-- The entry and the peers with it: `entry(..).or_insert_with(..)`.
unfoldable pub get_or_create : ℕ → Bytes → Peers → Reputation × Peers
get_or_create now peer_id peers = elim (lookup peer_id peers) [
  | some r ↦ (r, peers)
  | none ↦ let r = new_reputation now peer_id in (r, insert peer_id r peers)
]

-- One member, and whether it is named as malicious.
unfoldable pub judge : List Bytes → ℕ → Bytes → Reputation → Bool × Reputation
judge responded round_pct pid rep =
    if contains responded pid
    then (false, reward rep)
    else let down = penalize round_pct rep in
      if is_malicious down then (true, ban down) else (false, down)

unfoldable pub process_round : ℕ → List Bytes → List Bytes → ℕ → Peers → List Bytes × Peers
process_round now responded [] round_pct peers = ([], peers)
process_round now responded (pid ∷ all) round_pct peers =
    let (rep, known) = get_or_create now pid peers in
    let (named, rep') = judge responded round_pct pid rep in
    let (malicious, after) = process_round now responded all round_pct (insert pid rep' known) in
    (if named then pid ∷ malicious else malicious, after)

unfoldable pub banned_count : Peers → ℕ
banned_count [] = 0
banned_count ((pid, r) ∷ peers) =
    let rest = banned_count peers in if r.banned then suc rest else rest

-- A stable sort, the highest score first.
unfoldable pub insert_by_score : Reputation → List Reputation → List Reputation
insert_by_score r [] = r ∷ []
insert_by_score r (s ∷ rs) =
    let rest = insert_by_score r rs in if f_ltb r.score s.score then s ∷ rest else r ∷ s ∷ rs

unfoldable pub trusted_by_score : Peers → List Reputation
trusted_by_score [] = []
trusted_by_score ((pid, r) ∷ peers) =
    let rest = trusted_by_score peers in if not r.banned then insert_by_score r rest else rest

abbrev pub top_trusted : ℕ → Peers → List Reputation
top_trusted n peers = take n (trusted_by_score peers)
