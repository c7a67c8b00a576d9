-- ===== src/Dcnet/Reputation/Rounds.antt =====
-- A round of a `ReputationManager`, peer by peer.
use chrono_shift.Prelude.{
  ℕ, ◌+◌, ◌%◌, ◌^◌, ◌++◌, ◌≡◌, refl, ap, ◌∙◌, Bool, true, false, none, some, List, [], ◌∷◌, arith,
  if◌then◌else◌, Bool-cases, inl, inr, All,
}
use chrono_shift.Prelude.Keys.{Bytes, bytes_eq, contains, Distinct}
use chrono_shift.Prelude.Dict.{lookup}
use chrono_shift.Prelude.Floats.{f_zero, f_one, f_0_05, f_0_7, f_add, f_mul, f_min}
use chrono_shift.Dcnet.Reputation.Judged.{entry, those, named_of-those, process_round-judge}
use chrono_shift.Dcnet.Reputation.{
  Reputation, Peers, new_reputation, judge, process_round, is_malicious, trust_level,
}

-- An entry after a drop.
abbrev pub dropped : ℕ → Reputation → Reputation
dropped round_pct r = record r {
  rounds_total = (r.rounds_total + 1) % 2 ^ 64;
  rounds_dropped = (r.rounds_dropped + 1) % 2 ^ 64;
  consecutive_drops = (r.consecutive_drops + 1) % 2 ^ 32;
  drop_timing_pct = r.drop_timing_pct ++ round_pct ∷ [];
  score = f_mul r.score f_0_7;
}

-- What a round is to make of the entry of a member, and whether it names it.
pub data Verdict (responded : List Bytes) (round_pct : ℕ) (pid : Bytes) (r : Reputation)
    : Bool × Reputation → Type 0 where
  rewarded :
      contains responded pid ≡ true
      → Verdict responded round_pct pid r (
        false,
        record r {
          rounds_total = (r.rounds_total + 1) % 2 ^ 64;
          consecutive_drops = 0;
          score = f_min (f_add r.score f_0_05) f_one;
        },
      )
  penalized :
      contains responded pid ≡ false
      → is_malicious (dropped round_pct r) ≡ false
      → Verdict responded round_pct pid r (false, dropped round_pct r)
  expelled :
      contains responded pid ≡ false
      → is_malicious (dropped round_pct r) ≡ true
      → Verdict responded round_pct pid r
          (true, record (dropped round_pct r) { banned = true; score = f_zero })

judge-Verdict :
    (responded : List Bytes) (round_pct : ℕ) (pid : Bytes) (r : Reputation)
    → Verdict responded round_pct pid r (judge responded round_pct pid r)
unfolding judge
judge-Verdict responded round_pct pid r = elim (Bool-cases (contains responded pid)) [
  | inl here ↦ rw (judge, here) (Verdict.rewarded here)
  | inr away ↦ elim (Bool-cases (is_malicious (dropped round_pct r))) [
    | inl worse ↦ rw (judge, away, worse) (Verdict.expelled away worse)
    | inr still ↦ rw (judge, away, still) (Verdict.penalized away still)
  ]
]

-- In a round of distinct members, each who responded gains 0.05 up to 1 and loses its run of
-- drops; each other is counted a drop at this time and keeps 0.7 of its score, and is banned at
-- score 0 if this makes it malicious. Each is judged by its own entry, a new one where there was
-- none; exactly those that are banned so are named, in the order of the members, and other peers
-- keep their entries.
pub process_round_lem :
    (now : ℕ) (responded all : List Bytes) (round_pct : ℕ) (peers : Peers)
    → Distinct all
    → (verdict : Bytes → Bool × Reputation) × ((q : Bytes)
        → Verdict responded round_pct q (entry now peers q) (verdict q))
      × ((process_round now responded all round_pct peers).0 ≡ those (λ q. (verdict q).0) all)
      × ((q : Bytes)
          → lookup q (process_round now responded all round_pct peers).1
            ≡ (if contains all q then some (verdict q).1 else lookup q peers))
process_round_lem now responded all round_pct peers distinct =
    let (named, looked) = process_round-judge now responded all round_pct peers distinct in
    (
      λ q. judge responded round_pct q (entry now peers q),
      λ q. judge-Verdict responded round_pct q (entry now peers q),
      named ∙ named_of-those now responded all round_pct (entry now peers),
      looked,
    )

abbrev pub IsBanned : Bytes → Peers → Type 0
IsBanned q peers = (r : Reputation) × (lookup q peers ≡ some r) × (r.banned ≡ true)

pub record Round : Type 0 where
  pub now : ℕ
  pub responded : List Bytes
  pub all : List Bytes
  pub round_pct : ℕ

unfoldable pub process_all : List Round → Peers → Peers
process_all [] peers = peers
process_all (r ∷ rs) peers =
    process_all rs (process_round r.now r.responded r.all r.round_pct peers).1

judge_banned :
    (responded : List Bytes) (pct : ℕ) (q : Bytes) (r : Reputation)
    → r.banned ≡ true
    → (judge responded pct q r).1.banned ≡ true
unfolding judge
judge_banned responded pct q r h = ground arith

process_round_bans :
    (now : ℕ) (responded all : List Bytes) (round_pct : ℕ) (peers : Peers) (q : Bytes)
    → Distinct all
    → IsBanned q peers
    → IsBanned q (process_round now responded all round_pct peers).1
process_round_bans now responded all round_pct peers q d (r, known, banned) =
    let looked = (process_round-judge now responded all round_pct peers d).1 q in
    elim (Bool-cases (contains all q)) [
      | inr outside ↦ (
        r,
        looked
            ∙ ap
                (λ b.
                  if b
                  then some (judge responded round_pct q (entry now peers q)).1
                  else lookup q peers)
                outside
            ∙ known,
        banned,
      )
      | inl inside ↦ (
        (judge responded round_pct q r).1,
        looked
            ∙ ap
                (λ b.
                  if b
                  then some (judge responded round_pct q (entry now peers q)).1
                  else lookup q peers)
                inside
            ∙ ap
                (λ o.
                  some
                    (judge responded round_pct q
                      (elim o [ none ↦ new_reputation now q | some x ↦ x ])).1)
                known,
        judge_banned responded round_pct q r banned,
      )
    ]

-- Once a peer is banned, no rounds of distinct members that follow, whoever responds in them,
-- bring it back: it stays banned, is malicious, and has trust 0.
pub process_all_bans :
    (rs : List Round) (peers : Peers) (q : Bytes)
    → All (λ r. Distinct r.all) rs
    → IsBanned q peers
    → (r : Reputation) × (lookup q (process_all rs peers) ≡ some r)
      × (is_malicious r ≡ true)
      × (trust_level r ≡ 0)
unfolding process_all is_malicious trust_level
process_all_bans [] peers q d (r, known, banned) =
    (r, known, rw (is_malicious, banned) refl, rw (trust_level, banned) refl)
process_all_bans (r ∷ rs) peers q d banned =
    process_all_bans rs (process_round r.now r.responded r.all r.round_pct peers).1 q d.1
      (process_round_bans r.now r.responded r.all r.round_pct peers q d.0 banned)
