-- ===== src/Dcnet/Reputation/Tests.antt =====
-- Runs of the reputation of peers on small inputs.
use chrono_shift.Prelude.{Bool, ℕ, zero, suc, ◌≡◌, refl, true, some, none, [], ◌∷◌, if◌then◌else◌}
use chrono_shift.Prelude.Keys.{Bytes, bytes_eq, bytes_beq, contains}
use chrono_shift.Prelude.Dict.{lookup}
use chrono_shift.Prelude.Floats.{
  f_add, f_mul, f_min, f_ltb, f_leb, f_div, of_nat, round, shift_right, bit_length,
}
use chrono_shift.Dcnet.Reputation.{
  Reputation, Peers, new_reputation, reward, penalize, ban, is_malicious, drops_late, drops_often,
  reverse, count_late, trust_level, get_or_create, judge, process_round, banned_count,
}
use chrono_shift.Dcnet.Reputation.Judged.{entry, those}
use chrono_shift.Dcnet.Reputation.Rounds.{
  Round, Verdict, process_all, process_round_lem, process_all_bans,
}

abbrev alice : Bytes
alice = 1 ∷ []

abbrev bob : Bytes
bob = 2 ∷ []

abbrev times : ℕ → (Reputation → Reputation) → Reputation → Reputation
times zero f r = r
times (suc n) f r = times n f (f r)

-- Eleven drops and then ten rounds: malicious by the share of drops, at a score above 0.5.
abbrev back_again : Reputation
back_again = times 10 reward (times 11 (penalize 10) (new_reputation 0 alice))

levels_differ : (is_malicious back_again ≡ true) × (trust_level back_again ≡ 1)
unfolding is_malicious trust_level drops_late drops_often reverse count_late f_add f_mul f_min f_ltb
    f_leb f_div of_nat round shift_right bit_length
levels_differ = (refl, refl)

-- Three late drops in a row.
abbrev late : Round
late = record { now = 0; responded = alice ∷ []; all = alice ∷ bob ∷ []; round_pct = 90 }

late_banned : banned_count (process_all (late ∷ late ∷ late ∷ []) []) ≡ 1
unfolding banned_count process_all process_round get_or_create judge is_malicious drops_late
    drops_often reverse count_late f_add f_mul f_min f_ltb f_div of_nat round shift_right bit_length
    bytes_beq
late_banned = refl

process_round_lem_example :
    (verdict : Bytes → Bool × Reputation) × ((q : Bytes)
      → Verdict (alice ∷ []) 90 q (entry 0 [] q) (verdict q))
    × ((process_round 0 (alice ∷ []) (alice ∷ bob ∷ []) 90 []).0
        ≡ those (λ q. (verdict q).0) (alice ∷ bob ∷ []))
    × ((q : Bytes)
        → lookup q (process_round 0 (alice ∷ []) (alice ∷ bob ∷ []) 90 []).1
          ≡ (if contains (alice ∷ bob ∷ []) q then some (verdict q).1 else none))
process_round_lem_example =
    process_round_lem 0 (alice ∷ []) (alice ∷ bob ∷ []) 90 []
      (unfold bytes_beq in (refl, (refl, tt)))

abbrev with_bob : Peers
with_bob = (bob, ban (new_reputation 0 bob)) ∷ []

process_all_bans_example :
    (r : Reputation) × (lookup bob (process_all (late ∷ late ∷ []) with_bob) ≡ some r)
    × (is_malicious r ≡ true)
    × (trust_level r ≡ 0)
process_all_bans_example =
    process_all_bans (late ∷ late ∷ []) with_bob bob
      (unfold bytes_beq in ((refl, (refl, tt)), ((refl, (refl, tt)), tt)))
      (ban (new_reputation 0 bob), unfold bytes_beq in refl, refl)
