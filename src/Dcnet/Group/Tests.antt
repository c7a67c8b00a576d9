-- ===== src/Dcnet/Group/Tests.antt =====
-- Runs of a group on small inputs.
use chrono_shift.Prelude.{ℕ, ◌≡◌, refl, true, List, [], ◌∷◌}
use chrono_shift.Prelude.Keys.{Bytes, bytes_beq}
use chrono_shift.Prelude.Floats.{
  f_add, f_mul, f_min, f_ltb, f_div, of_nat, round, shift_right, bit_length, f_one, f_0_7, f_half,
}
use chrono_shift.Dcnet.Group.{
  DcRound, Participant, new_participant, new_group, new_round, is_malicious, join, reform,
  start_round, finish_round_with, mark_each, mark_dropouts, remove_malicious, retain_good,
  malicious_ids, has_peer, without_peer, absorb_first, write_back,
}
use chrono_shift.Dcnet.Group.Calls.{GroupCall, call_all}

-- 1.0 * 0.7 is the number nearest to 0.7, and 0.7 * 0.7 the one next to 0.49.
drop_once : f_mul f_one f_0_7 ≡ f_0_7
unfolding f_mul round shift_right bit_length
drop_once = refl

drop_twice : f_mul f_0_7 f_0_7 ≡ record { mant = 8827055269646171; exp = 54 }
unfolding f_mul round shift_right bit_length
drop_twice = refl

quotient : f_ltb f_half (f_div (of_nat 11) (of_nat 21)) ≡ true
unfolding f_ltb f_div of_nat round shift_right bit_length
quotient = refl

abbrev alice : Bytes
alice = 1 ∷ []

abbrev bob : Bytes
bob = 2 ∷ []

abbrev carol : Bytes
carol = 3 ∷ []

abbrev round_with : ℕ → List GroupCall → List GroupCall
round_with n rest = GroupCall.start_call 0 n ∷ GroupCall.finish_with_call (alice ∷ []) ∷ rest

-- Three members, of whom one responds in three rounds.
abbrev calls : List GroupCall
calls =
    GroupCall.join_call alice
    ∷ GroupCall.join_call bob
    ∷ GroupCall.join_call carol
    ∷ round_with 1 (round_with 2 (round_with 3 []))

abbrev ids : List Participant → List Bytes
ids [] = []
ids (p ∷ ps) = p.peer_id ∷ ids ps

dropouts_evicted : ids (call_all calls (new_group [] 2 1)).participants ≡ alice ∷ []
unfolding call_all join start_round finish_round_with mark_each mark_dropouts remove_malicious
    retain_good malicious_ids reform has_peer without_peer absorb_first write_back is_malicious
    f_ltb f_mul f_add f_min round shift_right bit_length bytes_beq
dropouts_evicted = refl

-- A member joins in the middle of the round.
abbrev running : List GroupCall
running =
    GroupCall.join_call alice
    ∷ GroupCall.join_call bob
    ∷ GroupCall.start_call 0 1
    ∷ GroupCall.join_call carol
    ∷ []

abbrev round_one : DcRound
round_one = new_round 0 1 (new_participant alice ∷ new_participant bob ∷ []) 1
