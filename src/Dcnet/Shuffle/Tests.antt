-- ===== src/Dcnet/Shuffle/Tests.antt =====
-- Runs of the shuffle on small inputs.
use chrono_shift.Prelude.{◌≡◌, refl, some, none, List, [], ◌∷◌, replicate, arith}
use chrono_shift.Prelude.Keys.{bytes_beq}
use chrono_shift.Primitives.{toy_hash, toy_aead, toy_aead-Encrypts}
use chrono_shift.Dcnet.Shuffle.{
  ShuffleCommitment, BlameVerdict, new, find_cheater, check_cheating, check_attendance,
}
use chrono_shift.Dcnet.Shuffle.Honest.{Submission, submit_all, find_cheater-submit_all}

abbrev submissions : List Submission
submissions =
    record { key = 1 ∷ []; nonce = replicate 12 5; node_id = 7 ∷ []; message = 72 ∷ 105 ∷ [] }
    ∷ record { key = 2 ∷ []; nonce = replicate 12 6; node_id = 8 ∷ []; message = [] }
    ∷ []

find_cheater-submit_all_example :
    (c : ShuffleCommitment) × (submit_all toy_aead toy_hash submissions (new 4 2) ≡ some c)
    × (find_cheater toy_aead toy_hash c ≡ none)
    × (check_cheating toy_aead toy_hash c ≡ [])
find_cheater-submit_all_example =
    find_cheater-submit_all toy_aead toy_hash 4 2 submissions toy_aead-Encrypts (omega arith)
      (omega arith)

absent_node :
    check_attendance ((7 ∷ []) ∷ (8 ∷ []) ∷ []) ((8 ∷ []) ∷ []) ≡ BlameVerdict.offline (7 ∷ []) ∷ []
unfolding check_attendance bytes_beq
absent_node = refl
