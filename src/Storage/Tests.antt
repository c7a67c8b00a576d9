-- ===== src/Storage/Tests.antt =====
-- Runs of the write-ahead log on small inputs.
use chrono_shift.Prelude.{ℕ, ◌≡◌, refl, none, List, [], ◌∷◌, arith}
use chrono_shift.Storage.{
  WalOperation, Write, append, replay, open_store, log_line, decimal, decimal_from, lines_of,
}
use chrono_shift.Storage.Replay.{append_all, operations, replay-append_all}
use chrono_shift.Storage.ToyJson.{toy_json, to_json, letters, numbers}

decimal_1205 : decimal 1205 ≡ 49 ∷ 50 ∷ 48 ∷ 53 ∷ []
unfolding decimal decimal_from
decimal_1205 = refl

lines :
    lines_of (97 ∷ 10 ∷ 10 ∷ 98 ∷ 13 ∷ 10 ∷ 99 ∷ []) ≡ (97 ∷ []) ∷ [] ∷ (98 ∷ []) ∷ (99 ∷ []) ∷ []
unfolding lines_of
lines = refl

abbrev two_ops : List (ℕ × WalOperation)
two_ops = (5, WalOperation.set_uid (1 ∷ [])) ∷ (6, WalOperation.create_channel (7 ∷ [])) ∷ []

abbrev third : WalOperation
third = WalOperation.remove_friend (9 ∷ [])

-- The third is cut off after four bytes.
replay-append_all_example :
    (replay toy_json (append_all toy_json two_ops (open_store 0 100 [] none))
      ≡ operations toy_json two_ops)
    × (replay toy_json
          (append toy_json 7
            (Write.partial 4)
            third
            (append_all toy_json two_ops (open_store 0 100 [] none))).1
        ≡ operations toy_json two_ops)
unfolding toy_json to_json letters numbers log_line decimal decimal_from append append_all
replay-append_all_example =
    replay-append_all toy_json two_ops 0 100 7 4 third (omega arith) (omega arith)
