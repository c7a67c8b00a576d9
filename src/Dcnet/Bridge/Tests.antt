-- ===== src/Dcnet/Bridge/Tests.antt =====
-- Runs of a bridge on small inputs.
use chrono_shift.Prelude.{inl, ◌≡◌, refl, some, none, List, [], ◌∷◌, arith}
use chrono_shift.Prelude.Keys.{Bytes, bytes_beq, bytes_eq}
use chrono_shift.Prelude.Dict.{lookup}
use chrono_shift.Primitives.{toy_hash}
use chrono_shift.Storage.{
  Write, Fate, WalStore, append, checkpoint, should_checkpoint, open_store, log_line, decimal,
  decimal_from,
}
use chrono_shift.Storage.ToyJson.{toy_json, to_json, letters, numbers}
use chrono_shift.Dcnet.Bridge.{
  F2fDcNetBridge, Env, new, attach_wal, with_edge_key, create_channel_no_log, join_channel_no_log,
  join_each, join_one,
}
use chrono_shift.Dcnet.Bridge.Saving.{snapshot_bridge}
use chrono_shift.Dcnet.Bridge.Logging.{
  checkpoint_wal, log_wal, add_friend, create_channel, join_channel, log_joins, logs_join,
}
use chrono_shift.Dcnet.Bridge.View.{view}
use chrono_shift.Dcnet.Bridge.Calls.{BridgeCall, logged, call}
use chrono_shift.Dcnet.Bridge.Recovery.{restart, run, all_logged, restart-run}
use chrono_shift.Dcnet.Bridge.Checkpoint.{restart-checkpoint_wal}
use chrono_shift.Dcnet.Bridge.Lost.{add_friend_lost}

abbrev alice : Bytes
alice = 97 ∷ []

abbrev bob : Bytes
bob = 98 ∷ []

abbrev town : Bytes
town = 116 ∷ []

abbrev calm : Env
calm = record { stamp = 4; now = 1; fresh = 7 ∷ 7 ∷ []; write = Write.whole; fate = Fate.finished }

-- A bridge with a friend and a channel, and no log.
abbrev alone_with_bob : F2fDcNetBridge
alone_with_bob = record (new alice) {
  friends = (bob, with_edge_key toy_hash bob [] 5 (7 ∷ [])) ∷ [];
}

abbrev with_bob : F2fDcNetBridge
with_bob = (create_channel_no_log toy_hash town alone_with_bob).1

-- The same with a log.
abbrev logging : F2fDcNetBridge
logging = attach_wal (open_store 0 100 [] none) with_bob

abbrev full : WalStore
full = record {
  log = [];
  state = none;
  ops_since_checkpoint = 99;
  last_checkpoint = 0;
  checkpoint_ops = 100;
}

abbrev emptied : WalStore
emptied = record {
  log = [];
  state = some (snapshot_bridge (new alice));
  ops_since_checkpoint = 0;
  last_checkpoint = 1;
  checkpoint_ops = 100;
}

-- The hundredth operation.
add_friend_lost_example :
    (lookup bob
        (add_friend toy_hash toy_json calm bob [] 2
          (record (new alice) { wal = some full })).friends
      ≡ some (with_edge_key toy_hash bob [] 2 (7 ∷ 7 ∷ [])))
    × (lookup bob (restart toy_hash toy_json 9 (λ n. n ∷ []) alice emptied).friends ≡ none)
unfolding add_friend log_wal append should_checkpoint checkpoint snapshot_bridge
add_friend_lost_example =
    add_friend_lost toy_hash toy_json calm bob [] 2 (record (new alice) { wal = some full }) full
      emptied 9 (λ n. n ∷ []) alice refl (inl (omega arith)) refl refl refl refl

abbrev calls : List (Env × BridgeCall)
calls =
    (calm, BridgeCall.add_friend_call bob [] 2)
    ∷ (calm, BridgeCall.create_channel_call town)
    ∷ (calm, BridgeCall.join_channel_call town (bob ∷ []))
    ∷ []

abbrev started : F2fDcNetBridge
started = attach_wal (open_store 0 100 [] none) (new alice)

abbrev left_over : WalStore
unfolding run call add_friend create_channel join_channel log_joins logs_join log_wal append
    log_line to_json letters numbers decimal decimal_from should_checkpoint create_channel_no_log
    join_channel_no_log toy_json join_each join_one
left_over = elim (run toy_hash toy_json calls started).wal [
  | none ↦ open_store 0 100 [] none
  | some wal ↦ wal
]

restart-run_example :
    view (restart toy_hash toy_json 9 (λ n. n ∷ []) alice left_over)
    ≡ view (run toy_hash toy_json calls started)
unfolding run call add_friend create_channel join_channel log_joins logs_join log_wal append
    log_line to_json letters numbers decimal decimal_from should_checkpoint create_channel_no_log
    join_channel_no_log toy_json join_each join_one left_over all_logged logged bytes_beq
restart-run_example =
    restart-run toy_hash toy_json alice 0 calls left_over 9 (λ n. n ∷ []) refl
      ((refl, omega arith), ((refl, omega arith), ((refl, omega arith), tt))) (omega arith)
      (omega arith)

-- What is on the disk after a checkpoint at the end of the same calls.
abbrev saved : WalStore
saved = record {
  log = [];
  state = some (snapshot_bridge (run toy_hash toy_json calls started));
  ops_since_checkpoint = 0;
  last_checkpoint = 1;
  checkpoint_ops = 100;
}

restart-checkpoint_wal_example :
    view (restart toy_hash toy_json 9 (λ n. n ∷ []) bob saved)
    ≡ view (run toy_hash toy_json calls started)
unfolding run call add_friend create_channel join_channel log_joins logs_join log_wal append
    log_line to_json letters numbers decimal decimal_from should_checkpoint create_channel_no_log
    join_channel_no_log toy_json join_each join_one bytes_beq checkpoint_wal checkpoint
    snapshot_bridge
restart-checkpoint_wal_example =
    restart-checkpoint_wal toy_hash toy_json alice bob (open_store 0 100 [] none) saved calls calm 9
      (λ n. n ∷ []) refl refl
