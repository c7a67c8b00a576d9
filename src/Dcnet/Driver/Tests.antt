-- ===== src/Dcnet/Driver/Tests.antt =====
-- Runs of dcnet/round_driver.rs on small inputs.
use chrono_shift.Prelude.{ℕ, ◌+◌, ◌≡◌, refl, true, false, none, some, List, [], ◌∷◌, is_ok}
use chrono_shift.Prelude.Keys.{Bytes, bytes_eq, bytes_beq, nat_eq, contains, Distinct}
use chrono_shift.Primitives.{toy_hash, toy_kdf, toy_signer}
use chrono_shift.Dcnet.Tracker
use chrono_shift.Dcnet.Tracker.{RoundTracker}
use chrono_shift.Dcnet.Collector.{RoundCollector, compute_xor_share_secure, mask, add_message}
use chrono_shift.Dcnet.Frame.{pad_message}
use chrono_shift.Dcnet.Messages.{build_round_start}
use chrono_shift.Dcnet.Driver
use chrono_shift.Dcnet.Driver.{RoundContext, RoundDriver, initiate, retry_pending}
use chrono_shift.Dcnet.Driver.Handlers.{RoundStartInfo}
use chrono_shift.Dcnet.Driver.Runs.{Event, handle_all, handle_all-Distinct}

abbrev alice : Bytes
alice = 97 ∷ []

abbrev bob : Bytes
bob = 98 ∷ []

abbrev team : List Bytes
team = alice ∷ bob ∷ []

abbrev as_alice : RoundContext
as_alice = record {
  my_uid = alice;
  signing_key = 1 ∷ [];
  edge_keys = (bob, 9 ∷ []) ∷ [];
  known_keys = [];
}

abbrev as_bob : RoundContext
as_bob = record {
  my_uid = bob;
  signing_key = 2 ∷ [];
  edge_keys = (alice, 9 ∷ []) ∷ [];
  known_keys = [];
}

abbrev start : Event
start = record { now = 100; ctx = as_alice; msg = build_round_start (35 ∷ []) 1 bob team 30 64 }

handle_all-Distinct_example :
    Distinct (handle_all toy_hash toy_kdf toy_signer (start ∷ start ∷ []) Driver.new).1
    × ((id : ℕ)
        → contains (handle_all toy_hash toy_kdf toy_signer (start ∷ start ∷ []) Driver.new).1 id
          ≡ true
        → contains (Driver.new).emitted id ≡ false)
handle_all-Distinct_example =
    handle_all-Distinct toy_hash toy_kdf toy_signer (start ∷ start ∷ []) Driver.new

-- A driver with round 1 in flight and a message queued.
abbrev waiting : RoundDriver
waiting = record {
  tracker = record { current_round_id = 1; message_queue = [] };
  pending_message = some (104 ∷ 105 ∷ []);
  pending_round_id = some 1;
  retries = 2;
  collectors = [];
  emitted = [];
  my_share = some (1 ∷ [], 2 ∷ []);
  my_share_broadcast = false;
  pending_outgoing = [];
  retry_after_peer = none;
}

can_initiate :
    is_ok
      (initiate toy_hash toy_kdf toy_signer 100 as_alice
        (35 ∷ [])
        (104 ∷ 105 ∷ [])
        team
        (record waiting { retries = waiting.retries + 1 })).1
    ≡ true
unfolding initiate compute_xor_share_secure mask add_message pad_message bytes_beq
    Tracker.next_round
can_initiate = refl

abbrev half_full : RoundCollector
half_full = record {
  channel = 35 ∷ [];
  round_id = 1;
  participants = team;
  shares_received = (bob, 1 ∷ 2 ∷ 3 ∷ 4 ∷ []) ∷ [];
  deadline = 130;
  payload_len = 4;
}

abbrev round_one : RoundStartInfo
round_one = record {
  channel = 35 ∷ [];
  round_id = 1;
  leader_id = [];
  participants = team;
  deadline_secs = 30;
  payload_len = 64;
}
