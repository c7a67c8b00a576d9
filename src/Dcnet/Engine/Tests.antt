-- ===== src/Dcnet/Engine/Tests.antt =====
-- Runs of the engines on small inputs.
use mathlib.Core.List.Perm
use chrono_shift.Prelude.{none, List, [], ◌∷◌, if◌then◌else◌}
use chrono_shift.Prelude.Keys.{Bytes, ◌=?◌, bytes_eq}
use chrono_shift.Primitives.{toy_verifying_key}
use chrono_shift.Identity.{hex_encode}
use chrono_shift.Dcnet.Driver.{RoundContext}
use chrono_shift.Dcnet.Engine.{RoundEngine}

abbrev alice : Bytes
alice = 97 ∷ []

abbrev bob : Bytes
bob = 98 ∷ []

abbrev carol : Bytes
carol = 99 ∷ []

abbrev members : List Bytes
members = alice ∷ bob ∷ carol ∷ []

abbrev town : Bytes
town = 116 ∷ []

abbrev hi : Bytes
hi = 104 ∷ 105 ∷ []

-- The user `u` has the key 9 for everybody, and the leader knows the key of bob.
abbrev context : Bytes → RoundContext
context u = record {
  my_uid = u;
  signing_key = u;
  edge_keys = (alice, 9 ∷ []) ∷ (bob, 9 ∷ []) ∷ (carol, 9 ∷ []) ∷ [];
  known_keys = (bob, hex_encode (toy_verifying_key bob)) ∷ [];
}

abbrev engine : Bytes → RoundEngine
engine u = record {
  tracker = record { current_round_id = 4; message_queue = if u =? bob then hi ∷ [] else [] };
  collectors = [];
  my_uid = u;
  leader_uid = none;
}
