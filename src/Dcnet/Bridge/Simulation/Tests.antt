-- ===== src/Dcnet/Bridge/Simulation/Tests.antt =====
-- Runs of a broadcast in one process on small inputs.
use chrono_shift.Prelude.{◌≡◌, refl, some, false, [], ◌∷◌, arith}
use chrono_shift.Prelude.Keys.{Bytes, bytes_beq}
use chrono_shift.Prelude.Utf8.{is_utf8}
use chrono_shift.Prelude.Floats.{f_ltb, f_leb}
use chrono_shift.Primitives.{toy_hash, toy_dh}
use chrono_shift.Dcnet.Group.{
  DcGroup, new_group, new_participant, new_round, start_round, retain_good, is_malicious,
}
use chrono_shift.Dcnet.Reputation
use chrono_shift.Dcnet.Reputation.{get_or_create, drops_late, drops_often}
use chrono_shift.Dcnet.Bridge.{F2fDcNetBridge, new, uid_to_peer, with_edge_key}
use chrono_shift.Dcnet.Bridge.Simulation.{
  announcement, broadcast_message, next_round_id, standing, sync_each, sync_reputation_to_trust,
}
use chrono_shift.Dcnet.Bridge.Simulation.Delivery.{broadcast_message-delivers}

abbrev alice : Bytes
alice = 97 ∷ []

abbrev bob : Bytes
bob = 98 ∷ 98 ∷ []

abbrev town : Bytes
town = 116 ∷ []

abbrev pair : DcGroup
pair = record (new_group town 2 1) {
  participants =
      new_participant (uid_to_peer toy_hash bob)
      ∷ new_participant (uid_to_peer toy_hash alice)
      ∷ [];
}

abbrev bridge : F2fDcNetBridge
bridge = record (new alice) {
  friends = (bob, with_edge_key toy_hash bob [] 0 (7 ∷ [])) ∷ [];
  channels =
      (
        town,
        record {
          name = town;
          topic = [];
          participants = alice ∷ bob ∷ [];
          round_id = 4;
          running = false;
        },
      )
      ∷ [];
  groups = (town, pair) ∷ [];
}

broadcast_message-delivers_example :
    (broadcast_message toy_hash toy_dh
      (λ t. t)
      7
      ((1 ∷ []) ∷ (2 ∷ []) ∷ [])
      town
      (104 ∷ 105 ∷ [])
      bridge).0
    ≡ some (announcement (next_round_id town bridge) 2 (104 ∷ 105 ∷ []))
unfolding start_round retain_good is_malicious f_ltb next_round_id is_utf8 bytes_beq
broadcast_message-delivers_example =
    broadcast_message-delivers toy_hash toy_dh (λ t. t) 7 1 ((1 ∷ []) ∷ (2 ∷ []) ∷ []) town
      (104 ∷ 105 ∷ []) bridge pair (new_round 7 5 pair.participants 1) refl refl refl refl
      (omega arith) (omega arith) refl (λ t clean. refl)

-- A friend whom the user holds for unverified, and who has no reputation yet, is verified after a
-- broadcast.
unverified_promoted : (sync_reputation_to_trust 7 bridge).0 ≡ (bob, 1) ∷ []
unfolding sync_reputation_to_trust sync_each standing get_or_create drops_late drops_often f_ltb
    f_leb bytes_beq Reputation.is_malicious
unverified_promoted = refl
