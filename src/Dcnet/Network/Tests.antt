-- ===== src/Dcnet/Network/Tests.antt =====
-- Runs of dcnet/network.rs on a network of three.
use chrono_shift.Prelude.{ℕ, ◌<◌, ◌≡◌, refl, true, false, [], ◌∷◌, ok, length}
use chrono_shift.Prelude.Keys.{Bytes, bytes_eq, bytes_beq}
use chrono_shift.Pgp.Trust.{TrustLevel, below}
use chrono_shift.Dcnet.Network
use chrono_shift.Dcnet.Network.{
  DcNetwork, invite_member, accept_join, is_member, has_pending_invite,
}
use chrono_shift.Dcnet.Network.Invariant.{
  IsValid, Step, Reachable, Reachable-IsValid, new_member_accepted,
}
use chrono_shift.Dcnet.Network.Rotation.{rotations, rotation_reaches}

abbrev alice : Bytes
alice = 97 ∷ []

abbrev bob : Bytes
bob = 98 ∷ []

abbrev alone : DcNetwork
alone = Network.new 100 (110 ∷ []) alice

abbrev inviting : DcNetwork
inviting = record alone { pending_invites = (bob, alice) ∷ [] }

abbrev both : DcNetwork
both = record alone { members = alice ∷ bob ∷ []; member_join_order = alice ∷ bob ∷ [] }

invited : Step alone inviting
unfolding invite_member bytes_beq
invited = Step.invited bob alice refl

bob_joined : Step inviting both
unfolding accept_join bytes_beq
bob_joined = Step.joined bob TrustLevel.marginal refl

both_reached : Reachable both
both_reached =
    Reachable.later (Reachable.later (Reachable.created 100 (110 ∷ []) alice) invited) bob_joined

Reachable-IsValid_example : IsValid both
Reachable-IsValid_example = Reachable-IsValid both_reached

new_member_accepted_example :
    (has_pending_invite bob inviting ≡ true)
    × (level : TrustLevel) × (below level inviting.min_trust ≡ false)
    × (accept_join bob level inviting ≡ ok both)
unfolding bytes_beq
new_member_accepted_example = new_member_accepted bob bob_joined refl refl

rotation_reaches_example :
    (n : ℕ) × (n < length both.members) × ((rotations n both).current_leader ≡ bob)
unfolding bytes_beq
rotation_reaches_example = rotation_reaches both bob (Reachable-IsValid both_reached) refl
