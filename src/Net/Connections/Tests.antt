-- ===== src/Net/Connections/Tests.antt =====
-- Runs of net/connection_manager.rs on small inputs.
use chrono_shift.Prelude.{◌≡◌, ◌⊎◌, refl, true, some, List, [], ◌∷◌}
use chrono_shift.Prelude.Keys.{Bytes, bytes_eq, bytes_beq}
use chrono_shift.Uid.{validate_uid}
use chrono_shift.Net.Message.{PeerMessage}
use chrono_shift.Net.Connections
use chrono_shift.Net.Connections.{
  ConnectionManager, forward, extract_uid, allowed_unauthenticated, is_relay, starts_with, peer_at,
  accept_slot,
}
use chrono_shift.Net.Connections.Table.{TableEvent, connection_to, table_run, table_run-Spares}
use chrono_shift.Net.Connections.Inbound.{
  IsKeepalive, IsRelayed, Names, forward_bound, SlotStep, SlotsReached,
}

abbrev bob : Bytes
bob = 98 ∷ []

abbrev hello : PeerMessage
hello = PeerMessage.channel_message (35 ∷ []) bob (104 ∷ 105 ∷ [])

forwarded : forward bob true (49 ∷ []) hello ≡ some (bob, hello)
unfolding forward extract_uid validate_uid bytes_beq
forwarded = refl

forward_bound_example :
    (bob ≡ bob)
    × (hello ≡ hello)
    × (validate_uid (extract_uid hello (49 ∷ [])) ≡ true)
    × ((claimed : Bytes) → Names hello claimed → extract_uid hello (49 ∷ []) ≡ claimed)
    × ((true ≡ true) ⊎ IsKeepalive hello)
    × ((extract_uid hello (49 ∷ []) ≡ bob)
        ⊎ (((rest : Bytes) × (extract_uid hello (49 ∷ []) ≡ 112 ∷ 101 ∷ 101 ∷ 114 ∷ 64 ∷ rest))
            ⊎ IsRelayed hello))
forward_bound_example = forward_bound bob true (49 ∷ []) hello bob hello forwarded

two_served : SlotsReached (2, 2)
unfolding accept_slot
two_served =
    SlotsReached.later (SlotsReached.later SlotsReached.start (SlotStep.served 0 0 refl))
      (SlotStep.served 1 1 refl)

abbrev with_bob : ConnectionManager
with_bob = record (Connections.new 9000) {
  active_connections = (bob, record { queue = []; conn_id = 7 }) ∷ [];
  next_conn_id = 8;
}

-- An older connection to the same peer is cleaned up late; another peer comes; a message goes out.
abbrev meanwhile : List TableEvent
meanwhile =
    TableEvent.cleaned bob 6 ∷ TableEvent.opened (97 ∷ []) [] true ∷ TableEvent.sent bob hello ∷ []

table_run-Spares_example : connection_to bob (table_run (λ msg. []) meanwhile with_bob) ≡ some 7
unfolding bytes_beq
table_run-Spares_example =
    table_run-Spares (λ msg. []) meanwhile bob 7 with_bob refl (refl, (refl, (tt, tt)))
