-- ===== src/Dcnet/Engine/Round.antt =====
-- round_engine.rs: one round, from the leader that starts it to the members that hear the message.
use chrono_shift.Prelude.{ℕ, ◌+◌, ◌%◌, ◌^◌, ◌≡◌, some, List}
use chrono_shift.Prelude.Keys.{Bytes, bytes_eq, nat_eq}
use chrono_shift.Primitives.{Hash, Kdf, Signer}
use chrono_shift.Net.Message.{PeerMessage}
use chrono_shift.Dcnet.Messages.{build_round_start}
use chrono_shift.Dcnet.Collector
use chrono_shift.Dcnet.Collector.{
  RoundCollector, SubmitError, is_complete, extract_message, compute_xor_share_secure,
}
use chrono_shift.Dcnet.Tracker.{dequeue_message}
use chrono_shift.Dcnet.Broadcast.Delivery.{message_of}
use chrono_shift.Dcnet.Driver.{RoundContext}
use chrono_shift.Dcnet.Engine.{RoundEngine, default_payload_len}

-- An engine of this user, at this round, whose next message is the sender's, or none.
pub record Party (n : ℕ) (sender msg : Bytes) (engine : Bytes → RoundEngine) (u : Bytes)
    : Type 0 where
  pub own : (engine u).my_uid ≡ u
  pub counted : (engine u).tracker.current_round_id ≡ n
  pub waiting : (dequeue_message (engine u).tracker).1 ≡ message_of sender msg u

module _ (h : Hash) (kdf : Kdf) (signer : Signer) (n : ℕ) (channel leader sender msg : Bytes)
    (ctx : Bytes → RoundContext) (engine : Bytes → RoundEngine) (ps : List Bytes) where
  abbrev round_id : ℕ
  round_id = (n + 1) % 2 ^ 64

  abbrev start : PeerMessage
  start = build_round_start channel round_id leader ps 30 default_payload_len

  abbrev sk : Bytes → Bytes
  sk u = (ctx u).signing_key

  abbrev Computes : (Bytes → Bytes) → Bytes → Type 0
  Computes shares u =
      compute_xor_share_secure h kdf round_id u ps (message_of sender msg u) default_payload_len
        (ctx u).edge_keys
      ≡ some (shares u)

  abbrev fresh : ℕ → RoundCollector
  fresh now = Collector.new now channel round_id ps 30 default_payload_len
