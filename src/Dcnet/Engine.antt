-- ===== src/Dcnet/Engine.antt =====
-- round_engine.rs: rounds with a leader, who collects the shares and sends the result. The clock is an
-- argument.
pub mod Delivery
pub mod Round
mod Tests
use chrono_shift.Prelude.{
  ℕ, Bool, true, false, not, ◌||◌, Option, none, some, List, [], ◌∷◌, ok, err, if◌then◌else◌,
}
use chrono_shift.Prelude.Keys.{Bytes, bytes_eq, nat_eq}
use chrono_shift.Prelude.Dict.{Dict, lookup, insert, remove}
use chrono_shift.Prelude.Utf8.{is_utf8}
use chrono_shift.Primitives.{Hash, Kdf, Signer}
use chrono_shift.Net.Message.{PeerMessage}
use chrono_shift.Dcnet.Frame.{unpad_message}
use chrono_shift.Dcnet.Messages.{sign_share, build_round_start, build_round_share}
use chrono_shift.Dcnet.Collector
use chrono_shift.Dcnet.Collector.{
  RoundCollector, submit_share, is_complete, is_expired, extract_message, compute_xor_share_secure,
}
use chrono_shift.Dcnet.Tracker
use chrono_shift.Dcnet.Tracker.{RoundTracker, next_round, mark_seen, dequeue_message}
use chrono_shift.Dcnet.Driver.{RoundContext, Outgoing}
use chrono_shift.Dcnet.Driver.Handlers.{RoundStartInfo, submitted_or_same, signature_accepted}

abbrev pub default_payload_len : ℕ
default_payload_len = 1024

pub record RoundEngine : Type 0 where
  pub tracker : RoundTracker
  pub collectors : Dict ℕ RoundCollector
  pub my_uid : Bytes
  pub leader_uid : Option Bytes

pub data RoundEvent : Type 0 where
  message_received : (channel text : Bytes) (round_id : ℕ) → RoundEvent
  message_extracted : (channel text : Bytes) (round_id : ℕ) → RoundEvent

-- What a message leads to: an event, and messages.
abbrev pub Handled : Type 0
Handled = (Option RoundEvent × Outgoing) × RoundEngine

unfoldable pub new : Bytes → RoundEngine
new my_uid = record { tracker = Tracker.new; collectors = []; my_uid = my_uid; leader_uid = none }

abbrev pub queue_message : Bytes → RoundEngine → RoundEngine
queue_message text e = record e { tracker = Tracker.queue_message text e.tracker }

abbrev pub to_each : PeerMessage → List Bytes → Outgoing
to_each msg [] = []
to_each msg (uid ∷ uids) = (uid, msg) ∷ to_each msg uids

-- `from_utf8(..)`, or "(binary data)".
abbrev pub text_or_binary : Bytes → Bytes
text_or_binary bytes =
    if is_utf8 bytes
    then bytes
    else 40 ∷ 98 ∷ 105 ∷ 110 ∷ 97 ∷ 114 ∷ 121 ∷ 32 ∷ 100 ∷ 97 ∷ 116 ∷ 97 ∷ 41 ∷ []

abbrev pub result_message : Bytes → ℕ → Bytes → PeerMessage
result_message channel round_id payload = PeerMessage.dc_round_result channel round_id payload []

module _ (h : Hash) (kdf : Kdf) where
  unfoldable pub start_round_as_leader :
      ℕ → RoundContext → Bytes → List Bytes → RoundEngine → Outgoing × RoundEngine
  start_round_as_leader now ctx channel participants e =
      let (counted, round_id) = next_round e.tracker in
      let (tracker, message) = dequeue_message counted in
      let fresh = Collector.new now channel round_id participants 30 default_payload_len in
      let collector : RoundCollector =
        elim (compute_xor_share_secure h kdf round_id e.my_uid participants message
          default_payload_len ctx.edge_keys) [
            | none ↦ fresh
            | some share ↦ submitted_or_same e.my_uid share fresh
          ] in
      (
        to_each (build_round_start channel round_id e.my_uid participants 30 default_payload_len)
            participants,
        record e { tracker = tracker; collectors = insert round_id collector e.collectors },
      )

  unfoldable pub handle_round_result :
      Bytes → ℕ → Bytes → RoundEngine → Option RoundEvent × RoundEngine
  handle_round_result channel round_id extracted_message e =
      elim (unpad_message h extracted_message) [
        | none ↦ (none, e)
        | some bytes ↦ (
          some (message_received channel (text_or_binary bytes) round_id),
          record e { tracker = (mark_seen round_id e.tracker).0 },
        )
      ]

  -- A share that the collector took.
  unfoldable pub round_closed : ℕ → Bytes → ℕ → RoundCollector → RoundEngine → Handled
  round_closed now channel round_id collector e =
      let kept = record e { collectors = insert round_id collector e.collectors } in
      let removed = record e { collectors = remove round_id e.collectors } in
      if not (is_complete collector || is_expired now collector)
      then ((none, []), kept)
      else elim (extract_message collector) [
        | none ↦ ((none, []), kept)
        | some payload ↦ elim (unpad_message h payload) [
          | none ↦ ((none, []), removed)
          | some bytes ↦ (
            (
              some (message_extracted channel (text_or_binary bytes) round_id),
              to_each (result_message channel round_id payload) collector.participants,
            ),
            removed,
          )
        ]
      ]

  module _ (signer : Signer) where
    unfoldable pub handle_round_start : RoundContext → RoundStartInfo → RoundEngine → Handled
    handle_round_start ctx info e =
        let (seen, accepted) = mark_seen info.round_id e.tracker in
        let (tracker, message) = dequeue_message seen in
        let joined = record e { tracker = tracker; leader_uid = some info.leader_id } in
        if not accepted
        then ((none, []), record e { tracker = seen })
        else elim (compute_xor_share_secure h kdf info.round_id e.my_uid info.participants message
            info.payload_len ctx.edge_keys) [
              | none ↦ ((none, []), joined)
              | some share ↦ (
                (
                  none,
                  (
                    info.leader_id,
                    build_round_share info.channel info.round_id e.my_uid share
                        (sign_share signer ctx.signing_key info.channel info.round_id share),
                  )
                      ∷ [],
                ),
                joined,
              )
            ]

    unfoldable pub handle_round_share :
        ℕ → RoundContext → Bytes → ℕ → Bytes → Bytes → Bytes → RoundEngine → Handled
    handle_round_share now ctx channel round_id peer_uid share signature e =
        if not (signature_accepted h kdf signer ctx channel round_id peer_uid share signature)
        then ((none, []), e)
        else elim (lookup round_id e.collectors) [
          | none ↦ ((none, []), e)
          | some collector ↦ elim (submit_share peer_uid share collector) [
            | err error ↦ ((none, []), e)
            | ok collector' ↦ round_closed now channel round_id collector' e
          ]
        ]

    unfoldable pub handle_incoming : ℕ → RoundContext → PeerMessage → RoundEngine → Handled
    handle_incoming now ctx
          (PeerMessage.dc_round_start channel round_id leader_id participants deadline_secs
            payload_len)
          e =
        handle_round_start ctx
          (record {
            channel = channel;
            round_id = round_id;
            leader_id = leader_id;
            participants = participants;
            deadline_secs = deadline_secs;
            payload_len = payload_len;
          })
          e
    handle_incoming now ctx
          (PeerMessage.dc_round_share channel round_id peer_uid xored_payload signature) e =
        handle_round_share now ctx channel round_id peer_uid xored_payload signature e
    handle_incoming now ctx
          (PeerMessage.dc_round_result channel round_id extracted_message leader_signature) e =
        let (event, e') = handle_round_result channel round_id extracted_message e in
        ((event, []), e')
    handle_incoming now ctx _ e = ((none, []), e)
