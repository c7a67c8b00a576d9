-- ===== src/Dcnet/Driver.antt =====
-- `RoundDriver` of dcnet/round_driver.rs: the rounds of one channel. The clock is an argument. A
-- queued message is text, so that `from_utf8_lossy` gives it back.
pub mod Handlers
pub mod Emitted
pub mod Runs
pub mod Retries
pub mod Conflicts
mod Tests
use chrono_shift.Prelude.{
  ℕ, ◌+◌, ◌≡◌, Bool, true, false, not, ◌&&◌, ◌||◌, Option, none, some, List, [], ◌∷◌, ◌++◌, Result,
  ok, err, is_ok, length, ltb, leb, ◌==◌, if◌then◌else◌,
}
use chrono_shift.Prelude.Keys.{Bytes, bytes_eq, nat_eq, ◌=?◌, contains}
use chrono_shift.Prelude.Dict.{Dict, lookup, insert, remove}
use chrono_shift.Prelude.Utf8.{is_utf8}
use chrono_shift.Primitives.{Hash, Kdf, Signer}
use chrono_shift.Identity.{decode_key}
use chrono_shift.Net.Message.{PeerMessage}
use chrono_shift.Dcnet.Frame.{unpad_message}
use chrono_shift.Dcnet.Messages.{
  sign_share, verify_share_signature, build_round_start, build_round_share,
}
use chrono_shift.Dcnet.Collector
use chrono_shift.Dcnet.Collector.{
  RoundCollector, submit_share, missing_participants, is_complete, is_expired, extract_message,
  compute_xor_share_secure,
}
use chrono_shift.Dcnet.Tracker
use chrono_shift.Dcnet.Tracker.{RoundTracker, next_round, mark_seen}

abbrev pub channel_payload_len : ℕ
channel_payload_len = 4096

abbrev pub channel_round_deadline_secs : ℕ
channel_round_deadline_secs = 30

abbrev pub max_conflict_retries : ℕ
max_conflict_retries = 3

pub record RoundContext : Type 0 where
  pub my_uid : Bytes
  pub signing_key : Bytes
  pub edge_keys : Dict Bytes Bytes
  pub known_keys : Dict Bytes Bytes

pub record ExtractedMessage : Type 0 where
  pub channel : Bytes
  pub text : Bytes
  pub round_id : ℕ

abbrev pub Outgoing : Type 0
Outgoing = List (Bytes × PeerMessage)

pub record RoundAction : Type 0 where
  pub extracted : List ExtractedMessage
  pub outgoing : Outgoing

abbrev pub nothing : RoundAction
nothing = record { extracted = []; outgoing = [] }

pub record RoundDriver : Type 0 where
  pub tracker : RoundTracker
  pub pending_message : Option Bytes
  pub pending_round_id : Option ℕ
  pub retries : ℕ
  pub collectors : Dict ℕ RoundCollector
  pub emitted : List ℕ
  pub my_share : Option (Bytes × Bytes)
  pub my_share_broadcast : Bool
  pub pending_outgoing : Outgoing
  pub retry_after_peer : Option ℕ

unfoldable pub new : RoundDriver
new = record {
  tracker = Tracker.new;
  pending_message = none;
  pending_round_id = none;
  retries = 0;
  collectors = [];
  emitted = [];
  my_share = none;
  my_share_broadcast = false;
  pending_outgoing = [];
  retry_after_peer = none;
}

-- The same message to every participant but me.
abbrev pub to_others : Bytes → PeerMessage → List Bytes → Outgoing
to_others me msg [] = []
to_others me msg (uid ∷ uids) =
    let rest = to_others me msg uids in if uid =? me then rest else (uid, msg) ∷ rest

-- `== Some(id)`
abbrev pub is_some_id : Option ℕ → ℕ → Bool
is_some_id none id = false
is_some_id (some n) id = n == id

pub data InitiateError : Type 0 where
  message_too_long not_a_participant missing_edge_keys : InitiateError

unfoldable pub abort_pending_round : RoundDriver → RoundDriver
abort_pending_round d = record d {
  pending_round_id = none;
  collectors = elim d.pending_round_id [ none ↦ d.collectors | some id ↦ remove id d.collectors ];
  my_share = none;
  my_share_broadcast = false;
}

abbrev pub expired_ids : ℕ → Dict ℕ RoundCollector → List ℕ
expired_ids now [] = []
expired_ids now ((id, c) ∷ cs) =
    let rest = expired_ids now cs in if is_expired now c then id ∷ rest else rest

abbrev pub is_empty_list : List Bytes → Bool
is_empty_list [] = true
is_empty_list (u ∷ us) = false

-- The participants and the channel of a collector, `unwrap_or_default`.
abbrev pub round_of : ℕ → RoundDriver → List Bytes × Bytes
round_of id d = elim (lookup id d.collectors) [
  | none ↦ ([], [])
  | some c ↦ (c.participants, c.channel)
]

-- What `initiate` sends is kept until the next call delivers it.
abbrev pub buffered : RoundDriver × Result Outgoing InitiateError → RoundDriver
buffered (d, ok out) = record d { pending_outgoing = d.pending_outgoing ++ out }
buffered (d, err e) = d

module _ (h : Hash) (kdf : Kdf) (signer : Signer) where
  -- `initiate` once the share is there.
  abbrev pub initiated :
      ℕ
      → RoundContext
      → Bytes
      → Bytes
      → List Bytes
      → ℕ
      → Bytes
      → RoundDriver
      → RoundDriver × Result Outgoing InitiateError
  initiated now ctx channel text participants round_id share d = (
    record d {
      collectors =
          insert round_id
            (Collector.new now channel round_id participants channel_round_deadline_secs
              channel_payload_len)
            d.collectors;
      pending_message = some text;
      pending_round_id = some round_id;
      my_share = some (share, sign_share signer ctx.signing_key channel round_id share);
      my_share_broadcast = false;
      retries = 0;
    },
    ok (
        to_others ctx.my_uid
          (build_round_start channel round_id ctx.my_uid participants channel_round_deadline_secs
            channel_payload_len)
          participants),
  )

  unfoldable pub initiate :
      ℕ
      → RoundContext
      → Bytes
      → Bytes
      → List Bytes
      → RoundDriver
      → RoundDriver × Result Outgoing InitiateError
  initiate now ctx channel text participants d =
      let (tracker, round_id) = next_round d.tracker in
      let counted = record d { tracker = tracker } in
      if ltb channel_payload_len (length text + 36)
      then (d, err InitiateError.message_too_long)
      else if ltb (length participants) 2 || not (contains participants ctx.my_uid)
      then (d, err InitiateError.not_a_participant)
      else elim (compute_xor_share_secure h kdf round_id ctx.my_uid participants (some text)
          channel_payload_len ctx.edge_keys) [
            | none ↦ (counted, err InitiateError.missing_edge_keys)
            | some share ↦ initiated now ctx channel text participants round_id share counted
          ]

  unfoldable pub retry_pending : ℕ → RoundContext → Bytes → List Bytes → RoundDriver → RoundDriver
  retry_pending now ctx channel participants d =
      if leb max_conflict_retries d.retries
      then record d { pending_message = none }
      else elim d.pending_message [
        | none ↦ record d { retries = d.retries + 1 }
        | some text ↦
            buffered
              (initiate now ctx channel text participants (record d { retries = d.retries + 1 }))
      ]

  unfoldable pub drop_round : ℕ → RoundContext → ℕ → RoundDriver → RoundDriver
  drop_round now ctx id d =
      let (participants, channel) = round_of id d in
      let dropped = record d { collectors = remove id d.collectors } in
      let mine = record dropped {
        pending_round_id = none;
        my_share = none;
        my_share_broadcast = false;
      } in
      if not (is_some_id d.pending_round_id id)
      then dropped
      else if is_empty_list participants
      then mine
      else retry_pending now ctx channel participants mine

  unfoldable pub drop_rounds : ℕ → RoundContext → List ℕ → RoundDriver → RoundDriver
  drop_rounds now ctx [] d = d
  drop_rounds now ctx (id ∷ ids) d = drop_rounds now ctx ids (drop_round now ctx id d)

  unfoldable pub drop_expired : ℕ → RoundContext → RoundDriver → RoundDriver
  drop_expired now ctx d = drop_rounds now ctx (expired_ids now d.collectors) d
