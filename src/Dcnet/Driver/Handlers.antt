-- ===== src/Dcnet/Driver/Handlers.antt =====
-- How `RoundDriver` of dcnet/round_driver.rs handles a message.
use chrono_shift.Prelude.{
  ℕ, Bool, true, false, not, ◌&&◌, Option, none, some, List, [], ◌∷◌, ◌++◌, ok, err, if◌then◌else◌,
}
use chrono_shift.Prelude.Keys.{Bytes, bytes_eq, nat_eq, ◌=?◌, contains}
use chrono_shift.Prelude.Dict.{lookup, insert, remove}
use chrono_shift.Prelude.Utf8.{is_utf8}
use chrono_shift.Primitives.{Hash, Kdf, Signer}
use chrono_shift.Identity.{decode_key}
use chrono_shift.Net.Message.{PeerMessage}
use chrono_shift.Dcnet.Share.{bytes_ltb}
use chrono_shift.Dcnet.Frame.{unpad_message}
use chrono_shift.Dcnet.Messages.{sign_share, verify_share_signature, build_round_share}
use chrono_shift.Dcnet.Collector
use chrono_shift.Dcnet.Collector.{
  RoundCollector, SubmitError, submit_share, missing_participants, is_complete, extract_message,
  compute_xor_share_secure,
}
use chrono_shift.Dcnet.Tracker.{mark_seen}
use chrono_shift.Dcnet.Driver.{
  RoundContext, RoundAction, RoundDriver, ExtractedMessage, Outgoing, nothing, to_others,
  is_some_id, abort_pending_round, retry_pending, drop_expired,
}

-- The fields of a `DcRoundStart`.
pub record RoundStartInfo : Type 0 where
  pub channel : Bytes
  pub round_id : ℕ
  pub leader_id : Bytes
  pub participants : List Bytes
  pub deadline_secs : ℕ
  pub payload_len : ℕ

-- `submit_share(..).ok()`: a refused share leaves the collector.
abbrev pub submitted_or_same : Bytes → Bytes → RoundCollector → RoundCollector
submitted_or_same uid share c = elim (submit_share uid share c) [ ok c' ↦ c' | err e ↦ c ]

-- `== [me]`
abbrev pub is_only : Bytes → List Bytes → Bool
is_only me [] = false
is_only me (u ∷ []) = u =? me
is_only me (u ∷ v ∷ us) = false

abbrev pub some_emitted : List ExtractedMessage → Bool
some_emitted [] = false
some_emitted (e ∷ es) = true

abbrev pub has_message : Option Bytes → Bool
has_message none = false
has_message (some text) = true

-- Our own share goes last: when it is our round and only our share is missing.
unfoldable pub send_mine :
    RoundContext
    → Bytes
    → ℕ
    → RoundCollector
    → RoundDriver
    → RoundDriver × (RoundCollector × Outgoing)
send_mine ctx channel round_id collector d =
    if not (
      is_some_id d.pending_round_id round_id
      && not d.my_share_broadcast
      && is_only ctx.my_uid (missing_participants collector))
    then (d, (collector, []))
    else elim d.my_share [
      | none ↦ (d, (collector, []))
      | some (my_share, my_sig) ↦ (
        record d { my_share_broadcast = true },
        (
          submitted_or_same ctx.my_uid my_share collector,
          to_others ctx.my_uid (build_round_share channel round_id ctx.my_uid my_share my_sig)
              collector.participants,
        ),
      )
    ]

module _ (h : Hash) (kdf : Kdf) (signer : Signer) where
  -- The neutral share of a round that was accepted.
  unfoldable pub participate :
      ℕ → RoundContext → RoundStartInfo → RoundDriver → RoundDriver × RoundAction
  participate now ctx info d =
      let share =
        compute_xor_share_secure h kdf info.round_id ctx.my_uid info.participants none
          info.payload_len ctx.edge_keys in
      if not (contains info.participants ctx.my_uid) then (d, nothing) else elim share [
        | none ↦ (d, nothing)
        | some share ↦ (
          record d {
            collectors =
                insert info.round_id
                  (submitted_or_same ctx.my_uid share (
                    Collector.new now info.channel info.round_id info.participants
                      info.deadline_secs info.payload_len))
                  d.collectors;
          },
          record {
            extracted = [];
            outgoing =
                to_others ctx.my_uid
                  (build_round_share info.channel info.round_id ctx.my_uid share
                    (sign_share signer ctx.signing_key info.channel info.round_id share))
                  info.participants;
          },
        )
      ]

  -- An id that is not the next one is refused, but for a conflict that we lose.
  unfoldable pub on_round_start :
      ℕ → RoundContext → RoundStartInfo → RoundDriver → RoundDriver × RoundAction
  on_round_start now ctx info d =
      let (tracker, accepted) = mark_seen info.round_id d.tracker in
      let seen = record d { tracker = tracker } in
      let conflict =
        is_some_id d.pending_round_id info.round_id && not (info.leader_id =? ctx.my_uid) in
      let yielded = record (abort_pending_round seen) { retry_after_peer = some info.round_id } in
      if accepted
      then participate now ctx info seen
      else if conflict && bytes_ltb info.leader_id ctx.my_uid
      then participate now ctx info yielded
      else (seen, nothing)

  -- `VerifyingKey` of the text of a key.
  abbrev pub parse_verifying_key : Bytes → Option Bytes
  parse_verifying_key key_hex = elim (decode_key key_hex) [
    | none ↦ none
    | some vk ↦ if signer.valid_key vk then some vk else none
  ]

  -- Only a share that fails under a key we have is refused.
  unfoldable pub signature_accepted : RoundContext → Bytes → ℕ → Bytes → Bytes → Bytes → Bool
  signature_accepted ctx channel round_id peer_uid share signature =
      elim (lookup peer_uid ctx.known_keys) [
        | none ↦ true
        | some key_hex ↦ elim (parse_verifying_key key_hex) [
          | none ↦ true
          | some vk ↦ verify_share_signature signer vk channel round_id share signature
        ]
      ]

  -- The text of a complete round, `from_utf8(..).ok()`.
  abbrev pub text_of : RoundCollector → Option Bytes
  text_of collector = elim (extract_message collector) [
    | none ↦ none
    | some payload ↦ elim (unpad_message h payload) [
      | none ↦ none
      | some text ↦ if is_utf8 text then some text else none
    ]
  ]

  -- The text, once for each round.
  unfoldable pub emit :
      Bytes → ℕ → RoundCollector → RoundDriver → RoundDriver × List ExtractedMessage
  emit channel round_id collector d = elim (text_of collector) [
    | none ↦ (d, [])
    | some text ↦ if contains d.emitted round_id then (d, []) else (
      record d { emitted = round_id ∷ d.emitted },
      record { channel = channel; text = text; round_id = round_id } ∷ [],
    )
  ]

  -- What follows a round of ours that is over.
  unfoldable pub close_mine :
      ℕ → RoundContext → Bytes → ℕ → List Bytes → Bool → RoundDriver → RoundDriver
  close_mine now ctx channel round_id participants extracted_ok d =
      let cleared = record d {
        pending_round_id = none;
        my_share = none;
        my_share_broadcast = false;
      } in
      if not (is_some_id d.pending_round_id round_id)
      then d
      else if extracted_ok
      then record cleared { pending_message = none }
      else retry_pending h kdf signer now ctx channel participants cleared

  -- And one that we had lost a conflict against.
  unfoldable pub retry_lost : ℕ → RoundContext → Bytes → ℕ → List Bytes → RoundDriver → RoundDriver
  retry_lost now ctx channel round_id participants d =
      let free = record d { retry_after_peer = none } in
      if not (is_some_id d.retry_after_peer round_id)
      then d
      else if has_message d.pending_message
      then retry_pending h kdf signer now ctx channel participants free
      else free

  unfoldable pub complete :
      ℕ
      → RoundContext
      → Bytes
      → ℕ
      → RoundCollector
      → RoundDriver
      → RoundDriver × List ExtractedMessage
  complete now ctx channel round_id collector d =
      let (after_emit, extracted) = emit channel round_id collector d in
      let removed = record after_emit { collectors = remove round_id after_emit.collectors } in
      let closed =
        close_mine now ctx channel round_id collector.participants (some_emitted extracted)
          removed in
      (retry_lost now ctx channel round_id collector.participants closed, extracted)

  -- A share that the collector took.
  unfoldable pub share_taken :
      ℕ → RoundContext → Bytes → ℕ → RoundCollector → RoundDriver → RoundDriver × RoundAction
  share_taken now ctx channel round_id collector d =
      let (d', (collector', outgoing)) = send_mine ctx channel round_id collector d in
      let stored = record d' { collectors = insert round_id collector' d'.collectors } in
      let (d'', extracted) = complete now ctx channel round_id collector' stored in
      if is_complete collector'
      then (d'', record { extracted = extracted; outgoing = outgoing })
      else (stored, record { extracted = []; outgoing = outgoing })

  unfoldable pub on_round_share :
      ℕ → RoundContext → Bytes → ℕ → Bytes → Bytes → Bytes → RoundDriver → RoundDriver × RoundAction
  on_round_share now ctx channel round_id peer_uid share signature d =
      if not (signature_accepted ctx channel round_id peer_uid share signature)
      then (d, nothing)
      else elim (lookup round_id d.collectors) [
        | none ↦ (d, nothing)
        | some collector ↦ elim (submit_share peer_uid share collector) [
          | err e ↦ (d, nothing)
          | ok collector' ↦ share_taken now ctx channel round_id collector' d
        ]
      ]

  unfoldable pub dispatch : ℕ → RoundContext → PeerMessage → RoundDriver → RoundDriver × RoundAction
  dispatch now ctx
        (PeerMessage.dc_round_start channel round_id leader_id participants deadline_secs
          payload_len)
        d =
      on_round_start now ctx
        (record {
          channel = channel;
          round_id = round_id;
          leader_id = leader_id;
          participants = participants;
          deadline_secs = deadline_secs;
          payload_len = payload_len;
        })
        d
  dispatch now ctx (PeerMessage.dc_round_share channel round_id peer_uid xored_payload signature)
        d =
      on_round_share now ctx channel round_id peer_uid xored_payload signature d
  dispatch now ctx _ d = (d, nothing)

  -- Retries that were buffered go out with the answer.
  unfoldable pub handle : ℕ → RoundContext → PeerMessage → RoundDriver → RoundDriver × RoundAction
  handle now ctx msg d =
      let (d', action) = dispatch now ctx msg (drop_expired h kdf signer now ctx d) in
      (
        record d' { pending_outgoing = [] },
        record action { outgoing = action.outgoing ++ d'.pending_outgoing },
      )

unfoldable pub drain_pending_outgoing : RoundDriver → RoundDriver × Outgoing
drain_pending_outgoing d = (record d { pending_outgoing = [] }, d.pending_outgoing)
