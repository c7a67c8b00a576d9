-- ===== src/Dcnet/Driver/Emitted.antt =====
-- A round's text is given out once: dcnet/round_driver.rs.
use chrono_shift.Prelude.{
  ℕ, ◌+◌, ◌≡◌, ◌⊎◌, refl, sym, subst, ◌∙◌, Bool, false, not, ◌&&◌, List, [], ◌∷◌, Result, ok, err,
  leb, arith, Bool-cases, Option-cases, Result-cases, inl, inr,
}
use chrono_shift.Prelude.Keys.{Bytes, bytes_eq, nat_eq, ◌=?◌, contains}
use chrono_shift.Prelude.Dict.{lookup, insert}
use chrono_shift.Primitives.{Hash, Kdf, Signer}
use chrono_shift.Net.Message.{PeerMessage}
use chrono_shift.Dcnet.Share.{bytes_ltb}
use chrono_shift.Dcnet.Collector.{RoundCollector, submit_share, is_complete}
use chrono_shift.Dcnet.Tracker.{mark_seen}
use chrono_shift.Dcnet.Driver.{
  RoundContext, RoundDriver, ExtractedMessage, Outgoing, InitiateError, is_some_id, initiate,
  buffered, abort_pending_round, retry_pending, drop_round, drop_rounds, drop_expired, round_of,
  is_empty_list, expired_ids,
}
use chrono_shift.Dcnet.Driver.Handlers.{
  RoundStartInfo, participate, on_round_start, on_round_share, signature_accepted, send_mine,
  text_of, emit, close_mine, retry_lost, complete, share_taken, dispatch, handle, has_message,
}

-- What a call may do to the list of rounds that have been given out: nothing, or one new round.
abbrev pub Emits : List ℕ → List ExtractedMessage → List ℕ → Type 0
Emits before extracted after =
    ((extracted ≡ []) × (after ≡ before))
    ⊎ ((e : ExtractedMessage) × (extracted ≡ e ∷ [])
        × (contains before e.round_id ≡ false)
        × (after ≡ e.round_id ∷ before))

Emits-from :
    {before' before after : List ℕ} {extracted : List ExtractedMessage}
    → before' ≡ before
    → Emits before' extracted after
    → Emits before extracted after
Emits-from {after = after} {extracted = extracted} e emits =
    subst (λ b. Emits b extracted after) e emits

module _ (h : Hash) (kdf : Kdf) (signer : Signer) where
  initiate-emitted :
      (now : ℕ) (ctx : RoundContext) (channel text : Bytes) (ps : List Bytes) (d : RoundDriver)
      → (initiate h kdf signer now ctx channel text ps d).0.emitted ≡ d.emitted
  unfolding initiate
  initiate-emitted now ctx channel text ps d = ground arith

  buffered-emitted :
      (r : RoundDriver × Result Outgoing InitiateError) → (buffered r).emitted ≡ r.0.emitted
  buffered-emitted (d, ok out) = refl
  buffered-emitted (d, err e) = refl

  retry_pending-emitted :
      (now : ℕ) (ctx : RoundContext) (channel : Bytes) (ps : List Bytes) (d : RoundDriver)
      → (retry_pending h kdf signer now ctx channel ps d).emitted ≡ d.emitted
  unfolding retry_pending
  retry_pending-emitted now ctx channel ps d = elim (Bool-cases (leb 3 d.retries)) [
    | inl full ↦ rw (retry_pending, full) refl
    | inr free ↦ elim (Option-cases d.pending_message) [
      | inl none_left ↦ rw (retry_pending, free, none_left) refl
      | inr (text, waiting) ↦
          rw (retry_pending, free, waiting)
            (buffered-emitted (
                initiate h kdf signer now ctx channel text ps
                  (record d { retries = d.retries + 1 }))
              ∙ initiate-emitted now ctx channel text ps (record d { retries = d.retries + 1 }))
    ]
  ]

  drop_round-emitted :
      (now : ℕ) (ctx : RoundContext) (id : ℕ) (d : RoundDriver)
      → (drop_round h kdf signer now ctx id d).emitted ≡ d.emitted
  unfolding drop_round
  drop_round-emitted now ctx id d = elim (Bool-cases (is_some_id d.pending_round_id id)) [
    | inr other ↦ rw (drop_round, other) refl
    | inl mine ↦ elim (Bool-cases (is_empty_list (round_of id d).0)) [
      | inl empty ↦ rw (drop_round, mine, empty) refl
      | inr some_left ↦ rw (drop_round, mine, some_left) (retry_pending-emitted now ctx _ _ _)
    ]
  ]

  drop_rounds-emitted :
      (now : ℕ) (ctx : RoundContext) (ids : List ℕ) (d : RoundDriver)
      → (drop_rounds h kdf signer now ctx ids d).emitted ≡ d.emitted
  unfolding drop_rounds
  drop_rounds-emitted now ctx [] d = refl
  drop_rounds-emitted now ctx (id ∷ ids) d =
      drop_rounds-emitted now ctx ids (drop_round h kdf signer now ctx id d)
      ∙ drop_round-emitted now ctx id d

  participate-emitted :
      (now : ℕ) (ctx : RoundContext) (info : RoundStartInfo) (d : RoundDriver)
      → ((participate h kdf signer now ctx info d).0.emitted ≡ d.emitted)
        × ((participate h kdf signer now ctx info d).1.extracted ≡ [])
  unfolding participate
  participate-emitted now ctx info d = ground arith

  on_round_start-emitted :
      (now : ℕ) (ctx : RoundContext) (info : RoundStartInfo) (d : RoundDriver)
      → ((on_round_start h kdf signer now ctx info d).0.emitted ≡ d.emitted)
        × ((on_round_start h kdf signer now ctx info d).1.extracted ≡ [])
  unfolding on_round_start abort_pending_round
  on_round_start-emitted now ctx info d = elim (Bool-cases (mark_seen info.round_id d.tracker).1) [
    | inl accepted ↦ rw (on_round_start, accepted) (participate-emitted now ctx info _)
    | inr refused ↦
        elim (Bool-cases (
          is_some_id d.pending_round_id info.round_id
          && not (info.leader_id =? ctx.my_uid)
          && bytes_ltb info.leader_id ctx.my_uid)) [
            | inl lost ↦ rw (on_round_start, refused, lost) (participate-emitted now ctx info _)
            | inr kept ↦ rw (on_round_start, refused, kept) (refl, refl)
          ]
  ]

  send_mine-emitted :
      (ctx : RoundContext) (channel : Bytes) (round_id : ℕ) (c : RoundCollector) (d : RoundDriver)
      → (send_mine ctx channel round_id c d).0.emitted ≡ d.emitted
  unfolding send_mine
  send_mine-emitted ctx channel round_id c d = ground arith

  close_mine-emitted :
      (now : ℕ) (ctx : RoundContext) (channel : Bytes) (round_id : ℕ) (ps : List Bytes)
      (done : Bool) (d : RoundDriver)
      → (close_mine h kdf signer now ctx channel round_id ps done d).emitted ≡ d.emitted
  unfolding close_mine
  close_mine-emitted now ctx channel round_id ps done d =
      elim (Bool-cases (is_some_id d.pending_round_id round_id)) [
        | inr other ↦ rw (close_mine, other) refl
        | inl mine ↦ elim (Bool-cases done) [
          | inl extracted ↦ rw (close_mine, mine, extracted) refl
          | inr failed ↦ rw (close_mine, mine, failed) (retry_pending-emitted now ctx channel ps _)
        ]
      ]

  retry_lost-emitted :
      (now : ℕ) (ctx : RoundContext) (channel : Bytes) (round_id : ℕ) (ps : List Bytes)
      (d : RoundDriver)
      → (retry_lost h kdf signer now ctx channel round_id ps d).emitted ≡ d.emitted
  unfolding retry_lost
  retry_lost-emitted now ctx channel round_id ps d =
      elim (Bool-cases (is_some_id d.retry_after_peer round_id)) [
        | inr other ↦ rw (retry_lost, other) refl
        | inl lost ↦ elim (Bool-cases (has_message d.pending_message)) [
          | inr none_left ↦ rw (retry_lost, lost, none_left) refl
          | inl waiting ↦
              rw (retry_lost, lost, waiting) (retry_pending-emitted now ctx channel ps _)
        ]
      ]

  emit-Emits :
      (channel : Bytes) (round_id : ℕ) (c : RoundCollector) (d : RoundDriver)
      → Emits d.emitted
          (emit h kdf signer channel round_id c d).1
          (emit h kdf signer channel round_id c d).0.emitted
  unfolding emit
  emit-Emits channel round_id c d = elim (Option-cases (text_of h kdf signer c)) [
    | inl failed ↦ rw (emit, failed) (inl (refl, refl))
    | inr (text, found) ↦ elim (Bool-cases (contains d.emitted round_id)) [
      | inl again ↦ rw (emit, found, again) (inl (refl, refl))
      | inr first ↦ rw (emit, found, first) (inr (_, refl, first, refl))
    ]
  ]

  complete-Emits :
      (now : ℕ) (ctx : RoundContext) (channel : Bytes) (round_id : ℕ) (c : RoundCollector)
      (d : RoundDriver)
      → Emits d.emitted
          (complete h kdf signer now ctx channel round_id c d).1
          (complete h kdf signer now ctx channel round_id c d).0.emitted
  unfolding complete
  complete-Emits now ctx channel round_id c d =
      let same =
        retry_lost-emitted now ctx channel round_id c.participants _
        ∙ close_mine-emitted now ctx channel round_id c.participants _ _ in
      subst (Emits d.emitted (emit h kdf signer channel round_id c d).1) (sym same)
        (emit-Emits channel round_id c d)

  share_taken-Emits :
      (now : ℕ) (ctx : RoundContext) (channel : Bytes) (round_id : ℕ) (c : RoundCollector)
      (d : RoundDriver)
      → Emits d.emitted
          (share_taken h kdf signer now ctx channel round_id c d).1.extracted
          (share_taken h kdf signer now ctx channel round_id c d).0.emitted
  unfolding share_taken
  share_taken-Emits now ctx channel round_id c d =
      let sent = send_mine-emitted ctx channel round_id c d in
      elim (Bool-cases (is_complete (send_mine ctx channel round_id c d).1.0)) [
        | inr open_still ↦ rw (share_taken, open_still) (inl (refl, sent))
        | inl full ↦
            rw (share_taken, full)
              (Emits-from sent (
                complete-Emits now ctx channel round_id (send_mine ctx channel round_id c d).1.0
                  (record (send_mine ctx channel round_id c d).0 {
                    collectors =
                        insert round_id (send_mine ctx channel round_id c d).1.0
                          (send_mine ctx channel round_id c d).0.collectors;
                  })))
      ]

  on_round_share-Emits :
      (now : ℕ) (ctx : RoundContext) (channel : Bytes) (round_id : ℕ) (peer share signature : Bytes)
      (d : RoundDriver)
      → Emits d.emitted
          (on_round_share h kdf signer now ctx channel round_id peer share signature d).1.extracted
          (on_round_share h kdf signer now ctx channel round_id peer share signature d).0.emitted
  unfolding on_round_share
  on_round_share-Emits now ctx channel round_id peer share signature d =
      elim (Bool-cases
        (signature_accepted h kdf signer ctx channel round_id peer share signature)) [
          | inr bad ↦ rw (on_round_share, bad) (inl (refl, refl))
          | inl good ↦ elim (Option-cases (lookup round_id d.collectors)) [
            | inl unknown ↦ rw (on_round_share, good, unknown) (inl (refl, refl))
            | inr (c, known) ↦ elim (Result-cases (submit_share peer share c)) [
              | inr (e, refused) ↦ rw (on_round_share, good, known, refused) (inl (refl, refl))
              | inl (c', taken) ↦
                  rw (on_round_share, good, known, taken)
                    (share_taken-Emits now ctx channel round_id c' d)
            ]
          ]
        ]

  dispatch-Emits :
      (now : ℕ) (ctx : RoundContext) (msg : PeerMessage) (d : RoundDriver)
      → Emits d.emitted
          (dispatch h kdf signer now ctx msg d).1.extracted
          (dispatch h kdf signer now ctx msg d).0.emitted
  unfolding dispatch
  dispatch-Emits now ctx
        (PeerMessage.dc_round_start channel round_id leader_id participants deadline_secs
          payload_len)
        d =
      let (same, empty) =
        on_round_start-emitted now ctx
          (record {
            channel = channel;
            round_id = round_id;
            leader_id = leader_id;
            participants = participants;
            deadline_secs = deadline_secs;
            payload_len = payload_len;
          })
          d in
      inl (empty, same)
  dispatch-Emits now ctx (PeerMessage.dc_round_share channel round_id peer share signature) d =
      on_round_share-Emits now ctx channel round_id peer share signature d
  dispatch-Emits now ctx _ d = inl (refl, refl)

  -- One message gives out at most one text, of a round that has given out none before, and records
  -- that round.
  pub handle-Emits :
      (now : ℕ) (ctx : RoundContext) (msg : PeerMessage) (d : RoundDriver)
      → Emits d.emitted
          (handle h kdf signer now ctx msg d).1.extracted
          (handle h kdf signer now ctx msg d).0.emitted
  unfolding handle drop_expired
  handle-Emits now ctx msg d =
      Emits-from (drop_rounds-emitted now ctx (expired_ids now d.collectors) d)
        (dispatch-Emits now ctx msg (drop_expired h kdf signer now ctx d))
