-- ===== src/Dcnet/Engine/Delivery.antt =====
-- A round of engines from its start to the result that everybody receives.
use mathlib.Core.List.{append-nil}
use chrono_shift.Prelude.{
  ℕ, suc, ◌+◌, ◌<◌, ◌≡◌, ◌⊎◌, refl, sym, ap, ◌∙◌, subst, true, false, Option, none, some, List, [],
  ◌∷◌, ◌++◌, Result, ok, err, length, ◌==◌, arith, All, if◌then◌else◌, inl, inr, length-append,
}
use chrono_shift.Prelude.Keys.{Bytes, bytes_eq, nat_eq, =?_iff}
use chrono_shift.Prelude.Dict.{lookup, insert, lookup-insert}
use chrono_shift.Prelude.Utf8.{is_utf8}
use chrono_shift.Primitives.{Hash, Kdf, Signer}
use chrono_shift.Identity.{hex_encode, decode_key-hex_encode}
use chrono_shift.Net.Message.{PeerMessage}
use chrono_shift.Dcnet.Frame.{unpad_message}
use chrono_shift.Dcnet.Messages.{
  share_signature_message, sign_share, verify_share_signature, build_round_share,
}
use chrono_shift.Dcnet.Collector.{
  RoundCollector, SubmitError, submit_share, is_complete, is_expired, extract_message,
}
use chrono_shift.Dcnet.Collector.Invariant.{submit_share_iff}
use chrono_shift.Dcnet.Broadcast.Submissions.{submit_all, from_members}
use chrono_shift.Dcnet.Driver.{RoundContext, Outgoing}
use chrono_shift.Dcnet.Driver.Handlers.{signature_accepted}
use chrono_shift.Dcnet.Engine.{
  RoundEngine, RoundEvent, message_extracted, to_each, result_message, handle_round_share,
  handle_incoming, round_closed,
}

abbrev with_event : Option RoundEvent → List RoundEvent → List RoundEvent
with_event none es = es
with_event (some e) es = e ∷ es

abbrev pub messages : Outgoing → List PeerMessage
messages [] = []
messages ((uid, msg) ∷ out) = msg ∷ messages out

-- The shares, one after the other: each but the first is submitted to a collector that took those
-- before it.
pub submit_first :
    (u s : Bytes) (rest : List (Bytes × Bytes)) (c full : RoundCollector)
    → submit_all ((u, s) ∷ rest) c ≡ ok full
    → (c' : RoundCollector) × (submit_share u s c ≡ ok c') × (submit_all rest c' ≡ ok full)
unfolding submit_all
submit_first u s rest c full all = go (submit_share u s c) refl
  where
    go :
        (r : Result RoundCollector SubmitError)
        → submit_share u s c ≡ r
        → (c' : RoundCollector) × (submit_share u s c ≡ ok c') × (submit_all rest c' ≡ ok full)
    go (ok c') taken =
        (c', taken, ap (λ r. elim r [ err e ↦ err e | ok x ↦ submit_all rest x ]) (sym taken) ∙ all)
    go (err e) refused =
        let clash : err e ≡ ok full =
          ap (λ r. elim r [ err e ↦ err e | ok x ↦ submit_all rest x ]) (sym refused) ∙ all in
        absurd cc

module _ (h : Hash) (kdf : Kdf) (signer : Signer) where
  -- Messages that arrive one after the other: the events, the messages sent, and the engine.
  unfoldable pub deliver :
      ℕ → RoundContext → List PeerMessage → RoundEngine → (List RoundEvent × Outgoing) × RoundEngine
  deliver now ctx [] e = (([], []), e)
  deliver now ctx (msg ∷ msgs) e =
      let ((event, out), e') = handle_incoming h kdf signer now ctx msg e in
      let ((events, outs), e'') = deliver now ctx msgs e' in
      ((with_event event events, out ++ outs), e'')

  -- What some members answer to a message, in their order.
  unfoldable pub replies :
      ℕ
      → PeerMessage
      → (Bytes → RoundContext)
      → (Bytes → RoundEngine)
      → List Bytes
      → List PeerMessage
  replies now msg ctx engine [] = []
  replies now msg ctx engine (u ∷ us) =
      messages (handle_incoming h kdf signer now (ctx u) msg (engine u)).0.1
      ++ replies now msg ctx engine us

  -- The receiver has no key of this member, or the right one.
  abbrev pub Known : (Bytes → Bytes) → RoundContext → Bytes → Type 0
  Known sk ctx u =
      (lookup u ctx.known_keys ≡ none)
      ⊎ (lookup u ctx.known_keys ≡ some (hex_encode (signer.verifying_key (sk u))))

  module _ (channel : Bytes) (round_id : ℕ) (shares sk : Bytes → Bytes) where
    abbrev pub signed : Bytes → PeerMessage
    signed u =
        build_round_share channel round_id u (shares u)
          (sign_share signer (sk u) channel round_id (shares u))

    abbrev pub all_signed : List Bytes → List PeerMessage
    all_signed [] = []
    all_signed (u ∷ us) = signed u ∷ all_signed us

    signature_accepted-signed :
        (ctx : RoundContext) (u : Bytes)
        → Known sk ctx u
        → signature_accepted h kdf signer ctx channel round_id u
            (shares u)
            (sign_share signer (sk u) channel round_id (shares u))
          ≡ true
    unfolding signature_accepted verify_share_signature sign_share
    signature_accepted-signed ctx u (inl unknown) = rw (signature_accepted, unknown) refl
    signature_accepted-signed ctx u (inr known) =
        let vk = signer.verifying_key (sk u) in
        let read =
          decode_key-hex_encode vk (signer.length-verifying_key (sk u))
            (signer.verifying_key_bytes (sk u)) in
        let valid = signer.valid_key-verifying_key (sk u) in
        let m = share_signature_message channel round_id (shares u) in
        let size : (length (signer.sign (sk u) m) == 64) ≡ true =
          ground (arith, signer.length-sign (sk u) m) in
        rw (signature_accepted, known, read, valid, size) (signer.verify-sign (sk u) m)

    module _ (now : ℕ) (ctx : RoundContext) (full : RoundCollector) (payload msg : Bytes)
        (complete : is_complete full ≡ true) (opened : extract_message full ≡ some payload)
        (framed : unpad_message h payload ≡ some msg) (text : is_utf8 msg ≡ true) where
      share_handled :
          (u : Bytes) (e : RoundEngine) (c c' : RoundCollector)
          → Known sk ctx u
          → lookup round_id e.collectors ≡ some c
          → submit_share u (shares u) c ≡ ok c'
          → handle_incoming h kdf signer now ctx (signed u) e
            ≡ round_closed h kdf now channel round_id c' e
      unfolding handle_incoming handle_round_share
      share_handled u e c c' known running taken =
          rw (handle_round_share, signature_accepted-signed ctx u known, running, taken) refl

      -- All shares but the last are taken in silence.
      pub deliver-all_signed :
          (u : Bytes) (us : List Bytes) (c : RoundCollector) (e : RoundEngine)
          → All (Known sk ctx) (u ∷ us)
          → lookup round_id e.collectors ≡ some c
          → submit_all (from_members shares (u ∷ us)) c ≡ ok full
          → length c.participants ≡ length c.shares_received + suc (length us)
          → now < c.deadline
          → (deliver now ctx (all_signed (u ∷ us)) e).0 ≡ (
            message_extracted channel msg round_id ∷ [],
            to_each (result_message channel round_id payload) full.participants,
          )
      unfolding deliver round_closed submit_all from_members
      deliver-all_signed u [] c e (known, later) running all count early =
          let (c', taken, rest) = submit_first u (shares u) [] c full all in
          let last : c' ≡ full = cc rest in
          let taken' : submit_share u (shares u) c ≡ ok full = taken ∙ ap ok last in
          rw
            (
              deliver,
              share_handled u e c full known running taken',
              round_closed,
              complete,
              opened,
              framed,
              text,
            )
            (ap (λ out. (message_extracted channel msg round_id ∷ [], out))
              (append-nil (to_each (result_message channel round_id payload) full.participants)))
      deliver-all_signed u (v ∷ us) c e (known, later) running all count early =
          let (c', taken, rest) =
            submit_first u (shares u) (from_members shares (v ∷ us)) c full all in
          let (member, new, size, grown) = (submit_share_iff u (shares u) c c').0 taken in
          let more = length-append c.shares_received ((u, shares u) ∷ []) in
          let sum : length c'.participants ≡ length c'.shares_received + suc (length us) =
            ap (λ (x : RoundCollector). length x.participants) grown
            ∙ count
            ∙ omega (arith, more)
            ∙ ap (λ (x : RoundCollector). length x.shares_received + suc (length us)) (sym grown) in
          let time : now < c'.deadline =
            subst (λ (x : RoundCollector). now < x.deadline) (sym grown) early in
          let open_still : is_complete c' ≡ false =
            not_complete c' (suc (length us)) sum (omega arith) in
          let in_time : is_expired now c' ≡ false = not_expired c' time in
          let e' = record e { collectors = insert round_id c' e.collectors } in
          let found : lookup round_id e'.collectors ≡ some c' =
            lookup-insert round_id round_id c' e.collectors
            ∙ ap (λ b. if b then some c' else lookup round_id e.collectors)
                ((=?_iff round_id round_id).1 refl) in
          rw
            (deliver, share_handled u e c c' known running taken, round_closed, open_still, in_time)
            (deliver-all_signed v us c' e' later found rest sum time)
        where
          not_complete :
              (x : RoundCollector) (n : ℕ)
              → length x.participants ≡ length x.shares_received + n
              → 0 < n
              → is_complete x ≡ false
          not_complete x n sum positive = unfold is_complete in ground arith

          not_expired : (x : RoundCollector) → now < x.deadline → is_expired now x ≡ false
          not_expired x time = unfold is_expired in ground arith
