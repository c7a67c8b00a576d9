-- ===== src/Net/Relay/Node/Delivery.antt =====
-- A request that is sent along relays reaches its target.
use chrono_shift.Prelude.{
  ℕ, zero, suc, ◌+◌, ◌-◌, ◌%◌, ◌^◌, ◌≤◌, ◌≡◌, ◌⊎◌, inl, inr, refl, ap, ◌∙◌, Bool, true, false, none,
  some, List, [], ◌∷◌, ok, arith, leb, ltb, ◌==◌, length, if◌then◌else◌,
}
use chrono_shift.Prelude.Keys.{Bytes, bytes_eq, ◌=?◌, =?_iff}
use chrono_shift.Prelude.Dict.{lookup}
use chrono_shift.Primitives.{Signer}
use chrono_shift.Identity.{hex_encode}
use chrono_shift.Net.Message.{PeerMessage}
use chrono_shift.Net.Session.Agreement.{parse-verifying_key}
use chrono_shift.Net.Session.Handshake.{parse_verifying_key}
use chrono_shift.Net.Relay.{
  RelayVerifier, pin_key, check, replayed, admit, abs_diff, relay_max_hops,
}
use chrono_shift.Net.Relay.Signing.{verify_relay-sign_relay}
use chrono_shift.Net.Relay.Node.{
  RelayFields, RelayOrigin, AppEvent, AppState, Handled, message_of, fields_of, relay_info,
  hop_toward, key_for, deliver_or_forward, admit_relay, verify_and_admit, handle_relay_message,
  send_relay, build_relay_request, sign_origin,
}

-- A node that takes a message of the originator: it knows its key or has no other key of it, knows no
-- nonce as high, and has not seen too many messages; and the clocks are no more than a minute apart.
pub record IsReady (origin : RelayOrigin) (now : ℕ) (s : AppState) : Type 0 where
  pub key_known :
      (lookup origin.from_uid s.connection_manager.known_peer_keys ≡ some origin.origin_key_hex)
      ⊎ ((lookup origin.from_uid s.connection_manager.known_peer_keys ≡ none)
          × ((lookup origin.from_uid s.relay_verifier.key_pins ≡ some origin.origin_key_hex)
              ⊎ (lookup origin.from_uid s.relay_verifier.key_pins ≡ none)))
  pub fresh : replayed origin.origin_key_hex origin.nonce s.relay_verifier.last_nonce ≡ false
  pub timely : abs_diff now origin.timestamp ≤ 60
  pub room : (admit origin.origin_key_hex now s.relay_verifier.rate).1 ≡ true

-- Nodes, each with its time, of which each sends on to the next, and the last is the target.
pub data Route (origin : RelayOrigin) : List (ℕ × AppState) → Bytes → Type 0 where
  target :
      (now : ℕ) (s : AppState)
      → origin.to_uid ≡ s.uid
      → IsReady origin now s
      → Route origin ((now, s) ∷ []) s.uid
  hop :
      (now : ℕ) (s : AppState) (nodes : List (ℕ × AppState)) (next : Bytes)
      → (origin.to_uid =? s.uid) ≡ false
      → IsReady origin now s
      → s.outgoing_open ≡ true
      → hop_toward origin.to_uid s ≡ some next
      → Route origin nodes next
      → Route origin ((now, s) ∷ nodes) s.uid

Route-length :
    {origin : RelayOrigin} {nodes : List (ℕ × AppState)} {uid : Bytes}
    → Route origin nodes uid
    → 1 ≤ length nodes
Route-length (Route.target now s mine ready) = omega arith
Route-length (Route.hop now s nodes next away ready unclosed found onward) = omega arith

module _ (signer : Signer) where
  -- What is sent goes to the first node, and what that sends to the next, until something is shown.
  unfoldable pub carry : List (ℕ × AppState) → List (Bytes × PeerMessage) → List AppEvent
  carry [] sent = []
  carry ((now, s) ∷ nodes) [] = []
  carry ((now, s) ∷ nodes) ((uid, msg) ∷ sent) =
      let h = handle_relay_message signer now msg s in
      let later = carry nodes h.sent in
      if uid =? s.uid then elim h.events [ [] ↦ later | e ∷ es ↦ e ∷ es ] else []

  -- The message of an originator with so many hops left.
  abbrev relayed : RelayOrigin → Bytes → Bool → ℕ → RelayFields
  relayed origin payload is_request hops_left = record {
    from_uid = origin.from_uid;
    to_uid = origin.to_uid;
    origin_key_hex = origin.origin_key_hex;
    nonce = origin.nonce;
    timestamp = origin.timestamp;
    hops_left = hops_left;
    signature = sign_origin signer origin payload;
    encrypted_payload = payload;
    is_request = is_request;
  }

  fields_of-message_of :
      (origin : RelayOrigin) (payload : Bytes) (is_request : Bool) (hops_left : ℕ)
      → fields_of (message_of (relayed origin payload is_request hops_left))
        ≡ some (relayed origin payload is_request hops_left)
  fields_of-message_of origin payload true hops_left = refl
  fields_of-message_of origin payload false hops_left = refl

  check_admits :
      (key : Bytes) (nonce timestamp now : ℕ) (v : RelayVerifier)
      → replayed key nonce v.last_nonce ≡ false
      → abs_diff now timestamp ≤ 60
      → (admit key now v.rate).1 ≡ true
      → (check key nonce timestamp now v).1 ≡ ok tt
  unfolding check
  check_admits key nonce timestamp now v fresh timely room =
      let soon : ltb 60 (abs_diff now timestamp) ≡ false = ground arith in
      rw (check, fresh, soon, room) refl

  pin_key_keeps :
      (sender key : Bytes) (v : RelayVerifier)
      → ((pin_key sender key v).0.last_nonce ≡ v.last_nonce)
        × ((pin_key sender key v).0.rate ≡ v.rate)
  unfolding pin_key
  pin_key_keeps sender key v = ground arith

  pin_key_takes :
      (sender key : Bytes) (v : RelayVerifier)
      → (lookup sender v.key_pins ≡ some key) ⊎ (lookup sender v.key_pins ≡ none)
      → (pin_key sender key v).1 ≡ ok tt
  unfolding pin_key
  pin_key_takes sender key v (inl pinned) = rw (pin_key, pinned, (=?_iff key key).1 refl) refl
  pin_key_takes sender key v (inr unpinned) = rw (pin_key, unpinned) refl

  -- The key that is used, and the tables that `check` looks at, which are left as they were.
  key_for_ready :
      (origin : RelayOrigin) (payload : Bytes) (b : Bool) (hops now : ℕ) (s : AppState)
      → IsReady origin now s
      → let (v, key) = key_for (relayed origin payload b hops) s in
        (key ≡ some origin.origin_key_hex)
        × (v.last_nonce ≡ s.relay_verifier.last_nonce)
        × (v.rate ≡ s.relay_verifier.rate)
  unfolding key_for
  key_for_ready origin payload b hops now s ready = elim ready.key_known [
    | inl known ↦ rw (key_for, known) (refl, refl, refl)
    | inr (unknown, pins) ↦
        let pinned = pin_key_takes origin.from_uid origin.origin_key_hex s.relay_verifier pins in
        let (nonces, rates) =
          pin_key_keeps origin.from_uid origin.origin_key_hex s.relay_verifier in
        rw (key_for, unknown, pinned) (refl, nonces, rates)
  ]

  admit_relay_ready :
      (now : ℕ) (r : RelayFields) (key : Bytes) (s : AppState)
      → replayed key r.nonce s.relay_verifier.last_nonce ≡ false
      → abs_diff now r.timestamp ≤ 60
      → (admit key now s.relay_verifier.rate).1 ≡ true
      → (v : RelayVerifier) × (admit_relay now r key s
          ≡ deliver_or_forward r (record s { relay_verifier = v }))
  unfolding admit_relay
  admit_relay_ready now r key s fresh timely room =
      let admits = check_admits key r.nonce r.timestamp now s.relay_verifier fresh timely room in
      ((check key r.nonce r.timestamp now s.relay_verifier).0, rw (admit_relay, admits) refl)

  -- A node that is ready passes on what the originator signed.
  handle_relay_message_ready :
      (origin : RelayOrigin) (payload : Bytes) (b : Bool) (hops now : ℕ) (s : AppState)
      → origin.origin_key_hex ≡ hex_encode (signer.verifying_key origin.signing_key)
      → IsReady origin now s
      → let r = relayed origin payload b hops in
        (v : RelayVerifier) × (handle_relay_message signer now (message_of r) s
          ≡ deliver_or_forward r (record s { relay_verifier = v }))
  unfolding handle_relay_message verify_and_admit
  handle_relay_message_ready origin payload b hops now s own ready =
      let r = relayed origin payload b hops in
      let (by_key, nonces, rates) = key_for_ready origin payload b hops now s ready in
      let s' : AppState = record s { relay_verifier = (key_for r s).0 } in
      let parsed : parse_verifying_key signer origin.origin_key_hex
          ≡ some (signer.verifying_key origin.signing_key) =
        ap (parse_verifying_key signer) own ∙ parse-verifying_key signer origin.signing_key in
      let verified =
        verify_relay-sign_relay signer origin.signing_key origin.from_uid origin.to_uid origin.nonce
          origin.timestamp payload in
      let (v, admitted) =
        admit_relay_ready now r origin.origin_key_hex s'
          (ap (replayed origin.origin_key_hex origin.nonce) nonces ∙ ready.fresh) ready.timely
          (ap (λ rate. (admit origin.origin_key_hex now rate).1) rates ∙ ready.room) in
      (
        v,
        rw
            (
              handle_relay_message,
              fields_of-message_of origin payload b hops,
              verify_and_admit,
              by_key,
              parsed,
              verified,
            )
            admitted,
      )

  deliver_or_forward_target :
      (r : RelayFields) (s : AppState)
      → r.to_uid ≡ s.uid
      → (deliver_or_forward r s).events ≡ relay_info r.from_uid r.encrypted_payload ∷ []
  unfolding deliver_or_forward
  deliver_or_forward_target r s mine = rw (deliver_or_forward, (=?_iff r.to_uid s.uid).1 mine) refl

  deliver_or_forward_hop :
      (origin : RelayOrigin) (payload : Bytes) (b : Bool) (hops : ℕ) (s : AppState) (next : Bytes)
      → (origin.to_uid =? s.uid) ≡ false
      → suc hops ≤ 8
      → s.outgoing_open ≡ true
      → hop_toward origin.to_uid s ≡ some next
      → let h = deliver_or_forward (relayed origin payload b (suc hops)) s in
        (h.events ≡ []) × (h.sent ≡ (next, message_of (relayed origin payload b hops)) ∷ [])
  unfolding deliver_or_forward
  deliver_or_forward_hop origin payload b hops s next away few unclosed found =
      let within : leb (suc hops) 8 ≡ true = ground arith in
      let left : (suc hops == 0) ≡ false = ground arith in
      let less : suc hops - 1 ≡ hops = omega arith in
      (
        rw (deliver_or_forward, away, within, left, found) refl,
        rw (deliver_or_forward, away, within, left, found, less)
            (ap (λ c. if c then (next, message_of (relayed origin payload b hops)) ∷ [] else [])
              unclosed),
      )

  -- Along a route of no more nodes than one more than the hops that are left.
  carry-Route :
      (origin : RelayOrigin) (payload : Bytes) (b : Bool) (hops : ℕ) (nodes : List (ℕ × AppState))
      (uid : Bytes)
      → origin.origin_key_hex ≡ hex_encode (signer.verifying_key origin.signing_key)
      → hops ≤ 8
      → length nodes ≤ suc hops
      → Route origin nodes uid
      → carry nodes ((uid, message_of (relayed origin payload b hops)) ∷ [])
        ≡ relay_info origin.from_uid payload ∷ []
  unfolding carry
  carry-Route origin payload b hops _ _ own few long (Route.target now s mine ready) =
      let (v, handled) = handle_relay_message_ready origin payload b hops now s own ready in
      let shown =
        ap (λ (h : Handled). h.events) handled
        ∙ deliver_or_forward_target (relayed origin payload b hops)
            (record s { relay_verifier = v }) mine in
      rw (carry, (=?_iff s.uid s.uid).1 refl, shown) refl
  carry-Route origin payload b zero _ _ own few long
        (Route.hop now s nodes next away ready unclosed found onward) =
      absurd (omega (arith, Route-length onward))
  carry-Route origin payload b (suc hops) _ _ own few long
        (Route.hop now s nodes next away ready unclosed found onward) =
      let (v, handled) = handle_relay_message_ready origin payload b (suc hops) now s own ready in
      let (quiet, sent) =
        deliver_or_forward_hop origin payload b hops (record s { relay_verifier = v }) next away few
          unclosed found in
      rw
        (
          carry,
          (=?_iff s.uid s.uid).1 refl,
          ap (λ (h : Handled). h.events) handled ∙ quiet,
          ap (λ (h : Handled). h.sent) handled ∙ sent,
        )
        (carry-Route origin payload b hops nodes next own (omega arith) (omega arith) onward)

  -- The originator of a request.
  abbrev pub origin_of : ℕ → Bytes → Bytes → AppState → RelayOrigin
  origin_of now to_uid signing_key s = record {
    signing_key = signing_key;
    origin_key_hex = s.public_hex;
    from_uid = s.uid;
    to_uid = to_uid;
    nonce = (s.relay_nonce + 1) % 2 ^ 64;
    timestamp = now;
    hops_left = relay_max_hops;
  }

  -- The request that send_relay sends reaches its target, which shows it as one of the sender, along
  -- every route of at most 8 relays that are ready for it, each connected to the next or with a path
  -- to it.
  pub carry-send_relay :
      (now : ℕ) (to_uid payload signing_key next : Bytes) (s : AppState)
      (nodes : List (ℕ × AppState))
      → s.signing_key ≡ some signing_key
      → s.public_hex ≡ hex_encode (signer.verifying_key signing_key)
      → s.outgoing_open ≡ true
      → hop_toward to_uid s ≡ some next
      → Route (origin_of now to_uid signing_key s) nodes next
      → length nodes ≤ 9
      → carry nodes (send_relay signer now to_uid payload s).1 ≡ relay_info s.uid payload ∷ []
  unfolding send_relay build_relay_request
  carry-send_relay now to_uid payload signing_key next s nodes keyed own unclosed found route long =
      rw (send_relay, keyed, found, unclosed, build_relay_request)
        (carry-Route (origin_of now to_uid signing_key s) payload true 8 nodes next own
          (omega arith) (omega arith) route)
