-- ===== src/Net/Relay/Node/Admission.antt =====
-- What a node shows and forwards was signed by its originator, and has hops left.
use chrono_shift.Prelude.{ℕ, ◌≤◌, ◌≡◌, ◌≢◌, ◌⊎◌, true, none, some, [], ◌∷◌, is_ok}
use chrono_shift.Prelude.Keys.{Bytes, bytes_eq}
use chrono_shift.Prelude.Dict.{lookup}
use chrono_shift.Primitives.{Signer}
use chrono_shift.Net.Session.Handshake.{parse_verifying_key}
use chrono_shift.Net.Relay.{check}
use chrono_shift.Net.Relay.Signing.{verify_relay}
use chrono_shift.Net.Relay.Node.{
  RelayFields, AppState, Handled, forwarded, relay_info, hop_toward, key_for,
}

-- Nothing is shown and nothing sent.
abbrev pub Quiet : Handled → Type 0
Quiet h = (h.events ≡ []) × (h.sent ≡ [])

-- For the node itself, and shown, or for another, and sent on as it came, with one hop less of at most 8.
abbrev pub Passed : RelayFields → AppState → Handled → Type 0
Passed r s h =
    ((r.to_uid ≡ s.uid)
      × (h.events ≡ relay_info r.from_uid r.encrypted_payload ∷ [])
      × (h.sent ≡ []))
    ⊎ ((r.to_uid ≢ s.uid)
        × (h.events ≡ [])
        × (1 ≤ r.hops_left)
        × (r.hops_left ≤ 8)
        × (next_uid : Bytes) × (hop_toward r.to_uid s ≡ some next_uid)
        × (h.sent ≡ (next_uid, forwarded r) ∷ []))

-- The key is the one of a session with the originator, or without one the key of the message.
abbrev KeyOf : RelayFields → AppState → Bytes → Type 0
KeyOf r s key =
    let known = lookup r.from_uid s.connection_manager.known_peer_keys in
    (known ≡ some key) ⊎ ((known ≡ none) × (key ≡ r.origin_key_hex))

module _ (signer : Signer) where
  -- The originator's key verifies the fields, and they are admitted under that key.
  abbrev pub Signed : ℕ → RelayFields → AppState → Type 0
  Signed now r s =
      (key : Bytes) × KeyOf r s key
      × (vk : Bytes) × (parse_verifying_key signer key ≡ some vk)
      × (verify_relay signer vk r.from_uid r.to_uid r.nonce r.timestamp r.encrypted_payload
            r.signature
          ≡ true)
      × (is_ok (check key r.nonce r.timestamp now (key_for r s).0).1 ≡ true)
