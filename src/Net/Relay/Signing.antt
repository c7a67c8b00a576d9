-- ===== src/Net/Relay/Signing.antt =====
-- The bytes that a relay signature of net/relay.rs covers.
use chrono_shift.Prelude.{
  ℕ, ◌^◌, ◌<◌, ◌≡◌, refl, Bool, true, ◌&&◌, [], ◌∷◌, ◌++◌, length, arith, ◌==◌,
}
use chrono_shift.Prelude.Keys.{Bytes}
use chrono_shift.Prelude.Words.{to_be_bytes, field_injective, split_equal, u64_injective}
use chrono_shift.Primitives.{Signer}

-- b"chrono-relay-v1"
abbrev pub relay_sig_domain : Bytes
relay_sig_domain =
    99 ∷ 104 ∷ 114 ∷ 111 ∷ 110 ∷ 111 ∷ 45 ∷ 114 ∷ 101 ∷ 108 ∷ 97 ∷ 121 ∷ 45 ∷ 118 ∷ 49 ∷ []

-- `len() as u32` keeps the low 32 bits, which `to_be_bytes 4` does.
unfoldable pub relay_signature_message : Bytes → Bytes → ℕ → ℕ → Bytes → Bytes
relay_signature_message from_uid to_uid nonce timestamp payload =
    relay_sig_domain
    ++ (to_be_bytes 4 (length from_uid)
        ++ (from_uid
            ++ (to_be_bytes 4 (length to_uid)
                ++ (to_uid
                    ++ (to_be_bytes 8 nonce
                        ++ (to_be_bytes 8 timestamp
                            ++ (to_be_bytes 4 (length payload) ++ payload)))))))

-- The signed bytes determine every field: no two messages share a signature by their framing.
pub relay_signature_message_injective :
    (from_uid to_uid : Bytes) (nonce timestamp : ℕ) (payload : Bytes) (from_uid' to_uid' : Bytes)
    (nonce' timestamp' : ℕ) (payload' : Bytes)
    → (length from_uid < 2 ^ 32) × (length from_uid' < 2 ^ 32)
    → (length to_uid < 2 ^ 32) × (length to_uid' < 2 ^ 32)
    → (nonce < 2 ^ 64) × (nonce' < 2 ^ 64)
    → (timestamp < 2 ^ 64) × (timestamp' < 2 ^ 64)
    → relay_signature_message from_uid to_uid nonce timestamp payload
      ≡ relay_signature_message from_uid' to_uid' nonce' timestamp' payload'
    → (from_uid ≡ from_uid')
      × (to_uid ≡ to_uid')
      × (nonce ≡ nonce')
      × (timestamp ≡ timestamp')
      × (payload ≡ payload')
unfolding relay_signature_message
relay_signature_message_injective from_uid to_uid nonce timestamp payload from_uid' to_uid' nonce'
      timestamp' payload' f t n s e =
    let (_, e1) = split_equal relay_sig_domain relay_sig_domain _ _ refl e in
    let (from_eq, e2) = field_injective from_uid from_uid' _ _ f.0 f.1 e1 in
    let (to_eq, e3) = field_injective to_uid to_uid' _ _ t.0 t.1 e2 in
    let (nonce_eq, e4) = split_equal (to_be_bytes 8 nonce) (to_be_bytes 8 nonce') _ _ refl e3 in
    let (time_eq, e5) =
      split_equal (to_be_bytes 8 timestamp) (to_be_bytes 8 timestamp') _ _ refl e4 in
    let (_, payload_eq) =
      split_equal (to_be_bytes 4 (length payload)) (to_be_bytes 4 (length payload')) _ _ refl e5 in
    (
      from_eq,
      to_eq,
      u64_injective nonce nonce' n.0 n.1 nonce_eq,
      u64_injective timestamp timestamp' s.0 s.1 time_eq,
      payload_eq,
    )

module _ (signer : Signer) where
  unfoldable pub sign_relay : Bytes → Bytes → Bytes → ℕ → ℕ → Bytes → Bytes
  sign_relay signing_key from_uid to_uid nonce timestamp payload =
      signer.sign signing_key (relay_signature_message from_uid to_uid nonce timestamp payload)

  -- `Signature::from_slice` wants 64 bytes.
  unfoldable pub verify_relay : Bytes → Bytes → Bytes → ℕ → ℕ → Bytes → Bytes → Bool
  verify_relay vk from_uid to_uid nonce timestamp payload signature =
      length signature == 64
      && signer.verify vk (relay_signature_message from_uid to_uid nonce timestamp payload)
          signature

  -- What an originator signs verifies under its key.
  pub verify_relay-sign_relay :
      (signing_key from_uid to_uid : Bytes) (nonce timestamp : ℕ) (payload : Bytes)
      → verify_relay
          (signer.verifying_key signing_key)
          from_uid
          to_uid
          nonce
          timestamp
          payload
          (sign_relay signing_key from_uid to_uid nonce timestamp payload)
        ≡ true
  unfolding sign_relay verify_relay
  verify_relay-sign_relay signing_key from_uid to_uid nonce timestamp payload =
      let m = relay_signature_message from_uid to_uid nonce timestamp payload in
      ground (arith, signer.length-sign signing_key m, signer.verify-sign signing_key m)
