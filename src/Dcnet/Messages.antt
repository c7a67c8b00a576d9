-- ===== src/Dcnet/Messages.antt =====
-- The signatures of shares, and the messages of a round: dcnet/round_network.rs.
use chrono_shift.Prelude.{ℕ, ◌^◌, ◌<◌, ◌≡◌, refl, Bool, ◌&&◌, List, [], ◌∷◌, ◌++◌, length, ◌==◌}
use chrono_shift.Prelude.Keys.{Bytes}
use chrono_shift.Prelude.Words.{to_be_bytes, split_equal, field_injective, u64_injective}
use chrono_shift.Primitives.{Signer, Hash}
use chrono_shift.Net.Message.{PeerMessage}

-- b"chrono-dcnet-share-v1"
abbrev pub share_sig_domain : Bytes
share_sig_domain =
    99 ∷ 104 ∷ 114 ∷ 111 ∷ 110 ∷ 111 ∷ 45 ∷ 100 ∷ 99 ∷ 110 ∷ 101 ∷ 116 ∷ 45 ∷ 115 ∷ 104 ∷ 97 ∷ 114
    ∷ 101 ∷ 45 ∷ 118 ∷ 49 ∷ []

abbrev pub peer_id_of : Hash → Bytes → Bytes
peer_id_of h uid = h.digest uid

unfoldable pub share_signature_message : Bytes → ℕ → Bytes → Bytes
share_signature_message channel round_id share =
    share_sig_domain
    ++ (to_be_bytes 4 (length channel) ++ (channel ++ (to_be_bytes 8 round_id ++ share)))

-- A signature of a share speaks of one channel, one round and one share.
pub share_signature_message_injective :
    (channel channel' : Bytes) (round_id round_id' : ℕ) (share share' : Bytes)
    → (length channel < 2 ^ 32) × (length channel' < 2 ^ 32)
    → (round_id < 2 ^ 64) × (round_id' < 2 ^ 64)
    → share_signature_message channel round_id share
      ≡ share_signature_message channel' round_id' share'
    → (channel ≡ channel') × (round_id ≡ round_id') × (share ≡ share')
unfolding share_signature_message
share_signature_message_injective channel channel' round_id round_id' share share' c r e =
    let (_, e1) = split_equal share_sig_domain share_sig_domain _ _ refl e in
    let (channel_eq, e2) = field_injective channel channel' _ _ c.0 c.1 e1 in
    let (round_eq, share_eq) =
      split_equal (to_be_bytes 8 round_id) (to_be_bytes 8 round_id') _ _ refl e2 in
    (channel_eq, u64_injective round_id round_id' r.0 r.1 round_eq, share_eq)

module _ (signer : Signer) where
  unfoldable pub sign_share : Bytes → Bytes → ℕ → Bytes → Bytes
  sign_share signing_key channel round_id share =
      signer.sign signing_key (share_signature_message channel round_id share)

  -- `Signature::from_slice` wants 64 bytes.
  unfoldable pub verify_share_signature : Bytes → Bytes → ℕ → Bytes → Bytes → Bool
  verify_share_signature vk channel round_id share signature =
      length signature == 64
      && signer.verify vk (share_signature_message channel round_id share) signature

abbrev pub build_round_start : Bytes → ℕ → Bytes → List Bytes → ℕ → ℕ → PeerMessage
build_round_start channel round_id leader_id participants deadline_secs payload_len =
    PeerMessage.dc_round_start channel round_id leader_id participants deadline_secs payload_len

abbrev pub build_round_share : Bytes → ℕ → Bytes → Bytes → Bytes → PeerMessage
build_round_share channel round_id peer_uid xored_payload signature =
    PeerMessage.dc_round_share channel round_id peer_uid xored_payload signature
