-- ===== src/Dcnet/Tests.antt =====
-- Runs of dcnet/ on small inputs.
use mathlib.Core.List.Perm
use mathlib.Core.List.{Perm}
use chrono_shift.Prelude.{
  ok, ok, ℕ, ◌+◌, ◌≤◌, ◌≡◌, ◌↔◌, refl, true, false, some, List, [], ◌∷◌, ◌++◌, arith, All, length,
}
use chrono_shift.Prelude.Keys.{Bytes, bytes_eq, bytes_beq, contains, Distinct}
use chrono_shift.Prelude.Dict.{Dict, lookup, has_key}
use chrono_shift.Primitives.{toy_hash, toy_kdf}
use chrono_shift.Dcnet.Xor.{xor_bytes}
use chrono_shift.Dcnet.Frame.{unpad_message, frame, pad_message_fits, unpad-pad}
use chrono_shift.Dcnet.Tracker
use chrono_shift.Dcnet.Tracker.{observe, accepted_ids, consecutive, observe-consecutive}
use chrono_shift.Dcnet.Collector.Invariant.{
  IsValid, new-IsValid, submit_share_iff, submit_share-IsValid, is_complete_iff,
}
use chrono_shift.Dcnet.Collector.{
  RoundCollector, new, submit_share, missing_participants, is_complete, extract_message,
  compute_xor_share_secure,
}
use chrono_shift.Dcnet.Broadcast.Masks.{SharedEdges}
use chrono_shift.Dcnet.Broadcast.Submissions.{submit_all, from_members}
use chrono_shift.Dcnet.Broadcast.Delivery.{message_of, broadcast_delivers}

xor_hello : xor_bytes (104 ∷ 101 ∷ 108 ∷ []) (119 ∷ 111 ∷ []) ≡ 31 ∷ 10 ∷ 108 ∷ []
unfolding xor_bytes
xor_hello = refl

abbrev alice : Bytes
alice = 97 ∷ []

abbrev bob : Bytes
bob = 98 ∷ []

abbrev carol : Bytes
carol = 99 ∷ []

abbrev members : List Bytes
members = alice ∷ bob ∷ carol ∷ []

-- Every member holds the key 9 for each of the others.
uniform : List Bytes → Dict Bytes Bytes
uniform [] = []
uniform (u ∷ us) = (u, 9 ∷ []) ∷ uniform us

uniform-lookup :
    (us : List Bytes) (u : Bytes) → contains us u ≡ true → lookup u (uniform us) ≡ some (9 ∷ [])
unfolding uniform
uniform-lookup [] u m = cc
uniform-lookup (v ∷ us) u m = ground (arith, uniform-lookup us u)

uniform-SharedEdges : SharedEdges members (λ u. uniform members)
uniform-SharedEdges a b ma mb ne =
    (9 ∷ [], uniform-lookup members b mb, uniform-lookup members a ma)

members-Distinct : Distinct members
unfolding bytes_beq
members-Distinct = (refl, (refl, (refl, tt)))

arrivals : Perm (carol ∷ alice ∷ bob ∷ []) members
arrivals = Perm.trans (Perm.swap alice carol (bob ∷ [])) (Perm.cons alice (Perm.swap bob carol []))

broadcast_delivers_example :
    (shares : Bytes → Bytes) × All
      (λ u.
        compute_xor_share_secure toy_hash toy_kdf 1 u members
          (message_of bob (104 ∷ 105 ∷ []) u)
          64
          (uniform members)
        ≡ some (shares u))
      members
    × (collector : RoundCollector) × (submit_all
          (from_members shares (carol ∷ alice ∷ bob ∷ []))
          (new 100 (35 ∷ []) 1 members 30 64)
        ≡ ok collector)
    × (is_complete collector ≡ true)
    × (payload : Bytes) × (extract_message collector ≡ some payload)
    × (unpad_message toy_hash payload ≡ some (104 ∷ 105 ∷ []))
broadcast_delivers_example =
    broadcast_delivers toy_hash toy_kdf 1 64 100 30 (35 ∷ []) (λ u. uniform members) members
      (carol ∷ alice ∷ bob ∷ []) bob (104 ∷ 105 ∷ []) members-Distinct (omega arith)
      uniform-SharedEdges (unfold bytes_beq in refl) arrivals (omega arith) (omega arith)

abbrev started : RoundCollector
started = new 100 (35 ∷ []) 1 (alice ∷ bob ∷ alice ∷ []) 60 4

started-IsValid : IsValid started
started-IsValid = new-IsValid 100 (35 ∷ []) 1 (alice ∷ bob ∷ alice ∷ []) 60 4

abbrev one_share : RoundCollector
one_share = record started { shares_received = (bob, 1 ∷ 2 ∷ 3 ∷ 4 ∷ []) ∷ [] }

one_share_submitted : submit_share bob (1 ∷ 2 ∷ 3 ∷ 4 ∷ []) started ≡ ok one_share
unfolding submit_share new bytes_beq
one_share_submitted = refl

one_share-IsValid : IsValid one_share
one_share-IsValid =
    submit_share-IsValid bob (1 ∷ 2 ∷ 3 ∷ 4 ∷ []) started one_share started-IsValid
      one_share_submitted

submit_share_iff_example : (submit_share bob (1 ∷ 2 ∷ 3 ∷ 4 ∷ []) started ≡ ok one_share) ↔ (
    (contains started.participants bob ≡ true)
    × (has_key bob started.shares_received ≡ false)
    × (length {A = ℕ} (1 ∷ 2 ∷ 3 ∷ 4 ∷ []) ≡ started.payload_len)
    × (one_share ≡ record started {
      shares_received = started.shares_received ++ (bob, 1 ∷ 2 ∷ 3 ∷ 4 ∷ []) ∷ [];
    }))
submit_share_iff_example = submit_share_iff bob (1 ∷ 2 ∷ 3 ∷ 4 ∷ []) started one_share

is_complete_iff_example : (is_complete one_share ≡ true) ↔ (missing_participants one_share ≡ [])
is_complete_iff_example = is_complete_iff one_share one_share-IsValid

hi_padded : Bytes
unfolding frame
hi_padded = frame toy_hash (104 ∷ 105 ∷ []) 26

unpad-hi : unpad_message toy_hash hi_padded ≡ some (104 ∷ 105 ∷ [])
unfolding hi_padded
unpad-hi =
    unpad-pad toy_hash (104 ∷ 105 ∷ []) 64 (omega arith)
      (pad_message_fits toy_hash (104 ∷ 105 ∷ []) 64 (omega arith))

unpad-pad_example : unpad_message toy_hash hi_padded ≡ some (104 ∷ 105 ∷ [])
unfolding hi_padded
unpad-pad_example =
    unpad-pad toy_hash (104 ∷ 105 ∷ []) 64 (omega arith)
      (pad_message_fits toy_hash (104 ∷ 105 ∷ []) 64 (omega arith))

observe-consecutive_example :
    (k : ℕ) × (k ≤ 4)
    × (accepted_ids (2 ∷ 1 ∷ 1 ∷ 2 ∷ []) (observe (2 ∷ 1 ∷ 1 ∷ 2 ∷ []) Tracker.new).1
        ≡ consecutive 0 k)
    × ((observe (2 ∷ 1 ∷ 1 ∷ 2 ∷ []) Tracker.new).0.current_round_id ≡ 0 + k)
unfolding Tracker.new
observe-consecutive_example = observe-consecutive (2 ∷ 1 ∷ 1 ∷ 2 ∷ []) Tracker.new (omega arith)
