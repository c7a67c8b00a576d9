-- ===== src/Ratchet/Tests.antt =====
-- Runs of the ratchet on small inputs.
use chrono_shift.Prelude.{◌≡◌, refl, true, false, some, [], ◌∷◌, ◌++◌, replicate, arith}
use chrono_shift.Prelude.Keys.{Bytes}
use chrono_shift.Primitives.{toy_aead-Encrypts, toy_hash, toy_kdf, toy_aead, toy_dh, toy_encrypt}
use chrono_shift.Ratchet.{
  RatchetState, new_alice, new_bob, complete_handshake, decrypt, advance_recv,
}
use chrono_shift.Ratchet.Exchange.{Linked}
use chrono_shift.Ratchet.Lockstep.{Turn, converse, converse-handshake}
use chrono_shift.Ratchet.Window.{
  Arriving, IncreasingFrom, accepted_all, accepted_all-IncreasingFrom, decrypt_all,
  decrypt_all-refused,
}
use mathlib.Core.List.{List}

abbrev key_one : Bytes
key_one = 1 ∷ []

abbrev key_two : Bytes
key_two = 2 ∷ []

abbrev some_nonce : Bytes
some_nonce = replicate 12 5

abbrev turns : List Turn
turns =
    record { first_speaks = true; nonce = some_nonce; plaintext = 72 ∷ 105 ∷ [] }
    ∷ record { first_speaks = false; nonce = some_nonce; plaintext = 33 ∷ [] }
    ∷ record { first_speaks = false; nonce = some_nonce; plaintext = [] }
    ∷ []

converse-handshake_example :
    (a' b' : RatchetState) × (converse toy_aead toy_hash toy_kdf turns
        (complete_handshake toy_dh toy_kdf
          (toy_dh.public key_two)
          (new_alice toy_dh toy_kdf key_one))
        (new_bob toy_dh toy_kdf key_two (toy_dh.public key_one))
      ≡ some (some (72 ∷ 105 ∷ []) ∷ some (33 ∷ []) ∷ some [] ∷ [], a', b'))
    × Linked a' b'
converse-handshake_example =
    converse-handshake toy_aead toy_hash toy_dh toy_kdf key_one key_two turns toy_aead-Encrypts
      (omega arith) (omega arith)

-- A frame that is too short, a frame, the same again, one more, and one that is behind.
abbrev frames : List Arriving
frames =
    (some_nonce, 9)
    ∷ (replicate 30 0, 1)
    ∷ (replicate 30 0, 1)
    ∷ (replicate 31 0, 4)
    ∷ (replicate 30 0, 3)
    ∷ []

frames_accepted :
    accepted_all toy_aead toy_hash toy_kdf frames (new_bob toy_dh toy_kdf key_two key_one)
    ≡ 1 ∷ 4 ∷ []
unfolding accepted_all decrypt advance_recv toy_aead new_bob new_alice complete_handshake
frames_accepted = refl

accepted_all-IncreasingFrom_example :
    IncreasingFrom
      (new_bob toy_dh toy_kdf key_two key_one).expected_recv_idx
      (accepted_all toy_aead toy_hash toy_kdf frames (new_bob toy_dh toy_kdf key_two key_one))
accepted_all-IncreasingFrom_example =
    accepted_all-IncreasingFrom toy_aead toy_hash toy_kdf frames
      (new_bob toy_dh toy_kdf key_two key_one) (omega arith)

abbrev forged : List Arriving
forged = (some_nonce, 1000000) ∷ (replicate 40 0, 0) ∷ []

decrypt_all-refused_example :
    decrypt_all toy_aead toy_hash toy_kdf forged (new_bob toy_dh toy_kdf key_two key_one)
    ≡ new_bob toy_dh toy_kdf key_two key_one
decrypt_all-refused_example =
    decrypt_all-refused toy_aead toy_hash toy_kdf forged (new_bob toy_dh toy_kdf key_two key_one)
      (unfold accepted_all decrypt new_bob new_alice complete_handshake in refl)

-- Both directions start from one chain, so that a peer opens its own first frame.
reflected_frame :
    (decrypt toy_aead toy_hash toy_kdf
      (some_nonce ++ toy_encrypt (72 ∷ []))
      1
      (new_bob toy_dh toy_kdf key_two key_one)).0
    ≡ some (72 ∷ [], replicate 32 61)
unfolding decrypt advance_recv toy_aead toy_encrypt new_bob new_alice complete_handshake
reflected_frame = refl
