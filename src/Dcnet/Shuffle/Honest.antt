-- ===== src/Dcnet/Shuffle/Honest.antt =====
-- Nobody is blamed when all slots of a shuffle come from `submit`.
use chrono_shift.Prelude.{
  ℕ, ◌+◌, ◌%◌, ◌^◌, ◌≤◌, ◌<◌, ◌≡◌, refl, sym, ap, ◌∙◌, true, false, Option, none, some, List, [],
  ◌∷◌, ◌++◌, length, take, drop, arith, ltb, if◌then◌else◌, take-append, drop-append, length-append,
  All, All-map, All-push,
}
use native.Mathlib.Nat.{mod-eq_of_lt}
use chrono_shift.Prelude.Keys.{Bytes, nat_eq, ◌=?◌, =?_iff, =?_refl}
use chrono_shift.Prelude.Dict.{lookup, insert, lookup-insert}
use chrono_shift.Primitives.{Hash, Aead, Encrypts}
use chrono_shift.Crypto.Compare.{constant_time_eq_iff}
use chrono_shift.Dcnet.Shuffle.{
  ShuffleSlot, ShuffleCommitment, new, submit, push_slot, update_merkle_root, verify, decrypt_under,
  decrypt_slot, find_from, find_cheater, cheating_from, check_cheating,
}

-- What a node submits, with its key and nonce.
pub record Submission : Type 0 where
  pub key : Bytes
  pub nonce : Bytes
  pub node_id : Bytes
  pub message : Bytes

abbrev pub IsSubmittable : Submission → Type 0
IsSubmittable m = (length m.nonce ≡ 12) × (length m.message ≤ 2 ^ 36)

module _ (aead : Aead) (hash : Hash) where
  -- The slot is opened, and the plaintext has its commitment.
  abbrev Opens : ShuffleCommitment → ShuffleSlot → Type 0
  Opens c slot =
      (pt : Bytes) × (decrypt_slot aead hash c slot ≡ some pt) × (verify aead hash slot pt ≡ true)

  abbrev IsHonest : ShuffleCommitment → Type 0
  IsHonest c = All (λ slot. (slot.index < length c.slots) × Opens c slot) c.slots

  unfoldable pub submit_all : List Submission → ShuffleCommitment → Option ShuffleCommitment
  submit_all [] c = some c
  submit_all (m ∷ ms) c = elim (submit aead hash m.key m.nonce m.node_id m.message c) [
    | none ↦ none
    | some (slot, c') ↦ submit_all ms c'
  ]

  find_from-Opens :
      (c : ShuffleCommitment) (i : ℕ) (slots : List ShuffleSlot)
      → All (λ slot. Opens c slot) slots
      → (find_from aead hash c i slots ≡ none) × (cheating_from aead hash c i slots ≡ [])
  unfolding find_from cheating_from
  find_from-Opens c i [] all = (refl, refl)
  find_from-Opens c i (slot ∷ slots) all =
      let (pt, opened, right) = all.0 in
      let (found, blamed) = find_from-Opens c (i + 1) slots all.1 in
      (rw (find_from, opened, right) found, rw (cheating_from, opened, right) blamed)

  -- The slots and the keys after a submission: a key is looked up by its index.
  decrypt_slot-older :
      (key : Bytes) (slot s : ShuffleSlot) (c : ShuffleCommitment)
      → s.index < slot.index
      → decrypt_slot aead hash (push_slot aead hash key slot c) s ≡ decrypt_slot aead hash c s
  unfolding decrypt_slot push_slot update_merkle_root
  decrypt_slot-older key slot s c older =
      let other : (slot.index =? s.index) ≡ false = ground (arith, =?_iff slot.index s.index) in
      let same : lookup s.index (insert slot.index key c.slot_keys) ≡ lookup s.index c.slot_keys =
        lookup-insert slot.index s.index key c.slot_keys
        ∙ ap (λ b. if b then some key else lookup s.index c.slot_keys) other in
      rw same refl

  decrypt_slot-newest :
      (key message nonce ct : Bytes) (slot : ShuffleSlot) (c : ShuffleCommitment)
      → length nonce ≡ 12
      → aead.encrypt key nonce message ≡ some ct
      → slot.ciphertext ≡ nonce ++ ct
      → decrypt_slot aead hash (push_slot aead hash key slot c) slot ≡ some message
  unfolding decrypt_slot decrypt_under push_slot update_merkle_root
  decrypt_slot-newest key message nonce ct slot c n made is_ct =
      let long : ltb (length (nonce ++ ct)) 28 ≡ false =
        ground (arith, length-append nonce ct, aead.length-encrypt key nonce message made) in
      let front : take 12 (nonce ++ ct) ≡ nonce = rw (← n) (take-append nonce ct) in
      let behind : drop 12 (nonce ++ ct) ≡ ct = rw (← n) (drop-append nonce ct) in
      let known : lookup slot.index (insert slot.index key c.slot_keys) ≡ some key =
        lookup-insert slot.index slot.index key c.slot_keys
        ∙ ap (λ b. if b then some key else lookup slot.index c.slot_keys) (=?_refl slot.index) in
      rw (is_ct, long, known, decrypt_under, front, behind)
        (aead.decrypt-encrypt key nonce message made)

  push_slot-IsHonest :
      (key message nonce ct : Bytes) (slot : ShuffleSlot) (c : ShuffleCommitment)
      → length nonce ≡ 12
      → aead.encrypt key nonce message ≡ some ct
      → slot.ciphertext ≡ nonce ++ ct
      → slot.commitment ≡ hash.digest message
      → slot.index ≡ length c.slots
      → IsHonest c
      → IsHonest (push_slot aead hash key slot c)
  unfolding push_slot update_merkle_root verify
  push_slot-IsHonest key message nonce ct slot c n made is_ct is_digest is_next honest =
      let c' = push_slot aead hash key slot c in
      let grown : length (c.slots ++ slot ∷ []) ≡ length c.slots + 1 =
        length-append c.slots (slot ∷ []) in
      All-push (λ s. (s.index < length c'.slots) × Opens c' s) c.slots slot
        (All-map (λ s. (s.index < length c.slots) × Opens c s)
          (λ s. (s.index < length c'.slots) × Opens c' s) c.slots
          (λ s (low, (pt, opened, right)).
            (omega arith, (pt, decrypt_slot-older key slot s c (omega arith) ∙ opened, right)))
          honest)
        (
          omega arith,
          (
            message,
            decrypt_slot-newest key message nonce ct slot c n made is_ct,
            (constant_time_eq_iff (hash.digest message) slot.commitment).1 (sym is_digest),
          ),
        )

  submit-IsHonest :
      (m : Submission) (c : ShuffleCommitment)
      → Encrypts aead
      → IsSubmittable m
      → length c.slots < 2 ^ 16
      → IsHonest c
      → (slot : ShuffleSlot) × (c' : ShuffleCommitment) × (submit aead hash m.key m.nonce m.node_id
            m.message c
          ≡ some (slot, c'))
        × (length c'.slots ≡ length c.slots + 1)
        × IsHonest c'
  unfolding submit push_slot update_merkle_root
  submit-IsHonest m c encrypts (n, fits) room honest =
      let (ct, made) = encrypts m.key m.nonce m.message n fits in
      let slot : ShuffleSlot = record {
        index = length c.slots % 2 ^ 16;
        ciphertext = m.nonce ++ ct;
        commitment = hash.digest m.message;
        node_id = m.node_id;
      } in
      (
        slot,
        push_slot aead hash m.key slot c,
        rw (submit, made) refl,
        length-append c.slots (slot ∷ []),
        push_slot-IsHonest m.key m.message m.nonce ct slot c n made refl refl
            (mod-eq_of_lt {n = length c.slots} {m = 2 ^ 16} room) honest,
      )

  submit_all-IsHonest :
      (ms : List Submission) (c : ShuffleCommitment)
      → Encrypts aead
      → All IsSubmittable ms
      → length c.slots + length ms ≤ 2 ^ 16
      → IsHonest c
      → (c' : ShuffleCommitment) × (submit_all ms c ≡ some c') × IsHonest c'
  unfolding submit_all
  submit_all-IsHonest [] c encrypts submittable room honest = (c, refl, honest)
  submit_all-IsHonest (m ∷ ms) c encrypts submittable room honest =
      let (slot, c', first, grown, honest') =
        submit-IsHonest m c encrypts submittable.0 (omega arith) honest in
      let (c'', later, honest'') =
        submit_all-IsHonest ms c' encrypts submittable.1 (omega arith) honest' in
      (c'', rw (submit_all, first) later, honest'')

  -- When every slot of a new shuffle was submitted, by whatever nodes, at most 2^16 of them, the
  -- reveal finds no cheater and the blame protocol blames nobody, if the encryption does not fail.
  pub find_cheater-submit_all :
      (round_id node_count : ℕ) (ms : List Submission)
      → Encrypts aead
      → All IsSubmittable ms
      → length ms ≤ 2 ^ 16
      → (c : ShuffleCommitment) × (submit_all ms (new round_id node_count) ≡ some c)
        × (find_cheater aead hash c ≡ none)
        × (check_cheating aead hash c ≡ [])
  unfolding new find_cheater check_cheating
  find_cheater-submit_all round_id node_count ms encrypts submittable room =
      let (c, done, honest) =
        submit_all-IsHonest ms (new round_id node_count) encrypts submittable (omega arith) tt in
      let (found, blamed) = find_from-Opens c 0 c.slots (
        All-map (λ s. (s.index < length c.slots) × Opens c s) (λ s. Opens c s) c.slots
          (λ s (low, opens). opens) honest) in
      (c, done, found, blamed)
