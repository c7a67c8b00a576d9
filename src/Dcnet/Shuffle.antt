-- ===== src/Dcnet/Shuffle.antt =====
-- dcnet/shuffle.rs: the slots of a verifiable shuffle, and who is blamed. The random key and nonce
-- of a slot are arguments; an encryption that fails, which panics in the source, is `none`.
mod Tests
pub mod Honest
use chrono_shift.Prelude.{
  ℕ, ◌+◌, ◌%◌, ◌^◌, Bool, true, false, not, Option, none, some, List, [], ◌∷◌, ◌++◌, length, take,
  drop, replicate, ltb, if◌then◌else◌,
}
use chrono_shift.Prelude.Keys.{Bytes, nat_eq, bytes_eq, contains}
use chrono_shift.Prelude.Dict.{Dict, lookup, insert}
use chrono_shift.Primitives.{Hash, Aead}
use chrono_shift.Crypto.Compare.{constant_time_eq}

pub record ShuffleSlot : Type 0 where
  pub index : ℕ
  pub ciphertext : Bytes
  pub commitment : Bytes
  pub node_id : Bytes

pub record ShuffleCommitment : Type 0 where
  pub round_id : ℕ
  pub node_count : ℕ
  pub slots : List ShuffleSlot
  pub merkle_root : Bytes
  pub slot_keys : Dict ℕ Bytes

unfoldable pub new : ℕ → ℕ → ShuffleCommitment
new round_id node_count = record {
  round_id = round_id;
  node_count = node_count;
  slots = [];
  merkle_root = replicate 32 0;
  slot_keys = [];
}

-- The commitments, one after the other.
unfoldable pub commitments : List ShuffleSlot → Bytes
commitments [] = []
commitments (s ∷ slots) = s.commitment ++ commitments slots

pub data BlameVerdict : Type 0 where
  offline : (node_id : Bytes) → BlameVerdict
  cheating : (node_id : Bytes) (slot : ℕ) → BlameVerdict
  clean : BlameVerdict

unfoldable pub check_attendance : List Bytes → List Bytes → List BlameVerdict
check_attendance [] actual = []
check_attendance (e ∷ expected) actual =
    let rest = check_attendance expected actual in
    if not (contains actual e) then BlameVerdict.offline e ∷ rest else rest

module _ (aead : Aead) (hash : Hash) where
  -- Without slots the root stays.
  unfoldable pub merkle_root_of : List ShuffleSlot → Bytes → Bytes
  merkle_root_of [] root = root
  merkle_root_of (s ∷ slots) root = hash.digest (commitments (s ∷ slots))

  unfoldable pub update_merkle_root : ShuffleCommitment → ShuffleCommitment
  update_merkle_root c = record c { merkle_root = merkle_root_of c.slots c.merkle_root }

  -- A slot goes in with its key.
  unfoldable pub push_slot : Bytes → ShuffleSlot → ShuffleCommitment → ShuffleCommitment
  push_slot key slot c =
      update_merkle_root
        (record c { slot_keys = insert slot.index key c.slot_keys; slots = c.slots ++ slot ∷ [] })

  unfoldable pub submit :
      Bytes → Bytes → Bytes → Bytes → ShuffleCommitment → Option (ShuffleSlot × ShuffleCommitment)
  submit key nonce node_id message c = elim (aead.encrypt key nonce message) [
    | none ↦ none
    | some ct ↦
        let slot : ShuffleSlot = record {
          index = length c.slots % 2 ^ 16;
          ciphertext = nonce ++ ct;
          commitment = hash.digest message;
          node_id = node_id;
        } in
        some (slot, push_slot key slot c)
  ]

  unfoldable pub verify : ShuffleSlot → Bytes → Bool
  verify slot plaintext = constant_time_eq (hash.digest plaintext) slot.commitment

  unfoldable pub reveal_key : ℕ → ShuffleCommitment → Option Bytes
  reveal_key index c = lookup index c.slot_keys

  -- Under the key, if it is known.
  unfoldable pub decrypt_under : Option Bytes → Bytes → Option Bytes
  decrypt_under none ciphertext = none
  decrypt_under (some key) ciphertext = aead.decrypt key (take 12 ciphertext) (drop 12 ciphertext)

  unfoldable pub decrypt_slot : ShuffleCommitment → ShuffleSlot → Option Bytes
  decrypt_slot c slot =
      if ltb (length slot.ciphertext) 28
      then none
      else decrypt_under (lookup slot.index c.slot_keys) slot.ciphertext

  -- From the slot with number `i` on.
  unfoldable pub find_from : ShuffleCommitment → ℕ → List ShuffleSlot → Option ℕ
  find_from c i [] = none
  find_from c i (slot ∷ slots) =
      let rest = find_from c (i + 1) slots in
      elim (decrypt_slot c slot) [
        | none ↦ some i
        | some pt ↦ if not (verify slot pt) then some i else rest
      ]

  unfoldable pub find_cheater : ShuffleCommitment → Option ℕ
  find_cheater c = find_from c 0 c.slots

  unfoldable pub cheating_from : ShuffleCommitment → ℕ → List ShuffleSlot → List BlameVerdict
  cheating_from c i [] = []
  cheating_from c i (slot ∷ slots) =
      let rest = cheating_from c (i + 1) slots in
      let blamed = BlameVerdict.cheating slot.node_id (i % 2 ^ 16) ∷ rest in
      elim (decrypt_slot c slot) [
        | none ↦ blamed
        | some pt ↦ if not (verify slot pt) then blamed else rest
      ]

  unfoldable pub check_cheating : ShuffleCommitment → List BlameVerdict
  check_cheating c = cheating_from c 0 c.slots
