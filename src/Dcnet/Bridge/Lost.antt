-- ===== src/Dcnet/Bridge/Lost.antt =====
-- The checkpoint that an append makes due: it is taken before the logged operation is applied.
use chrono_shift.Prelude.{
  ℕ, ◌+◌, ◌-◌, ◌≤◌, ◌≡◌, ◌⊎◌, refl, sym, ap, ◌∙◌, true, false, none, some, [], ◌∷◌, arith,
  if◌then◌else◌, Bool-cases, inl, inr,
}
use chrono_shift.Prelude.Keys.{Bytes, ◌=?◌, =?_iff, bytes_eq}
use chrono_shift.Prelude.Dict.{Dict, lookup, insert, lookup-insert}
use chrono_shift.Primitives.{Hash}
use chrono_shift.Storage.{
  WalOperation, WalStore, Json, Write, Fate, append, checkpoint, should_checkpoint, replay,
  lines_of, ops_of,
}
use chrono_shift.Dcnet.Bridge.{F2fDcNetBridge, F2fFriend, Env, new, with_edge_key}
use chrono_shift.Dcnet.Bridge.Saving.{
  friend_records, channel_records, snapshot_bridge, restore_friends, apply_snapshot,
}
use chrono_shift.Dcnet.Bridge.Logging.{log_wal, add_friend}
use chrono_shift.Dcnet.Bridge.Replay.{apply_ops}
use chrono_shift.Dcnet.Bridge.Recovery.{restart}
use chrono_shift.Dcnet.Bridge.Snapshot.{restore_channels-rest}

module _ {ℓ} {V : Type ℓ} where
  lookup-insert_same : (k : Bytes) (v : V) (d : Dict Bytes V) → lookup k (insert k v d) ≡ some v
  lookup-insert_same k v d =
      lookup-insert k k v d ∙ ap (λ t. if t then some v else lookup k d) ((=?_iff k k).1 refl)

  lookup-insert_other :
      (j k : Bytes) (v : V) (d : Dict Bytes V)
      → (j =? k) ≡ false
      → lookup k (insert j v d) ≡ lookup k d
  lookup-insert_other j k v d away =
      lookup-insert j k v d ∙ ap (λ t. if t then some v else lookup k d) away

module _ (h : Hash) where
  -- A snapshot brings back no friend that was not in it.
  lookup-restore_friends :
      (fresh : Bytes) (uid : Bytes) (friends d : Dict Bytes F2fFriend)
      → lookup uid friends ≡ none
      → lookup uid d ≡ none
      → lookup uid (restore_friends h fresh (friend_records friends) d) ≡ none
  unfolding restore_friends friend_records
  lookup-restore_friends fresh uid [] d absent bare = bare
  lookup-restore_friends fresh uid ((j, f) ∷ friends) d absent bare = elim (Bool-cases (j =? uid)) [
    | inl here ↦
        let clash : some f ≡ none =
          ap (λ b. if b then some f else lookup uid friends) (sym here) ∙ absent in
        absurd cc
    | inr away ↦
        let rest : lookup uid friends ≡ none =
          ap (λ b. if b then some f else lookup uid friends) (sym away) ∙ absent in
        lookup-restore_friends fresh uid friends _ rest (lookup-insert_other j uid _ d away ∙ bare)
  ]

  module _ (json : Json) where
    -- When the append of an added friend makes a checkpoint due, by the count of operations or by
    -- the time, and append and checkpoint succeed, a friend who was not there before is in the
    -- bridge and not in what is on the disk after the call: a start from there, as after a crash,
    -- is without it.
    pub add_friend_lost :
        (env : Env) (uid addr : Bytes) (trust : ℕ) (b : F2fDcNetBridge) (wal disk : WalStore)
        (now : ℕ) (fresh : ℕ → Bytes) (me : Bytes)
        → b.wal ≡ some wal
        → (wal.checkpoint_ops ≤ wal.ops_since_checkpoint + 1) ⊎ (60 ≤ env.now - wal.last_checkpoint)
        → env.write ≡ Write.whole
        → env.fate ≡ Fate.finished
        → lookup uid b.friends ≡ none
        → (add_friend h json env uid addr trust b).wal ≡ some disk
        → (lookup uid (add_friend h json env uid addr trust b).friends
            ≡ some (with_edge_key h uid addr trust env.fresh))
          × (lookup uid (restart h json now fresh me disk).friends ≡ none)
    unfolding add_friend log_wal append should_checkpoint checkpoint restart replay lines_of ops_of
        apply_ops apply_snapshot snapshot_bridge
    add_friend_lost env uid addr trust b wal disk now fresh me on full written done absent ended =
        let op = WalOperation.add_friend uid addr trust in
        let wal' = (append json env.stamp Write.whole op wal).1 in
        let due : should_checkpoint env.now wal' ≡ true = ground arith in
        let snap = snapshot_bridge (record b { wal = some wal' }) in
        let after = (checkpoint env.now Fate.finished snap wal').1 in
        let store : (add_friend h json env uid addr trust b).wal ≡ some after =
          rw (add_friend, log_wal, on, written, done, due) refl in
        let same : after ≡ disk = let both = sym store ∙ ended in cc both in
        let brought : lookup uid (restart h json now fresh me after).friends ≡ none =
          ap (λ (x : F2fDcNetBridge). lookup uid x.friends)
            (restore_channels-rest h (channel_records b.channels) (record (new me) {
              my_uid = b.my_uid;
              friends = restore_friends h (fresh 0) (friend_records b.friends) [];
            }))
          ∙ lookup-restore_friends (fresh 0) uid b.friends [] absent refl in
        (
          lookup-insert_same uid _ (log_wal h json env op b).friends,
          ap (λ w. lookup uid (restart h json now fresh me w).friends) (sym same) ∙ brought,
        )
