-- ===== src/Dcnet/Bridge.antt =====
-- dcnet/f2f.rs: friends with their edge keys, channels with their groups, and the write-ahead log
-- in front of every change. What the world gives to a call, the clock, a fresh key and what becomes
-- of the writes, is an argument.
pub mod Saving
pub mod Logging
pub mod View
pub mod Members
pub mod Replay
pub mod Joins
pub mod Calls
pub mod Journal
pub mod Writes
pub mod Recovery
pub mod Sound
pub mod Snapshot
pub mod Checkpoint
pub mod Lost
pub mod Simulation
mod Tests
use chrono_shift.Prelude.{
  ℕ, zero, suc, ◌+◌, Bool, true, false, not, ◌&&◌, Option, none, some, List, [], ◌∷◌, ◌++◌, leb,
  min, if◌then◌else◌,
}
use chrono_shift.Prelude.Keys.{Bytes, ◌=?◌, bytes_eq, contains, without}
use chrono_shift.Prelude.Dict.{Dict, lookup, has_key, insert, remove, modify}
use chrono_shift.Primitives.{Hash}
use chrono_shift.Identity.{hex_encode, decode_key}
use chrono_shift.Storage.{
  WalOperation, WalStore, Json, Write, Fate, SocialSnapshot, FriendRecord, ChannelRecord, append,
  checkpoint, should_checkpoint, replay, load_state,
}
use chrono_shift.Dcnet.Reputation.{Peers}
use chrono_shift.Dcnet.Group.{DcGroup, new_group, join, leave}

pub record F2fFriend : Type 0 where
  pub uid : Bytes
  pub peer_id : Bytes
  pub trust_level : ℕ
  pub transport_address : Bytes
  pub edge_key : Bytes

pub record ChannelInfo : Type 0 where
  pub name : Bytes
  pub topic : Bytes
  pub participants : List Bytes
  pub round_id : ℕ
  pub running : Bool

pub record F2fDcNetBridge : Type 0 where
  pub friends : Dict Bytes F2fFriend
  pub channels : Dict Bytes ChannelInfo
  pub groups : Dict Bytes DcGroup
  pub my_uid : Bytes
  pub current_channel : Option Bytes
  pub min_trust : ℕ
  pub reputation : Peers
  pub wal : Option WalStore

-- The clock in milliseconds and in seconds, a random key, and what becomes of an append and of the
-- checkpoint behind it.
pub record Env : Type 0 where
  pub stamp : ℕ
  pub now : ℕ
  pub fresh : Bytes
  pub write : Write
  pub fate : Fate

abbrev pub new : Bytes → F2fDcNetBridge
new my_uid = record {
  friends = [];
  channels = [];
  groups = [];
  my_uid = my_uid;
  current_channel = none;
  min_trust = 1;
  reputation = [];
  wal = none;
}

abbrev pub attach_wal : WalStore → F2fDcNetBridge → F2fDcNetBridge
attach_wal wal b = record b { wal = some wal }

-- `switch_channel`, `set_topic` and the flag of the round driver.
unfoldable pub switch_channel : Bytes → F2fDcNetBridge → Bool × F2fDcNetBridge
switch_channel name b =
    if has_key name b.channels then (true, record b { current_channel = some name }) else (false, b)

abbrev pub set_channel_topic : Bytes → Bytes → F2fDcNetBridge → F2fDcNetBridge
set_channel_topic channel topic b = record b {
  channels = modify channel (λ ch. record ch { topic = topic }) b.channels;
}

abbrev pub start_round_driver : Bytes → F2fDcNetBridge → F2fDcNetBridge
start_round_driver channel b = record b {
  channels = modify channel (λ ch. record ch { running = true }) b.channels;
}

abbrev pub stop_round_driver : Bytes → F2fDcNetBridge → F2fDcNetBridge
stop_round_driver channel b = record b {
  channels = modify channel (λ ch. record ch { running = false }) b.channels;
}

module _ (h : Hash) where
  abbrev pub uid_to_peer : Bytes → Bytes
  uid_to_peer uid = h.digest uid

  -- With this key: `F2fFriend::new` has a random one.
  abbrev pub with_edge_key : Bytes → Bytes → ℕ → Bytes → F2fFriend
  with_edge_key uid addr trust_level edge_key = record {
    uid = uid;
    peer_id = uid_to_peer uid;
    trust_level = min trust_level 2;
    transport_address = addr;
    edge_key = edge_key;
  }

  unfoldable pub create_channel_no_log : Bytes → F2fDcNetBridge → Bool × F2fDcNetBridge
  create_channel_no_log name b =
      if has_key name b.channels
      then (false, b)
      else let group = join (uid_to_peer b.my_uid) (new_group (h.digest name) 2 1) in
        let channel : ChannelInfo = record {
          name = name;
          topic = [];
          participants = b.my_uid ∷ [];
          round_id = 0;
          running = false;
        } in
        (
          true,
          record b {
            groups = insert name group b.groups;
            channels = insert name channel b.channels;
          },
        )

  abbrev pub Membership : Type 0
  Membership = ChannelInfo × DcGroup

  -- Whether the user joins, and the channel and its group after that.
  unfoldable pub join_one : F2fDcNetBridge → Bytes → Membership → Bool × Membership
  join_one b uid (ch, group) =
      if uid =? b.my_uid then (false, (ch, group)) else elim (lookup uid b.friends) [
        | none ↦ (false, (ch, group))
        | some f ↦
            if leb b.min_trust f.trust_level && not (contains ch.participants uid)
            then (
              true,
              (record ch { participants = ch.participants ++ uid ∷ [] }, join f.peer_id group),
            )
            else (false, (ch, group))
      ]

  unfoldable pub join_each : F2fDcNetBridge → List Bytes → Membership → List Bytes × Membership
  join_each b [] m = ([], m)
  join_each b (uid ∷ uids) m =
      let (joins, m') = join_one b uid m in
      let (joined, m'') = join_each b uids m' in (if joins then uid ∷ joined else joined, m'')

  unfoldable pub join_channel_no_log :
      Bytes → List Bytes → F2fDcNetBridge → List Bytes × F2fDcNetBridge
  join_channel_no_log channel uids b = elim (lookup channel b.channels) [
    | none ↦ ([], b)
    | some ch ↦ elim (lookup channel b.groups) [
      | none ↦ ([], b)
      | some group ↦
          let (joined, (ch', group')) = join_each b uids (ch, group) in
          (
            joined,
            record b {
              channels = insert channel ch' b.channels;
              groups = insert channel group' b.groups;
            },
          )
    ]
  ]

  -- One member out of a channel and its group.
  unfoldable pub leave_as : Bytes → Bytes → F2fDcNetBridge → F2fDcNetBridge
  leave_as uid name b = record b {
    channels =
        modify name (λ ch. record ch { participants = without uid ch.participants }) b.channels;
    groups = modify name (leave (uid_to_peer uid)) b.groups;
  }

  abbrev pub leave_channel_no_log : Bytes → F2fDcNetBridge → F2fDcNetBridge
  leave_channel_no_log name b = leave_as b.my_uid name b

  -- The group is looked at only when the channel is there.
  unfoldable pub apply_op_no_log : Bytes → WalOperation → F2fDcNetBridge → F2fDcNetBridge
  apply_op_no_log fresh (WalOperation.add_friend uid addr trust) b = record b {
    friends = insert uid (with_edge_key uid addr trust fresh) b.friends;
  }
  apply_op_no_log fresh (WalOperation.remove_friend uid) b = record b {
    friends = remove uid b.friends;
  }
  apply_op_no_log fresh (WalOperation.update_trust uid trust) b = record b {
    friends = modify uid (λ f. record f { trust_level = min trust 2 }) b.friends;
  }
  apply_op_no_log fresh (WalOperation.update_edge_key uid key_hex) b = elim (decode_key key_hex) [
    | none ↦ b
    | some k ↦ record b { friends = modify uid (λ f. record f { edge_key = k }) b.friends }
  ]
  apply_op_no_log fresh (WalOperation.create_channel name) b = (create_channel_no_log name b).1
  apply_op_no_log fresh (WalOperation.join_channel channel uid) b =
      (join_channel_no_log channel (uid ∷ []) b).1
  apply_op_no_log fresh (WalOperation.leave_channel channel uid) b =
      if uid =? b.my_uid
      then leave_channel_no_log channel b
      else if has_key channel b.channels
      then leave_as uid channel b
      else b
  apply_op_no_log fresh (WalOperation.set_uid uid) b = record b { my_uid = uid }
  apply_op_no_log fresh (WalOperation.create_network name admin) b = b
  apply_op_no_log fresh (WalOperation.add_member network uid) b = b
  apply_op_no_log fresh (WalOperation.remove_member network uid) b = b
  apply_op_no_log fresh (WalOperation.send_message sender receiver text) b = b
