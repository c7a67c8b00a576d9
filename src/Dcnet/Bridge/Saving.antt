-- ===== src/Dcnet/Bridge/Saving.antt =====
-- dcnet/f2f.rs, `snapshot_bridge` and `apply_snapshot`: the state that a checkpoint has.
use chrono_shift.Prelude.{none, some, List, [], ◌∷◌}
use chrono_shift.Prelude.Keys.{Bytes, bytes_eq}
use chrono_shift.Prelude.Dict.{Dict, insert, modify}
use chrono_shift.Primitives.{Hash}
use chrono_shift.Identity.{hex_encode, decode_key}
use chrono_shift.Storage.{SocialSnapshot, FriendRecord, ChannelRecord}
use chrono_shift.Dcnet.Group.{DcGroup, join}
use chrono_shift.Dcnet.Bridge.{
  F2fFriend, ChannelInfo, F2fDcNetBridge, uid_to_peer, with_edge_key, create_channel_no_log,
}

abbrev pub friend_record : Bytes × F2fFriend → FriendRecord
friend_record (uid, f) = record {
  uid = uid;
  addr = f.transport_address;
  trust = f.trust_level;
  edge_key_hex = some (hex_encode f.edge_key);
}

unfoldable pub friend_records : Dict Bytes F2fFriend → List FriendRecord
friend_records [] = []
friend_records (entry ∷ d) = friend_record entry ∷ friend_records d

unfoldable pub channel_records : Dict Bytes ChannelInfo → List ChannelRecord
channel_records [] = []
channel_records ((name, c) ∷ d) =
    record { name = c.name; topic = c.topic; participants = c.participants } ∷ channel_records d

unfoldable pub snapshot_bridge : F2fDcNetBridge → SocialSnapshot
snapshot_bridge b = record {
  uid = b.my_uid;
  friends = friend_records b.friends;
  channels = channel_records b.channels;
}

module _ (h : Hash) where
  unfoldable pub restore_friends :
      Bytes → List FriendRecord → Dict Bytes F2fFriend → Dict Bytes F2fFriend
  restore_friends fresh [] d = d
  restore_friends fresh (r ∷ rs) d =
      let key : Bytes = elim r.edge_key_hex [
        | none ↦ fresh
        | some hex ↦ elim (decode_key hex) [ none ↦ fresh | some k ↦ k ]
      ] in
      restore_friends fresh rs (insert r.uid (with_edge_key h r.uid r.addr r.trust key) d)

  unfoldable pub join_peers : List Bytes → DcGroup → DcGroup
  join_peers [] g = g
  join_peers (uid ∷ uids) g = join_peers uids (join (uid_to_peer h uid) g)

  unfoldable pub restore_channels : List ChannelRecord → F2fDcNetBridge → F2fDcNetBridge
  restore_channels [] b = b
  restore_channels (c ∷ cs) b =
      let b' = (create_channel_no_log h c.name b).1 in
      restore_channels cs (record b' {
        channels =
            modify c.name (λ ch. record ch { topic = c.topic; participants = c.participants })
              b'.channels;
        groups = modify c.name (join_peers c.participants) b'.groups;
      })

  unfoldable pub apply_snapshot : Bytes → SocialSnapshot → F2fDcNetBridge → F2fDcNetBridge
  apply_snapshot fresh snap b = restore_channels snap.channels (record b {
    my_uid = snap.uid;
    friends = restore_friends fresh snap.friends [];
    channels = [];
    groups = [];
  })
