-- ===== src/Dcnet/Bridge/Sound.antt =====
-- What holds of a bridge after any calls: one entry for each friend and channel, trust of at most 2,
-- and channels under their own names.
use chrono_shift.Prelude.{
  ◌≤◌, ◌≡◌, refl, sym, ◌∙◌, subst, List, [], ◌∷◌, arith, Bool-cases, Option-cases, inl, inr, All,
}
use chrono_shift.Prelude.Keys.{Bytes, bytes_eq, without}
use chrono_shift.Prelude.Dict.{lookup, has_key}
use chrono_shift.Prelude.Entries.{
  OncePerKey, insert-OncePerKey, remove-OncePerKey, modify-OncePerKey, insert-All, remove-All,
  modify-All, lookup-All,
}
use chrono_shift.Primitives.{Hash}
use chrono_shift.Storage.{WalOperation, Json}
use chrono_shift.Dcnet.Bridge.{
  F2fDcNetBridge, ChannelInfo, Env, Membership, create_channel_no_log, join_one, join_each,
  join_channel_no_log, leave_as,
}
use chrono_shift.Dcnet.Bridge.Logging.{
  add_friend, remove_friend, update_trust, set_edge_key, set_my_uid, create_channel, log_joins,
  join_channel, leave_channel, log_wal,
}
use chrono_shift.Dcnet.Bridge.View.{Social, FriendView, admitted, apply, apply_all}
use chrono_shift.Dcnet.Bridge.Calls.{BridgeCall, call, log_wal-rest, log_joins-rest}

abbrev pub TrustBounded : Bytes × FriendView → Type 0
TrustBounded (uid, f) = f.trust ≤ 2

pub record IsSound (s : Social) : Type 0 where
  pub friends_once : OncePerKey s.friends
  pub bounded : All TrustBounded s.friends
  pub channels_once : OncePerKey s.channels
  pub verified : s.min_trust ≡ 1

pub apply-IsSound : (op : WalOperation) (s : Social) → IsSound s → IsSound (apply op s)
unfolding apply
apply-IsSound (WalOperation.add_friend uid addr trust) s sound = record {
  friends_once = insert-OncePerKey uid _ s.friends sound.friends_once;
  bounded = insert-All TrustBounded uid _ s.friends (ground arith) sound.bounded;
  channels_once = sound.channels_once;
  verified = sound.verified;
}
apply-IsSound (WalOperation.remove_friend uid) s sound = record {
  friends_once = remove-OncePerKey uid s.friends sound.friends_once;
  bounded = remove-All TrustBounded uid s.friends sound.bounded;
  channels_once = sound.channels_once;
  verified = sound.verified;
}
apply-IsSound (WalOperation.update_trust uid trust) s sound = record {
  friends_once = modify-OncePerKey uid _ s.friends sound.friends_once;
  bounded = modify-All TrustBounded uid _ s.friends (λ j v b. ground arith) sound.bounded;
  channels_once = sound.channels_once;
  verified = sound.verified;
}
apply-IsSound (WalOperation.create_channel name) s sound =
    elim (Bool-cases (has_key name s.channels)) [
      | inl known ↦ rw (apply, known) sound
      | inr new ↦
          rw (apply, new)
            (record {
              friends_once = sound.friends_once;
              bounded = sound.bounded;
              channels_once = insert-OncePerKey name (s.uid ∷ []) s.channels sound.channels_once;
              verified = sound.verified;
            })
    ]
apply-IsSound (WalOperation.join_channel channel uid) s sound = record {
  friends_once = sound.friends_once;
  bounded = sound.bounded;
  channels_once = modify-OncePerKey channel (admitted s uid) s.channels sound.channels_once;
  verified = sound.verified;
}
apply-IsSound (WalOperation.leave_channel channel uid) s sound = record {
  friends_once = sound.friends_once;
  bounded = sound.bounded;
  channels_once = modify-OncePerKey channel (without uid) s.channels sound.channels_once;
  verified = sound.verified;
}
apply-IsSound (WalOperation.set_uid uid) s sound = record {
  friends_once = sound.friends_once;
  bounded = sound.bounded;
  channels_once = sound.channels_once;
  verified = sound.verified;
}
apply-IsSound (WalOperation.update_edge_key uid key_hex) s sound = sound
apply-IsSound (WalOperation.create_network name admin) s sound = sound
apply-IsSound (WalOperation.add_member network uid) s sound = sound
apply-IsSound (WalOperation.remove_member network uid) s sound = sound
apply-IsSound (WalOperation.send_message sender receiver text) s sound = sound

pub apply_all-IsSound :
    (ops : List WalOperation) (s : Social) → IsSound s → IsSound (apply_all ops s)
unfolding apply_all
apply_all-IsSound [] s sound = sound
apply_all-IsSound (op ∷ ops) s sound = apply_all-IsSound ops (apply op s) (apply-IsSound op s sound)

abbrev pub IsNamed : Bytes × ChannelInfo → Type 0
IsNamed (name, ch) = ch.name ≡ name

abbrev pub Named : F2fDcNetBridge → Type 0
Named b = All IsNamed b.channels

module _ (h : Hash) where
  create_channel_no_log-Named :
      (name : Bytes) (b : F2fDcNetBridge) → Named b → Named (create_channel_no_log h name b).1
  unfolding create_channel_no_log
  create_channel_no_log-Named name b named = elim (Bool-cases (has_key name b.channels)) [
    | inl known ↦ rw (create_channel_no_log, known) named
    | inr new ↦ rw (create_channel_no_log, new) (insert-All IsNamed name _ b.channels refl named)
  ]

  join_one-name :
      (b : F2fDcNetBridge) (uid : Bytes) (m : Membership h)
      → (join_one h b uid m).1.0.name ≡ m.0.name
  unfolding join_one
  join_one-name b uid (ch, group) = ground arith

  join_each-name :
      (b : F2fDcNetBridge) (uids : List Bytes) (m : Membership h)
      → (join_each h b uids m).1.0.name ≡ m.0.name
  unfolding join_each
  join_each-name b [] m = refl
  join_each-name b (uid ∷ uids) m =
      join_each-name b uids (join_one h b uid m).1 ∙ join_one-name b uid m

  join_channel_no_log-Named :
      (channel : Bytes) (uids : List Bytes) (b : F2fDcNetBridge)
      → Named b
      → Named (join_channel_no_log h channel uids b).1
  unfolding join_channel_no_log
  join_channel_no_log-Named channel uids b named = elim (Option-cases (lookup channel b.channels)) [
    | inl gone ↦ rw (join_channel_no_log, gone) named
    | inr (ch, found) ↦ elim (Option-cases (lookup channel b.groups)) [
      | inl bare ↦ rw (join_channel_no_log, found, bare) named
      | inr (group, grouped) ↦
          let before : ch.name ≡ channel = lookup-All IsNamed channel ch b.channels named found in
          rw (join_channel_no_log, found, grouped)
            (insert-All IsNamed channel _ b.channels (join_each-name b uids (ch, group) ∙ before)
              named)
    ]
  ]

  module _ (json : Json) where
    create_channel-Named :
        (env : Env) (name : Bytes) (b : F2fDcNetBridge)
        → Named b
        → Named (create_channel h json env name b).1
    unfolding create_channel
    create_channel-Named env name b named = elim (Bool-cases (has_key name b.channels)) [
      | inl known ↦ rw (create_channel, known) named
      | inr new ↦
          rw (create_channel, new)
            (create_channel_no_log-Named name
              (log_wal h json env (WalOperation.create_channel name) b)
              (subst Named (sym (log_wal-rest h json env (WalOperation.create_channel name) b))
                named))
    ]

    set_edge_key-Named :
        (env : Env) (uid key : Bytes) (b : F2fDcNetBridge)
        → Named b
        → Named (set_edge_key h json env uid key b).1
    unfolding set_edge_key
    set_edge_key-Named env uid key b named = elim (Bool-cases (has_key uid b.friends)) [
      | inl friend ↦
          rw (set_edge_key, friend) (subst Named (sym (log_wal-rest h json env _ b)) named)
      | inr stranger ↦ rw (set_edge_key, stranger) named
    ]

    pub call-Named :
        (env : Env) (c : BridgeCall) (b : F2fDcNetBridge) → Named b → Named (call h json env c b)
    unfolding call add_friend remove_friend update_trust set_my_uid join_channel leave_channel
        leave_as
    call-Named env (BridgeCall.add_friend_call uid addr trust) b named =
        subst Named (sym (log_wal-rest h json env (WalOperation.add_friend uid addr trust) b)) named
    call-Named env (BridgeCall.remove_friend_call uid) b named =
        subst Named (sym (log_wal-rest h json env (WalOperation.remove_friend uid) b)) named
    call-Named env (BridgeCall.update_trust_call uid trust) b named =
        subst Named (sym (log_wal-rest h json env (WalOperation.update_trust uid trust) b)) named
    call-Named env (BridgeCall.set_my_uid_call uid) b named =
        subst Named (sym (log_wal-rest h json env (WalOperation.set_uid uid) b)) named
    call-Named env (BridgeCall.set_edge_key_call uid key) b named =
        set_edge_key-Named env uid key b named
    call-Named env (BridgeCall.create_channel_call name) b named =
        create_channel-Named env name b named
    call-Named env (BridgeCall.join_channel_call channel uids) b named =
        join_channel_no_log-Named channel uids (log_joins h json (λ uid. env) channel uids b)
          (subst Named (sym (log_joins-rest h json (λ uid. env) channel uids b)) named)
    call-Named env (BridgeCall.leave_channel_call name) b named =
        let op = WalOperation.leave_channel name b.my_uid in
        modify-All IsNamed name _ (log_wal h json env op b).channels (λ j v e. e)
          (subst Named (sym (log_wal-rest h json env op b)) named)
