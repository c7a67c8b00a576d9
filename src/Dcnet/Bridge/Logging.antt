-- ===== src/Dcnet/Bridge/Logging.antt =====
-- dcnet/f2f.rs, the calls that are logged before they change the bridge.
use chrono_shift.Prelude.{
  ℕ, Bool, true, false, not, ◌&&◌, none, some, List, [], ◌∷◌, min, if◌then◌else◌,
}
use chrono_shift.Prelude.Keys.{Bytes, bytes_eq, contains}
use chrono_shift.Prelude.Dict.{lookup, has_key, insert, remove, modify}
use chrono_shift.Primitives.{Hash}
use chrono_shift.Identity.{hex_encode, decode_key}
use chrono_shift.Storage.{WalOperation, Json, append, checkpoint, should_checkpoint}
use chrono_shift.Dcnet.Bridge.{
  F2fDcNetBridge, Env, with_edge_key, create_channel_no_log, join_channel_no_log,
  leave_channel_no_log,
}
use chrono_shift.Dcnet.Bridge.Saving.{snapshot_bridge}

-- Whether the joining of this user is logged.
unfoldable pub logs_join : Bytes → Bytes → F2fDcNetBridge → Bool
logs_join channel uid b = elim (lookup channel b.channels) [
  | none ↦ false
  | some ch ↦ not (contains ch.participants uid) && has_key uid b.friends
]

module _ (h : Hash) (json : Json) where
  unfoldable pub log_wal : Env → WalOperation → F2fDcNetBridge → F2fDcNetBridge
  log_wal env op b = elim b.wal [
    | none ↦ b
    | some wal ↦
        let wal' = (append json env.stamp env.write op wal).1 in
        let b' = record b { wal = some wal' } in
        if should_checkpoint env.now wal'
        then record b' { wal = some (checkpoint env.now env.fate (snapshot_bridge b') wal').1 }
        else b'
  ]

  unfoldable pub checkpoint_wal : Env → F2fDcNetBridge → F2fDcNetBridge
  checkpoint_wal env b = elim b.wal [
    | none ↦ b
    | some wal ↦ record b { wal = some (checkpoint env.now env.fate (snapshot_bridge b) wal).1 }
  ]

  unfoldable pub add_friend : Env → Bytes → Bytes → ℕ → F2fDcNetBridge → F2fDcNetBridge
  add_friend env uid addr trust_level b =
      let b' = log_wal env (WalOperation.add_friend uid addr trust_level) b in
      record b' { friends = insert uid (with_edge_key h uid addr trust_level env.fresh) b'.friends }

  unfoldable pub remove_friend : Env → Bytes → F2fDcNetBridge → F2fDcNetBridge
  remove_friend env uid b =
      let b' = log_wal env (WalOperation.remove_friend uid) b in
      record b' { friends = remove uid b'.friends }

  unfoldable pub update_trust : Env → Bytes → ℕ → F2fDcNetBridge → F2fDcNetBridge
  update_trust env uid trust_level b =
      let b' = log_wal env (WalOperation.update_trust uid trust_level) b in
      record b' {
        friends = modify uid (λ f. record f { trust_level = min trust_level 2 }) b'.friends;
      }

  unfoldable pub set_edge_key : Env → Bytes → Bytes → F2fDcNetBridge → Bool × F2fDcNetBridge
  set_edge_key env uid key b =
      if not (has_key uid b.friends)
      then (false, b)
      else let b' = log_wal env (WalOperation.update_edge_key uid (hex_encode key)) b in
        (true, record b' { friends = modify uid (λ f. record f { edge_key = key }) b'.friends })

  unfoldable pub import_edge_key : Env → Bytes → Bytes → F2fDcNetBridge → Bool × F2fDcNetBridge
  import_edge_key env uid hex b = elim (decode_key hex) [
    | none ↦ (false, b)
    | some k ↦ set_edge_key env uid k b
  ]

  unfoldable pub set_my_uid : Env → Bytes → F2fDcNetBridge → F2fDcNetBridge
  set_my_uid env uid b =
      let b' = log_wal env (WalOperation.set_uid uid) b in record b' { my_uid = uid }

  unfoldable pub create_channel : Env → Bytes → F2fDcNetBridge → Bool × F2fDcNetBridge
  create_channel env name b =
      if has_key name b.channels
      then (false, b)
      else create_channel_no_log h name (log_wal env (WalOperation.create_channel name) b)

  unfoldable pub log_joins : (Bytes → Env) → Bytes → List Bytes → F2fDcNetBridge → F2fDcNetBridge
  log_joins env channel [] b = b
  log_joins env channel (uid ∷ uids) b = log_joins env channel uids (
      if logs_join channel uid b
      then log_wal (env uid) (WalOperation.join_channel channel uid) b
      else b)

  -- Each user comes with the environment of its append.
  unfoldable pub join_channel :
      (Bytes → Env) → Bytes → List Bytes → F2fDcNetBridge → List Bytes × F2fDcNetBridge
  join_channel env channel uids b =
      join_channel_no_log h channel uids (log_joins env channel uids b)

  unfoldable pub leave_channel : Env → Bytes → F2fDcNetBridge → F2fDcNetBridge
  leave_channel env name b =
      leave_channel_no_log h name (log_wal env (WalOperation.leave_channel name b.my_uid) b)
