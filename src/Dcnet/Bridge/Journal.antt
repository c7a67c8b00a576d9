-- ===== src/Dcnet/Bridge/Journal.antt =====
-- What is in the log of a bridge while every write succeeds and no checkpoint is due.
use mathlib.Core.List.{append_assoc, append-nil}
use chrono_shift.Prelude.{
  ℕ, ◌+◌, ◌<◌, ◌≡◌, refl, sym, ap, ◌∙◌, subst, false, Option, none, some, List, [], ◌∷◌, ◌++◌,
  length, arith, if◌then◌else◌, Bool-cases, Option-cases, inl, inr, length-append,
}
use chrono_shift.Prelude.Keys.{Bytes, bytes_eq}
use chrono_shift.Prelude.Dict.{lookup, has_key}
use chrono_shift.Primitives.{Hash}
use chrono_shift.Identity.{hex_encode}
use chrono_shift.Storage.{WalOperation, WalStore, Json, Write, append, should_checkpoint}
use chrono_shift.Storage.Replay.{Logged, Logged-log_line}
use chrono_shift.Dcnet.Bridge.{
  F2fDcNetBridge, Env, create_channel_no_log, join_channel_no_log, leave_as,
}
use chrono_shift.Dcnet.Bridge.Logging.{
  log_wal, add_friend, remove_friend, update_trust, set_edge_key, set_my_uid, create_channel,
  logs_join, log_joins, join_channel, leave_channel,
}
use chrono_shift.Dcnet.Bridge.Joins.{logged_joins}
use chrono_shift.Dcnet.Bridge.Calls.{BridgeCall, logged, call, log_wal-rest}

-- All of an append is on the disk, within the minute.
abbrev pub Timely : ℕ → Env → Type 0
Timely start env = (env.write ≡ Write.whole) × (env.now < start + 60)

module _ (h : Hash) (json : Json) where
  -- The log of this store holds these operations; there is no snapshot.
  abbrev pub Journal : ℕ → ℕ → WalStore → List WalOperation → Type 0
  Journal start limit wal ops =
      Logged json wal.log ops
      × (wal.ops_since_checkpoint ≡ length ops)
      × (wal.last_checkpoint ≡ start)
      × (wal.checkpoint_ops ≡ limit)
      × (wal.state ≡ none)

  abbrev pub Attached : ℕ → ℕ → Option WalStore → List WalOperation → Type 0
  Attached start limit store ops =
      (wal : WalStore) × (store ≡ some wal) × Journal start limit wal ops

  log_wal-Attached :
      (start limit : ℕ) (env : Env) (op : WalOperation) (ops : List WalOperation)
      (b : F2fDcNetBridge)
      → Timely start env
      → length ops + 1 < limit
      → Attached start limit b.wal ops
      → Attached start limit (log_wal h json env op b).wal (ops ++ op ∷ [])
  unfolding log_wal append should_checkpoint
  log_wal-Attached start limit env op ops b (written, timely) room
        (wal, on, (held, count, since, every, bare)) =
      let wal' = (append json env.stamp Write.whole op wal).1 in
      let quiet : should_checkpoint env.now wal' ≡ false = ground arith in
      (
        wal',
        rw (log_wal, on, written, quiet) refl,
        (
          Logged-log_line json wal.log ops env.stamp op held,
          omega (arith, count, length-append ops (op ∷ [])),
          since,
          every,
          bare,
        ),
      )

  pub create_channel_no_log-wal :
      (name : Bytes) (b : F2fDcNetBridge) → (create_channel_no_log h name b).1.wal ≡ b.wal
  unfolding create_channel_no_log
  create_channel_no_log-wal name b = elim (Bool-cases (has_key name b.channels)) [
    | inl known ↦ rw (create_channel_no_log, known) refl
    | inr new ↦ rw (create_channel_no_log, new) refl
  ]

  pub join_channel_no_log-wal :
      (channel : Bytes) (uids : List Bytes) (b : F2fDcNetBridge)
      → (join_channel_no_log h channel uids b).1.wal ≡ b.wal
  unfolding join_channel_no_log
  join_channel_no_log-wal channel uids b = elim (Option-cases (lookup channel b.channels)) [
    | inl gone ↦ rw (join_channel_no_log, gone) refl
    | inr (ch, found) ↦ elim (Option-cases (lookup channel b.groups)) [
      | inl bare ↦ rw (join_channel_no_log, found, bare) refl
      | inr (group, grouped) ↦ rw (join_channel_no_log, found, grouped) refl
    ]
  ]

  logged_joins-wal :
      (store : Option WalStore) (channel : Bytes) (uids : List Bytes) (b : F2fDcNetBridge)
      → logged_joins channel uids (record b { wal = store }) ≡ logged_joins channel uids b
  unfolding logs_join
  logged_joins-wal store channel [] b = refl
  logged_joins-wal store channel (uid ∷ uids) b =
      ap
        (λ rest.
          if logs_join channel uid b then WalOperation.join_channel channel uid ∷ rest else rest)
        (logged_joins-wal store channel uids b)

  pub logged_joins-log_wal :
      (env : Env) (op : WalOperation) (channel : Bytes) (uids : List Bytes) (b : F2fDcNetBridge)
      → logged_joins channel uids (log_wal h json env op b) ≡ logged_joins channel uids b
  logged_joins-log_wal env op channel uids b =
      ap (logged_joins channel uids) (log_wal-rest h json env op b)
      ∙ logged_joins-wal (log_wal h json env op b).wal channel uids b

  log_joins-Attached :
      (start limit : ℕ) (env : Env) (channel : Bytes) (uids : List Bytes) (ops : List WalOperation)
      (b : F2fDcNetBridge)
      → Timely start env
      → length ops + length (logged_joins channel uids b) < limit
      → Attached start limit b.wal ops
      → Attached start limit
          (log_joins h json (λ uid. env) channel uids b).wal
          (ops ++ logged_joins channel uids b)
  unfolding log_joins
  log_joins-Attached start limit env channel [] ops b timely room attached =
      subst (Attached start limit b.wal) (sym (append-nil ops)) attached
  log_joins-Attached start limit env channel (uid ∷ uids) ops b timely room attached =
      let op = WalOperation.join_channel channel uid in
      let rest = logged_joins channel uids b in
      let b' = log_wal h json env op b in
      elim (Bool-cases (logs_join channel uid b)) [
        | inr silent ↦
            let smaller : length ops + length rest < limit = ground arith in
            rw (log_joins, silent)
              (log_joins-Attached start limit env channel uids ops b timely smaller attached)
        | inl logs ↦
            let same : logged_joins channel uids b' ≡ rest =
              logged_joins-log_wal env op channel uids b in
            let smaller : length ops + (length rest + 1) < limit = ground arith in
            let size = length-append ops (op ∷ []) in
            let grown = log_wal-Attached start limit env op ops b timely (omega arith) attached in
            rw (log_joins, logs)
              (subst (Attached start limit (log_joins h json (λ uid. env) channel uids b').wal)
                (ap (◌++◌ (ops ++ op ∷ [])) same ∙ append_assoc ops (op ∷ []) rest)
                (log_joins-Attached start limit env channel uids (ops ++ op ∷ []) b' timely
                  (omega (arith, size, ap length same)) grown))
      ]

  set_edge_key-Attached :
      (start limit : ℕ) (env : Env) (uid key : Bytes) (ops : List WalOperation) (b : F2fDcNetBridge)
      → Timely start env
      → length ops + length (logged (BridgeCall.set_edge_key_call uid key) b) < limit
      → Attached start limit b.wal ops
      → Attached start limit
          (set_edge_key h json env uid key b).1.wal
          (ops ++ logged (BridgeCall.set_edge_key_call uid key) b)
  unfolding set_edge_key logged
  set_edge_key-Attached start limit env uid key ops b timely room attached =
      let op = WalOperation.update_edge_key uid (hex_encode key) in
      elim (Bool-cases (has_key uid b.friends)) [
        | inl friend ↦
            let more : length ops + 1 < limit = ground arith in
            rw (set_edge_key, logged, friend)
              (log_wal-Attached start limit env op ops b timely more attached)
        | inr stranger ↦
            rw (set_edge_key, logged, stranger)
              (subst (Attached start limit b.wal) (sym (append-nil ops)) attached)
      ]

  create_channel-Attached :
      (start limit : ℕ) (env : Env) (name : Bytes) (ops : List WalOperation) (b : F2fDcNetBridge)
      → Timely start env
      → length ops + length (logged (BridgeCall.create_channel_call name) b) < limit
      → Attached start limit b.wal ops
      → Attached start limit
          (create_channel h json env name b).1.wal
          (ops ++ logged (BridgeCall.create_channel_call name) b)
  unfolding create_channel logged
  create_channel-Attached start limit env name ops b timely room attached =
      let op = WalOperation.create_channel name in
      let b' = log_wal h json env op b in
      elim (Bool-cases (has_key name b.channels)) [
        | inl known ↦
            rw (create_channel, logged, known)
              (subst (Attached start limit b.wal) (sym (append-nil ops)) attached)
        | inr new ↦
            let more : length ops + 1 < limit = ground arith in
            rw (create_channel, logged, new)
              (subst (λ store. Attached start limit store (ops ++ op ∷ []))
                (sym (create_channel_no_log-wal name b'))
                (log_wal-Attached start limit env op ops b timely more attached))
      ]

  -- A call adds to the log what it logs.
  pub call-Attached :
      (start limit : ℕ) (env : Env) (c : BridgeCall) (ops : List WalOperation) (b : F2fDcNetBridge)
      → Timely start env
      → length ops + length (logged c b) < limit
      → Attached start limit b.wal ops
      → Attached start limit (call h json env c b).wal (ops ++ logged c b)
  unfolding call logged add_friend remove_friend update_trust set_edge_key set_my_uid create_channel
      join_channel leave_channel leave_as
  call-Attached start limit env (BridgeCall.add_friend_call uid addr trust) ops b timely room
        attached =
      log_wal-Attached start limit env (WalOperation.add_friend uid addr trust) ops b timely
        (omega arith) attached
  call-Attached start limit env (BridgeCall.remove_friend_call uid) ops b timely room attached =
      log_wal-Attached start limit env (WalOperation.remove_friend uid) ops b timely (omega arith)
        attached
  call-Attached start limit env (BridgeCall.update_trust_call uid trust) ops b timely room
        attached =
      log_wal-Attached start limit env (WalOperation.update_trust uid trust) ops b timely
        (omega arith) attached
  call-Attached start limit env (BridgeCall.set_my_uid_call uid) ops b timely room attached =
      log_wal-Attached start limit env (WalOperation.set_uid uid) ops b timely (omega arith)
        attached
  call-Attached start limit env (BridgeCall.leave_channel_call name) ops b timely room attached =
      log_wal-Attached start limit env (WalOperation.leave_channel name b.my_uid) ops b timely
        (omega arith) attached
  call-Attached start limit env (BridgeCall.set_edge_key_call uid key) ops b timely room attached =
      set_edge_key-Attached start limit env uid key ops b timely room attached
  call-Attached start limit env (BridgeCall.create_channel_call name) ops b timely room attached =
      create_channel-Attached start limit env name ops b timely room attached
  call-Attached start limit env (BridgeCall.join_channel_call channel uids) ops b timely room
        attached =
      subst (λ store. Attached start limit store (ops ++ logged_joins channel uids b))
        (sym (join_channel_no_log-wal channel uids (log_joins h json (λ uid. env) channel uids b)))
        (log_joins-Attached start limit env channel uids ops b timely room attached)
