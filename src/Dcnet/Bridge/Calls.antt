-- ===== src/Dcnet/Bridge/Calls.antt =====
-- The calls of a bridge do to it what the operations that they log are specified to do.
use chrono_shift.Prelude.{
  ℕ, ◌≡◌, refl, sym, ap, ap₂, ◌∙◌, subst, List, [], ◌∷◌, if◌then◌else◌, Bool-cases, Option-cases,
  inl, inr,
}
use chrono_shift.Prelude.Keys.{Bytes, bytes_eq}
use chrono_shift.Prelude.Dict.{has_key, modify}
use chrono_shift.Primitives.{Hash}
use chrono_shift.Identity.{hex_encode}
use chrono_shift.Storage.{WalOperation, Json, append, should_checkpoint}
use chrono_shift.Dcnet.Bridge.{F2fDcNetBridge, Env, apply_op_no_log}
use chrono_shift.Dcnet.Bridge.Logging.{
  log_wal, add_friend, remove_friend, update_trust, set_edge_key, set_my_uid, create_channel,
  logs_join, log_joins, join_channel, leave_channel,
}
use chrono_shift.Dcnet.Bridge.View.{
  Social, view, members, friend_view, map_values, apply, apply_all, map_values-modify, modify_same,
}
use chrono_shift.Dcnet.Bridge.Members.{
  Paired, admit_all, view-join_channel_no_log, view-create_channel_no_log, view-leave_as,
  create_channel_no_log-Paired, join_channel_no_log-Paired, leave_as-Paired,
}
use chrono_shift.Dcnet.Bridge.Replay.{view-apply_op_no_log, apply_op_no_log-Paired}
use chrono_shift.Dcnet.Bridge.Joins.{logged_joins, apply_all-logged_joins}

pub data BridgeCall : Type 0 where
  add_friend_call : (uid addr : Bytes) (trust : ℕ) → BridgeCall
  remove_friend_call : (uid : Bytes) → BridgeCall
  update_trust_call : (uid : Bytes) (trust : ℕ) → BridgeCall
  set_edge_key_call : (uid key : Bytes) → BridgeCall
  set_my_uid_call : (uid : Bytes) → BridgeCall
  create_channel_call : (name : Bytes) → BridgeCall
  join_channel_call : (channel : Bytes) (uids : List Bytes) → BridgeCall
  leave_channel_call : (name : Bytes) → BridgeCall

-- What a call writes to the log.
unfoldable pub logged : BridgeCall → F2fDcNetBridge → List WalOperation
logged (BridgeCall.add_friend_call uid addr trust) b = WalOperation.add_friend uid addr trust ∷ []
logged (BridgeCall.remove_friend_call uid) b = WalOperation.remove_friend uid ∷ []
logged (BridgeCall.update_trust_call uid trust) b = WalOperation.update_trust uid trust ∷ []
logged (BridgeCall.set_edge_key_call uid key) b =
    if has_key uid b.friends then WalOperation.update_edge_key uid (hex_encode key) ∷ [] else []
logged (BridgeCall.set_my_uid_call uid) b = WalOperation.set_uid uid ∷ []
logged (BridgeCall.create_channel_call name) b =
    if has_key name b.channels then [] else WalOperation.create_channel name ∷ []
logged (BridgeCall.join_channel_call channel uids) b = logged_joins channel uids b
logged (BridgeCall.leave_channel_call name) b = WalOperation.leave_channel name b.my_uid ∷ []

module _ (h : Hash) (json : Json) where
  unfoldable pub call : Env → BridgeCall → F2fDcNetBridge → F2fDcNetBridge
  call env (BridgeCall.add_friend_call uid addr trust) b = add_friend h json env uid addr trust b
  call env (BridgeCall.remove_friend_call uid) b = remove_friend h json env uid b
  call env (BridgeCall.update_trust_call uid trust) b = update_trust h json env uid trust b
  call env (BridgeCall.set_edge_key_call uid key) b = (set_edge_key h json env uid key b).1
  call env (BridgeCall.set_my_uid_call uid) b = set_my_uid h json env uid b
  call env (BridgeCall.create_channel_call name) b = (create_channel h json env name b).1
  call env (BridgeCall.join_channel_call channel uids) b =
      (join_channel h json (λ uid. env) channel uids b).1
  call env (BridgeCall.leave_channel_call name) b = leave_channel h json env name b

  -- Logging changes the store alone.
  pub log_wal-rest :
      (env : Env) (op : WalOperation) (b : F2fDcNetBridge)
      → log_wal h json env op b ≡ record b { wal = (log_wal h json env op b).wal }
  unfolding log_wal
  log_wal-rest env op b = elim (Option-cases b.wal) [
    | inl off ↦ rw (log_wal, off) refl
    | inr (wal, on) ↦
        let wal' = (append json env.stamp env.write op wal).1 in
        elim (Bool-cases (should_checkpoint env.now wal')) [
          | inl due ↦ rw (log_wal, on, due) refl
          | inr quiet ↦ rw (log_wal, on, quiet) refl
        ]
  ]

  pub view-log_wal :
      (env : Env) (op : WalOperation) (b : F2fDcNetBridge) → view (log_wal h json env op b) ≡ view b
  view-log_wal env op b = ap view (log_wal-rest env op b)

  log_wal-Paired :
      (env : Env) (op : WalOperation) (b : F2fDcNetBridge)
      → Paired b
      → Paired (log_wal h json env op b)
  log_wal-Paired env op b paired = subst Paired (sym (log_wal-rest env op b)) paired

  pub log_joins-rest :
      (env : Bytes → Env) (channel : Bytes) (uids : List Bytes) (b : F2fDcNetBridge)
      → log_joins h json env channel uids b
        ≡ record b { wal = (log_joins h json env channel uids b).wal }
  unfolding log_joins
  log_joins-rest env channel [] b = refl
  log_joins-rest env channel (uid ∷ uids) b = elim (Bool-cases (logs_join channel uid b)) [
    | inr silent ↦ rw (log_joins, silent) (log_joins-rest env channel uids b)
    | inl logs ↦
        let op = WalOperation.join_channel channel uid in
        let b' = log_wal h json (env uid) op b in
        rw (log_joins, logs)
          (log_joins-rest env channel uids b'
            ∙ ap
                (λ (x : F2fDcNetBridge). record x {
                  wal = (log_joins h json env channel uids b').wal;
                })
                (log_wal-rest (env uid) op b))
  ]

  -- What an operation does after it was logged.
  logged_then :
      (env : Env) (op : WalOperation) (b : F2fDcNetBridge)
      → Paired b
      → (view (apply_op_no_log h env.fresh op (log_wal h json env op b)) ≡ apply op (view b))
        × Paired (apply_op_no_log h env.fresh op (log_wal h json env op b))
  logged_then env op b paired =
      let b' = log_wal h json env op b in
      let still = log_wal-Paired env op b paired in
      (
        view-apply_op_no_log h env.fresh op b' still ∙ ap (apply op) (view-log_wal env op b),
        apply_op_no_log-Paired h env.fresh op b' still,
      )

  set_edge_key-view :
      (env : Env) (uid key : Bytes) (b : F2fDcNetBridge)
      → Paired b
      → (view (set_edge_key h json env uid key b).1
          ≡ apply_all (logged (BridgeCall.set_edge_key_call uid key) b) (view b))
        × Paired (set_edge_key h json env uid key b).1
  unfolding set_edge_key logged apply_all apply
  set_edge_key-view env uid key b paired =
      let op = WalOperation.update_edge_key uid (hex_encode key) in
      let b' = log_wal h json env op b in
      elim (Bool-cases (has_key uid b.friends)) [
        | inr stranger ↦ rw (set_edge_key, logged, stranger) (refl, paired)
        | inl friend ↦
            rw (set_edge_key, logged, friend)
              (
                ap (λ fs. record (view b') { friends = fs })
                      (map_values-modify friend_view (λ f. record f { edge_key = key }) (λ f. f) uid
                          b'.friends (λ f. refl)
                        ∙ modify_same uid (map_values friend_view b'.friends))
                    ∙ view-log_wal env op b,
                log_wal-Paired env op b paired,
              )
      ]

  create_channel-view :
      (env : Env) (name : Bytes) (b : F2fDcNetBridge)
      → Paired b
      → (view (create_channel h json env name b).1
          ≡ apply_all (logged (BridgeCall.create_channel_call name) b) (view b))
        × Paired (create_channel h json env name b).1
  unfolding create_channel logged apply_all
  create_channel-view env name b paired =
      let op = WalOperation.create_channel name in
      let b' = log_wal h json env op b in
      elim (Bool-cases (has_key name b.channels)) [
        | inl known ↦ rw (create_channel, logged, known) (refl, paired)
        | inr new ↦
            rw (create_channel, logged, new)
              (
                view-create_channel_no_log h name b' ∙ ap (apply op) (view-log_wal env op b),
                create_channel_no_log-Paired h name b' (log_wal-Paired env op b paired),
              )
      ]

  join_channel-view :
      (env : Env) (channel : Bytes) (uids : List Bytes) (b : F2fDcNetBridge)
      → Paired b
      → (view (join_channel h json (λ uid. env) channel uids b).1
          ≡ apply_all (logged (BridgeCall.join_channel_call channel uids) b) (view b))
        × Paired (join_channel h json (λ uid. env) channel uids b).1
  unfolding join_channel logged
  join_channel-view env channel uids b paired =
      let b' = log_joins h json (λ uid. env) channel uids b in
      let rest = log_joins-rest (λ uid. env) channel uids b in
      let still : Paired b' = subst Paired (sym rest) paired in
      (
        view-join_channel_no_log h channel uids b' still
            ∙ ap
                (λ (x : F2fDcNetBridge). record (view x) {
                  channels =
                      modify channel (admit_all (view x) uids) (map_values members x.channels);
                })
                rest
            ∙ sym (apply_all-logged_joins channel uids b),
        join_channel_no_log-Paired h channel uids b' still,
      )

  leave_channel-view :
      (env : Env) (name : Bytes) (b : F2fDcNetBridge)
      → Paired b
      → (view (leave_channel h json env name b)
          ≡ apply_all (logged (BridgeCall.leave_channel_call name) b) (view b))
        × Paired (leave_channel h json env name b)
  unfolding leave_channel logged apply_all
  leave_channel-view env name b paired =
      let op = WalOperation.leave_channel name b.my_uid in
      let b' = log_wal h json env op b in
      let same : b'.my_uid ≡ b.my_uid =
        ap (λ (x : F2fDcNetBridge). x.my_uid) (log_wal-rest env op b) in
      (
        view-leave_as h b'.my_uid name b'
            ∙ ap₂ (λ (u : Bytes) (s : Social). apply (WalOperation.leave_channel name u) s) same
                (view-log_wal env op b),
        leave_as-Paired h b'.my_uid name b' (log_wal-Paired env op b paired),
      )

  -- Whatever becomes of the writes (the appends of one join all alike), each call does to the members
  -- and channels what the operations that it logs are specified to do, and nothing when it logs none.
  pub view-call :
      (env : Env) (c : BridgeCall) (b : F2fDcNetBridge)
      → Paired b
      → (view (call env c b) ≡ apply_all (logged c b) (view b)) × Paired (call env c b)
  unfolding call logged apply_all add_friend remove_friend update_trust set_my_uid apply_op_no_log
  view-call env (BridgeCall.add_friend_call uid addr trust) b paired =
      logged_then env (WalOperation.add_friend uid addr trust) b paired
  view-call env (BridgeCall.remove_friend_call uid) b paired =
      logged_then env (WalOperation.remove_friend uid) b paired
  view-call env (BridgeCall.update_trust_call uid trust) b paired =
      logged_then env (WalOperation.update_trust uid trust) b paired
  view-call env (BridgeCall.set_my_uid_call uid) b paired =
      logged_then env (WalOperation.set_uid uid) b paired
  view-call env (BridgeCall.set_edge_key_call uid key) b paired =
      set_edge_key-view env uid key b paired
  view-call env (BridgeCall.create_channel_call name) b paired =
      create_channel-view env name b paired
  view-call env (BridgeCall.join_channel_call channel uids) b paired =
      join_channel-view env channel uids b paired
  view-call env (BridgeCall.leave_channel_call name) b paired = leave_channel-view env name b paired
