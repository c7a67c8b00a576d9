-- ===== src/Dcnet/Bridge/Recovery.antt =====
-- app.rs, the start of the application: the social state from the snapshot and the log.
use mathlib.Core.List.{append_assoc, append-nil}
use chrono_shift.Prelude.{
  ℕ, ◌+◌, ◌≤◌, ◌<◌, ◌≡◌, refl, sym, ap, ◌∙◌, subst, none, some, List, [], ◌∷◌, ◌++◌, length, arith,
  length-append, All,
}
use chrono_shift.Prelude.Keys.{Bytes}
use chrono_shift.Primitives.{Hash}
use chrono_shift.Storage.{
  WalOperation, WalStore, Json, open_store, replay, load_state, max_wal_bytes,
}
use chrono_shift.Storage.Replay.{Logged, replay-Logged}
use chrono_shift.Dcnet.Bridge.{F2fDcNetBridge, Env, new, attach_wal}
use chrono_shift.Dcnet.Bridge.Saving.{apply_snapshot}
use chrono_shift.Dcnet.Bridge.View.{Social, view, apply, apply_all}
use chrono_shift.Dcnet.Bridge.Members.{Paired}
use chrono_shift.Dcnet.Bridge.Replay.{apply_ops, view-apply_ops}
use chrono_shift.Dcnet.Bridge.Calls.{BridgeCall, logged, call, view-call}
use chrono_shift.Dcnet.Bridge.Journal.{Timely, Attached, call-Attached}

module _ (h : Hash) (json : Json) where
  -- The bridge of a start whose log can be opened, from what the last run left on the disk; every
  -- operation finds a random key.
  unfoldable pub restart : ℕ → (ℕ → Bytes) → Bytes → WalStore → F2fDcNetBridge
  restart now fresh uid disk =
      let wal = open_store now 100 disk.log disk.state in
      let restored : F2fDcNetBridge = elim (load_state wal) [
        | none ↦ new uid
        | some snap ↦ apply_snapshot h (fresh 0) snap (new uid)
      ] in
      attach_wal wal (apply_ops h (λ n. fresh (n + 1)) (replay json wal) restored)

  unfoldable pub run : List (Env × BridgeCall) → F2fDcNetBridge → F2fDcNetBridge
  run [] b = b
  run ((env, c) ∷ calls) b = run calls (call h json env c b)

  -- All that a run logs.
  unfoldable pub all_logged : List (Env × BridgeCall) → F2fDcNetBridge → List WalOperation
  all_logged [] b = []
  all_logged ((env, c) ∷ calls) b = logged c b ++ all_logged calls (call h json env c b)

  apply_all-append :
      (ops ops' : List WalOperation) (s : Social)
      → apply_all (ops ++ ops') s ≡ apply_all ops' (apply_all ops s)
  unfolding apply_all
  apply_all-append [] ops' s = refl
  apply_all-append (op ∷ ops) ops' s = apply_all-append ops ops' (apply op s)

  pub view-run :
      (calls : List (Env × BridgeCall)) (b : F2fDcNetBridge)
      → Paired b
      → view (run calls b) ≡ apply_all (all_logged calls b) (view b)
  unfolding run all_logged apply_all
  view-run [] b paired = refl
  view-run ((env, c) ∷ calls) b paired =
      let (seen, still) = view-call h json env c b paired in
      view-run calls (call h json env c b) still
      ∙ ap (apply_all (all_logged calls (call h json env c b))) seen
      ∙ sym (apply_all-append (logged c b) (all_logged calls (call h json env c b)) (view b))

  run-Attached :
      (start limit : ℕ) (calls : List (Env × BridgeCall)) (ops : List WalOperation)
      (b : F2fDcNetBridge)
      → All (λ c. Timely start c.0) calls
      → length ops + length (all_logged calls b) < limit
      → Attached h json start limit b.wal ops
      → Attached h json start limit (run calls b).wal (ops ++ all_logged calls b)
  unfolding run all_logged
  run-Attached start limit [] ops b timely room attached =
      subst (Attached h json start limit b.wal) (sym (append-nil ops)) attached
  run-Attached start limit ((env, c) ∷ calls) ops b (timely, later) room attached =
      let b' = call h json env c b in
      let size = length-append (logged c b) (all_logged calls b') in
      let size' = length-append ops (logged c b) in
      subst (Attached h json start limit (run calls b').wal)
        (append_assoc ops (logged c b) (all_logged calls b'))
        (run-Attached start limit calls (ops ++ logged c b) b' later (omega (arith, size, size'))
          (call-Attached h json start limit env c ops b timely (omega (arith, size)) attached))

  -- Whichever of the eight calls that log (add_friend, remove_friend, update_trust, set_edge_key,
  -- set_my_uid, create_channel, join_channel, leave_channel) are made on a new bridge with a new
  -- log, as long as every append is written, they log fewer than 100 operations within a minute,
  -- so that no checkpoint comes, and the log stays within its limit, the next start restores the
  -- user, the friends with their trust and address and the channels with their participants, in
  -- order.
  pub restart-run :
      (uid : Bytes) (start : ℕ) (calls : List (Env × BridgeCall)) (disk : WalStore) (now : ℕ)
      (fresh : ℕ → Bytes)
      → (run calls (attach_wal (open_store start 100 [] none) (new uid))).wal ≡ some disk
      → All (λ c. Timely start c.0) calls
      → length (all_logged calls (attach_wal (open_store start 100 [] none) (new uid))) < 100
      → length disk.log ≤ max_wal_bytes
      → view (restart now fresh uid disk)
        ≡ view (run calls (attach_wal (open_store start 100 [] none) (new uid)))
  unfolding restart apply_ops run replay
  restart-run uid start calls disk now fresh ended timely room small =
      let b = attach_wal (open_store start 100 [] none) (new uid) in
      let ops = all_logged calls b in
      let empty : Attached h json start 100 b.wal [] =
        (open_store start 100 [] none, refl, ((λ more. refl), refl, refl, refl, refl)) in
      let (wal, on, (held, count, since, every, bare)) =
        run-Attached start 100 calls [] b timely (omega arith) empty in
      let same : wal ≡ disk = let both = sym on ∙ ended in cc both in
      let reopened = open_store now 100 disk.log disk.state in
      let read : replay json reopened ≡ ops =
        replay-Logged json reopened ops small (subst (λ w. Logged json w.log ops) same held) in
      let no_state : disk.state ≡ none = ap (λ w. w.state) (sym same) ∙ bare in
      rw (restart, no_state, read)
        (view-apply_ops h (λ n. fresh (n + 1)) ops (new uid) (λ name. refl)
          ∙ sym (view-run calls b (λ name. refl)))
