-- ===== src/Dcnet/Bridge/Checkpoint.antt =====
-- dcnet/f2f.rs, `checkpoint_wal`, and the start after it.
use chrono_shift.Prelude.{
  ℕ, ◌≡◌, refl, sym, ap, ◌∙◌, subst, none, some, List, [], ◌∷◌, Option-cases, inl, inr,
}
use chrono_shift.Prelude.Keys.{Bytes, bytes_eq}
use chrono_shift.Primitives.{Hash}
use chrono_shift.Storage.{WalStore, Json, Fate, checkpoint, replay, lines_of, ops_of}
use chrono_shift.Dcnet.Bridge.{F2fDcNetBridge, Env, new, attach_wal}
use chrono_shift.Dcnet.Bridge.Saving.{snapshot_bridge}
use chrono_shift.Dcnet.Bridge.Logging.{checkpoint_wal}
use chrono_shift.Dcnet.Bridge.View.{view}
use chrono_shift.Dcnet.Bridge.Members.{Paired}
use chrono_shift.Dcnet.Bridge.Replay.{apply_ops}
use chrono_shift.Dcnet.Bridge.Calls.{BridgeCall, call}
use chrono_shift.Dcnet.Bridge.Recovery.{restart, run, all_logged, view-run}
use chrono_shift.Dcnet.Bridge.Sound.{IsSound, Named, apply_all-IsSound, call-Named}
use chrono_shift.Dcnet.Bridge.Snapshot.{view-apply_snapshot}

module _ (h : Hash) (json : Json) where
  run-Named :
      (calls : List (Env × BridgeCall)) (b : F2fDcNetBridge) → Named b → Named (run h json calls b)
  unfolding run
  run-Named [] b named = named
  run-Named ((env, c) ∷ calls) b named =
      run-Named calls (call h json env c b) (call-Named h json env c b named)

  run-IsSound :
      (calls : List (Env × BridgeCall)) (b : F2fDcNetBridge)
      → Paired b
      → IsSound (view b)
      → IsSound (view (run h json calls b))
  run-IsSound calls b paired sound =
      subst IsSound (sym (view-run h json calls b paired))
        (apply_all-IsSound (all_logged h json calls b) (view b) sound)

  -- Whichever of the eight calls that log (add_friend, remove_friend, update_trust, set_edge_key,
  -- set_my_uid, create_channel, join_channel, leave_channel) were made on a new bridge, whatever
  -- became of their writes and checkpoints (the appends of one join all alike), a checkpoint that
  -- succeeds at the end has all on the disk: the next start restores the user, the friends with
  -- their trust and address, and the channels with their participants.
  pub restart-checkpoint_wal :
      (uid me : Bytes) (wal disk : WalStore) (calls : List (Env × BridgeCall)) (env : Env) (now : ℕ)
      (fresh : ℕ → Bytes)
      → env.fate ≡ Fate.finished
      → (checkpoint_wal h json env (run h json calls (attach_wal wal (new uid)))).wal ≡ some disk
      → view (restart h json now fresh me disk) ≡ view (run h json calls (attach_wal wal (new uid)))
  unfolding restart checkpoint_wal checkpoint replay lines_of ops_of apply_ops run
  restart-checkpoint_wal uid me wal disk calls env now fresh done ended =
      let start = attach_wal wal (new uid) in
      let b = run h json calls start in
      let fine : IsSound (view start) = record {
        friends_once = tt;
        bounded = tt;
        channels_once = tt;
        verified = refl;
      } in
      elim (Option-cases b.wal) [
        | inl off ↦
            let store : (checkpoint_wal h json env b).wal ≡ none = rw (checkpoint_wal, off) off in
            let clash = sym store ∙ ended in absurd cc
        | inr (w, on) ↦
            let after = (checkpoint env.now Fate.finished (snapshot_bridge b) w).1 in
            let store : (checkpoint_wal h json env b).wal ≡ some after =
              rw (checkpoint_wal, on, done) refl in
            let same : after ≡ disk = let both = sym store ∙ ended in cc both in
            ap (λ d. view (restart h json now fresh me d)) (sym same)
            ∙ view-apply_snapshot h (fresh 0) me b (run-IsSound calls start (λ name. refl) fine)
                (run-Named calls start tt)
      ]
