-- ===== src/Dcnet/Bridge/Replay.antt =====
-- Replayed operations do to a bridge what the specification says.
use chrono_shift.Prelude.{
  ℕ, ◌+◌, ◌≡◌, refl, sym, ap, ◌∙◌, subst, true, false, none, some, List, [], ◌∷◌, min, arith,
  Bool-cases, Option-cases, inl, inr,
}
use chrono_shift.Prelude.Keys.{Bytes, ◌=?◌, =?_iff, bytes_eq, without}
use chrono_shift.Prelude.Dict.{lookup, has_key}
use chrono_shift.Primitives.{Hash}
use chrono_shift.Identity.{decode_key}
use chrono_shift.Storage.{WalOperation}
use chrono_shift.Dcnet.Bridge.{F2fDcNetBridge, leave_as, apply_op_no_log}
use chrono_shift.Dcnet.Bridge.View.{
  view, members, friend_view, map_values, apply, apply_all, map_values-insert, map_values-remove,
  map_values-modify, lookup-map_values, modify_same, modify_absent,
}
use chrono_shift.Dcnet.Bridge.Members.{
  Paired, view-join_channel_no_log, view-create_channel_no_log, view-leave_as,
  create_channel_no_log-Paired, join_channel_no_log-Paired, leave_as-Paired,
}

module _ (h : Hash) where
  pub view-apply_op_no_log :
      (fresh : Bytes) (op : WalOperation) (b : F2fDcNetBridge)
      → Paired b
      → view (apply_op_no_log h fresh op b) ≡ apply op (view b)
  unfolding apply_op_no_log apply
  view-apply_op_no_log fresh (WalOperation.add_friend uid addr trust) b paired =
      ap (λ fs. record (view b) { friends = fs }) (map_values-insert friend_view uid _ b.friends)
  view-apply_op_no_log fresh (WalOperation.remove_friend uid) b paired =
      ap (λ fs. record (view b) { friends = fs }) (map_values-remove friend_view uid b.friends)
  view-apply_op_no_log fresh (WalOperation.update_trust uid trust) b paired =
      ap (λ fs. record (view b) { friends = fs })
        (map_values-modify friend_view (λ f. record f { trust_level = min trust 2 })
          (λ f. record f { trust = min trust 2 }) uid b.friends (λ f. refl))
  view-apply_op_no_log fresh (WalOperation.update_edge_key uid key_hex) b paired =
      elim (Option-cases (decode_key key_hex)) [
        | inl bad ↦ rw (apply_op_no_log, bad) refl
        | inr (k, good) ↦
            rw (apply_op_no_log, good)
              (ap (λ fs. record (view b) { friends = fs })
                (map_values-modify friend_view (λ f. record f { edge_key = k }) (λ f. f) uid
                    b.friends (λ f. refl)
                  ∙ modify_same uid (map_values friend_view b.friends)))
      ]
  view-apply_op_no_log fresh (WalOperation.create_channel name) b paired =
      view-create_channel_no_log h name b
  view-apply_op_no_log fresh (WalOperation.join_channel channel uid) b paired =
      view-join_channel_no_log h channel (uid ∷ []) b paired
  view-apply_op_no_log fresh (WalOperation.leave_channel channel uid) b paired =
      elim (Bool-cases (uid =? b.my_uid)) [
        | inl me ↦
            rw (apply_op_no_log, me)
              (subst
                (λ u.
                  view (leave_as h b.my_uid channel b)
                  ≡ apply (WalOperation.leave_channel channel u) (view b))
                (sym ((=?_iff uid b.my_uid).0 me)) (view-leave_as h b.my_uid channel b))
        | inr other ↦ elim (Option-cases (lookup channel b.channels)) [
          | inr (ch, found) ↦
              let there : has_key channel b.channels ≡ true = ground arith in
              rw (apply_op_no_log, other, there) (view-leave_as h uid channel b)
          | inl gone ↦
              let nowhere : has_key channel b.channels ≡ false = ground arith in
              let absent : lookup channel (map_values members b.channels) ≡ none =
                lookup-map_values members channel b.channels
                ∙ ap (λ o. elim o [ none ↦ none | some v ↦ some (members v) ]) gone in
              rw (apply_op_no_log, other, nowhere)
                (ap (λ cs. record (view b) { channels = cs })
                  (sym
                    (modify_absent channel (without uid) (map_values members b.channels) absent)))
        ]
      ]
  view-apply_op_no_log fresh (WalOperation.set_uid uid) b paired = refl
  view-apply_op_no_log fresh (WalOperation.create_network name admin) b paired = refl
  view-apply_op_no_log fresh (WalOperation.add_member network uid) b paired = refl
  view-apply_op_no_log fresh (WalOperation.remove_member network uid) b paired = refl
  view-apply_op_no_log fresh (WalOperation.send_message sender receiver text) b paired = refl

  pub apply_op_no_log-Paired :
      (fresh : Bytes) (op : WalOperation) (b : F2fDcNetBridge)
      → Paired b
      → Paired (apply_op_no_log h fresh op b)
  unfolding apply_op_no_log
  apply_op_no_log-Paired fresh (WalOperation.add_friend uid addr trust) b paired = paired
  apply_op_no_log-Paired fresh (WalOperation.remove_friend uid) b paired = paired
  apply_op_no_log-Paired fresh (WalOperation.update_trust uid trust) b paired = paired
  apply_op_no_log-Paired fresh (WalOperation.update_edge_key uid key_hex) b paired =
      elim (Option-cases (decode_key key_hex)) [
        | inl bad ↦ rw (apply_op_no_log, bad) paired
        | inr (k, good) ↦ rw (apply_op_no_log, good) paired
      ]
  apply_op_no_log-Paired fresh (WalOperation.create_channel name) b paired =
      create_channel_no_log-Paired h name b paired
  apply_op_no_log-Paired fresh (WalOperation.join_channel channel uid) b paired =
      join_channel_no_log-Paired h channel (uid ∷ []) b paired
  apply_op_no_log-Paired fresh (WalOperation.leave_channel channel uid) b paired =
      elim (Bool-cases (uid =? b.my_uid)) [
        | inl me ↦ rw (apply_op_no_log, me) (leave_as-Paired h b.my_uid channel b paired)
        | inr other ↦ elim (Bool-cases (has_key channel b.channels)) [
          | inl there ↦ rw (apply_op_no_log, other, there) (leave_as-Paired h uid channel b paired)
          | inr nowhere ↦ rw (apply_op_no_log, other, nowhere) paired
        ]
      ]
  apply_op_no_log-Paired fresh (WalOperation.set_uid uid) b paired = paired
  apply_op_no_log-Paired fresh (WalOperation.create_network name admin) b paired = paired
  apply_op_no_log-Paired fresh (WalOperation.add_member network uid) b paired = paired
  apply_op_no_log-Paired fresh (WalOperation.remove_member network uid) b paired = paired
  apply_op_no_log-Paired fresh (WalOperation.send_message sender receiver text) b paired = paired

  -- The operations of a log, one after the other; each has a random key at hand.
  unfoldable pub apply_ops : (ℕ → Bytes) → List WalOperation → F2fDcNetBridge → F2fDcNetBridge
  apply_ops fresh [] b = b
  apply_ops fresh (op ∷ ops) b =
      apply_ops (λ n. fresh (n + 1)) ops (apply_op_no_log h (fresh 0) op b)

  pub view-apply_ops :
      (fresh : ℕ → Bytes) (ops : List WalOperation) (b : F2fDcNetBridge)
      → Paired b
      → view (apply_ops fresh ops b) ≡ apply_all ops (view b)
  unfolding apply_ops apply_all
  view-apply_ops fresh [] b paired = refl
  view-apply_ops fresh (op ∷ ops) b paired =
      view-apply_ops (λ n. fresh (n + 1)) ops (apply_op_no_log h (fresh 0) op b)
        (apply_op_no_log-Paired (fresh 0) op b paired)
      ∙ ap (apply_all ops) (view-apply_op_no_log (fresh 0) op b paired)
