-- ===== src/Dcnet/Bridge/Members.antt =====
-- Joining, creating and leaving a channel, as the specification has them, and the groups beside
-- the channels.
use chrono_shift.Prelude.{
  ◌≡◌, refl, sym, ap, ◌∙◌, true, not, ◌&&◌, none, some, List, [], ◌∷◌, leb, arith, if◌then◌else◌,
  Bool-cases, Option-cases, inl, inr,
}
use chrono_shift.Prelude.Keys.{Bytes, ◌=?◌, bytes_eq, contains, without}
use chrono_shift.Prelude.Dict.{lookup, has_key, insert, modify}
use chrono_shift.Primitives.{Hash}
use chrono_shift.Storage.{WalOperation}
use chrono_shift.Dcnet.Bridge.{
  F2fDcNetBridge, Membership, join_one, join_each, join_channel_no_log, create_channel_no_log,
  leave_as,
}
use chrono_shift.Dcnet.Bridge.View.{
  Social, view, members, friend_view, map_values, admitted, apply, map_values-insert,
  map_values-modify, lookup-map_values, has_key-map_values, modify_absent, insert-modify,
}
use chrono_shift.Prelude.Entries.{has_key-insert, has_key-modify}

-- Channels and groups have the same names.
abbrev pub Paired : F2fDcNetBridge → Type 0
Paired b = (name : Bytes) → has_key name b.groups ≡ has_key name b.channels

abbrev pub admit_all : Social → List Bytes → List Bytes → List Bytes
admit_all s [] ps = ps
admit_all s (uid ∷ uids) ps = admit_all s uids (admitted s uid ps)

module _ (h : Hash) where
  join_one-admitted :
      (b : F2fDcNetBridge) (uid : Bytes) (m : Membership h)
      → (join_one h b uid m).1.0.participants ≡ admitted (view b) uid m.0.participants
  unfolding join_one
  join_one-admitted b uid (ch, group) = elim (Bool-cases (uid =? b.my_uid)) [
    | inl me ↦ rw (join_one, me) refl
    | inr other ↦ elim (Option-cases (lookup uid b.friends)) [
      | inl stranger ↦
          let unknown : lookup uid (map_values friend_view b.friends) ≡ none =
            lookup-map_values friend_view uid b.friends
            ∙ ap (λ o. elim o [ none ↦ none | some v ↦ some (friend_view v) ]) stranger in
          rw (join_one, other, stranger, unknown) refl
      | inr (f, found) ↦
          let known : lookup uid (map_values friend_view b.friends) ≡ some (friend_view f) =
            lookup-map_values friend_view uid b.friends
            ∙ ap (λ o. elim o [ none ↦ none | some v ↦ some (friend_view v) ]) found in
          elim (Bool-cases (leb b.min_trust f.trust_level && not (contains ch.participants uid))) [
            | inl joins ↦ rw (join_one, other, found, known, joins) refl
            | inr stays ↦ rw (join_one, other, found, known, stays) refl
          ]
    ]
  ]

  join_each-admit_all :
      (b : F2fDcNetBridge) (uids : List Bytes) (m : Membership h)
      → (join_each h b uids m).1.0.participants ≡ admit_all (view b) uids m.0.participants
  unfolding join_each
  join_each-admit_all b [] m = refl
  join_each-admit_all b (uid ∷ uids) m =
      join_each-admit_all b uids (join_one h b uid m).1
      ∙ ap (admit_all (view b) uids) (join_one-admitted b uid m)

  pub view-join_channel_no_log :
      (channel : Bytes) (uids : List Bytes) (b : F2fDcNetBridge)
      → Paired b
      → view (join_channel_no_log h channel uids b).1 ≡ record (view b) {
        channels = modify channel (admit_all (view b) uids) (map_values members b.channels);
      }
  unfolding join_channel_no_log
  view-join_channel_no_log channel uids b paired =
      let change = admit_all (view b) uids in
      let looked = lookup-map_values members channel b.channels in
      elim (Option-cases (lookup channel b.channels)) [
        | inl gone ↦
            let absent : lookup channel (map_values members b.channels) ≡ none =
              looked ∙ ap (λ o. elim o [ none ↦ none | some v ↦ some (members v) ]) gone in
            rw (join_channel_no_log, gone)
              (ap (λ cs. record (view b) { channels = cs })
                (sym (modify_absent channel change (map_values members b.channels) absent)))
        | inr (ch, found) ↦
            let present : lookup channel (map_values members b.channels) ≡ some ch.participants =
              looked ∙ ap (λ o. elim o [ none ↦ none | some v ↦ some (members v) ]) found in
            elim (Option-cases (lookup channel b.groups)) [
              | inl no_group ↦ absurd (let p = paired channel in ground arith)
              | inr (group, grouped) ↦
                  rw (join_channel_no_log, found, grouped)
                    (ap (λ cs. record (view b) { channels = cs })
                      (map_values-insert members channel (join_each h b uids (ch, group)).1.0
                          b.channels
                        ∙ ap (λ ps. insert channel ps (map_values members b.channels))
                            (join_each-admit_all b uids (ch, group))
                        ∙ insert-modify channel change (map_values members b.channels)
                            ch.participants present))
            ]
      ]

  pub view-create_channel_no_log :
      (name : Bytes) (b : F2fDcNetBridge)
      → view (create_channel_no_log h name b).1 ≡ apply (WalOperation.create_channel name) (view b)
  unfolding create_channel_no_log apply
  view-create_channel_no_log name b =
      let same = has_key-map_values members name b.channels in
      elim (Bool-cases (has_key name b.channels)) [
        | inl known ↦ rw (create_channel_no_log, apply, same, known) refl
        | inr new ↦
            rw (create_channel_no_log, apply, same, new)
              (ap (λ cs. record (view b) { channels = cs })
                (map_values-insert members name _ b.channels))
      ]

  pub view-leave_as :
      (uid name : Bytes) (b : F2fDcNetBridge)
      → view (leave_as h uid name b) ≡ apply (WalOperation.leave_channel name uid) (view b)
  unfolding leave_as apply
  view-leave_as uid name b =
      ap (λ cs. record (view b) { channels = cs })
        (map_values-modify members (λ ch. record ch { participants = without uid ch.participants })
          (without uid) name b.channels (λ ch. refl))

  pub create_channel_no_log-Paired :
      (name : Bytes) (b : F2fDcNetBridge) → Paired b → Paired (create_channel_no_log h name b).1
  unfolding create_channel_no_log
  create_channel_no_log-Paired name b paired = elim (Bool-cases (has_key name b.channels)) [
    | inl known ↦ rw (create_channel_no_log, known) paired
    | inr new ↦
        rw (create_channel_no_log, new)
          (λ j.
            has_key-insert name j _ b.groups
            ∙ ap (λ t. if name =? j then true else t) (paired j)
            ∙ sym (has_key-insert name j _ b.channels))
  ]

  pub join_channel_no_log-Paired :
      (channel : Bytes) (uids : List Bytes) (b : F2fDcNetBridge)
      → Paired b
      → Paired (join_channel_no_log h channel uids b).1
  unfolding join_channel_no_log
  join_channel_no_log-Paired channel uids b paired =
      elim (Option-cases (lookup channel b.channels)) [
        | inl gone ↦ rw (join_channel_no_log, gone) paired
        | inr (ch, found) ↦ elim (Option-cases (lookup channel b.groups)) [
          | inl no_group ↦ rw (join_channel_no_log, found, no_group) paired
          | inr (group, grouped) ↦
              rw (join_channel_no_log, found, grouped)
                (λ j.
                  has_key-insert channel j _ b.groups
                  ∙ ap (λ t. if channel =? j then true else t) (paired j)
                  ∙ sym (has_key-insert channel j _ b.channels))
        ]
      ]

  pub leave_as-Paired :
      (uid name : Bytes) (b : F2fDcNetBridge) → Paired b → Paired (leave_as h uid name b)
  unfolding leave_as
  leave_as-Paired uid name b paired j =
      has_key-modify name j _ b.groups ∙ paired j ∙ sym (has_key-modify name j _ b.channels)
