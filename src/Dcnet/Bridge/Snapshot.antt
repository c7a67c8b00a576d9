-- ===== src/Dcnet/Bridge/Snapshot.antt =====
-- dcnet/f2f.rs, snapshot_bridge and apply_snapshot: what a checkpoint keeps is what it brings back.
use mathlib.Core.List.{append_assoc, append-nil}
use chrono_shift.Prelude.{
  ℕ, ◌≤◌, ◌≡◌, refl, sym, ap, ap₂, ◌∙◌, subst, true, false, ◌||◌, none, some, List, [], ◌∷◌, ◌++◌,
  min, arith, Bool-cases, inl, inr, All,
}
use chrono_shift.Prelude.Keys.{Bytes, ◌=?◌, =?_iff, bytes_eq}
use chrono_shift.Prelude.Dict.{Dict, has_key, insert, modify, insert-fresh, has_key-append}
use chrono_shift.Prelude.Entries.{OncePerKey, modify-push}
use chrono_shift.Primitives.{Hash}
use chrono_shift.Identity.{hex_encode, decode_key}
use chrono_shift.Storage.{ChannelRecord}
use chrono_shift.Dcnet.Bridge.{
  F2fDcNetBridge, F2fFriend, ChannelInfo, new, with_edge_key, create_channel_no_log,
}
use chrono_shift.Dcnet.Bridge.Saving.{
  friend_records, channel_records, snapshot_bridge, restore_friends, restore_channels,
  apply_snapshot, join_peers,
}
use chrono_shift.Dcnet.Bridge.View.{
  Social, FriendView, view, members, friend_view, map_values, has_key-map_values,
}
use chrono_shift.Dcnet.Bridge.Sound.{TrustBounded, IsSound, IsNamed, Named}

map_values-append {ℓ κ} :
    {V : Type ℓ} {W : Type κ} (f : V → W) (d d' : Dict Bytes V)
    → map_values f (d ++ d') ≡ map_values f d ++ map_values f d'
map_values-append f [] d' = refl
map_values-append f ((k, v) ∷ d) d' = ap (◌∷◌ (k, f v)) (map_values-append f d d')

-- No key is in both.
abbrev Apart {ℓ κ} : {V : Type ℓ} {W : Type κ} → Dict Bytes V → Dict Bytes W → Type 0
Apart d d' = (k : Bytes) → has_key k d ≡ true → has_key k d' ≡ false

-- What comes behind the first entry is apart from a map with that entry pushed.
Apart-push {ℓ κ} :
    {V : Type ℓ} {W : Type κ} (j : Bytes) (v : V) (w : W) (d : Dict Bytes V) (acc : Dict Bytes W)
    → has_key j d ≡ false
    → Apart ((j, v) ∷ d) acc
    → Apart d (acc ++ (j, w) ∷ [])
Apart-push j v w d acc fresh apart k inside = elim (Bool-cases (j =? k)) [
  | inl same ↦
      let clash : has_key j d ≡ true =
        subst (λ i. has_key i d ≡ true) (sym ((=?_iff j k).0 same)) inside in
      absurd cc
  | inr other ↦
      let before : has_key k acc ≡ false = apart k (rw (has_key, other) inside) in
      has_key-append k j w acc ∙ ap₂ ◌||◌ before other
]

module _ (h : Hash) where
  create_channel_no_log-rest :
      (name : Bytes) (b : F2fDcNetBridge)
      → (create_channel_no_log h name b).1 ≡ record b {
        channels = (create_channel_no_log h name b).1.channels;
        groups = (create_channel_no_log h name b).1.groups;
      }
  unfolding create_channel_no_log
  create_channel_no_log-rest name b = elim (Bool-cases (has_key name b.channels)) [
    | inl known ↦ rw (create_channel_no_log, known) refl
    | inr new ↦ rw (create_channel_no_log, new) refl
  ]

  -- Channels are restored without a change of anything else.
  pub restore_channels-rest :
      (cs : List ChannelRecord) (b : F2fDcNetBridge)
      → restore_channels h cs b ≡ record b {
        channels = (restore_channels h cs b).channels;
        groups = (restore_channels h cs b).groups;
      }
  unfolding restore_channels
  restore_channels-rest [] b = refl
  restore_channels-rest (c ∷ cs) b =
      restore_channels-rest cs _
      ∙ ap
          (λ (x : F2fDcNetBridge). record x {
            channels = (restore_channels h (c ∷ cs) b).channels;
            groups = (restore_channels h (c ∷ cs) b).groups;
          })
          (create_channel_no_log-rest c.name b)

  restored_friends :
      (fresh : Bytes) (d acc : Dict Bytes F2fFriend)
      → OncePerKey (map_values friend_view d)
      → All TrustBounded (map_values friend_view d)
      → Apart d acc
      → map_values friend_view (restore_friends h fresh (friend_records d) acc)
        ≡ map_values friend_view acc ++ map_values friend_view d
  unfolding restore_friends friend_records
  restored_friends fresh [] acc once bounded apart = sym (append-nil (map_values friend_view acc))
  restored_friends fresh ((j, f) ∷ d) acc (lone, once) (small, bounded) apart =
      let key : Bytes = elim (decode_key (hex_encode f.edge_key)) [ none ↦ fresh | some k ↦ k ] in
      let f' : F2fFriend = with_edge_key h j f.transport_address f.trust_level key in
      let outside : has_key j acc ≡ false = apart j (ground (arith, =?_iff j j)) in
      let pushed : insert j f' acc ≡ acc ++ (j, f') ∷ [] = insert-fresh j f' acc outside in
      let lone' : has_key j d ≡ false = sym (has_key-map_values friend_view j d) ∙ lone in
      let same : friend_view f' ≡ friend_view f =
        ap (λ t. record { trust = t; addr = f.transport_address })
          (min_small f.trust_level small) in
      restored_friends fresh d (insert j f' acc) once bounded
        (subst (λ m. Apart d m) (sym pushed) (Apart-push j f f' d acc lone' apart))
      ∙ ap (λ m. map_values friend_view m ++ map_values friend_view d) pushed
      ∙ ap (λ m. m ++ map_values friend_view d) (map_values-append friend_view acc ((j, f') ∷ []))
      ∙ append_assoc (map_values friend_view acc) ((j, friend_view f') ∷ [])
          (map_values friend_view d)
      ∙ ap (λ v. map_values friend_view acc ++ (j, v) ∷ map_values friend_view d) same
    where
      min_small : (t : ℕ) → t ≤ 2 → min t 2 ≡ t
      min_small t small = ground arith

  restored_channels :
      (cs : Dict Bytes ChannelInfo) (b : F2fDcNetBridge)
      → OncePerKey (map_values members cs)
      → All IsNamed cs
      → Apart cs b.channels
      → map_values members (restore_channels h (channel_records cs) b).channels
        ≡ map_values members b.channels ++ map_values members cs
  unfolding restore_channels channel_records create_channel_no_log
  restored_channels [] b once named apart = sym (append-nil (map_values members b.channels))
  restored_channels ((name, c) ∷ cs) b (lone, once) (same, named) apart =
      let outside : has_key c.name b.channels ≡ false =
        apart c.name (ground (arith, same, =?_iff name c.name)) in
      let lone' : has_key c.name cs ≡ false =
        ap (λ n. has_key n cs) same ∙ sym (has_key-map_values members name cs) ∙ lone in
      let fill : ChannelInfo → ChannelInfo =
        λ ch. record ch { topic = c.topic; participants = c.participants } in
      let empty : ChannelInfo = record {
        name = c.name;
        topic = [];
        participants = b.my_uid ∷ [];
        round_id = 0;
        running = false;
      } in
      let b' = (create_channel_no_log h c.name b).1 in
      let b'' : F2fDcNetBridge = record b' {
        channels = modify c.name fill b'.channels;
        groups = modify c.name (join_peers h c.participants) b'.groups;
      } in
      let created : b'.channels ≡ b.channels ++ (c.name, empty) ∷ [] =
        rw (create_channel_no_log, outside) (insert-fresh c.name empty b.channels outside) in
      let pushed : b''.channels ≡ b.channels ++ (c.name, fill empty) ∷ [] =
        ap (modify c.name fill) created ∙ modify-push c.name fill empty b.channels outside in
      let apart' : Apart ((c.name, c) ∷ cs) b.channels =
        subst (λ n. Apart ((n, c) ∷ cs) b.channels) (sym same) apart in
      restored_channels cs b'' once named (
        subst (λ m. Apart cs m) (sym pushed)
          (Apart-push c.name c (fill empty) cs b.channels lone' apart'))
      ∙ ap (λ m. map_values members m ++ map_values members cs) pushed
      ∙ ap (λ m. m ++ map_values members cs)
          (map_values-append members b.channels ((c.name, fill empty) ∷ []))
      ∙ append_assoc (map_values members b.channels) ((c.name, c.participants) ∷ [])
          (map_values members cs)
      ∙ ap (λ n. map_values members b.channels ++ (n, c.participants) ∷ map_values members cs) same

  -- The snapshot of a sound bridge brings back its members and channels.
  pub view-apply_snapshot :
      (fresh me : Bytes) (b : F2fDcNetBridge)
      → IsSound (view b)
      → Named b
      → view (apply_snapshot h fresh (snapshot_bridge b) (new me)) ≡ view b
  unfolding apply_snapshot snapshot_bridge
  view-apply_snapshot fresh me b sound named =
      let friends = restore_friends h fresh (friend_records b.friends) [] in
      let cleared : F2fDcNetBridge = record (new me) { my_uid = b.my_uid; friends = friends } in
      ap view (restore_channels-rest (channel_records b.channels) cleared)
      ∙ ap (λ cs. view_of b.my_uid 1 (map_values friend_view friends) cs)
          (restored_channels b.channels cleared sound.channels_once named (λ k inside. refl))
      ∙ ap (λ fs. view_of b.my_uid 1 fs (map_values members b.channels))
          (restored_friends fresh b.friends [] sound.friends_once sound.bounded (λ k inside. refl))
      ∙ ap
          (λ t.
            view_of b.my_uid t (map_values friend_view b.friends) (map_values members b.channels))
          (sym sound.verified)
    where
      view_of : Bytes → ℕ → Dict Bytes FriendView → Dict Bytes (List Bytes) → Social
      view_of uid min_trust friends channels = record {
        uid = uid;
        min_trust = min_trust;
        friends = friends;
        channels = channels;
      }
