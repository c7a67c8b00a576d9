-- ===== src/Dcnet/Bridge/Joins.antt =====
-- The joins of a channel, and those that are logged.
use chrono_shift.Prelude.{
  ◌≡◌, refl, sym, ap, ◌∙◌, true, false, none, some, List, [], ◌∷◌, arith, if◌then◌else◌, Bool-cases,
  Option-cases, inl, inr,
}
use chrono_shift.Prelude.Keys.{Bytes, ◌=?◌, bytes_eq, contains}
use chrono_shift.Prelude.Sets.{contains-append}
use chrono_shift.Prelude.Dict.{Dict, lookup, modify}
use chrono_shift.Storage.{WalOperation}
use chrono_shift.Dcnet.Bridge.{F2fDcNetBridge, ChannelInfo}
use chrono_shift.Dcnet.Bridge.Logging.{logs_join}
use chrono_shift.Dcnet.Bridge.View.{
  Social, view, members, friend_view, map_values, admitted, apply, apply_all, lookup-map_values,
  modify_same,
}
use chrono_shift.Dcnet.Bridge.Members.{admit_all}

-- The joins that are logged: of friends who are not there yet.
abbrev pub logged_joins : Bytes → List Bytes → F2fDcNetBridge → List WalOperation
logged_joins channel [] b = []
logged_joins channel (uid ∷ uids) b =
    let rest = logged_joins channel uids b in
    if logs_join channel uid b then WalOperation.join_channel channel uid ∷ rest else rest

modify_ext {ℓ} :
    {V : Type ℓ} (k : Bytes) (f g : V → V) (d : Dict Bytes V)
    → ((v : V) → lookup k d ≡ some v → f v ≡ g v)
    → modify k f d ≡ modify k g d
modify_ext k f g [] same = refl
modify_ext k f g ((j, v) ∷ d) same = elim (Bool-cases (j =? k)) [
  | inl here ↦
      rw here (ap (λ w. (j, w) ∷ d) (same v (ap (λ b. if b then some v else lookup k d) here)))
  | inr away ↦ rw away (
      ap (◌∷◌ (j, v)) (
        modify_ext k f g d
          (λ w found. same w (ap (λ b. if b then some v else lookup k d) away ∙ found))))
]

modify-modify {ℓ} :
    {V : Type ℓ} (k : Bytes) (f g : V → V) (d : Dict Bytes V)
    → modify k f (modify k g d) ≡ modify k (λ v. f (g v)) d
modify-modify k f g [] = refl
modify-modify k f g ((j, v) ∷ d) = elim (Bool-cases (j =? k)) [
  | inl here ↦ rw (here, here) refl
  | inr away ↦ rw (away, away) (ap (◌∷◌ (j, v)) (modify-modify k f g d))
]

-- The joins of a log, all of one channel.
abbrev joins : Bytes → List Bytes → List WalOperation
joins channel [] = []
joins channel (uid ∷ uids) = WalOperation.join_channel channel uid ∷ joins channel uids

apply_all-joins :
    (channel : Bytes) (uids : List Bytes) (s : Social)
    → apply_all (joins channel uids) s
      ≡ record s { channels = modify channel (admit_all s uids) s.channels }
unfolding apply_all apply
apply_all-joins channel [] s =
    ap (λ cs. record s { channels = cs }) (sym (modify_same channel s.channels))
apply_all-joins channel (uid ∷ uids) s =
    apply_all-joins channel uids
      (record s { channels = modify channel (admitted s uid) s.channels })
    ∙ ap (λ cs. record s { channels = cs })
        (modify-modify channel (admit_all s uids) (admitted s uid) s.channels)

-- Those of whom the joining is logged.
abbrev joining : Bytes → List Bytes → F2fDcNetBridge → List Bytes
joining channel [] b = []
joining channel (uid ∷ uids) b =
    let rest = joining channel uids b in if logs_join channel uid b then uid ∷ rest else rest

logged_joins-joining :
    (channel : Bytes) (uids : List Bytes) (b : F2fDcNetBridge)
    → logged_joins channel uids b ≡ joins channel (joining channel uids b)
logged_joins-joining channel [] b = refl
logged_joins-joining channel (uid ∷ uids) b = elim (Bool-cases (logs_join channel uid b)) [
  | inl logs ↦
      rw logs
        (ap (◌∷◌ (WalOperation.join_channel channel uid)) (logged_joins-joining channel uids b))
  | inr silent ↦ rw silent (logged_joins-joining channel uids b)
]

-- Whoever is not logged would not have joined.
not_logged :
    (channel uid : Bytes) (b : F2fDcNetBridge) (ch : ChannelInfo) (ps : List Bytes)
    → lookup channel b.channels ≡ some ch
    → (contains ch.participants uid ≡ true → contains ps uid ≡ true)
    → logs_join channel uid b ≡ false
    → admitted (view b) uid ps ≡ ps
unfolding logs_join
not_logged channel uid b ch ps found grown silent = elim (Option-cases (lookup uid b.friends)) [
  | inl stranger ↦
      let unknown : lookup uid (map_values friend_view b.friends) ≡ none =
        lookup-map_values friend_view uid b.friends
        ∙ ap (λ o. elim o [ none ↦ none | some v ↦ some (friend_view v) ]) stranger in
      ground arith
  | inr (f, friend) ↦
      let known : lookup uid (map_values friend_view b.friends) ≡ some (friend_view f) =
        lookup-map_values friend_view uid b.friends
        ∙ ap (λ o. elim o [ none ↦ none | some v ↦ some (friend_view v) ]) friend in
      ground arith
]

admitted_grows :
    (s : Social) (uid q : Bytes) (ps : List Bytes)
    → contains ps q ≡ true
    → contains (admitted s uid ps) q ≡ true
admitted_grows s uid q ps h = ground (arith, contains-append ps (uid ∷ []) q)

admit_all-joining :
    (channel : Bytes) (b : F2fDcNetBridge) (ch : ChannelInfo)
    → lookup channel b.channels ≡ some ch
    → (uids ps : List Bytes)
    → ((q : Bytes) → contains ch.participants q ≡ true → contains ps q ≡ true)
    → admit_all (view b) (joining channel uids b) ps ≡ admit_all (view b) uids ps
admit_all-joining channel b ch found [] ps grown = refl
admit_all-joining channel b ch found (uid ∷ uids) ps grown =
    elim (Bool-cases (logs_join channel uid b)) [
      | inl logs ↦ rw logs (
          admit_all-joining channel b ch found uids (admitted (view b) uid ps)
            (λ q inside. admitted_grows (view b) uid q ps (grown q inside)))
      | inr silent ↦ rw silent (
          admit_all-joining channel b ch found uids ps grown
          ∙ ap (admit_all (view b) uids)
              (sym (not_logged channel uid b ch ps found (grown uid) silent)))
    ]

pub apply_all-logged_joins :
    (channel : Bytes) (uids : List Bytes) (b : F2fDcNetBridge)
    → apply_all (logged_joins channel uids b) (view b) ≡ record (view b) {
      channels = modify channel (admit_all (view b) uids) (map_values members b.channels);
    }
apply_all-logged_joins channel uids b =
    let s = view b in
    let looked = lookup-map_values members channel b.channels in
    ap (λ ops. apply_all ops s) (logged_joins-joining channel uids b)
    ∙ apply_all-joins channel (joining channel uids b) s
    ∙ ap (λ cs. record s { channels = cs })
        (modify_ext channel (admit_all s (joining channel uids b)) (admit_all s uids)
          (map_values members b.channels)
          (λ ps there. elim (Option-cases (lookup channel b.channels)) [
            | inl gone ↦
                let absent : lookup channel (map_values members b.channels) ≡ none =
                  looked ∙ ap (λ o. elim o [ none ↦ none | some v ↦ some (members v) ]) gone in
                let clash : none ≡ some ps = sym absent ∙ there in cc
            | inr (ch, found) ↦
                let present : lookup channel (map_values members b.channels)
                    ≡ some ch.participants =
                  looked ∙ ap (λ o. elim o [ none ↦ none | some v ↦ some (members v) ]) found in
                let same : some ch.participants ≡ some ps = sym present ∙ there in
                let e : ch.participants ≡ ps = cc same in
                admit_all-joining channel b ch found uids ps
                  (λ q inside. ap (λ xs. contains xs q) (sym e) ∙ inside)
          ]))
