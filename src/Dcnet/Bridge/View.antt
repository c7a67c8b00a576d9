-- ===== src/Dcnet/Bridge/View.antt =====
-- What of a bridge the log is to bring back, and what each logged operation does to that.
use chrono_shift.Prelude.{
  ℕ, ◌≡◌, refl, sym, ap, ◌∙◌, not, ◌&&◌, none, some, List, [], ◌∷◌, ◌++◌, leb, min, arith,
  if◌then◌else◌, Bool-cases, inl, inr,
}
use chrono_shift.Prelude.Keys.{Bytes, ◌=?◌, bytes_eq, contains, without}
use chrono_shift.Prelude.Dict.{Dict, lookup, has_key, insert, remove, modify}
use chrono_shift.Storage.{WalOperation}
use chrono_shift.Dcnet.Bridge.{F2fDcNetBridge, F2fFriend, ChannelInfo}

-- A friend without its edge key, and a channel by its participants.
pub record FriendView : Type 0 where
  pub trust : ℕ
  pub addr : Bytes

pub record Social : Type 0 where
  pub uid : Bytes
  pub min_trust : ℕ
  pub friends : Dict Bytes FriendView
  pub channels : Dict Bytes (List Bytes)

abbrev pub map_values {ℓ κ} : {V : Type ℓ} {W : Type κ} → (V → W) → Dict Bytes V → Dict Bytes W
map_values f [] = []
map_values f ((k, v) ∷ d) = (k, f v) ∷ map_values f d

abbrev pub friend_view : F2fFriend → FriendView
friend_view f = record { trust = f.trust_level; addr = f.transport_address }

abbrev pub members : ChannelInfo → List Bytes
members ch = ch.participants

abbrev pub view : F2fDcNetBridge → Social
view b = record {
  uid = b.my_uid;
  min_trust = b.min_trust;
  friends = map_values friend_view b.friends;
  channels = map_values members b.channels;
}

-- A user who is a friend of enough trust, and not there yet, joins at the end.
abbrev pub admitted : Social → Bytes → List Bytes → List Bytes
admitted s uid ps = if uid =? s.uid then ps else elim (lookup uid s.friends) [
  | none ↦ ps
  | some f ↦ if leb s.min_trust f.trust && not (contains ps uid) then ps ++ uid ∷ [] else ps
]

-- The specification of the operations.
unfoldable pub apply : WalOperation → Social → Social
apply (WalOperation.add_friend uid addr trust) s = record s {
  friends = insert uid (record { trust = min trust 2; addr = addr }) s.friends;
}
apply (WalOperation.remove_friend uid) s = record s { friends = remove uid s.friends }
apply (WalOperation.update_trust uid trust) s = record s {
  friends = modify uid (λ f. record f { trust = min trust 2 }) s.friends;
}
apply (WalOperation.create_channel name) s =
    if has_key name s.channels
    then s
    else record s { channels = insert name (s.uid ∷ []) s.channels }
apply (WalOperation.join_channel channel uid) s = record s {
  channels = modify channel (admitted s uid) s.channels;
}
apply (WalOperation.leave_channel channel uid) s = record s {
  channels = modify channel (without uid) s.channels;
}
apply (WalOperation.set_uid uid) s = record s { uid = uid }
apply (WalOperation.update_edge_key uid key_hex) s = s
apply (WalOperation.create_network name admin) s = s
apply (WalOperation.add_member network uid) s = s
apply (WalOperation.remove_member network uid) s = s
apply (WalOperation.send_message sender receiver text) s = s

unfoldable pub apply_all : List WalOperation → Social → Social
apply_all [] s = s
apply_all (op ∷ ops) s = apply_all ops (apply op s)

module _ {ℓ κ} {V : Type ℓ} {W : Type κ} where
  pub map_values-insert :
      (f : V → W) (k : Bytes) (v : V) (d : Dict Bytes V)
      → map_values f (insert k v d) ≡ insert k (f v) (map_values f d)
  map_values-insert f k v [] = refl
  map_values-insert f k v ((j, w) ∷ d) = ground (arith, map_values-insert f k v d)

  pub map_values-remove :
      (f : V → W) (k : Bytes) (d : Dict Bytes V)
      → map_values f (remove k d) ≡ remove k (map_values f d)
  map_values-remove f k [] = refl
  map_values-remove f k ((j, w) ∷ d) = ground (arith, map_values-remove f k d)

  pub map_values-modify :
      (f : V → W) (g : V → V) (g' : W → W) (k : Bytes) (d : Dict Bytes V)
      → ((v : V) → f (g v) ≡ g' (f v))
      → map_values f (modify k g d) ≡ modify k g' (map_values f d)
  map_values-modify f g g' k [] same = refl
  map_values-modify f g g' k ((j, v) ∷ d) same = elim (Bool-cases (j =? k)) [
    | inl here ↦ rw here (ap (λ w. (j, w) ∷ map_values f d) (same v))
    | inr away ↦ rw away (ap (◌∷◌ (j, f v)) (map_values-modify f g g' k d same))
  ]

  pub lookup-map_values :
      (f : V → W) (k : Bytes) (d : Dict Bytes V)
      → lookup k (map_values f d) ≡ (elim (lookup k d) [ none ↦ none | some v ↦ some (f v) ])
  lookup-map_values f k [] = refl
  lookup-map_values f k ((j, v) ∷ d) = ground (arith, lookup-map_values f k d)

  pub has_key-map_values :
      (f : V → W) (k : Bytes) (d : Dict Bytes V) → has_key k (map_values f d) ≡ has_key k d
  has_key-map_values f k d = ground (arith, lookup-map_values f k d)

module _ {ℓ} {V : Type ℓ} where
  pub modify_same : (k : Bytes) (d : Dict Bytes V) → modify k (λ v. v) d ≡ d
  modify_same k [] = refl
  modify_same k ((j, v) ∷ d) = ground (arith, modify_same k d)

  pub modify_absent :
      (k : Bytes) (f : V → V) (d : Dict Bytes V) → lookup k d ≡ none → modify k f d ≡ d
  modify_absent k f [] h = refl
  modify_absent k f ((j, v) ∷ d) h = ground (arith, modify_absent k f d)

  -- To insert under a key that is there is to change its value.
  pub insert-modify :
      (k : Bytes) (f : V → V) (d : Dict Bytes V) (v : V)
      → lookup k d ≡ some v
      → insert k (f v) d ≡ modify k f d
  insert-modify k f [] v h = cc
  insert-modify k f ((j, w) ∷ d) v h = elim (Bool-cases (j =? k)) [
    | inl here ↦
        let found : some w ≡ some v = ap (λ b. if b then some w else lookup k d) (sym here) ∙ h in
        let e : w ≡ v = cc found in rw here (ap (λ x. (j, f x) ∷ d) (sym e))
    | inr away ↦
        let found : lookup k d ≡ some v =
          ap (λ b. if b then some w else lookup k d) (sym away) ∙ h in
        rw away (ap (◌∷◌ (j, w)) (insert-modify k f d v found))
  ]
