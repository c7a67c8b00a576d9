-- ===== src/Dcnet/Network.antt =====
-- `DcNetwork` of dcnet/network.rs: the members of a group, its admin and its leader. The clock is
-- an argument of `new`; error texts are constructors.
pub mod Invariant
pub mod Rotation
mod Tests
use chrono_shift.Prelude.{
  ℕ, zero, suc, ◌+◌, ◌%◌, ◌≡◌, Bool, true, false, not, ◌&&◌, Option, some, none, List, [], ◌∷◌,
  ◌++◌, Result, ok, err, length, get_elem?, if◌then◌else◌,
}
use chrono_shift.Prelude.Keys.{Bytes, Eq, ◌=?◌, bytes_eq, contains, without}
use chrono_shift.Prelude.Dict.{Dict, has_key, insert, remove}
use chrono_shift.Pgp.Trust.{TrustLevel, below}

pub record DcNetwork : Type 0 where
  pub name : Bytes
  pub admin_uid : Bytes
  pub created : ℕ
  pub topic : Bytes
  pub members : List Bytes
  pub pending_invites : Dict Bytes Bytes
  pub min_trust : TrustLevel
  pub min_participants : ℕ
  pub max_dropouts : ℕ
  pub round_interval_ms : ℕ
  pub current_leader : Bytes
  pub member_join_order : List Bytes

pub data NetworkError : Type 0 where
  not_admin already_member no_invitation admin_kicks_self not_a_member : NetworkError
  too_little_trust : TrustLevel → TrustLevel → NetworkError

abbrev pub Answer : Type 0
Answer = Result DcNetwork NetworkError

abbrev pub new : ℕ → Bytes → Bytes → DcNetwork
new now name admin_uid = record {
  name = name;
  admin_uid = admin_uid;
  created = now;
  topic = [];
  members = admin_uid ∷ [];
  pending_invites = [];
  min_trust = TrustLevel.marginal;
  min_participants = 2;
  max_dropouts = 1;
  round_interval_ms = 3000;
  current_leader = admin_uid;
  member_join_order = admin_uid ∷ [];
}

abbrev pub is_member : Bytes → DcNetwork → Bool
is_member uid net = contains net.members uid

abbrev pub is_admin : Bytes → DcNetwork → Bool
is_admin uid net = net.admin_uid =? uid

abbrev pub has_pending_invite : Bytes → DcNetwork → Bool
has_pending_invite uid net = has_key uid net.pending_invites

abbrev pub member_count : DcNetwork → ℕ
member_count net = length net.members

-- `iter().position(|u| u == a)`
abbrev pub position {ℓ} : {A : Type ℓ} ⦃e : Eq A⦄ → A → List A → Option ℕ
position a [] = none
position a (x ∷ xs) =
    let rest = position a xs in
    if x =? a then some 0 else elim rest [ none ↦ none | some i ↦ some (suc i) ]

unfoldable pub next_leader : DcNetwork → Option Bytes
next_leader net = elim (position net.current_leader net.member_join_order) [
  | none ↦ none
  | some current_idx ↦
      get_elem? net.member_join_order ((current_idx + 1) % length net.member_join_order)
]

unfoldable pub invite_member : Bytes → Bytes → DcNetwork → Answer
invite_member uid invited_by net =
    if not (is_admin invited_by net)
    then err NetworkError.not_admin
    else if is_member uid net
    then err NetworkError.already_member
    else ok (record net { pending_invites = insert uid invited_by net.pending_invites })

unfoldable pub accept_join : Bytes → TrustLevel → DcNetwork → Answer
accept_join uid trust_level net =
    let accepted = record net { pending_invites = remove uid net.pending_invites } in
    if not (has_pending_invite uid net)
    then err NetworkError.no_invitation
    else if below trust_level net.min_trust
    then err (NetworkError.too_little_trust trust_level net.min_trust)
    else if is_member uid net
    then ok accepted
    else ok (record accepted {
      members = net.members ++ uid ∷ [];
      member_join_order = net.member_join_order ++ uid ∷ [];
    })

-- `first().cloned().unwrap_or_default()`
abbrev pub first_or_empty : List Bytes → Bytes
first_or_empty [] = []
first_or_empty (u ∷ us) = u

unfoldable pub kick_member : Bytes → Bytes → DcNetwork → Answer
kick_member uid kicked_by net =
    let order = without uid net.member_join_order in
    if not (is_admin kicked_by net)
    then err NetworkError.not_admin
    else if uid =? net.admin_uid
    then err NetworkError.admin_kicks_self
    else ok (record net {
      members = without uid net.members;
      member_join_order = order;
      pending_invites = remove uid net.pending_invites;
      current_leader =
          if uid =? net.current_leader then first_or_empty order else net.current_leader;
    })

unfoldable pub transfer_admin : Bytes → Bytes → DcNetwork → Answer
transfer_admin new_admin current_admin net =
    if not (is_admin current_admin net)
    then err NetworkError.not_admin
    else if not (is_member new_admin net)
    then err NetworkError.not_a_member
    else ok (record net { admin_uid = new_admin; current_leader = new_admin })

unfoldable pub set_topic : Bytes → Bytes → DcNetwork → Answer
set_topic topic setter net =
    if not (is_admin setter net)
    then err NetworkError.not_admin
    else ok (record net { topic = topic })

unfoldable pub set_min_trust : TrustLevel → Bytes → DcNetwork → Answer
set_min_trust level setter net =
    if not (is_admin setter net)
    then err NetworkError.not_admin
    else ok (record net { min_trust = level })

-- `none` leaves the network as it is.
unfoldable pub rotate_leader : DcNetwork → DcNetwork × Option Bytes
rotate_leader net = elim (next_leader net) [
  | none ↦ (net, none)
  | some next ↦ (record net { current_leader = next }, some next)
]

unfoldable pub set_leader : Bytes → DcNetwork → Answer
set_leader uid net =
    if not (is_member uid net)
    then err NetworkError.not_a_member
    else ok (record net { current_leader = uid })
