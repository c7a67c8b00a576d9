-- ===== src/Dcnet/Network/Invariant.antt =====
-- What every operation of dcnet/network.rs keeps: the admin and the leader are members, and the
-- join order lists the members, each once.
use chrono_shift.Prelude.{
  ℕ, zero, suc, ◌+◌, ◌%◌, ◌≡◌, ◌⊎◌, refl, ap, subst, true, false, some, List, [], ◌∷◌, ◌++◌, ok,
  length, get_elem?, arith, Option-cases, inl, inr,
}
use chrono_shift.Prelude.Keys.{
  Bytes, bytes_eq, bytes_beq_iff, contains, contains_head, contains_tail, Distinct, without,
}
use chrono_shift.Prelude.Sets.{contains-append, contains-without, Distinct-without, Distinct-push}
use chrono_shift.Pgp.Trust.{TrustLevel, below}
use chrono_shift.Dcnet.Network.{
  DcNetwork, new, invite_member, accept_join, kick_member, transfer_admin, set_topic, set_min_trust,
  next_leader, rotate_leader, set_leader, first_or_empty, position, is_member, has_pending_invite,
}

pub record IsValid (net : DcNetwork) : Type 0 where
  pub same : net.members ≡ net.member_join_order
  pub distinct : Distinct net.members
  pub admin : contains net.members net.admin_uid ≡ true
  pub leader : contains net.members net.current_leader ≡ true

-- One call that succeeds.
pub data Step : DcNetwork → DcNetwork → Type 0 where
  invited :
      (uid by : Bytes) {net net' : DcNetwork} → invite_member uid by net ≡ ok net' → Step net net'
  joined :
      (uid : Bytes) (level : TrustLevel) {net net' : DcNetwork}
      → accept_join uid level net ≡ ok net'
      → Step net net'
  kicked :
      (uid by : Bytes) {net net' : DcNetwork} → kick_member uid by net ≡ ok net' → Step net net'
  transferred :
      (uid by : Bytes) {net net' : DcNetwork} → transfer_admin uid by net ≡ ok net' → Step net net'
  topic_set :
      (topic by : Bytes) {net net' : DcNetwork} → set_topic topic by net ≡ ok net' → Step net net'
  trust_set :
      (level : TrustLevel) (by : Bytes) {net net' : DcNetwork}
      → set_min_trust level by net ≡ ok net'
      → Step net net'
  rotated : {net net' : DcNetwork} → (rotate_leader net).0 ≡ net' → Step net net'
  leader_set : (uid : Bytes) {net net' : DcNetwork} → set_leader uid net ≡ ok net' → Step net net'

pub data Reachable : DcNetwork → Type 0 where
  created : (now : ℕ) (name admin : Bytes) → Reachable (new now name admin)
  later : {net net' : DcNetwork} → Reachable net → Step net net' → Reachable net'

-- The four parts together.
abbrev Parts : DcNetwork → Type 0
Parts net =
    (net.members ≡ net.member_join_order)
    × Distinct net.members
    × (contains net.members net.admin_uid ≡ true)
    × (contains net.members net.current_leader ≡ true)

from_Parts : {net : DcNetwork} → Parts net → IsValid net
from_Parts (s, d, a, l) = record { same = s; distinct = d; admin = a; leader = l }

to_Parts : {net : DcNetwork} → IsValid net → Parts net
to_Parts v = (v.same, v.distinct, v.admin, v.leader)

contains-get_elem? :
    (us : List Bytes) (i : ℕ) (u : Bytes) → get_elem? us i ≡ some u → contains us u ≡ true
contains-get_elem? [] i u e = cc
contains-get_elem? (v ∷ us) zero u e = ground (arith, bytes_beq_iff v u)
contains-get_elem? (v ∷ us) (suc i) u e = contains_tail v us u (contains-get_elem? us i u e)

contains-next_leader :
    (net : DcNetwork) (u : Bytes)
    → next_leader net ≡ some u
    → contains net.member_join_order u ≡ true
unfolding next_leader
contains-next_leader net u e =
    elim (Option-cases (position net.current_leader net.member_join_order)) [
      | inl missing ↦ cc
      | inr (i, at) ↦
          contains-get_elem? net.member_join_order ((i + 1) % length net.member_join_order) u
            (ground arith)
    ]

contains-first_or_empty :
    (us : List Bytes) (u : Bytes) → contains us u ≡ true → contains us (first_or_empty us) ≡ true
contains-first_or_empty [] u m = cc
contains-first_or_empty (v ∷ us) u m = contains_head v us

accept_join-Parts :
    (uid : Bytes) (level : TrustLevel) (net net' : DcNetwork)
    → Parts net
    → accept_join uid level net ≡ ok net'
    → Parts net'
unfolding accept_join
accept_join-Parts uid level net net' (same, distinct, admin, leader) e = ground (
  arith,
  Distinct-push net.members uid distinct,
  contains-append net.members (uid ∷ []) net.admin_uid,
  contains-append net.members (uid ∷ []) net.current_leader,
  ap (λ us. us ++ uid ∷ []) same,
)

kick_member-Parts :
    (uid by : Bytes) (net net' : DcNetwork)
    → Parts net
    → kick_member uid by net ≡ ok net'
    → Parts net'
unfolding kick_member
kick_member-Parts uid by net net' (same, distinct, admin, leader) e = ground (
  arith,
  ap (without uid) same,
  Distinct-without uid net.members distinct,
  contains-without uid net.members net.admin_uid,
  contains-without uid net.members net.current_leader,
  contains-first_or_empty (without uid net.members) net.admin_uid,
)

rotate_leader-cases :
    (net : DcNetwork)
    → ((rotate_leader net).0 ≡ net)
      ⊎ ((u : Bytes) × (next_leader net ≡ some u)
          × ((rotate_leader net).0 ≡ record net { current_leader = u }))
unfolding rotate_leader
rotate_leader-cases net = elim (Option-cases (next_leader net)) [
  | inl missing ↦ inl (rw (rotate_leader, missing) refl)
  | inr (u, found) ↦ inr (u, found, rw (rotate_leader, found) refl)
]

Step-Parts : {net net' : DcNetwork} → Parts net → Step net net' → Parts net'
unfolding invite_member transfer_admin set_topic set_min_trust set_leader
Step-Parts p (Step.invited uid by e) = ground arith
Step-Parts {net} {net'} p (Step.joined uid level e) = accept_join-Parts uid level net net' p e
Step-Parts {net} {net'} p (Step.kicked uid by e) = kick_member-Parts uid by net net' p e
Step-Parts p (Step.transferred uid by e) = ground arith
Step-Parts p (Step.topic_set topic by e) = ground arith
Step-Parts p (Step.trust_set level by e) = ground arith
Step-Parts {net} {net'} p (Step.rotated e) = elim (rotate_leader-cases net) [
  | inl stuck ↦ ground arith
  | inr (u, found, moved) ↦ ground (arith, contains-next_leader net u found)
]
Step-Parts p (Step.leader_set uid e) = ground arith

-- However a network is reached from a new one by its calls, in any order, its admin and its leader
-- are members, and the join order lists the members, each once.
pub Reachable-IsValid : {net : DcNetwork} → Reachable net → IsValid net
Reachable-IsValid (Reachable.created now name admin) =
    from_Parts (refl, (refl, tt), contains_head admin [], contains_head admin [])
Reachable-IsValid (Reachable.later r s) = from_Parts (Step-Parts (to_Parts (Reachable-IsValid r)) s)

accept_join_adds :
    (u uid : Bytes) (level : TrustLevel) (net net' : DcNetwork)
    → accept_join uid level net ≡ ok net'
    → is_member u net ≡ false
    → is_member u net' ≡ true
    → (uid ≡ u) × (has_pending_invite uid net ≡ true) × (below level net.min_trust ≡ false)
unfolding accept_join
accept_join_adds u uid level net net' e out inside =
    ground (arith, contains-append net.members (uid ∷ []) u, bytes_beq_iff uid u)

-- Whoever becomes a member had an invitation and was accepted with at least the trust that the
-- network asks for; no other call adds a member.
pub new_member_accepted :
    (u : Bytes) {net net' : DcNetwork}
    → Step net net'
    → is_member u net ≡ false
    → is_member u net' ≡ true
    → (has_pending_invite u net ≡ true)
      × (level : TrustLevel) × (below level net.min_trust ≡ false)
      × (accept_join u level net ≡ ok net')
unfolding invite_member kick_member transfer_admin set_topic set_min_trust set_leader
new_member_accepted u (Step.invited uid by e) out inside = ground arith
new_member_accepted u {net} {net'} (Step.joined uid level e) out inside =
    let (same, invitation, trust) = accept_join_adds u uid level net net' e out inside in
    (
      subst (λ v. has_pending_invite v net ≡ true) same invitation,
      level,
      trust,
      subst (λ v. accept_join v level net ≡ ok net') same e,
    )
new_member_accepted u {net} (Step.kicked uid by e) out inside =
    ground (arith, contains-without uid net.members u)
new_member_accepted u (Step.transferred uid by e) out inside = ground arith
new_member_accepted u (Step.topic_set topic by e) out inside = ground arith
new_member_accepted u (Step.trust_set level by e) out inside = ground arith
new_member_accepted u {net} {net'} (Step.rotated e) out inside = elim (rotate_leader-cases net) [
  | inl stuck ↦ ground arith
  | inr (v, found, moved) ↦ ground arith
]
new_member_accepted u (Step.leader_set uid e) out inside = ground arith
