-- ===== src/Dcnet/Group/Members.antt =====
-- Lists of members, each id once, and what the operations of a group do to them.
use chrono_shift.Prelude.{
  ◌≡◌, refl, sym, ap, ap₂, ◌∙◌, true, false, ◌||◌, Option, none, some, List, [], ◌∷◌, ◌++◌, arith,
  if◌then◌else◌, Bool-cases, inl, inr,
}
use chrono_shift.Prelude.Keys.{Bytes, ◌=?◌, =?_iff, bytes_eq, contains}
use chrono_shift.Dcnet.Group.{
  Participant, DcGroup, absorb_from, has_peer, without_peer, reform, retain_good, absorb_first,
  write_back,
}

abbrev pub DistinctIds : List Participant → Type 0
DistinctIds [] = Unit {0}
DistinctIds (p ∷ ps) = (has_peer p.peer_id ps ≡ false) × DistinctIds ps

abbrev pub find_peer : Bytes → List Participant → Option Participant
find_peer id [] = none
find_peer id (p ∷ ps) = if p.peer_id =? id then some p else find_peer id ps

pub find_peer-absent :
    (id : Bytes) (ps : List Participant) → has_peer id ps ≡ false → find_peer id ps ≡ none
unfolding has_peer
find_peer-absent id [] h = refl
find_peer-absent id (p ∷ ps) h = ground (arith, find_peer-absent id ps)

pub has_peer-without_peer :
    (id q : Bytes) (ps : List Participant)
    → has_peer q ps ≡ false
    → has_peer q (without_peer id ps) ≡ false
unfolding has_peer without_peer
has_peer-without_peer id q [] h = refl
has_peer-without_peer id q (p ∷ ps) h = ground (arith, has_peer-without_peer id q ps)

pub without_peer-DistinctIds :
    (id : Bytes) (ps : List Participant) → DistinctIds ps → DistinctIds (without_peer id ps)
unfolding without_peer
without_peer-DistinctIds id [] d = tt
without_peer-DistinctIds id (p ∷ ps) d =
    ground (arith, has_peer-without_peer id p.peer_id ps, without_peer-DistinctIds id ps d.1)

has_peer-retain_good :
    (q : Bytes) (ps : List Participant)
    → has_peer q ps ≡ false
    → has_peer q (retain_good ps) ≡ false
unfolding has_peer retain_good
has_peer-retain_good q [] h = refl
has_peer-retain_good q (p ∷ ps) h = ground (arith, has_peer-retain_good q ps)

pub retain_good-DistinctIds :
    (ps : List Participant) → DistinctIds ps → DistinctIds (retain_good ps)
unfolding retain_good
retain_good-DistinctIds [] d = tt
retain_good-DistinctIds (p ∷ ps) d =
    ground (arith, has_peer-retain_good p.peer_id ps, retain_good-DistinctIds ps d.1)

has_peer-append :
    (q : Bytes) (ps : List Participant) (p : Participant)
    → has_peer q (ps ++ p ∷ []) ≡ (has_peer q ps || (p.peer_id =? q || false))
unfolding has_peer
has_peer-append q [] p = refl
has_peer-append q (r ∷ ps) p = ground (arith, has_peer-append q ps p)

pub append-DistinctIds :
    (ps : List Participant) (p : Participant)
    → DistinctIds ps
    → has_peer p.peer_id ps ≡ false
    → DistinctIds (ps ++ p ∷ [])
unfolding has_peer
append-DistinctIds [] p d fresh = (refl, tt)
append-DistinctIds (r ∷ ps) p d fresh = ground (
  arith,
  has_peer-append r.peer_id ps p,
  append-DistinctIds ps p d.1,
  =?_iff r.peer_id p.peer_id,
  =?_iff p.peer_id r.peer_id,
)

-- The members whose ids are not on the list.
abbrev pub drop_peers : List Bytes → List Participant → List Participant
drop_peers ids [] = []
drop_peers ids (p ∷ ps) =
    let rest = drop_peers ids ps in if contains ids p.peer_id then rest else p ∷ rest

drop_peers-without_peer :
    (id : Bytes) (ids : List Bytes) (ps : List Participant)
    → drop_peers ids (without_peer id ps) ≡ drop_peers (id ∷ ids) ps
unfolding without_peer
drop_peers-without_peer id ids [] = refl
drop_peers-without_peer id ids (p ∷ ps) =
    ground (arith, drop_peers-without_peer id ids ps, =?_iff p.peer_id id, =?_iff id p.peer_id)

drop_peers-nil : (ps : List Participant) → drop_peers [] ps ≡ ps
drop_peers-nil [] = refl
drop_peers-nil (p ∷ ps) = ap (◌∷◌ p) (drop_peers-nil ps)

pub reform-drop_peers :
    (ids : List Bytes) (g : DcGroup)
    → reform ids g ≡ record g { participants = drop_peers ids g.participants }
unfolding reform
reform-drop_peers [] g =
    ap (λ ps. record g { participants = ps }) (sym (drop_peers-nil g.participants))
reform-drop_peers (id ∷ ids) g =
    reform-drop_peers ids (record g { participants = without_peer id g.participants })
    ∙ ap (λ ps. record g { participants = ps }) (drop_peers-without_peer id ids g.participants)

absorb_first-absent :
    (rp : Participant) (ps : List Participant)
    → has_peer rp.peer_id ps ≡ false
    → absorb_first rp ps ≡ ps
unfolding has_peer absorb_first
absorb_first-absent rp [] h = refl
absorb_first-absent rp (p ∷ ps) h = ground (arith, absorb_first-absent rp ps)

has_peer-absorb_first :
    (q : Bytes) (rp : Participant) (ps : List Participant)
    → has_peer q (absorb_first rp ps) ≡ has_peer q ps
unfolding has_peer absorb_first
has_peer-absorb_first q rp [] = refl
has_peer-absorb_first q rp (p ∷ ps) = ground (arith, has_peer-absorb_first q rp ps)

-- A member after the write-back.
abbrev pub absorbed : List Participant → Participant → Participant
absorbed rps p = elim (find_peer p.peer_id rps) [ none ↦ p | some rp ↦ absorb_from p rp ]

absorbed-none :
    (rps : List Participant) (p : Participant) → find_peer p.peer_id rps ≡ none → absorbed rps p ≡ p
absorbed-none rps p gone = ap (λ o. elim o [ none ↦ p | some rp ↦ absorb_from p rp ]) gone

absorbed-here :
    (rp : Participant) (rps : List Participant) (p : Participant)
    → (rp.peer_id =? p.peer_id) ≡ true
    → absorbed (rp ∷ rps) p ≡ absorb_from p rp
absorbed-here rp rps p same =
    ap
      (λ b. elim (if b then some rp else find_peer p.peer_id rps) [
        | none ↦ p
        | some r ↦ absorb_from p r
      ])
      same

absorbed-away :
    (rp : Participant) (rps : List Participant) (p : Participant)
    → (rp.peer_id =? p.peer_id) ≡ false
    → absorbed (rp ∷ rps) p ≡ absorbed rps p
absorbed-away rp rps p away =
    ap
      (λ b. elim (if b then some rp else find_peer p.peer_id rps) [
        | none ↦ p
        | some r ↦ absorb_from p r
      ])
      away

pub write_back-cons :
    (rps : List Participant) (p : Participant) (ps : List Participant)
    → DistinctIds rps
    → has_peer p.peer_id ps ≡ false
    → write_back rps (p ∷ ps) ≡ absorbed rps p ∷ write_back rps ps
unfolding write_back absorb_first
write_back-cons [] p ps d fresh = refl
write_back-cons (rp ∷ rps) p ps d fresh = elim (Bool-cases (p.peer_id =? rp.peer_id)) [
  | inl same ↦
      let e : p.peer_id ≡ rp.peer_id = (=?_iff p.peer_id rp.peer_id).0 same in
      let back : (rp.peer_id =? p.peer_id) ≡ true = (=?_iff rp.peer_id p.peer_id).1 (sym e) in
      let gone : find_peer p.peer_id rps ≡ none =
        find_peer-absent p.peer_id rps (ap (λ q. has_peer q rps) e ∙ d.0) in
      let still : absorb_first rp ps ≡ ps =
        absorb_first-absent rp ps (ap (λ q. has_peer q ps) (sym e) ∙ fresh) in
      ap (write_back rps)
        (ap (λ b. if b then absorb_from p rp ∷ ps else p ∷ absorb_first rp ps) same)
      ∙ write_back-cons rps (absorb_from p rp) ps d.1 fresh
      ∙ ap₂ ◌∷◌ (absorbed-none rps (absorb_from p rp) gone ∙ sym (absorbed-here rp rps p back))
          (ap (write_back rps) (sym still))
  | inr other ↦
      let away : (rp.peer_id =? p.peer_id) ≡ false =
        ground (arith, =?_iff p.peer_id rp.peer_id, =?_iff rp.peer_id p.peer_id) in
      ap (write_back rps)
        (ap (λ b. if b then absorb_from p rp ∷ ps else p ∷ absorb_first rp ps) other)
      ∙ write_back-cons rps p (absorb_first rp ps) d.1
          (has_peer-absorb_first p.peer_id rp ps ∙ fresh)
      ∙ ap (λ q. q ∷ write_back rps (absorb_first rp ps)) (sym (absorbed-away rp rps p away))
]

pub write_back-nil : (rps : List Participant) → write_back rps [] ≡ []
unfolding write_back absorb_first
write_back-nil [] = refl
write_back-nil (rp ∷ rps) = write_back-nil rps

pub absorbed-peer_id :
    (rps : List Participant) (p : Participant) → (absorbed rps p).peer_id ≡ p.peer_id
absorbed-peer_id rps p = ground arith

pub drop_peers-cons :
    (ids : List Bytes) (q : Participant) (qs : List Participant) (id : Bytes)
    → q.peer_id ≡ id
    → drop_peers ids (q ∷ qs)
      ≡ (if contains ids id then drop_peers ids qs else q ∷ drop_peers ids qs)
drop_peers-cons ids q qs id e =
    ap (λ k. if contains ids k then drop_peers ids qs else q ∷ drop_peers ids qs) e
