-- ===== src/Dcnet/Group/Calls.antt =====
-- Groups that are reached by the calls of group.rs.
use chrono_shift.Prelude.{
  ℕ, ◌≡◌, refl, sym, ap, ◌∙◌, subst, false, Option, none, some, List, [], ◌∷◌, arith, Bool-cases,
  inl, inr, Option-cases, length, ltb,
}
use chrono_shift.Prelude.Keys.{Bytes, ◌=?◌, bytes_eq}
use chrono_shift.Dcnet.Group.{
  Participant, DcGroup, DcRound, is_malicious, absorb_from, new_participant, has_peer, retain_good,
  malicious_ids, join, leave, reform, start_round, finish_round, finish_round_with,
}
use chrono_shift.Dcnet.Group.Members.{
  DistinctIds, find_peer, drop_peers, reform-drop_peers, without_peer-DistinctIds,
  retain_good-DistinctIds, append-DistinctIds,
}
use chrono_shift.Dcnet.Group.Finish.{settle, outcome, outcomes, finish_round_with-outcomes}

-- No member stands twice, in the group and in its round.
pub record IsValid (g : DcGroup) : Type 0 where
  pub members : DistinctIds g.participants
  pub in_round : (r : DcRound) → g.current_round ≡ some r → DistinctIds r.participants

drop_peers-DistinctIds :
    (ids : List Bytes) (ps : List Participant) → DistinctIds ps → DistinctIds (drop_peers ids ps)
unfolding has_peer
drop_peers-DistinctIds ids [] d = tt
drop_peers-DistinctIds ids (p ∷ ps) d =
    ground (arith, has_peer-drop_peers p.peer_id ids ps, drop_peers-DistinctIds ids ps d.1)
  where
    has_peer-drop_peers :
        (q : Bytes) (ids : List Bytes) (ps : List Participant)
        → has_peer q ps ≡ false
        → has_peer q (drop_peers ids ps) ≡ false
    has_peer-drop_peers q ids [] h = refl
    has_peer-drop_peers q ids (p ∷ ps) h = ground (arith, has_peer-drop_peers q ids ps)

outcome-peer_id :
    (responded : List Bytes) (round : List Participant) (p p' : Participant)
    → outcome responded round p ≡ some p'
    → p'.peer_id ≡ p.peer_id
unfolding outcome
outcome-peer_id responded round p p' e = elim (Option-cases (find_peer p.peer_id round)) [
  | inl gone ↦
      let same : some p ≡ some p' = rw (outcome, gone) at e in
      let equal : p ≡ p' = cc same in ap (λ (x : Participant). x.peer_id) (sym equal)
  | inr (rp, found) ↦ elim (Bool-cases (is_malicious (settle responded rp))) [
    | inl bad ↦ let out : none ≡ some p' = rw (outcome, found, bad) at e in cc
    | inr good ↦
        let same : some (absorb_from p (settle responded rp)) ≡ some p' =
          rw (outcome, found, good) at e in
        let equal : absorb_from p (settle responded rp) ≡ p' = cc same in
        ap (λ (x : Participant). x.peer_id) (sym equal)
  ]
]

has_peer-outcomes :
    (q : Bytes) (responded : List Bytes) (round ps : List Participant)
    → has_peer q ps ≡ false
    → has_peer q (outcomes responded round ps) ≡ false
unfolding has_peer outcomes
has_peer-outcomes q responded round [] h = refl
has_peer-outcomes q responded round (p ∷ ps) h = elim (Option-cases (outcome responded round p)) [
  | inl out ↦ rw (outcomes, out) (has_peer-outcomes q responded round ps (ground arith))
  | inr (p', kept) ↦
      let same = outcome-peer_id responded round p p' kept in
      let apart : (p'.peer_id =? q) ≡ false = ap (λ k. k =? q) same ∙ ground arith in
      rw (outcomes, kept, has_peer, apart) (has_peer-outcomes q responded round ps (ground arith))
]

outcomes-DistinctIds :
    (responded : List Bytes) (round ps : List Participant)
    → DistinctIds ps
    → DistinctIds (outcomes responded round ps)
unfolding outcomes
outcomes-DistinctIds responded round [] d = tt
outcomes-DistinctIds responded round (p ∷ ps) d = elim (Option-cases (outcome responded round p)) [
  | inl out ↦ rw (outcomes, out) (outcomes-DistinctIds responded round ps d.1)
  | inr (p', kept) ↦
      let same = outcome-peer_id responded round p p' kept in
      rw (outcomes, kept)
        (
          ap (λ k. has_peer k (outcomes responded round ps)) same
              ∙ has_peer-outcomes p.peer_id responded round ps d.0,
          outcomes-DistinctIds responded round ps d.1,
        )
]

pub data GroupCall : Type 0 where
  join_call leave_call : Bytes → GroupCall
  reform_call : List Bytes → GroupCall
  start_call : (now round_id : ℕ) → GroupCall
  finish_call : GroupCall
  finish_with_call : List Bytes → GroupCall

abbrev pub call : GroupCall → DcGroup → DcGroup
call (GroupCall.join_call id) g = join id g
call (GroupCall.leave_call id) g = leave id g
call (GroupCall.reform_call ids) g = reform ids g
call (GroupCall.start_call now round_id) g = (start_round now round_id g).1
call GroupCall.finish_call g = finish_round g
call (GroupCall.finish_with_call responded) g = (finish_round_with responded g).1

unfoldable pub call_all : List GroupCall → DcGroup → DcGroup
call_all [] g = g
call_all (c ∷ cs) g = call_all cs (call c g)

reform-IsValid : (ids : List Bytes) (g : DcGroup) → IsValid g → IsValid (reform ids g)
reform-IsValid ids g valid = subst IsValid (sym (reform-drop_peers ids g)) (record {
  members = drop_peers-DistinctIds ids g.participants valid.members;
  in_round = valid.in_round;
})

join-IsValid : (id : Bytes) (g : DcGroup) → IsValid g → IsValid (join id g)
unfolding join
join-IsValid id g valid = elim (Bool-cases (has_peer id g.participants)) [
  | inl known ↦ rw (join, known) valid
  | inr fresh ↦
      rw (join, fresh)
        (record {
          members = append-DistinctIds g.participants (new_participant id) valid.members fresh;
          in_round = valid.in_round;
        })
]

start_round-IsValid :
    (now round_id : ℕ) (g : DcGroup) → IsValid g → IsValid (start_round now round_id g).1
unfolding start_round
start_round-IsValid now round_id g valid =
    let good = retain_good-DistinctIds g.participants valid.members in
    elim (Bool-cases (ltb (length (retain_good g.participants)) g.min_participants)) [
      | inl few ↦ rw (start_round, few) (record { members = good; in_round = valid.in_round })
      | inr enough ↦
          rw (start_round, enough)
            (record {
              members = good;
              in_round = λ r e.
                  subst
                    (λ (o : Option DcRound). elim o [
                      | none ↦ Unit {0}
                      | some x ↦ DistinctIds x.participants
                    ])
                    e good;
            })
    ]

finish_round-IsValid : (g : DcGroup) → IsValid g → IsValid (finish_round g)
unfolding finish_round
finish_round-IsValid g valid = elim (Option-cases g.current_round) [
  | inl idle ↦ rw (finish_round, idle) valid
  | inr (r, running) ↦
      rw (finish_round, running)
        (reform-IsValid (malicious_ids g.participants) (record g { current_round = none })
          (record { members = valid.members; in_round = λ s e. cc }))
]

finish_round_with-IsValid :
    (responded : List Bytes) (g : DcGroup) → IsValid g → IsValid (finish_round_with responded g).1
unfolding finish_round_with
finish_round_with-IsValid responded g valid = elim (Option-cases g.current_round) [
  | inl idle ↦
      rw (finish_round_with, idle) (record { members = valid.members; in_round = λ s e. cc })
  | inr (r, running) ↦
      let done =
        finish_round_with-outcomes responded g r running (valid.in_round r running) valid.members in
      subst IsValid (sym (ap (λ x. x.1) done)) (record {
        members = outcomes-DistinctIds responded r.participants g.participants valid.members;
        in_round = λ s e. cc;
      })
]

call-IsValid : (c : GroupCall) (g : DcGroup) → IsValid g → IsValid (call c g)
call-IsValid (GroupCall.join_call id) g valid = join-IsValid id g valid
call-IsValid (GroupCall.leave_call id) g valid = record {
  members = without_peer-DistinctIds id g.participants valid.members;
  in_round = valid.in_round;
}
call-IsValid (GroupCall.reform_call ids) g valid = reform-IsValid ids g valid
call-IsValid (GroupCall.start_call now round_id) g valid = start_round-IsValid now round_id g valid
call-IsValid GroupCall.finish_call g valid = finish_round-IsValid g valid
call-IsValid (GroupCall.finish_with_call responded) g valid =
    finish_round_with-IsValid responded g valid

pub call_all-IsValid : (cs : List GroupCall) (g : DcGroup) → IsValid g → IsValid (call_all cs g)
unfolding call_all
call_all-IsValid [] g valid = valid
call_all-IsValid (c ∷ cs) g valid = call_all-IsValid cs (call c g) (call-IsValid c g valid)
