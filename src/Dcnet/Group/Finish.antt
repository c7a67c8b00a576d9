-- ===== src/Dcnet/Group/Finish.antt =====
-- What a round does to the members of its group.
use chrono_shift.Prelude.{
  ◌≡◌, refl, sym, ap, ap₂, ◌∙◌, true, false, ◌||◌, Option, none, some, List, [], ◌∷◌, map, arith,
  if◌then◌else◌, Bool-cases, inl, inr, Option-cases,
}
use chrono_shift.Prelude.Keys.{Bytes, ◌=?◌, =?_iff, bytes_eq, contains}
use chrono_shift.Dcnet.Group.{
  Participant, DcGroup, DcRound, is_malicious, absorb_from, penalize, reward, has_peer, retain_good,
  malicious_ids, mark_each, mark_dropouts, remove_malicious, write_back, finish_round_with,
}
use chrono_shift.Dcnet.Group.Members.{
  DistinctIds, find_peer, find_peer-absent, drop_peers, reform-drop_peers, absorbed,
  write_back-cons, write_back-nil, drop_peers-cons, absorbed-peer_id, retain_good-DistinctIds,
}

-- A member after the round, by whether it responded.
abbrev pub settle : List Bytes → Participant → Participant
settle responded p = if contains responded p.peer_id then reward p else penalize p

-- What becomes of a member of the group: one that was in the round takes over its standing, and is
-- thrown out if that makes it malicious.
unfoldable pub outcome : List Bytes → List Participant → Participant → Option Participant
outcome responded round p = elim (find_peer p.peer_id round) [
  | none ↦ some p
  | some rp ↦
      if is_malicious (settle responded rp)
      then none
      else some (absorb_from p (settle responded rp))
]

unfoldable pub outcomes : List Bytes → List Participant → List Participant → List Participant
outcomes responded round [] = []
outcomes responded round (p ∷ ps) =
    let rest = outcomes responded round ps in
    elim (outcome responded round p) [ none ↦ rest | some p' ↦ p' ∷ rest ]

unfoldable pub absent : List Bytes → List Participant → List Bytes
absent responded [] = []
absent responded (p ∷ ps) =
    let rest = absent responded ps in
    if contains responded p.peer_id then rest else p.peer_id ∷ rest

mark_each-settle :
    (responded : List Bytes) (ps : List Participant)
    → mark_each responded ps ≡ (map (settle responded) ps, absent responded ps)
unfolding mark_each absent
mark_each-settle responded [] = refl
mark_each-settle responded (p ∷ ps) = elim (Bool-cases (contains responded p.peer_id)) [
  | inl here ↦ rw (mark_each, absent, mark_each-settle responded ps, here) refl
  | inr away ↦ rw (mark_each, absent, mark_each-settle responded ps, away) refl
]

settle-peer_id :
    (responded : List Bytes) (p : Participant) → (settle responded p).peer_id ≡ p.peer_id
settle-peer_id responded p = ground arith

has_peer-settle :
    (responded : List Bytes) (id : Bytes) (ps : List Participant)
    → has_peer id (map (settle responded) ps) ≡ has_peer id ps
unfolding has_peer
has_peer-settle responded id [] = refl
has_peer-settle responded id (p ∷ ps) =
    ap₂ ◌||◌ (ap (λ q. q =? id) (settle-peer_id responded p)) (has_peer-settle responded id ps)

settle-DistinctIds :
    (responded : List Bytes) (ps : List Participant)
    → DistinctIds ps
    → DistinctIds (map (settle responded) ps)
settle-DistinctIds responded [] d = tt
settle-DistinctIds responded (p ∷ ps) d = (
  ap (λ q. has_peer q (map (settle responded) ps)) (settle-peer_id responded p)
      ∙ has_peer-settle responded p.peer_id ps
      ∙ d.0,
  settle-DistinctIds responded ps d.1,
)

find_peer-settle :
    (responded : List Bytes) (id : Bytes) (ps : List Participant)
    → find_peer id (map (settle responded) ps)
      ≡ (elim (find_peer id ps) [ none ↦ none | some rp ↦ some (settle responded rp) ])
find_peer-settle responded id [] = refl
find_peer-settle responded id (p ∷ ps) =
    let same = ap (λ q. q =? id) (settle-peer_id responded p) in
    elim (Bool-cases (p.peer_id =? id)) [
      | inl here ↦
          ap
            (λ b. if b then some (settle responded p) else find_peer id (map (settle responded) ps))
            (same ∙ here)
          ∙ ap
              (λ b. elim (if b then some p else find_peer id ps) [
                | none ↦ none
                | some rp ↦ some (settle responded rp)
              ])
              (sym here)
      | inr away ↦
          ap
            (λ b. if b then some (settle responded p) else find_peer id (map (settle responded) ps))
            (same ∙ away)
          ∙ find_peer-settle responded id ps
          ∙ ap
              (λ b. elim (if b then some p else find_peer id ps) [
                | none ↦ none
                | some rp ↦ some (settle responded rp)
              ])
              (sym away)
    ]

-- A member of the round is on exactly one side, by whether it is malicious.
sort_none :
    (id : Bytes) (ps : List Participant)
    → find_peer id ps ≡ none
    → (find_peer id (retain_good ps) ≡ none) × (contains (malicious_ids ps) id ≡ false)
unfolding retain_good malicious_ids
sort_none id [] h = (refl, refl)
sort_none id (p ∷ ps) h = ground (arith, sort_none id ps)

sort_bad :
    (id : Bytes) (ps : List Participant) (rp : Participant)
    → find_peer id ps ≡ some rp
    → is_malicious rp ≡ true
    → contains (malicious_ids ps) id ≡ true
unfolding malicious_ids
sort_bad id [] rp h bad = cc
sort_bad id (p ∷ ps) rp h bad = elim (Bool-cases (p.peer_id =? id)) [
  | inl here ↦
      let found : some p ≡ some rp =
        ap (λ b. if b then some p else find_peer id ps) (sym here) ∙ h in
      let e : p ≡ rp = cc found in
      let bad_p : is_malicious p ≡ true = ap is_malicious e ∙ bad in rw (bad_p, here) refl
  | inr away ↦
      let found : find_peer id ps ≡ some rp =
        ap (λ b. if b then some p else find_peer id ps) (sym away) ∙ h in
      ground (arith, sort_bad id ps rp found bad)
]

sort_good :
    (id : Bytes) (ps : List Participant) (rp : Participant)
    → DistinctIds ps
    → find_peer id ps ≡ some rp
    → is_malicious rp ≡ false
    → (find_peer id (retain_good ps) ≡ some rp) × (contains (malicious_ids ps) id ≡ false)
unfolding retain_good malicious_ids
sort_good id [] rp d h good = cc
sort_good id (p ∷ ps) rp d h good = elim (Bool-cases (p.peer_id =? id)) [
  | inl here ↦
      let found : some p ≡ some rp =
        ap (λ b. if b then some p else find_peer id ps) (sym here) ∙ h in
      let e : p ≡ rp = cc found in
      let good_p : is_malicious p ≡ false = ap is_malicious e ∙ good in
      let gone : find_peer id ps ≡ none =
        find_peer-absent id ps
          (ap (λ q. has_peer q ps) (sym ((=?_iff p.peer_id id).0 here)) ∙ d.0) in
      let rest = (sort_none id ps gone).1 in rw (good_p, here) (ap some e, rest)
  | inr away ↦
      let found : find_peer id ps ≡ some rp =
        ap (λ b. if b then some p else find_peer id ps) (sym away) ∙ h in
      let (kept, spared) = sort_good id ps rp d.1 found good in
      elim (Bool-cases (is_malicious p)) [
        | inl bad ↦ rw (bad, away) (kept, spared)
        | inr fine ↦ rw (fine, away) (kept, spared)
      ]
]

module _ (responded : List Bytes) (round : List Participant) (distinct : DistinctIds round) where
  -- The two ways to say what becomes of one member.
  keeps_or_drops :
      (p : Participant) (rest : List Participant)
      → (if contains (malicious_ids (map (settle responded) round)) p.peer_id
          then rest
          else absorbed (retain_good (map (settle responded) round)) p ∷ rest)
        ≡ (elim (outcome responded round p) [ none ↦ rest | some p' ↦ p' ∷ rest ])
  unfolding outcome
  keeps_or_drops p rest =
      let all = map (settle responded) round in
      let image = find_peer-settle responded p.peer_id round in
      elim (Option-cases (find_peer p.peer_id round)) [
        | inl gone ↦
            let (kept, spared) = sort_none p.peer_id all (
              image
              ∙ ap (λ o. elim o [ none ↦ none | some rp ↦ some (settle responded rp) ]) gone) in
            rw (outcome, gone, spared, absorbed, kept) refl
        | inr (rp, found) ↦
            let there : find_peer p.peer_id all ≡ some (settle responded rp) =
              image ∙ ap (λ o. elim o [ none ↦ none | some r ↦ some (settle responded r) ]) found in
            elim (Bool-cases (is_malicious (settle responded rp))) [
              | inl bad ↦
                  let out = sort_bad p.peer_id all (settle responded rp) there bad in
                  rw (outcome, found, bad, out) refl
              | inr good ↦
                  let (kept, spared) =
                    sort_good p.peer_id all (settle responded rp)
                      (settle-DistinctIds responded round distinct) there good in
                  rw (outcome, found, good, spared, absorbed, kept) refl
            ]
      ]

  write_back-outcomes :
      (ps : List Participant)
      → DistinctIds ps
      → drop_peers
          (malicious_ids (map (settle responded) round))
          (write_back (retain_good (map (settle responded) round)) ps)
        ≡ outcomes responded round ps
  unfolding outcomes
  write_back-outcomes [] d =
      ap (drop_peers (malicious_ids (map (settle responded) round)))
        (write_back-nil (retain_good (map (settle responded) round)))
  write_back-outcomes (p ∷ ps) d =
      let all = map (settle responded) round in
      ap (drop_peers (malicious_ids all)) (
        write_back-cons (retain_good all) p ps
          (retain_good-DistinctIds all (settle-DistinctIds responded round distinct)) d.0)
      ∙ drop_peers-cons (malicious_ids all) (absorbed (retain_good all) p)
          (write_back (retain_good all) ps) p.peer_id (absorbed-peer_id (retain_good all) p)
      ∙ ap
          (λ (rest : List Participant).
            if contains (malicious_ids all) p.peer_id
            then rest
            else absorbed (retain_good all) p ∷ rest)
          (write_back-outcomes ps d.1)
      ∙ keeps_or_drops p (outcomes responded round ps)

-- The end of a round, member by member: one that did not respond is penalized, one that did is
-- rewarded, those whom this makes malicious are thrown out and named, the others take over the
-- standing, members that were not in the round stay as they are, and the dropouts are those of the
-- round that did not respond.
pub finish_round_with-outcomes :
    (responded : List Bytes) (g : DcGroup) (r : DcRound)
    → g.current_round ≡ some r
    → DistinctIds r.participants
    → DistinctIds g.participants
    → finish_round_with responded g ≡ (
      (absent responded r.participants, malicious_ids (map (settle responded) r.participants)),
      record g {
        participants = outcomes responded r.participants g.participants;
        current_round = none;
      },
    )
unfolding finish_round_with mark_dropouts remove_malicious
finish_round_with-outcomes responded g r running distinct_r distinct_g =
    rw (finish_round_with, running, mark_each-settle responded r.participants)
      (ap₂ (λ (m : List Bytes) (x : DcGroup). ((absent responded r.participants, m), x)) refl
        (reform-drop_peers (malicious_ids (map (settle responded) r.participants)) _
          ∙ ap (λ ps. record g { participants = ps; current_round = none })
              (write_back-outcomes responded r.participants distinct_r g.participants distinct_g)))
