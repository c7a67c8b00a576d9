-- ===== src/Dcnet/Group.antt =====
-- dcnet/mod.rs (`Participant`), dcnet/round.rs and dcnet/group.rs: the members of a group, and the
-- rounds that they respond to or not. An `Instant` is a number of seconds, an argument.
pub mod Members
pub mod Finish
pub mod Calls
mod Tests
use chrono_shift.Prelude.{
  ℕ, zero, suc, ◌+◌, ◌%◌, ◌^◌, Bool, true, false, not, ◌&&◌, ◌||◌, Option, none, some, List, [],
  ◌∷◌, ◌++◌, length, leb, ltb, if◌then◌else◌,
}
use chrono_shift.Prelude.Keys.{Bytes, ◌=?◌, bytes_eq, contains}
use chrono_shift.Prelude.Floats.{F64, f_one, f_0_7, f_0_05, f_0_3, f_add, f_mul, f_min, f_ltb}

pub record Participant : Type 0 where
  pub peer_id : Bytes
  pub shares : List Bytes
  pub reputation : F64
  pub consecutive_drops : ℕ
  pub rounds_participated : ℕ

abbrev pub new_participant : Bytes → Participant
new_participant peer_id = record {
  peer_id = peer_id;
  shares = [];
  reputation = f_one;
  consecutive_drops = 0;
  rounds_participated = 0;
}

abbrev pub penalize : Participant → Participant
penalize p = record p {
  consecutive_drops = (p.consecutive_drops + 1) % 2 ^ 32;
  reputation = f_mul p.reputation f_0_7;
}

abbrev pub reward : Participant → Participant
reward p = record p { consecutive_drops = 0; reputation = f_min (f_add p.reputation f_0_05) f_one }

unfoldable pub is_malicious : Participant → Bool
is_malicious p = leb 3 p.consecutive_drops || f_ltb p.reputation f_0_3

abbrev pub absorb_from : Participant → Participant → Participant
absorb_from p other = record p {
  reputation = other.reputation;
  consecutive_drops = other.consecutive_drops;
  rounds_participated = other.rounds_participated;
}

pub data RoundState : Type 0 where
  collecting broadcasting complete failed : RoundState

pub record DcRound : Type 0 where
  pub round_id : ℕ
  pub participants : List Participant
  pub state : RoundState
  pub deadline : ℕ
  pub max_dropouts : ℕ

abbrev pub new_round : ℕ → ℕ → List Participant → ℕ → DcRound
new_round now round_id participants max_dropouts = record {
  round_id = round_id;
  participants = participants;
  state = RoundState.collecting;
  deadline = now + 30;
  max_dropouts = max_dropouts;
}

abbrev pub is_expired : ℕ → DcRound → Bool
is_expired now r = ltb r.deadline now

-- The members after the round, and those who did not respond.
unfoldable pub mark_each : List Bytes → List Participant → List Participant × List Bytes
mark_each responded [] = ([], [])
mark_each responded (p ∷ ps) =
    let (marked, dropouts) = mark_each responded ps in
    if not (contains responded p.peer_id)
    then (penalize p ∷ marked, p.peer_id ∷ dropouts)
    else (reward p ∷ marked, dropouts)

unfoldable pub mark_dropouts : List Bytes → DcRound → DcRound × List Bytes
mark_dropouts responded r =
    let (marked, dropouts) = mark_each responded r.participants in
    (
      record r {
        participants = marked;
        state =
            if ltb r.max_dropouts (length dropouts) then RoundState.failed else RoundState.complete;
      },
      dropouts,
    )

unfoldable pub malicious_ids : List Participant → List Bytes
malicious_ids [] = []
malicious_ids (p ∷ ps) =
    let rest = malicious_ids ps in if is_malicious p then p.peer_id ∷ rest else rest

unfoldable pub retain_good : List Participant → List Participant
retain_good [] = []
retain_good (p ∷ ps) = let rest = retain_good ps in if is_malicious p then rest else p ∷ rest

unfoldable pub remove_malicious : DcRound → DcRound × List Bytes
remove_malicious r =
    (record r { participants = retain_good r.participants }, malicious_ids r.participants)

pub record DcGroup : Type 0 where
  pub group_id : Bytes
  pub participants : List Participant
  pub current_round : Option DcRound
  pub min_participants : ℕ
  pub max_dropouts : ℕ

abbrev pub new_group : Bytes → ℕ → ℕ → DcGroup
new_group group_id min_participants max_dropouts = record {
  group_id = group_id;
  participants = [];
  current_round = none;
  min_participants = min_participants;
  max_dropouts = max_dropouts;
}

unfoldable pub has_peer : Bytes → List Participant → Bool
has_peer id [] = false
has_peer id (p ∷ ps) = p.peer_id =? id || has_peer id ps

unfoldable pub without_peer : Bytes → List Participant → List Participant
without_peer id [] = []
without_peer id (p ∷ ps) =
    let rest = without_peer id ps in if p.peer_id =? id then rest else p ∷ rest

unfoldable pub join : Bytes → DcGroup → DcGroup
join peer_id g =
    if not (has_peer peer_id g.participants)
    then record g { participants = g.participants ++ new_participant peer_id ∷ [] }
    else g

abbrev pub leave : Bytes → DcGroup → DcGroup
leave peer_id g = record g { participants = without_peer peer_id g.participants }

unfoldable pub reform : List Bytes → DcGroup → DcGroup
reform [] g = g
reform (id ∷ dropouts) g = reform dropouts (leave id g)

unfoldable pub start_round : ℕ → ℕ → DcGroup → Option DcRound × DcGroup
start_round now round_id g =
    let good = retain_good g.participants in
    if ltb (length good) g.min_participants
    then (none, record g { participants = good })
    else let round = new_round now round_id good g.max_dropouts in
      (some round, record g { participants = good; current_round = some round })

-- `if let Some(gp) = ...find(...)`: the first member with the id.
unfoldable pub absorb_first : Participant → List Participant → List Participant
absorb_first rp [] = []
absorb_first rp (p ∷ ps) =
    let rest = absorb_first rp ps in
    if p.peer_id =? rp.peer_id then absorb_from p rp ∷ ps else p ∷ rest

unfoldable pub write_back : List Participant → List Participant → List Participant
write_back [] ps = ps
write_back (rp ∷ rps) ps = write_back rps (absorb_first rp ps)

unfoldable pub finish_round : DcGroup → DcGroup
unfolding reform
finish_round g = elim g.current_round [
  | none ↦ g
  | some round ↦ reform (malicious_ids g.participants) (record g { current_round = none })
]

-- Who did not respond, who was thrown out, and the group after the round.
unfoldable pub finish_round_with : List Bytes → DcGroup → (List Bytes × List Bytes) × DcGroup
unfolding reform
finish_round_with responded g = elim g.current_round [
  | none ↦ (([], []), record g { current_round = none })
  | some round ↦
      let (marked, dropouts) = mark_dropouts responded round in
      let (kept, malicious) = remove_malicious marked in
      (
        (dropouts, malicious),
        reform malicious (record g {
          participants = write_back kept.participants g.participants;
          current_round = none;
        }),
      )
]

unfoldable pub malicious_count : List Participant → ℕ
malicious_count [] = 0
malicious_count (p ∷ ps) =
    let rest = malicious_count ps in if is_malicious p then suc rest else rest

unfoldable pub all_good : List Participant → Bool
all_good [] = true
all_good (p ∷ ps) = not (is_malicious p) && all_good ps

abbrev pub is_healthy : DcGroup → Bool
is_healthy g = leb g.min_participants (length g.participants) && all_good g.participants
