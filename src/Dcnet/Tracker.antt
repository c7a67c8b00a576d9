-- ===== src/Dcnet/Tracker.antt =====
-- `RoundTracker` of dcnet/round_network.rs: one counter of rounds, and the queue of messages. The
-- counter is a u64, whose `+ 1` wraps in a release build. The fields `active_round` and
-- `last_leader_seen`, which nothing writes after `new`, are left out.
use chrono_shift.Prelude.{
  ℕ, zero, suc, ◌+◌, ◌%◌, ◌^◌, ◌≤◌, ◌<◌, ◌≡◌, refl, ap, ap₂, ◌∙◌, ◌⊎◌, inl, inr, Bool-cases, Bool,
  true, false, ◌||◌, Option, some, none, List, [], ◌∷◌, ◌++◌, arith, length, leb, ◌==◌,
  if◌then◌else◌,
}
use chrono_shift.Prelude.Keys.{Bytes}

pub record RoundTracker : Type 0 where
  pub current_round_id : ℕ
  pub message_queue : List Bytes

abbrev pub u64_mod : ℕ
u64_mod = 2 ^ 64

unfoldable pub new : RoundTracker
new = record { current_round_id = 0; message_queue = [] }

unfoldable pub next_round : RoundTracker → RoundTracker × ℕ
next_round t =
    let id = (t.current_round_id + 1) % u64_mod in (record t { current_round_id = id }, id)

unfoldable pub mark_seen : ℕ → RoundTracker → RoundTracker × Bool
mark_seen round_id t =
    if round_id == (t.current_round_id + 1) % u64_mod
    then (record t { current_round_id = round_id }, true)
    else (t, false)

unfoldable pub is_stale : ℕ → RoundTracker → Bool
is_stale round_id t = leb round_id t.current_round_id

unfoldable pub verify_round_id : ℕ → RoundTracker → Bool
verify_round_id round_id t =
    round_id == t.current_round_id || round_id == (t.current_round_id + 1) % u64_mod

unfoldable pub queue_message : Bytes → RoundTracker → RoundTracker
queue_message text t = record t { message_queue = t.message_queue ++ text ∷ [] }

-- `remove(0)` of the queue.
unfoldable pub split_first : List Bytes → RoundTracker → RoundTracker × Option Bytes
split_first [] t = (t, none)
split_first (m ∷ ms) t = (record t { message_queue = ms }, some m)

unfoldable pub dequeue_message : RoundTracker → RoundTracker × Option Bytes
unfolding split_first
dequeue_message t = split_first t.message_queue t

-- The number of the round has no part in the queue.
pub dequeue_message-counted :
    (id : ℕ) (t : RoundTracker)
    → (dequeue_message (record t { current_round_id = id })).1 ≡ (dequeue_message t).1
unfolding dequeue_message split_first
dequeue_message-counted id t = first t.message_queue
  where
    first :
        (q : List Bytes)
        → (split_first q (record t { current_round_id = id })).1 ≡ (split_first q t).1
    first [] = refl
    first (m ∷ ms) = refl

-- The round ids that arrive from the network, in the order in which they arrive, and the answers.
unfoldable pub observe : List ℕ → RoundTracker → RoundTracker × List Bool
observe [] t = (t, [])
observe (r ∷ rs) t =
    let (t', accepted) = mark_seen r t in let (t'', rest) = observe rs t' in (t'', accepted ∷ rest)

-- The ids that were accepted.
pub accepted_ids : List ℕ → List Bool → List ℕ
accepted_ids [] bs = []
accepted_ids (r ∷ rs) [] = []
accepted_ids (r ∷ rs) (b ∷ bs) = let rest = accepted_ids rs bs in if b then r ∷ rest else rest

-- n + 1, n + 2, ..., n + k
pub consecutive : ℕ → ℕ → List ℕ
consecutive n zero = []
consecutive n (suc k) = suc n ∷ consecutive (suc n) k

mark_seen_next :
    (r : ℕ) (t : RoundTracker)
    → t.current_round_id + 1 < u64_mod
    → (((mark_seen r t).1 ≡ true)
        × (r ≡ t.current_round_id + 1)
        × ((mark_seen r t).0.current_round_id ≡ t.current_round_id + 1))
      ⊎ (((mark_seen r t).1 ≡ false) × ((mark_seen r t).0 ≡ t))
unfolding mark_seen
mark_seen_next r t small = elim (Bool-cases (r == (t.current_round_id + 1) % u64_mod)) [
  | inl same ↦ inl (rw same (refl, ground arith, ground arith))
  | inr other ↦ inr (rw other (refl, refl))
]

-- Of the round ids that arrive, in whatever order and number, those that are accepted are n + 1,
-- n + 2, ..., n + k, each once, where n is the counter before and n + k the counter after, as long
-- as the counter does not reach 2^64.
pub observe-consecutive :
    (rs : List ℕ) (t : RoundTracker)
    → t.current_round_id + length rs < u64_mod
    → (k : ℕ) × (k ≤ length rs)
      × (accepted_ids rs (observe rs t).1 ≡ consecutive t.current_round_id k)
      × ((observe rs t).0.current_round_id ≡ t.current_round_id + k)
unfolding observe accepted_ids consecutive
observe-consecutive [] t small = (0, omega arith, refl, omega arith)
observe-consecutive (r ∷ rs) t small = elim (mark_seen_next r t (omega arith)) [
  | inl (yes_it_is, id, moved) ↦
      let (k, bound, ids, counter) = observe-consecutive rs (mark_seen r t).0 (ground arith) in
      (
        suc k,
        omega arith,
        rw yes_it_is (ap₂ ◌∷◌ (omega arith) (ids ∙ ap (λ (n : ℕ). consecutive n k) (omega arith))),
        omega arith,
      )
  | inr (refused, same) ↦
      let (k, bound, ids, counter) = observe-consecutive rs (mark_seen r t).0 (ground arith) in
      (
        k,
        omega arith,
        rw refused (
            ids
            ∙ ap (λ (n : ℕ). consecutive n k)
                (omega (arith, ap RoundTracker.current_round_id same))),
        omega (arith, ap RoundTracker.current_round_id same),
      )
]
