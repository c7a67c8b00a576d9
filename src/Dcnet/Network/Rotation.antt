-- ===== src/Dcnet/Network/Rotation.antt =====
-- Rotation of the leader on failures: every member has its turn.
use chrono_shift.Prelude.{
  ℕ, zero, suc, ◌+◌, ◌-◌, ◌%◌, ◌<◌, ◌≡◌, refl, ap, sym, ◌∙◌, subst, true, some, List, [], ◌∷◌,
  length, get_elem?, arith, Bool-cases, inl, inr,
}
use native.Mathlib.Nat.{mod-eq_of_lt, mod_self}
use native.Mathlib.Decide.{dec_lt}
use chrono_shift.Prelude.Keys.{Bytes, bytes_eq, bytes_beq_iff, ◌=?◌, contains, Distinct}
use chrono_shift.Dcnet.Network.{DcNetwork, next_leader, rotate_leader, position}
use chrono_shift.Dcnet.Network.Invariant.{IsValid}

-- `rotate_leader`, n times.
unfoldable pub rotations : ℕ → DcNetwork → DcNetwork
rotations zero net = net
rotations (suc n) net = rotations n (rotate_leader net).0

rotations_add : (m n : ℕ) (net : DcNetwork) → rotations (m + n) net ≡ rotations n (rotations m net)
unfolding rotations
rotations_add zero n net = ap (λ (k : ℕ). rotations k net) {x = zero + n} {y = n} (omega arith)
rotations_add (suc m) n net =
    ap (λ (k : ℕ). rotations k net) {x = suc m + n} {y = suc (m + n)} (omega arith)
    ∙ rotations_add m n (rotate_leader net).0

-- The leader stands at place i of the join order, which is `us`.
abbrev At : List Bytes → ℕ → DcNetwork → Type 0
At us i net = (net.member_join_order ≡ us) × (get_elem? us i ≡ some net.current_leader)

contains_elem :
    (us : List Bytes) (i : ℕ) (u : Bytes) → get_elem? us i ≡ some u → contains us u ≡ true
contains_elem [] i u e = cc
contains_elem (v ∷ us) zero u e = ground (arith, bytes_beq_iff v u)
contains_elem (v ∷ us) (suc i) u e = ground (arith, contains_elem us i u e)

position-get_elem? :
    (us : List Bytes) (i : ℕ) (u : Bytes)
    → Distinct us
    → get_elem? us i ≡ some u
    → position u us ≡ some i
position-get_elem? [] i u d e = cc
position-get_elem? (v ∷ us) zero u d e = ground (arith, bytes_beq_iff v u)
position-get_elem? (v ∷ us) (suc i) u d e =
    ground (arith, bytes_beq_iff v u, contains_elem us i u e, position-get_elem? us i u d.1 e)

elem_exists : (us : List Bytes) (i : ℕ) → i < length us → (u : Bytes) × (get_elem? us i ≡ some u)
elem_exists [] i small = absurd (omega arith)
elem_exists (v ∷ us) zero small = (v, refl)
elem_exists (v ∷ us) (suc i) small = elem_exists us i (omega arith)

place :
    (us : List Bytes) (u : Bytes)
    → contains us u ≡ true
    → (i : ℕ) × (i < length us) × (get_elem? us i ≡ some u)
place [] u m = cc
place (v ∷ us) u m = elim (Bool-cases (v =? u)) [
  | inl same ↦ (0, omega arith, ground (arith, bytes_beq_iff v u))
  | inr other ↦ let (i, small, e) = place us u (ground arith) in (suc i, omega arith, e)
]

next_leader-own :
    (i : ℕ) (net : DcNetwork) (next : Bytes)
    → Distinct net.member_join_order
    → get_elem? net.member_join_order i ≡ some net.current_leader
    → get_elem? net.member_join_order ((i + 1) % length net.member_join_order) ≡ some next
    → next_leader net ≡ some next
unfolding next_leader
next_leader-own i net next d at e =
    rw (next_leader, position-get_elem? net.member_join_order i net.current_leader d at) e

next_leader-At :
    (us : List Bytes) (i : ℕ) (net : DcNetwork) (next : Bytes)
    → Distinct us
    → At us i net
    → get_elem? us ((i + 1) % length us) ≡ some next
    → next_leader net ≡ some next
next_leader-At us i net next d (same, at) e =
    next_leader-own i net next (subst (λ vs. Distinct vs) (sym same) d)
      (subst (λ vs. get_elem? vs i ≡ some net.current_leader) (sym same) at)
      (subst (λ vs. get_elem? vs ((i + 1) % length vs) ≡ some next) (sym same) e)

-- One rotation goes to the next place, modulo the number of members.
rotate_leader-At :
    (us : List Bytes) (i : ℕ) (net : DcNetwork)
    → Distinct us
    → (i + 1) % length us < length us
    → At us i net
    → At us ((i + 1) % length us) (rotate_leader net).0
unfolding rotate_leader
rotate_leader-At us i net d small at =
    let (next, e) = elem_exists us ((i + 1) % length us) small in
    rw (rotate_leader, next_leader-At us i net next d at e) (at.0, e)

-- Below the end, n rotations go n places on.
rotations-ahead :
    (us : List Bytes) (n i : ℕ) (net : DcNetwork)
    → Distinct us
    → i + n < length us
    → At us i net
    → At us (i + n) (rotations n net)
unfolding rotations
rotations-ahead us zero i net d small at =
    subst (λ (k : ℕ). At us k net) {x = i} {y = i + 0} (omega arith) at
rotations-ahead us (suc n) i net d small at =
    let next : (i + 1) % length us ≡ i + 1 =
      mod-eq_of_lt {n = i + 1} {m = length us} (omega arith) in
    let moved = rotate_leader-At us i net d (omega arith) at in
    subst (λ (k : ℕ). At us k (rotations n (rotate_leader net).0)) {x = i + 1 + n} {y = i + suc n}
      (omega arith)
      (rotations-ahead us n (i + 1) (rotate_leader net).0 d (omega arith)
        (subst (λ (k : ℕ). At us k (rotate_leader net).0) next moved))

-- From the last place a rotation goes to the first.
rotate_leader-last :
    (us : List Bytes) (i : ℕ) (net : DcNetwork)
    → Distinct us
    → i + 1 ≡ length us
    → At us i net
    → At us 0 (rotate_leader net).0
rotate_leader-last us i net d last at =
    let wrap : (i + 1) % length us ≡ 0 =
      ap (λ (k : ℕ). k % length us) {x = i + 1} {y = length us} (omega arith)
      ∙ mod_self (length us) in
    subst (λ (k : ℕ). At us k (rotate_leader net).0) wrap
      (rotate_leader-At us i net d (omega arith) at)

-- From place i every place is reached, in less than a whole turn.
rotations-reach :
    (us : List Bytes) (i q : ℕ) (net : DcNetwork)
    → Distinct us
    → i < length us
    → q < length us
    → At us i net
    → (n : ℕ) × (n < length us) × At us q (rotations n net)
unfolding rotations
rotations-reach us i q net d small_i small_q at = elim (dec_lt q i) [
  | no ahead ↦ (
    q - i,
    omega arith,
    subst (λ (k : ℕ). At us k (rotations (q - i) net)) {x = i + (q - i)} (omega arith)
        (rotations-ahead us (q - i) i net d (omega arith) at),
  )
  | yes behind ↦
      let to_end : ℕ = length us - 1 - i in
      let last = rotations-ahead us to_end i net d (omega arith) at in
      let first = rotate_leader-last us (i + to_end) (rotations to_end net) d (omega arith) last in
      (
        to_end + suc q,
        omega arith,
        subst (At us q) (sym (rotations_add to_end (suc q) net)) (
            subst (λ (k : ℕ). At us k (rotations q (rotate_leader (rotations to_end net)).0))
              {x = 0 + q} {y = q} (omega arith)
              (rotations-ahead us q 0 (rotate_leader (rotations to_end net)).0 d (omega arith)
                first)),
      )
]

-- In a valid network every member becomes the leader after fewer rotations than there are members.
pub rotation_reaches :
    (net : DcNetwork) (u : Bytes)
    → IsValid net
    → contains net.members u ≡ true
    → (n : ℕ) × (n < length net.members) × ((rotations n net).current_leader ≡ u)
rotation_reaches net u v m =
    let (i, small_i, at_i) = place net.members net.current_leader v.leader in
    let (q, small_q, at_q) = place net.members u m in
    let (n, small, at) =
      rotations-reach net.members i q net v.distinct small_i small_q (sym v.same, at_i) in
    (n, small, cc (at.1, at_q))
