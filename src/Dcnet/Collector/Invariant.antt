-- ===== src/Dcnet/Collector/Invariant.antt =====
-- What holds of a `RoundCollector` from `new` on, and what `is_complete` then says.
use chrono_shift.Prelude.{
  ok, ok, ℕ, suc, ◌+◌, ◌≤◌, ◌≡◌, ◌↔◌, refl, ap, true, false, List, [], ◌∷◌, ◌++◌, arith, length,
  ◌==◌, Bool-cases, inl, inr,
}
use chrono_shift.Prelude.Keys.{
  Bytes, bytes_eq, bytes_beq_iff, contains, contains_tail, contains_head, Distinct, ne→=?_false,
}
use chrono_shift.Prelude.Dict.{Dict, has_key, insert-fresh, has_key-append}
use chrono_shift.Dcnet.Collector.{
  RoundCollector, new, collect_set, submit_share, is_complete, missing, missing_participants,
}

-- The shares are those of distinct members of the round, each of the announced length.
abbrev pub AreFrom : List Bytes → ℕ → Dict Bytes Bytes → Type 0
AreFrom ps len [] = Unit {0}
AreFrom ps len ((uid, share) ∷ rest) =
    (contains ps uid ≡ true)
    × (has_key uid rest ≡ false)
    × (length share ≡ len)
    × AreFrom ps len rest

pub record IsValid (c : RoundCollector) : Type 0 where
  pub members : Distinct c.participants
  pub shares : AreFrom c.participants c.payload_len c.shares_received
  pub bounded : (4 ≤ c.payload_len) × (c.payload_len ≤ 65536)

collect_set-apart :
    (seen us : List Bytes) (a : Bytes)
    → contains seen a ≡ true
    → contains (collect_set seen us) a ≡ false
unfolding collect_set
collect_set-apart seen [] a m = refl
collect_set-apart seen (u ∷ us) a m = elim (Bool-cases (contains seen u)) [
  | inl old ↦ rw old (collect_set-apart seen us a m)
  | inr new_one ↦
      rw (new_one, ne→=?_false u a (λ e. cc (m, new_one, ap (contains seen) e)))
        (collect_set-apart (u ∷ seen) us a (contains_tail u seen a m))
]

collect_set-Distinct : (seen us : List Bytes) → Distinct (collect_set seen us)
unfolding collect_set
collect_set-Distinct seen [] = tt
collect_set-Distinct seen (u ∷ us) = elim (Bool-cases (contains seen u)) [
  | inl old ↦ rw old (collect_set-Distinct seen us)
  | inr new_one ↦
      rw new_one (
        collect_set-apart (u ∷ seen) us u (contains_head u seen),
        collect_set-Distinct (u ∷ seen) us,
      )
]

-- A new collector is valid, whatever copies the list of participants has.
pub new-IsValid :
    (now : ℕ) (channel : Bytes) (round_id : ℕ) (ps : List Bytes) (deadline_secs payload_len : ℕ)
    → IsValid (new now channel round_id ps deadline_secs payload_len)
unfolding new
new-IsValid now channel round_id ps deadline_secs payload_len = record {
  members = collect_set-Distinct [] ps;
  shares = tt;
  bounded = ground arith;
}

AreFrom-append :
    (ps : List Bytes) (len : ℕ) (d : Dict Bytes Bytes) (uid share : Bytes)
    → AreFrom ps len d
    → contains ps uid ≡ true
    → has_key uid d ≡ false
    → length share ≡ len
    → AreFrom ps len (d ++ (uid, share) ∷ [])
AreFrom-append ps len [] uid share a m f l = (m, refl, l, tt)
AreFrom-append ps len ((v, s) ∷ d) uid share a m f l = ground (
  arith,
  AreFrom-append ps len d uid share a.3 m,
  has_key-append v uid share d,
  bytes_beq_iff v uid,
  bytes_beq_iff uid v,
)

submit_share_accepted :
    (uid share : Bytes) (c c' : RoundCollector)
    → submit_share uid share c ≡ ok c'
    → (contains c.participants uid ≡ true)
      × (has_key uid c.shares_received ≡ false)
      × (length share ≡ c.payload_len)
      × (c' ≡ record c { shares_received = c.shares_received ++ (uid, share) ∷ [] })
unfolding submit_share
submit_share_accepted uid share c c' e = ground (arith, insert-fresh uid share c.shares_received)

-- An accepted share keeps the collector valid: distinct members, and at most one share of each, of
-- the announced length, which is between 4 and 65536.
pub submit_share-IsValid :
    (uid share : Bytes) (c c' : RoundCollector)
    → IsValid c
    → submit_share uid share c ≡ ok c'
    → IsValid c'
submit_share-IsValid uid share c c' v e =
    let (member, fresh, len, grown) = submit_share_accepted uid share c c' e in
    rw grown (record {
      members = v.members;
      shares =
          AreFrom-append c.participants c.payload_len c.shares_received uid share v.shares member
            fresh len;
      bounded = v.bounded;
    })

missing-absent :
    (ps : List Bytes) (uid share : Bytes) (d : Dict Bytes Bytes)
    → contains ps uid ≡ false
    → missing ps ((uid, share) ∷ d) ≡ missing ps d
unfolding missing
missing-absent [] uid share d m = refl
missing-absent (p ∷ ps) uid share d m =
    ground (arith, missing-absent ps uid share d, bytes_beq_iff uid p, bytes_beq_iff p uid)

missing-cons :
    (ps : List Bytes) (uid share : Bytes) (d : Dict Bytes Bytes)
    → Distinct ps
    → contains ps uid ≡ true
    → has_key uid d ≡ false
    → suc (length (missing ps ((uid, share) ∷ d))) ≡ length (missing ps d)
unfolding missing
missing-cons [] uid share d dist m f = cc
missing-cons (p ∷ ps) uid share d dist m f = ground (
  arith,
  missing-cons ps uid share d dist.1,
  missing-absent ps uid share d,
  bytes_beq_iff uid p,
  bytes_beq_iff p uid,
)

missing-nil : (ps : List Bytes) → missing ps [] ≡ ps
unfolding missing
missing-nil [] = refl
missing-nil (p ∷ ps) = ap (◌∷◌ p) (missing-nil ps)

missing-length :
    (ps : List Bytes) (len : ℕ) (d : Dict Bytes Bytes)
    → Distinct ps
    → AreFrom ps len d
    → length (missing ps d) + length d ≡ length ps
missing-length ps len [] dist a = omega (arith, ap length (missing-nil ps))
missing-length ps len ((uid, share) ∷ d) dist a =
    omega (arith, missing-cons ps uid share d dist a.0 a.1, missing-length ps len d dist a.3)

-- In a valid collector the members that are missing and the shares received make up the round.
pub missing_participants-shares :
    (c : RoundCollector)
    → IsValid c
    → length (missing_participants c) + length c.shares_received ≡ length c.participants
unfolding missing_participants
missing_participants-shares c v =
    missing-length c.participants c.payload_len c.shares_received v.members v.shares

length-zero_iff {ℓ} : {A : Type ℓ} (xs : List A) → length xs ≡ 0 → xs ≡ []
length-zero_iff [] h = refl
length-zero_iff (x ∷ xs) h = absurd (omega arith)

-- A share is accepted exactly when its sender is a member of the round that has sent none yet and
-- its length is the announced one; the collector then has it after the others.
pub submit_share_iff :
    (uid share : Bytes) (c c' : RoundCollector)
    → (submit_share uid share c ≡ ok c') ↔ (
        (contains c.participants uid ≡ true)
        × (has_key uid c.shares_received ≡ false)
        × (length share ≡ c.payload_len)
        × (c' ≡ record c { shares_received = c.shares_received ++ (uid, share) ∷ [] }))
unfolding submit_share
submit_share_iff uid share c c' = (
  submit_share_accepted uid share c c',
  λ (member, fresh, len, grown).
      let same : (length share == c.payload_len) ≡ true = ground arith in
      rw (member, fresh, same, grown)
        (ap (λ d. ok (record c { shares_received = d }))
          (insert-fresh uid share c.shares_received fresh)),
)

-- `is_complete` compares two sizes only; in a valid collector it holds exactly when no member's
-- share is missing.
pub is_complete_iff :
    (c : RoundCollector) → IsValid c → (is_complete c ≡ true) ↔ (missing_participants c ≡ [])
unfolding is_complete
is_complete_iff c v = (
  λ full. length-zero_iff _ (ground (arith, missing_participants-shares c v)),
  λ none_left. ground (arith, missing_participants-shares c v, ap length none_left),
)
