-- ===== src/Dcnet/Reputation/Judged.antt =====
-- A round of a `ReputationManager` as the verdicts of `judge`, peer by peer.
use chrono_shift.Prelude.{
  ℕ, ◌≡◌, refl, sym, ap, ap₂, ◌∙◌, Bool, true, false, none, some, List, [], ◌∷◌, arith,
  if◌then◌else◌, Bool-cases, Option-cases, inl, inr,
}
use chrono_shift.Prelude.Keys.{Bytes, ◌=?◌, =?_iff, bytes_eq, contains, contains_head, Distinct}
use chrono_shift.Prelude.Dict.{lookup, insert, lookup-insert}
use chrono_shift.Dcnet.Reputation.{
  Reputation, Peers, new_reputation, get_or_create, judge, process_round,
}

-- The entry of a peer, new or known.
abbrev pub entry : ℕ → Peers → Bytes → Reputation
entry now peers pid = elim (lookup pid peers) [ none ↦ new_reputation now pid | some r ↦ r ]

get_or_create-entry :
    (now : ℕ) (pid q : Bytes) (peers : Peers) (r : Reputation)
    → ((get_or_create now pid peers).0 ≡ entry now peers pid)
      × (lookup q (insert pid r (get_or_create now pid peers).1)
          ≡ (if pid =? q then some r else lookup q peers))
unfolding get_or_create
get_or_create-entry now pid q peers r = elim (Option-cases (lookup pid peers)) [
  | inr (known, found) ↦
      rw (get_or_create, found)
        (
          ap (λ o. elim o [ none ↦ new_reputation now pid | some x ↦ x ]) (sym found),
          lookup-insert pid q r peers,
        )
  | inl new ↦
      let fresh = new_reputation now pid in
      rw (get_or_create, new)
        (
          ap (λ o. elim o [ none ↦ fresh | some x ↦ x ]) (sym new),
          ground (
            arith,
            lookup-insert pid q r (insert pid fresh peers),
            lookup-insert pid q fresh peers,
          ),
        )
]

-- Who is named, judged each by its entry before the round.
abbrev pub named_of : ℕ → List Bytes → List Bytes → ℕ → (Bytes → Reputation) → List Bytes
named_of now responded [] round_pct before = []
named_of now responded (pid ∷ all) round_pct before =
    let rest = named_of now responded all round_pct before in
    if (judge responded round_pct pid (before pid)).0 then pid ∷ rest else rest

named_of_ext :
    (now : ℕ) (responded all : List Bytes) (round_pct : ℕ) (f g : Bytes → Reputation)
    → ((q : Bytes) → contains all q ≡ true → f q ≡ g q)
    → named_of now responded all round_pct f ≡ named_of now responded all round_pct g
named_of_ext now responded [] round_pct f g same = refl
named_of_ext now responded (pid ∷ all) round_pct f g same =
    ap₂
      (λ (r : Reputation) (rest : List Bytes).
        if (judge responded round_pct pid r).0 then pid ∷ rest else rest)
      (same pid (contains_head pid all))
      (named_of_ext now responded all round_pct f g (λ q h. same q (ground arith)))

-- Those who pass a test, in order.
abbrev pub those : (Bytes → Bool) → List Bytes → List Bytes
those test [] = []
those test (pid ∷ all) = let rest = those test all in if test pid then pid ∷ rest else rest

pub named_of-those :
    (now : ℕ) (responded all : List Bytes) (round_pct : ℕ) (f : Bytes → Reputation)
    → named_of now responded all round_pct f
      ≡ those (λ q. (judge responded round_pct q (f q)).0) all
named_of-those now responded [] round_pct f = refl
named_of-those now responded (pid ∷ all) round_pct f =
    ap (λ rest. if (judge responded round_pct pid (f pid)).0 then pid ∷ rest else rest)
      (named_of-those now responded all round_pct f)

-- The members are judged one by one, each by its own entry, a new one where there was none.
pub process_round-judge :
    (now : ℕ) (responded all : List Bytes) (round_pct : ℕ) (peers : Peers)
    → Distinct all
    → ((process_round now responded all round_pct peers).0
        ≡ named_of now responded all round_pct (entry now peers))
      × ((q : Bytes)
          → lookup q (process_round now responded all round_pct peers).1 ≡ (
              if contains all q
              then some (judge responded round_pct q (entry now peers q)).1
              else lookup q peers))
unfolding process_round
process_round-judge now responded [] round_pct peers d = (refl, λ q. refl)
process_round-judge now responded (pid ∷ all) round_pct peers d =
    let rep = (get_or_create now pid peers).0 in
    let known = (get_or_create now pid peers).1 in
    let rep' = (judge responded round_pct pid rep).1 in
    let here = λ (q : Bytes). get_or_create-entry now pid q peers rep' in
    let (named, looked) =
      process_round-judge now responded all round_pct (insert pid rep' known) d.1 in
    let same_entry : (q : Bytes)
        → contains all q ≡ true
        → entry now (insert pid rep' known) q ≡ entry now peers q =
      λ q inside.
        let other : (pid =? q) ≡ false = elim (Bool-cases (pid =? q)) [
          | inr away ↦ away
          | inl same ↦ cc (d.0, inside, ap (contains all) ((=?_iff pid q).0 same))
        ] in
        ap (λ o. elim o [ none ↦ new_reputation now q | some r ↦ r ])
          ((here q).1 ∙ ap (λ b. if b then some rep' else lookup q peers) other) in
    (
      ap₂ (λ (b : Bool) (rest : List Bytes). if b then pid ∷ rest else rest)
          (ap (λ r. (judge responded round_pct pid r).0) (here pid).0)
          (named
            ∙ named_of_ext now responded all round_pct (entry now (insert pid rep' known))
                (entry now peers) same_entry),
      λ q. looked q ∙ elim (Bool-cases (pid =? q)) [
        | inl same ↦
            let e : pid ≡ q = (=?_iff pid q).0 same in
            let absent : contains all q ≡ false = ap (contains all) (sym e) ∙ d.0 in
            let value : rep' ≡ (judge responded round_pct q (entry now peers q)).1 =
              ap (λ r. (judge responded round_pct pid r).1) (here pid).0
              ∙ ap (λ k. (judge responded round_pct k (entry now peers k)).1) e in
            rw (same, absent)
              ((here q).1 ∙ ap (λ b. if b then some rep' else lookup q peers) same ∙ ap some value)
        | inr other ↦ elim (Bool-cases (contains all q)) [
          | inl inside ↦
              rw (other, inside)
                (ap (λ r. some (judge responded round_pct q r).1) (same_entry q inside))
          | inr outside ↦
              rw (other, outside)
                ((here q).1 ∙ ap (λ b. if b then some rep' else lookup q peers) other)
        ]
      ],
    )
