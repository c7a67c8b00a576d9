-- ===== src/Dcnet/Driver/Runs.antt =====
-- Runs of dcnet/round_driver.rs: messages as they come from the network.
use chrono_shift.Prelude.{ℕ, ◌≡◌, subst, true, false, List, [], ◌∷◌, arith, inl, inr, Bool-cases}
use chrono_shift.Prelude.Keys.{nat_eq, ◌=?◌, =?_iff, contains, contains_head, Distinct}
use chrono_shift.Primitives.{Hash, Kdf, Signer}
use chrono_shift.Net.Message.{PeerMessage}
use chrono_shift.Dcnet.Driver.{RoundContext, RoundDriver, ExtractedMessage}
use chrono_shift.Dcnet.Driver.Handlers.{handle}
use chrono_shift.Dcnet.Driver.Emitted.{handle-Emits}

-- A message, with the time and the keys when it is handled.
pub record Event : Type 0 where
  pub now : ℕ
  pub ctx : RoundContext
  pub msg : PeerMessage

-- The ids of the rounds whose text a call gives out, before those of later calls.
abbrev pub ids_then : List ExtractedMessage → List ℕ → List ℕ
ids_then [] rest = rest
ids_then (e ∷ es) rest = e.round_id ∷ ids_then es rest

-- A new id in front of fresh ones.
cons-fresh :
    (x : ℕ) (ids known : List ℕ)
    → Distinct ids
    → contains known x ≡ false
    → ((id : ℕ) → contains ids id ≡ true → contains (x ∷ known) id ≡ false)
    → Distinct (x ∷ ids) × ((id : ℕ) → contains (x ∷ ids) id ≡ true → contains known id ≡ false)
cons-fresh x ids known distinct unknown later = (
  (absent, distinct),
  λ id m. elim (Bool-cases (x =? id)) [
    | inl same ↦ subst (λ (k : ℕ). contains known k ≡ false) ((=?_iff x id).0 same) unknown
    | inr other ↦ elim (Bool-cases (contains ids id)) [
      | inl inside ↦ let l = later id inside in ground arith
      | inr outside ↦ ground arith
    ]
  ],
)
  where
    absent : contains ids x ≡ false
    absent = elim (Bool-cases (contains ids x)) [
      | inl inside ↦ cc (later x inside, contains_head x known)
      | inr outside ↦ outside
    ]

module _ (h : Hash) (kdf : Kdf) (signer : Signer) where
  -- All messages in order: the driver, and the ids of the rounds whose texts were given out.
  unfoldable pub handle_all : List Event → RoundDriver → RoundDriver × List ℕ
  handle_all [] d = (d, [])
  handle_all (e ∷ es) d =
      let (d', action) = handle h kdf signer e.now e.ctx e.msg d in
      let (d'', rest) = handle_all es d' in (d'', ids_then action.extracted rest)

  -- Whatever messages come, in whatever order, with whatever repetitions and at whatever times, the
  -- text of a round is given out at most once, and never for a round that had given out one before.
  pub handle_all-Distinct :
      (es : List Event) (d : RoundDriver)
      → Distinct (handle_all es d).1
        × ((id : ℕ) → contains (handle_all es d).1 id ≡ true → contains d.emitted id ≡ false)
  unfolding handle_all
  handle_all-Distinct [] d = (tt, λ id m. cc)
  handle_all-Distinct (e ∷ es) d =
      let d' = (handle h kdf signer e.now e.ctx e.msg d).0 in
      let (distinct, fresh) = handle_all-Distinct es d' in
      elim (handle-Emits h kdf signer e.now e.ctx e.msg d) [
        | inl (nothing, same) ↦
            rw nothing
              (distinct, λ id m. subst (λ known. contains known id ≡ false) same (fresh id m))
        | inr (x, one, unknown, recorded) ↦
            let later : (id : ℕ)
                → contains (handle_all es d').1 id ≡ true
                → contains (x.round_id ∷ d.emitted) id ≡ false =
              λ id m. subst (λ known. contains known id ≡ false) recorded (fresh id m) in
            rw one (cons-fresh x.round_id (handle_all es d').1 d.emitted distinct unknown later)
      ]
