-- ===== src/Net/Relay/Replay.antt =====
-- The nonces that `RelayVerifier::check` accepts.
use chrono_shift.Prelude.{
  ℕ, suc, ◌+◌, ◌≤◌, ◌<◌, ◌≡◌, ◌⊎◌, refl, ap, subst, ◌∙◌, Bool, true, false, Option, none, some,
  List, [], ◌∷◌, Result, is_ok, length, arith, leb, ltb, if◌then◌else◌, Bool-cases, inl, inr,
}
use chrono_shift.Prelude.Keys.{Bytes, bytes_eq, ◌=?◌, =?_iff}
use chrono_shift.Prelude.Dict.{lookup, insert, lookup-insert, length-insert}
use chrono_shift.Net.Relay.{RelayVerifier, RelayError, check, replayed, abs_diff, admit}

-- One message that asks for admission, and the time at which it does.
pub record Request : Type 0 where
  pub key_hex : Bytes
  pub nonce : ℕ
  pub timestamp : ℕ
  pub now : ℕ

abbrev pub check_request : Request → RelayVerifier → RelayVerifier × Result (Unit {0}) RelayError
check_request r v = check r.key_hex r.nonce r.timestamp r.now v

-- The messages in the order in which they come, and which of them are admitted.
unfoldable pub check_all : List Request → RelayVerifier → RelayVerifier × List Bool
check_all [] v = (v, [])
check_all (r ∷ rs) v =
    let (v', answer) = check_request r v in
    let (v'', rest) = check_all rs v' in (v'', is_ok answer ∷ rest)

-- The nonces admitted under one key.
unfoldable pub admitted_nonces : Bytes → List Request → List Bool → List ℕ
admitted_nonces key [] answers = []
admitted_nonces key (r ∷ rs) [] = []
admitted_nonces key (r ∷ rs) (answer ∷ answers) =
    let rest = admitted_nonces key rs answers in
    if answer then (if r.key_hex =? key then r.nonce ∷ rest else rest) else rest

-- Above the bound, and each above the one before.
abbrev pub Increasing : Option ℕ → List ℕ → Type 0
Increasing bound [] = Unit {0}
Increasing none (x ∷ xs) = Increasing (some x) xs
Increasing (some b) (x ∷ xs) = (b < x) × Increasing (some x) xs

-- What `check` does to the nonces.
check-cases :
    (key : Bytes) (nonce timestamp now : ℕ) (v : RelayVerifier)
    → length v.last_nonce < 4096
    → ((is_ok (check key nonce timestamp now v).1 ≡ false)
        × ((check key nonce timestamp now v).0.last_nonce ≡ v.last_nonce))
      ⊎ ((is_ok (check key nonce timestamp now v).1 ≡ true)
          × (replayed key nonce v.last_nonce ≡ false)
          × ((check key nonce timestamp now v).0.last_nonce ≡ insert key nonce v.last_nonce))
unfolding check
check-cases key nonce timestamp now v room = elim (Bool-cases (replayed key nonce v.last_nonce)) [
  | inl old ↦ inl (rw old (refl, refl))
  | inr fresh ↦ elim (Bool-cases (ltb 60 (abs_diff now timestamp))) [
    | inl stale ↦ inl (rw (fresh, stale) (refl, refl))
    | inr timely ↦ elim (Bool-cases (admit key now v.rate).1) [
      | inr limited ↦ inl (rw (fresh, timely, limited) (refl, refl))
      | inl admitted ↦
          let small : leb 4096 (length v.last_nonce) ≡ false = ground arith in
          inr (rw (fresh, timely, admitted, small) (refl, refl, refl))
    ]
  ]
]

-- The bound that the next nonce is above.
Increasing-cons :
    (bound : Option ℕ) (x : ℕ) (xs : List ℕ)
    → (elim bound [ none ↦ false | some last ↦ leb x last ]) ≡ false
    → Increasing (some x) xs
    → Increasing bound (x ∷ xs)
Increasing-cons none x xs above rest = rest
Increasing-cons (some b) x xs above rest = (ground arith, rest)

check_all_step :
    (key : Bytes) (r : Request) (rs : List Request) (v : RelayVerifier)
    → length v.last_nonce < 4096
    → ((v' : RelayVerifier)
        → length v'.last_nonce ≤ suc (length v.last_nonce)
        → Increasing (lookup key v'.last_nonce) (admitted_nonces key rs (check_all rs v').1))
    → Increasing (lookup key v.last_nonce) (admitted_nonces key (r ∷ rs) (check_all (r ∷ rs) v).1)
unfolding check_all admitted_nonces
check_all_step key r rs v room later =
    elim (check-cases r.key_hex r.nonce r.timestamp r.now v room) [
      | inl (refused, same) ↦ rw refused (
          subst (λ d. Increasing (lookup key d) (admitted_nonces key rs (check_all rs v').1)) same
            (later v' (omega (arith, ap length same))))
      | inr (accepted, fresh, grown) ↦
          let rest =
            later v'
              (omega (arith, ap length grown, length-insert r.key_hex r.nonce v.last_nonce)) in
          let seen = ap (lookup key) grown ∙ lookup-insert r.key_hex key r.nonce v.last_nonce in
          elim (Bool-cases (r.key_hex =? key)) [
            | inl mine ↦
                let now_known : lookup key v'.last_nonce ≡ some r.nonce =
                  seen ∙ ap (λ b. if b then some r.nonce else lookup key v.last_nonce) mine in
                rw (accepted, mine)
                  (Increasing-cons (lookup key v.last_nonce) r.nonce _
                    (subst (λ k. replayed k r.nonce v.last_nonce ≡ false)
                      ((=?_iff r.key_hex key).0 mine) fresh)
                    (subst (λ o. Increasing o (admitted_nonces key rs (check_all rs v').1))
                      now_known rest))
            | inr other ↦
                let unchanged : lookup key v'.last_nonce ≡ lookup key v.last_nonce =
                  seen ∙ ap (λ b. if b then some r.nonce else lookup key v.last_nonce) other in
                rw (accepted, other)
                  (subst (λ o. Increasing o (admitted_nonces key rs (check_all rs v').1)) unchanged
                    rest)
          ]
    ]
  where
    v' : RelayVerifier
    v' = (check_request r v).0

-- Of any sequence of messages, of any senders and at any times, the nonces admitted under one key
-- increase strictly, from above the last one known, so that no message is admitted twice: as long
-- as the table of nonces and the messages together are at most 4096, so that it is not cleared.
pub check_all-Increasing :
    (key : Bytes) (rs : List Request) (v : RelayVerifier)
    → length v.last_nonce + length rs ≤ 4096
    → Increasing (lookup key v.last_nonce) (admitted_nonces key rs (check_all rs v).1)
unfolding check_all admitted_nonces
check_all-Increasing key [] v room = tt
check_all-Increasing key (r ∷ rs) v room =
    check_all_step key r rs v (omega arith)
      (λ v' grown. check_all-Increasing key rs v' (omega arith))
