-- ===== src/Net/Relay/Rate.antt =====
-- The rate limit of `RelayVerifier::check`.
use chrono_shift.Prelude.{
  ℕ, suc, ◌+◌, ◌≤◌, ◌<◌, ◌≡◌, ◌⊎◌, refl, ap, sym, subst, ◌∙◌, Bool, true, false, none, some, List,
  [], ◌∷◌, is_ok, length, arith, leb, ltb, Bool-cases, inl, inr, All,
}
use chrono_shift.Prelude.Keys.{Bytes, bytes_eq, bytes_beq_iff, ◌=?◌, =?_iff}
use chrono_shift.Prelude.Dict.{Dict, lookup, insert, lookup-insert, length-insert}
use chrono_shift.Net.Relay.{
  RelayVerifier, check, replayed, charge, evict, abs_diff, admit, window, entry_of,
}
use chrono_shift.Net.Relay.Replay.{Request, check_request, check_all, admitted_nonces}

-- A message that is refused for its nonce or its time leaves the table; else the limit decides.
check-rate :
    (key : Bytes) (nonce timestamp now : ℕ) (v : RelayVerifier)
    → ((is_ok (check key nonce timestamp now v).1 ≡ false)
        × ((check key nonce timestamp now v).0.rate ≡ v.rate))
      ⊎ ((is_ok (check key nonce timestamp now v).1 ≡ (admit key now v.rate).1)
          × ((check key nonce timestamp now v).0.rate ≡ (admit key now v.rate).0))
unfolding check
check-rate key nonce timestamp now v = elim (Bool-cases (replayed key nonce v.last_nonce)) [
  | inl old ↦ inl (rw old (refl, refl))
  | inr fresh ↦ elim (Bool-cases (ltb 60 (abs_diff now timestamp))) [
    | inl stale ↦ inl (rw (fresh, stale) (refl, refl))
    | inr timely ↦ elim (Bool-cases (admit key now v.rate).1) [
      | inr limited ↦ inr (rw (fresh, timely, limited) (refl, refl))
      | inl admitted ↦ inr (rw (fresh, timely, admitted) (refl, refl))
    ]
  ]
]

-- A charge writes the entry of its key, and no other.
charge-insert :
    (key : Bytes) (entry : ℕ × ℕ) (table : Dict Bytes (ℕ × ℕ))
    → (written : ℕ × ℕ) × ((charge key entry table).0 ≡ insert key written table)
unfolding charge
charge-insert key (start, count) table = elim (Bool-cases (leb 60 count)) [
  | inl full ↦ ((start, count), rw full refl)
  | inr free ↦ ((start, count + 1), rw free refl)
]

charge-counts :
    (key : Bytes) (start count : ℕ) (table : Dict Bytes (ℕ × ℕ))
    → (((charge key (start, count) table).1 ≡ true)
        × (count < 60)
        × ((charge key (start, count) table).0 ≡ insert key (start, count + 1) table))
      ⊎ (((charge key (start, count) table).1 ≡ false)
          × ((charge key (start, count) table).0 ≡ insert key (start, count) table))
unfolding charge
charge-counts key start count table = elim (Bool-cases (leb 60 count)) [
  | inl full ↦ inr (rw full (refl, refl))
  | inr free ↦ inl (rw free (refl, ground arith, refl))
]

evict-room : (rate : Dict Bytes (ℕ × ℕ)) → length rate < 4096 → evict 4096 rate ≡ rate
evict-room rate room = let small : leb 4096 (length rate) ≡ false = ground arith in rw small refl

admit-charge :
    (key : Bytes) (now : ℕ) (rate : Dict Bytes (ℕ × ℕ))
    → length rate < 4096
    → admit key now rate ≡ charge key (window now (entry_of key now rate)) rate
unfolding admit
admit-charge key now rate room =
    ap (λ table. charge key (window now (entry_of key now table)) table) (evict-room rate room)

admit-insert :
    (key : Bytes) (now : ℕ) (rate : Dict Bytes (ℕ × ℕ))
    → length rate < 4096
    → (written : ℕ × ℕ) × ((admit key now rate).0 ≡ insert key written rate)
admit-insert key now rate room =
    let (written, e) = charge-insert key (window now (entry_of key now rate)) rate in
    (written, ap (λ (p : Dict Bytes (ℕ × ℕ) × Bool). p.0) (admit-charge key now rate room) ∙ e)

-- Within the window, the count of the key goes up by one for each message admitted.
admit-counts :
    (key : Bytes) (now start count : ℕ) (rate : Dict Bytes (ℕ × ℕ))
    → length rate < 4096
    → lookup key rate ≡ some (start, count)
    → abs_diff now start < 60
    → (((admit key now rate).1 ≡ true)
        × (count < 60)
        × ((admit key now rate).0 ≡ insert key (start, count + 1) rate))
      ⊎ (((admit key now rate).1 ≡ false)
          × ((admit key now rate).0 ≡ insert key (start, count) rate))
admit-counts key now start count rate room known near =
    let near' : leb 60 (abs_diff now start) ≡ false = ground arith in
    let entry : window now (entry_of key now rate) ≡ (start, count) =
      ap (λ o. window now (elim o [ none ↦ (now, 0) | some e ↦ e ])) known ∙ rw near' refl in
    subst
      (λ (p : Dict Bytes (ℕ × ℕ) × Bool).
        ((p.1 ≡ true) × (count < 60) × (p.0 ≡ insert key (start, count + 1) rate))
        ⊎ ((p.1 ≡ false) × (p.0 ≡ insert key (start, count) rate)))
      (sym (admit-charge key now rate room ∙ ap (λ e. charge key e rate) entry))
      (charge-counts key start count rate)

-- The number of messages admitted under one key.
abbrev pub admitted_count : Bytes → List Request → List Bool → ℕ
admitted_count key rs answers = length (admitted_nonces key rs answers)

-- A message of the key comes within 60 seconds of the window's start.
abbrev pub InWindow : Bytes → ℕ → Request → Type 0
InWindow key start r = (r.key_hex =? key) ≡ true → abs_diff r.now start < 60

-- Whether a message is admitted under the key.
abbrev Counted : Bytes → Request → RelayVerifier → Type 0
Counted key r v = ((r.key_hex =? key) ≡ true) × (is_ok (check_request r v).1 ≡ true)

abbrev Uncounted : Bytes → Request → RelayVerifier → Type 0
Uncounted key r v = ((r.key_hex =? key) ≡ false) ⊎ (is_ok (check_request r v).1 ≡ false)

-- What one message does to the entry of the key.
Entry : Bytes → ℕ → ℕ → Request → RelayVerifier → Type 0
Entry key start count r v =
    (length (check_request r v).0.rate ≤ suc (length v.rate))
    × ((Counted key r v
          × (count < 60)
          × (lookup key (check_request r v).0.rate ≡ some (start, count + 1)))
        ⊎ (Uncounted key r v × (lookup key (check_request r v).0.rate ≡ some (start, count))))

lookup_own :
    (key k : Bytes) (e : ℕ × ℕ) (d d' : Dict Bytes (ℕ × ℕ))
    → k ≡ key
    → d' ≡ insert k e d
    → lookup key d' ≡ some e
lookup_own key k e d d' same grown =
    ground (arith, ap (lookup key) grown, lookup-insert k key e d, bytes_beq_iff k key)

lookup_other :
    (key k : Bytes) (e : ℕ × ℕ) (d d' : Dict Bytes (ℕ × ℕ))
    → (k =? key) ≡ false
    → d' ≡ insert k e d
    → lookup key d' ≡ lookup key d
lookup_other key k e d d' apart grown =
    ground (arith, ap (lookup key) grown, lookup-insert k key e d)

request-Entry :
    (key : Bytes) (start count : ℕ) (r : Request) (v : RelayVerifier)
    → length v.rate < 4096
    → lookup key v.rate ≡ some (start, count)
    → InWindow key start r
    → Entry key start count r v
unfolding Entry
request-Entry key start count r v room known near =
    elim (check-rate r.key_hex r.nonce r.timestamp r.now v) [
      | inl (refused, same) ↦
          (omega (arith, ap length same), inr (inr refused, ap (lookup key) same ∙ known))
      | inr (answer, changed) ↦ elim (Bool-cases (r.key_hex =? key)) [
        | inr apart ↦
            let (written, e) = admit-insert r.key_hex r.now v.rate room in
            (
              omega (arith, ap length (changed ∙ e), length-insert r.key_hex written v.rate),
              inr (
                inl apart,
                lookup_other key r.key_hex written v.rate _ apart (changed ∙ e) ∙ known,
              ),
            )
        | inl mine ↦
            let is_key = (=?_iff r.key_hex key).0 mine in
            elim (admit-counts r.key_hex r.now start count v.rate room
              (ap (λ k. lookup k v.rate) is_key ∙ known) (near mine)) [
                | inl (admitted, free, e) ↦ (
                  omega (
                    arith,
                    ap length (changed ∙ e),
                    length-insert r.key_hex (start, count + 1) v.rate,
                  ),
                  inl (
                    (mine, answer ∙ admitted),
                    free,
                    lookup_own key r.key_hex (start, count + 1) v.rate _ is_key (changed ∙ e),
                  ),
                )
                | inr (limited, e) ↦ (
                  omega (
                    arith,
                    ap length (changed ∙ e),
                    length-insert r.key_hex (start, count) v.rate,
                  ),
                  inr (
                    inr (answer ∙ limited),
                    lookup_own key r.key_hex (start, count) v.rate _ is_key (changed ∙ e),
                  ),
                )
              ]
      ]
    ]

-- Within the 60 seconds of a window at most 60 messages of one identity key are admitted, those
-- counted before included, whatever comes between them under other keys, as long as the table of
-- rates and the messages together are at most 4096, so that it is not cleared.
pub check_all-rate :
    (key : Bytes) (start count : ℕ) (rs : List Request) (v : RelayVerifier)
    → length v.rate + length rs ≤ 4096
    → lookup key v.rate ≡ some (start, count)
    → count ≤ 60
    → All (InWindow key start) rs
    → count + admitted_count key rs (check_all rs v).1 ≤ 60
unfolding check_all admitted_nonces Entry
check_all-rate key start count [] v room known bounded near = omega arith
check_all-rate key start count (r ∷ rs) v room known bounded near =
    let (grown, entry) = request-Entry key start count r v (omega arith) known near.0 in
    elim entry [
      | inl ((mine, admitted), free, next) ↦
          let rest =
            check_all-rate key start (count + 1) rs (check_request r v).0 (omega arith) next
              (omega arith) near.1 in
          rw (admitted, mine) (omega arith)
      | inr (uncounted, next) ↦
          let rest =
            check_all-rate key start count rs (check_request r v).0 (omega arith) next bounded
              near.1 in
          elim uncounted [ inl apart ↦ ground arith | inr refused ↦ ground arith ]
    ]
