-- ===== src/Storage/Replay.antt =====
-- What was appended is what is replayed.
use mathlib.Core.List.{append_assoc, append-nil}
use chrono_shift.Prelude.{
  ℕ, zero, suc, ◌+◌, ◌≤◌, ◌<◌, ◌≡◌, ◌≢◌, ◌⊎◌, refl, sym, ap, ◌∙◌, subst, true, false, none, some,
  List, [], ◌∷◌, ◌++◌, length, take, ltb, arith, if◌then◌else◌, All, All-map, Bool-cases, inl, inr,
  length-append,
}
use chrono_shift.Prelude.Keys.{Bytes}
use chrono_shift.Prelude.Utf8.{is_utf8}
use chrono_shift.Storage.{
  WalOperation, WalStore, Json, Write, decimal, lines_of, from_brace, log_line, append, op_of,
  ops_of, replay, max_wal_bytes, open_store,
}
use chrono_shift.Storage.Text.{
  IsDigit, IsPlain, decimal-IsDigit, lines_of-line, lines_of-torn, from_brace-behind,
  from_brace-none, is_utf8-behind, All-append, All-take,
}

-- The stamp in front of a line.
abbrev stamp : ℕ → Bytes
stamp ts = 91 ∷ (decimal ts ++ (93 ∷ 32 ∷ []))

stamp-All :
    (P : ℕ → Type 0) (ts : ℕ) → P 91 → P 93 → P 32 → ((b : ℕ) → IsDigit b → P b) → All P (stamp ts)
stamp-All P ts open_bracket close_bracket space digit = (
  open_bracket,
  All-append P (decimal ts) (93 ∷ 32 ∷ [])
      (All-map IsDigit P (decimal ts) digit (decimal-IsDigit ts)) (close_bracket, (space, tt)),
)

-- A list cut off: within the first part, or within the second.
take-append-cases {ℓ} :
    {A : Type ℓ} (n : ℕ) (xs ys : List A)
    → (take n (xs ++ ys) ≡ take n xs)
      ⊎ ((k : ℕ) × (n ≡ length xs + suc k) × (take n (xs ++ ys) ≡ xs ++ take (suc k) ys))
take-append-cases zero xs ys = inl refl
take-append-cases (suc n) [] ys = inr (n, omega arith, refl)
take-append-cases (suc n) (x ∷ xs) ys = elim (take-append-cases n xs ys) [
  | inl within ↦ inl (ap (◌∷◌ x) within)
  | inr (k, size, behind) ↦ inr (k, omega (arith, size), ap (◌∷◌ x) behind)
]

module _ (json : Json) where
  -- A line without its end.
  abbrev body : ℕ → WalOperation → Bytes
  body ts op = stamp ts ++ json.op_to_json op

  log_line-body : (ts : ℕ) (op : WalOperation) → log_line json ts op ≡ body ts op ++ 10 ∷ []
  unfolding log_line
  log_line-body ts op = ap (◌∷◌ 91) (
      sym (append_assoc (decimal ts) (93 ∷ 32 ∷ []) (json.op_to_json op ++ 10 ∷ []))
      ∙ sym (append_assoc (decimal ts ++ (93 ∷ 32 ∷ [])) (json.op_to_json op) (10 ∷ [])))

  body-IsPlain : (ts : ℕ) (op : WalOperation) → All IsPlain (body ts op)
  body-IsPlain ts op =
      All-append IsPlain (stamp ts) (json.op_to_json op)
        (stamp-All IsPlain ts (omega arith) (omega arith) (omega arith) (λ b d. omega arith))
        (json.op_plain op)

  body-is_utf8 : (ts : ℕ) (op : WalOperation) → is_utf8 (body ts op) ≡ true
  body-is_utf8 ts op =
      is_utf8-behind (stamp ts) (json.op_to_json op)
        (stamp-All (λ b. b < 128) ts (omega arith) (omega arith) (omega arith) (λ b d. omega arith))
      ∙ json.op_utf8 op

  stamp_braceless : (ts : ℕ) → All (λ b. b ≢ 123) (stamp ts)
  stamp_braceless ts =
      stamp-All (λ b. b ≢ 123) ts (omega arith) (omega arith) (omega arith) (λ b d. omega arith)

  op_of-body : (ts : ℕ) (op : WalOperation) → op_of json (body ts op) ≡ some op
  unfolding op_of
  op_of-body ts op =
      let (rest, braced) = json.op_braced op in
      let found : from_brace (body ts op) ≡ some (json.op_to_json op) =
        ap (λ text. from_brace (stamp ts ++ text)) braced
        ∙ from_brace-behind (stamp ts) rest (stamp_braceless ts)
        ∙ ap some (sym braced) in
      rw (op_of, found) (json.op_from_json-op_to_json op)

  ops_of-line :
      (ts : ℕ) (op : WalOperation) (more : Bytes)
      → ops_of json (lines_of (log_line json ts op ++ more)) ≡ op ∷ ops_of json (lines_of more)
  unfolding ops_of
  ops_of-line ts op more =
      let split : lines_of (log_line json ts op ++ more) ≡ body ts op ∷ lines_of more =
        ap (λ line. lines_of (line ++ more)) (log_line-body ts op)
        ∙ ap lines_of (append_assoc (body ts op) (10 ∷ []) more)
        ∙ lines_of-line (body ts op) more (body-IsPlain ts op) in
      rw (split, ops_of, body-is_utf8 ts op, op_of-body ts op) refl

  -- A line that was cut off gives nothing.
  op_of-torn :
      (ts : ℕ) (op : WalOperation) (n : ℕ)
      → n < length (body ts op)
      → op_of json (take n (body ts op)) ≡ none
  unfolding op_of
  op_of-torn ts op n short = elim (take-append-cases n (stamp ts) (json.op_to_json op)) [
    | inl within ↦
        let gone : from_brace (take n (body ts op)) ≡ none =
          ap from_brace within
          ∙ from_brace-none (take n (stamp ts))
              (All-take (λ b. b ≢ 123) n (stamp ts) (stamp_braceless ts)) in
        rw (op_of, gone) refl
    | inr (k, size, behind) ↦
        let (rest, braced) = json.op_braced op in
        let first : take (suc k) (json.op_to_json op) ≡ 123 ∷ take k rest =
          ap (take (suc k)) braced in
        let found : from_brace (take n (body ts op)) ≡ some (take (suc k) (json.op_to_json op)) =
          ap from_brace (behind ∙ ap (◌++◌ (stamp ts)) first)
          ∙ from_brace-behind (stamp ts) (take k rest) (stamp_braceless ts)
          ∙ ap some (sym first) in
        rw (op_of, found)
          (json.op_torn op (suc k)
            (omega (arith, length-append (stamp ts) (json.op_to_json op), size)))
  ]

  ops_of-torn :
      (ts : ℕ) (op : WalOperation) (n : ℕ)
      → n < length (body ts op)
      → ops_of json (lines_of (take n (log_line json ts op))) ≡ []
  unfolding ops_of
  ops_of-torn ts op zero short = unfold lines_of in refl
  ops_of-torn ts op (suc n) short =
      let cut = take (suc n) (body ts op) in
      let same : take (suc n) (log_line json ts op) ≡ cut =
        ap (take (suc n)) (log_line-body ts op)
        ∙ take_within (suc n) (body ts op) (10 ∷ []) (omega arith) in
      let alone : lines_of cut ≡ cut ∷ [] =
        lines_of-torn 91 (take n (decimal ts ++ (93 ∷ 32 ∷ []) ++ json.op_to_json op))
          (All-take IsPlain (suc n) (body ts op) (body-IsPlain ts op)) in
      let nothing = op_of-torn ts op (suc n) short in
      elim (Bool-cases (is_utf8 cut)) [
        | inl text ↦ rw (same, alone, ops_of, text, nothing) refl
        | inr junk ↦ rw (same, alone, ops_of, junk) refl
      ]
    where
      take_within : (n : ℕ) (xs ys : Bytes) → n ≤ length xs → take n (xs ++ ys) ≡ take n xs
      take_within zero xs ys h = refl
      take_within (suc n) [] ys h = absurd (omega arith)
      take_within (suc n) (x ∷ xs) ys h = ap (◌∷◌ x) (take_within n xs ys (omega arith))

  -- The log holds these operations, whatever is written behind it.
  abbrev pub Logged : Bytes → List WalOperation → Type 0
  Logged log ops =
      (more : Bytes) → ops_of json (lines_of (log ++ more)) ≡ ops ++ ops_of json (lines_of more)

  pub Logged-log_line :
      (log : Bytes) (ops : List WalOperation) (ts : ℕ) (op : WalOperation)
      → Logged log ops
      → Logged (log ++ log_line json ts op) (ops ++ op ∷ [])
  Logged-log_line log ops ts op logged more =
      ap (λ text. ops_of json (lines_of text)) (append_assoc log (log_line json ts op) more)
      ∙ logged (log_line json ts op ++ more)
      ∙ ap (◌++◌ ops) (ops_of-line ts op more)
      ∙ sym (append_assoc ops (op ∷ []) (ops_of json (lines_of more)))

  ops_of-nil : ops_of json (lines_of []) ≡ []
  unfolding ops_of lines_of
  ops_of-nil = refl

  pub replay-Logged :
      (wal : WalStore) (ops : List WalOperation)
      → length wal.log ≤ max_wal_bytes
      → Logged wal.log ops
      → replay json wal ≡ ops
  unfolding replay
  replay-Logged wal ops small logged =
      let fits : ltb max_wal_bytes (length wal.log) ≡ false = ground arith in
      rw (replay, fits)
        (ap (λ text. ops_of json (lines_of text)) (sym (append-nil wal.log))
          ∙ logged []
          ∙ ap (◌++◌ ops) ops_of-nil
          ∙ append-nil ops)

  unfoldable pub append_all : List (ℕ × WalOperation) → WalStore → WalStore
  append_all [] wal = wal
  append_all ((ts, op) ∷ es) wal = append_all es (append json ts Write.whole op wal).1

  abbrev pub operations : List (ℕ × WalOperation) → List WalOperation
  operations [] = []
  operations ((ts, op) ∷ es) = op ∷ operations es

  append_all-Logged :
      (es : List (ℕ × WalOperation)) (wal : WalStore) (ops : List WalOperation)
      → Logged wal.log ops
      → Logged (append_all es wal).log (ops ++ operations es)
  unfolding append_all append
  append_all-Logged [] wal ops logged = subst (Logged wal.log) (sym (append-nil ops)) logged
  append_all-Logged ((ts, op) ∷ es) wal ops logged =
      subst (Logged (append_all es (append json ts Write.whole op wal).1).log)
        (append_assoc ops (op ∷ []) (operations es))
        (append_all-Logged es (append json ts Write.whole op wal).1 (ops ++ op ∷ [])
          (Logged-log_line wal.log ops ts op logged))

  -- All operations that were appended to a new log are replayed, in order, with whatever stamps,
  -- and a write that a crash cuts off in the middle of a line, of however many bytes, changes
  -- nothing of that: as long as the log stays within the limit of its size.
  pub replay-append_all :
      (es : List (ℕ × WalOperation)) (now checkpoint_ops ts n : ℕ) (op : WalOperation)
      → n + 1 < length (log_line json ts op)
      → length (append_all es (open_store now checkpoint_ops [] none)).log + n ≤ max_wal_bytes
      → (replay json (append_all es (open_store now checkpoint_ops [] none)) ≡ operations es)
        × (replay json
              (append json ts
                (Write.partial n)
                op
                (append_all es (open_store now checkpoint_ops [] none))).1
            ≡ operations es)
  unfolding append
  replay-append_all es now checkpoint_ops ts n op short small =
      let wal = append_all es (open_store now checkpoint_ops [] none) in
      let logged : Logged wal.log (operations es) =
        append_all-Logged es (open_store now checkpoint_ops [] none) [] (λ more. refl) in
      let torn = take n (log_line json ts op) in
      let cut : n < length (body ts op) =
        omega (arith, ap length (log_line-body ts op), length-append (body ts op) (10 ∷ [])) in
      let size : length torn ≤ n = length_take n (log_line json ts op) in
      let fits : ltb max_wal_bytes (length (wal.log ++ torn)) ≡ false =
        ground (arith, length-append wal.log torn, size) in
      (
        replay-Logged wal (operations es) (omega arith) logged,
        replay_text (record wal { log = wal.log ++ torn }) fits
            ∙ logged torn
            ∙ ap (◌++◌ (operations es)) (ops_of-torn ts op n cut)
            ∙ append-nil (operations es),
      )
    where
      length_take : (n : ℕ) (xs : Bytes) → length (take n xs) ≤ n
      length_take zero xs = omega arith
      length_take (suc n) [] = omega arith
      length_take (suc n) (x ∷ xs) = omega (arith, length_take n xs)

      replay_text :
          (w : WalStore)
          → ltb max_wal_bytes (length w.log) ≡ false
          → replay json w ≡ ops_of json (lines_of w.log)
      replay_text w fits =
          unfold replay in ap (λ b. if b then [] else ops_of json (lines_of w.log)) fits
