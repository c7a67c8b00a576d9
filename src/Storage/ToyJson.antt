-- ===== src/Storage/ToyJson.antt =====
-- An instance of `Json`, in which numbers are written as so many letters.
use mathlib.Core.List.{append_assoc}
use chrono_shift.Prelude.{
  ℕ, zero, suc, ◌+◌, ◌≤◌, ◌<◌, ◌≡◌, ◌≢◌, refl, ap, ◌∙◌, true, Option, none, some, List, [], ◌∷◌,
  ◌++◌, length, take, drop, replicate, ◌==◌, arith, if◌then◌else◌, All, take-append, drop-append,
  length-append,
}
use chrono_shift.Prelude.Keys.{Bytes}
use chrono_shift.Prelude.Utf8.{is_utf8}
use chrono_shift.Storage.{WalOperation, Json}
use chrono_shift.Storage.Text.{is_utf8-behind, All-append, All-take}

-- A field with its length in front.
abbrev field : Bytes → List ℕ → List ℕ
field b rest = length b ∷ (b ++ rest)

unfoldable pub numbers : WalOperation → List ℕ
numbers (WalOperation.add_friend uid addr trust) = 0 ∷ field uid (field addr (trust ∷ []))
numbers (WalOperation.remove_friend uid) = 1 ∷ field uid []
numbers (WalOperation.update_trust uid trust) = 2 ∷ field uid (trust ∷ [])
numbers (WalOperation.create_channel name) = 3 ∷ field name []
numbers (WalOperation.join_channel channel uid) = 4 ∷ field channel (field uid [])
numbers (WalOperation.leave_channel channel uid) = 5 ∷ field channel (field uid [])
numbers (WalOperation.create_network name admin) = 6 ∷ field name (field admin [])
numbers (WalOperation.add_member network uid) = 7 ∷ field network (field uid [])
numbers (WalOperation.remove_member network uid) = 8 ∷ field network (field uid [])
numbers (WalOperation.set_uid uid) = 9 ∷ field uid []
numbers (WalOperation.update_edge_key uid key_hex) = 10 ∷ field uid (field key_hex [])
numbers (WalOperation.send_message sender receiver text) =
    11 ∷ field sender (field receiver (field text []))

-- The first field and the rest.
abbrev head_field : List ℕ → Bytes × List ℕ
head_field [] = ([], [])
head_field (n ∷ ns) = (take n ns, drop n ns)

abbrev first_number : List ℕ → ℕ
first_number [] = 0
first_number (n ∷ ns) = n

unfoldable pub operation : List ℕ → Option WalOperation
operation [] = none
operation (tag ∷ ns) =
    let (a, more) = head_field ns in
    let (b, last) = head_field more in
    let (c, end) = head_field last in
    if tag == 0
    then some (WalOperation.add_friend a b (first_number last))
    else if tag == 1
    then some (WalOperation.remove_friend a)
    else if tag == 2
    then some (WalOperation.update_trust a (first_number more))
    else if tag == 3
    then some (WalOperation.create_channel a)
    else if tag == 4
    then some (WalOperation.join_channel a b)
    else if tag == 5
    then some (WalOperation.leave_channel a b)
    else if tag == 6
    then some (WalOperation.create_network a b)
    else if tag == 7
    then some (WalOperation.add_member a b)
    else if tag == 8
    then some (WalOperation.remove_member a b)
    else if tag == 9
    then some (WalOperation.set_uid a)
    else if tag == 10
    then some (WalOperation.update_edge_key a b)
    else some (WalOperation.send_message a b c)

operation-numbers : (op : WalOperation) → operation (numbers op) ≡ some op
unfolding operation numbers
operation-numbers (WalOperation.add_friend uid addr trust) =
    rw
      (
        take-append uid (field addr (trust ∷ [])),
        drop-append uid (field addr (trust ∷ [])),
        take-append addr (trust ∷ []),
        drop-append addr (trust ∷ []),
      )
      refl
operation-numbers (WalOperation.remove_friend uid) = rw (take-append uid []) refl
operation-numbers (WalOperation.update_trust uid trust) =
    rw (take-append uid (trust ∷ []), drop-append uid (trust ∷ [])) refl
operation-numbers (WalOperation.create_channel name) = rw (take-append name []) refl
operation-numbers (WalOperation.join_channel a b) =
    rw (take-append a (field b []), drop-append a (field b []), take-append b []) refl
operation-numbers (WalOperation.leave_channel a b) =
    rw (take-append a (field b []), drop-append a (field b []), take-append b []) refl
operation-numbers (WalOperation.create_network a b) =
    rw (take-append a (field b []), drop-append a (field b []), take-append b []) refl
operation-numbers (WalOperation.add_member a b) =
    rw (take-append a (field b []), drop-append a (field b []), take-append b []) refl
operation-numbers (WalOperation.remove_member a b) =
    rw (take-append a (field b []), drop-append a (field b []), take-append b []) refl
operation-numbers (WalOperation.set_uid uid) = rw (take-append uid []) refl
operation-numbers (WalOperation.update_edge_key a b) =
    rw (take-append a (field b []), drop-append a (field b []), take-append b []) refl
operation-numbers (WalOperation.send_message a b c) =
    rw
      (
        take-append a (field b (field c [])),
        drop-append a (field b (field c [])),
        take-append b (field c []),
        drop-append b (field c []),
        take-append c [],
      )
      refl

-- A number is so many letters "a" and a "b".
unfoldable pub letters : List ℕ → Bytes
letters [] = []
letters (n ∷ ns) = replicate n 97 ++ 98 ∷ letters ns

-- Up to the brace that closes.
unfoldable pub read_letters : ℕ → Bytes → Option (List ℕ)
read_letters n [] = none
read_letters n (b ∷ bs) =
    let one_more = read_letters (n + 1) bs in
    let next = read_letters 0 bs in
    if b == 97
    then one_more
    else if b == 98
    then elim next [ none ↦ none | some ns ↦ some (n ∷ ns) ]
    else if b == 125
    then some []
    else none

read_letters-replicate :
    (k n : ℕ) (rest : Bytes) → read_letters n (replicate k 97 ++ rest) ≡ read_letters (n + k) rest
unfolding read_letters
read_letters-replicate zero n rest =
    ap (λ (m : ℕ). read_letters m rest) {x = n} {y = n + 0} (omega arith)
read_letters-replicate (suc k) n rest =
    read_letters-replicate k (n + 1) rest
    ∙ ap (λ (m : ℕ). read_letters m rest) {x = n + 1 + k} {y = n + suc k} (omega arith)

read_letters-letters : (ns : List ℕ) → read_letters 0 (letters ns ++ 125 ∷ []) ≡ some ns
unfolding read_letters letters
read_letters-letters [] = refl
read_letters-letters (n ∷ ns) =
    ap (read_letters 0) (append_assoc (replicate n 97) (98 ∷ letters ns) (125 ∷ []))
    ∙ read_letters-replicate n 0 (98 ∷ (letters ns ++ 125 ∷ []))
    ∙ ap (λ (m : ℕ). read_letters m (98 ∷ (letters ns ++ 125 ∷ []))) {x = 0 + n} {y = n}
        (omega arith)
    ∙ ap (λ (o : Option (List ℕ)). elim o [ none ↦ none | some ms ↦ some (n ∷ ms) ])
        (read_letters-letters ns)

read_letters-open : (bs : Bytes) (n : ℕ) → All (λ b. b ≢ 125) bs → read_letters n bs ≡ none
unfolding read_letters
read_letters-open [] n all = refl
read_letters-open (b ∷ bs) n all =
    ground (arith, read_letters-open bs (n + 1) all.1, read_letters-open bs 0 all.1, all.0)

IsLetter : ℕ → Type 0
IsLetter b = (97 ≤ b) × (b ≤ 98)

letters-All : (P : ℕ → Type 0) → P 97 → P 98 → (ns : List ℕ) → All P (letters ns)
unfolding letters
letters-All P a b [] = tt
letters-All P a b (n ∷ ns) =
    All-append P (replicate n 97) (98 ∷ letters ns) (copies n) (b, letters-All P a b ns)
  where
    copies : (k : ℕ) → All P (replicate k 97)
    copies zero = tt
    copies (suc k) = (a, copies k)

unfoldable pub to_json : WalOperation → Bytes
to_json op = 123 ∷ (letters (numbers op) ++ 125 ∷ [])

unfoldable pub from_text : Bytes → Option WalOperation
unfolding read_letters operation
from_text [] = none
from_text (b ∷ bs) = elim (read_letters 0 bs) [ none ↦ none | some ns ↦ operation ns ]

pub from_text-to_json : (op : WalOperation) → from_text (to_json op) ≡ some op
unfolding to_json from_text
from_text-to_json op =
    ap (λ o. elim o [ none ↦ none | some ns ↦ operation ns ]) (read_letters-letters (numbers op))
    ∙ operation-numbers op

pub to_json_torn :
    (op : WalOperation) (n : ℕ) → n < length (to_json op) → from_text (take n (to_json op)) ≡ none
unfolding to_json from_text
to_json_torn op zero short = refl
to_json_torn op (suc n) short =
    ap (λ o. elim o [ none ↦ none | some ns ↦ operation ns ])
      (ap (read_letters 0) (
          within n (letters (numbers op)) (125 ∷ [])
            (omega (arith, length-append (letters (numbers op)) (125 ∷ []))))
        ∙ read_letters-open (take n (letters (numbers op))) 0 (
            All-take (λ b. b ≢ 125) n (letters (numbers op))
              (letters-All (λ b. b ≢ 125) (omega arith) (omega arith) (numbers op))))
  where
    within : (n : ℕ) (xs ys : Bytes) → n ≤ length xs → take n (xs ++ ys) ≡ take n xs
    within zero xs ys h = refl
    within (suc n) [] ys h = absurd (omega arith)
    within (suc n) (x ∷ xs) ys h = ap (◌∷◌ x) (within n xs ys (omega arith))

pub to_json_utf8 : (op : WalOperation) → is_utf8 (to_json op) ≡ true
unfolding to_json
to_json_utf8 op =
    is_utf8-behind (123 ∷ letters (numbers op)) (125 ∷ [])
      (omega arith, letters-All (λ b. b < 128) (omega arith) (omega arith) (numbers op))
    ∙ unfold is_utf8 in refl

pub to_json_plain : (op : WalOperation) → All (λ b. 32 ≤ b) (to_json op)
unfolding to_json
to_json_plain op =
    All-append (λ b. 32 ≤ b) (123 ∷ letters (numbers op)) (125 ∷ [])
      (omega arith, letters-All (λ b. 32 ≤ b) (omega arith) (omega arith) (numbers op))
      (omega arith, tt)

unfoldable pub toy_json : Json
unfolding to_json from_text letters numbers read_letters operation
toy_json = record {
  op_to_json = to_json;
  op_from_json = from_text;
  op_from_json-op_to_json = from_text-to_json;
  op_braced = λ op. (letters (numbers op) ++ 125 ∷ [], refl);
  op_plain = to_json_plain;
  op_utf8 = to_json_utf8;
  op_torn = to_json_torn;
}
