-- ===== src/Storage.antt =====
-- storage.rs: the write-ahead log of the social state, and its checkpoints. The disk is two files,
-- the log and the last snapshot, which is held as the value that is read back; what a write comes to is
-- an argument, and so is the clock. The JSON of an operation is a parameter.
pub mod Text
pub mod Replay
pub mod ToyJson
mod Tests
use chrono_shift.Prelude.{
  ℕ, zero, suc, ◌+◌, ◌-◌, ◌*◌, ◌/◌, ◌%◌, ◌≤◌, ◌<◌, ◌≡◌, Bool, true, false, ◌&&◌, ◌||◌, Option, none,
  some, List, [], ◌∷◌, ◌++◌, length, take, leb, ltb, ◌==◌, if◌then◌else◌, All,
}
use chrono_shift.Prelude.Keys.{Bytes}
use chrono_shift.Prelude.Utf8.{is_utf8}

pub data WalOperation : Type 0 where
  add_friend : (uid addr : Bytes) (trust : ℕ) → WalOperation
  remove_friend : (uid : Bytes) → WalOperation
  update_trust : (uid : Bytes) (trust : ℕ) → WalOperation
  create_channel : (name : Bytes) → WalOperation
  join_channel : (channel uid : Bytes) → WalOperation
  leave_channel : (channel uid : Bytes) → WalOperation
  create_network : (name admin : Bytes) → WalOperation
  add_member : (network uid : Bytes) → WalOperation
  remove_member : (network uid : Bytes) → WalOperation
  set_uid : (uid : Bytes) → WalOperation
  update_edge_key : (uid key_hex : Bytes) → WalOperation
  send_message : (sender receiver text : Bytes) → WalOperation

pub record FriendRecord : Type 0 where
  pub uid : Bytes
  pub addr : Bytes
  pub trust : ℕ
  pub edge_key_hex : Option Bytes

pub record ChannelRecord : Type 0 where
  pub name : Bytes
  pub topic : Bytes
  pub participants : List Bytes

pub record SocialSnapshot : Type 0 where
  pub uid : Bytes
  pub friends : List FriendRecord
  pub channels : List ChannelRecord

-- `serde_json::to_string` and `from_str`: an object in one line of UTF-8, without control
-- characters, from which the value is read back, and of which no part cut off at the end is valid.
pub record Json : Type 0 where
  pub op_to_json : WalOperation → Bytes
  pub op_from_json : Bytes → Option WalOperation
  pub op_from_json-op_to_json : (op : WalOperation) → op_from_json (op_to_json op) ≡ some op
  pub op_braced : (op : WalOperation) → (rest : Bytes) × (op_to_json op ≡ 123 ∷ rest)
  pub op_plain : (op : WalOperation) → All (λ b. 32 ≤ b) (op_to_json op)
  pub op_utf8 : (op : WalOperation) → is_utf8 (op_to_json op) ≡ true
  pub op_torn :
      (op : WalOperation) (n : ℕ)
      → n < length (op_to_json op)
      → op_from_json (take n (op_to_json op)) ≡ none

pub record WalStore : Type 0 where
  pub log : Bytes
  pub state : Option SocialSnapshot
  pub ops_since_checkpoint : ℕ
  pub last_checkpoint : ℕ
  pub checkpoint_ops : ℕ

abbrev pub max_wal_bytes : ℕ
max_wal_bytes = 64 * 1024 * 1024

-- What is on the disk is opened as it is.
abbrev pub open_store : ℕ → ℕ → Bytes → Option SocialSnapshot → WalStore
open_store now checkpoint_ops log state = record {
  log = log;
  state = state;
  ops_since_checkpoint = 0;
  last_checkpoint = now;
  checkpoint_ops = checkpoint_ops;
}

-- `{}` of a number.
unfoldable pub decimal_from : ℕ → ℕ → Bytes → Bytes
decimal_from zero n tail = tail
decimal_from (suc fuel) n tail =
    let here = (48 + n % 10) ∷ tail in
    elim (n / 10 == 0) [ true ↦ here | false ↦ decimal_from fuel (n / 10) here ]

unfoldable pub decimal : ℕ → Bytes
unfolding decimal_from
decimal n = decimal_from (n + 1) n []

-- What became of a write: all of it is on the disk, or only the first bytes and an error.
pub data Write : Type 0 where
  whole : Write
  partial : ℕ → Write

-- Whether a checkpoint came to its end, or stopped before or after the snapshot was replaced.
pub data Fate : Type 0 where
  finished before_rename before_truncate : Fate

-- `lines()`: a line ends with "\n" or "\r\n".
abbrev pub starts_newline : Bytes → Bool
starts_newline [] = false
starts_newline (b ∷ bs) = b == 10

abbrev pub extend_first : ℕ → List Bytes → List Bytes
extend_first b [] = (b ∷ []) ∷ []
extend_first b (line ∷ lines) = (b ∷ line) ∷ lines

unfoldable pub lines_of : Bytes → List Bytes
lines_of [] = []
lines_of (b ∷ bs) =
    let rest = lines_of bs in
    if b == 10
    then [] ∷ rest
    else if b == 13 && starts_newline bs
    then rest
    else extend_first b rest

-- `line.find('{')` and the slice from there.
unfoldable pub from_brace : Bytes → Option Bytes
from_brace [] = none
from_brace (b ∷ bs) = let rest = from_brace bs in if b == 123 then some (b ∷ bs) else rest

module _ (json : Json) where
  unfoldable pub log_line : ℕ → WalOperation → Bytes
  log_line ts op = 91 ∷ (decimal ts ++ (93 ∷ 32 ∷ (json.op_to_json op ++ 10 ∷ [])))

  unfoldable pub append : ℕ → Write → WalOperation → WalStore → Bool × WalStore
  append ts Write.whole op wal = (
    true,
    record wal {
      log = wal.log ++ log_line ts op;
      ops_since_checkpoint = wal.ops_since_checkpoint + 1;
    },
  )
  append ts (Write.partial n) op wal =
      (false, record wal { log = wal.log ++ take n (log_line ts op) })

  unfoldable pub op_of : Bytes → Option WalOperation
  op_of line = elim (from_brace line) [ none ↦ none | some text ↦ json.op_from_json text ]

  -- A line that is not UTF-8 is an error, at which the reading stops.
  unfoldable pub ops_of : List Bytes → List WalOperation
  ops_of [] = []
  ops_of (line ∷ lines) =
      let rest = ops_of lines in
      if is_utf8 line then elim (op_of line) [ none ↦ rest | some op ↦ op ∷ rest ] else []

  unfoldable pub replay : WalStore → List WalOperation
  replay wal = if ltb max_wal_bytes (length wal.log) then [] else ops_of (lines_of wal.log)

unfoldable pub checkpoint : ℕ → Fate → SocialSnapshot → WalStore → Bool × WalStore
checkpoint now Fate.before_rename s wal = (false, wal)
checkpoint now Fate.before_truncate s wal = (false, record wal { state = some s })
checkpoint now Fate.finished s wal =
    (true, record wal { state = some s; log = []; ops_since_checkpoint = 0; last_checkpoint = now })

abbrev pub load_state : WalStore → Option SocialSnapshot
load_state wal = wal.state

-- A minute on the clock in seconds, whose readings do not fall.
unfoldable pub should_checkpoint : ℕ → WalStore → Bool
should_checkpoint now wal =
    leb wal.checkpoint_ops wal.ops_since_checkpoint || leb 60 (now - wal.last_checkpoint)
