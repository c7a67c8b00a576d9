-- ===== src/Net/Relay.antt =====
-- net/relay.rs: the admission control of `RelayVerifier`, the routing table and the signed bytes.
-- The clock is an argument of `check`, as in the source.
pub mod Replay
pub mod Rate
pub mod Signing
pub mod Routes
pub mod Node
use chrono_shift.Prelude.{
  ℕ, ◌+◌, ◌-◌, Bool, true, false, not, Option, none, some, List, [], ◌∷◌, ◌++◌, Result, ok, err,
  length, ltb, leb, if◌then◌else◌, ◌==◌, min,
}
use chrono_shift.Prelude.Keys.{Bytes, bytes_eq, ◌=?◌}
use chrono_shift.Prelude.Dict.{Dict, lookup, insert}

abbrev pub relay_max_hops : ℕ
relay_max_hops = 8

abbrev pub relay_max_age_secs : ℕ
relay_max_age_secs = 60

abbrev pub relay_rate_window_secs : ℕ
relay_rate_window_secs = 60

abbrev pub relay_max_per_window : ℕ
relay_max_per_window = 60

abbrev pub max_relay_tracked : ℕ
max_relay_tracked = 4096

abbrev pub max_relay_pins : ℕ
max_relay_pins = 4096

-- `u64::abs_diff`: one of the two is 0.
abbrev pub abs_diff : ℕ → ℕ → ℕ
abs_diff a b = (a - b) + (b - a)

abbrev pub valid_inbound_hops : ℕ → Bool
valid_inbound_hops hops_left = leb hops_left relay_max_hops

pub record RelayVerifier : Type 0 where
  pub last_nonce : Dict Bytes ℕ
  pub rate : Dict Bytes (ℕ × ℕ)
  pub key_pins : Dict Bytes Bytes

abbrev pub new : RelayVerifier
new = record { last_nonce = []; rate = []; key_pins = [] }

pub data RelayError : Type 0 where
  key_changed rate_limited : RelayError
  replayed_nonce : ℕ → RelayError
  outside_window : ℕ → RelayError

-- A table of so many entries is cleared as a whole.
abbrev pub evict {ℓ} : {V : Type ℓ} → ℕ → Dict Bytes V → Dict Bytes V
evict bound table = if leb bound (length table) then [] else table

unfoldable pub pin_key :
    Bytes → Bytes → RelayVerifier → RelayVerifier × Result (Unit {0}) RelayError
pin_key sender key_hex v = elim (lookup sender v.key_pins) [
  | none ↦ (record v { key_pins = insert sender key_hex (evict max_relay_pins v.key_pins) }, ok tt)
  | some prev ↦ if prev =? key_hex then (v, ok tt) else (v, err RelayError.key_changed)
]

-- `entry(key).or_insert((now, 0))`
abbrev pub entry_of : Bytes → ℕ → Dict Bytes (ℕ × ℕ) → ℕ × ℕ
entry_of key_hex now table = elim (lookup key_hex table) [ none ↦ (now, 0) | some entry ↦ entry ]

-- The window that `now` is in.
abbrev pub window : ℕ → ℕ × ℕ → ℕ × ℕ
window now (start, count) =
    if leb relay_rate_window_secs (abs_diff now start) then (now, 0) else (start, count)

-- The count against the limit.
unfoldable pub charge : Bytes → ℕ × ℕ → Dict Bytes (ℕ × ℕ) → Dict Bytes (ℕ × ℕ) × Bool
charge key_hex (start, count) table =
    if leb relay_max_per_window count
    then (insert key_hex (start, count) table, false)
    else (insert key_hex (start, count + 1) table, true)

-- The rate limit of `check`: the new table, and whether the message is within the limit.
unfoldable pub admit : Bytes → ℕ → Dict Bytes (ℕ × ℕ) → Dict Bytes (ℕ × ℕ) × Bool
admit key_hex now rate =
    let table = evict max_relay_tracked rate in
    charge key_hex (window now (entry_of key_hex now table)) table

abbrev pub replayed : Bytes → ℕ → Dict Bytes ℕ → Bool
replayed key_hex nonce last_nonce = elim (lookup key_hex last_nonce) [
  | none ↦ false
  | some last ↦ leb nonce last
]

unfoldable pub check :
    Bytes → ℕ → ℕ → ℕ → RelayVerifier → RelayVerifier × Result (Unit {0}) RelayError
check key_hex nonce timestamp now v =
    let (rate, admitted) = admit key_hex now v.rate in
    if replayed key_hex nonce v.last_nonce
    then (v, err (RelayError.replayed_nonce nonce))
    else if ltb relay_max_age_secs (abs_diff now timestamp)
    then (v, err (RelayError.outside_window timestamp))
    else if not admitted
    then (record v { rate = rate }, err RelayError.rate_limited)
    else (
      record v {
        rate = rate;
        last_nonce = insert key_hex nonce (evict max_relay_tracked v.last_nonce);
      },
      ok tt,
    )
