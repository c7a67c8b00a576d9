-- ===== src/Uid.antt =====
-- `validate_uid` of lib.rs.
use chrono_shift.Prelude.{ℕ, Bool, true, false, ◌&&◌, ◌||◌, not, [], ◌∷◌, length, leb, ◌==◌}
use chrono_shift.Prelude.Keys.{Bytes}

-- `is_ascii_alphanumeric`
abbrev pub is_alphanumeric : ℕ → Bool
is_alphanumeric b = leb 48 b && leb b 57 || leb 65 b && leb b 90 || leb 97 b && leb b 122

-- One of . _ - @ : [ ]
abbrev pub is_uid_mark : ℕ → Bool
is_uid_mark b = b == 46 || b == 95 || b == 45 || b == 64 || b == 58 || b == 91 || b == 93

abbrev pub uid_bytes : Bytes → Bool
uid_bytes [] = true
uid_bytes (b ∷ bs) = (is_alphanumeric b || is_uid_mark b) && uid_bytes bs

abbrev pub is_empty : Bytes → Bool
is_empty [] = true
is_empty (b ∷ bs) = false

unfoldable pub validate_uid : Bytes → Bool
validate_uid uid = not (is_empty uid) && leb (length uid) 64 && uid_bytes uid
