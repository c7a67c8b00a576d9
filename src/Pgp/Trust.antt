-- ===== src/Pgp/Trust.antt =====
-- `TrustLevel` of pgp/mod.rs. An i32 is 0 or positive, or -(n + 1).
use Prim.Native.Nat.{ℕ}
use chrono_shift.Prelude.{Bool, ltb, ◌==◌, if◌then◌else◌, ◌≡◌, refl}

-- The numbers that `to_i32` and `from_i32` carry: a sign and a magnitude.
pub data I32 : Type 0 where
  pos negsuc : ℕ → I32

pub data TrustLevel : Type 0 where
  never unknown marginal full ultimate : TrustLevel

unfoldable pub from_i32 : I32 → TrustLevel
from_i32 (negsuc n) = if n == 0 then TrustLevel.never else TrustLevel.unknown
from_i32 (pos n) =
    if n == 0
    then TrustLevel.unknown
    else if n == 1
    then TrustLevel.marginal
    else if n == 2
    then TrustLevel.full
    else if n == 3
    then TrustLevel.ultimate
    else TrustLevel.unknown

unfoldable pub to_i32 : TrustLevel → I32
to_i32 TrustLevel.never = negsuc 0
to_i32 TrustLevel.unknown = pos 0
to_i32 TrustLevel.marginal = pos 1
to_i32 TrustLevel.full = pos 2
to_i32 TrustLevel.ultimate = pos 3

-- The place in the declaration, which the derived `Ord` compares.
abbrev pub rank : TrustLevel → ℕ
rank TrustLevel.never = 0
rank TrustLevel.unknown = 1
rank TrustLevel.marginal = 2
rank TrustLevel.full = 3
rank TrustLevel.ultimate = 4

-- `<` of the derived order.
abbrev pub below : TrustLevel → TrustLevel → Bool
below a b = ltb (rank a) (rank b)

pub from_i32-to_i32 : (t : TrustLevel) → from_i32 (to_i32 t) ≡ t
unfolding from_i32 to_i32
from_i32-to_i32 TrustLevel.never = refl
from_i32-to_i32 TrustLevel.unknown = refl
from_i32-to_i32 TrustLevel.marginal = refl
from_i32-to_i32 TrustLevel.full = refl
from_i32-to_i32 TrustLevel.ultimate = refl
