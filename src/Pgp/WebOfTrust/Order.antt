-- ===== src/Pgp/WebOfTrust/Order.antt =====
-- The order of trust levels by rank, and of assignments of levels to keys.
use chrono_shift.Prelude.{ℕ, zero, suc, ◌≤◌, ◌≡◌, refl, sym, ap, ◌∙◌}
use chrono_shift.Prelude.Keys.{Bytes}
use chrono_shift.Pgp.Trust.{TrustLevel, rank}

abbrev ranked : ℕ → TrustLevel
ranked zero = TrustLevel.never
ranked (suc zero) = TrustLevel.unknown
ranked (suc (suc zero)) = TrustLevel.marginal
ranked (suc (suc (suc zero))) = TrustLevel.full
ranked (suc (suc (suc (suc n)))) = TrustLevel.ultimate

ranked-rank : (l : TrustLevel) → ranked (rank l) ≡ l
ranked-rank TrustLevel.never = refl
ranked-rank TrustLevel.unknown = refl
ranked-rank TrustLevel.marginal = refl
ranked-rank TrustLevel.full = refl
ranked-rank TrustLevel.ultimate = refl

pub rank_injective : (a b : TrustLevel) → rank a ≡ rank b → a ≡ b
rank_injective a b e = sym (ranked-rank a) ∙ ap ranked e ∙ ranked-rank b

-- Each key has at most the level that the other assignment gives it.
abbrev pub Below : (Bytes → TrustLevel) → (Bytes → TrustLevel) → Type 0
Below r s = (fp : Bytes) → rank (r fp) ≤ rank (s fp)
