-- ===== src/Tests.antt =====
-- Runs of crypto.rs and identity.rs on small inputs.
use chrono_shift.Prelude.{◌≡◌, refl, some, [], ◌∷◌, ◌++◌, replicate}
use chrono_shift.Prelude.Keys.{Bytes}
use chrono_shift.Primitives.{toy_aead, toy_encrypt}
use chrono_shift.Crypto.{encrypt_e2e}

abbrev twelve : Bytes
twelve = replicate 12 1

toy_sealed : encrypt_e2e toy_aead twelve (5 ∷ []) (9 ∷ []) ≡ some (twelve ++ toy_encrypt (5 ∷ []))
unfolding encrypt_e2e toy_aead
toy_sealed = refl
