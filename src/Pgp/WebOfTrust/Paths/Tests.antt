-- ===== src/Pgp/WebOfTrust/Paths/Tests.antt =====
-- Runs of the search on small inputs.
use chrono_shift.Prelude.{ℕ, ◌≡◌, refl, some, none, [], ◌∷◌}
use chrono_shift.Prelude.Keys.{bytes_beq}
use chrono_shift.Primitives.{toy_signer}
use chrono_shift.Identity.{hex_encode, hex_decode, decode_pairs, decode_key}
use chrono_shift.Pgp.WebOfTrust.{
  WebOfTrust, PgpIdentity, TrustSignature, new, create, signature_is_valid, signature_message,
}
use chrono_shift.Pgp.WebOfTrust.Paths.{find_path, follow, search}
use chrono_shift.Pgp.WebOfTrust.Paths.Search.{Found, find_path-Found}

abbrev identity_of : ℕ → PgpIdentity
identity_of n = record {
  user_id = n ∷ [];
  public_key_hex = hex_encode (toy_signer.verifying_key (n ∷ []));
  fingerprint = n ∷ [];
  created = 0;
}

abbrev vouch : ℕ → ℕ → TrustSignature
vouch a b = create toy_signer (a ∷ []) (a ∷ []) (b ∷ []) 2 9

-- 1 is one's own and signs 2, which signs 3; 4 signs itself.
abbrev web : WebOfTrust
web = record new {
  keys =
      (1 ∷ [], identity_of 1)
      ∷ (2 ∷ [], identity_of 2)
      ∷ (3 ∷ [], identity_of 3)
      ∷ (4 ∷ [], identity_of 4)
      ∷ [];
  signatures = vouch 2 3 ∷ vouch 1 2 ∷ vouch 4 4 ∷ [];
  own_fingerprints = (1 ∷ []) ∷ [];
}

path_to_three : find_path toy_signer web (3 ∷ []) ≡ some ((1 ∷ []) ∷ (2 ∷ []) ∷ (3 ∷ []) ∷ [])
unfolding find_path search follow signature_is_valid create signature_message decode_key hex_decode
    decode_pairs hex_encode bytes_beq
path_to_three = refl

no_path_to_four : find_path toy_signer web (4 ∷ []) ≡ none
unfolding find_path search follow signature_is_valid create signature_message decode_key hex_decode
    decode_pairs hex_encode bytes_beq
no_path_to_four = refl

find_path-Found_example : Found toy_signer web (3 ∷ []) (find_path toy_signer web (3 ∷ []))
find_path-Found_example = find_path-Found toy_signer web (3 ∷ [])
