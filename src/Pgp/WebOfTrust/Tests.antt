-- ===== src/Pgp/WebOfTrust/Tests.antt =====
-- Runs of the web of trust on small inputs.
use chrono_shift.Prelude.{ℕ, ◌≡◌, refl, false, List, [], ◌∷◌, arith}
use chrono_shift.Prelude.Keys.{Bytes, bytes_beq, nat_eq}
use chrono_shift.Primitives.{toy_signer}
use chrono_shift.Identity.{hex_encode, hex_decode, decode_pairs, decode_key}
use chrono_shift.Pgp.Trust.{TrustLevel, from_i32}
use chrono_shift.Pgp.WebOfTrust.{
  WebOfTrust, PgpIdentity, TrustSignature, new, create, signature_is_valid, signature_message,
  compute_trust_map, level, visit, visit_all, passes, tally, count, new_level, valid_sigs,
  calculate_trust,
}
use chrono_shift.Pgp.WebOfTrust.Order.{Below}
use chrono_shift.Pgp.WebOfTrust.Solution.{Solves, compute_trust_map_lem}
use chrono_shift.Pgp.WebOfTrust.Same.{SameWeb, compute_trust_map_order}
use chrono_shift.Pgp.WebOfTrust.Chains.{Chain, compute_trust_map-Chain}
use chrono_shift.Pgp.WebOfTrust.Cache.{WotCall, call_all, fresh_trust, calculate_trust-call_all}

abbrev identity_of : ℕ → PgpIdentity
identity_of n = record {
  user_id = n ∷ [];
  public_key_hex = hex_encode (toy_signer.verifying_key (n ∷ []));
  fingerprint = n ∷ [];
  created = 0;
}

abbrev vouch : ℕ → ℕ → ℕ → TrustSignature
vouch a b l = create toy_signer (a ∷ []) (a ∷ []) (b ∷ []) l 9

-- 1 is one's own and signs 2 in full; 2 signs 3 as marginal; 3 and 4 sign each other.
abbrev web : WebOfTrust
web = record {
  keys =
      (3 ∷ [], identity_of 3)
      ∷ (1 ∷ [], identity_of 1)
      ∷ (2 ∷ [], identity_of 2)
      ∷ (4 ∷ [], identity_of 4)
      ∷ [];
  signatures = vouch 2 3 1 ∷ vouch 1 2 2 ∷ vouch 5 6 2 ∷ [];
  own_fingerprints = (1 ∷ []) ∷ [];
  trusted_introducers = [];
  manual_overrides = [];
  trust_cache = [];
  cache_valid = false;
}

abbrev web_reordered : WebOfTrust
web_reordered = record web {
  keys =
      (1 ∷ [], identity_of 1)
      ∷ (2 ∷ [], identity_of 2)
      ∷ (3 ∷ [], identity_of 3)
      ∷ (4 ∷ [], identity_of 4)
      ∷ [];
}

level_of_three : level (compute_trust_map toy_signer web) (3 ∷ []) ≡ TrustLevel.marginal
unfolding compute_trust_map passes visit_all visit tally count new_level valid_sigs
    signature_is_valid create signature_message decode_key hex_decode decode_pairs hex_encode
    bytes_beq from_i32
level_of_three = refl

compute_trust_map_lem_example :
    Solves toy_signer web (level (compute_trust_map toy_signer web))
    × ((trust : Bytes → TrustLevel)
        → Solves toy_signer web trust
        → Below (level (compute_trust_map toy_signer web)) trust)
compute_trust_map_lem_example = compute_trust_map_lem toy_signer web

abbrev one_key : Bytes
one_key = 1 ∷ []

abbrev other_key : Bytes
other_key = 3 ∷ []

abbrev two_keys : WebOfTrust
two_keys = record new {
  keys = (other_key, identity_of 3) ∷ (one_key, identity_of 1) ∷ [];
  signatures = vouch 1 3 2 ∷ [];
  own_fingerprints = one_key ∷ [];
}

abbrev two_keys_reordered : WebOfTrust
two_keys_reordered = record two_keys {
  keys = (one_key, identity_of 1) ∷ (other_key, identity_of 3) ∷ [];
}

two_keys_same : SameWeb two_keys two_keys_reordered
unfolding bytes_beq
two_keys_same = record {
  same_keys = λ fp. grind arith;
  same_signatures = refl;
  same_own = λ fp. refl;
  same_overrides = λ fp. refl;
  once_w = tt;
  once_v = tt;
}

compute_trust_map_order_example :
    level (compute_trust_map toy_signer two_keys) other_key
    ≡ level (compute_trust_map toy_signer two_keys_reordered) other_key
compute_trust_map_order_example =
    compute_trust_map_order toy_signer two_keys two_keys_reordered two_keys_same other_key

compute_trust_map-Chain_example : Chain toy_signer web (3 ∷ [])
compute_trust_map-Chain_example =
    compute_trust_map-Chain toy_signer web (3 ∷ []) (rw level_of_three (omega arith))

abbrev calls : List WotCall
calls =
    WotCall.own_key (identity_of 1)
    ∷ WotCall.key (identity_of 2)
    ∷ WotCall.query (2 ∷ [])
    ∷ WotCall.signature (vouch 1 2 2)
    ∷ WotCall.query (2 ∷ [])
    ∷ WotCall.unsign (1 ∷ []) (2 ∷ [])
    ∷ []

calculate_trust-call_all_example :
    (calculate_trust toy_signer (2 ∷ []) (call_all toy_signer calls new)).0
    ≡ fresh_trust toy_signer (2 ∷ []) (call_all toy_signer calls new)
calculate_trust-call_all_example = calculate_trust-call_all toy_signer calls new (2 ∷ []) refl
