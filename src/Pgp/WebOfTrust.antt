-- ===== src/Pgp/WebOfTrust.antt =====
-- pgp/web_of_trust.rs: who signed whose key, and the levels of trust that follow. A key is known
-- by its fingerprint. The order of the entries of `keys` stands for the order in which the hash map
-- is gone through.
pub mod Order
pub mod Monotone
pub mod Rounds
pub mod Passes
pub mod Solution
pub mod Chains
pub mod Same
pub mod Paths
pub mod Cache
mod Tests
use chrono_shift.Prelude.{
  ℕ, zero, suc, ◌+◌, ◌*◌, ◌%◌, ◌^◌, Bool, true, false, not, ◌&&◌, ◌||◌, Option, none, some, List,
  [], ◌∷◌, ◌++◌, length, leb, ltb, ◌==◌, if◌then◌else◌,
}
use chrono_shift.Prelude.Keys.{Bytes, Eq, ◌=?◌, bytes_eq, contains, without}
use chrono_shift.Prelude.Dict.{Dict, lookup, has_key, insert}
use chrono_shift.Prelude.Words.{to_be_bytes}
use chrono_shift.Primitives.{Signer}
use chrono_shift.Identity.{decode_key}
use chrono_shift.Pgp.Trust.{TrustLevel, I32, from_i32, rank, below}

pub record PgpIdentity : Type 0 where
  pub user_id : Bytes
  pub public_key_hex : Bytes
  pub fingerprint : Bytes
  pub created : ℕ

pub record TrustSignature : Type 0 where
  pub signer_fingerprint : Bytes
  pub subject_fingerprint : Bytes
  pub trust_level : ℕ
  pub timestamp : ℕ
  pub signature_data : Bytes

pub record WebOfTrust : Type 0 where
  pub keys : Dict Bytes PgpIdentity
  pub signatures : List TrustSignature
  pub own_fingerprints : List Bytes
  pub trusted_introducers : List Bytes
  pub manual_overrides : Dict Bytes TrustLevel
  pub trust_cache : Dict Bytes TrustLevel
  pub cache_valid : Bool

abbrev pub new : WebOfTrust
new = record {
  keys = [];
  signatures = [];
  own_fingerprints = [];
  trusted_introducers = [];
  manual_overrides = [];
  trust_cache = [];
  cache_valid = false;
}

-- b"chrono-wot-sign-v1"
abbrev pub wot_domain : Bytes
wot_domain =
    99 ∷ 104 ∷ 114 ∷ 111 ∷ 110 ∷ 111 ∷ 45 ∷ 119 ∷ 111 ∷ 116 ∷ 45 ∷ 115 ∷ 105 ∷ 103 ∷ 110 ∷ 45 ∷ 118
    ∷ 49 ∷ []

unfoldable pub signature_message : Bytes → ℕ → ℕ → Bytes
signature_message subject_fp trust_level timestamp =
    wot_domain
    ++ (to_be_bytes 4 (length subject_fp)
        ++ (subject_fp ++ (trust_level ∷ to_be_bytes 8 timestamp)))

abbrev pub invalidate_cache : WebOfTrust → WebOfTrust
invalidate_cache w = record w { cache_valid = false; trust_cache = [] }

-- A set: an element that is there already stays where it is.
abbrev pub insert_once : Bytes → List Bytes → List Bytes
insert_once a xs = if contains xs a then xs else xs ++ a ∷ []

abbrev pub add_key : PgpIdentity → WebOfTrust → WebOfTrust
add_key identity w =
    invalidate_cache (record w { keys = insert identity.fingerprint identity w.keys })

abbrev pub add_own_key : PgpIdentity → WebOfTrust → WebOfTrust
add_own_key identity w = invalidate_cache (record w {
  own_fingerprints = insert_once identity.fingerprint w.own_fingerprints;
  keys = insert identity.fingerprint identity w.keys;
})

abbrev pub set_manual_trust : Bytes → TrustLevel → WebOfTrust → WebOfTrust
set_manual_trust fingerprint level w =
    invalidate_cache (record w { manual_overrides = insert fingerprint level w.manual_overrides })

abbrev pub is_from_to : Bytes → Bytes → TrustSignature → Bool
is_from_to signer_fp subject_fp s =
    s.signer_fingerprint =? signer_fp && s.subject_fingerprint =? subject_fp

abbrev pub has_signature : Bytes → Bytes → List TrustSignature → Bool
has_signature signer_fp subject_fp [] = false
has_signature signer_fp subject_fp (s ∷ sigs) =
    is_from_to signer_fp subject_fp s || has_signature signer_fp subject_fp sigs

abbrev pub without_signature : Bytes → Bytes → List TrustSignature → List TrustSignature
without_signature signer_fp subject_fp [] = []
without_signature signer_fp subject_fp (s ∷ sigs) =
    let rest = without_signature signer_fp subject_fp sigs in
    if is_from_to signer_fp subject_fp s then rest else s ∷ rest

abbrev pub remove_signature : Bytes → Bytes → WebOfTrust → WebOfTrust
remove_signature signer_fp subject_fp w =
    invalidate_cache (record w { signatures = without_signature signer_fp subject_fp w.signatures })

-- `get(fp).copied().unwrap_or(TrustLevel::Unknown)`
abbrev pub level : Dict Bytes TrustLevel → Bytes → TrustLevel
level trust fp = elim (lookup fp trust) [ none ↦ TrustLevel.unknown | some l ↦ l ]

abbrev pub min_level : TrustLevel → TrustLevel → TrustLevel
min_level a b = if below b a then b else a

-- How many signatures count in full, and how many as marginal.
pub record Tally : Type 0 where
  pub full : ℕ
  pub marginal : ℕ

unfoldable pub count : TrustLevel → Tally → Tally
count contribution t =
    if leb (rank TrustLevel.full) (rank contribution)
    then record t { full = t.full + 1 }
    else if leb (rank TrustLevel.marginal) (rank contribution)
    then record t { marginal = t.marginal + 1 }
    else t

-- The signatures of one key, under the levels `trust` of their signers.
unfoldable pub tally : (Bytes → TrustLevel) → Bytes → List TrustSignature → Tally
tally trust fp [] = record { full = 0; marginal = 0 }
tally trust fp (s ∷ sigs) =
    let rest = tally trust fp sigs in
    if s.subject_fingerprint =? fp
    then count (min_level (trust s.signer_fingerprint) (from_i32 (I32.pos s.trust_level))) rest
    else rest

unfoldable pub new_level : Tally → TrustLevel
new_level t =
    if leb 1 t.full || leb 2 t.marginal
    then TrustLevel.full
    else if leb 1 t.marginal
    then TrustLevel.marginal
    else TrustLevel.unknown

-- The levels so far, and whether this round has changed one.
pub record Progress : Type 0 where
  pub changed : Bool
  pub trust : Dict Bytes TrustLevel

abbrev pub set_all : List Bytes → TrustLevel → Dict Bytes TrustLevel → Dict Bytes TrustLevel
set_all [] l trust = trust
set_all (fp ∷ fps) l trust = set_all fps l (insert fp l trust)

abbrev pub set_each : Dict Bytes TrustLevel → Dict Bytes TrustLevel → Dict Bytes TrustLevel
set_each [] trust = trust
set_each ((fp, l) ∷ d) trust = set_each d (insert fp l trust)

-- `keys()`
abbrev pub key_names {ℓ} : {V : Type ℓ} → Dict Bytes V → List Bytes
key_names [] = []
key_names ((fp, v) ∷ d) = fp ∷ key_names d

-- Own keys and overridden ones keep their level.
abbrev pub pinned : WebOfTrust → Bytes → Bool
pinned w fp = contains w.own_fingerprints fp || has_key fp w.manual_overrides

abbrev pub initial : WebOfTrust → Dict Bytes TrustLevel
initial w = set_each w.manual_overrides (set_all w.own_fingerprints TrustLevel.ultimate [])

module _ (pins : Bytes → Bool) (sigs : List TrustSignature) where
  unfoldable pub visit : Bytes → Progress → Progress
  visit fp p =
      if pins fp
      then p
      else let next = new_level (tally (level p.trust) fp sigs) in
        if rank next == rank (level p.trust fp)
        then p
        else record { changed = true; trust = insert fp next p.trust }

  -- One pass over the keys.
  unfoldable pub visit_all : List Bytes → Progress → Progress
  visit_all [] p = p
  visit_all (fp ∷ fps) p = visit_all fps (visit fp p)

  -- The `loop`, for so many passes at most.
  unfoldable pub passes : ℕ → List Bytes → Dict Bytes TrustLevel → Dict Bytes TrustLevel
  passes zero fps trust = trust
  passes (suc fuel) fps trust =
      let p = visit_all fps (record { changed = false; trust = trust }) in
      elim p.changed [ true ↦ passes fuel fps p.trust | false ↦ p.trust ]

module _ (signer : Signer) where
  unfoldable pub create : Bytes → Bytes → Bytes → ℕ → ℕ → TrustSignature
  create signing_key signer_fp subject_fp trust_level timestamp = record {
    signer_fingerprint = signer_fp;
    subject_fingerprint = subject_fp;
    trust_level = trust_level;
    timestamp = timestamp;
    signature_data = signer.sign signing_key (signature_message subject_fp trust_level timestamp);
  }

  unfoldable pub signature_is_valid : Dict Bytes PgpIdentity → TrustSignature → Bool
  signature_is_valid keys sig = elim (lookup sig.signer_fingerprint keys) [
    | none ↦ false
    | some identity ↦ elim (decode_key identity.public_key_hex) [
      | none ↦ false
      | some vk ↦
          signer.valid_key vk
          && length sig.signature_data == 64
          && signer.verify vk
              (signature_message sig.subject_fingerprint sig.trust_level sig.timestamp)
              sig.signature_data
    ]
  ]

  unfoldable pub add_signature : TrustSignature → WebOfTrust → Bool × WebOfTrust
  add_signature sig w =
      if not (has_key sig.signer_fingerprint w.keys) || not (has_key sig.subject_fingerprint w.keys)
      then (false, w)
      else if has_signature sig.signer_fingerprint sig.subject_fingerprint w.signatures
      then (false, w)
      else if not (signature_is_valid w.keys sig)
      then (false, w)
      else (true, invalidate_cache (record w { signatures = w.signatures ++ sig ∷ [] }))

  unfoldable pub valid_sigs : Dict Bytes PgpIdentity → List TrustSignature → List TrustSignature
  valid_sigs keys [] = []
  valid_sigs keys (s ∷ sigs) =
      let rest = valid_sigs keys sigs in if signature_is_valid keys s then s ∷ rest else rest

  -- A key changes its level at most twice, so that the passes are enough.
  unfoldable pub compute_trust_map : WebOfTrust → Dict Bytes TrustLevel
  compute_trust_map w =
      passes (pinned w) (valid_sigs w.keys w.signatures) (4 * length w.keys + 1) (key_names w.keys)
        (initial w)

  abbrev pub refresh : WebOfTrust → WebOfTrust
  refresh w =
      if w.cache_valid
      then w
      else record w { trust_cache = compute_trust_map w; cache_valid = true }

  unfoldable pub calculate_trust : Bytes → WebOfTrust → TrustLevel × WebOfTrust
  calculate_trust fingerprint w = elim (lookup fingerprint w.manual_overrides) [
    | some l ↦ (l, w)
    | none ↦
        if contains w.own_fingerprints fingerprint
        then (TrustLevel.ultimate, w)
        else let w' = refresh w in (level w'.trust_cache fingerprint, w')
  ]

  -- The fingerprints one after the other, with the cache of the first.
  unfoldable pub keys_from : TrustLevel → List Bytes → WebOfTrust → List PgpIdentity × WebOfTrust
  keys_from least [] w = ([], w)
  keys_from least (fp ∷ fps) w =
      let (trust, w') = calculate_trust fp w in
      let (rest, w'') = keys_from least fps w' in
      if leb (rank least) (rank trust)
      then elim (lookup fp w'.keys) [ none ↦ (rest, w'') | some identity ↦ (identity ∷ rest, w'') ]
      else (rest, w'')

  abbrev pub keys_at_level : TrustLevel → WebOfTrust → List PgpIdentity × WebOfTrust
  keys_at_level least w = keys_from least (key_names w.keys) w
