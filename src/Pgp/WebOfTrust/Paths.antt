-- ===== src/Pgp/WebOfTrust/Paths.antt =====
-- pgp/web_of_trust.rs, `trust_path`: a breadth-first search from one's own keys along the signatures.
-- A fingerprint is ASCII, so that its slices are bytes.
pub mod Search
mod Tests
use chrono_shift.Prelude.{
  ℕ, zero, suc, ◌+◌, ◌-◌, ◌≡◌, Bool, true, false, not, ◌&&◌, Option, none, some, List, [], ◌∷◌,
  ◌++◌, length, leb, take, drop, map, if◌then◌else◌,
}
use chrono_shift.Prelude.Keys.{Bytes, ◌=?◌, bytes_eq, contains}
use chrono_shift.Primitives.{Signer}
use chrono_shift.Pgp.WebOfTrust.{WebOfTrust, TrustSignature, signature_is_valid}

unfoldable pub fingerprint_short : Bytes → Bytes
fingerprint_short fp =
    if leb (length fp) 12 then fp else take 6 fp ++ (46 ∷ 46 ∷ drop (length fp - 6) fp)

-- The keys to go on from, each with the path to it, and those that were met.
pub record Frontier : Type 0 where
  pub queue : List (Bytes × List Bytes)
  pub visited : List Bytes

-- The subject of a signature is met, and stands in the queue.
abbrev pub pushed : TrustSignature → List Bytes → Frontier → Frontier
pushed sig path s = record {
  queue = s.queue ++ (sig.subject_fingerprint, path ++ sig.subject_fingerprint ∷ []) ∷ [];
  visited = sig.subject_fingerprint ∷ s.visited;
}

module _ (signer : Signer) (w : WebOfTrust) where
  -- The signatures of one signer.
  unfoldable pub follow : List TrustSignature → Bytes → List Bytes → Frontier → Frontier
  follow [] current path s = s
  follow (sig ∷ sigs) current path s = follow sigs current path (
      if sig.signer_fingerprint =? current
        && not (contains s.visited sig.subject_fingerprint)
        && signature_is_valid signer w.keys sig
      then pushed sig path s
      else s)

  unfoldable pub search : ℕ → Bytes → Frontier → Option (List Bytes)
  search zero target s = none
  search (suc fuel) target s = elim s.queue [
    | [] ↦ none
    | entry ∷ rest ↦
        let later =
          search fuel target (follow w.signatures entry.0 entry.1 (record s { queue = rest })) in
        if entry.0 =? target then some entry.1 else later
  ]

  abbrev pub own_entries : List Bytes → List (Bytes × List Bytes)
  own_entries [] = []
  own_entries (fp ∷ fps) = (fp, fp ∷ []) ∷ own_entries fps

  unfoldable pub find_path : Bytes → Option (List Bytes)
  find_path target =
      search (length w.own_fingerprints + length w.signatures + 1) target
        (record { queue = own_entries w.own_fingerprints; visited = w.own_fingerprints })

  -- "(you) == {}" and "(no trust path found)".
  unfoldable pub trust_path : Bytes → List Bytes
  trust_path fingerprint =
      if contains w.own_fingerprints fingerprint
      then (40 ∷ 121 ∷ 111 ∷ 117 ∷ 41 ∷ 32 ∷ 61 ∷ 61 ∷ 32 ∷ fingerprint_short fingerprint) ∷ []
      else elim (find_path fingerprint) [
        | some path ↦ map fingerprint_short path
        | none ↦
            (40 ∷ 110 ∷ 111 ∷ 32 ∷ 116 ∷ 114 ∷ 117 ∷ 115 ∷ 116 ∷ 32 ∷ 112 ∷ 97 ∷ 116 ∷ 104 ∷ 32
              ∷ 102 ∷ 111 ∷ 117 ∷ 110 ∷ 100 ∷ 41 ∷ [])
            ∷ []
      ]
