-- ===== src/Net/Relay/Routes.antt =====
-- `RelayRouter` of net/relay.rs, and the keys that `RelayVerifier::pin_key` pins.
use chrono_shift.Prelude.{
  ℕ, ◌<◌, ◌≡◌, ◌↔◌, refl, sym, ap, ◌∙◌, Bool, true, false, Option, some, none, List, [], ◌∷◌, ◌++◌,
  is_ok, length, arith, leb, if◌then◌else◌, Bool-cases, Option-cases, inl, inr,
}
use chrono_shift.Prelude.Keys.{Bytes, bytes_eq, ◌=?◌, =?_iff, ne→=?_false}
use chrono_shift.Prelude.Dict.{Dict, lookup, insert, remove, lookup-insert}
use chrono_shift.Net.Relay.{RelayVerifier, pin_key}

pub record RelayPath : Type 0 where
  pub relay_uid : Bytes
  pub target_uid : Bytes
  pub active : Bool
  pub bytes_relayed : ℕ

pub record RelayRouter : Type 0 where
  pub paths : Dict Bytes (List RelayPath)

abbrev pub new : RelayRouter
new = record { paths = [] }

-- `get(target).unwrap_or_default()`
abbrev pub paths_to : Bytes → RelayRouter → List RelayPath
paths_to target_uid router = elim (lookup target_uid router.paths) [ none ↦ [] | some ps ↦ ps ]

unfoldable pub add_path : Bytes → Bytes → RelayRouter → RelayRouter
add_path target_uid relay_uid router =
    let path : RelayPath = record {
      relay_uid = relay_uid;
      target_uid = target_uid;
      active = true;
      bytes_relayed = 0;
    } in
    record router {
      paths = insert target_uid (paths_to target_uid router ++ path ∷ []) router.paths;
    }

unfoldable pub remove_target : Bytes → RelayRouter → RelayRouter
remove_target target_uid router = record router { paths = remove target_uid router.paths }

-- `filter(|p| p.active)`
abbrev pub active_only : List RelayPath → List RelayPath
active_only [] = []
active_only (p ∷ ps) = let rest = active_only ps in if p.active then p ∷ rest else rest

-- `any(|p| p.active)`
abbrev pub any_active : List RelayPath → Bool
any_active [] = false
any_active (p ∷ ps) = let rest = any_active ps in if p.active then true else rest

abbrev pub get_paths : Bytes → RelayRouter → List RelayPath
get_paths target_uid router = active_only (paths_to target_uid router)

abbrev pub has_path : Bytes → RelayRouter → Bool
has_path target_uid router = any_active (paths_to target_uid router)

-- `first().map(|p| p.relay_uid.clone())`
abbrev pub first_relay : List RelayPath → Option Bytes
first_relay [] = none
first_relay (p ∷ ps) = some p.relay_uid

abbrev pub next_hop : Bytes → RelayRouter → Option Bytes
next_hop target_uid router = first_relay (get_paths target_uid router)

first_relay-append :
    (ps : List RelayPath) (p : RelayPath)
    → p.active ≡ true
    → first_relay (active_only (ps ++ p ∷ []))
      ≡ (elim (first_relay (active_only ps)) [ none ↦ some p.relay_uid | some r ↦ some r ])
first_relay-append [] p on = rw on refl
first_relay-append (q ∷ ps) p on = ground (arith, first_relay-append ps p on)

-- A new path to a target is taken when there was none before, and else waits behind the first; the
-- hops to the other targets stay.
pub next_hop-add_path :
    (target relay : Bytes) (router : RelayRouter) (other : Bytes)
    → next_hop other (add_path target relay router) ≡ (
        if target =? other
        then (elim (next_hop target router) [ none ↦ some relay | some r ↦ some r ])
        else next_hop other router)
unfolding add_path
next_hop-add_path target relay router other =
    let path : RelayPath = record {
      relay_uid = relay;
      target_uid = target;
      active = true;
      bytes_relayed = 0;
    } in
    ground (
      arith,
      lookup-insert target other (paths_to target router ++ path ∷ []) router.paths,
      first_relay-append (paths_to target router) path refl,
    )

-- There is a path exactly when there is a next hop.
pub has_path_iff :
    (target : Bytes) (router : RelayRouter)
    → (has_path target router ≡ true) ↔ ((r : Bytes) × (next_hop target router ≡ some r))
has_path_iff target router = go (paths_to target router)
  where
    go :
        (ps : List RelayPath)
        → (any_active ps ≡ true) ↔ ((r : Bytes) × (first_relay (active_only ps) ≡ some r))
    go [] = (λ h. cc, λ (r, h). cc)
    go (p ∷ ps) = elim (Bool-cases p.active) [
      | inl on ↦ rw on (λ h. (p.relay_uid, refl), λ h. refl)
      | inr off ↦ rw off (go ps)
    ]

pin_key-others :
    (sender key other other_key : Bytes) (v : RelayVerifier)
    → lookup sender v.key_pins ≡ some key
    → length v.key_pins < 4096
    → lookup sender (pin_key other other_key v).0.key_pins ≡ some key
unfolding pin_key
pin_key-others sender key other other_key v pinned room =
    elim (Option-cases (lookup other v.key_pins)) [
      | inl unknown ↦
          let small : leb 4096 (length v.key_pins) ≡ false = ground arith in
          let apart : (other =? sender) ≡ false =
            ne→=?_false other sender (λ e. cc (unknown, pinned, ap (λ k. lookup k v.key_pins) e)) in
          rw (pin_key, unknown, small)
            (lookup-insert other sender other_key v.key_pins
              ∙ ap (λ b. if b then some other_key else lookup sender v.key_pins) apart
              ∙ pinned)
      | inr (prev, known) ↦ elim (Bool-cases (prev =? other_key)) [
        | inl same ↦ rw (pin_key, known, same) pinned
        | inr differs ↦ rw (pin_key, known, differs) pinned
      ]
    ]

-- A pinned key is the only one that its sender is accepted with, and no call of `pin_key` changes
-- it, as long as the table holds fewer than 4096 pins, so that it is not cleared.
pub pin_key_sticks :
    (sender key : Bytes) (v : RelayVerifier)
    → lookup sender v.key_pins ≡ some key
    → length v.key_pins < 4096
    → (other other_key : Bytes)
    → (lookup sender (pin_key other other_key v).0.key_pins ≡ some key)
      × ((is_ok (pin_key sender other_key v).1 ≡ true) ↔ (other_key ≡ key))
unfolding pin_key
pin_key_sticks sender key v pinned room other other_key = (
  pin_key-others sender key other other_key v pinned room,
  rw (pin_key, pinned)
      (elim (Bool-cases (key =? other_key)) [
        | inl same ↦ rw same (λ h. sym ((=?_iff key other_key).0 same), λ h. refl)
        | inr differs ↦ rw differs (λ h. cc, λ h. cc (differs, (=?_iff key other_key).1 (sym h)))
      ]),
)
