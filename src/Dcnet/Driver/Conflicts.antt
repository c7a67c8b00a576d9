-- ===== src/Dcnet/Driver/Conflicts.antt =====
-- Two initiators of one round id, and the order of the shares: dcnet/round_driver.rs.
use chrono_shift.Prelude.{
  ℕ, ◌≡◌, ◌⊎◌, refl, ap, true, false, not, ◌&&◌, Option, none, some, List, [], ◌∷◌, arith,
  Bool-cases, Option-cases, inl, inr,
}
use chrono_shift.Prelude.Keys.{Bytes, bytes_eq, =?_iff}
use chrono_shift.Dcnet.Collector.{RoundCollector, missing_participants}
use chrono_shift.Dcnet.Driver.{RoundContext, RoundDriver, is_some_id}
use chrono_shift.Dcnet.Driver.Handlers.{send_mine, is_only}

is_some_id_iff : (o : Option ℕ) (id : ℕ) → is_some_id o id ≡ true → o ≡ some id
is_some_id_iff none id e = cc
is_some_id_iff (some n) id e = ground arith

is_only_iff : (me : Bytes) (us : List Bytes) → is_only me us ≡ true → us ≡ me ∷ []
is_only_iff me [] e = cc
is_only_iff me (u ∷ []) e = ap (λ v. v ∷ []) ((=?_iff u me).0 e)
is_only_iff me (u ∷ v ∷ us) e = cc

-- The initiator's own share, which carries the message, goes out at most once, for the round that
-- it has pending, and only when no other share is missing.
pub send_mine_last :
    (ctx : RoundContext) (channel : Bytes) (round_id : ℕ) (c : RoundCollector) (d : RoundDriver)
    → ((send_mine ctx channel round_id c d).1.1 ≡ [])
      ⊎ ((d.pending_round_id ≡ some round_id)
          × (d.my_share_broadcast ≡ false)
          × (missing_participants c ≡ ctx.my_uid ∷ [])
          × ((send_mine ctx channel round_id c d).0.my_share_broadcast ≡ true))
unfolding send_mine
send_mine_last ctx channel round_id c d =
    elim (Bool-cases (
      is_some_id d.pending_round_id round_id
      && not d.my_share_broadcast
      && is_only ctx.my_uid (missing_participants c))) [
        | inr not_now ↦ inl (rw (send_mine, not_now) refl)
        | inl now ↦ elim (Option-cases d.my_share) [
          | inl none_left ↦ inl (rw (send_mine, now, none_left) refl)
          | inr (mine, there) ↦ inr (
            is_some_id_iff d.pending_round_id round_id (ground arith),
            ground arith,
            is_only_iff ctx.my_uid (missing_participants c) (ground arith),
            rw (send_mine, now, there) refl,
          )
        ]
      ]

-- The round is given up for now, and its message will be sent again after the peer's round.
abbrev pub Yields : ℕ → RoundDriver → RoundDriver → Type 0
Yields id before after =
    (after.pending_round_id ≡ none)
    × (after.retry_after_peer ≡ some id)
    × (after.pending_message ≡ before.pending_message)

-- The own round goes on.
abbrev pub Insists : ℕ → RoundDriver → Type 0
Insists id after = after.pending_round_id ≡ some id
