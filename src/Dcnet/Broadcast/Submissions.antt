-- ===== src/Dcnet/Broadcast/Submissions.antt =====
-- Shares handed to a collector one after the other, in any order of the members.
use mathlib.Core.List.{append-nil, append_assoc}
use chrono_shift.Prelude.{
  Result, ok, err, Result, ok, err, ℕ, suc, ◌<◌, ◌≡◌, refl, sym, ap, ◌∙◌, bit_xor, true, false,
  some, List, [], ◌∷◌, ◌++◌, arith, length, get_or, replicate, ◌==◌,
}
use chrono_shift.Prelude.Bits.{xor-zero, xor_assoc}
use chrono_shift.Prelude.Keys.{
  Bytes, bytes_eq, ne→=?_false, contains, contains_head, contains_tail, Distinct,
}
use chrono_shift.Prelude.Dict.{Dict, has_key, has_key-append, insert-fresh}
use chrono_shift.Prelude.Words.{copy_at_whole}
use chrono_shift.Dcnet.Xor.{xor_bytes, length-xor_bytes, get_or-xor_bytes}
use chrono_shift.Dcnet.Collector.{
  SubmitError, RoundCollector, submit_share, xor_values, extract_message,
}
use chrono_shift.Dcnet.Broadcast.Sums.{xor_sum}

unfoldable pub submit_all :
    List (Bytes × Bytes) → RoundCollector → Result RoundCollector SubmitError
submit_all [] c = ok c
submit_all ((uid, share) ∷ rest) c = elim (submit_share uid share c) [
  | err e ↦ err e
  | ok c' ↦ submit_all rest c'
]

module _ (share : Bytes → Bytes) where
  unfoldable pub from_members : List Bytes → Dict Bytes Bytes
  from_members [] = []
  from_members (u ∷ us) = (u, share u) ∷ from_members us

  pub length-from_members : (us : List Bytes) → length (from_members us) ≡ length us
  unfolding from_members
  length-from_members [] = refl
  length-from_members (u ∷ us) = ap suc (length-from_members us)

  submit_member :
      (u : Bytes) (c : RoundCollector)
      → contains c.participants u ≡ true
      → has_key u c.shares_received ≡ false
      → length (share u) ≡ c.payload_len
      → submit_share u (share u) c
        ≡ ok (record c { shares_received = c.shares_received ++ (u, share u) ∷ [] })
  unfolding submit_share
  submit_member u c member fresh len =
      let same : (length (share u) == c.payload_len) ≡ true = ground arith in
      rw (member, fresh, same, insert-fresh u (share u) c.shares_received fresh)

  -- Distinct members with shares of the right length are all accepted, and their shares are kept
  -- in the order in which they came.
  pub submit_all_ok :
      (us : List Bytes) (c : RoundCollector)
      → Distinct us
      → ((u : Bytes) → contains us u ≡ true → contains c.participants u ≡ true)
      → ((u : Bytes) → contains us u ≡ true → has_key u c.shares_received ≡ false)
      → ((u : Bytes) → contains us u ≡ true → length (share u) ≡ c.payload_len)
      → submit_all (from_members us) c
        ≡ ok (record c { shares_received = c.shares_received ++ from_members us })
  unfolding submit_all from_members
  submit_all_ok [] c d member fresh len =
      ap (λ s. ok (record c { shares_received = s })) (sym (append-nil _))
  submit_all_ok (u ∷ us) c d member fresh len =
      rw
        (
          submit_all,
          submit_member u c (member u (contains_head u us)) (fresh u (contains_head u us))
              (len u (contains_head u us)),
        )
        (submit_all_ok us _ d.1 (λ v m. member v (contains_tail u us v m)) later
            (λ v m. len v (contains_tail u us v m))
          ∙ ap (λ s. ok (record c { shares_received = s }))
              (append_assoc c.shares_received ((u, share u) ∷ []) (from_members us)))
    where
      later :
          (v : Bytes)
          → contains us v ≡ true
          → has_key v (c.shares_received ++ (u, share u) ∷ []) ≡ false
      later v m =
          rw (has_key-append v u (share u) c.shares_received, fresh v (contains_tail u us v m))
            (ne→=?_false u v (λ e. cc (d.0, m, ap (contains us) e)))

pub extract_nonempty :
    (c : RoundCollector)
    → 0 < length c.shares_received
    → extract_message c ≡ some (xor_values (replicate c.payload_len 0) c.shares_received)
unfolding extract_message
extract_nonempty c h = grind arith

module _ (share : Bytes → Bytes) (payload_len : ℕ) where
  -- The running result of `extract_message`, byte by byte.
  pub xor_values_at :
      (us : List Bytes) (result : Bytes)
      → length result ≡ payload_len
      → ((u : Bytes) → contains us u ≡ true → length (share u) ≡ payload_len)
      → (length (xor_values result (from_members share us)) ≡ payload_len)
        × ((j : ℕ)
            → get_or (xor_values result (from_members share us)) j 0
              ≡ bit_xor (get_or result j 0) (xor_sum (λ u. get_or (share u) j 0) us))
  unfolding xor_values from_members
  xor_values_at [] result len lens = (len, λ j. sym (xor-zero _))
  xor_values_at (u ∷ us) result len lens =
      let step : Bytes = xor_bytes result (share u) in
      let wide : length step ≡ payload_len =
        omega (arith, length-xor_bytes result (share u), lens u (contains_head u us)) in
      let rest = xor_values_at us step wide (λ v m. lens v (contains_tail u us v m)) in
      let first : xor_values result (from_members share (u ∷ us))
          ≡ xor_values step (from_members share us) =
        ap (λ r. xor_values r (from_members share us))
          (copy_at_whole step result (wide ∙ sym len)) in
      (
        ap length first ∙ rest.0,
        λ j.
            ap (λ r. get_or r j 0) first
            ∙ rest.1 j
            ∙ ap (λ (t : ℕ). bit_xor t (xor_sum (λ v. get_or (share v) j 0) us))
                (get_or-xor_bytes result (share u) j)
            ∙ xor_assoc _ _ _,
      )
