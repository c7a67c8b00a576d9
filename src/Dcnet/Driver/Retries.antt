-- ===== src/Dcnet/Driver/Retries.antt =====
-- The count of retries of dcnet/round_driver.rs.
use chrono_shift.Prelude.{
  ℕ, ◌+◌, ◌<◌, ◌≡◌, refl, ◌∙◌, true, false, some, List, Result, ok, err, is_ok, leb, arith,
}
use chrono_shift.Prelude.Keys.{Bytes}
use chrono_shift.Primitives.{Hash, Kdf, Signer}
use chrono_shift.Dcnet.Driver.{
  RoundContext, RoundDriver, Outgoing, InitiateError, initiate, buffered, retry_pending,
  max_conflict_retries,
}

module _ (h : Hash) (kdf : Kdf) (signer : Signer) where
  initiate-retries :
      (now : ℕ) (ctx : RoundContext) (channel text : Bytes) (ps : List Bytes) (d : RoundDriver)
      → is_ok (initiate h kdf signer now ctx channel text ps d).1 ≡ true
      → ((initiate h kdf signer now ctx channel text ps d).0.retries ≡ 0)
        × ((initiate h kdf signer now ctx channel text ps d).0.pending_message ≡ some text)
  unfolding initiate
  initiate-retries now ctx channel text ps d e = ground arith

  buffered-fields :
      (r : RoundDriver × Result Outgoing InitiateError)
      → ((buffered r).retries ≡ r.0.retries) × ((buffered r).pending_message ≡ r.0.pending_message)
  buffered-fields (d, ok out) = (refl, refl)
  buffered-fields (d, err e) = (refl, refl)

  -- A retry that goes out sets the count of retries back to 0 and keeps the message queued, so that
  -- the bound on retries does not drop a message whose rounds can be initiated.
  pub retry_pending_resets :
      (now : ℕ) (ctx : RoundContext) (channel text : Bytes) (ps : List Bytes) (d : RoundDriver)
      → d.retries < max_conflict_retries
      → d.pending_message ≡ some text
      → is_ok
          (initiate h kdf signer now ctx channel text ps (record d { retries = d.retries + 1 })).1
        ≡ true
      → ((retry_pending h kdf signer now ctx channel ps d).retries ≡ 0)
        × ((retry_pending h kdf signer now ctx channel ps d).pending_message ≡ some text)
  unfolding retry_pending
  retry_pending_resets now ctx channel text ps d few waiting sent =
      let free : leb 3 d.retries ≡ false = ground arith in
      let (r, m) =
        initiate-retries now ctx channel text ps (record d { retries = d.retries + 1 }) sent in
      let (br, bm) =
        buffered-fields
          (initiate h kdf signer now ctx channel text ps (record d { retries = d.retries + 1 })) in
      rw (retry_pending, free, waiting) (br ∙ r, bm ∙ m)
