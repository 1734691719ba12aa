-- ===== src/Operations/Buckets.antt =====
-- What a `Bucket` of apps/operations/throttle.py counts, over any cache that behaves as documented.
use trend_engine_backend.Base.{
  ℕ, zero, suc, ◌<◌, ◌≡◌, true, false, Option, none, some, leb, eq_text_refl, arith, Option-cases,
  inl, inr,
}
use trend_engine_backend.Operations.Throttle.{
  Cache, Bucket, exceeded, record_attempt, after_incr, clear,
}

-- What is counted under a key, 0 where nothing is.
abbrev pub counted : Option ℕ → ℕ
counted none = 0
counted (some n) = n

module _ (cache : Cache) where
  open cache use {
    State, lookup, get, add, incr, put, delete, get_lem, lookup-add, lookup-put, lookup-delete,
    incr_absent, incr_present,
  }

  after_incr-lookup :
      (s : State) (b : Bucket)
      → lookup (after_incr cache s b (incr s b.key)).1 b.key
        ≡ some (after_incr cache s b (incr s b.key)).0
  after_incr-lookup s b = elim (Option-cases (lookup s b.key)) [
    | inl e ↦
        rw (incr_absent s b.key e)
          (ground (arith, lookup-put s b.key b.key 1 b.window, eq_text_refl b.key))
    | inr (n, e) ↦
        (let (s', step, after) = incr_present s b.key n e in
          rw step (ground (arith, after b.key, eq_text_refl b.key)))
  ]

  -- An attempt is always counted: whatever expires while it is recorded, the number that record
  -- returns is what the cache then holds under the key.
  pub record_attempt-lookup :
      (lapse : State → State) (s : State) (b : Bucket)
      → lookup (record_attempt cache lapse s b).1 b.key ≡ some (record_attempt cache lapse s b).0
  unfolding record_attempt
  record_attempt-lookup lapse s b = after_incr-lookup (lapse (add s b.key 0 b.window)) b

  abbrev stay : State → State
  stay s = s

  -- The endpoints' use of a bucket, for requests that all fail: one that is over the ceiling is
  -- turned away, any other is tried and recorded. The result is how many were tried.
  unfoldable pub tried : ℕ → State → Bucket → ℕ
  tried zero s b = 0
  tried (suc k) s b = elim (exceeded cache s b) [
    | true ↦ tried k s b
    | false ↦ suc (tried k (record_attempt cache stay s b).1 b)
  ]

  exceeded-counted :
      (s : State) (b : Bucket)
      → 0 < b.limit
      → exceeded cache s b ≡ leb b.limit (counted (lookup s b.key))
  unfolding exceeded
  exceeded-counted s b h = ground (arith, get_lem s b.key 0)

  -- A bucket with a positive limit that was cleared is not exceeded.
  pub clear-exceeded :
      (s : State) (b : Bucket) → 0 < b.limit → exceeded cache (clear cache s b) b ≡ false
  unfolding clear
  clear-exceeded s b h = ground (
    arith,
    exceeded-counted (delete s b.key) b h,
    lookup-delete s b.key b.key,
    eq_text_refl b.key,
  )
