-- ===== src/Worker/Attempts.antt =====
-- How often a delivery is tried.
use ting_boundless.Base.{ltb, Bool-cases, arith, ℕ, Text, ◌≤◌, ◌<◌, ◌+◌, ◌⊎◌, ◌≡◌, inr, inl, true}
use ting_boundless.Base.Results.{Result-cases, Err, is_err, Result, err, ok}
use ting_boundless.Worker.{
  acked, dead_lettered, death_count, disposed, parse_job, requeued, handled, Delivery,
  handle_delivery, Job,
}

module _ {W : Type 0} (decode : Text → Result Job) (now : ℕ)
    (handler : Job → W → Result (Unit {0}) × W) (max_retries : ℕ) where
  -- A delivery has one of four outcomes. Its body is no job: it is dead-lettered, the handler not called.
  -- The handler succeeds: it is acknowledged. The handler fails: it is requeued if the deaths that
  -- its header counts, and one, are fewer than the retries allowed, and dead-lettered otherwise.
  pub handle_delivery_cases :
      (d : Delivery) (w : W)
      → let out = handle_delivery decode now handler max_retries d w in
        ((e : Err) × (parse_job decode now d.body ≡ err e) × (out ≡ (dead_lettered, w)))
        ⊎ ((j : Job) × (parse_job decode now d.body ≡ ok j)
            × (out.1 ≡ (handler j w).1)
            × (((handler j w).0 ≡ ok tt) × (out.0 ≡ acked)
                ⊎ (is_err (handler j w).0 ≡ true)
                  × (death_count d + 1 < max_retries)
                  × (out.0 ≡ requeued)
                ⊎ (is_err (handler j w).0 ≡ true)
                  × (max_retries ≤ death_count d + 1)
                  × (out.0 ≡ dead_lettered)))
  unfolding handle_delivery handled disposed
  handle_delivery_cases d w = elim (Result-cases (parse_job decode now d.body)) [
    | inr (e, q) ↦ inl (e, q, ground (arith, q))
    | inl (j, q) ↦ elim (Result-cases (handler j w).0) [
      | inl (u, h) ↦ inr (j, q, ground (arith, q, h), inl (ground (arith, h), ground (arith, q, h)))
      | inr (e, h) ↦ elim (Bool-cases (ltb (death_count d + 1) max_retries)) [
        | inl b ↦ inr (
          j,
          q,
          ground (arith, q, h),
          inr (inl (ground (arith, h), ground (arith, b), ground (arith, q, h, b))),
        )
        | inr b ↦ inr (
          j,
          q,
          ground (arith, q, h),
          inr (inr (ground (arith, h), ground (arith, b), ground (arith, q, h, b))),
        )
      ]
    ]
  ]
