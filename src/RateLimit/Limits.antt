-- ===== src/RateLimit/Limits.antt =====
-- How many requests of one client pass in a window.
use ting_boundless.RateLimit.{
  window_key, window_limit, Zone, redis_allow, counted, Counters, Config,
}
use ting_boundless.Base.{
  leb, if-both, Bool-cases, arith, Bool, ℕ, Text, ◌==◌, ◌≤◌, ◌<◌, ◌+◌, ◌≡◌, refl, inr, inl, true,
}
use ting_boundless.Base.Results.{Result, err, ok}

module _ (counters : Counters) where
  open counters use {State, incr, expire, number, incr-ok, incr_grows, expire_keeps}

  -- A count is not lowered, and a request that is allowed under a limit was counted within it.
  abbrev pub Counted : Text → ℕ → State → Result Bool × State → Type 0
  Counted k max s out =
      ((j : Text) → number s j ≤ number out.1 j)
      × (out.0 ≡ ok true → (number s k + 1 ≤ max) × (number s k + 1 ≤ number out.1 k))

  counted_cases :
      (k : Text) (max : ℕ) (s : State) (r : Result ℕ × State)
      → ((n : ℕ) → r.0 ≡ ok n → (n ≡ number s k + 1) × (n ≤ number r.1 k))
      → ((j : Text) → number s j ≤ number r.1 j)
      → Counted k max s (counted counters k max r)
  unfolding counted
  counted_cases k max s (err e, t) h g = (g, λ q. absurd (ground arith))
  counted_cases k max s (ok n, t) h g = elim (Bool-cases (n == 1)) [
    | inl b ↦ rw b (
      λ j. rw (expire_keeps k j 2 t (omega arith)) (g j),
      λ q. (
        ground (arith, (h n refl).0, q),
        rw (expire_keeps k k 2 t (omega arith)) (ground (arith, (h n refl).0, (h n refl).1)),
      ),
    )
    | inr b ↦
        rw b (g, λ q. (ground (arith, (h n refl).0, q), ground (arith, (h n refl).0, (h n refl).1)))
  ]

  pub redis_allow-Counted :
      (decimal : ℕ → Text) (cfg : Config) (window : ℕ) (zone : Zone) (ip : Text) (s : State)
      → 0 < window_limit cfg zone
      → Counted
          (window_key counters decimal window zone ip)
          (window_limit cfg zone)
          s
          (redis_allow counters decimal cfg window zone ip s)
  unfolding redis_allow
  redis_allow-Counted decimal cfg window zone ip s h =
      let k = window_key counters decimal window zone ip in
      if-both (Counted k (window_limit cfg zone) s) (leb (window_limit cfg zone) 0) _ _
        (λ b. absurd (ground (arith, b, h)))
        λ _.
          counted_cases k (window_limit cfg zone) s (incr k s) (λ n q. incr-ok k s q)
            (λ j. incr_grows k j s)

  pub redis_allow_grows :
      (decimal : ℕ → Text) (cfg : Config) (window : ℕ) (zone : Zone) (ip j : Text) (s : State)
      → number s j ≤ number (redis_allow counters decimal cfg window zone ip s).1 j
  unfolding redis_allow
  redis_allow_grows decimal cfg window zone ip j s =
      let k = window_key counters decimal window zone ip in
      if-both (λ (out : Result Bool × State). number s j ≤ number out.1 j)
        (leb (window_limit cfg zone) 0) _ _ (λ _. omega arith)
        λ _.
          (counted_cases k (window_limit cfg zone) s (incr k s) (λ n q. incr-ok k s q)
              (λ i. incr_grows k i s)).0
            j
