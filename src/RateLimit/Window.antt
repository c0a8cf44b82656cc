-- ===== src/RateLimit/Window.antt =====
-- The bound on the requests with one address that reach the next handler within a window.
use ting_boundless.Http.{Request}
use ting_boundless.RateLimit.{
  Memory, Zone, auth, general, window_limit, client_ip, window_key, zone_of, counted, redis_allow,
  Zone, Counters, Buckets,
}
use ting_boundless.RateLimit.Middleware.{
  or_memory, allow, decided, window_at, redis_first, rate_limited, Gate, Stores,
}
use ting_boundless.Base.{
  All, sym, not, ap, subst, eq_of_text_eq, ◌∙◌, ◌≤◌, ◌<◌, ◌-◌, if-both, arith, leb, text_eq, Bool,
  List, Text, ℕ, ◌&&◌, ◌∷◌, ◌≡◌, if◌then◌else◌, refl, false, true, some, suc, [],
}
use ting_boundless.Base.Results.{Result, err, ok}
use ting_boundless.RateLimit.Limits.{redis_allow-Counted, redis_allow_grows, Counted}

unfoldable pub zone_eq : Zone → Zone → Bool
zone_eq auth auth = true
zone_eq general general = true
zone_eq _ _ = false

eq_of_zone_eq : (z y : Zone) → zone_eq z y ≡ true → z ≡ y
unfolding zone_eq
eq_of_zone_eq auth auth h = refl
eq_of_zone_eq general general h = refl
eq_of_zone_eq auth general h = absurd (ground arith)
eq_of_zone_eq general auth h = absurd (ground arith)

module _ (counters : Counters) (buckets : Buckets) (g : Gate) where
  open counters use {State, incr, number}

  -- A request through the middleware with Redis, where `true` is the reply of the next handler.
  unfoldable pub pass : ℕ → Request → Stores counters buckets → Bool × Stores counters buckets
  pass now r st =
      rate_limited counters buckets (λ l. false) (λ q. true) (some redis_first) g [] now r st

  -- The request is one of that zone and address.
  unfoldable pub is_client : Zone → Text → Request → Bool
  unfolding zone_eq
  is_client zone ip r = zone_eq (zone_of r.path) zone && text_eq (client_ip g.split_host r) ip

  -- How many requests with an address reach the next handler, of a sequence of requests and the times
  -- when they come.
  unfoldable pub passed : Zone → Text → List (ℕ × Request) → Stores counters buckets → ℕ
  passed zone ip [] st = 0
  passed zone ip ((now, r) ∷ rs) st =
      let out = pass now r st in
      let rest = passed zone ip rs out.1 in if is_client zone ip r && out.0 then suc rest else rest

  abbrev Answers : Type 0
  Answers = (k : Text) (s : State) → (n : ℕ) × ((incr k s).0 ≡ ok n)

  redis_allow-ok :
      Answers
      → (window : ℕ) (zone : Zone) (ip : Text) (s : State)
      → (b : Bool) × ((redis_allow counters g.decimal g.config window zone ip s).0 ≡ ok b)
  unfolding redis_allow
  redis_allow-ok answers window zone ip s =
      if-both (λ (out : Result Bool × State). (b : Bool) × (out.0 ≡ ok b))
        (leb (window_limit g.config zone) 0) _ _ (λ _. (true, refl))
        λ _.
          let (n, h) = answers (window_key counters g.decimal window zone ip) s in
          counted_ok (window_limit g.config zone) n
            (incr (window_key counters g.decimal window zone ip) s) h
    where
      counted_ok :
          (max n : ℕ) (r : Result ℕ × State)
          → r.0 ≡ ok n
          → (b : Bool) × ((counted counters (window_key counters g.decimal window zone ip) max r).0
              ≡ ok b)
      counted_ok max n (ok m, t) h = (leb m max, refl)
      counted_ok max n (err e, t) h = absurd (ground arith)

  -- The call of Redis that a request makes.
  abbrev redis_call : ℕ → Request → State → Result Bool × State
  redis_call now r s =
      redis_allow counters g.decimal g.config (window_at now) (zone_of r.path)
        (client_ip g.split_host r) s

  pass-redis_call :
      Answers
      → g.config.enabled ≡ true
      → (now : ℕ) (r : Request) (s : State) (m : Memory buckets)
      → let out = pass now r (s, m) in
        (out.1 ≡ ((redis_call now r s).1, m)) × ((redis_call now r s).0 ≡ ok out.0)
  unfolding pass rate_limited decided allow or_memory
  pass-redis_call answers on now r s m =
      let (b, h) =
        redis_allow-ok answers (window_at now) (zone_of r.path) (client_ip g.split_host r) s in
      by_result (redis_call now r s) b h
    where
      gate : Bool × Stores counters buckets → Bool × Stores counters buckets
      gate out =
          decided counters buckets (λ l. false) (λ q. true) g [] (zone_of r.path)
            (client_ip g.split_host r) r out

      by_result :
          (c : Result Bool × State) (b : Bool)
          → c.0 ≡ ok b
          → let out =
              if not g.config.enabled
              then (true, (s, m))
              else gate (
                  or_memory counters buckets now (zone_of r.path) (client_ip g.split_host r) m c) in
            (out.1 ≡ (c.1, m)) × (c.0 ≡ ok out.0)
      by_result (err e, t) b h = absurd (ground arith)
      by_result (ok true, t) b h = rw on (refl, refl)
      by_result (ok false, t) b h = rw on (refl, refl)

  module _ (answers : Answers) (on : g.config.enabled ≡ true) (zone : Zone) (ip : Text) (window : ℕ)
      (limited : 0 < window_limit g.config zone) where
    abbrev key : Text
    key = window_key counters g.decimal window zone ip

    -- A request of the client that passes was counted.
    client-Counted :
        (now : ℕ) (r : Request) (s : State)
        → window_at now ≡ window
        → is_client zone ip r ≡ true
        → Counted counters key (window_limit g.config zone) s (redis_call now r s)
    unfolding is_client
    client-Counted now r s w h =
        let z = eq_of_zone_eq (zone_of r.path) zone (ground arith) in
        let i = eq_of_text_eq (client_ip g.split_host r) ip (ground arith) in
        subst
          (λ y. Counted counters key (window_limit g.config zone) s (
            redis_allow counters g.decimal g.config (window_at now) y (client_ip g.split_host r) s))
          (sym z)
          (subst
            (λ a.
              Counted counters key (window_limit g.config zone) s
                (redis_allow counters g.decimal g.config (window_at now) zone a s))
            (sym i)
            (subst
              (λ n.
                Counted counters key (window_limit g.config zone) s
                  (redis_allow counters g.decimal g.config n zone ip s))
              (sym w) (redis_allow-Counted counters g.decimal g.config window zone ip s limited)))

    passed_le_rest :
        (rs : List (ℕ × Request)) (s : State) (m : Memory buckets)
        → All (λ q. window_at q.0 ≡ window) rs
        → passed zone ip rs (s, m) ≤ window_limit g.config zone - number s key
    unfolding passed
    passed_le_rest [] s m ws = omega arith
    passed_le_rest ((now, r) ∷ rs) s m (w, ws) =
        let (e, q) = pass-redis_call answers on now r s m in
        let t = (redis_call now r s).1 in
        let rest = passed_le_rest rs t m ws in
        let grows =
          redis_allow_grows counters g.decimal g.config (window_at now) (zone_of r.path)
            (client_ip g.split_host r) key s in
        rw e (
          if-both (λ (n : ℕ). n ≤ window_limit g.config zone - number s key)
            (is_client zone ip r && (pass now r (s, m)).0) _ _
            (λ b.
              let (i, j) =
                (client-Counted now r s w (ground (arith, b))).1 (q ∙ ap ok (ground (arith, b))) in
              omega (arith, rest, grows, i, j))
            (λ b. omega (arith, rest, grows)))

    -- Where every INCR is answered, the middleware is enabled and the zone has a limit: of any sequence
    -- of requests that the middleware handles with Redis at times within one window, at most as many with
    -- one address as the limit of the zone reach the next handler. The address is the one that the code
    -- counts under, which is the first element of X-Forwarded-For where a request has that header.
    pub passed_bounds :
        (rs : List (ℕ × Request)) (s : State) (m : Memory buckets)
        → All (λ q. window_at q.0 ≡ window) rs
        → passed zone ip rs (s, m) ≤ window_limit g.config zone
    passed_bounds rs s m ws = omega (arith, passed_le_rest rs s m ws)
