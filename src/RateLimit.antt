-- ===== src/RateLimit.antt =====
-- Rate limiting at the edge: go/services/gateway/internal/ratelimit (limiter.go, middleware.go,
-- redis.go). Redis and the token buckets of golang.org/x/time/rate are parameters.
pub mod Middleware
pub mod Limits
pub mod Window
use ting_boundless.Base.Results.{Result, ok, err}
use ting_boundless.Base.{
  trim_space, text_eq, is_nil, not, List, leb, has_prefix, codes, ltb, Option, Text, ℕ, Bool, ◌==◌,
  ◌||◌, ◌≤◌, ◌+◌, ◌++◌, ◌∷◌, ◌≡◌, if◌then◌else◌, true, some, none, [],
}
use ting_boundless.Httpx.{request_id, env, Environment}
use ting_boundless.Http.{x_real_ip, x_forwarded_for, get, Request}

-- What the code reads of a float64 of requests per second: whether it is above 0, and its integer part.
pub record Rate : Type 0 where
  pub positive : Bool
  pub whole : ℕ

-- `Config`; a burst below 0 is not told from 0.
pub record Config : Type 0 where
  pub auth_rps : Rate
  pub auth_burst : ℕ
  pub general_rps : Rate
  pub general_burst : ℕ
  pub enabled : Bool

-- What the middleware reads the environment with: `strconv.ParseFloat` with the test whether the number
-- is below 0, and `strconv.Atoi`, where a number below 0 is an error.
pub record Numbers : Type 0 where
  pub parse_float : Text → Result (Rate × Bool)
  pub parse_int : Text → Result ℕ

float_or : Rate → Result (Rate × Bool) → Rate
float_or default (err e) = default
float_or default (ok (f, negative)) = if negative then default else f

int_or : ℕ → Result ℕ → ℕ
int_or default (err e) = default
int_or default (ok n) = n

-- `envFloat`.
unfoldable pub env_float : Numbers → Environment → Text → Rate → Rate
unfolding float_or
env_float numbers e key default =
    let v = env e key [] in if is_nil v then default else float_or default (numbers.parse_float v)

-- `envInt`.
unfoldable pub env_int : Numbers → Environment → Text → ℕ → ℕ
unfolding int_or
env_int numbers e key default =
    let v = env e key [] in if is_nil v then default else int_or default (numbers.parse_int v)

abbrev per_second : ℕ → Rate
per_second n = record { positive = ltb 0 n; whole = n }

-- `ConfigFromEnv`.
unfoldable pub config_from_env : Numbers → Environment → Config
unfolding env_float env_int
config_from_env numbers e = record {
  auth_rps = env_float numbers e (codes "GATEWAY_RATE_LIMIT_AUTH_RPS") (per_second 5);
  auth_burst = env_int numbers e (codes "GATEWAY_RATE_LIMIT_AUTH_BURST") 10;
  general_rps = env_float numbers e (codes "GATEWAY_RATE_LIMIT_GENERAL_RPS") (per_second 50);
  general_burst = env_int numbers e (codes "GATEWAY_RATE_LIMIT_GENERAL_BURST") 100;
  enabled =
      not (text_eq (env e (codes "GATEWAY_RATE_LIMIT_ENABLED") (codes "true")) (codes "false"));
}

-- `isAuthPath`.
unfoldable pub is_auth_path : Text → Bool
is_auth_path path =
    has_prefix path (codes "/v1/auth/")
    || text_eq path (codes "/internal/webhooks/logto")
    || has_prefix path (codes "/sign-in")
    || text_eq path (codes "/callback")

-- The text before the first comma, or all of it.
before_comma : Text → Text
before_comma [] = []
before_comma (c ∷ s) = let rest = before_comma s in if c == b',' then [] else c ∷ rest

unfoldable pub host_or : Text → Result Text → Text
host_or addr (ok host) = host
host_or addr (err e) = addr

-- `clientIP`; `split_host` is the host that `net.SplitHostPort` gives.
unfoldable pub client_ip : (Text → Result Text) → Request → Text
unfolding before_comma host_or
client_ip split_host r =
    if not (is_nil (get r.headers x_forwarded_for))
    then trim_space (before_comma (get r.headers x_forwarded_for))
    else if not (is_nil (get r.headers x_real_ip))
    then get r.headers x_real_ip
    else host_or r.remote_addr (split_host r.remote_addr)

-- The two zones.
pub data Zone : Type 0 where
  auth general : Zone

unfoldable pub zone_name : Zone → Text
zone_name auth = codes "auth"
zone_name general = codes "general"

unfoldable pub zone_of : Text → Zone
zone_of path = if is_auth_path path then auth else general

-- `limitPerWindow`.
unfoldable pub limit_per_window : Rate → ℕ → ℕ
limit_per_window rps burst =
    if ltb 0 burst
    then burst
    else if not rps.positive
    then 0
    else if ltb rps.whole 1
    then 1
    else rps.whole

-- `newRedisLimiter`: the largest number of requests in a window of one second.
unfoldable pub window_limit : Config → Zone → ℕ
window_limit cfg auth = limit_per_window cfg.auth_rps cfg.auth_burst
window_limit cfg general = limit_per_window cfg.general_rps cfg.general_burst

-- The counters of Redis within one window, behind their documented behaviour: INCR adds one to the
-- number at a key and returns it and lowers no other, and EXPIRE with a time to live that is not shorter
-- than the window, which is one second, removes no number within it; with 0 it removes the key at once, of
-- which nothing is assumed. An INCR that reports an error may have been carried out.
pub record Counters : Type 1 where
  pub State : Type 0
  pub number : State → Text → ℕ
  pub incr : Text → State → Result ℕ × State
  pub expire : Text → ℕ → State → State
  pub incr-ok :
      (k : Text) (s : State) {n : ℕ}
      → (incr k s).0 ≡ ok n
      → (n ≡ number s k + 1) × (n ≤ number (incr k s).1 k)
  pub incr_grows : (k j : Text) (s : State) → number s j ≤ number (incr k s).1 j
  pub expire_keeps :
      (k j : Text) (ttl : ℕ) (s : State) → 1 ≤ ttl → number (expire k ttl s) j ≡ number s j

-- A limiter of golang.org/x/time/rate, and `Allow` at a time.
pub record Buckets : Type 1 where
  pub Bucket : Type 0
  pub fresh : Rate → ℕ → Bucket
  pub take_one : ℕ → Bucket → Bool × Bucket

module _ (counters : Counters) where
  open counters use {State, incr, expire}

  -- The key of a zone and an address in a window; `decimal` prints the number of the window.
  unfoldable pub window_key : (ℕ → Text) → ℕ → Zone → Text → Text
  window_key decimal window zone ip =
      codes "gw:rl:" ++ zone_name zone ++ codes ":" ++ ip ++ codes ":" ++ decimal window

  unfoldable pub counted : Text → ℕ → Result ℕ × State → Result Bool × State
  counted key max (err e, s) = (err e, s)
  counted key max (ok n, s) = (ok (leb n max), if n == 1 then expire key 2 s else s)

  -- `redisLimiter.allow`, of a limiter that is not nil.
  unfoldable pub redis_allow : (ℕ → Text) → Config → ℕ → Zone → Text → State → Result Bool × State
  unfolding counted
  redis_allow decimal cfg window zone ip s =
      if leb (window_limit cfg zone) 0
      then (ok true, s)
      else counted (window_key decimal window zone ip) (window_limit cfg zone)
          (incr (window_key decimal window zone ip) s)

module _ (buckets : Buckets) where
  open buckets use {Bucket, fresh, take_one}

  -- `pool`: the limit, the burst and the bucket of each key.
  pub record Pool : Type 0 where
    pub lim : Rate
    pub burst : ℕ
    pub by_key : List (Text × Bucket)

  -- `newPool`; `none` is nil.
  unfoldable pub new_pool : Rate → ℕ → Option Pool
  new_pool rps burst =
      if not rps.positive
      then none
      else some (record {
        lim = rps;
        burst = if ltb 0 burst then burst else if ltb rps.whole 1 then 1 else rps.whole;
        by_key = [];
      })

  unfoldable pub find_bucket : Text → List (Text × Bucket) → Option Bucket
  find_bucket key [] = none
  find_bucket key ((k, b) ∷ bs) =
      let rest = find_bucket key bs in if text_eq k key then some b else rest

  unfoldable pub bucket_or_new : Rate → ℕ → Option Bucket → Bucket
  bucket_or_new lim burst none = fresh lim burst
  bucket_or_new lim burst (some b) = b

  taken : Text → Pool → Bool × Bucket → Bool × Pool
  taken key p (allowed, b) = (allowed, record p { by_key = (key, b) ∷ p.by_key })

  -- `pool.allow`; the newest entry of a key is its bucket.
  unfoldable pub pool_allow : ℕ → Text → Pool → Bool × Pool
  unfolding taken
  pool_allow now key p =
      taken key p (take_one now (bucket_or_new p.lim p.burst (find_bucket key p.by_key)))

  -- `memoryLimiter`.
  pub record Memory : Type 0 where
    pub auth_pool : Option Pool
    pub general_pool : Option Pool

  -- `newMemoryLimiter`.
  unfoldable pub new_memory : Config → Memory
  unfolding new_pool
  new_memory cfg = record {
    auth_pool = new_pool cfg.auth_rps cfg.auth_burst;
    general_pool = new_pool cfg.general_rps cfg.general_burst;
  }

  put_pool : Zone → Memory → Bool × Pool → Bool × Memory
  put_pool auth m (allowed, p) = (allowed, record m { auth_pool = some p })
  put_pool general m (allowed, p) = (allowed, record m { general_pool = some p })

  unfoldable pub pool_of : Zone → Memory → Option Pool
  pool_of auth m = m.auth_pool
  pool_of general m = m.general_pool

  -- `memoryLimiter.Allow`.
  unfoldable pub memory_allow : ℕ → Zone → Text → Memory → Bool × Memory
  unfolding put_pool
  memory_allow now zone ip m = elim (pool_of zone m) [
    | none ↦ (true, m)
    | some p ↦ put_pool zone m (pool_allow now ip p)
  ]
