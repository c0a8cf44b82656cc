-- ===== src/RateLimit/Middleware.antt =====
-- The limiter that falls back to memory, and the middleware: go/services/gateway/internal/ratelimit
-- (limiter.go).
use ting_boundless.Httpx.{env, Environment}
use ting_boundless.RateLimit.{
  client_ip, zone_of, redis_allow, memory_allow, Zone, Counters, Buckets, Memory, Config,
}
use ting_boundless.Base.{
  text_eq, codes, not, Option, Bool, Text, ℕ, ◌||◌, ◌/◌, if◌then◌else◌, some, none,
}
use ting_boundless.Base.Results.{Result, err, ok}
use ting_boundless.Http.{Request, write_error, ErrorReply}

-- `NewLimiter` gives one of the two; `redis_first` is the facade.
pub data Limiter : Type 0 where
  memory_only redis_first : Limiter

-- `NewLimiter`; `has_redis` says that the client is not nil.
unfoldable pub new_limiter : Environment → Bool → Limiter
new_limiter e has_redis =
    if not has_redis
      || text_eq (env e (codes "GATEWAY_RATE_LIMIT_REDIS") (codes "true")) (codes "false")
    then memory_only
    else redis_first

-- What a request that is over its limit gets: the reply, the header Retry-After, and the audit event's
-- zone and address where there is an emitter.
pub record Limited : Type 0 where
  pub reply : ErrorReply
  pub retry_after : Text
  pub entry : Option (Zone × Text)

-- What the middleware is built with: the window's printer, `net.SplitHostPort`, whether there is an audit
-- emitter, and the settings.
pub record Gate : Type 0 where
  pub decimal : ℕ → Text
  pub split_host : Text → Result Text
  pub has_audit : Bool
  pub config : Config

-- The number of the window of one second that holds a time in nanoseconds.
abbrev pub window_at : ℕ → ℕ
window_at now = now / 1000000000

module _ (counters : Counters) (buckets : Buckets) where
  -- The state of Redis, and that of the limiter in memory.
  abbrev pub Stores : Type 0
  Stores = counters.State × Memory buckets

  unfoldable pub by_memory : ℕ → Zone → Text → counters.State → Memory buckets → Bool × Stores
  by_memory now zone ip s m = let out = memory_allow buckets now zone ip m in (out.0, (s, out.1))

  unfoldable pub or_memory :
      ℕ → Zone → Text → Memory buckets → Result Bool × counters.State → Bool × Stores
  unfolding by_memory
  or_memory now zone ip m (ok allowed, s) = (allowed, (s, m))
  or_memory now zone ip m (err e, s) = by_memory now zone ip s m

  -- `Allow` of either limiter.
  unfoldable pub allow : Limiter → Gate → ℕ → Zone → Text → Stores → Bool × Stores
  unfolding by_memory or_memory
  allow memory_only g now zone ip (s, m) = by_memory now zone ip s m
  allow redis_first g now zone ip (s, m) =
      or_memory now zone ip m (redis_allow counters g.decimal g.config (window_at now) zone ip s)

  unfoldable pub limited_at : Gate → Text → Zone → Text → Limited
  limited_at g rid zone ip = record {
    reply =
        write_error rid (record {
          status = 429;
          code = codes "rate_limited";
          message = codes "too many requests";
        });
    retry_after = codes "1";
    entry = if g.has_audit then some (zone, ip) else none;
  }

  -- `Middleware`: `limited` writes what a request over its limit gets, `fresh` is the id that
  -- `NewRequestID` draws, and `none` is a nil limiter.
  module _ {R : Type 0} (limited : Limited → R) (next : Request → R) where
    unfoldable pub decided : Gate → Text → Zone → Text → Request → Bool × Stores → R × Stores
    unfolding limited_at
    decided g fresh zone ip r (allowed, st) =
        (if not allowed then limited (limited_at g fresh zone ip) else next r, st)

    unfoldable pub rate_limited : Option Limiter → Gate → Text → ℕ → Request → Stores → R × Stores
    unfolding decided
    rate_limited limiter g fresh now r st =
        if not g.config.enabled
        then (next r, st)
        else let zone = zone_of r.path in
          let ip = client_ip g.split_host r in
          decided g fresh zone ip r
            (allow (elim limiter [ none ↦ memory_only | some l ↦ l ]) g now zone ip st)
