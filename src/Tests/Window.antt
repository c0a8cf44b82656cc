-- ===== src/Tests/Window.antt =====
-- Counters in a function, and a client of three requests under a limit of two.
use ting_boundless.Http.{get, Request}
use ting_boundless.RateLimit.Window.{passed_bounds, passed, pass, zone_eq, is_client}
use ting_boundless.Tests.Fixtures.{texts_compute}
use ting_boundless.RateLimit.{
  zone_name, host_or, client_ip, is_auth_path, zone_of, window_key, counted, redis_allow, Memory,
  general, window_limit, limit_per_window, Counters, Buckets, Rate,
}
use ting_boundless.Base.Results.{ok_eq, ok}
use ting_boundless.Base.{
  ◌==◌, ◌&&◌, eq_of_text_eq, ap, arith, List, codes, sym, Bool-cases, text_eq_refl, ◌≤◌, ◌∷◌, ◌≡◌,
  inr, inl, true, none, [], ℕ, Text, text_eq, ◌+◌, if◌then◌else◌, refl,
}
use ting_boundless.RateLimit.Middleware.{or_memory, allow, decided, rate_limited, Gate}

stored_number : (k j : Text) (s : Text → ℕ) → ℕ
stored_number k j s = if text_eq k j then s k + 1 else s j

stored_own : (k : Text) (s : Text → ℕ) → stored_number k k s ≡ s k + 1
unfolding stored_number
stored_own k s = rw (text_eq_refl k) refl

stored_more : (k j : Text) (s : Text → ℕ) → s j ≤ stored_number k j s
unfolding stored_number
stored_more k j s = elim (Bool-cases (text_eq k j)) [
  | inl b ↦ rw b (ground (arith, ap s (eq_of_text_eq k j b)))
  | inr b ↦ rw b (omega arith)
]

counted_exactly :
    (k : Text) (s : Text → ℕ) {n : ℕ}
    → ok (s k + 1) ≡ ok n
    → (n ≡ s k + 1) × (n ≤ stored_number k k s)
counted_exactly k s h = (sym (ok_eq h), ground (arith, stored_own k s, ok_eq h))

-- A time to live of 0 removes the key.
expired : Text → ℕ → (Text → ℕ) → Text → ℕ
expired k ttl s j = if ttl == 0 && text_eq k j then 0 else s j

expired_later : (k j : Text) (ttl : ℕ) (s : Text → ℕ) → 1 ≤ ttl → expired k ttl s j ≡ s j
unfolding expired
expired_later k j ttl s h = ground (arith, h)

abbrev counters : Counters
counters = record {
  State = Text → ℕ;
  number = λ s k. s k;
  incr = λ k s. (ok (s k + 1), λ j. stored_number k j s);
  expire = λ k ttl s j. expired k ttl s j;
  incr-ok = λ k s h. counted_exactly k s h;
  incr_grows = λ k j s. stored_more k j s;
  expire_keeps = λ k j ttl s h. expired_later k j ttl s h;
}

abbrev buckets : Buckets
buckets = record { Bucket = Unit {0}; fresh = λ r n. tt; take_one = λ now b. (true, b) }

abbrev half : Rate
half = record { positive = true; whole = 0 }

abbrev gate : Gate
gate = record {
  decimal = λ n. n ∷ [];
  split_host = λ addr. ok addr;
  has_audit = true;
  config = record {
    auth_rps = half;
    auth_burst = 1;
    general_rps = half;
    general_burst = 2;
    enabled = true;
  };
}

abbrev visit : Request
visit = record {
  method = codes "GET";
  path = codes "/v1/items";
  headers = λ k. [];
  remote_addr = codes "203.0.113.1";
  query = λ k. [];
  cookie = λ k. none;
}

abbrev visits : List (ℕ × Request)
visits = (1, visit) ∷ (2, visit) ∷ (3, visit) ∷ []

abbrev unused : Memory buckets
unused = record { auth_pool = none; general_pool = none }

window_computes : Unit {0}
unfolding texts_compute window_limit limit_per_window
window_computes = tt

-- Two of the three pass.
two_pass : passed counters buckets gate general (codes "203.0.113.1") visits (λ k. 0, unused) ≡ 2
unfolding texts_compute window_limit limit_per_window passed is_client pass zone_eq rate_limited
    decided allow or_memory redis_allow counted window_key zone_of is_auth_path client_ip get
    stored_number expired host_or zone_name
two_pass = refl

passed_bounds_example :
    passed counters buckets gate general (codes "203.0.113.1") visits (λ k. 0, unused) ≤ 2
unfolding window_computes
passed_bounds_example =
    passed_bounds counters buckets gate (λ k s. (s k + 1, refl)) refl general (codes "203.0.113.1")
      0 (omega arith) visits (λ k. 0) unused (refl, (refl, (refl, tt)))
