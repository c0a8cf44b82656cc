-- ===== src/Revocation.antt =====
-- The blocklist of subjects and sessions: go/pkg/revocation/store.go.
pub mod Laws
use ting_boundless.Base.{
  is_nil, codes, not, ltb, Text, Option, ℕ, Bool, ◌||◌, ◌*◌, ◌++◌, if◌then◌else◌, false, some, none,
  [],
}
use ting_boundless.Base.Results.{wrapped, Result, err, ok}
use ting_boundless.Redis.{Redis}
use ting_boundless.Httpx.{env, Environment}

-- `Store`; `connected` says that `rdb` is not nil. A nil `*Store` is `none` where one may occur.
pub record Store : Type 0 where
  pub connected : Bool
  pub prefix : Text
  pub ttl : ℕ

-- `defaultTTL`, in nanoseconds.
abbrev default_ttl : ℕ
default_ttl = 30 * 24 * 3600 * 1_000_000_000

abbrev positive_or_default : Option ℕ → ℕ
positive_or_default none = default_ttl
positive_or_default (some d) = if ltb 0 d then d else default_ttl

-- `NewStore` after its reading of the environment: `parsed` is `time.ParseDuration` of
-- AUTH_REVOCATION_TTL where that is set and parses, as a count of nanoseconds that is 0 for a
-- duration which is not positive. The default is thirty days.
unfoldable pub new_store : Bool → Environment → (Text → Option ℕ) → Store
new_store connected e parse_duration =
    let s = env e (codes "AUTH_REVOCATION_TTL") [] in
    record {
      connected = connected;
      prefix = env e (codes "AUTH_REVOCATION_REDIS_PREFIX") (codes "auth:revoked:");
      ttl = if is_nil s then default_ttl else positive_or_default (parse_duration s);
    }

module _ (redis : Redis) where
  open redis use {State, exists as exists_key, set as set_key}

  -- `set`, the private method.
  unfoldable pub put : Store → Text → State → Result (Unit {0}) × State
  put store suffix s =
      if not store.connected || is_nil suffix
      then (ok tt, s)
      else if ltb 0 store.ttl
      then set_key (store.prefix ++ suffix) (codes "1") store.ttl s
      else set_key (store.prefix ++ suffix) (codes "1") 0 s

  exists_of : Result ℕ → Result Bool
  exists_of (ok n) = ok (ltb 0 n)
  exists_of (err e) = err (wrapped (codes "revocation lookup") e)

  -- `exists`.
  unfoldable pub lookup : Store → Text → State → Result Bool
  unfolding exists_of
  lookup store suffix s =
      if not store.connected || is_nil suffix
      then ok false
      else exists_of (exists_key (store.prefix ++ suffix) s)

  unfoldable pub revoke_subject : Store → Text → State → Result (Unit {0}) × State
  revoke_subject store subject s = put store (codes "sub:" ++ subject) s

  unfoldable pub revoke_session : Store → Text → State → Result (Unit {0}) × State
  revoke_session store session_id s = put store (codes "session:" ++ session_id) s

  unfoldable pub is_subject_revoked : Store → Text → State → Result Bool
  is_subject_revoked store subject s = lookup store (codes "sub:" ++ subject) s

  unfoldable pub is_session_revoked : Store → Text → State → Result Bool
  is_session_revoked store session_id s = lookup store (codes "session:" ++ session_id) s
