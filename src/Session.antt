-- ===== src/Session.antt =====
-- BFF sessions and pending logins in Redis: go/services/gateway/internal/session/store.go.
pub mod Laws
pub mod Pending
pub mod Coding
use ting_boundless.Base.{
  is_nil, not, ltb, codes, ℕ, Option, Bool, Text, ◌||◌, ◌&&◌, ◌*◌, ◌-◌, ◌++◌, ◌≡◌, if◌then◌else◌,
  false, some, none,
}
use ting_boundless.Base.Results.{failure, Result, Err, ◌>>=◌, err, ok}
use ting_boundless.Redis.{Redis}
use ting_boundless.Identity.{Identity}

-- `Data`. A time is in nanoseconds; `none` is the zero `time.Time`.
pub record Data : Type 0 where
  pub access_token : Text
  pub refresh_token : Text
  pub identity : Identity
  pub expires_at : Option ℕ

-- `Store`; `connected` says that `rdb` is not nil.
pub record Store : Type 0 where
  pub connected : Bool
  pub ttl : ℕ
  pub cookie_name : Text
  pub prefix : Text

-- `PendingLogin`.
pub record PendingLogin : Type 0 where
  pub return_to : Text
  pub nonce : Text

-- `encoding/json` on the two records that are stored.
pub record Codec : Type 0 where
  pub encode : Data → Text
  pub decode : Text → Result Data
  pub encode_pending : PendingLogin → Text
  pub decode_pending : Text → Result PendingLogin
  pub decode-encode : (d : Data) → decode (encode d) ≡ ok d
  pub decode_pending-encode_pending : (p : PendingLogin) → decode_pending (encode_pending p) ≡ ok p

-- `CookieName` on a store that may be nil.
unfoldable pub cookie_name : Option Store → Text
cookie_name none = codes "tb_session"
cookie_name (some store) = store.cookie_name

-- `Enabled` on a store that may be nil.
unfoldable pub enabled : Option Store → Bool
enabled none = false
enabled (some store) = store.connected

unavailable : Err
unavailable = failure (codes "session store unavailable")

-- The time to live that `save` asks for: what is left until the expiry, if that is in the future and
-- shorter than the store's.
unfoldable pub save_ttl : Store → ℕ → Option ℕ → ℕ
save_ttl store now none = store.ttl
save_ttl store now (some expiry) =
    if ltb now expiry && ltb (expiry - now) store.ttl then expiry - now else store.ttl

-- `!data.ExpiresAt.IsZero() && time.Now().After(data.ExpiresAt)`.
unfoldable pub is_expired : ℕ → Data → Bool
is_expired now d = elim d.expires_at [ none ↦ false | some expiry ↦ ltb expiry now ]

module _ (redis : Redis) (codec : Codec) where
  open redis use {State, get as get_key, set as set_key, del as del_key}

  unfoldable pub save : Store → ℕ → Text → Data → State → Result (Unit {0}) × State
  unfolding save_ttl
  save store now id d s =
      set_key (store.prefix ++ id) (codec.encode d) (save_ttl store now d.expires_at) s

  saved : Text → Result (Unit {0}) × State → Result Text × State
  saved id (ok _, s) = (ok id, s)
  saved id (err e, s) = (err e, s)

  created : Store → ℕ → Result Text → Data → State → Result Text × State
  unfolding save saved
  created store now (ok id) d s = saved id (save store now id d s)
  created store now (err e) d s = (err e, s)

  -- `Create`; `new_id` is what `newID` gives.
  unfoldable pub create : Store → ℕ → Result Text → Data → State → Result Text × State
  unfolding created unavailable
  create store now new_id d s =
      if not store.connected then (err unavailable, s) else created store now new_id d s

  -- `Delete`.
  unfoldable pub delete : Store → Text → State → Result (Unit {0}) × State
  delete store id s =
      if not store.connected || is_nil id then (ok tt, s) else del_key (store.prefix ++ id) s

  -- `Get` once the value is decoded: an expired session is deleted.
  unexpired : Store → ℕ → Text → State → Result Data → Result Data × State
  unfolding delete is_expired
  unexpired store now id s (err e) = (err e, s)
  unexpired store now id s (ok d) =
      if is_expired now d
      then (err (failure (codes "session expired")), (delete store id s).1)
      else (ok d, s)

  -- `Get`.
  unfoldable pub get : Store → ℕ → Text → State → Result Data × State
  unfolding unexpired unavailable
  get store now id s =
      if not store.connected
      then (err unavailable, s)
      else if is_nil id
      then (err (failure (codes "empty session id")), s)
      else unexpired store now id s (get_key (store.prefix ++ id) s >>= codec.decode)

  abbrev pub pending_key : Text → Text
  pending_key state = codes "gw:oidc:state:" ++ state

  -- `SavePending`; the state lives ten minutes.
  unfoldable pub save_pending : Store → Text → PendingLogin → State → Result (Unit {0}) × State
  unfolding unavailable
  save_pending store state p s =
      if not store.connected
      then (err unavailable, s)
      else set_key (pending_key state) (codec.encode_pending p) (600 * 1_000_000_000) s

  -- The rest of `ConsumePending` after its GET: the key is deleted, an error of that is ignored.
  consumed : Text → State → Result Text → Result PendingLogin × State
  consumed key s (err e) = (err e, s)
  consumed key s (ok raw) = (codec.decode_pending raw, (del_key key s).1)

  -- `ConsumePending`.
  unfoldable pub consume_pending : Store → Text → State → Result PendingLogin × State
  unfolding consumed unavailable
  consume_pending store state s =
      if not store.connected
      then (err unavailable, s)
      else consumed (pending_key state) s (get_key (pending_key state) s)
