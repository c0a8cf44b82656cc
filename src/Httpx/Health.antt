-- ===== src/Httpx/Health.antt =====
-- Readiness: go/pkg/httpx/health.go, and what the services register with it: go/pkg/db (connect.go,
-- postgres.go), go/pkg/cache (connect.go, redis.go) and go/pkg/mq (connect.go, rabbitmq.go).
pub mod Laws
use ting_boundless.Base.{
  is_nil, codes, text_eq, Option, Bool, ℕ, List, Text, ◌++◌, ◌∷◌, if◌then◌else◌, false, true, some,
  none, [],
}
use ting_boundless.Base.Results.{failure, wrapped, is_err, Result, err, ok}
use ting_boundless.Httpx.{env, Environment}
use ting_boundless.Jwt.{is_placeholder}

-- `Check`; the probe is given the world that it looks at.
pub record Check (W : Type 0) : Type 0 where
  pub name : Text
  pub probe : W → Result (Unit {0})

-- The checks of a `Health`, in the order of registration.
abbrev pub Health : Type 0 → Type 0
Health W = List (Check W)

-- `Register`.
unfoldable pub register : {W : Type 0} → Check W → Health W → Health W
register c h = h ++ c ∷ []

-- `RegisterHealth` of the packages; `none` is a nil probe.
unfoldable pub register_health :
    {W : Type 0} → Text → Option (W → Result (Unit {0})) → Health W → Health W
unfolding register
register_health name none h = h
register_health name (some probe) h = register (record { name = name; probe = probe }) h

-- What a check is reported as; the text of an error is left out.
pub data Report : Type 0 where
  fine failing : Report

unfoldable pub report_of : Result (Unit {0}) → Report
report_of (ok _) = fine
report_of (err e) = failing

-- `results[name] = report`.
unfoldable pub reported : Text → Report → List (Text × Report) → List (Text × Report)
reported k v [] = (k, v) ∷ []
reported k v ((j, w) ∷ m) =
    let rest = reported k v m in if text_eq j k then (k, v) ∷ m else (j, w) ∷ rest

-- The reply of `GET /readyz`: the status, whether it is ready, and the results.
pub record Readiness : Type 0 where
  pub status : ℕ
  pub is_ready : Bool
  pub checks : List (Text × Report)

-- The loop over the checks.
unfoldable pub probed :
    {W : Type 0} → W → Health W → Bool → List (Text × Report) → Bool × List (Text × Report)
unfolding report_of reported
probed w [] r m = (r, m)
probed w (c ∷ cs) r m =
    let answer = c.probe w in
    probed w cs (if is_err answer then false else r) (reported c.name (report_of answer) m)

unfoldable pub readyz : {W : Type 0} → W → Health W → Readiness
unfolding probed
readyz w h =
    let (r, m) = probed w h true [] in
    record { status = if r then 200 else 503; is_ready = r; checks = m }

-- `Config` of go/pkg/db/postgres.go.
pub record DbConfig : Type 0 where
  pub host : Text
  pub port : Text
  pub user : Text
  pub password : Text
  pub database : Text
  pub sslmode : Text

-- `ConfigFromEnv`.
unfoldable pub db_config_from_env : Environment → Text → DbConfig
db_config_from_env e database = record {
  host = env e (codes "POSTGRES_HOST") (codes "127.0.0.1");
  port = env e (codes "POSTGRES_PORT") (codes "5432");
  user = env e (codes "POSTGRES_USER") (codes "ting");
  password = env e (codes "POSTGRES_PASSWORD") [];
  database = if is_nil database then env e (codes "POSTGRES_DB") (codes "app_db") else database;
  sslmode = env e (codes "POSTGRES_SSLMODE") (codes "disable");
}

-- `AuditConfigFromEnv`.
unfoldable pub audit_config_from_env : Environment → Text → DbConfig
unfolding db_config_from_env
audit_config_from_env e database =
    let cfg = db_config_from_env e database in
    record cfg {
      user = env e (codes "AUDIT_POSTGRES_USER") cfg.user;
      password = env e (codes "AUDIT_POSTGRES_PASSWORD") cfg.password;
    }

-- A dependency's client library: opening a connection and the ping on one, in the world as it is then,
-- each with the words that its error is wrapped in.
pub record Dependency (W : Type 0) (Target : Type 0) : Type 1 where
  pub Conn : Type 0
  pub dial : Target → W → Result Conn
  pub ping : Conn → W → Result (Unit {0})

module _ {W : Type 0} {Target : Type 0} (library : Dependency W Target) where
  open library use {Conn, dial, ping}

  unfoldable pub pinged : W → Text → Conn → Result (Unit {0}) → Result Conn
  pinged w what conn (ok _) = ok conn
  pinged w what conn (err e) = err (wrapped (what ++ codes " ping") e)

  unfoldable pub dialed : W → Text → Result Conn → Result Conn
  unfolding pinged
  dialed w what (ok conn) = pinged w what conn (ping conn w)
  dialed w what (err e) = err (wrapped (what ++ codes " pool") e)

  -- `Open` of go/pkg/db and `OpenFromEnv` of go/pkg/cache, where making the client does not fail: `name` is
  -- the host or the address.
  unfoldable pub open_checked : Text → Text → Target → W → Result Conn
  unfolding dialed
  open_checked what name target w =
      if is_placeholder name
      then err (failure (what ++ codes " is placeholder"))
      else dialed w what (dial target w)

  -- `ConnectResult`: the connection, if there is one, and the probe.
  abbrev pub Connected : Type 0
  Connected = Option Conn × (W → Result (Unit {0}))

  unfoldable pub connected_to : Result Conn → Connected
  connected_to (ok conn) = (some conn, λ w. ping conn w)
  connected_to (err e) = (none, λ w. err e)

  -- `ConnectWithConfig` of go/pkg/db and `Connect` of go/pkg/cache, without their log lines.
  unfoldable pub connect : Text → Text → Target → W → Connected
  unfolding connected_to open_checked
  connect what name target w =
      if is_placeholder name
      then (none, λ v. err (failure (what ++ codes " not configured")))
      else connected_to (open_checked what name target w)
