-- ===== src/Storage.antt =====
-- The object storage client: go/pkg/storage (client.go, s3.go, connect.go). Encode has the encoding
-- of paths, Sign the signatures, Presign the links and Objects the requests.
pub mod Encode
pub mod Sign
pub mod Presign
pub mod Objects
pub mod Links
use ting_boundless.Base.{
  text_eq, to_lower, has_prefix, trim_prefix, codes, contains, not, is_nil, Bool, Option, Text,
  ◌||◌, ◌&&◌, ◌++◌, ◌∷◌, if◌then◌else◌, false, some, none, [],
}
use ting_boundless.Base.Results.{failure, wrapped, Err, Result, err, ok}
use ting_boundless.Httpx.{env, Environment}
use ting_boundless.Jwt.{is_placeholder}

-- What the client calls of Go's library: `url.Parse` and a TCP dial within two seconds.
pub record Url : Type 0 where
  pub scheme : Text
  pub host : Text
  pub path : Text
  pub escaped_path : Text
  pub raw_query : Text

pub record Network : Type 0 where
  pub parse_url : Text → Result Url
  pub dial : Text → Result (Unit {0})

-- `Config`.
pub record Config : Type 0 where
  pub endpoint : Text
  pub access_key : Text
  pub secret_key : Text
  pub bucket : Text
  pub region : Text
  pub use_ssl : Bool

-- `EndpointFromEnv`.
unfoldable pub endpoint_from_env : Environment → Text
endpoint_from_env e = env e (codes "S3_ENDPOINT") (codes "http://localhost:9000")

unfoldable pub region_or_default : Text → Text
region_or_default region = if is_nil region then codes "us-east-1" else region

-- `ConfigFromEnv`.
unfoldable pub config_from_env : Environment → Config
unfolding endpoint_from_env region_or_default
config_from_env e = record {
  endpoint = endpoint_from_env e;
  access_key = env e (codes "S3_ACCESS_KEY") [];
  secret_key = env e (codes "S3_SECRET_KEY") [];
  bucket = env e (codes "S3_BUCKET") [];
  region = region_or_default (env e (codes "S3_REGION") []);
  use_ssl =
      has_prefix (to_lower (endpoint_from_env e)) (codes "https://")
      || text_eq (env e (codes "S3_USE_SSL") []) (codes "true");
}

-- `Client`, without its HTTP client.
pub record Client : Type 0 where
  pub host : Text
  pub secure : Bool
  pub access_key : Text
  pub secret_key : Text
  pub bucket : Text
  pub region : Text

-- `Enabled`; `none` is a nil client.
unfoldable pub enabled : Option Client → Bool
enabled none = false
enabled (some c) = not (is_nil c.bucket) && not (is_nil c.access_key)

-- `Bucket`.
unfoldable pub bucket_of : Option Client → Text
bucket_of none = []
bucket_of (some c) = c.bucket

unfoldable pub dialed : Result (Unit {0}) → Result (Unit {0})
dialed (ok _) = ok tt
dialed (err e) = err (wrapped (codes "s3 endpoint unreachable") e)

unfoldable pub ping_host : Network → Result Url → Result (Unit {0})
unfolding dialed
ping_host net (err e) = err (wrapped (codes "s3 endpoint parse") e)
ping_host net (ok u) = dialed (net.dial (if is_nil u.host then u.path else u.host))

-- `Ping`.
unfoldable pub ping : Network → Text → Result (Unit {0})
unfolding ping_host
ping net endpoint =
    if is_placeholder endpoint
    then err (failure (codes "s3 endpoint not configured"))
    else ping_host net (net.parse_url endpoint)

unfoldable pub host_of : Bool → Result Url → Result (Text × Bool)
host_of use_ssl (err e) = err (wrapped (codes "s3 endpoint") e)
host_of use_ssl (ok u) =
    if is_nil u.host
    then err (failure (codes "s3 endpoint: missing host"))
    else ok (u.host, use_ssl || text_eq u.scheme (codes "https"))

-- `parseEndpoint`: the host, and whether the connection is secure.
unfoldable pub parse_endpoint : Network → Text → Bool → Result (Text × Bool)
unfolding host_of
parse_endpoint net raw use_ssl =
    host_of use_ssl
      (net.parse_url (if contains raw (codes "://") then raw else codes "http://" ++ raw))

unfoldable pub client_of : Config → Result (Text × Bool) → Result (Option Client)
client_of cfg (err e) = err e
client_of cfg (ok (host, secure)) = ok (
    some (record {
      host = host;
      secure = secure;
      access_key = cfg.access_key;
      secret_key = cfg.secret_key;
      bucket = cfg.bucket;
      region = cfg.region;
    }))

unfoldable pub reached : Network → Config → Result (Unit {0}) → Result (Option Client)
unfolding client_of
reached net cfg (err e) = err e
reached net cfg (ok _) = client_of cfg (parse_endpoint net cfg.endpoint cfg.use_ssl)

-- `NewClient`.
unfoldable pub new_client : Network → Config → Result (Option Client)
unfolding reached
new_client net cfg =
    if is_placeholder cfg.endpoint
      || is_nil cfg.bucket
      || is_placeholder cfg.access_key
      || is_placeholder cfg.secret_key
      || is_nil cfg.access_key
      || is_nil cfg.secret_key
    then ok none
    else reached net cfg (ping net cfg.endpoint)

-- The scheme and the host of a URL of the client.
unfoldable pub origin : Client → Text
origin c = (if c.secure then codes "https" else codes "http") ++ codes "://" ++ c.host

-- The path of an object, in path style.
unfoldable pub object_path : Client → Text → Text
object_path c key = b'/' ∷ c.bucket ++ b'/' ∷ trim_prefix key (codes "/")

-- `objectURL`.
unfoldable pub object_url : Client → Text → Text
unfolding origin object_path
object_url c key = origin c ++ object_path c key

-- The probe of a `ConnectResult`: one that always answers the error it was made with, which a
-- placeholder and an endpoint out of reach at the start have.
pub data Probe : Type 0 where
  fails_with : Err → Probe
  pings : Text → Probe

unfoldable pub probe_after : Text → Result (Unit {0}) → Probe
probe_after endpoint (ok _) = pings endpoint
probe_after endpoint (err e) = fails_with e

-- `Connect`, without its log lines.
unfoldable pub connect : Network → Environment → Text × Probe
unfolding probe_after
connect net e =
    let endpoint = endpoint_from_env e in
    (
      endpoint,
      if is_placeholder endpoint
          then fails_with (failure (codes "object storage not configured"))
          else probe_after endpoint (ping net endpoint),
    )

-- The probe's answer.
unfoldable pub run_probe : Network → Probe → Result (Unit {0})
run_probe net (fails_with e) = err e
run_probe net (pings endpoint) = ping net endpoint
