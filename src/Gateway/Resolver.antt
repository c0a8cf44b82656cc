-- ===== src/Gateway/Resolver.antt =====
-- The Gateway's client of auth-service, go/services/gateway/internal/identityresolve/client.go, and the
-- route `POST /internal/identity/resolve` of auth-service that it calls.
pub mod Laws
use ting_boundless.Base.{
  codes, not, trim_space, List, ℕ, Option, is_nil, Text, ◌==◌, ◌&&◌, ◌++◌, ◌∷◌, if◌then◌else◌, true,
  some, none, [],
}
use ting_boundless.Base.Results.{failure, Result, err, ok}
use ting_boundless.Httpx.{internal_auth, env, Environment}
use ting_boundless.Accounts.Api.{serve_resolve, failed, resolved, ResolveReply, ResolveRequest}
use ting_boundless.Http.{
  get, x_request_id, x_internal_token, content_type, Request, set, ErrorReply, Headers,
}
use ting_boundless.Accounts.{Store}

-- `strings.TrimRight(s, "/")`.
unfoldable pub trim_slashes : Text → Text
trim_slashes [] = []
trim_slashes (c ∷ s) =
    let rest = trim_slashes s in if c == b'/' && is_nil rest then [] else c ∷ rest

-- `Client`, without its HTTP client.
pub record Client : Type 0 where
  pub base_url : Text
  pub token : Text

-- `NewClient`; `none` is nil.
unfoldable pub new_client : Text → Text → Option Client
unfolding trim_slashes
new_client url token =
    let base = trim_slashes (trim_space url) in
    if is_nil base then none else some (record { base_url = base; token = token })

-- `FromEnv`.
unfoldable pub from_env : Environment → Option Client
unfolding new_client
from_env e =
    new_client (env e (codes "AUTH_SERVICE_URL") (codes "http://127.0.0.1:8084"))
      (env e (codes "INTERNAL_API_TOKEN") [])

-- The JSON of a request and of a response on both sides, and of an error.
pub record Wire : Type 0 where
  pub encode_request : ResolveRequest → Text
  pub decode_request : Text → Result ResolveRequest
  pub encode_user : Text → Text
  pub decode_user : Text → Result Text
  pub encode_error : ErrorReply → Text

unfoldable pub headers_of : Client → Text → Headers
headers_of c rid =
    let typed = set (λ k. []) content_type (codes "application/json") in
    let authorized = if is_nil c.token then typed else set typed x_internal_token c.token in
    if is_nil rid then authorized else set authorized x_request_id rid

unfoldable pub user_of : Result Text → Result Text
user_of (err e) = err e
user_of (ok user) =
    if is_nil user then err (failure (codes "identity resolve: empty user_id")) else ok user

module _ {W : Type 0} (wire : Wire) (post : Text → Headers → Text → W → Result (ℕ × Text) × W) where
  unfoldable pub read_response : Result (ℕ × Text) × W → Result Text × W
  unfolding user_of
  read_response (err e, w) = (err e, w)
  read_response (ok (status, body), w) =
      if not (status == 200)
      then (err (failure (codes "identity resolve: status")), w)
      else (user_of (wire.decode_user body), w)

  -- `resolve`; marshalling two strings does not fail.
  unfoldable pub resolve : Client → Text → Text → Text → W → Result Text × W
  unfolding read_response headers_of
  resolve c provider uid rid w = read_response (
      post (c.base_url ++ codes "/internal/identity/resolve") (headers_of c rid)
        (wire.encode_request (record { provider = provider; provider_uid = uid })) w)

  -- `ResolveLogto`.
  unfoldable pub resolve_logto : Option Client → Text → Text → W → Result Text × W
  unfolding resolve
  resolve_logto none sub rid w = (err (failure (codes "identity resolver not configured")), w)
  resolve_logto (some c) sub rid w = resolve c (codes "logto") sub rid w

-- A request to the route, as far as its handlers read it.
abbrev pub route_request : Headers → Request
route_request h = record {
  method = codes "POST";
  path = codes "/internal/identity/resolve";
  headers = h;
  remote_addr = [];
  query = λ k. [];
  cookie = λ k. none;
}

unfoldable pub status_and_body : Wire → ResolveReply × Store → Result (ℕ × Text) × Store
status_and_body wire (resolved x, s) = (ok (200, wire.encode_user x), s)
status_and_body wire (failed e, s) = (ok (e.status, wire.encode_error e), s)

module _ (wire : Wire) (token : Text) (random : Result (List ℕ)) where
  -- The route: the handler behind the internal token.
  unfoldable pub route : Headers → Text → Store → ResolveReply × Store
  route h body s =
      internal_auth (λ e. (failed e, s)) token
        (λ ctx r. serve_resolve true wire.decode_request random (get r.headers x_request_id) body s)
        none (route_request h)

  -- A call of the route whose answer arrives.
  unfoldable pub call_route : Text → Headers → Text → Store → Result (ℕ × Text) × Store
  unfolding route status_and_body
  call_route url h body s = status_and_body wire (route h body s)
