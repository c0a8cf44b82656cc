-- ===== src/Httpx.antt =====
-- The middlewares of go/pkg/httpx that decide whether a request is served: gatewaytrust.go,
-- internalauth.go, internal_token.go, authz.go, middleware.go (RequestID, Chain) and server.go (Env).
-- A handler takes the identity that its context holds, if any, and the request. Recover and
-- AccessLog pass the request on as it is, unless the handler panics, and are not modelled.
pub mod Health
pub mod Paths
pub mod Trust
pub mod Guards
use ting_boundless.Base.{
  Bool, true, false, not, ◌&&◌, ◌||◌, Option, none, some, List, [], ◌∷◌, ◌++◌, map, Text, codes,
  is_nil, text_eq, has_prefix, trim_prefix, trim_space, leb, ◌+◌, ℕ, if◌then◌else◌,
}
use ting_boundless.Http.{
  HeaderName, Headers, Request, ErrorReply, write_error, unauthorized, forbidden, internal, get,
  set, x_request_id, x_internal_token, authorization,
}
use ting_boundless.Identity.{Identity, empty_identity, from_headers, authenticated, has_role}

-- The environment, where an unset variable reads as the empty text, and `httpx.Env`.
abbrev pub Environment : Type 0
Environment = Text → Text

unfoldable pub env : Environment → Text → Text → Text
env e key default = let v = e key in if is_nil v then default else v

-- `strings.EqualFold` against a text of ASCII letters without k and s, the two letters that some
-- code points outside ASCII fold to.
ascii_lower : ℕ → ℕ
ascii_lower c = if leb b'A' c && leb c b'Z' then c + 32 else c

unfoldable pub equal_fold : Text → Text → Bool
unfolding ascii_lower
equal_fold s t = text_eq (map ascii_lower s) (map ascii_lower t)

-- `RequireInternalToken`.
unfoldable pub require_internal_token : Environment → Bool
require_internal_token e =
    if text_eq (env e (codes "REQUIRE_INTERNAL_TOKEN") []) (codes "true")
    then true
    else equal_fold (trim_space (env e (codes "APP_ENV") [])) (codes "production")

-- `LoadInternalToken`, without its log lines: `none` is a start that the caller gives up.
unfoldable pub load_internal_token : Environment → Option Text
load_internal_token e =
    let token = trim_space (env e (codes "INTERNAL_API_TOKEN") []) in
    if require_internal_token e && is_nil token then none else some token

abbrev pub bearer : Text
bearer = codes "Bearer "

-- `internalTokenOK`.
unfoldable pub internal_token_ok : Headers → Text → Bool
internal_token_ok h want =
    if text_eq (get h x_internal_token) want
    then true
    else if has_prefix (get h authorization) bearer
    then text_eq (trim_prefix (get h authorization) bearer) want
    else false

-- `gatewayTrustSkipped`.
unfoldable pub gateway_trust_skipped : Text → Bool
gateway_trust_skipped path =
    if text_eq path (codes "/healthz")
      || text_eq path (codes "/readyz")
      || text_eq path (codes "/metrics")
    then true
    else has_prefix path (codes "/internal/")

abbrev pub Handler : Type 0 → Type 0
Handler R = Option Identity → Request → R

-- The zero value that `identity.FromContext` gives where the context holds none.
abbrev pub or_empty : Option Identity → Identity
or_empty none = empty_identity
or_empty (some id) = id

abbrev pub is_some : Option Identity → Bool
is_some none = false
is_some (some id) = true

-- The middlewares; `reply` sends an error reply.
module _ {R : Type 0} (reply : ErrorReply → R) where
  -- `GatewayTrust`.
  unfoldable pub gateway_trust : Text → Handler R → Handler R
  gateway_trust token next ctx r =
      if is_nil token || gateway_trust_skipped r.path
      then next ctx r
      else if not (internal_token_ok r.headers token)
      then reply (
          write_error (get r.headers x_request_id)
            (unauthorized (codes "untrusted_caller") (codes "request must come through Gateway")))
      else next ctx r

  -- `InternalAuth`.
  unfoldable pub internal_auth : Text → Handler R → Handler R
  internal_auth token next ctx r =
      let rid = get r.headers x_request_id in
      if is_nil token
      then reply (
          write_error rid
            (internal (codes "internal_auth_misconfigured") (codes "internal auth not configured")))
      else if not (internal_token_ok r.headers token)
      then reply
          (write_error rid (unauthorized (codes "unauthorized") (codes "invalid internal token")))
      else next ctx r

  unauthenticated : Identity → R
  unauthenticated id = reply (
      write_error id.request_id
        (unauthorized (codes "unauthenticated") (codes "authentication required")))

  -- `RequireAuthenticated`.
  unfoldable pub require_authenticated : Handler R → Handler R
  unfolding unauthenticated
  require_authenticated next ctx r =
      let id = or_empty ctx in
      if not (is_some ctx) || not (authenticated id) then unauthenticated id else next ctx r

  -- `RequireRole`.
  unfoldable pub require_role : Text → Handler R → Handler R
  unfolding unauthenticated
  require_role role next ctx r =
      let id = or_empty ctx in
      if not (is_some ctx) || not (authenticated id)
      then unauthenticated id
      else if not (has_role id role)
      then reply (
          write_error id.request_id
            (forbidden (codes "forbidden") (role ++ codes " role required")))
      else next ctx r

-- `identity.Middleware`.
unfoldable pub identity_middleware : {R : Type 0} → Handler R → Handler R
identity_middleware next ctx r = next (some (from_headers r.headers)) r

module _ {R : Type 0} (reply : ErrorReply → R) where
  -- `TrustedAuth`.
  unfoldable pub trusted_auth : Handler R → Handler R
  unfolding require_authenticated identity_middleware
  trusted_auth next = identity_middleware (require_authenticated reply next)

  -- `TrustedRole`.
  unfoldable pub trusted_role : Text → Handler R → Handler R
  unfolding require_role identity_middleware
  trusted_role role next = identity_middleware (require_role reply role next)

-- `RequestID`; `fresh` is the id that `NewRequestID` draws, and `set_header` sets a field of the
-- response that the handler then writes.
unfoldable pub request_id :
    {R : Type 0} → (HeaderName → Text → R → R) → Text → Handler R → Handler R
request_id set_header fresh next ctx r =
    if is_nil (get r.headers x_request_id)
    then set_header x_request_id fresh
        (next ctx (record r { headers = set r.headers x_request_id fresh }))
    else set_header x_request_id (get r.headers x_request_id) (next ctx r)

-- `Chain`: the loop runs from the last middleware to the first, so the first is the outermost.
unfoldable pub chain : {R : Type 0} → Handler R → List (Handler R → Handler R) → Handler R
chain h [] = h
chain h (mw ∷ mws) = mw (chain h mws)
