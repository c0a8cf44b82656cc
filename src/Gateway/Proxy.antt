-- ===== src/Gateway/Proxy.antt =====
-- Routing to the upstreams: go/services/gateway/internal/proxy/proxy.go and the split between API
-- and site of go/services/gateway/internal/siteproxy/siteproxy.go.
pub mod Routing
pub mod Longest
use ting_boundless.Http.{
  not_found, x_request_id, write_error, x_internal_token, ErrorReply, Request, get, set,
}
use ting_boundless.Base.{
  text_eq, sort_by, codes, has_prefix, length, Bool, is_nil, Option, leb, List, Text, ◌||◌, ◌∷◌,
  if◌then◌else◌, some, none, [],
}
use ting_boundless.Base.Results.{◌>>=◌, Result, ok}

-- `sort.Slice(r.prefixes, …)`, longest first.
unfoldable pub sort_by_length : List Text → List Text
sort_by_length ps = sort_by length ps

-- `Router`: the sorted prefixes, the proxies, each as its prefix and the URL of its upstream, and the token
-- that they add.
pub record Router : Type 0 where
  pub prefixes : List Text
  pub targets : List (Text × Text)
  pub internal_token : Text

unfoldable pub keys : List (Text × Text) → List Text
keys [] = []
keys ((k, v) ∷ m) = k ∷ keys m

unfoldable pub parse_all : (Text → Result (Unit {0})) → List (Text × Text) → Result (Unit {0})
parse_all parse [] = ok tt
parse_all parse ((k, target) ∷ m) = do _ ← parse target; parse_all parse m

-- `New` on the route table in the order in which the map is walked; `parse` is `url.Parse`, of
-- which only the error is of interest.
unfoldable pub new : (Text → Result (Unit {0})) → List (Text × Text) → Text → Result Router
new parse routes internal_token = do
  _ ← parse_all parse routes
  ok (record {
    prefixes = sort_by_length (keys routes);
    targets = routes;
    internal_token = internal_token;
  })

-- The loop of `ServeHTTP`: the first prefix that the path has.
unfoldable pub first_match : List Text → Text → Option Text
first_match [] path = none
first_match (p ∷ ps) path =
    let rest = first_match ps path in if has_prefix path p then some p else rest

-- `r.proxies[prefix]`, as the URL of its upstream.
unfoldable pub target_of : Text → List (Text × Text) → Option Text
target_of p [] = none
target_of p ((k, target) ∷ m) =
    let rest = target_of p m in if text_eq k p then some target else rest

-- What the director of a proxy adds: the token is set where there is one.
unfoldable pub directed : Text → Request → Request
directed token r =
    if is_nil token then r else record r { headers = set r.headers x_internal_token token }

pub data Routed : Type 0 where
  upstream : Text → Request → Routed  -- the proxy to this upstream has the directed request to send
  panics : Routed  -- the prefix has no proxy: a nil pointer is dereferenced
  unrouted : ErrorReply → Routed

unfoldable pub proxied : Text → Request → Option Text → Routed
proxied token r none = panics
proxied token r (some target) = upstream target (directed token r)

unfoldable pub routed : Router → Request → Option Text → Routed
unfolding proxied
routed router r (some p) = proxied router.internal_token r (target_of p router.targets)
routed router r none = unrouted (
    write_error (get r.headers x_request_id)
      (not_found (codes "route.not_found") (codes "no route")))

-- `ServeHTTP`.
unfoldable pub serve : Router → Request → Routed
serve router r = routed router r (first_match router.prefixes r.path)

-- `IsAPIPath`.
unfoldable pub is_api_path : Text → Bool
is_api_path path = has_prefix path (codes "/v1/") || has_prefix path (codes "/internal/")

-- `ComposeAPIAndSite`; `none` is a site handler that is not configured.
unfoldable pub compose_api_and_site :
    {R : Type 0} → (Request → R) → Option (Request → R) → Request → R
compose_api_and_site api site r =
    if is_api_path r.path then api r else elim site [ some s ↦ s r | none ↦ api r ]
