-- ===== src/Gateway/EndToEnd.antt =====
-- From the edge to a service: what a handler sees of a request that the Gateway let through.
use ting_boundless.Http.{
  first_or_empty, Headers, x_auth_subject, x_scopes, x_roles, x_tenant_id, x_user_id, HeaderName,
  ErrorReply, x_request_id, x_internal_token, Request, get, set,
}
use ting_boundless.Base.{
  Bool, false, ap, arith, inl, Option, sym, ◌∷◌, ◌≢◌, refl, inr, some, [], Text, ◌∙◌, ◌≡◌,
}
use ting_boundless.Identity.{authenticated, strip_untrusted, inject, from_headers, Identity}
use ting_boundless.Gateway.Authenticate.Safety.{stamped, injected}
use ting_boundless.Identity.RoundTrip.{from_headers-inject, from_headers-set_foreign, seen}
use ting_boundless.Identity.Laws.{get-inject, strip_untrusted-IsStripped, IsReady}
use ting_boundless.Gateway.Proxy.{directed}
use ting_boundless.Http.Laws.{get-set_self, get-set_ne}
use ting_boundless.Httpx.{
  require_authenticated, identity_middleware, request_id, gateway_trust, trusted_auth, chain,
  Handler,
}
use ting_boundless.Httpx.Trust.{gateway_trust-Presents}

-- `httputil.ReverseProxy` after the Director, with what it documents: it sends the request on, and a header
-- that it has no reason to change as it is. It changes those that the Connection header of the client
-- names, the hop-by-hop ones and X-Forwarded-For.
pub record ReverseProxy : Type 0 where
  pub send : Request → Request
  pub changes : Request → HeaderName → Bool
  pub send-keeps :
      (r : Request) (k : HeaderName) → changes r k ≡ false → (send r).headers k ≡ r.headers k

-- The reverse proxy changes none of the headers that services trust.
abbrev pub Spares : ReverseProxy → Request → Type 0
Spares proxy r =
    (proxy.changes r x_internal_token ≡ false)
    × (proxy.changes r x_request_id ≡ false)
    × (proxy.changes r x_user_id ≡ false)
    × (proxy.changes r x_tenant_id ≡ false)
    × (proxy.changes r x_roles ≡ false)
    × (proxy.changes r x_scopes ≡ false)
    × (proxy.changes r x_auth_subject ≡ false)

get-same : (h g : Headers) (k : HeaderName) → h k ≡ g k → get h k ≡ get g k
unfolding get
get-same h g k e = ap first_or_empty e

from_headers-send :
    (proxy : ReverseProxy) (r : Request)
    → Spares proxy r
    → from_headers (proxy.send r).headers ≡ from_headers r.headers
unfolding from_headers
from_headers-send proxy r (i, q, u, t, ro, sc, su) =
    let same = λ (k : HeaderName) (e : proxy.changes r k ≡ false).
      get-same (proxy.send r).headers r.headers k (proxy.send-keeps r k e) in
    rw
      (
        same x_request_id q,
        same x_user_id u,
        same x_tenant_id t,
        same x_roles ro,
        same x_scopes sc,
        same x_auth_subject su,
      )
      refl

-- The request as the Director leaves it: with the headers that the Gateway made, and the internal token.
abbrev arrived : Text → Request → Request
arrived token r = record r { headers = set r.headers x_internal_token token }

stamped-IsReady :
    (id : Identity) (rid : Text) (r : Request)
    → id.request_id ≡ rid
    → IsReady id (stamped rid r).headers
stamped-IsReady id rid r e =
    let h = strip_untrusted r.headers in
    let (q, u, t, ro, sc, su) = strip_untrusted-IsStripped r.headers in
    (
      inr (get-set_self h x_request_id rid ∙ sym e),
      get-set_ne h x_request_id x_user_id rid (cc) ∙ u,
      get-set_ne h x_request_id x_tenant_id rid (cc) ∙ t,
      get-set_ne h x_request_id x_roles rid (cc) ∙ ro,
      get-set_ne h x_request_id x_scopes rid (cc) ∙ sc,
      get-set_ne h x_request_id x_auth_subject rid (cc) ∙ su,
    )

from_headers-arrived :
    (id : Identity) (rid token : Text) (r : Request)
    → id.request_id ≡ rid
    → from_headers (arrived token (injected id (stamped rid r))).headers ≡ seen id
from_headers-arrived id rid token r e =
    from_headers-set_foreign (inject id (stamped rid r).headers) x_internal_token token
      (cc, cc, cc, cc, cc, cc)
    ∙ from_headers-inject id (stamped rid r).headers (stamped-IsReady id rid r e)

get-arrived_request_id :
    (id : Identity) (rid token : Text) (r : Request)
    → id.request_id ≡ rid
    → get (arrived token (injected id (stamped rid r))).headers x_request_id ≡ rid
get-arrived_request_id id rid token r e =
    get-set_ne (inject id (stamped rid r).headers) x_internal_token x_request_id token (cc)
    ∙ (get-inject id (stamped rid r).headers (stamped-IsReady id rid r e)).0
    ∙ e

directed-arrived : (token : Text) (r : Request) → token ≢ [] → directed token r ≡ arrived token r
unfolding directed
directed-arrived [] r n = absurd (n refl)
directed-arrived (c ∷ token) r n = refl

request_id-kept :
    {R : Type 0} (set_header : HeaderName → Text → R → R) (fresh rid : Text) (next : Handler R)
    (ctx : Option Identity) (r : Request)
    → get r.headers x_request_id ≡ rid
    → rid ≢ []
    → request_id set_header fresh next ctx r ≡ set_header x_request_id rid (next ctx r)
unfolding request_id
request_id-kept set_header fresh rid next ctx r e n = rw e (ground arith)

module _ {R : Type 0} (reply : ErrorReply → R) (handler : Handler R) (id : Identity) where
  trusted_auth-arrived :
      (r : Request) (ctx : Option Identity)
      → from_headers r.headers ≡ seen id
      → id.user_id ≢ []
      → trusted_auth reply handler ctx r ≡ handler (some (seen id)) r
  unfolding trusted_auth identity_middleware require_authenticated authenticated
  trusted_auth-arrived r ctx e nu = rw e (ground arith)

module _ {R : Type 0} (reply : ErrorReply → R) (set_header : HeaderName → Text → R → R)
    (handler : Handler R) where
  -- The middlewares of a service that act on the request: GatewayTrust, RequestID, and TrustedAuth
  -- round the handler.
  abbrev pub service : Text → Text → Handler R
  service token fresh =
      chain (trusted_auth reply handler)
        (gateway_trust reply token ∷ request_id set_header fresh ∷ [])

  -- A request that the Gateway let through with an identity that names a user, and that the reverse
  -- proxy sent on without a change of the headers that services trust, reaches the handler of a
  -- service that shares the internal token. The handler sees that identity, its roles and scopes passed
  -- through the comma-separated headers; the response carries the Gateway's request id. The token and
  -- the request id are not empty, and the identity has that request id.
  pub service-forwarded :
      (proxy : ReverseProxy) (id : Identity) (rid token fresh : Text) (r : Request)
      (ctx : Option Identity)
      → token ≢ []
      → rid ≢ []
      → id.request_id ≡ rid
      → id.user_id ≢ []
      → Spares proxy (directed token (injected id (stamped rid r)))
      → service token fresh ctx (proxy.send (directed token (injected id (stamped rid r))))
        ≡ set_header x_request_id rid
            (handler (some (seen id)) (proxy.send (directed token (injected id (stamped rid r)))))
  unfolding chain
  service-forwarded proxy id rid token fresh r ctx nt nr e nu sp =
      let out = directed token (injected id (stamped rid r)) in
      let q = proxy.send out in
      let made = directed-arrived token (injected id (stamped rid r)) nt in
      let kept = λ (k : HeaderName) (c : proxy.changes out k ≡ false).
        get-same q.headers out.headers k (proxy.send-keeps out k c)
        ∙ ap (λ o. get o.headers k) made in
      gateway_trust-Presents reply token (request_id set_header fresh (trusted_auth reply handler))
        ctx q
        (inl (
          inl (
            kept x_internal_token sp.0
            ∙ get-set_self (inject id (stamped rid r).headers) x_internal_token token)))
      ∙ request_id-kept set_header fresh rid (trusted_auth reply handler) ctx q
          (kept x_request_id sp.1 ∙ get-arrived_request_id id rid token r e) nr
      ∙ ap (set_header x_request_id rid) (
          trusted_auth-arrived reply handler id q ctx
            (from_headers-send proxy out sp
              ∙ ap (λ o. from_headers o.headers) made
              ∙ from_headers-arrived id rid token r e)
            nu)
