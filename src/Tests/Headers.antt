-- ===== src/Tests/Headers.antt =====
-- Headers, roles, routes and trace ids.
use ting_boundless.Http.{
  x_request_id, HeaderName-discrete, x_roles, Request, write_error, Headers, not_found,
}
use ting_boundless.Http.{get, set}
use ting_boundless.Base.{
  sym, ap, ◌∙◌, ◌≢◌, split, text_eq, if◌then◌else◌, arith, has_prefix, codes, Text, ℕ, List, ◌∷◌,
  ◌⊎◌, ◌≡◌, refl, false, none, [],
}
use ting_boundless.Base.Results.{ok}
use ting_boundless.Identity.{strip_untrusted, inject, from_headers, Identity}
use ting_boundless.Tests.Fixtures.{request_to, no_headers, alice, texts_compute}
use ting_boundless.Httpx.{internal_token_ok}
use ting_boundless.Gateway.Proxy.{
  unrouted, directed, upstream, serve, sort_by_length, keys, Router, parse_all, new,
}
use ting_boundless.Gateway.Proxy.Routing.{IsLongest}
use mathlib.Core.List.{Memᴰ}
use ting_boundless.Gateway.Proxy.Longest.{IsMap, serve_cases, serve_order_independent}
use ting_boundless.Identity.RoundTrip.{identity_round_trip}
use ting_boundless.Gateway.Rules.{AnonPrefixes}
use ting_boundless.Httpx.Paths.Laws.{normalize_path-IsAnonymous, IsAnonymous}
use ting_boundless.Httpx.Paths.{normalize_path}

abbrev admin : Identity
admin = record alice { request_id = codes "r1"; roles = codes "admin" ∷ codes "user" ∷ [] }

headers_compute : Unit {0}
unfolding texts_compute set get from_headers inject strip_untrusted internal_token_ok
    HeaderName-discrete
headers_compute = tt

-- A client that claims to be an administrator.
abbrev forged_headers : Headers
forged_headers = set no_headers x_roles (codes "root")

identity_round_trip_example : from_headers (inject admin (strip_untrusted forged_headers)) ≡ admin
unfolding texts_compute
identity_round_trip_example = identity_round_trip admin forged_headers (ground arith) tt

bytes : List ℕ
bytes = 1 ∷ 2 ∷ 3 ∷ 4 ∷ 5 ∷ 6 ∷ 7 ∷ 8 ∷ 9 ∷ 10 ∷ 11 ∷ 12 ∷ 13 ∷ 14 ∷ 15 ∷ 255 ∷ []

abbrev routes : List (Text × Text)
routes = (codes "/v1/", codes "http://a") ∷ (codes "/v1/files/", codes "http://f") ∷ []

abbrev routes_again : List (Text × Text)
routes_again = (codes "/v1/files/", codes "http://f") ∷ (codes "/v1/", codes "http://a") ∷ []

abbrev router : List (Text × Text) → Router
router m = record { prefixes = sort_by_length (keys m); targets = m; internal_token = codes "t" }

abbrev file_request : Request
file_request = request_to "/v1/files/7" no_headers none

serve_cases_example :
    ((p target : Text) × IsLongest (keys routes) file_request.path p
      × Memᴰ (p, target) routes
      × (serve (router routes) file_request ≡ upstream target (directed (codes "t") file_request)))
    ⊎ ((q : Text) → Memᴰ q (keys routes) → has_prefix file_request.path q ≡ false)
      × (serve (router routes) file_request
          ≡ unrouted (
              write_error
                (get file_request.headers x_request_id)
                (not_found (codes "route.not_found") (codes "no route"))))
unfolding new parse_all
serve_cases_example = serve_cases (λ t. ok tt) routes (codes "t") (router routes) file_request refl

swapped : {x p q : Text × Text} → Memᴰ x (p ∷ q ∷ []) → Memᴰ x (q ∷ p ∷ [])
swapped (Memᴰ.head e) = Memᴰ.tail (Memᴰ.head e)
swapped (Memᴰ.tail (Memᴰ.head e)) = Memᴰ.head e
swapped (Memᴰ.tail (Memᴰ.tail m)) = elim m [ ]

api_ne_files : codes "/v1/" ≢ codes "/v1/files/"
unfolding texts_compute
api_ne_files e = cc

routes-IsMap : IsMap routes
routes-IsMap p t u (Memᴰ.head e) (Memᴰ.head e') = ap (λ x. x.1) e ∙ sym (ap (λ x. x.1) e')
routes-IsMap p t u (Memᴰ.head e) (Memᴰ.tail (Memᴰ.head e')) =
    absurd (api_ne_files (sym (ap (λ x. x.0) e) ∙ ap (λ x. x.0) e'))
routes-IsMap p t u (Memᴰ.head e) (Memᴰ.tail (Memᴰ.tail m)) = elim m [ ]
routes-IsMap p t u (Memᴰ.tail (Memᴰ.head e)) (Memᴰ.head e') =
    absurd (api_ne_files (sym (ap (λ x. x.0) e') ∙ ap (λ x. x.0) e))
routes-IsMap p t u (Memᴰ.tail (Memᴰ.head e)) (Memᴰ.tail (Memᴰ.head e')) =
    ap (λ x. x.1) e ∙ sym (ap (λ x. x.1) e')
routes-IsMap p t u (Memᴰ.tail (Memᴰ.head e)) (Memᴰ.tail (Memᴰ.tail m)) = elim m [ ]
routes-IsMap p t u (Memᴰ.tail (Memᴰ.tail m)) m' = elim m [ ]

serve_order_independent_example :
    serve (router routes) file_request ≡ serve (router routes_again) file_request
unfolding new parse_all keys
serve_order_independent_example =
    serve_order_independent (λ t. ok tt) routes routes_again (codes "t") (router routes)
      (router routes_again) file_request routes-IsMap (λ x. (swapped, swapped)) refl refl

abbrev open_rules : AnonPrefixes
open_rules = record { exact = codes "/a" ∷ []; prefix = codes "/b/" ∷ [] }

abbrev dev_environment : Text → Text
dev_environment k = if text_eq k (codes "GATEWAY_BFF_DEV_LOGIN") then codes "true" else []

normalize_path-IsAnonymous_example :
    IsAnonymous (split (normalize_path (codes "/v1/users/42")) b'/')
normalize_path-IsAnonymous_example = normalize_path-IsAnonymous (codes "/v1/users/42")

logged_path : normalize_path (codes "/v1/users/42") ≡ codes "/v1/users/:id"
unfolding texts_compute normalize_path
logged_path = refl
