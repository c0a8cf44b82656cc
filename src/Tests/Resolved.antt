-- ===== src/Tests/Resolved.antt =====
-- The Gateway's client of auth-service, where both sides hold the same token.
use ting_boundless.Gateway.Resolver.{
  resolve_logto, call_route, headers_of, read_response, resolve, route, status_and_body, user_of,
}
use ting_boundless.Httpx.{internal_auth, internal_token_ok}
use ting_boundless.Http.{get, set, HeaderName-discrete}
use ting_boundless.Accounts.Api.{serve_resolve, answered_with, resolve_decoded}
use ting_boundless.Accounts.{
  resolve_provider_user, looked_up, lookup_user_id, run, finished, found, find_user, writes,
  create_rows, create_unless, create_user, create_user_with_provider, created, has_key,
  insert_unless, new_user_id, turn_of, with_user, write,
}
use ting_boundless.Base.Results.{is_no_rows}
use ting_boundless.Trace.{hex, hex_digit}
use ting_boundless.Accounts.{Tables, Store}
use ting_boundless.Gateway.Resolver.{Wire, Client}
use ting_boundless.Base.{inr, ap, codes, Text, ◌++◌, ◌∷◌, ◌≡◌, refl, true, some, []}
use ting_boundless.Base.Results.{Result, ok}
use ting_boundless.Accounts.Api.{ResolveRequest}
use ting_boundless.Gateway.Authenticate.{map_platform_user_id}
use ting_boundless.Session.Coding.{dec_text-enc, dec_text, enc_text}
use ting_boundless.Tests.Fixtures.{texts_compute, alice}
use ting_boundless.Gateway.Resolver.Laws.{map_platform_user_id-Maps, asked}
use ting_boundless.Accounts.Growth.{HasUser, Maps}

abbrev no_rows : Tables
no_rows = record { users = []; entries = [] }

abbrev answering : Store
answering = record { connected = true; tables = no_rows; turns = [] }

abbrev request_of : Text × Text → ResolveRequest
request_of (p, u) = record { provider = p; provider_uid = u }

abbrev wire : Wire
wire = record {
  encode_request = λ r. enc_text r.provider ++ r.provider_uid;
  decode_request = λ t. ok (request_of (dec_text t));
  encode_user = λ x. x;
  decode_user = λ t. ok t;
  encode_error = λ e. [];
}

wire_round_trip : (r : ResolveRequest) → wire.decode_request (wire.encode_request r) ≡ ok r
wire_round_trip r = ap (λ o. ok (request_of o)) (dec_text-enc r.provider r.provider_uid)

abbrev client : Client
client = record { base_url = codes "http://auth"; token = codes "k" }

abbrev asked_for : Text → Text → Store → Result Text × Store
asked_for = asked wire (codes "k") (ok (10 ∷ [])) wire_round_trip (λ x. refl) (some client)

-- The user id that auth-service makes for Alice.
abbrev alice_user : Text
alice_user = codes "0a"

answer_lem : (asked_for (codes "alice") (codes "r") answering).0 ≡ ok alice_user
unfolding texts_compute resolve_logto call_route internal_auth internal_token_ok get set
    serve_resolve dec_text enc_text resolve_provider_user looked_up lookup_user_id run finished
    found find_user writes answered_with resolve_decoded create_rows create_unless create_user
    create_user_with_provider created has_key insert_unless new_user_id turn_of with_user write
    is_no_rows headers_of read_response resolve route status_and_body user_of HeaderName-discrete
    hex hex_digit
answer_lem = refl

map_platform_user_id-Maps_example :
    let mapped =
      map_platform_user_id (some (λ sub r. (asked_for sub r answering).0)) alice (codes "r") in
    (mapped ≡ record alice { user_id = alice_user })
    × Maps
        (codes "logto")
        (codes "alice")
        mapped.user_id
        (asked_for (codes "alice") (codes "r") answering).1.tables
    × HasUser mapped.user_id (asked_for (codes "alice") (codes "r") answering).1.tables
unfolding texts_compute
map_platform_user_id-Maps_example =
    map_platform_user_id-Maps wire (codes "k") (ok (10 ∷ [])) wire_round_trip (λ x. refl)
      (some client) alice (codes "r") answering (tt, tt, tt) (λ h. cc) (inr refl) answer_lem
