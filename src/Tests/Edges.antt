-- ===== src/Tests/Edges.antt =====
-- The Gateway's authentication: Alice's token, a bad token, no credentials, a revoked subject.
use ting_boundless.Revocation
use ting_boundless.Http.{
  other, HeaderName, del, write_error, HeaderName-discrete, Headers, HeaderName, Request, get, set,
  authorization, x_forwarded_for, x_request_id, x_user_id, x_tenant_id, x_roles, x_scopes,
  x_auth_subject, x_internal_token, traceparent, x_real_ip, retry_after, content_type,
  content_length, content_disposition, logto_signature, other,
}
use ting_boundless.Jwt.{
  dev_key, scopes_claim, string_slice_claim, string_claim, enabled, validate_standard_claims,
  validated, parse_with_hmac, verify_hmac, map_claims, Claims, Verifier, verify,
}
use ting_boundless.Base.{
  arith, Bool, ◌∷◌, false, List, codes, Option, Text, String, ◌++◌, ◌⊎◌, ◌≡◌, refl, true, some,
  none, [],
}
use ting_boundless.Tests.Fixtures.{
  alice_token, empty_store, edge, no_headers, alice, blocklist, no_config, dev_verifier, request_to,
  library, texts_compute,
}
use ting_boundless.Jwt.Laws.{verify_sound, AreClaims, IsFor, IsGenuine}
use ting_boundless.Gateway.Authenticate.{
  is_revoked, check_revocation, checked, decide, decided, bearer_verified, with_bearer,
  map_platform_user_id, known, emit_entry, has_identity, forward, Entry, deny, authenticate, Caller,
  Outcome,
}
use ting_boundless.Redis.Model.{store_redis, Store}
use ting_boundless.Identity.{inject, strip_untrusted, Identity}
use ting_boundless.Gateway.Authenticate.Safety.{
  authenticate_safe, rules, stamped, injected, IsCaller,
}
use ting_boundless.Session.Coding.{length_codec}
use ting_boundless.Gateway.EndToEnd.{ReverseProxy, service-forwarded, service}
use ting_boundless.Gateway.Proxy.{directed}
use ting_boundless.Httpx.{bearer}
use ting_boundless.Gateway.Authenticate.Denial.{revoked_subject_locked_out, revoked_reply}
use ting_boundless.Gateway.Rules.{requires_revocation_check, is_empty, allows}

abbrev token_headers : String → Headers
token_headers raw = set no_headers authorization (bearer ++ codes raw)

abbrev alice_request : Request
alice_request = request_to "/v1/files/7" (token_headers "k") none

abbrev bob_request : Request
bob_request = request_to "/open/x" (token_headers "bob") none

edges_compute : Unit {0}
unfolding texts_compute set get HeaderName-discrete strip_untrusted inject has_identity known
    map_platform_user_id verify verify_hmac parse_with_hmac validated validate_standard_claims
    enabled map_claims string_claim string_slice_claim scopes_claim dev_key library authenticate
    with_bearer bearer_verified decided decide checked check_revocation is_revoked is_empty
    requires_revocation_check allows emit_entry write_error Revocation.put Revocation.lookup
    Revocation.is_subject_revoked Revocation.is_session_revoked Revocation.revoke_subject
    Revocation.revoke_session
edges_compute = tt

abbrev rid : Text
rid = codes "r1"

verify_sound_example :
    IsGenuine library dev_verifier (codes "k")
    × ((c : Claims) × AreClaims library dev_verifier (codes "k") c
        × IsFor dev_verifier 5 c
        × (alice ≡ map_claims c))
verify_sound_example = verify_sound library dev_verifier 5 (codes "k") alice alice_token

abbrev rs_verifier : Verifier
rs_verifier = record { config = no_config; has_jwks = true }

forwarded : Outcome → Request
forwarded (deny e) = alice_request
forwarded (forward r) = r

abbrev served : Outcome × List Entry × Store
served = authenticate library store_redis length_codec edge 5 rid alice_request empty_store

authenticate_safe_example :
    (c : Caller) × IsCaller library store_redis length_codec edge 5 rid alice_request empty_store c
    × (injected c.identity (stamped rid alice_request) ≡ forwarded served.0)
    × ((c.authenticated ≡ true) ⊎ (allows (rules edge) alice_request.path ≡ true))
unfolding edges_compute forwarded del
authenticate_safe_example =
    authenticate_safe library store_redis length_codec edge 5 rid alice_request empty_store
      (forwarded served.0) refl

revoked_subject_locked_out_example :
    (authenticate library store_redis length_codec edge 5 rid alice_request
      (Revocation.revoke_subject store_redis blocklist (codes "alice") empty_store).1).0
    ≡ deny (revoked_reply store_redis edge rid)
unfolding edges_compute
revoked_subject_locked_out_example =
    revoked_subject_locked_out library store_redis length_codec edge 5 blocklist dev_verifier rid
      (codes "k") alice_request empty_store alice refl refl refl refl refl refl refl refl refl
      (λ h. cc) refl

-- A service that answers with the user's id.
abbrev whoami : Option Identity → Request → Text
whoami none r = []
whoami (some id) r = id.user_id

abbrev alice_at_edge : Identity
alice_at_edge = record alice { request_id = rid }

-- A reverse proxy that appends to X-Forwarded-For.
unfoldable appended : Headers → Headers
appended h x_forwarded_for = h x_forwarded_for ++ codes "203.0.113.1" ∷ []
appended h k = h k

is_forwarded_for : HeaderName → Bool
is_forwarded_for x_forwarded_for = true
is_forwarded_for k = false

appended-keeps : (h : Headers) (k : HeaderName) → is_forwarded_for k ≡ false → appended h k ≡ h k
unfolding appended is_forwarded_for
appended-keeps h x_forwarded_for e = absurd (ground (arith, e))
appended-keeps h x_request_id e = refl
appended-keeps h x_user_id e = refl
appended-keeps h x_tenant_id e = refl
appended-keeps h x_roles e = refl
appended-keeps h x_scopes e = refl
appended-keeps h x_auth_subject e = refl
appended-keeps h x_internal_token e = refl
appended-keeps h authorization e = refl
appended-keeps h traceparent e = refl
appended-keeps h x_real_ip e = refl
appended-keeps h retry_after e = refl
appended-keeps h content_type e = refl
appended-keeps h content_length e = refl
appended-keeps h content_disposition e = refl
appended-keeps h logto_signature e = refl
appended-keeps h (other t) e = refl

abbrev proxy : ReverseProxy
proxy = record {
  send = λ r. record r { headers = appended r.headers };
  changes = λ r k. is_forwarded_for k;
  send-keeps = λ r k e. appended-keeps r.headers k e;
}

service-forwarded_example :
    service
      (λ e. e.code)
      (λ k v t. t)
      whoami
      (codes "t")
      (codes "fresh")
      none
      (proxy.send (directed (codes "t") (injected alice_at_edge (stamped rid alice_request))))
    ≡ codes "alice"
unfolding texts_compute is_forwarded_for
service-forwarded_example =
    service-forwarded (λ e. e.code) (λ k v t. t) whoami proxy alice_at_edge rid (codes "t")
      (codes "fresh") alice_request none (λ h. cc) (λ h. cc) refl (λ h. cc)
      (refl, refl, refl, refl, refl, refl, refl)
