-- ===== src/Gateway/Authenticate.antt =====
-- Edge authentication: go/services/gateway/internal/auth/middleware.go and resolve.go, and
-- IdentityFromRequest of go/services/gateway/internal/bff/handler.go.
pub mod Safety
pub mod Denial
use ting_boundless.Session
use ting_boundless.Revocation
use ting_boundless.Jwt
use ting_boundless.Redis.{Redis}
use ting_boundless.Session.{Codec}
use ting_boundless.Http.{
  authorization, x_request_id, internal, unauthorized, write_error, Request, ErrorReply, get, set,
}
use ting_boundless.Base.{
  trim_prefix, trim_space, has_prefix, codes, text_eq, not, ℕ, List, Bool, is_nil, Text, Option,
  ◌||◌, ◌&&◌, ◌∷◌, if◌then◌else◌, false, some, none, [],
}
use ting_boundless.Base.Results.{failure, Result, err, ok}
use ting_boundless.Identity.{inject, strip_untrusted, empty_identity, Identity}
use ting_boundless.Jwt.{verify, Verifier, Library}
use ting_boundless.Gateway.Rules.{
  requires_revocation_check, allows, default_anon_prefixes, is_empty, AnonPrefixes,
}
use ting_boundless.Revocation.{is_subject_revoked, is_session_revoked}
use ting_boundless.Httpx.{bearer}

-- The collaborators of the middleware; `none` is a nil pointer. The resolver is the call of
-- auth-service, from a subject and a request id; `has_audit` says that the audit emitter is not nil.
pub record Edge : Type 0 where
  pub verifier : Option Verifier
  pub sessions : Option Session.Store
  pub anon : AnonPrefixes
  pub resolver : Option (Text → Text → Result Text)
  pub revocations : Option Revocation.Store
  pub sensitive : List Text
  pub has_audit : Bool

-- An entry event that was handed to the audit emitter.
pub record Entry : Type 0 where
  pub type : Text
  pub request_id : Text
  pub reason : Text

-- The request is answered with an error, or passed on.
pub data Outcome : Type 0 where
  deny : ErrorReply → Outcome
  forward : Request → Outcome

-- `mapPlatformUserID`.
unfoldable pub map_platform_user_id :
    Option (Text → Text → Result Text) → Identity → Text → Identity
map_platform_user_id none id rid = id
map_platform_user_id (some resolve) id rid =
    if is_nil id.subject
    then id
    else if not (is_nil id.user_id) && not (text_eq id.user_id id.subject)
    then id
    else elim (resolve id.subject rid) [ ok user ↦ record id { user_id = user } | err e ↦ id ]

-- `id.UserID != "" || id.Subject != ""`.
unfoldable pub has_identity : Identity → Bool
has_identity id = not (is_nil id.user_id) || not (is_nil id.subject)

unfoldable pub verifier_enabled : Option Verifier → Bool
verifier_enabled none = false
verifier_enabled (some v) = Jwt.enabled v

-- `EmitEntry`: no event where there is no emitter.
unfoldable pub emit_entry : Edge → Text → Text → Text → List Entry
emit_entry g rid type reason =
    if g.has_audit then record { type = type; request_id = rid; reason = reason } ∷ [] else []

-- What the middleware has found out before it decides: `id`, `authenticated` and `sessionID`.
pub record Caller : Type 0 where
  pub identity : Identity
  pub authenticated : Bool
  pub session_id : Text

-- `identity.Identity{RequestID: rid}`.
abbrev pub anonymous : Text → Caller
anonymous rid = record {
  identity = record empty_identity { request_id = rid };
  authenticated = false;
  session_id = [];
}

-- A verified identity, after the request id is put in and the user id is mapped.
unfoldable pub known : Edge → Text → Identity → Text → Caller
known g rid id session_id =
    let mapped = map_platform_user_id g.resolver (record id { request_id = rid }) rid in
    record { identity = mapped; authenticated = has_identity mapped; session_id = session_id }

unfoldable pub is_revoked : Result Bool → Bool
is_revoked (ok b) = b
is_revoked (err e) = false

module _ (redis : Redis) where
  open redis use {State}

  -- `checkRevocation`: the reason for a denial, if there is one.
  unfoldable pub check_revocation : Option Revocation.Store → Identity → Text → State → Option Text
  check_revocation none id session_id s = none
  check_revocation (some store) id session_id s =
      let subject = if is_nil id.subject then id.user_id else id.subject in
      if not store.connected
      then none
      else if not (is_nil session_id) && is_revoked (is_session_revoked redis store session_id s)
      then some (codes "auth.session_revoked")
      else if not (is_nil subject) && is_revoked (is_subject_revoked redis store subject s)
      then some (codes "auth.subject_revoked")
      else none

  -- The outcome of the revocation check.
  unfoldable pub checked : Edge → Text → Request → Caller → Option Text → Outcome × List Entry
  checked g rid r c (some reason) = (
    deny (
        write_error rid
          (unauthorized (codes "auth.revoked") (codes "credentials have been revoked"))),
    emit_entry g rid (codes "api.access.denied") reason,
  )
  checked g rid r c none = (forward (record r { headers = inject c.identity r.headers }), [])

  -- The decision on a caller: the anonymous rules, the revocation check, the injection.
  unfoldable pub decide : Edge → Text → Request → Caller → State → Outcome × List Entry
  decide g rid r c s =
      let anon = if is_empty g.anon then default_anon_prefixes else g.anon in
      if not c.authenticated && not (allows anon r.path)
      then (
        deny (
            write_error rid
              (unauthorized (codes "auth.unauthenticated") (codes "authentication required"))),
        emit_entry g rid (codes "api.access.denied") (codes "auth.unauthenticated"),
      )
      else if c.authenticated && requires_revocation_check g.sensitive r.path
      then checked g rid r c (check_revocation g.revocations c.identity c.session_id s)
      else (forward (record r { headers = inject c.identity r.headers }), [])

module _ (library : Library) (redis : Redis) (codec : Codec) where
  open redis use {State}

  unfoldable pub verified_session :
      Verifier → Session.Store → ℕ → Text → Session.Data → State → Result (Identity × Text) × State
  verified_session v store now sid d s = elim (verify library v now d.access_token) [
    | ok id ↦ (ok (id, sid), s)
    | err e ↦ (err e, (Session.delete redis codec store sid s).1)
  ]

  unfoldable pub loaded_session :
      Verifier
      → Session.Store
      → ℕ
      → Text
      → Result Session.Data × State
      → Result (Identity × Text) × State
  loaded_session v store now sid (ok d, s) = verified_session v store now sid d s
  loaded_session v store now sid (err e, s) = (err e, s)

  -- `IdentityFromRequest` where there is a store that is enabled.
  unfoldable pub identity_from_cookie :
      Verifier → Session.Store → ℕ → Option Text → State → Result (Identity × Text) × State
  identity_from_cookie v store now none s = (err (failure (codes "no session cookie")), s)
  identity_from_cookie v store now (some sid) s =
      if is_nil sid
      then (err (failure (codes "no session cookie")), s)
      else loaded_session v store now sid (Session.get redis codec store now sid s)

  -- `IdentityFromRequest`.
  unfoldable pub identity_from_request :
      Request
      → Option Session.Store
      → Option Verifier
      → ℕ
      → State
      → Result (Identity × Text) × State
  identity_from_request r (some store) (some v) now s =
      if not store.connected
      then (err (failure (codes "session auth unavailable")), s)
      else identity_from_cookie v store now (r.cookie store.cookie_name) s
  identity_from_request r _ _ now s = (err (failure (codes "session auth unavailable")), s)

  unfoldable pub decided : State → Outcome × List Entry → Outcome × List Entry × State
  decided s (o, es) = (o, es, s)

  -- After `Verify` of a bearer token.
  unfoldable pub bearer_verified :
      Edge → Text → Request → State → Result Identity → Outcome × List Entry × State
  bearer_verified g rid r s (err e) = (
    deny
        (write_error rid (unauthorized (codes "invalid_token") (codes "invalid or expired token"))),
    emit_entry g rid (codes "api.token.invalid") (codes "invalid_token"),
    s,
  )
  bearer_verified g rid r s (ok id) = decided s (decide redis g rid r (known g rid id []) s)

  unfoldable pub unconfigured : Text → Outcome
  unconfigured rid = deny (
      write_error rid
        (internal (codes "auth_unconfigured") (codes "jwt verification not configured")))

  -- A bearer token; `raw` is what follows "Bearer ", trimmed.
  unfoldable pub with_bearer :
      Edge → ℕ → Text → Text → Request → State → Outcome × List Entry × State
  with_bearer g now rid raw r s = elim g.verifier [
    | none ↦ (unconfigured rid, [], s)
    | some v ↦
        if not (Jwt.enabled v)
        then (unconfigured rid, [], s)
        else bearer_verified g rid r s (verify library v now raw)
  ]

  -- After IdentityFromRequest: a request without a valid session is anonymous.
  unfoldable pub session_found :
      Edge → Text → Request → Result (Identity × Text) × State → Outcome × List Entry × State
  session_found g rid r (ok (id, sid), s) = decided s (decide redis g rid r (known g rid id sid) s)
  session_found g rid r (err e, s) = decided s (decide redis g rid r (anonymous rid) s)

  -- `Authenticate`: `rid` is the fresh request id, which the response also carries.
  unfoldable pub authenticate : Edge → ℕ → Text → Request → State → Outcome × List Entry × State
  authenticate g now rid r0 s =
      let r = record r0 { headers = set (strip_untrusted r0.headers) x_request_id rid } in
      let token = get r.headers authorization in
      if has_prefix token bearer
      then with_bearer g now rid (trim_space (trim_prefix token bearer)) r s
      else if Session.enabled g.sessions && verifier_enabled g.verifier
      then session_found g rid r (identity_from_request r g.sessions g.verifier now s)
      else decided s (decide redis g rid r (anonymous rid) s)
