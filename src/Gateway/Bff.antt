-- ===== src/Gateway/Bff.antt =====
-- The login pages: go/services/gateway/internal/bff/handler.go and cookie.go. One request reads the
-- clock once, `now`, in nanoseconds. The handlers' nil session store is one that is not connected.
pub mod Local
pub mod Laws
pub mod Served
pub mod SignOut
use ting_boundless.Session
use ting_boundless.Revocation
use ting_boundless.Http.{
  Request, ApiError, ErrorReply, bad_request, unauthorized, internal, write_error,
}
use ting_boundless.Jwt.{Library, Verifier, verify}
use ting_boundless.Base.{
  split, text_eq, map, has_prefix, keep, not, trim_space, ltb, List, is_nil, to_lower, Option,
  codes, ℕ, Bool, Text, ◌||◌, ◌^◌, ◌%◌, ◌*◌, ◌-◌, ◌+◌, ◌++◌, ◌∷◌, if◌then◌else◌, false, true, some,
  none, [],
}
use ting_boundless.Base.Results.{Result, err, ok}
use ting_boundless.Httpx.{equal_fold, env, Environment}
use ting_boundless.Redis.{Redis}
use ting_boundless.Session.{PendingLogin, Codec}
use ting_boundless.Identity.{Identity}

-- A cookie that the response sets; `none` as its expiry asks the browser to drop it (MaxAge -1). The
-- other attributes are always the same: path `/`, HttpOnly, SameSite=Lax.
pub record Cookie : Type 0 where
  pub name : Text
  pub value : Text
  pub secure : Bool
  pub expires : Option ℕ

pub data Answer : Type 0 where
  failed : ErrorReply → Answer
  missing : Answer  -- http.NotFound
  redirect : Option Cookie → Text → Answer  -- 302 to the location

-- `oidc.TokenResponse`, and what the handlers ask of `oidc.Client` and its configuration. A number of
-- seconds that is not positive is 0.
pub record Tokens : Type 0 where
  pub access_token : Text
  pub id_token : Text
  pub refresh_token : Text
  pub expires_in : ℕ

pub record Oidc : Type 0 where
  pub ready : Bool
  pub authorize_url : Text → Text → Result Text
  pub exchange_code : Text → Result Tokens

-- `Handler`; `parse_host` is `url.Parse`, of which the host is of interest, and `dev_token` is
-- `auth.DevToken` for a user, a tenant and roles. `authCfg` is the verifier's configuration.
pub record Bff : Type 0 where
  pub oidc : Oidc
  pub sessions : Session.Store
  pub verifier : Verifier
  pub revocations : Option Revocation.Store
  pub dev_login : Bool
  pub secure : Bool
  pub parse_host : Text → Result Text
  pub dev_token : Text → Text → List Text → Result Text

-- `sessionCookieSecure`.
unfoldable pub session_cookie_secure : Environment → Bool
session_cookie_secure e =
    let v = to_lower (trim_space (env e (codes "SESSION_COOKIE_SECURE") [])) in
    if text_eq v (codes "true") || text_eq v (codes "1") || text_eq v (codes "yes")
    then true
    else if text_eq v (codes "false") || text_eq v (codes "0") || text_eq v (codes "no")
    then false
    else equal_fold (env e (codes "APP_ENV") []) (codes "production")

has_no_host : Result Text → Bool
has_no_host (ok host) = is_nil host
has_no_host (err e) = false

-- `safeReturnTo`.
unfoldable pub safe_return_to : (Text → Result Text) → Text → Text → Text
unfolding has_no_host
safe_return_to parse_host raw fallback =
    if is_nil raw
    then fallback
    else if not (has_prefix raw (codes "/")) || has_prefix raw (codes "//")
    then fallback
    else if not (has_no_host (parse_host raw))
    then fallback
    else raw

-- `devRolesFromQuery`.
unfoldable pub dev_roles_from_query : Text → List Text
dev_roles_from_query raw =
    let out = keep (λ p. not (is_nil p)) (map trim_space (split raw b',')) in
    if is_nil raw || is_nil out then codes "user" ∷ codes "admin" ∷ [] else out

-- `setSessionCookie` and `clearSessionCookie`.
unfoldable pub session_cookie : Bff → Text → ℕ → Cookie
session_cookie b sid expires_at = record {
  name = b.sessions.cookie_name;
  value = sid;
  secure = b.secure;
  expires = some expires_at;
}

unfoldable pub cleared_cookie : Bff → Cookie
cleared_cookie b = record {
  name = b.sessions.cookie_name;
  value = [];
  secure = b.secure;
  expires = none;
}

-- `time.Now().Add` of a duration, which is an int64 in two's complement.
add_duration : ℕ → ℕ → ℕ
add_duration now d = if ltb d (2 ^ 63) then now + d else now - (2 ^ 64 - d)

-- The expiry of a session from the lifetime of its tokens, a day where that is not positive.
unfoldable pub expires_at : ℕ → ℕ → ℕ
unfolding add_duration
expires_at now expires_in =
    if ltb 0 expires_in
    then add_duration now (expires_in * 1_000_000_000 % 2 ^ 64)
    else now + 24 * 3600 * 1_000_000_000

-- The errors carry no request id.
failed_with : ApiError → Answer
failed_with e = failed (write_error [] e)

state_error : Answer
unfolding failed_with
state_error = failed_with (internal (codes "state_error") (codes "could not start login"))

session_unavailable : Answer
unfolding failed_with
session_unavailable =
    failed_with (internal (codes "session_unavailable") (codes "redis required for BFF sessions"))

-- The token that is verified at the callback.
unfoldable pub login_token : Tokens → Text
login_token t = if is_nil t.access_token then t.id_token else t.access_token

module _ (library : Library) (redis : Redis) (codec : Codec) (b : Bff) where
  open redis use {State}

  to_provider : Result Text → Answer
  unfolding failed_with
  to_provider (ok url) = redirect none url
  to_provider (err e) =
      failed_with (internal (codes "oidc_error") (codes "could not build authorize URL"))

  pending_saved : Text → Text → Result (Unit {0}) × State → Answer × State
  unfolding to_provider state_error
  pending_saved state nonce (ok _, s) = (to_provider (b.oidc.authorize_url state nonce), s)
  pending_saved state nonce (err e, s) = (state_error, s)

  start_login : Text → Result Text → Result Text → State → Answer × State
  unfolding pending_saved state_error
  start_login return_to (ok state) (ok nonce) s = pending_saved state nonce (
      Session.save_pending redis codec b.sessions state
        (record { return_to = return_to; nonce = nonce }) s)
  start_login return_to _ _ s = (state_error, s)

  -- `SignIn`; `state` and `nonce` are what `randomHex` gives.
  unfoldable pub sign_in : Result Text → Result Text → Request → State → Answer × State
  unfolding start_login failed_with session_unavailable
  sign_in state nonce r s =
      if not b.oidc.ready
      then (
        failed_with (
            internal (codes "oidc_not_configured") (
              codes
                "OIDC BFF not configured; set OIDC_CLIENT_ID/SECRET or use GATEWAY_BFF_DEV_LOGIN")),
        s,
      )
      else if not b.sessions.connected
      then (session_unavailable, s)
      else start_login (safe_return_to b.parse_host (r.query (codes "return_to")) (codes "/")) state
          nonce s

  -- The end of a login: the session was created, or was not.
  unfoldable pub session_created : Text → ℕ → Result Text × State → Answer × State
  unfolding failed_with
  session_created return_to expiry (ok sid, s) =
      (redirect (some (session_cookie b sid expiry)) return_to, s)
  session_created return_to expiry (err e, s) =
      (failed_with (internal (codes "session_error") (codes "could not create session")), s)

  -- The session that a login stores.
  abbrev pub login_data : Text → Text → Identity → ℕ → Session.Data
  login_data access refresh id expiry = record {
    access_token = access;
    refresh_token = refresh;
    identity = id;
    expires_at = some expiry;
  }

  unfoldable pub token_verified :
      ℕ → Result Text → PendingLogin → Tokens → State → Result Identity → Answer × State
  unfolding failed_with
  token_verified now new_id pending t s (err e) =
      (failed_with (unauthorized (codes "invalid_token") (codes "invalid token from IdP")), s)
  token_verified now new_id pending t s (ok id) =
      let expiry = expires_at now t.expires_in in
      session_created pending.return_to expiry (
        Session.create redis codec b.sessions now new_id
          (login_data t.access_token t.refresh_token id expiry) s)

  unfoldable pub code_exchanged :
      ℕ → Result Text → PendingLogin → State → Result Tokens → Answer × State
  unfolding failed_with
  code_exchanged now new_id pending s (err e) = (
    failed_with (unauthorized (codes "token_exchange_failed") (codes "could not complete login")),
    s,
  )
  code_exchanged now new_id pending s (ok t) =
      token_verified now new_id pending t s (verify library b.verifier now (login_token t))

  unfoldable pub pending_consumed :
      ℕ → Result Text → Text → Result PendingLogin × State → Answer × State
  unfolding failed_with
  pending_consumed now new_id code (err e, s) = (
    failed_with (unauthorized (codes "invalid_state") (codes "login session expired or invalid")),
    s,
  )
  pending_consumed now new_id code (ok p, s) =
      code_exchanged now new_id p s (b.oidc.exchange_code code)

  -- `Callback`; `new_id` is the id that a session would get.
  unfoldable pub callback : ℕ → Result Text → Request → State → Answer × State
  unfolding failed_with
  callback now new_id r s =
      let code = r.query (codes "code") in
      let state = r.query (codes "state") in
      if not (is_nil (r.query (codes "error")))
      then (
        failed_with (
            unauthorized (codes "oidc_denied")
              (r.query (codes "error") ++ (codes ": " ++ r.query (codes "error_description")))),
        s,
      )
      else if is_nil code || is_nil state
      then (failed_with (bad_request (codes "invalid_callback") (codes "missing code or state")), s)
      else pending_consumed now new_id code (Session.consume_pending redis codec b.sessions state s)
