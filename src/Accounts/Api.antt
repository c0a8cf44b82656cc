-- ===== src/Accounts/Api.antt =====
-- The handlers that use the identity store: `ServeHTTP` of
-- go/services/auth-service/internal/identityapi/handler.go and `Login` of
-- go/services/auth-service/internal/miniprogram/handler.go.
pub mod Laws
use ting_boundless.Base.Results.{Result, ok, err}
use ting_boundless.Accounts.Wechat.{resolve_wechat_user}
use ting_boundless.Base.{
  not, is_nil, codes, ℕ, List, Option, Bool, Text, ◌||◌, ◌++◌, ◌∷◌, if◌then◌else◌, some, none, [],
}
use ting_boundless.Http.{unauthorized, bad_request, internal, write_error, ApiError, ErrorReply}
use ting_boundless.Accounts.{Store}
use ting_boundless.Accounts.{resolve_provider_user}

-- `resolveRequest`, a decoded body.
pub record ResolveRequest : Type 0 where
  pub provider : Text
  pub provider_uid : Text

pub data ResolveReply : Type 0 where
  resolved : Text → ResolveReply  -- 200 with the `user_id`
  failed : ErrorReply → ResolveReply

unfoldable pub answered_with : Text → Result Text × Store → ResolveReply × Store
answered_with rid (ok x, s) = (resolved x, s)
answered_with rid (err e, s) = (
  failed (
      write_error rid
        (internal (codes "identity_resolve_failed") (codes "could not resolve identity"))),
  s,
)

abbrev invalid_request : Text → ResolveReply
invalid_request rid = failed (
    write_error rid
      (bad_request (codes "invalid_request") (codes "provider and provider_uid are required")))

unfoldable pub resolve_decoded :
    Text → Result (List ℕ) → Result ResolveRequest → Store → ResolveReply × Store
unfolding answered_with
resolve_decoded rid random (err e) s = (invalid_request rid, s)
resolve_decoded rid random (ok req) s =
    if is_nil req.provider || is_nil req.provider_uid
    then (invalid_request rid, s)
    else answered_with rid (resolve_provider_user random req.provider req.provider_uid s)

-- `ServeHTTP`; `has_store` says that the handler and its store are not nil, and `decode` is the JSON
-- decoder.
unfoldable pub serve_resolve :
    Bool
    → (Text → Result ResolveRequest)
    → Result (List ℕ)
    → Text
    → Text
    → Store
    → ResolveReply × Store
unfolding resolve_decoded
serve_resolve has_store decode random rid body s =
    if not has_store
    then (
      failed (
          write_error rid
            (internal (codes "identity_unavailable") (codes "identity store not configured"))),
      s,
    )
    else resolve_decoded rid random (decode body) s

-- `wechat.Session`, the part that is read.
pub record WechatSession : Type 0 where
  pub openid : Text
  pub unionid : Text

-- The audit event of a login: its actor, its subject, and the data that name the WeChat user.
pub record LoginEvent : Type 0 where
  pub actor : Text
  pub subject : Text
  pub openid : Text
  pub unionid : Option Text

-- `Handler`, with the collaborators as functions: `none` is a nil pointer. `access_token` is given the
-- user, the tenant, the roles and the time to live.
pub record LoginConfig : Type 0 where
  pub code2session : Option (Text → Result WechatSession)
  pub has_identities : Bool
  pub access_token : Option (Text → Text → List Text → ℕ → Result Text)
  pub has_audit : Bool
  pub ttl : ℕ  -- in seconds

pub data LoginReply : Type 0 where
  failed : ErrorReply → LoginReply
  logged_in : Text → ℕ → Text → LoginReply  -- access_token, expires_in, user_id

-- A reply, the store, and the audit event that was emitted; the emitter's error is only logged.
abbrev pub LoginResult : Type 0
LoginResult = LoginReply × Store × Option LoginEvent

unfoldable pub login_failed : Text → ApiError → Store → LoginResult
login_failed rid e s = (failed (write_error rid e), s, none)

-- The roles of a mini-program user's token.
abbrev pub user_roles : List Text
user_roles = codes "user" ∷ []

unfoldable pub login_event : LoginConfig → WechatSession → Text → Option LoginEvent
login_event cfg sess x =
    if cfg.has_audit
    then some (record {
      actor = x;
      subject = codes "user:" ++ x;
      openid = sess.openid;
      unionid = if is_nil sess.unionid then none else some sess.unionid;
    })
    else none

unfoldable pub issued :
    LoginConfig → Text → WechatSession → Text → Store → Result Text → LoginResult
unfolding login_failed login_event
issued cfg rid sess x s (err e) =
    login_failed rid (internal (codes "auth.token_failed") (codes "could not issue token")) s
issued cfg rid sess x s (ok token) = (logged_in token cfg.ttl x, s, login_event cfg sess x)

unfoldable pub with_account :
    LoginConfig
    → (Text → Text → List Text → ℕ → Result Text)
    → Text
    → WechatSession
    → Result Text × Store
    → LoginResult
unfolding issued login_failed
with_account cfg issue rid sess (err e, s) =
    login_failed rid (internal (codes "auth.identity_failed") (codes "could not resolve user")) s
with_account cfg issue rid sess (ok x, s) = issued cfg rid sess x s (issue x [] user_roles cfg.ttl)

unfoldable pub with_session :
    LoginConfig
    → (Text → Text → List Text → ℕ → Result Text)
    → Result (List ℕ)
    → Text
    → Store
    → Result WechatSession
    → LoginResult
unfolding with_account login_failed
with_session cfg issue random rid s (err e) =
    login_failed rid (unauthorized (codes "auth.wechat_failed") (codes "wechat login failed")) s
with_session cfg issue random rid s (ok sess) =
    with_account cfg issue rid sess (resolve_wechat_user random sess.openid sess.unionid s)

abbrev code_required : ApiError
code_required = bad_request (codes "auth.invalid_request") (codes "code is required")

unfoldable pub with_code :
    LoginConfig
    → (Text → Result WechatSession)
    → (Text → Text → List Text → ℕ → Result Text)
    → Result (List ℕ)
    → Text
    → Store
    → Result Text
    → LoginResult
unfolding with_session login_failed
with_code cfg exchange issue random rid s (err e) = login_failed rid code_required s
with_code cfg exchange issue random rid s (ok code) =
    if is_nil code
    then login_failed rid code_required s
    else with_session cfg issue random rid s (exchange code)

abbrev auth_unavailable : ApiError
auth_unavailable = internal (codes "auth.unavailable") (codes "auth service not configured")

unfoldable pub login_configured :
    LoginConfig
    → Option (Text → Result WechatSession)
    → Option (Text → Text → List Text → ℕ → Result Text)
    → (Text → Result Text)
    → Result (List ℕ)
    → Text
    → Text
    → Store
    → LoginResult
unfolding with_code login_failed
login_configured cfg (some exchange) (some issue) decode random rid body s =
    if not cfg.has_identities
    then login_failed rid
        (internal (codes "auth.unavailable") (codes "user database not configured")) s
    else with_code cfg exchange issue random rid s (decode body)
login_configured cfg _ _ decode random rid body s = login_failed rid auth_unavailable s

-- `Login`; `decode` gives the code of a request body.
unfoldable pub login :
    LoginConfig → (Text → Result Text) → Result (List ℕ) → Text → Text → Store → LoginResult
unfolding login_configured
login cfg decode random rid body s =
    login_configured cfg cfg.code2session cfg.access_token decode random rid body s
