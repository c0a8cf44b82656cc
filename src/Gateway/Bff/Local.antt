-- ===== src/Gateway/Bff/Local.antt =====
-- The handlers that do not need the identity provider: SignOut and DevSignIn of
-- go/services/gateway/internal/bff/handler.go.
use ting_boundless.Session
use ting_boundless.Revocation
use ting_boundless.Jwt.{Library, verify}
use ting_boundless.Base.{
  codes, not, ℕ, Option, is_nil, Text, ◌*◌, ◌+◌, if◌then◌else◌, some, none, [],
}
use ting_boundless.Base.Results.{Result, err, ok}
use ting_boundless.Redis.{Redis}
use ting_boundless.Session.{Codec}
use ting_boundless.Gateway.Bff.{
  login_data, dev_roles_from_query, session_created, missing, safe_return_to, internal, Identity,
  cleared_cookie, redirect, session_unavailable, Answer, failed_with, Request, Bff,
}

abbrev or_default : Text → Text → Text
or_default v default = if is_nil v then default else v

module _ (library : Library) (redis : Redis) (codec : Codec) (b : Bff) where
  open redis use {State}

  unfoldable pub revoked : Option Revocation.Store → Text → State → State
  revoked none sid s = s
  revoked (some store) sid s =
      if store.connected then (Revocation.revoke_session redis store sid s).1 else s

  unfoldable pub signed_out : Option Text → State → State
  unfolding revoked
  signed_out none s = s
  signed_out (some sid) s =
      if is_nil sid
      then s
      else revoked b.revocations sid (Session.delete redis codec b.sessions sid s).1

  -- `SignOut`.
  unfoldable pub sign_out : Request → State → Answer × State
  unfolding signed_out
  sign_out r s = (
    redirect (some (cleared_cookie b))
        (safe_return_to b.parse_host (r.query (codes "return_to")) (codes "/")),
    signed_out (r.cookie b.sessions.cookie_name) s,
  )

  dev_verified : ℕ → Result Text → Text → Text → State → Result Identity → Answer × State
  unfolding failed_with
  dev_verified now new_id return_to token s (err e) =
      (failed_with (internal (codes "dev_token_error") (codes "dev token verification failed")), s)
  dev_verified now new_id return_to token s (ok id) =
      let expiry = now + 24 * 3600 * 1_000_000_000 in
      session_created library redis codec b return_to expiry (
        Session.create redis codec b.sessions now new_id
          (login_data library redis codec b token [] id expiry) s)

  dev_minted : ℕ → Result Text → Text → State → Result Text → Answer × State
  unfolding failed_with dev_verified
  dev_minted now new_id return_to s (err e) =
      (failed_with (internal (codes "dev_token_error") (codes "could not mint dev token")), s)
  dev_minted now new_id return_to s (ok token) =
      dev_verified now new_id return_to token s (verify library b.verifier now token)

  -- `DevSignIn`.
  unfoldable pub dev_sign_in : ℕ → Result Text → Request → State → Answer × State
  unfolding dev_minted failed_with session_unavailable
  dev_sign_in now new_id r s =
      if not b.dev_login
      then (missing, s)
      else if not b.sessions.connected
      then (session_unavailable, s)
      else if is_nil b.verifier.config.dev_secret
      then (
        failed_with (
            internal (codes "dev_auth_unconfigured")
              (codes "set GATEWAY_DEV_JWT_SECRET for dev login")),
        s,
      )
      else dev_minted now new_id
          (safe_return_to b.parse_host (r.query (codes "return_to")) (codes "/")) s
          (b.dev_token (or_default (r.query (codes "user_id")) (codes "dev-user"))
            (or_default (r.query (codes "tenant_id")) (codes "dev-tenant"))
            (dev_roles_from_query (r.query (codes "roles"))))
