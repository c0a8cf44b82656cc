-- ===== src/Webhook/Handler.antt =====
-- `ServeHTTP` and `applyRevocation` of go/services/auth-service/internal/logto/handler.go. The state is
-- the table of deliveries, that of the identities and of the audit service, and Redis.
use ting_boundless.Revocation
use ting_boundless.Http.{
  unauthorized, logto_signature, x_request_id, bad_request, write_error, Headers, ApiError,
  ErrorReply, get, internal,
}
use ting_boundless.Base.{
  text_eq, codes, not, is_nil, Option, Text, Bool, ◌&&◌, if◌then◌else◌, some, none, [],
}
use ting_boundless.Base.Results.{is_err, Result, err, ok}
use ting_boundless.Webhook.{
  verify_signature, delivery_key, logto_user_id, parse_payload, try_record, to_audit_event, Payload,
  Deliveries, Event, Decoders,
}
use ting_boundless.Redis.{Redis}

-- The handler's collaborators besides the table of deliveries and the blocklist: the store of
-- identities, which may add a user, and the audit emitter.
pub record Services : Type 1 where
  pub World : Type 0
  pub has_identities : Bool
  pub resolve_logto_user : Text → World → Result Text × World
  pub has_audit : Bool
  pub emit : Event → World → Result (Unit {0}) × World

-- `Handler`; `none` as the blocklist is a nil pointer.
pub record Config : Type 0 where
  pub signing_key : Text
  pub skip_verify : Bool
  pub has_deliveries : Bool
  pub revocations : Option Revocation.Store

pub data Reply : Type 0 where
  failed : ErrorReply → Reply
  accepted duplicate : Reply  -- 202 with that status

module _ (decoders : Decoders) (services : Services) (redis : Redis) (cfg : Config) where
  open services use {World, has_identities, resolve_logto_user, has_audit, emit}
  open redis use {State}

  abbrev pub Tables : Type 0
  Tables = Deliveries × World × State

  unfoldable pub revoke_if : Revocation.Store → Text → State → Result (Unit {0}) × State
  revoke_if store subject s =
      if is_nil subject then (ok tt, s) else Revocation.revoke_subject redis store subject s

  unfoldable pub then_revoke :
      Revocation.Store → Text → Result (Unit {0}) × State → Result (Unit {0}) × State
  unfolding revoke_if
  then_revoke store subject (ok _, s) = revoke_if store subject s
  then_revoke store subject (err e, s) = (err e, s)

  unfoldable pub revoke_both :
      Option Revocation.Store → Payload → Text → State → Result (Unit {0}) × State
  unfolding revoke_if then_revoke
  revoke_both none p platform_user_id s = (ok tt, s)
  revoke_both (some store) p platform_user_id s =
      if not store.connected
      then (ok tt, s)
      else if text_eq p.event (codes "User.Deleted")
      then then_revoke store platform_user_id (revoke_if store (logto_user_id decoders p) s)
      else (ok tt, s)

  -- `applyRevocation`.
  unfoldable pub apply_revocation : Payload → Text → State → Result (Unit {0}) × State
  unfolding revoke_both
  apply_revocation p platform_user_id s = revoke_both cfg.revocations p platform_user_id s

  unfoldable pub fail : Text → ApiError → Reply
  fail rid e = failed (write_error rid e)

  unfoldable pub finished : Text → Deliveries → World → Result (Unit {0}) × State → Reply × Tables
  unfolding fail
  finished rid d w (ok _, s) = (accepted, (d, w, s))
  finished rid d w (err e, s) = (
    fail rid (internal (codes "revocation.failed") (codes "could not apply revocation")),
    (d, w, s),
  )

  unfoldable pub emitted :
      Text → Payload → Text → Deliveries → State → Result (Unit {0}) × World → Reply × Tables
  unfolding finished fail
  emitted rid p uid d s (ok _, w) = finished rid d w (apply_revocation p uid s)
  emitted rid p uid d s (err e, w) = (
    fail rid (internal (codes "audit.emit_failed") (codes "could not emit audit event")),
    (d, w, s),
  )

  unfoldable pub audited : Option Event → World → Result (Unit {0}) × World
  audited none w = (ok tt, w)
  audited (some ev) w = if has_audit then emit ev w else (ok tt, w)

  unfoldable pub uid_or_empty : Result Text × World → Text × World
  uid_or_empty (ok uid, w) = (uid, w)
  uid_or_empty (err e, w) = ([], w)

  -- The platform's user id, empty where there is none or it cannot be resolved.
  unfoldable pub platform_user : Payload → World → Text × World
  unfolding uid_or_empty
  platform_user p w =
      if not (is_nil (logto_user_id decoders p)) && has_identities
      then uid_or_empty (resolve_logto_user (logto_user_id decoders p) w)
      else ([], w)

  unfoldable pub resolved : Text → Payload → Deliveries → State → Text × World → Reply × Tables
  unfolding emitted audited
  resolved rid p d s (uid, w) = emitted rid p uid d s (audited (to_audit_event decoders p uid) w)

  -- A delivery that is seen for the first time.
  unfoldable pub process : Text → Payload → Tables → Reply × Tables
  unfolding resolved
  process rid p (d, w, s) = resolved rid p d s (platform_user p w)

  unfoldable pub recorded :
      Text → Payload → World → State → Result Bool × Deliveries → Reply × Tables
  unfolding fail
  recorded rid p w s (err e, d) = (
    fail rid (internal (codes "webhook.idempotency_failed") (codes "could not record delivery")),
    (d, w, s),
  )
  recorded rid p w s (ok first, d) =
      if not first then (duplicate, (d, w, s)) else process rid p (d, w, s)

  -- A payload, from the record of deliveries on.
  unfoldable pub deliver : Text → Payload → Tables → Reply × Tables
  unfolding recorded
  deliver rid p (d, w, s) =
      if cfg.has_deliveries
      then recorded rid p w s (try_record d (delivery_key p))
      else process rid p (d, w, s)

  unfoldable pub parsed : Text → Result Payload → Tables → Reply × Tables
  unfolding fail
  parsed rid (ok p) t = deliver rid p t
  parsed rid (err e) t =
      (fail rid (bad_request (codes "invalid_payload") (codes "malformed webhook payload")), t)

  -- Why a request is refused before its body is parsed.
  unfoldable pub refused : Headers → Text → Option ApiError
  refused h body =
      if not (is_nil cfg.signing_key)
      then if is_err (verify_signature decoders cfg.signing_key body (get h logto_signature))
        then some
            (unauthorized (codes "webhook.invalid_signature") (codes "invalid webhook signature"))
        else none
      else if not cfg.skip_verify
      then some (
          internal (codes "webhook.not_configured")
            (codes "LOGTO_WEBHOOK_SIGNING_KEY not configured"))
      else none

  unfoldable pub admitted : Text → Text → Option ApiError → Tables → Reply × Tables
  unfolding fail parsed
  admitted rid body (some e) t = (fail rid e, t)
  admitted rid body none t = parsed rid (parse_payload decoders body) t

  -- `ServeHTTP`; `read` is the body up to its first mebibyte, or the error of reading it.
  unfoldable pub serve_webhook : Headers → Result Text → Tables → Reply × Tables
  unfolding fail admitted
  serve_webhook h (err e) t = (
    fail (get h x_request_id)
        (bad_request (codes "invalid_body") (codes "could not read request body")),
    t,
  )
  serve_webhook h (ok body) t = admitted (get h x_request_id) body (refused h body) t
