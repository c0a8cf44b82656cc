-- ===== src/Webhook.antt =====
-- The webhook of the identity provider: go/services/auth-service/internal/logto (handler.go,
-- payload.go, verify.go) and go/services/auth-service/internal/store/deliveries.go. A body is the
-- list of its bytes.
pub mod Handler
pub mod Laws
use ting_boundless.Base.{
  any, text_eq, ℕ, List, codes, not, is_nil, Option, Bool, Text, ◌||◌, ◌++◌, ◌∷◌, if◌then◌else◌,
  false, true, some, none, [],
}
use ting_boundless.Base.Results.{◌>>=◌, failure, Result, err, ok}

-- `Payload`; the fields of raw JSON are texts, empty where they are absent.
pub record Payload : Type 0 where
  pub hook_id : Text
  pub event : Text
  pub created_at : Text
  pub user_id : Text
  pub user_ip : Text
  pub ip : Text
  pub user : Text
  pub raw_data : Text

-- `audit.Event` as `ToAuditEvent` fills it; the source is always the identity provider, and a time
-- that does not parse leaves that of the creation.
pub record Event : Type 0 where
  pub id : Text
  pub type : Text
  pub subject : Text
  pub actor_user_id : Text
  pub hook_id : Text
  pub event : Text
  pub created_at : Text
  pub user_id : Text
  pub client_ip : Option Text
  pub user : Option Text
  pub time : Option ℕ

-- What the code calls of Go's library: JSON decoding, of the envelope and of the `id` inside an
-- object, hexadecimal decoding, SHA-256 in hexadecimal, HMAC-SHA256 and RFC 3339 times.
pub record Decoders : Type 0 where
  pub payload : Text → Result Payload
  pub id_inside : Text → Result Text
  pub hex : Text → Result Text
  pub sha256_hex : Text → Text
  pub hmac : Text → Text → Text
  pub time : Text → Option ℕ

module _ (decoders : Decoders) where
  unfoldable pub matches : Text → Text → Result Text → Result (Unit {0})
  matches key body (err e) = err (failure (codes "invalid signature encoding"))
  matches key body (ok got) =
      if not (text_eq (decoders.hmac key body) got)
      then err (failure (codes "signature mismatch"))
      else ok tt

  -- `VerifySignature`.
  unfoldable pub verify_signature : Text → Text → Text → Result (Unit {0})
  unfolding matches
  verify_signature key body header =
      if is_nil key
      then err (failure (codes "signing key not configured"))
      else if is_nil header
      then err (failure (codes "missing Logto-Signature-Sha-256 header"))
      else matches key body (decoders.hex header)

  -- `ParsePayload`.
  unfoldable pub parse_payload : Text → Result Payload
  parse_payload raw = do
    p ← decoders.payload raw
    if is_nil p.hook_id || is_nil p.event || is_nil p.created_at
        then err (failure (codes "hookId, event, and createdAt are required"))
        else ok p

  id_or_empty : Result Text → Text
  id_or_empty (ok id) = id
  id_or_empty (err e) = []

  inside : Text → Text
  unfolding id_or_empty
  inside raw = if is_nil raw then [] else id_or_empty (decoders.id_inside raw)

  -- `logtoUserID`.
  unfoldable pub logto_user_id : Payload → Text
  unfolding inside
  logto_user_id p =
      if not (is_nil p.user_id)
      then p.user_id
      else if not (is_nil (inside p.user))
      then inside p.user
      else inside p.raw_data

  -- `logtoSubject`.
  unfoldable pub logto_subject : Payload → Text
  logto_subject p =
      if not (is_nil (logto_user_id p))
      then codes "user:" ++ logto_user_id p
      else codes "logto:" ++ p.event

-- `DeliveryKey`.
unfoldable pub delivery_key : Payload → Text
delivery_key p = p.hook_id ++ (codes ":" ++ (p.created_at ++ (codes ":" ++ p.event)))

-- `clientIP`.
unfoldable pub client_ip : Payload → Text
client_ip p = if not (is_nil p.user_ip) then p.user_ip else p.ip

unfoldable pub non_empty : Text → Option Text
non_empty t = if is_nil t then none else some t

-- `auditTypeForEvent`.
unfoldable pub audit_type_for_event : Text → Option Text
audit_type_for_event event =
    if text_eq event (codes "PostSignIn")
    then some (codes "user.login.success")
    else if text_eq event (codes "PostRegister")
    then some (codes "user.register.success")
    else if text_eq event (codes "PostResetPassword")
    then some (codes "user.password.reset")
    else if text_eq event (codes "Identifier.Lockout")
    then some (codes "user.login.failed")
    else if text_eq event (codes "User.Created")
    then some (codes "user.created")
    else if text_eq event (codes "User.Deleted")
    then some (codes "user.deleted")
    else none

module _ (decoders : Decoders) where
  event_of : Payload → Text → Option Text → Option Event
  event_of p platform_user_id none = none
  event_of p platform_user_id (some type) = some (record {
    id = codes "logto-" ++ decoders.sha256_hex (delivery_key p);
    type = type;
    subject = logto_subject decoders p;
    actor_user_id = platform_user_id;
    hook_id = p.hook_id;
    event = p.event;
    created_at = p.created_at;
    user_id = logto_user_id decoders p;
    client_ip = non_empty (client_ip p);
    user = non_empty p.user;
    time = decoders.time p.created_at;
  })

  -- `ToAuditEvent`.
  unfoldable pub to_audit_event : Payload → Text → Option Event
  unfolding event_of
  to_audit_event p platform_user_id = event_of p platform_user_id (audit_type_for_event p.event)

-- The table `webhook_deliveries`, whose key is unique; `answers` says whether the database carries
-- out the next statement; a store without a pool is one that does not answer.
pub record Deliveries : Type 0 where
  pub answers : Bool
  pub recorded : List Text

-- `TryRecord`: INSERT … ON CONFLICT DO NOTHING, and whether a row was inserted.
unfoldable pub try_record : Deliveries → Text → Result Bool × Deliveries
try_record d key =
    if not d.answers
    then (err (failure (codes "database error")), d)
    else if any (λ k. text_eq k key) d.recorded
    then (ok false, d)
    else (ok true, record d { recorded = key ∷ d.recorded })
