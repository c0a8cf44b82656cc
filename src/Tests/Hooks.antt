-- ===== src/Tests/Hooks.antt =====
-- Deliveries of the webhook: a deleted user, a second delivery, a forged one.
use ting_boundless.Revocation
use ting_boundless.Http.{HeaderName-discrete, get, set, logto_signature}
use ting_boundless.Redis.Model.{store_redis}
use ting_boundless.Base.{arith, codes, ◌++◌, ◌≡◌, refl, inr, false, true, some, none, []}
use ting_boundless.Base.Results.{ok}
use ting_boundless.Webhook.{
  logto_user_id, audit_type_for_event, to_audit_event, Deliveries, Decoders, Payload,
}
use ting_boundless.Webhook.Handler.{
  then_revoke, revoke_if, revoke_both, apply_revocation, audited, finished, emitted, resolved,
  duplicate, platform_user, process, deliver, serve_webhook, Services,
}
use ting_boundless.Webhook.Handler.{Config}
use ting_boundless.Tests.Fixtures.{empty_store, no_headers, blocklist, texts_compute}
use ting_boundless.Webhook.Laws.{deliver_once, forged_refused, deleted_user_revoked, forged}

abbrev deleted_alice : Payload
deleted_alice = record {
  hook_id = codes "h";
  event = codes "User.Deleted";
  created_at = codes "2026";
  user_id = codes "alice";
  user_ip = [];
  ip = [];
  user = [];
  raw_data = [];
}

abbrev decoders : Decoders
decoders = record {
  payload = λ raw. ok deleted_alice;
  id_inside = λ raw. ok [];
  hex = λ t. ok t;
  sha256_hex = λ t. t;
  hmac = λ k t. k ++ t;
  time = λ t. none;
}

abbrev services : Services
services = record {
  World = Unit {0};
  has_identities = true;
  resolve_logto_user = λ u w. (ok (codes "7"), w);
  has_audit = true;
  emit = λ e w. (ok tt, w);
}

abbrev hook : Config
hook = record {
  signing_key = codes "key";
  skip_verify = false;
  has_deliveries = true;
  revocations = some blocklist;
}

abbrev no_deliveries : Deliveries
no_deliveries = record { answers = true; recorded = [] }

hooks_compute : Unit {0}
unfolding texts_compute set get HeaderName-discrete process platform_user resolved emitted finished
    audited apply_revocation revoke_both revoke_if then_revoke to_audit_event audit_type_for_event
    logto_user_id Revocation.revoke_subject Revocation.put
hooks_compute = tt

forged_refused_example :
    serve_webhook decoders services store_redis hook
      (set no_headers logto_signature (codes "x"))
      (ok (codes "body"))
      (no_deliveries, tt, empty_store)
    ≡ (
      forged decoders services store_redis hook (set no_headers logto_signature (codes "x")),
      (no_deliveries, tt, empty_store),
    )
unfolding hooks_compute
forged_refused_example =
    forged_refused decoders services store_redis hook (set no_headers logto_signature (codes "x"))
      (codes "body") (no_deliveries, tt, empty_store) (λ h. cc) (λ h. absurd (ground (arith, h.1)))

deliver_once_example :
    let t =
      (deliver decoders services store_redis hook
        (codes "r1")
        deleted_alice
        (no_deliveries, tt, empty_store)).1 in
    deliver decoders services store_redis hook (codes "r2") deleted_alice t ≡ (duplicate, t)
deliver_once_example =
    deliver_once decoders services store_redis hook (codes "r1") (codes "r2") deleted_alice
      deleted_alice no_deliveries tt empty_store refl refl refl

deleted_user_revoked_example :
    Revocation.is_subject_revoked store_redis blocklist
      (codes "7")
      (process decoders services store_redis hook
        (codes "r1")
        deleted_alice
        (no_deliveries, tt, empty_store)).1.2
    ≡ ok true
unfolding hooks_compute
deleted_user_revoked_example =
    deleted_user_revoked decoders services store_redis hook blocklist (codes "r1") deleted_alice
      no_deliveries tt empty_store (codes "7") refl refl refl (λ h. cc) (inr refl) refl refl
