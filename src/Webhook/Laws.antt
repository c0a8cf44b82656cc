-- ===== src/Webhook/Laws.antt =====
-- Who may deliver, and what a delivery does.
use ting_boundless.Revocation
use ting_boundless.Http.{logto_signature, x_request_id, write_error, Headers, get, unauthorized}
use ting_boundless.Base.{
  subst, ◌⊎◌, some, sym, ap, ap₂, Bool, ◌∙◌, refl, text_eq_refl, codes, text_eq, Bool-cases, any,
  text_eq_iff, arith, Text, ◌↔◌, ◌≢◌, ◌≡◌, inr, inl, false, true, [],
}
use ting_boundless.Base.Results.{Result, err, Result-cases, ok}
use ting_boundless.Webhook.{
  to_audit_event, logto_user_id, delivery_key, Payload, Deliveries, try_record, Decoders,
  verify_signature,
}
use ting_boundless.Webhook.Handler.{
  audited, accepted, revoke_both, apply_revocation, then_revoke, revoke_if, platform_user,
  duplicate, finished, Tables, process, emitted, fail, deliver, recorded, resolved, admitted,
  failed, refused, Reply, serve_webhook, Config, Services,
}
use ting_boundless.Redis.{Redis}
use ting_boundless.Revocation.Laws.{is_subject_revoked-IsHeld, revoke_subject-IsHeld, IsHeld}

-- A signature is accepted exactly if there is a key, and the header is the hexadecimal HMAC of the
-- body under it.
pub verify_signature_iff :
    (decoders : Decoders) (key body header : Text)
    → (verify_signature decoders key body header ≡ ok tt)
      ↔ ((key ≢ []) × (header ≢ []) × (decoders.hex header ≡ ok (decoders.hmac key body)))
unfolding verify_signature
verify_signature_iff decoders key body header = elim (Result-cases (decoders.hex header)) [
  | inl (got, e) ↦ rw e (ground (arith, text_eq_iff (decoders.hmac key body) got))
  | inr (e, q) ↦ rw q (ground arith)
]

module _ (decoders : Decoders) (services : Services) (redis : Redis) (cfg : Config) where
  open services use {World}
  open redis use {State, reachable}

  abbrev pub forged : Headers → Reply
  forged h = failed (
      write_error (get h x_request_id)
        (unauthorized (codes "webhook.invalid_signature") (codes "invalid webhook signature")))

  -- Where a signing key is configured, a request without the right signature is answered 401, and
  -- nothing is recorded, resolved, emitted or revoked.
  pub forged_refused :
      (h : Headers) (body : Text) (t : Tables decoders services redis cfg)
      → cfg.signing_key ≢ []
      → ¬ (
          (get h logto_signature ≢ [])
          × (decoders.hex (get h logto_signature) ≡ ok (decoders.hmac cfg.signing_key body)))
      → serve_webhook decoders services redis cfg h (ok body) t ≡ (forged h, t)
  unfolding serve_webhook refused admitted fail
  forged_refused h body t n bad =
      let v = verify_signature decoders cfg.signing_key body (get h logto_signature) in
      elim (Result-cases v) [
        | inl (tt, e) ↦
            let (key, header, right) =
              (verify_signature_iff decoders cfg.signing_key body (get h logto_signature)).0 e in
            absurd (bad (header, right))
        | inr (e, q) ↦ ground (arith, q)
      ]

  deliveries-resolved :
      (rid : Text) (p : Payload) (d : Deliveries) (s : State) (u : Text × World)
      → (resolved decoders services redis cfg rid p d s u).1.0 ≡ d
  unfolding resolved emitted finished
  deliveries-resolved rid p d s u = ground arith

  -- The answer to a key that is there already.
  try_record_again :
      (d : Deliveries) (key : Text)
      → d.answers ≡ true
      → try_record (try_record d key).1 key ≡ (ok false, (try_record d key).1)
  unfolding try_record any
  try_record_again d key a = elim (Bool-cases (any (λ k. text_eq k key) d.recorded)) [
    | inl e ↦ ground (arith, a, e)
    | inr e ↦ ground (arith, a, e, text_eq_refl key)
  ]

  record_step :
      (rid : Text) (p : Payload) (w : World) (s : State) (got : Result Bool × Deliveries)
      → (recorded decoders services redis cfg rid p w s got).1.0 ≡ got.1
  unfolding recorded process
  record_step rid p w s (err e, d) = refl
  record_step rid p w s (ok true, d) =
      deliveries-resolved rid p d s (platform_user decoders services redis cfg p w)
  record_step rid p w s (ok false, d) = refl

  deliveries-deliver :
      (rid : Text) (p : Payload) (d : Deliveries) (w : World) (s : State)
      → cfg.has_deliveries ≡ true
      → (deliver decoders services redis cfg rid p (d, w, s)).1.0
        ≡ (try_record d (delivery_key p)).1
  unfolding deliver
  deliveries-deliver rid p d w s h =
      ground (arith, h, record_step rid p w s (try_record d (delivery_key p)))

  deliver_recorded :
      (rid : Text) (p : Payload) (d d' : Deliveries) (w : World) (s : State)
      → cfg.has_deliveries ≡ true
      → try_record d (delivery_key p) ≡ (ok false, d')
      → deliver decoders services redis cfg rid p (d, w, s) ≡ (duplicate, (d', w, s))
  unfolding deliver recorded
  deliver_recorded rid p d d' w s h e = ground (arith, h, e)

  -- Where deliveries are recorded and the database answers, only the first delivery of a key is
  -- processed: a second one is answered as a duplicate and changes nothing, whatever became of the
  -- first, a failure after the record included.
  pub deliver_once :
      (rid rid' : Text) (p q : Payload) (d : Deliveries) (w : World) (s : State)
      → cfg.has_deliveries ≡ true
      → d.answers ≡ true
      → delivery_key q ≡ delivery_key p
      → let t = (deliver decoders services redis cfg rid p (d, w, s)).1 in
        deliver decoders services redis cfg rid' q t ≡ (duplicate, t)
  deliver_once rid rid' p q d w s h a same =
      let (d1, w1, s1) = (deliver decoders services redis cfg rid p (d, w, s)).1 in
      let left = deliveries-deliver rid p d w s h in
      deliver_recorded rid' q d1 d1 w1 s1 h (
        ap₂ try_record left same
        ∙ try_record_again d (delivery_key p) a
        ∙ ap (λ u. (ok false, u)) (sym left))

  module _ (store : Revocation.Store) (connected : store.connected ≡ true) where
    revoke_if_marks :
        (a b : Text) (s : State)
        → (revoke_if decoders services redis cfg store a s).0 ≡ ok tt
        → ((a ≡ b) × (b ≢ [])) ⊎ IsHeld redis store connected b s
        → IsHeld redis store connected b (revoke_if decoders services redis cfg store a s).1
    unfolding revoke_if
    revoke_if_marks a b s e h = ground (arith, h, revoke_subject-IsHeld redis store connected a b s)

    then_revoke_marks :
        (a b : Text) (before : Result (Unit {0}) × State)
        → (then_revoke decoders services redis cfg store a before).0 ≡ ok tt
        → ((before.0 ≡ ok tt) → ((a ≡ b) × (b ≢ [])) ⊎ IsHeld redis store connected b before.1)
        → IsHeld redis store connected b (then_revoke decoders services redis cfg store a before).1
    unfolding then_revoke
    then_revoke_marks a b (ok tt, s) e h = revoke_if_marks a b s e (h refl)
    then_revoke_marks a b (err x, s) e h = absurd (ground arith)

    apply_revocation_marks :
        (p : Payload) (uid b : Text) (s : State)
        → cfg.revocations ≡ some store
        → p.event ≡ codes "User.Deleted"
        → b ≢ []
        → (b ≡ logto_user_id decoders p) ⊎ (b ≡ uid)
        → (apply_revocation decoders services redis cfg p uid s).0 ≡ ok tt
        → IsHeld redis store connected b (apply_revocation decoders services redis cfg p uid s).1
    unfolding apply_revocation revoke_both
    apply_revocation_marks p uid b s e v n m done =
        let first = revoke_if decoders services redis cfg store (logto_user_id decoders p) s in
        ground (
          arith,
          e,
          connected,
          v,
          text_eq_refl (codes "User.Deleted"),
          then_revoke_marks uid b first,
          revoke_if_marks (logto_user_id decoders p) b s,
        )

  emitted_accepted :
      (rid : Text) (p : Payload) (uid : Text) (d : Deliveries) (s : State)
      (sent : Result (Unit {0}) × World)
      → (emitted decoders services redis cfg rid p uid d s sent).0 ≡ accepted
      → ((apply_revocation decoders services redis cfg p uid s).0 ≡ ok tt)
        × ((emitted decoders services redis cfg rid p uid d s sent).1.2
            ≡ (apply_revocation decoders services redis cfg p uid s).1)
  unfolding emitted finished fail
  emitted_accepted rid p uid d s (ok tt, w) h = ground arith
  emitted_accepted rid p uid d s (err e, w) h = absurd (ground arith)

  process_accepted :
      (rid : Text) (p : Payload) (d : Deliveries) (w : World) (s : State)
      → (process decoders services redis cfg rid p (d, w, s)).0 ≡ accepted
      → let uid = (platform_user decoders services redis cfg p w).0 in
        ((apply_revocation decoders services redis cfg p uid s).0 ≡ ok tt)
        × ((process decoders services redis cfg rid p (d, w, s)).1.2
            ≡ (apply_revocation decoders services redis cfg p uid s).1)
  unfolding process resolved
  process_accepted rid p d w s h =
      let (uid, w') = platform_user decoders services redis cfg p w in
      emitted_accepted rid p uid d s
        (audited decoders services redis cfg (to_audit_event decoders p uid) w') h

  -- Once the webhook of a deleted user is processed and answered with `accepted`, that user's subject
  -- at the provider and the platform's user id are both revoked, each unless it is empty, given that
  -- the blocklist is connected and the server answers.
  pub deleted_user_revoked :
      (store : Revocation.Store) (rid : Text) (p : Payload) (d : Deliveries) (w : World) (s : State)
      (b : Text)
      → store.connected ≡ true
      → cfg.revocations ≡ some store
      → p.event ≡ codes "User.Deleted"
      → b ≢ []
      → (b ≡ logto_user_id decoders p) ⊎ (b ≡ (platform_user decoders services redis cfg p w).0)
      → (process decoders services redis cfg rid p (d, w, s)).0 ≡ accepted
      → reachable (process decoders services redis cfg rid p (d, w, s)).1.2 ≡ true
      → Revocation.is_subject_revoked redis store b
          (process decoders services redis cfg rid p (d, w, s)).1.2
        ≡ ok true
  deleted_user_revoked store rid p d w s b c e v n m h r =
      let uid = (platform_user decoders services redis cfg p w).0 in
      let (done, left) = process_accepted rid p d w s h in
      subst (λ u. Revocation.is_subject_revoked redis store b u ≡ ok true) (sym left)
        (is_subject_revoked-IsHeld redis store c b
          (apply_revocation decoders services redis cfg p uid s).1 (ap reachable (sym left) ∙ r)
          (apply_revocation_marks store c p uid b s e v n m done))
