-- ===== src/Gateway/Authenticate/Denial.antt =====
-- Whom the Gateway turns away: bad tokens, callers without credentials, revoked subjects.
use ting_boundless.Jwt
use ting_boundless.Session
use ting_boundless.Revocation
use ting_boundless.Http.{get}
use ting_boundless.Base.{
  sym, ap, text_eq_refl, is_nil, not, has_prefix-append, Bool-cases, trim_space, codes, has_prefix,
  arith, ℕ, Text, Option, ◌∙◌, ◌&&◌, ◌++◌, ◌≢◌, ◌≡◌, refl, inr, inl, false, true, some, none, [],
}
use ting_boundless.Base.Results.{failure, Err, Result, err, ok}
use ting_boundless.Gateway.Authenticate.{
  is_session_revoked, requires_revocation_check, Caller, is_subject_revoked, emit_entry, deny,
  allows, authenticate, bearer, authorization, verify, unauthorized, decided, identity_from_cookie,
  Verifier, checked, is_revoked, write_error, session_found, identity_from_request, bearer_verified,
  Request, with_bearer, decide, check_revocation, ErrorReply, Identity, Codec, Edge, has_identity,
  known, map_platform_user_id,
}
use ting_boundless.Redis.{Redis}
use ting_boundless.Jwt.{roles, Library}
use ting_boundless.Gateway.Authenticate.Safety.{authenticate_branches, rules, stamped}
use ting_boundless.Httpx.Trust.{trim_prefix-append}
use ting_boundless.Revocation.{revoke_subject}
use ting_boundless.Revocation.Laws.{revoke_subject_exact}

subject-map :
    (resolver : Option (Text → Text → Result Text)) (id : Identity) (rid : Text)
    → (map_platform_user_id resolver id rid).subject ≡ id.subject
unfolding map_platform_user_id
subject-map none id rid = refl
subject-map (some resolve) id rid = ground arith

-- A caller with a subject is authenticated, and keeps the subject.
known_lem :
    (g : Edge) (rid : Text) (id : Identity) (sid : Text)
    → id.subject ≢ []
    → ((known g rid id sid).authenticated ≡ true)
      × ((known g rid id sid).identity.subject ≡ id.subject)
unfolding known has_identity
known_lem g rid id sid n =
    let e = subject-map g.resolver (record id { request_id = rid }) rid in (rw e (ground arith), e)

module _ (redis : Redis) (g : Edge) (rid : Text) where
  open redis use {State}

  abbrev pub revoked_reply : ErrorReply
  revoked_reply =
      write_error rid (unauthorized (codes "auth.revoked") (codes "credentials have been revoked"))

  check-revoked :
      (store : Revocation.Store) (id : Identity) (sid : Text) (s : State)
      → g.revocations ≡ some store
      → store.connected ≡ true
      → id.subject ≢ []
      → is_subject_revoked redis store id.subject s ≡ ok true
      → (reason : Text) × (check_revocation redis g.revocations id sid s ≡ some reason)
  unfolding check_revocation is_revoked
  check-revoked store id sid s e c n h =
      elim (Bool-cases (not (is_nil sid) && is_revoked (is_session_revoked redis store sid s))) [
        | inl b ↦ (codes "auth.session_revoked", ground (arith, e, b))
        | inr b ↦ (codes "auth.subject_revoked", ground (arith, e, b))
      ]

  decide-revoked :
      (store : Revocation.Store) (r : Request) (c : Caller) (s : State)
      → g.revocations ≡ some store
      → store.connected ≡ true
      → c.authenticated ≡ true
      → c.identity.subject ≢ []
      → requires_revocation_check g.sensitive r.path ≡ true
      → is_subject_revoked redis store c.identity.subject s ≡ ok true
      → (decide redis g rid r c s).0 ≡ deny revoked_reply
  unfolding decide checked
  decide-revoked store r c s e k a n p h =
      let (reason, denied) = check-revoked store c.identity c.session_id s e k n h in
      ground (arith, denied)

module _ (library : Library) (redis : Redis) (codec : Codec) (g : Edge) (now : ℕ) where
  open redis use {State, reachable}

  with_bearer-decide :
      (rid raw : Text) (r : Request) (s : State) (v : Verifier)
      → g.verifier ≡ some v
      → Jwt.enabled v ≡ true
      → with_bearer library redis codec g now rid raw r s
        ≡ bearer_verified library redis codec g rid r s (verify library v now raw)
  unfolding with_bearer
  with_bearer-decide rid raw r s v e n = ground (arith, e, n)

  -- A bearer token on an enabled verifier: what follows "Bearer " is verified, and that decides.
  authenticate-bearer :
      (rid raw : Text) (r : Request) (s : State) (v : Verifier)
      → g.verifier ≡ some v
      → Jwt.enabled v ≡ true
      → get r.headers authorization ≡ bearer ++ raw
      → authenticate library redis codec g now rid r s
        ≡ bearer_verified library redis codec g rid
            (stamped rid r)
            s
            (verify library v now (trim_space raw))
  authenticate-bearer rid raw r s v e n a =
      authenticate_branches library redis codec g now rid r s
      ∙ (rw (a, has_prefix-append bearer raw, trim_prefix-append bearer raw)
          (with_bearer-decide rid (trim_space raw) (stamped rid r) s v e n))

  -- A bearer token that an enabled verifier refuses is answered 401 on every path, anonymous or not,
  -- with an audit event where there is an emitter, and Redis is left alone.
  pub bad_token_denied :
      (rid raw : Text) (r : Request) (s : State) (v : Verifier) (e : Err)
      → g.verifier ≡ some v
      → Jwt.enabled v ≡ true
      → get r.headers authorization ≡ bearer ++ raw
      → verify library v now (trim_space raw) ≡ err e
      → authenticate library redis codec g now rid r s ≡ (
        deny (
            write_error rid
              (unauthorized (codes "invalid_token") (codes "invalid or expired token"))),
        emit_entry g rid (codes "api.token.invalid") (codes "invalid_token"),
        s,
      )
  unfolding bearer_verified
  bad_token_denied rid raw r s v e hv n a bad =
      authenticate-bearer rid raw r s v hv n a ∙ (rw bad refl)

  cookie_missing :
      (r : Request) (sessions : Option Session.Store) (verifier : Option Verifier) (s : State)
      → ((name : Text) → r.cookie name ≡ none)
      → (e : Err) × (identity_from_request library redis codec r sessions verifier now s
          ≡ (err e, s))
  unfolding identity_from_request identity_from_cookie
  cookie_missing r none v s h = (failure (codes "session auth unavailable"), refl)
  cookie_missing r (some store) none s h = (failure (codes "session auth unavailable"), refl)
  cookie_missing r (some store) (some v) s h = elim (Bool-cases store.connected) [
    | inl c ↦
        (failure (codes "no session cookie"), rw (c, h store.cookie_name, identity_from_cookie))
    | inr c ↦ (failure (codes "session auth unavailable"), rw c)
  ]

  -- A request with no bearer token and no cookie, for a path that the anonymous rules do not allow,
  -- is answered 401, with an audit event where there is an emitter, and Redis is left alone.
  pub no_credentials_denied :
      (rid : Text) (r : Request) (s : State)
      → has_prefix (get r.headers authorization) bearer ≡ false
      → ((name : Text) → r.cookie name ≡ none)
      → allows (rules g) r.path ≡ false
      → authenticate library redis codec g now rid r s ≡ (
        deny (
            write_error rid
              (unauthorized (codes "auth.unauthenticated") (codes "authentication required"))),
        emit_entry g rid (codes "api.access.denied") (codes "auth.unauthenticated"),
        s,
      )
  unfolding session_found decided decide
  no_credentials_denied rid r s p h a =
      let (e, missing) = cookie_missing (stamped rid r) g.sessions g.verifier s h in
      authenticate_branches library redis codec g now rid r s ∙ ground (arith, missing, p, a)

  -- Once a subject was revoked without error, a token that the verifier accepts for that subject no
  -- longer opens a path under the revocation check, on a Redis that answers: the reply is 401. The
  -- blocklist is connected and the one that the edge asks, the verifier is enabled, and the subject
  -- is not empty.
  pub revoked_subject_locked_out :
      (store : Revocation.Store) (v : Verifier) (rid raw : Text) (r : Request) (s : State)
      (id : Identity)
      → g.revocations ≡ some store
      → store.connected ≡ true
      → (revoke_subject redis store id.subject s).0 ≡ ok tt
      → reachable s ≡ true
      → reachable (revoke_subject redis store id.subject s).1 ≡ true
      → g.verifier ≡ some v
      → Jwt.enabled v ≡ true
      → get r.headers authorization ≡ bearer ++ raw
      → verify library v now (trim_space raw) ≡ ok id
      → id.subject ≢ []
      → requires_revocation_check g.sensitive r.path ≡ true
      → (authenticate library redis codec g now rid r (revoke_subject redis store id.subject s).1).0
        ≡ deny (revoked_reply redis g rid)
  unfolding bearer_verified decided
  revoked_subject_locked_out store v rid raw r s id gs c done up up' gv n a ver ns p =
      let s' = (revoke_subject redis store id.subject s).1 in
      let caller = known g rid id [] in
      let (auth, subject) = known_lem g rid id [] ns in
      let revoked : is_subject_revoked redis store id.subject s' ≡ ok true =
        (revoke_subject_exact redis store c id.subject id.subject [] s done up up').0
        ∙ (rw (text_eq_refl id.subject) refl) in
      ap (λ o. o.0) (authenticate-bearer rid raw r s' v gv n a)
      ∙ (rw ver (
          decide-revoked redis g rid store (stamped rid r) caller s' gs c auth
            (λ e. ns (sym subject ∙ e)) p (rw subject revoked)))
