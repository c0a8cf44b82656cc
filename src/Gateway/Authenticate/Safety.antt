-- ===== src/Gateway/Authenticate/Safety.antt =====
-- What a request that the Gateway forwards carries, and why it was let through.
use ting_boundless.Session
use ting_boundless.Http.{get, set}
use ting_boundless.Base.{
  Bool-cases, sym, ◌&&◌, trim_prefix, has_prefix, subst, ap, Option-cases, arith, trim_space,
  Option, ℕ, Text, ◌∙◌, ◌++◌, ◌⊎◌, ◌≡◌, if◌then◌else◌, refl, inr, inl, true, some, none, [],
}
use ting_boundless.Base.Results.{Result, err, ok}
use ting_boundless.Identity.{Identity}
use ting_boundless.Gateway.Authenticate.{
  verifier_enabled, authenticate, session_found, anonymous, check_revocation, known, allows,
  verified_session, unconfigured, decided, verify, bearer, forward, identity_from_request,
  identity_from_cookie, loaded_session, with_bearer, bearer_verified, Verifier, Caller,
  default_anon_prefixes, x_request_id, checked, authorization, is_empty, inject, strip_untrusted,
  Codec, decide, AnonPrefixes, Request, Edge,
}
use ting_boundless.Redis.{Redis}
use ting_boundless.Jwt.{Library}
use ting_boundless.Http.Laws.{get-set_ne}
use ting_boundless.Identity.Laws.{get-strip_untrusted_foreign}
use ting_boundless.Httpx.Trust.{append-trim_prefix}

-- The request as the middleware sees it: identity headers stripped, its own request id set.
abbrev pub stamped : Text → Request → Request
stamped rid r = record r { headers = set (strip_untrusted r.headers) x_request_id rid }

abbrev pub injected : Identity → Request → Request
injected id r = record r { headers = inject id r.headers }

-- The anonymous rules in force.
abbrev pub rules : Edge → AnonPrefixes
rules g = if is_empty g.anon then default_anon_prefixes else g.anon

authorization_stamped :
    (rid : Text) (r : Request)
    → get (stamped rid r).headers authorization ≡ get r.headers authorization
authorization_stamped rid r =
    get-set_ne (strip_untrusted r.headers) x_request_id authorization rid (cc)
    ∙ get-strip_untrusted_foreign r.headers authorization (cc, cc, cc, cc, cc, cc)

module _ (redis : Redis) (g : Edge) (rid : Text) where
  open redis use {State}

  -- A caller that is forwarded is authenticated or on an anonymous path, and the request carries its
  -- identity.
  pub decide-eq-forward :
      (r : Request) (c : Caller) (s : State) (r' : Request)
      → (decide redis g rid r c s).0 ≡ forward r'
      → (injected c.identity r ≡ r') × ((c.authenticated ≡ true) ⊎ (allows (rules g) r.path ≡ true))
  unfolding decide checked
  decide-eq-forward r c s r' h =
      elim (Option-cases (check_revocation redis g.revocations c.identity c.session_id s)) [
        | inl e ↦ ground (arith, e)
        | inr (reason, e) ↦ ground (arith, e)
      ]

module _ (library : Library) (redis : Redis) (codec : Codec) (g : Edge) (now : ℕ) where
  open redis use {State}

  -- The request bears a token that the verifier accepts for the identity.
  abbrev pub HasToken : Request → Identity → Type 0
  HasToken r id =
      (v : Verifier) × (raw : Text) × (g.verifier ≡ some v)
      × (get r.headers authorization ≡ bearer ++ raw)
      × (verify library v now (trim_space raw) ≡ ok id)

  -- The request's cookie names a session that the store serves, and the verifier accepts the access
  -- token stored in it for the identity.
  abbrev pub HasSession : Request → State → Identity → Text → Type 0
  HasSession r s id sid =
      (v : Verifier) × (store : Session.Store) × (d : Session.Data) × (g.verifier ≡ some v)
      × (g.sessions ≡ some store)
      × (r.cookie store.cookie_name ≡ some sid)
      × ((Session.get redis codec store now sid s).0 ≡ ok d)
      × (verify library v now d.access_token ≡ ok id)

  bearer_verified-eq-forward :
      (rid : Text) (r : Request) (s : State) (verified : Result Identity) (r' : Request)
      → (bearer_verified library redis codec g rid r s verified).0 ≡ forward r'
      → (id : Identity) × (verified ≡ ok id)
        × ((decide redis g rid r (known g rid id []) s).0 ≡ forward r')
  unfolding bearer_verified decided
  bearer_verified-eq-forward rid r s (ok id) r' h = (id, refl, h)
  bearer_verified-eq-forward rid r s (err e) r' h = cc

  with_bearer-eq-forward :
      (rid raw : Text) (r : Request) (s : State) (r' : Request)
      → (with_bearer library redis codec g now rid raw r s).0 ≡ forward r'
      → (v : Verifier) × (id : Identity) × (g.verifier ≡ some v)
        × (verify library v now raw ≡ ok id)
        × ((decide redis g rid r (known g rid id []) s).0 ≡ forward r')
  unfolding with_bearer unconfigured
  with_bearer-eq-forward rid raw r s r' h = elim (Option-cases g.verifier) [
    | inl e ↦ absurd (ground (arith, e))
    | inr (v, e) ↦
        let (id, ok_id, d) =
          bearer_verified-eq-forward rid r s (verify library v now raw) r' (ground (arith, e)) in
        (v, id, e, ok_id, d)
  ]

  loaded-eq-ok :
      (v : Verifier) (store : Session.Store) (sid : Text) (got : Result Session.Data × State)
      (id : Identity) (sid' : Text)
      → (loaded_session library redis codec v store now sid got).0 ≡ ok (id, sid')
      → (d : Session.Data) × (got.0 ≡ ok d)
        × (verify library v now d.access_token ≡ ok id)
        × (sid ≡ sid')
  unfolding loaded_session verified_session
  loaded-eq-ok v store sid (ok d, s) id sid' h = (d, refl, ground arith, ground arith)
  loaded-eq-ok v store sid (err e, s) id sid' h = cc

  cookie-eq-ok :
      (v : Verifier) (store : Session.Store) (cookie : Option Text) (s : State) (id : Identity)
      (sid : Text)
      → (identity_from_cookie library redis codec v store now cookie s).0 ≡ ok (id, sid)
      → (cookie ≡ some sid)
        × ((d : Session.Data) × ((Session.get redis codec store now sid s).0 ≡ ok d)
            × (verify library v now d.access_token ≡ ok id))
  unfolding identity_from_cookie
  cookie-eq-ok v store none s id sid h = cc
  cookie-eq-ok v store (some k) s id sid h =
      let (d, got, ver, same) =
        loaded-eq-ok v store k (Session.get redis codec store now k s) id sid (ground arith) in
      (
        ap some same,
        (d, subst (λ t. (Session.get redis codec store now t s).0 ≡ ok d) same got, ver),
      )

  pub from_request-eq-ok :
      (r : Request) (sessions : Option Session.Store) (verifier : Option Verifier) (s : State)
      (id : Identity) (sid : Text)
      → (identity_from_request library redis codec r sessions verifier now s).0 ≡ ok (id, sid)
      → (v : Verifier) × (store : Session.Store) × (d : Session.Data) × (verifier ≡ some v)
        × (sessions ≡ some store)
        × (r.cookie store.cookie_name ≡ some sid)
        × ((Session.get redis codec store now sid s).0 ≡ ok d)
        × (verify library v now d.access_token ≡ ok id)
  unfolding identity_from_request
  from_request-eq-ok r (some store) (some v) s id sid h =
      let (c, (d, got, ver)) =
        cookie-eq-ok v store (r.cookie store.cookie_name) s id sid (ground arith) in
      (v, store, d, refl, refl, c, got, ver)
  from_request-eq-ok r none verifier s id sid h = cc
  from_request-eq-ok r (some store) none s id sid h = cc

  -- How the middleware came to its view of the caller.
  abbrev pub IsCaller : Text → Request → State → Caller → Type 0
  IsCaller rid r s c =
      (c ≡ anonymous rid)
      ⊎ ((id : Identity) × HasToken r id × (c ≡ known g rid id []))
      ⊎ ((id : Identity) × (sid : Text) × HasSession r s id sid × (c ≡ known g rid id sid))

  session_found-eq-forward :
      (rid : Text) (r : Request) (got : Result (Identity × Text) × State) (r' : Request)
      → (session_found library redis codec g rid r got).0 ≡ forward r'
      → (c : Caller) × (s' : State) × ((c ≡ anonymous rid)
          ⊎ ((id : Identity) × (sid : Text) × (got.0 ≡ ok (id, sid)) × (c ≡ known g rid id sid)))
        × ((decide redis g rid r c s').0 ≡ forward r')
  unfolding session_found decided
  session_found-eq-forward rid r (ok (id, sid), s) r' h =
      (known g rid id sid, s, inr (id, sid, refl, refl), h)
  session_found-eq-forward rid r (err e, s) r' h = (anonymous rid, s, inl refl, h)

  -- What `authenticate` decides on, where it forwards.
  Decided : Text → Request → State → Request → Type 0
  Decided rid r s r' =
      (c : Caller) × (s' : State) × IsCaller rid r s c
      × ((decide redis g rid (stamped rid r) c s').0 ≡ forward r')

  token-Decided :
      (rid : Text) (r : Request) (s : State) (r' : Request)
      → has_prefix (get r.headers authorization) bearer ≡ true
      → (with_bearer library redis codec g now rid
          (trim_space (trim_prefix (get r.headers authorization) bearer))
          (stamped rid r)
          s).0
        ≡ forward r'
      → Decided rid r s r'
  unfolding Decided
  token-Decided rid r s r' p h =
      let token = get r.headers authorization in
      let raw = trim_prefix token bearer in
      let (v, id, e, ver, d) = with_bearer-eq-forward rid (trim_space raw) (stamped rid r) s r' h in
      (
        known g rid id [],
        s,
        inr (inl (id, (v, raw, e, append-trim_prefix token bearer p, ver), refl)),
        d,
      )

  session-Decided :
      (rid : Text) (r : Request) (s : State) (r' : Request)
      → (session_found library redis codec g rid
          (stamped rid r)
          (identity_from_request library redis codec (stamped rid r) g.sessions g.verifier now s)).0
        ≡ forward r'
      → Decided rid r s r'
  unfolding Decided
  session-Decided rid r s r' h =
      let got =
        identity_from_request library redis codec (stamped rid r) g.sessions g.verifier now s in
      let (c, s', why, d) = session_found-eq-forward rid (stamped rid r) got r' h in
      elim why [
        | inl a ↦ (c, s', inl a, d)
        | inr (id, sid, e, k) ↦ (
          c,
          s',
          inr (
              inr
                (id, sid, from_request-eq-ok (stamped rid r) g.sessions g.verifier s id sid e, k)),
          d,
        )
      ]

  -- The three branches, on the header that the client sent.
  pub authenticate_branches :
      (rid : Text) (r : Request) (s : State)
      → let token = get r.headers authorization in
        authenticate library redis codec g now rid r s ≡ (
          if has_prefix token bearer
          then with_bearer library redis codec g now rid
              (trim_space (trim_prefix token bearer))
              (stamped rid r)
              s
          else if Session.enabled g.sessions && verifier_enabled g.verifier
          then session_found library redis codec g rid (stamped rid r) (
              identity_from_request library redis codec (stamped rid r) g.sessions g.verifier now s)
          else decided library redis codec s (decide redis g rid (stamped rid r) (anonymous rid) s))
  unfolding authenticate
  authenticate_branches rid r s = rw (authorization_stamped rid r)

  authenticate-Decided :
      (rid : Text) (r : Request) (s : State) (r' : Request)
      → (authenticate library redis codec g now rid r s).0 ≡ forward r'
      → Decided rid r s r'
  unfolding Decided decided
  authenticate-Decided rid r s r' h =
      let h' = ap (λ o. o.0) (sym (authenticate_branches rid r s)) ∙ h in
      elim (Bool-cases (has_prefix (get r.headers authorization) bearer)) [
        | inl p ↦ token-Decided rid r s r' p (rw p at h')
        | inr p ↦ elim (Bool-cases (Session.enabled g.sessions && verifier_enabled g.verifier)) [
          | inl b ↦ session-Decided rid r s r' (rw (p, b) at h')
          | inr b ↦ (anonymous rid, s, inl refl, rw (p, b) at h')
        ]
      ]

  -- A request that the Gateway forwards is the client's with its identity headers stripped, a fresh
  -- request id set and one identity injected. That identity is either the anonymous one, or it was
  -- verified, from the request's bearer token or from the session that its cookie names, and then
  -- mapped to the platform's user id. If it names neither a user nor a subject, the path is one that
  -- the anonymous rules allow.
  pub authenticate_safe :
      (rid : Text) (r : Request) (s : State) (r' : Request)
      → (authenticate library redis codec g now rid r s).0 ≡ forward r'
      → (c : Caller) × IsCaller rid r s c
        × (injected c.identity (stamped rid r) ≡ r')
        × ((c.authenticated ≡ true) ⊎ (allows (rules g) r.path ≡ true))
  unfolding Decided
  authenticate_safe rid r s r' h =
      let (c, s', why, d) = authenticate-Decided rid r s r' h in
      let (e, allowed) = decide-eq-forward redis g rid (stamped rid r) c s' r' d in
      (c, why, e, allowed)
