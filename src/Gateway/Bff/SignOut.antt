-- ===== src/Gateway/Bff/SignOut.antt =====
-- What signing out leaves behind.
use ting_boundless.Session
use ting_boundless.Revocation
use ting_boundless.Base.{
  ◌⊎◌, has_prefix, ℕ, Option, false, not, is_nil, refl, if-both, Bool-cases, inl, inr, none, ◌&&◌,
  sym, ap, subst, subst, arith, codes, Text, ◌∙◌, ◌≢◌, ◌≡◌, true, some, [],
}
use ting_boundless.Base.Results.{ok}
use ting_boundless.Jwt.{Library, Verifier, verify}
use ting_boundless.Redis.{Redis}
use ting_boundless.Session.{Codec}
use ting_boundless.Gateway.Bff.{Identity, Request, Bff}
use ting_boundless.Gateway.Authenticate.Safety.{
  rules, stamped, injected, decide-eq-forward, from_request-eq-ok, authenticate_branches,
}
use ting_boundless.Session.Laws.{get_state}
use ting_boundless.Http.{get, authorization, ErrorReply}
use ting_boundless.Httpx.{bearer}
use ting_boundless.Base.Results.{Result, err}
use ting_boundless.Gateway.Rules.{allows}
use ting_boundless.Gateway.Authenticate.{
  Outcome, forward, known, anonymous, has_identity, authenticate, session_found, decided,
  loaded_session, verified_session, identity_from_request, identity_from_cookie, verifier_enabled,
  deny, Caller, checked, is_revoked, decide, check_revocation, Edge,
}
use ting_boundless.Gateway.Bff.Local.{revoked, signed_out, sign_out}
use ting_boundless.Gateway.Rules.{requires_revocation_check}
use ting_boundless.Gateway.Authenticate.Denial.{revoked_reply}
use ting_boundless.Revocation.Laws.{is_session_revoked-revoke_session}

deny_ne_forward : {e : ErrorReply} {r : Request} → deny e ≢ forward r
deny_ne_forward h = absurd (ground (arith, h))

some_eq : {A : Type 0} {x y : A} → some x ≡ some y → x ≡ y
some_eq h = ground (arith, h)

module _ (library : Library) (redis : Redis) (codec : Codec) (b : Bff) (g : Edge) where
  open redis use {State, reachable}

  -- The state in which signing out revokes the session.
  abbrev pub session_dropped : Text → State → State
  session_dropped sid s = (Session.delete redis codec b.sessions sid s).1

  sign_out_state :
      (store : Revocation.Store) (sid : Text) (r : Request) (s : State)
      → sid ≢ []
      → r.cookie b.sessions.cookie_name ≡ some sid
      → b.revocations ≡ some store
      → store.connected ≡ true
      → (sign_out library redis codec b r s).1
        ≡ (Revocation.revoke_session redis store sid (session_dropped sid s)).1
  unfolding sign_out signed_out revoked
  sign_out_state store sid r s n k e c = ground (arith, k, e, c)

  check-session_revoked :
      (store : Revocation.Store) (id : Identity) (sid : Text) (s : State)
      → sid ≢ []
      → g.revocations ≡ some store
      → store.connected ≡ true
      → Revocation.is_session_revoked redis store sid s ≡ ok true
      → check_revocation redis g.revocations id sid s ≡ some (codes "auth.session_revoked")
  unfolding check_revocation is_revoked
  check-session_revoked store id sid s n e c h = ground (arith, e, c, h)

  decide-session_revoked :
      (store : Revocation.Store) (rid : Text) (q : Request) (c : Caller) (s : State)
      → c.session_id ≢ []
      → g.revocations ≡ some store
      → store.connected ≡ true
      → c.authenticated ≡ true
      → requires_revocation_check g.sensitive q.path ≡ true
      → Revocation.is_session_revoked redis store c.session_id s ≡ ok true
      → (decide redis g rid q c s).0 ≡ deny (revoked_reply redis g rid)
  unfolding decide checked
  decide-session_revoked store rid q c s n e k a p h =
      ground (arith, check-session_revoked store c.identity c.session_id s n e k h)

  module _ (now : ℕ) (s : State) where
    -- A result that is no error comes with the state it began with.
    abbrev Leaves : {A : Type 0} → Result A × State → Type 0
    Leaves {A} o = (x : A) → o.0 ≡ ok x → o.1 ≡ s

    loaded-Leaves :
        (v : Verifier) (sessions : Session.Store) (sid : Text) (got : Result Session.Data × State)
        → Leaves got
        → Leaves (loaded_session library redis codec v sessions now sid got)
    unfolding loaded_session verified_session
    loaded-Leaves v sessions sid (err e, u) w x h = absurd (ground (arith, h))
    loaded-Leaves v sessions sid (ok d, u) w x h = by_result (verify library v now d.access_token) h
      where
        by_result :
            (r : Result Identity)
            → let o = elim r as (λ _. Result (Identity × Text) × State) [
              | ok id ↦ (ok (id, sid), u)
              | err e ↦ (err e, (Session.delete redis codec sessions sid u).1)
            ] in
              o.0 ≡ ok x → o.1 ≡ s
        by_result (ok id) k = w d refl
        by_result (err e) k = absurd (ground (arith, k))

    request-Leaves :
        (r : Request) (sessions : Option Session.Store) (verifier : Option Verifier)
        → Leaves (identity_from_request library redis codec r sessions verifier now s)
    unfolding identity_from_request identity_from_cookie
    request-Leaves r none verifier x h = refl
    request-Leaves r (some store) none x h = refl
    request-Leaves r (some store) (some v) x h =
        if-both Leaves (not store.connected) _ _ (λ _ _ _. refl)
          (λ _. by_cookie (r.cookie store.cookie_name)) x h
      where
        by_cookie :
            (cookie : Option Text)
            → Leaves (identity_from_cookie library redis codec v store now cookie s)
        by_cookie none y k = refl
        by_cookie (some sid) y k =
            if-both Leaves (is_nil sid) _ _ (λ _ _ _. refl)
              (λ _.
                loaded-Leaves v store sid (Session.get redis codec store now sid s)
                  (λ d. get_state redis codec store now sid d s))
              y k

    -- The session that a request is served from is the one that its cookie names.
    found_session :
        (r : Request) (sid : Text) (id : Identity) (sid' : Text)
        → g.sessions ≡ some b.sessions
        → r.cookie b.sessions.cookie_name ≡ some sid
        → (identity_from_request library redis codec r g.sessions g.verifier now s).0
          ≡ ok (id, sid')
        → sid' ≡ sid
    found_session r sid id sid' e k h =
        let (v, store, d, ve, se, cookie, got, ver) =
          from_request-eq-ok library redis codec g now r g.sessions g.verifier s id sid' h in
        let same : store ≡ b.sessions = some_eq (sym se ∙ e) in
        some_eq (sym cookie ∙ ap (λ t. r.cookie t.cookie_name) same ∙ k)

  -- The request carries an identity without a user and a subject, on a path that the anonymous rules allow.
  abbrev pub IsUnknown : Text → Request → Request → Type 0
  IsUnknown rid q r' =
      (id : Identity) × (injected id (stamped rid q) ≡ r')
      × (has_identity id ≡ false)
      × (allows (rules g) q.path ≡ true)

  decided-IsUnknown :
      (rid : Text) (q : Request) (c : Caller) (s : State) (r' : Request)
      → (decide redis g rid (stamped rid q) c s).0 ≡ forward r'
      → c.authenticated ≡ false
      → has_identity c.identity ≡ false
      → IsUnknown rid q r'
  decided-IsUnknown rid q c s r' h a n =
      let (e, why) = decide-eq-forward redis g rid (stamped rid q) c s r' h in
      (c.identity, e, n, elim why [ inl y ↦ absurd (ground (arith, y, a)) | inr y ↦ y ])

  module _ (store : Revocation.Store) (rid sid : Text) (q : Request) (t : State) (n : sid ≢ [])
      (e : g.revocations ≡ some store) (con : store.connected ≡ true)
      (p : requires_revocation_check g.sensitive q.path ≡ true)
      (revoked : Revocation.is_session_revoked redis store sid t ≡ ok true) where
    -- A caller of the revoked session is denied where it is known.
    known-IsUnknown :
        (id : Identity) (r' : Request)
        → (decide redis g rid (stamped rid q) (known g rid id sid) t).0 ≡ forward r'
        → IsUnknown rid q r'
    unfolding known
    known-IsUnknown id r' h = elim (Bool-cases (known g rid id sid).authenticated) [
      | inr a ↦ decided-IsUnknown rid q (known g rid id sid) t r' h a a
      | inl a ↦
          let denied =
            decide-session_revoked store rid (stamped rid q) (known g rid id sid) t n e con a p
              revoked in
          absurd (deny_ne_forward (sym denied ∙ h))
    ]

    found-IsUnknown :
        (got : Result (Identity × Text) × State) (r' : Request)
        → ((id : Identity) (sid' : Text) → got.0 ≡ ok (id, sid') → (sid' ≡ sid) × (got.1 ≡ t))
        → (session_found library redis codec g rid (stamped rid q) got).0 ≡ forward r'
        → IsUnknown rid q r'
    unfolding session_found decided has_identity
    found-IsUnknown (err x, u) r' w h = decided-IsUnknown rid q (anonymous rid) u r' h refl refl
    found-IsUnknown (ok (id, sid'), u) r' w h =
        let (same, left) = w id sid' refl in
        known-IsUnknown id r' (
          subst (λ k. (decide redis g rid (stamped rid q) (known g rid id k) t).0 ≡ forward r') same
            (subst
              (λ y. (decide redis g rid (stamped rid q) (known g rid id sid') y).0 ≡ forward r')
              left h))

  -- A request of the session that was signed out of is forwarded without a user, if at all.
  signed_out_forwarded :
      (now : ℕ) (store : Revocation.Store) (rid sid : Text) (r q : Request) (s : State)
      (r' : Request)
      → sid ≢ []
      → r.cookie b.sessions.cookie_name ≡ some sid
      → q.cookie b.sessions.cookie_name ≡ some sid
      → has_prefix (get q.headers authorization) bearer ≡ false
      → b.revocations ≡ some store
      → g.revocations ≡ some store
      → g.sessions ≡ some b.sessions
      → store.connected ≡ true
      → (Revocation.revoke_session redis store sid (session_dropped sid s)).0 ≡ ok tt
      → reachable (sign_out library redis codec b r s).1 ≡ true
      → requires_revocation_check g.sensitive q.path ≡ true
      → (authenticate library redis codec g now rid q (sign_out library redis codec b r s).1).0
        ≡ forward r'
      → IsUnknown rid q r'
  unfolding decided has_identity
  signed_out_forwarded now store rid sid r q s r' n k k' nb e e' se con done rb p h =
      let t = (sign_out library redis codec b r s).1 in
      let left = sign_out_state store sid r s n k e con in
      let revoked : Revocation.is_session_revoked redis store sid t ≡ ok true =
        ap (Revocation.is_session_revoked redis store sid) left
        ∙ is_session_revoked-revoke_session redis store con sid (session_dropped sid s) done
            (ap reachable (sym left) ∙ rb) in
      let h' = ap (λ o. o.0) (sym (authenticate_branches library redis codec g now rid q t)) ∙ h in
      elim (Bool-cases (Session.enabled g.sessions && verifier_enabled g.verifier)) [
        | inr off ↦ decided-IsUnknown rid q (anonymous rid) t r' (rw (nb, off) at h') refl refl
        | inl on ↦
            found-IsUnknown store rid sid q t n e' con p revoked
              (identity_from_request library redis codec (stamped rid q) g.sessions g.verifier now
                t)
              r'
              (λ id sid' o. (
                found_session now t (stamped rid q) sid id sid' se k' o,
                request-Leaves now t (stamped rid q) g.sessions g.verifier (id, sid') o,
              ))
              (rw (nb, on) at h')
      ]

  Outcome-cases :
      (o : Outcome) → ((e : ErrorReply) × (o ≡ deny e)) ⊎ ((r : Request) × (o ≡ forward r))
  Outcome-cases (deny e) = inl (e, refl)
  Outcome-cases (forward r) = inr (r, refl)

  -- After signing out of a session with an id that is not empty, with a connected blocklist that the
  -- Gateway asks and that took the session, on a server that answers, the Gateway serves no request without a
  -- bearer token but with the cookie of that session on a sensitive path as a user's, even if the session itself
  -- could not be deleted: it denies the request, or forwards it with an identity of neither a user nor a
  -- subject, on a path that the anonymous rules allow. The Gateway and the login pages have the same session store.
  pub signed_out_denied :
      (now : ℕ) (store : Revocation.Store) (rid sid : Text) (r q : Request) (s : State)
      → sid ≢ []
      → r.cookie b.sessions.cookie_name ≡ some sid
      → q.cookie b.sessions.cookie_name ≡ some sid
      → has_prefix (get q.headers authorization) bearer ≡ false
      → b.revocations ≡ some store
      → g.revocations ≡ some store
      → g.sessions ≡ some b.sessions
      → store.connected ≡ true
      → (Revocation.revoke_session redis store sid (session_dropped sid s)).0 ≡ ok tt
      → reachable (sign_out library redis codec b r s).1 ≡ true
      → requires_revocation_check g.sensitive q.path ≡ true
      → let o =
          (authenticate library redis codec g now rid q (sign_out library redis codec b r s).1).0 in
        ((e : ErrorReply) × (o ≡ deny e)) ⊎ ((r' : Request) × (o ≡ forward r') × IsUnknown rid q r')
  signed_out_denied now store rid sid r q s n k k' nb e e' se con done rb p =
      elim (Outcome-cases
        (authenticate library redis codec g now rid q (sign_out library redis codec b r s).1).0) [
          | inl d ↦ inl d
          | inr (r', h) ↦ inr (
            r',
            h,
            signed_out_forwarded now store rid sid r q s r' n k k' nb e e' se con done rb p h,
          )
        ]
