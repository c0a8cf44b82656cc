-- ===== src/Gateway/Bff/Served.antt =====
-- A session that a login made is served by the Gateway, as far as its token goes.
use ting_boundless.Http.{Request}
use ting_boundless.Identity.{Identity}
use ting_boundless.Session
use ting_boundless.Jwt.{Library, verify}
use ting_boundless.Base.{
  ◌+◌, subst, sym, ap, ◌∙◌, ◌≤◌, ◌≢◌, arith, codes, ℕ, Text, ◌≡◌, true, some, [],
}
use ting_boundless.Redis.{Redis, millisecond}
use ting_boundless.Session.{Codec}
use ting_boundless.Base.Results.{ok}
use ting_boundless.Gateway.Bff.{
  callback, expires_at, login_data, session_cookie, redirect, Tokens, Cookie, Bff,
}
use ting_boundless.Gateway.Authenticate.{
  verified_session, loaded_session, identity_from_cookie, identity_from_request,
}
use ting_boundless.Session.Laws.{get-create, contents-create, IsBefore}
use ting_boundless.Gateway.Bff.Laws.{callback_redirect}

module _ (library : Library) (redis : Redis) (codec : Codec) (b : Bff) where
  open redis use {State, reachable, elapse}

  session_served :
      (later : ℕ) (r : Request) (s : State) (sid : Text) (d : Session.Data) (id : Identity)
      → b.sessions.connected ≡ true
      → sid ≢ []
      → r.cookie b.sessions.cookie_name ≡ some sid
      → Session.get redis codec b.sessions later sid s ≡ (ok d, s)
      → verify library b.verifier later d.access_token ≡ ok id
      → identity_from_request library redis codec r (some b.sessions) (some b.verifier) later s
        ≡ (ok (id, sid), s)
  unfolding identity_from_request identity_from_cookie loaded_session verified_session
  session_served later r s sid d id connected n k g v = ground (arith, connected, k, g, v)

  created_id :
      (now : ℕ) (sid sid' : Text) (d : Session.Data) (s s' : State)
      → Session.create redis codec b.sessions now (ok sid) d s ≡ (ok sid', s')
      → sid ≡ sid'
  unfolding Session.create
  created_id now sid sid' d s s' h = ground arith

  created_served :
      (now n : ℕ) (sid sid' : Text) (d : Session.Data) (s s' : State)
      → Session.create redis codec b.sessions now (ok sid) d s ≡ (ok sid', s')
      → sid ≢ []
      → n + millisecond ≤ b.sessions.ttl
      → IsBefore redis codec b.sessions (now + n + millisecond) d.expires_at
      → reachable (elapse n s') ≡ true
      → (b.sessions.connected ≡ true)
        × (Session.get redis codec b.sessions (now + n) sid (elapse n s') ≡ (ok d, elapse n s'))
  created_served now n sid sid' d s s' h ne l x r =
      let same = created_id now sid sid' d s s' h in
      let made = ap (λ o. o.0) h ∙ ap ok (sym same) in
      let e = ap (λ o. o.1) h in
      (
        (contents-create redis codec b.sessions now sid d s made).0,
        subst
            (λ u.
              Session.get redis codec b.sessions (now + n) sid (elapse n u) ≡ (ok d, elapse n u))
            e
            (get-create redis codec b.sessions now n sid d s ne made l x
              (ap (λ u. reachable (elapse n u)) e ∙ r)),
      )

  -- After a login that drew a session id which is not empty, a request with the cookie that it set is
  -- served as the user of the access token that the code was exchanged for, until a millisecond before
  -- the time to live of sessions has passed and before the token's expiry, as long as that token verifies and
  -- the server answers, where no command was sent to Redis in between.
  pub login_then_request :
      (now n : ℕ) (sid : Text) (r q : Request) (s : State) (c : Cookie) (location : Text)
      (s' : State) (t : Tokens) (id : Identity)
      → callback library redis codec b now (ok sid) r s ≡ (redirect (some c) location, s')
      → b.oidc.exchange_code (r.query (codes "code")) ≡ ok t
      → sid ≢ []
      → n + millisecond ≤ b.sessions.ttl
      → now + n + millisecond ≤ expires_at now t.expires_in
      → reachable (elapse n s') ≡ true
      → verify library b.verifier (now + n) t.access_token ≡ ok id
      → q.cookie b.sessions.cookie_name ≡ some c.value
      → identity_from_request library redis codec q
          (some b.sessions)
          (some b.verifier)
          (now + n)
          (elapse n s')
        ≡ (ok (id, sid), elapse n s')
  unfolding session_cookie
  login_then_request now n sid r q s c location s' t id h x ne l le rb v k =
      let (p, t', id', s1, sid', (consumed, exchanged, verified), made, cookie, place) =
        callback_redirect library redis codec b now (ok sid) r s c location s' h in
      let same_tokens : t' ≡ t = ground arith in
      let d =
        login_data library redis codec b t'.access_token t'.refresh_token id'
          (expires_at now t'.expires_in) in
      let before : now + n + millisecond ≤ expires_at now t'.expires_in =
        subst (λ u. now + n + millisecond ≤ expires_at now u.expires_in) (sym same_tokens) le in
      let (connected, got) = created_served now n sid sid' d s1 s' made ne l before rb in
      let same = created_id now sid sid' d s1 s' made in
      session_served (now + n) q (elapse n s') sid d id connected ne
        (k ∙ ap (λ o. some o.value) cookie ∙ ap some (sym same)) got
        (ap (λ u. verify library b.verifier (now + n) u.access_token) same_tokens ∙ v)
