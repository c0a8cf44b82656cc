-- ===== src/Gateway/Bff/Laws.antt =====
-- A login ends in a session that the Gateway then accepts.
use ting_boundless.Session
use ting_boundless.Jwt.{Library, verify}
use ting_boundless.Base.{refl, arith, codes, ℕ, has_prefix, Text, ◌⊎◌, ◌≡◌, false, true, some, []}
use ting_boundless.Base.Results.{Result, err, ok}
use ting_boundless.Gateway.Bff.{
  callback, pending_consumed, code_exchanged, token_verified, expires_at, login_data, login_token,
  session_cookie, Identity, redirect, Tokens, Cookie, PendingLogin, failed_with, Request,
  session_created, Bff, Codec, Redis, has_no_host, safe_return_to,
}

-- The place that a login returns to is the fallback, or it is the one asked for, a path of this site:
-- it starts with `/`, not with `//`, and names no host.
pub safe_return_to_cases :
    (parse_host : Text → Result Text) (raw fallback : Text)
    → (safe_return_to parse_host raw fallback ≡ fallback)
      ⊎ (safe_return_to parse_host raw fallback ≡ raw)
        × (has_prefix raw (codes "/") ≡ true)
        × (has_prefix raw (codes "//") ≡ false)
        × (parse_host raw ≡ ok [])
unfolding safe_return_to has_no_host
safe_return_to_cases parse_host raw fallback = ground arith

module _ (library : Library) (redis : Redis) (codec : Codec) (b : Bff) where
  open redis use {State, reachable}

  -- The steps of a login that got as far as the session.
  abbrev pub IsLogin :
      ℕ → Result Text → Request → State → PendingLogin → Tokens → Identity → State → Type 0
  IsLogin now new_id r s p t id s' =
      (Session.consume_pending redis codec b.sessions (r.query (codes "state")) s ≡ (ok p, s'))
      × (b.oidc.exchange_code (r.query (codes "code")) ≡ ok t)
      × (verify library b.verifier now (login_token t) ≡ ok id)

  created_redirect :
      (return_to location : Text) (expiry : ℕ) (made : Result Text × State) (c : Cookie)
      (s' : State)
      → session_created library redis codec b return_to expiry made
        ≡ (redirect (some c) location, s')
      → (sid : Text) × (made ≡ (ok sid, s'))
        × (c ≡ session_cookie b sid expiry)
        × (location ≡ return_to)
  unfolding session_created failed_with
  created_redirect return_to location expiry (ok sid, s) c s' h =
      (sid, ground arith, ground arith, ground arith)
  created_redirect return_to location expiry (err e, s) c s' h = absurd (ground arith)

  -- What `Session.create` made at the end of a login.
  abbrev pub created : ℕ → Result Text → Tokens → Identity → State → Result Text × State
  created now new_id t id s =
      Session.create redis codec b.sessions now new_id
        (login_data library redis codec b t.access_token t.refresh_token id
          (expires_at now t.expires_in))
        s

  abbrev LoggedIn :
      ℕ → Result Text → PendingLogin → State → Result Tokens → Cookie → Text → State → Type 0
  LoggedIn now new_id p s got c location s' =
      (t : Tokens) × (id : Identity) × (sid : Text) × (got ≡ ok t)
      × (verify library b.verifier now (login_token t) ≡ ok id)
      × (created now new_id t id s ≡ (ok sid, s'))
      × (c ≡ session_cookie b sid (expires_at now t.expires_in))
      × (location ≡ p.return_to)

  verified_redirect :
      (now : ℕ) (new_id : Result Text) (p : PendingLogin) (t : Tokens) (s : State) (c : Cookie)
      (location : Text) (s' : State) (got : Result Identity)
      → verify library b.verifier now (login_token t) ≡ got
      → token_verified library redis codec b now new_id p t s got ≡ (redirect (some c) location, s')
      → LoggedIn now new_id p s (ok t) c location s'
  unfolding token_verified failed_with
  verified_redirect now new_id p t s c location s' (err e) g h = absurd (ground arith)
  verified_redirect now new_id p t s c location s' (ok id) g h =
      let (sid, made, cookie, place) =
        created_redirect p.return_to location (expires_at now t.expires_in)
          (created now new_id t id s) c s' h in
      (t, id, sid, refl, g, made, cookie, place)

  exchanged_redirect :
      (now : ℕ) (new_id : Result Text) (p : PendingLogin) (s : State) (c : Cookie) (location : Text)
      (s' : State) (got : Result Tokens)
      → code_exchanged library redis codec b now new_id p s got ≡ (redirect (some c) location, s')
      → LoggedIn now new_id p s got c location s'
  unfolding code_exchanged failed_with
  exchanged_redirect now new_id p s c location s' (err e) h = absurd (ground arith)
  exchanged_redirect now new_id p s c location s' (ok t) h =
      verified_redirect now new_id p t s c location s'
        (verify library b.verifier now (login_token t)) refl h

  consumed_redirect :
      (now : ℕ) (new_id : Result Text) (code : Text) (c : Cookie) (location : Text) (s' : State)
      (got : Result PendingLogin × State)
      → pending_consumed library redis codec b now new_id code got
        ≡ (redirect (some c) location, s')
      → (p : PendingLogin) × (s : State) × (got ≡ (ok p, s))
        × LoggedIn now new_id p s (b.oidc.exchange_code code) c location s'
  unfolding pending_consumed failed_with
  consumed_redirect now new_id code c location s' (err e, s) h = absurd (ground arith)
  consumed_redirect now new_id code c location s' (ok p, s) h =
      (p, s, refl, exchanged_redirect now new_id p s c location s' (b.oidc.exchange_code code) h)

  callback_consumes :
      (now : ℕ) (new_id : Result Text) (r : Request) (s : State) (c : Cookie) (location : Text)
      (s' : State)
      → callback library redis codec b now new_id r s ≡ (redirect (some c) location, s')
      → pending_consumed library redis codec b now new_id
          (r.query (codes "code"))
          (Session.consume_pending redis codec b.sessions (r.query (codes "state")) s)
        ≡ (redirect (some c) location, s')
  unfolding callback failed_with
  callback_consumes now new_id r s c location s' h = ground arith

  -- A callback sets a session cookie only at the end of a full login: the state it carries was that
  -- of a pending login, which it consumed; its code was exchanged for tokens; the token verified; a
  -- session with those tokens was created and the cookie holds its id. The browser is sent to the
  -- place that the pending login names.
  pub callback_redirect :
      (now : ℕ) (new_id : Result Text) (r : Request) (s : State) (c : Cookie) (location : Text)
      (s' : State)
      → callback library redis codec b now new_id r s ≡ (redirect (some c) location, s')
      → (p : PendingLogin) × (t : Tokens) × (id : Identity) × (s1 : State) × (sid : Text) × IsLogin
          now new_id r s p t id s1
        × (created now new_id t id s1 ≡ (ok sid, s'))
        × (c ≡ session_cookie b sid (expires_at now t.expires_in))
        × (location ≡ p.return_to)
  callback_redirect now new_id r s c location s' h =
      let (p, s1, consumed, (t, id, sid, exchanged, verified, made, cookie, place)) =
        consumed_redirect now new_id (r.query (codes "code")) c location s'
          (Session.consume_pending redis codec b.sessions (r.query (codes "state")) s)
          (callback_consumes now new_id r s c location s' h) in
      (p, t, id, s1, sid, (consumed, exchanged, verified), made, cookie, place)
