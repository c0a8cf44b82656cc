-- ===== src/Oidc/Login.antt =====
-- A login over the OIDC client, from the code to the session.
use ting_boundless.Session
use ting_boundless.Base.{subst, take, Text, ℕ, codes, is_nil, ◌≡◌, refl, false, true, some}
use ting_boundless.Base.Results.{Result, ok}
use ting_boundless.Gateway.Bff.{
  expires_at, login_data, redirect, callback, Cookie, Bff, Tokens, login_token,
}
use ting_boundless.Jwt.{verify, Library}
use ting_boundless.Redis.{Redis}
use ting_boundless.Session.{Codec}
use ting_boundless.Oidc.{
  response_limit, exchange_values, ready, oidc_client, ClientConfig, Provider,
}
use ting_boundless.Http.{Request}
use ting_boundless.Identity.{Identity}
use ting_boundless.Gateway.Bff.Laws.{callback_redirect}
use ting_boundless.Oidc.Laws.{exchange_code-ok}

login_token-access : (t : Tokens) → is_nil t.access_token ≡ false → login_token t ≡ t.access_token
unfolding login_token
login_token-access t n = rw n refl

-- When a callback sets a session cookie and the login pages use the OIDC client: the client is
-- configured, the token endpoint answered 200 to a form with the request's code, the access token of
-- its answer is not empty and it is the token that verified, and the session that was created holds
-- that access token, its refresh token and the identity it verified to.
pub callback_over_client :
    (library : Library) (redis : Redis) (codec : Codec) (b : Bff) (p : Provider)
    (cfg : ClientConfig) (now : ℕ) (new_id : Result Text) (r : Request) (s : redis.State)
    (c : Cookie) (location : Text) (s' : redis.State)
    → callback library redis codec (record b { oidc = oidc_client p cfg }) now new_id r s
      ≡ (redirect (some c) location, s')
    → (t : Tokens) × (id : Identity) × (s1 : redis.State) × (sid : Text) × (raw : Text) × (ready cfg
        ≡ true)
      × (p.post_form cfg.token_url (p.encode_form (exchange_values cfg (r.query (codes "code"))))
          ≡ ok (200, ok raw))
      × (p.decode_tokens (take response_limit raw) ≡ ok t)
      × (is_nil t.access_token ≡ false)
      × (verify library b.verifier now t.access_token ≡ ok id)
      × (Session.create redis codec b.sessions now new_id
            (login_data library redis codec b t.access_token t.refresh_token id
              (expires_at now t.expires_in))
            s1
          ≡ (ok sid, s'))
callback_over_client library redis codec b p cfg now new_id r s c location s' h =
    let b' : Bff = record b { oidc = oidc_client p cfg } in
    let (q, t, id, s1, sid, (consumed, exchanged, verified), made, cookie, place) =
      callback_redirect library redis codec b' now new_id r s c location s' h in
    let (raw, y, posted, d, n) = exchange_code-ok p cfg (r.query (codes "code")) t exchanged in
    let w : verify library b.verifier now t.access_token ≡ ok id =
      subst (λ k. verify library b.verifier now k ≡ ok id) (login_token-access t n) verified in
    (t, id, s1, sid, raw, y, posted, d, n, w, made)
