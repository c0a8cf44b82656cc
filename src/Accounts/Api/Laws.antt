-- ===== src/Accounts/Api/Laws.antt =====
-- What a login of a mini-program says about the user it logs in.
use ting_boundless.Accounts.{is_nil, Store}
use ting_boundless.Accounts.Api.{
  resolve_wechat_user, login_configured, login, with_code, with_session, with_account, login_event,
  user_roles, WechatSession, logged_in, login_failed, issued, LoginConfig, LoginResult,
}
use ting_boundless.Base.{
  ap, Option-cases, Bool-cases, ◌∙◌, refl, some, List, ℕ, Text, subst, arith, ◌≡◌, inr, inl, [],
}
use ting_boundless.Base.Results.{err, Result, Result-cases, ok}
use ting_boundless.Accounts.WechatLaws.{resolve_wechat_user-MapsEither, MapsEither}
use ting_boundless.Accounts.Growth.{HasUser}
use ting_boundless.Accounts.Validity.{IsValid}

-- The reply logs in with the token.
abbrev pub LogsIn : Text → ℕ → Text → LoginResult → Type 0
LogsIn token expires x out = out.0 ≡ logged_in token expires x

-- A login of the session's user: the user exists and is that of the openid or of the union id, the
-- token is the one issued to that user, and the audit event, where there is an emitter, names the user
-- and the openid.
abbrev pub IsLogin :
    LoginConfig
    → (Text → Text → List Text → ℕ → Result Text)
    → WechatSession
    → Text
    → Text
    → LoginResult
    → Type 0
IsLogin cfg issue sess token x out =
    MapsEither sess.openid sess.unionid x out.1.tables
    × HasUser x out.1.tables
    × (issue x [] user_roles cfg.ttl ≡ ok token)
    × (out.2 ≡ login_event cfg sess x)

issued-IsLogin :
    (cfg : LoginConfig) (issue : Text → Text → List Text → ℕ → Result Text) (rid : Text)
    (sess : WechatSession) (y : Text) (s : Store) {token x : Text} {expires : ℕ}
    → MapsEither sess.openid sess.unionid y s.tables
    → HasUser y s.tables
    → LogsIn token expires x (issued cfg rid sess y s (issue y [] user_roles cfg.ttl))
    → IsLogin cfg issue sess token x (issued cfg rid sess y s (issue y [] user_roles cfg.ttl))
unfolding issued login_failed
issued-IsLogin cfg issue rid sess y s {token} {x} m h l =
    elim (Result-cases (issue y [] user_roles cfg.ttl)) [
      | inr (e, q) ↦ absurd (ground (arith, q, l))
      | inl (t, q) ↦ rw q (
        subst (λ z. MapsEither sess.openid sess.unionid z s.tables) (same q) m,
        subst (λ z. HasUser z s.tables) (same q) h,
        ground (arith, q, l),
        ground (arith, same q),
      )
    ]
  where
    same : {t : Text} → issue y [] user_roles cfg.ttl ≡ ok t → y ≡ x
    same q = ground (arith, q, l)

with_account-IsLogin :
    (cfg : LoginConfig) (issue : Text → Text → List Text → ℕ → Result Text) (rid : Text)
    (sess : WechatSession) (r : Result Text × Store) {token x : Text} {expires : ℕ}
    → ((y : Text)
        → r.0 ≡ ok y
        → MapsEither sess.openid sess.unionid y r.1.tables × HasUser y r.1.tables)
    → LogsIn token expires x (with_account cfg issue rid sess r)
    → IsLogin cfg issue sess token x (with_account cfg issue rid sess r)
unfolding with_account login_failed
with_account-IsLogin cfg issue rid sess (err e, s) h l = absurd (ground (arith, l))
with_account-IsLogin cfg issue rid sess (ok y, s) h l =
    issued-IsLogin cfg issue rid sess y s (h y refl).0 (h y refl).1 l

with_session-IsLogin :
    (cfg : LoginConfig) (issue : Text → Text → List Text → ℕ → Result Text)
    (random : Result (List ℕ)) (rid : Text) (s : Store) (r : Result WechatSession) {token x : Text}
    {expires : ℕ}
    → IsValid s.tables
    → LogsIn token expires x (with_session cfg issue random rid s r)
    → (sess : WechatSession) × (r ≡ ok sess)
      × IsLogin cfg issue sess token x (with_session cfg issue random rid s r)
unfolding with_session login_failed
with_session-IsLogin cfg issue random rid s (err e) v l = absurd (ground (arith, l))
with_session-IsLogin cfg issue random rid s (ok sess) v l = (
  sess,
  refl,
  with_account-IsLogin cfg issue rid sess (resolve_wechat_user random sess.openid sess.unionid s)
      (resolve_wechat_user-MapsEither random sess.openid sess.unionid s v).1 l,
)

module _ (cfg : LoginConfig) (decode : Text → Result Text) (random : Result (List ℕ))
    (rid body : Text) (s : Store) where
  -- The collaborators of a login, and what they answered.
  abbrev pub Session : Text → Text → LoginResult → Type 0
  Session token x out =
      (exchange : Text → Result WechatSession) × (issue : Text → Text → List Text → ℕ → Result Text)
      × (code : Text) × (sess : WechatSession) × (cfg.code2session ≡ some exchange)
      × (cfg.access_token ≡ some issue)
      × (decode body ≡ ok code)
      × (exchange code ≡ ok sess)
      × IsLogin cfg issue sess token x out

  with_code-Session :
      (exchange : Text → Result WechatSession) (issue : Text → Text → List Text → ℕ → Result Text)
      {token x : Text} {expires : ℕ}
      → cfg.code2session ≡ some exchange
      → cfg.access_token ≡ some issue
      → IsValid s.tables
      → LogsIn token expires x (with_code cfg exchange issue random rid s (decode body))
      → Session token x (with_code cfg exchange issue random rid s (decode body))
  unfolding with_code login_failed
  with_code-Session exchange issue {token} {x} c i v l = elim (Result-cases (decode body)) [
    | inr (e, q) ↦ absurd (ground (arith, q, l))
    | inl (code, q) ↦ elim (Bool-cases (is_nil code)) [
      | inl b ↦ absurd (ground (arith, q, b, l))
      | inr b ↦
          let e : with_session cfg issue random rid s (exchange code)
              ≡ with_code cfg exchange issue random rid s (decode body) =
            ground (arith, q, b) in
          let (sess, h, k) =
            with_session-IsLogin cfg issue random rid s (exchange code) v (ap (λ o. o.0) e ∙ l) in
          (exchange, issue, code, sess, c, i, q, h, subst (IsLogin cfg issue sess token x) e k)
    ]
  ]

  -- On valid tables, when `Login` logs a user in, whatever other processes write meanwhile: the WeChat
  -- session of the code in the body was fetched, the user exists and is the one that the session's
  -- openid or union id is mapped to, the token is the one issued to that user with no tenant, the one
  -- role `user` and the configured time to live, and the audit event, where there is an emitter, has
  -- that user as its actor and subject and names the session's ids.
  pub login-Session :
      {token x : Text} {expires : ℕ}
      → IsValid s.tables
      → LogsIn token expires x (login cfg decode random rid body s)
      → Session token x (login cfg decode random rid body s)
  unfolding login login_configured login_failed
  login-Session {token} {x} v l = elim (Option-cases cfg.code2session) [
    | inl c ↦ absurd (ground (arith, c, l))
    | inr (exchange, c) ↦ elim (Option-cases cfg.access_token) [
      | inl i ↦ absurd (ground (arith, c, i, l))
      | inr (issue, i) ↦ elim (Bool-cases cfg.has_identities) [
        | inr b ↦ absurd (ground (arith, b, c, i, l))
        | inl b ↦
            let e : with_code cfg exchange issue random rid s (decode body)
                ≡ login cfg decode random rid body s =
              ground (arith, c, i, b) in
            subst (Session token x) e (with_code-Session exchange issue c i v (ap (λ o. o.0) e ∙ l))
      ]
    ]
  ]
