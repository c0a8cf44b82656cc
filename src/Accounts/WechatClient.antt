-- ===== src/Accounts/WechatClient.antt =====
-- The client of WeChat's jscode2session: go/services/auth-service/internal/wechat/client.go.
use ting_boundless.Base.{
  not, is_nil, codes, Option, ℕ, Bool, List, Text, ◌==◌, ◌||◌, ◌++◌, ◌∷◌, if◌then◌else◌, some, none,
  [],
}
use ting_boundless.Base.Results.{failure, wrapped, Result, err, ok}
use ting_boundless.Accounts.Api.{WechatSession}

-- `Client`, without its HTTP client.
pub record Client : Type 0 where
  pub app_id : Text
  pub app_secret : Text
  pub mock_mode : Bool

-- The body of a response; an `errcode` that is absent is 0.
pub record Answer : Type 0 where
  pub openid : Text
  pub unionid : Text
  pub errcode : ℕ

-- `strings.SplitN(s, "|", 2)`: the parts around the first bar, if there is one.
unfoldable pub cut_bar : Text → Option (Text × Text)
cut_bar [] = none
cut_bar (c ∷ s) =
    let rest = cut_bar s in
    if c == b'|' then some ([], s) else elim rest [ none ↦ none | some (p, q) ↦ some (c ∷ p, q) ]

unfoldable pub mock_parts : Text → Option (Text × Text) → WechatSession
mock_parts code none = record { openid = codes "mock_" ++ code; unionid = [] }
mock_parts code (some (p, q)) =
    if is_nil p || is_nil q
    then record { openid = codes "mock_" ++ code; unionid = [] }
    else record { openid = codes "mock_" ++ p; unionid = codes "union_" ++ q }

unfoldable pub session_of : Answer → Result WechatSession
session_of a =
    if not (a.errcode == 0)
    then err (failure (codes "wechat errcode"))
    else if is_nil a.openid
    then err (failure (codes "wechat: empty openid"))
    else ok (record { openid = a.openid; unionid = a.unionid })

unfoldable pub decoded_session : Result Answer → Result WechatSession
unfolding session_of
decoded_session (err e) = err (wrapped (codes "wechat response") e)
decoded_session (ok a) = session_of a

unfoldable pub fetched_session : Result (Result Answer) → Result WechatSession
unfolding decoded_session
fetched_session (err e) = err e
fetched_session (ok r) = decoded_session r

-- The values of a request's query.
unfoldable pub session_values : Client → Text → List (Text × Text)
session_values c code =
    (codes "appid", c.app_id)
    ∷ (codes "secret", c.app_secret)
    ∷ (codes "js_code", code)
    ∷ (codes "grant_type", codes "authorization_code")
    ∷ []

-- `Code2Session`, without the session key, which nothing reads; `get` is the request of the values to
-- WeChat and the JSON decoder of its response's body.
unfoldable pub code2_session :
    (List (Text × Text) → Result (Result Answer)) → Client → Text → Result WechatSession
unfolding mock_parts fetched_session session_values
code2_session get c code =
    if is_nil code
    then err (failure (codes "code required"))
    else if c.mock_mode
    then ok (mock_parts code (cut_bar code))
    else if is_nil c.app_id || is_nil c.app_secret
    then err (failure (codes "wechat credentials not configured"))
    else fetched_session (get (session_values c code))
