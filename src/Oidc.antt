-- ===== src/Oidc.antt =====
-- The OIDC client of the Gateway: go/pkg/oidc/client.go.
pub mod Laws
pub mod Login
use ting_boundless.Base.{
  take, codes, not, ℕ, is_nil, List, Bool, Text, ◌==◌, ◌&&◌, ◌^◌, ◌++◌, ◌∷◌, if◌then◌else◌, [],
}
use ting_boundless.Base.Results.{wrapped, failure, Result, Err, err, ok}
use ting_boundless.Httpx.{env, Environment}
use ting_boundless.Gateway.Bff.{Tokens, Oidc}
use ting_boundless.Gateway.Resolver.{trim_slashes}

-- `ClientConfig`.
pub record ClientConfig : Type 0 where
  pub issuer : Text
  pub client_id : Text
  pub client_secret : Text
  pub redirect_uri : Text
  pub scopes : Text
  pub resource : Text
  pub auth_url : Text
  pub token_url : Text

-- A setting, or what stands for it where it is empty.
unfoldable pub or_else : Text → Text → Text
or_else v w = if is_nil v then w else v

unfoldable pub endpoint_or : Text → Text → Text → Text
endpoint_or url issuer path = if is_nil url && not (is_nil issuer) then issuer ++ path else url

-- `ConfigFromEnv`.
unfoldable pub config_from_env : Environment → ClientConfig
unfolding or_else endpoint_or
config_from_env e =
    let issuer = trim_slashes (env e (codes "OIDC_ISSUER") []) in
    record {
      issuer = issuer;
      client_id = env e (codes "OIDC_CLIENT_ID") [];
      client_secret = env e (codes "OIDC_CLIENT_SECRET") [];
      redirect_uri = or_else (env e (codes "OIDC_REDIRECT_URI") []) (
          trim_slashes (env e (codes "GATEWAY_PUBLIC_URL") (codes "http://127.0.0.1:8080"))
          ++ codes "/callback");
      scopes = env e (codes "OIDC_SCOPES") (codes "openid profile email");
      resource = or_else (env e (codes "OIDC_RESOURCE") []) (env e (codes "OIDC_AUDIENCE") []);
      auth_url = endpoint_or (env e (codes "OIDC_AUTHORIZATION_URL") []) issuer (codes "/auth");
      token_url = endpoint_or (env e (codes "OIDC_TOKEN_URL") []) issuer (codes "/token");
    }

-- `Ready`.
unfoldable pub ready : ClientConfig → Bool
ready c =
    not (is_nil c.client_id)
    && not (is_nil c.client_secret)
    && not (is_nil c.auth_url)
    && not (is_nil c.token_url)
    && not (is_nil c.redirect_uri)

abbrev pub Values : Type 0
Values = List (Text × Text)

unfoldable pub with_resource : ClientConfig → Values → Values
with_resource c q = if is_nil c.resource then q else q ++ (codes "resource", c.resource) ∷ []

-- What the client calls of Go's library and of the provider: a URL with the values set in its query,
-- the form encoding of values, a POST of a form (the status, and the body or the error of reading it),
-- and the JSON of the tokens.
pub record Provider : Type 0 where
  pub with_query : Text → Values → Result Text
  pub encode_form : Values → Text
  pub post_form : Text → Text → Result (ℕ × Result Text)
  pub decode_tokens : Text → Result Tokens

unfoldable pub authorize_values : ClientConfig → Text → Text → Values
unfolding with_resource
authorize_values c state nonce = with_resource c (
    (codes "client_id", c.client_id)
    ∷ (codes "redirect_uri", c.redirect_uri)
    ∷ (codes "response_type", codes "code")
    ∷ (codes "scope", c.scopes)
    ∷ (codes "state", state)
    ∷ (codes "nonce", nonce)
    ∷ [])

abbrev pub not_configured : Err
not_configured = failure (codes "oidc client not configured")

-- `AuthorizeURL`.
unfoldable pub authorize_url : Provider → ClientConfig → Text → Text → Result Text
unfolding authorize_values
authorize_url p c state nonce =
    if not (ready c)
    then err not_configured
    else p.with_query c.auth_url (authorize_values c state nonce)

unfoldable pub exchange_values : ClientConfig → Text → Values
unfolding with_resource
exchange_values c code = with_resource c (
    (codes "grant_type", codes "authorization_code")
    ∷ (codes "code", code)
    ∷ (codes "redirect_uri", c.redirect_uri)
    ∷ (codes "client_id", c.client_id)
    ∷ (codes "client_secret", c.client_secret)
    ∷ [])

unfoldable pub tokens_of : Result Tokens → Result Tokens
tokens_of (err e) = err (wrapped (codes "decode token response") e)
tokens_of (ok t) =
    if is_nil t.access_token
    then err (failure (codes "token response missing access_token"))
    else ok t

-- The body is cut after so many bytes.
abbrev pub response_limit : ℕ
response_limit = 2 ^ 20

unfoldable pub read_tokens : Provider → ℕ → Result Text → Result Tokens
unfolding tokens_of
read_tokens p status (err e) = err e
read_tokens p status (ok raw) =
    if not (status == 200)
    then err (failure (codes "token endpoint"))
    else tokens_of (p.decode_tokens (take response_limit raw))

unfoldable pub token_response : Provider → Result (ℕ × Result Text) → Result Tokens
unfolding read_tokens
token_response p (err e) = err (wrapped (codes "token request") e)
token_response p (ok (status, body)) = read_tokens p status body

-- `ExchangeCode`.
unfoldable pub exchange_code : Provider → ClientConfig → Text → Result Tokens
unfolding token_response exchange_values
exchange_code p c code =
    if not (ready c)
    then err not_configured
    else token_response p (p.post_form c.token_url (p.encode_form (exchange_values c code)))

-- The client as what the login pages ask of it.
abbrev pub oidc_client : Provider → ClientConfig → Oidc
oidc_client p c = record {
  ready = ready c;
  authorize_url = authorize_url p c;
  exchange_code = exchange_code p c;
}
