-- ===== src/Jwt/KeySet.antt =====
-- The document of the issuer's public key: `JWKSJSON` of go/pkg/auth/issuer.go, and
-- go/services/auth-service/internal/jwks/handler.go.
use ting_boundless.Base.{Option, codes, ℕ, List, Text, some, none}
use ting_boundless.Base.Results.{failure, Result, err, ok}
use ting_boundless.Http.{x_request_id, get, internal, Request, write_error, ErrorReply}
use ting_boundless.Jwt.Issuer.{Issuer, Keys}

-- `jwkKey`.
pub record JwkKey : Type 0 where
  pub kty : Text
  pub use_for : Text
  pub alg : Text
  pub kid : Text
  pub n : Text
  pub e : Text

-- What the document is made with: the bytes of the modulus and of the exponent of a key, base64 for URLs
-- without padding, and the JSON of the set of one key.
pub record Document (Key : Type 0) : Type 0 where
  pub modulus : Key → List ℕ
  pub exponent : Key → List ℕ
  pub base64 : List ℕ → Text
  pub encode : JwkKey → Result Text

pub data KeySetReply : Type 0 where
  failed : ErrorReply → KeySetReply
  document : Text → KeySetReply  -- 200, for five minutes

module _ (keys : Keys) (d : Document keys.Key) where
  unfoldable pub jwk_of : Text → keys.Key → JwkKey
  jwk_of kid k = record {
    kty = codes "RSA";
    use_for = codes "sig";
    alg = codes "RS256";
    kid = kid;
    n = d.base64 (d.modulus k);
    e = d.base64 (d.exponent k);
  }

  unfoldable pub encoded_key : Text → Option keys.Key → Result Text
  unfolding jwk_of
  encoded_key kid none = err (failure (codes "issuer not configured"))
  encoded_key kid (some k) = d.encode (jwk_of kid k)

  -- `JWKSJSON`.
  unfoldable pub jwks_json : Issuer keys → Result Text
  unfolding encoded_key
  jwks_json i = encoded_key i.kid i.key

  unfoldable pub key_set_reply : Text → Result Text → KeySetReply
  key_set_reply rid (ok body) = document body
  key_set_reply rid (err e) =
      failed (write_error rid (internal (codes "auth.jwks_failed") (codes "could not build jwks")))

  -- `ServeHTTP`; `none` is a nil issuer.
  unfoldable pub serve_jwks : Option (Issuer keys) → Request → KeySetReply
  unfolding key_set_reply jwks_json
  serve_jwks none r = failed (
      write_error (get r.headers x_request_id)
        (internal (codes "auth.unavailable") (codes "jwks not configured")))
  serve_jwks (some i) r = key_set_reply (get r.headers x_request_id) (jwks_json i)
