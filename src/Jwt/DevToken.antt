-- ===== src/Jwt/DevToken.antt =====
-- The token for local development, go/pkg/auth/devtoken.go.
pub mod Laws
use ting_boundless.Base.{
  codes, is_nil, ℕ, Option, Text, List, ◌/◌, ◌*◌, ◌+◌, ◌∷◌, if◌then◌else◌, some, none, [],
}
use ting_boundless.Base.Results.{failure, Result, err}
use ting_boundless.Jwt.{ClaimName, Claim, Claims, Config}

unfoldable pub first_issuer : List Text → Option Claim
first_issuer [] = none
first_issuer (i ∷ is) = some (Claim.text i)

unfoldable pub asked_audience : Text → Option Claim
asked_audience a = if is_nil a then none else some (Claim.text a)

-- The claims; the time of issue, which nothing reads, is left out, and the expiration is in whole seconds.
unfoldable pub dev_claims : Config → ℕ → Text → Text → List Text → ℕ → Claims
unfolding first_issuer asked_audience
dev_claims cfg now user tenant roles ttl = record {
  claim = λ name. elim name [
    | ClaimName.sub ↦ some (Claim.text user)
    | ClaimName.user_id ↦ some (Claim.text user)
    | ClaimName.tenant_id ↦ some (Claim.text tenant)
    | ClaimName.roles ↦ some (Claim.texts roles)
    | ClaimName.scope ↦ none
    | ClaimName.scopes ↦ none
    | ClaimName.iss ↦ first_issuer cfg.issuers
    | ClaimName.aud ↦ asked_audience cfg.audience
  ];
  expiration = (now + ttl) / 1000000000 * 1000000000;
}

-- `DevToken`; `sign` signs claims by a secret with HS256.
unfoldable pub dev_token :
    (Text → Claims → Result Text) → Config → ℕ → Text → Text → List Text → ℕ → Result Text
unfolding dev_claims
dev_token sign cfg now user tenant roles ttl =
    if is_nil cfg.dev_secret
    then err (failure (codes "token is malformed"))
    else sign cfg.dev_secret (dev_claims cfg now user tenant roles ttl)
