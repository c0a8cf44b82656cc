-- ===== src/Jwt.antt =====
-- Token verification: go/pkg/auth/verifier.go, and go/pkg/config/placeholder.go, which its
-- configuration asks. The parsing and the signature check belong to the JWT library and are fields
-- of a record.
pub mod Laws
pub mod Issuer
pub mod DevToken
pub mod KeySet
use ting_boundless.Base.{
  ltb, contains, fields, split, trim_space, text_eq, any, not, is_nil, to_lower, codes, ℕ, Bool,
  Option, Text, List, ◌||◌, ◌&&◌, ◌++◌, ◌∷◌, ◌≡◌, if◌then◌else◌, false, true, some, none, [],
}
use ting_boundless.Base.Results.{◌>>=◌, failure, wrapped, Result, err, ok}
use ting_boundless.Httpx.{env, Environment}
use ting_boundless.Identity.{Identity}
use mathlib.Core.List.{Memᴰ}

-- `config.IsPlaceholder`.
abbrev markers : List Text
markers =
    codes "placeholder"
    ∷ codes "rm-xxx"
    ∷ codes "redis-placeholder"
    ∷ codes "oss-placeholder"
    ∷ codes "mq-placeholder"
    ∷ codes "example.invalid"
    ∷ []

unfoldable pub is_placeholder : Text → Bool
is_placeholder v =
    let s = to_lower (trim_space v) in if is_nil s then true else any (λ m. contains s m) markers

-- `Config`.
pub record Config : Type 0 where
  pub issuers : List Text
  pub jwks_urls : List Text
  pub audience : Text
  pub dev_secret : Text

-- `appendNonEmpty`.
append_non_empty : List Text → Text → List Text
append_non_empty list v = if is_nil v || is_placeholder v then list else list ++ (v ∷ [])

-- `ConfigFromEnv`.
unfoldable pub config_from_env : Environment → Config
unfolding append_non_empty
config_from_env e = record {
  issuers =
      append_non_empty (append_non_empty [] (env e (codes "OIDC_ISSUER") []))
        (env e (codes "AUTH_OIDC_ISSUER") []);
  jwks_urls =
      append_non_empty (append_non_empty [] (env e (codes "OIDC_JWKS_URL") []))
        (env e (codes "AUTH_JWKS_URL") []);
  audience = env e (codes "OIDC_AUDIENCE") [];
  dev_secret = env e (codes "GATEWAY_DEV_JWT_SECRET") [];
}

-- The claims that the code reads, and the dynamic types that it tells apart in their values.
pub data ClaimName : Type 0 where
  sub user_id tenant_id roles scope scopes iss aud : ClaimName

pub data Item : Type 0 where
  text : Text → Item
  other : Item

pub data Claim : Type 0 where
  text : Text → Claim
  texts : List Text → Claim  -- []string
  items : List Item → Claim  -- []any
  other : Claim

-- `jwt.MapClaims` of a token that was parsed with WithExpirationRequired, so that the expiration,
-- in nanoseconds here, is there.
pub record Claims : Type 0 where
  pub claim : ClaimName → Option Claim
  pub expiration : ℕ

-- `jwt.Parse` and `keyfunc`, with what they document: a token that parses names its algorithm, is
-- signed by the key that the key function gives for it (or by a key of the key set, with one of the
-- methods allowed), and carries the claims returned.
pub record Library : Type 1 where
  pub algorithm : Text → Text
  pub SignedBy : Text → Text → Type 0
  pub InKeySet : Text → Type 0
  pub parse : (Text → Result Text) → Text → Result Claims
  pub parse_jwks : List Text → Text → Result Claims
  pub parse-ok :
      (key_func : Text → Result Text) (raw : Text) (c : Claims)
      → parse key_func raw ≡ ok c
      → (k : Text) × (key_func (algorithm raw) ≡ ok k) × SignedBy k raw
  pub parse_jwks-ok :
      (methods : List Text) (raw : Text) (c : Claims)
      → parse_jwks methods raw ≡ ok c
      → Memᴰ (algorithm raw) methods × InKeySet raw

-- `Verifier`; `has_jwks` says that `jwks` is not nil.
pub record Verifier : Type 0 where
  pub config : Config
  pub has_jwks : Bool

new_verifier_with : Config → Result (Unit {0}) → Result Verifier
new_verifier_with cfg (ok _) = ok (record { config = cfg; has_jwks = true })
new_verifier_with cfg (err e) =
    if is_nil cfg.dev_secret
    then err (wrapped (codes "jwks") e)
    else ok (record { config = cfg; has_jwks = false })

-- `NewVerifier`; `loaded` is the outcome of loading the key sets.
unfoldable pub new_verifier : Config → Result (Unit {0}) → Result Verifier
unfolding new_verifier_with
new_verifier cfg loaded =
    if is_nil cfg.jwks_urls
    then ok (record { config = cfg; has_jwks = false })
    else new_verifier_with cfg loaded

-- `Verifier.Enabled`.
unfoldable pub enabled : Verifier → Bool
enabled v = v.has_jwks || not (is_nil v.config.dev_secret)

-- A claim as `claims[key].(string)`, empty where that fails: `stringClaim`.
unfoldable pub string_claim : Claims → ClaimName → Text
string_claim c key = elim (c.claim key) [
  | none ↦ []
  | some v ↦ elim v [ text s ↦ s | texts ss ↦ [] | items is ↦ [] | other ↦ [] ]
]

-- The strings among the items that are not empty, in order.
unfoldable pub item_texts : List Item → List Text
item_texts [] = []
item_texts (text s ∷ is) = if is_nil s then item_texts is else s ∷ item_texts is
item_texts (other ∷ is) = item_texts is

unfoldable pub slice_of : Option Claim → List Text
unfolding item_texts
slice_of none = []
slice_of (some (texts ss)) = ss
slice_of (some (items is)) = item_texts is
slice_of (some (text s)) = if is_nil s then [] else split s b','
slice_of (some other) = []

-- `stringSliceClaim`.
unfoldable pub string_slice_claim : Claims → ClaimName → List Text
unfolding slice_of
string_slice_claim c key = slice_of (c.claim key)

-- `scopesClaim`.
unfoldable pub scopes_claim : Claims → List Text
unfolding string_claim string_slice_claim
scopes_claim c =
    if is_nil (string_claim c scope)
    then string_slice_claim c scopes
    else fields (string_claim c scope)

-- `mapClaims`.
unfoldable pub map_claims : Claims → Identity
unfolding string_claim string_slice_claim scopes_claim
map_claims c = record {
  request_id = [];
  user_id = if is_nil (string_claim c user_id) then string_claim c sub else string_claim c user_id;
  tenant_id = string_claim c tenant_id;
  roles = string_slice_claim c roles;
  scopes = scopes_claim c;
  subject = string_claim c sub;
}

-- `issuerAllowed`.
unfoldable pub issuer_allowed : Text → List Text → Bool
issuer_allowed issuer allowed = any (λ want. text_eq issuer want) allowed

item_is : Text → Item → Bool
item_is want (text s) = text_eq s want
item_is want other = false

-- `audienceContains`.
unfoldable pub audience_contains : Option Claim → Text → Bool
unfolding item_is
audience_contains (some (text s)) want = text_eq s want
audience_contains (some (items is)) want = any (item_is want) is
audience_contains _ want = false

-- `validateStandardClaims`.
unfoldable pub validate_standard_claims : Verifier → ℕ → Claims → Result (Unit {0})
validate_standard_claims v now c =
    if not (is_nil v.config.issuers) && not (issuer_allowed (string_claim c iss) v.config.issuers)
    then err (failure (codes "jwt: issuer mismatch"))
    else if not (is_nil v.config.audience)
        && not (audience_contains (c.claim aud) v.config.audience)
    then err (failure (codes "jwt: audience mismatch"))
    else if ltb c.expiration now
    then err (failure (codes "jwt: expired"))
    else ok tt

-- The methods that parseWithJWKS allows.
abbrev pub key_set_methods : List Text
key_set_methods =
    codes "RS256"
    ∷ codes "RS384"
    ∷ codes "RS512"
    ∷ codes "ES256"
    ∷ codes "ES384"
    ∷ codes "ES512"
    ∷ []

-- The key function of parseWithHMAC.
unfoldable pub dev_key : Text → Text → Result Text
dev_key secret alg =
    if not (text_eq alg (codes "HS256"))
    then err (failure (codes "unexpected signing method"))
    else ok secret

module _ (library : Library) where
  open library use {parse, parse_jwks}

  unfoldable pub validated : Verifier → ℕ → Result Claims → Result Claims
  validated v now parsed = do c ← parsed; _ ← validate_standard_claims v now c; ok c

  -- `parseWithJWKS` and `parseWithHMAC`.
  unfoldable pub parse_with_jwks : Verifier → ℕ → Text → Result Claims
  parse_with_jwks v now raw = validated v now (parse_jwks key_set_methods raw)

  unfoldable pub parse_with_hmac : Verifier → ℕ → Text → Result Claims
  parse_with_hmac v now raw = validated v now (parse (dev_key v.config.dev_secret) raw)

  unfoldable pub verify_hmac : Verifier → ℕ → Text → Result Identity
  verify_hmac v now raw = do c ← parse_with_hmac v now raw; ok (map_claims c)

  -- `Verify` after the key set was tried.
  unfoldable pub verify_after : Verifier → ℕ → Text → Result Claims → Result Identity
  verify_after v now raw (ok c) = ok (map_claims c)
  verify_after v now raw (err e) =
      if is_nil v.config.dev_secret then err e else verify_hmac v now raw

  -- `Verify`. Where there is no key set, an enabled verifier has the development secret.
  unfoldable pub verify : Verifier → ℕ → Text → Result Identity
  verify v now raw =
      if not (enabled v)
      then err (failure (codes "jwt verifier not configured"))
      else if v.has_jwks
      then verify_after v now raw (parse_with_jwks v now raw)
      else verify_hmac v now raw
