-- ===== src/Jwt/Issuer.antt =====
-- The issuer of access tokens, go/pkg/auth/issuer.go, and that the verifier reads its tokens back.
use mathlib.Core.List.{Memᴰ}
use ting_boundless.Jwt.{
  scopes_claim, string_slice_claim, map_claims, string_claim, iss, aud, slice_of, item_texts, Item,
  key_set_methods, item_texts, key_set_methods, Item, Claims, Claim, ClaimName, Verifier, Library,
  verify,
}
use ting_boundless.Base.Results.{Result, ok, err, failure, wrapped}
use ting_boundless.Base.{
  sym, subst, arith, Option-cases, ◌∙◌, inr, inl, ap, not, All, map, is_nil, codes, Bool, List, ℕ,
  Option, Text, ◌≤◌, ◌/◌, ◌*◌, ◌+◌, ◌∷◌, ◌⊎◌, ◌≡◌, if◌then◌else◌, refl, false, true, some, none, [],
}
use ting_boundless.Jwt.Laws.{IsAudience, verify_complete}

-- What the issuer calls of Go's library: PEM, the two encodings of a private key (`none` is a key that is
-- not RSA), the generation of one, and the signature of claims by a key with RS256.
pub record Keys : Type 1 where
  pub Key : Type 0
  pub decode_pem : Text → Option Text
  pub parse_pkcs1 : Text → Result Key
  pub parse_pkcs8 : Text → Result (Option Key)
  pub generate : Result Key
  pub sign : Key → Text → Claims → Result Text

module _ (keys : Keys) where
  open keys use {Key, decode_pem, parse_pkcs1, parse_pkcs8, generate, sign}

  -- `Issuer`; `none` is a nil key.
  pub record Issuer : Type 0 where
    pub issuer : Text
    pub audience : Text
    pub key : Option Key
    pub kid : Text

  -- `IssuerConfig`.
  pub record IssuerConfig : Type 0 where
    pub issuer : Text
    pub audience : Text
    pub private_key_pem : Text
    pub generate_if_empty : Bool

  rsa_key : Result (Option Key) → Result (Key × Text)
  rsa_key (err e) = err (wrapped (codes "parse private key") e)
  rsa_key (ok none) = err (failure (codes "private key is not RSA"))
  rsa_key (ok (some k)) = ok (k, codes "auth-rsa-1")

  or_pkcs8 : Text → Result Key → Result (Key × Text)
  unfolding rsa_key
  or_pkcs8 block (ok k) = ok (k, codes "auth-rsa-1")
  or_pkcs8 block (err e) = rsa_key (parse_pkcs8 block)

  of_block : Option Text → Result (Key × Text)
  unfolding or_pkcs8
  of_block none = err (failure (codes "invalid AUTH_JWT_PRIVATE_KEY_PEM"))
  of_block (some block) = or_pkcs8 block (parse_pkcs1 block)

  generated : Result Key → Result (Key × Text)
  generated (ok k) = ok (k, codes "auth-dev-rsa")
  generated (err e) = err e

  -- `loadOrGenerateKey`.
  unfoldable pub load_or_generate_key : Text → Bool → Result (Key × Text)
  unfolding of_block generated
  load_or_generate_key pem allow_generate =
      if not (is_nil pem)
      then of_block (decode_pem pem)
      else if not allow_generate
      then err (failure (codes "AUTH_JWT_PRIVATE_KEY_PEM required in production"))
      else generated generate

  with_key : IssuerConfig → Result (Key × Text) → Result Issuer
  with_key cfg (err e) = err e
  with_key cfg (ok (k, kid)) =
      ok (record { issuer = cfg.issuer; audience = cfg.audience; key = some k; kid = kid })

  -- `NewIssuer`.
  unfoldable pub new_issuer : IssuerConfig → Result Issuer
  unfolding with_key
  new_issuer cfg = with_key cfg (load_or_generate_key cfg.private_key_pem cfg.generate_if_empty)

  unfoldable pub non_empty : Text → Option Claim
  non_empty t = if is_nil t then none else some (Claim.text t)

  -- The claims of an access token; the time of issue, which nothing reads, is left out, and the
  -- expiration is in whole seconds.
  unfoldable pub access_claims : Issuer → ℕ → Text → Text → List Text → ℕ → Claims
  unfolding non_empty
  access_claims i now user tenant roles ttl = record {
    claim = λ name. elim name [
      | ClaimName.sub ↦ some (Claim.text user)
      | ClaimName.user_id ↦ some (Claim.text user)
      | ClaimName.tenant_id ↦ some (Claim.text tenant)
      | ClaimName.roles ↦ some (Claim.texts roles)
      | ClaimName.scope ↦ none
      | ClaimName.scopes ↦ none
      | ClaimName.iss ↦ non_empty i.issuer
      | ClaimName.aud ↦ non_empty i.audience
    ];
    expiration = (now + ttl) / 1000000000 * 1000000000;
  }

  unfoldable pub signed_by : Issuer → Claims → Option Key → Result Text
  signed_by i c none = err (failure (codes "issuer not configured"))
  signed_by i c (some k) = sign k i.kid c

  -- `AccessToken`.
  unfoldable pub access_token : Issuer → ℕ → Text → Text → List Text → ℕ → Result Text
  unfolding signed_by
  access_token i now user tenant roles ttl =
      signed_by i (access_claims i now user tenant roles ttl) i.key

-- A claim as JSON gives it back: a slice of strings is one of any values.
unfoldable pub read_claim : Option Claim → Option Claim
read_claim (some (Claim.texts ss)) = some (Claim.items (map Item.text ss))
read_claim c = c

unfoldable pub read_claims : Claims → Claims
unfolding read_claim
read_claims c = record c { claim = λ name. read_claim (c.claim name) }

-- Roles that are not empty are read back.
pub item_texts-text :
    (ss : List Text) → All (λ s. is_nil s ≡ false) ss → item_texts (map Item.text ss) ≡ ss
unfolding item_texts
item_texts-text [] h = refl
item_texts-text (s ∷ ss) (h, hs) = rw h (ap (λ ts. s ∷ ts) (item_texts-text ss hs))

module _ (keys : Keys) (i : Issuer keys) (now : ℕ) (user tenant : Text) (roles : List Text)
    (ttl : ℕ) where
  abbrev pub minted : Claims
  minted = read_claims (access_claims keys i now user tenant roles ttl)

  minted-issuer : is_nil i.issuer ≡ false → string_claim minted iss ≡ i.issuer
  unfolding access_claims read_claims non_empty string_claim
  minted-issuer h = rw (string_claim, h) refl

  minted-audience : is_nil i.audience ≡ false → minted.claim aud ≡ some (Claim.text i.audience)
  unfolding access_claims read_claims non_empty
  minted-audience h = rw h refl

  minted-expiration : minted.expiration ≡ (now + ttl) / 1000000000 * 1000000000
  unfolding access_claims read_claims
  minted-expiration = refl

  minted-IsAudience :
      (want : Text)
      → (want ≡ []) ⊎ (want ≡ i.audience) × (is_nil i.audience ≡ false)
      → (want ≡ []) ⊎ IsAudience (minted.claim aud) want
  minted-IsAudience want (inl e) = inl e
  minted-IsAudience want (inr (e, n)) =
      inr (subst (λ c. IsAudience c want) (sym (minted-audience n)) (sym e))

  minted-identity :
      is_nil user ≡ false
      → All (λ s. is_nil s ≡ false) roles
      → map_claims minted ≡ record {
        request_id = [];
        user_id = user;
        tenant_id = tenant;
        roles = roles;
        scopes = [];
        subject = user;
      }
  unfolding access_claims read_claims non_empty string_claim map_claims string_slice_claim slice_of
      scopes_claim
  minted-identity u r = rw (u, item_texts-text roles r) refl

module _ (keys : Keys) (library : Library) where
  -- Minting a token and verifying it: where the verifier has a key set with which the library reads back
  -- the claims of the token from what the issuer's key signed, it allows the issuer's name, which is not empty,
  -- it asks for no audience or for the issuer's, which is not empty, the token has not expired, and
  -- the user and the roles are not empty, an access token is accepted as that user, tenant and
  -- roles, with no scopes, and the user as its subject.
  pub verify-access_token :
      (i : Issuer keys) (v : Verifier) (now later : ℕ) (user tenant : Text) (roles : List Text)
      (ttl : ℕ) (raw : Text)
      → ((k : keys.Key)
          → i.key ≡ some k
          → keys.sign k i.kid (access_claims keys i now user tenant roles ttl) ≡ ok raw
          → library.parse_jwks key_set_methods raw ≡ ok (minted keys i now user tenant roles ttl))
      → v.has_jwks ≡ true
      → is_nil i.issuer ≡ false
      → Memᴰ i.issuer v.config.issuers
      → (v.config.audience ≡ []) ⊎ (v.config.audience ≡ i.audience) × (is_nil i.audience ≡ false)
      → later ≤ (now + ttl) / 1000000000 * 1000000000
      → is_nil user ≡ false
      → All (λ s. is_nil s ≡ false) roles
      → access_token keys i now user tenant roles ttl ≡ ok raw
      → verify library v later raw
        ≡ ok (record {
          request_id = [];
          user_id = user;
          tenant_id = tenant;
          roles = roles;
          scopes = [];
          subject = user;
        })
  unfolding access_token signed_by
  verify-access_token i v now later user tenant roles ttl raw reads j named allowed fits fresh u r
        h =
      verify_complete library v later raw (minted keys i now user tenant roles ttl) j parsed (
        inr (
            subst (λ t. Memᴰ t v.config.issuers)
              (sym (minted-issuer keys i now user tenant roles ttl named)) allowed),
        minted-IsAudience keys i now user tenant roles ttl v.config.audience fits,
        subst (λ n. later ≤ n) (sym (minted-expiration keys i now user tenant roles ttl)) fresh,
      )
      ∙ ap ok (minted-identity keys i now user tenant roles ttl u r)
    where
      parsed : library.parse_jwks key_set_methods raw ≡ ok (minted keys i now user tenant roles ttl)
      parsed = elim (Option-cases i.key) [
        | inl n ↦ absurd (ground (arith, n, h))
        | inr (k, e) ↦ reads k e (ground (arith, e, h))
      ]
