-- ===== src/Jwt/DevToken/Laws.antt =====
-- That a development token is accepted under the configuration it was made with.
use mathlib.Core.List.{Memᴰ}
use ting_boundless.Base.{
  ap, arith, Bool-cases, ◌≤◌, ◌/◌, ◌*◌, ◌+◌, All, is_nil, sym, subst, Option, List, Text, ℕ, ◌∷◌,
  ◌⊎◌, ◌≡◌, refl, inr, inl, false, [],
}
use ting_boundless.Jwt.{
  validate_standard_claims, Verifier, dev_key, Library, validated, parse_with_hmac, verify_hmac,
  enabled, verify, scopes_claim, slice_of, string_slice_claim, map_claims, iss, Claim, Claims,
  string_claim, Config,
}
use ting_boundless.Jwt.DevToken.{dev_token, dev_claims, asked_audience, first_issuer}
use ting_boundless.Jwt.Issuer.{item_texts-text, read_claims, read_claim}
use ting_boundless.Jwt.Laws.{IsFor, validate_iff, IsAudience}
use ting_boundless.Base.Results.{Result, ok}

module _ (cfg : Config) (now : ℕ) (user tenant : Text) (roles : List Text) (ttl : ℕ) where
  abbrev pub dev_read : Claims
  dev_read = read_claims (dev_claims cfg now user tenant roles ttl)

  dev-identity :
      is_nil user ≡ false
      → All (λ s. is_nil s ≡ false) roles
      → map_claims dev_read ≡ record {
        request_id = [];
        user_id = user;
        tenant_id = tenant;
        roles = roles;
        scopes = [];
        subject = user;
      }
  unfolding dev_claims read_claims read_claim string_claim map_claims string_slice_claim slice_of
      scopes_claim
  dev-identity u r = rw (u, item_texts-text roles r) refl

issuer_listed :
    (is : List Text) (c : Claims)
    → c.claim iss ≡ read_claim (first_issuer is)
    → (is ≡ []) ⊎ Memᴰ (string_claim c iss) is
unfolding first_issuer read_claim string_claim
issuer_listed [] c h = inl refl
issuer_listed (i ∷ is) c h = inr (rw (string_claim, h) (Memᴰ.head refl))

IsAudience-asked_audience :
    (a : Text) (o : Option Claim) → o ≡ read_claim (asked_audience a) → (a ≡ []) ⊎ IsAudience o a
unfolding asked_audience read_claim
IsAudience-asked_audience [] o h = inl refl
IsAudience-asked_audience (c ∷ a) o h = inr (subst (λ p. IsAudience p (c ∷ a)) (sym h) refl)

dev-IsFor :
    (cfg : Config) (now : ℕ) (user tenant : Text) (roles : List Text) (ttl later : ℕ)
    → later ≤ (now + ttl) / 1000000000 * 1000000000
    → IsFor
        (record { config = cfg; has_jwks = false })
        later
        (dev_read cfg now user tenant roles ttl)
unfolding dev_claims read_claims
dev-IsFor cfg now user tenant roles ttl later fresh =
    let c = dev_read cfg now user tenant roles ttl in
    (
      issuer_listed cfg.issuers c refl,
      IsAudience-asked_audience cfg.audience (read_claim (asked_audience cfg.audience)) refl,
      fresh,
    )

-- A token made for development is accepted by a verifier of the same configuration that has no key set,
-- as the user, tenant and roles that it was made for, with no scopes and the user as its subject: where
-- the library reads back the claims that were signed by the secret, the token has not expired, and the
-- user and the roles are not empty.
pub verify-dev_token :
    (library : Library) (sign : Text → Claims → Result Text) (cfg : Config) (now later : ℕ)
    (user tenant : Text) (roles : List Text) (ttl : ℕ) (raw : Text)
    → (sign cfg.dev_secret (dev_claims cfg now user tenant roles ttl) ≡ ok raw
        → library.parse (dev_key cfg.dev_secret) raw ≡ ok (dev_read cfg now user tenant roles ttl))
    → later ≤ (now + ttl) / 1000000000 * 1000000000
    → is_nil user ≡ false
    → All (λ s. is_nil s ≡ false) roles
    → dev_token sign cfg now user tenant roles ttl ≡ ok raw
    → verify library (record { config = cfg; has_jwks = false }) later raw
      ≡ ok (record {
        request_id = [];
        user_id = user;
        tenant_id = tenant;
        roles = roles;
        scopes = [];
        subject = user;
      })
unfolding dev_token verify enabled verify_hmac parse_with_hmac validated
verify-dev_token library sign cfg now later user tenant roles ttl raw reads fresh u r h =
    elim (Bool-cases (is_nil cfg.dev_secret)) [
      | inl b ↦ absurd (ground (arith, b, h))
      | inr b ↦
          let c = dev_read cfg now user tenant roles ttl in
          let v : Verifier = record { config = cfg; has_jwks = false } in
          let p : library.parse (dev_key cfg.dev_secret) raw ≡ ok c =
            reads (ground (arith, b, h)) in
          let valid : validate_standard_claims v later c ≡ ok tt =
            (validate_iff v later c).1 (dev-IsFor cfg now user tenant roles ttl later fresh) in
          rw (b, p, valid) (ap ok (dev-identity cfg now user tenant roles ttl u r))
    ]
