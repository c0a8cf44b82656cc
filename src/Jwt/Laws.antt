-- ===== src/Jwt/Laws.antt =====
-- What an accepted token guarantees, and that a good token is accepted.
use ting_boundless.Identity.{Identity}
use ting_boundless.Base.{
  Bool-cases, refl, inr, inl, text_eq_refl, any_of_mem, sym, subst, codes, text_eq, arith,
  mem_of_any, ap, List, text_eq_iff, ℕ, Text, Option, ◌≤◌, ◌↔◌, ◌⊎◌, ◌≢◌, ◌≡◌, true, some, none, [],
}
use ting_boundless.Base.Results.{>>=-eq-ok, Result, err, ok}
use ting_boundless.Jwt.{
  parse_with_hmac, enabled, verify_after, verify_hmac, parse_with_jwks, dev_key, map_claims, texts,
  items, verify, validated, aud, iss, key_set_methods, string_claim, Claims, Item, Claim, Library,
  validate_standard_claims, Verifier, issuer_allowed, audience_contains, item_is,
}
use mathlib.Core.List.{Memᴰ}

abbrev pub IsAudience : Option Claim → Text → Type 0
IsAudience (some (Claim.text s)) want = s ≡ want
IsAudience (some (items is)) want = Memᴰ (Item.text want) is
IsAudience _ want = ⊥

mem_of_item_is : (want : Text) (i : Item) → item_is want i ≡ true → i ≡ Item.text want
unfolding item_is
mem_of_item_is want (Item.text s) h = ap Item.text ((text_eq_iff s want).0 h)
mem_of_item_is want Item.other h = cc

audience_contains_iff :
    (c : Option Claim) (want : Text) → (audience_contains c want ≡ true) ↔ IsAudience c want
unfolding audience_contains
audience_contains_iff none want = (λ h. cc, λ h. absurd h)
audience_contains_iff (some (Claim.text s)) want = text_eq_iff s want
audience_contains_iff (some (texts ss)) want = (λ h. cc, λ h. absurd h)
audience_contains_iff (some Claim.other) want = (λ h. cc, λ h. absurd h)
audience_contains_iff (some (items is)) want = (
  λ h.
      let (i, m, e) = mem_of_any (item_is want) is h in
      subst (λ j. Memᴰ j is) (mem_of_item_is want i e) m,
  λ m. any_of_mem (item_is want) is m (text_eq_refl want),
)

issuer_allowed_iff :
    (i : Text) (allowed : List Text) → (issuer_allowed i allowed ≡ true) ↔ Memᴰ i allowed
unfolding issuer_allowed
issuer_allowed_iff i allowed = (
  λ h.
      let (w, m, e) = mem_of_any (λ want. text_eq i want) allowed h in
      subst (λ j. Memᴰ j allowed) (sym ((text_eq_iff i w).0 e)) m,
  λ m. any_of_mem (λ want. text_eq i want) allowed m (text_eq_refl i),
)

-- The claims are for this verifier: the issuer is one of the configured ones, the audience is the
-- configured one, each unless none is configured, and the token has not expired.
abbrev pub IsFor : Verifier → ℕ → Claims → Type 0
IsFor v now c =
    ((v.config.issuers ≡ []) ⊎ Memᴰ (string_claim c iss) v.config.issuers)
    × ((v.config.audience ≡ []) ⊎ IsAudience (c.claim aud) v.config.audience)
    × (now ≤ c.expiration)

pub validate_iff :
    (v : Verifier) (now : ℕ) (c : Claims)
    → (validate_standard_claims v now c ≡ ok tt) ↔ IsFor v now c
unfolding validate_standard_claims
validate_iff v now c = ground (
  arith,
  issuer_allowed_iff (string_claim c iss) v.config.issuers,
  audience_contains_iff (c.claim aud) v.config.audience,
)

module _ (library : Library) where
  open library use {algorithm, SignedBy, InKeySet, parse, parse_jwks, parse-ok, parse_jwks-ok}

  -- The token comes from the key set, by an allowed method, or it is an HS256 token under the
  -- development secret, which is configured.
  abbrev pub IsGenuine : Verifier → Text → Type 0
  IsGenuine v raw =
      (v.has_jwks ≡ true) × Memᴰ (algorithm raw) key_set_methods × InKeySet raw
      ⊎ (v.config.dev_secret ≢ [])
        × (algorithm raw ≡ codes "HS256")
        × SignedBy v.config.dev_secret raw

  validated_sound :
      (v : Verifier) (now : ℕ) (parsed : Result Claims) (c : Claims)
      → validated library v now parsed ≡ ok c
      → (parsed ≡ ok c) × IsFor v now c
  unfolding validated
  validated_sound v now (ok d) c h =
      let (u, checked, same) = >>=-eq-ok (validate_standard_claims v now d) (λ _. ok d) h in
      let e : d ≡ c = ground arith in
      (ap ok e, subst (IsFor v now) e ((validate_iff v now d).0 (ground arith)))
  validated_sound v now (err e) c h = cc

  dev_key_lem :
      (secret alg k : Text) → dev_key secret alg ≡ ok k → (alg ≡ codes "HS256") × (k ≡ secret)
  unfolding dev_key
  dev_key_lem secret alg k h = ground (arith, text_eq_iff alg (codes "HS256"))

  -- The claims are those of the token: the library parsed it under the key set, or with the development
  -- secret, which is configured.
  abbrev pub AreClaims : Verifier → Text → Claims → Type 0
  AreClaims v raw c =
      (v.has_jwks ≡ true) × (parse_jwks key_set_methods raw ≡ ok c)
      ⊎ (v.config.dev_secret ≢ []) × (parse (dev_key v.config.dev_secret) raw ≡ ok c)

  abbrev Accepted : Verifier → ℕ → Text → Identity → Type 0
  Accepted v now raw id =
      IsGenuine v raw × ((c : Claims) × AreClaims v raw c × IsFor v now c × (id ≡ map_claims c))

  jwks_sound :
      (v : Verifier) (now : ℕ) (raw : Text) (c : Claims)
      → v.has_jwks ≡ true
      → parse_with_jwks library v now raw ≡ ok c
      → Accepted v now raw (map_claims c)
  unfolding parse_with_jwks
  jwks_sound v now raw c j h =
      let (parsed, for) = validated_sound v now (parse_jwks key_set_methods raw) c h in
      let (method, inside) = parse_jwks-ok key_set_methods raw c parsed in
      (inl (j, method, inside), (c, inl (j, parsed), for, refl))

  hmac_sound :
      (v : Verifier) (now : ℕ) (raw : Text) (id : Identity)
      → v.config.dev_secret ≢ []
      → verify_hmac library v now raw ≡ ok id
      → Accepted v now raw id
  unfolding verify_hmac parse_with_hmac
  hmac_sound v now raw id n h =
      let secret = v.config.dev_secret in
      let (c, hmac, same) =
        >>=-eq-ok (parse_with_hmac library v now raw) (λ c. ok (map_claims c)) h in
      let (parsed, for) = validated_sound v now (parse (dev_key secret) raw) c hmac in
      let (k, key, signed) = parse-ok (dev_key secret) raw c parsed in
      let (alg, e) = dev_key_lem secret (algorithm raw) k key in
      (inr (n, alg, subst (λ t. SignedBy t raw) e signed), (c, inr (n, parsed), for, ground arith))

  after_sound :
      (v : Verifier) (now : ℕ) (raw : Text) (id : Identity) (tried : Result Claims)
      → v.has_jwks ≡ true
      → parse_with_jwks library v now raw ≡ tried
      → verify_after library v now raw tried ≡ ok id
      → Accepted v now raw id
  unfolding verify_after
  after_sound v now raw id (ok c) j p h =
      subst (λ t. Accepted v now raw t) (ground arith) (jwks_sound v now raw c j p)
  after_sound v now raw id (err e) j p h = hmac_sound v now raw id (ground arith) (ground arith)

  -- A token that `Verify` accepts is genuine, and the claims that the library parses from it are for this
  -- verifier: their issuer and audience are configured ones, each unless none is, and they have not expired. The
  -- identity returned is the one that these claims map to.
  pub verify_sound :
      (v : Verifier) (now : ℕ) (raw : Text) (id : Identity)
      → verify library v now raw ≡ ok id
      → IsGenuine v raw × ((c : Claims) × AreClaims v raw c × IsFor v now c × (id ≡ map_claims c))
  unfolding verify enabled
  verify_sound v now raw id h = elim (Bool-cases v.has_jwks) [
    | inl j ↦ after_sound v now raw id (parse_with_jwks library v now raw) j refl (ground arith)
    | inr j ↦ hmac_sound v now raw id (ground arith) (ground arith)
  ]

  -- A token that parses under the key set, where the verifier has one, and whose claims are for this
  -- verifier is accepted, as the identity that the claims map to.
  pub verify_complete :
      (v : Verifier) (now : ℕ) (raw : Text) (c : Claims)
      → v.has_jwks ≡ true
      → parse_jwks key_set_methods raw ≡ ok c
      → IsFor v now c
      → verify library v now raw ≡ ok (map_claims c)
  unfolding verify enabled parse_with_jwks validated verify_after
  verify_complete v now raw c j p f = ground (arith, (validate_iff v now c).1 f)
