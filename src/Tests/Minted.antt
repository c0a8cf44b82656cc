-- ===== src/Tests/Minted.antt =====
-- A token of an issuer that a verifier with its key set reads.
use ting_boundless.Tests.Fixtures.{texts_compute}
use mathlib.Core.List.{Memᴰ}
use ting_boundless.Jwt.{key_set_methods, Library, Verifier, Claims, verify}
use ting_boundless.Jwt.Issuer.{signed_by, Keys, Issuer, access_token, minted, verify-access_token}
use ting_boundless.Base.{
  eq_of_text_eq, sym, subst, mem_of_any, text_eq, any, Bool-cases, arith, Text, List, codes, ◌∷◌,
  ◌≡◌, if◌then◌else◌, refl, inr, inl, true, some, none, [],
}
use ting_boundless.Base.Results.{Result, failure, err, ok}

abbrev keys : Keys
keys = record {
  Key = Unit {0};
  decode_pem = λ t. none;
  parse_pkcs1 = λ t. ok tt;
  parse_pkcs8 = λ t. ok none;
  generate = ok tt;
  sign = λ k kid c. ok (codes "rs");
}

abbrev issuer : Issuer keys
issuer = record { issuer = codes "auth"; audience = codes "app"; key = some tt; kid = codes "k" }

-- The claims of a user's token for one second.
abbrev user_claims : Claims
user_claims = minted keys issuer 0 (codes "u") [] (codes "user" ∷ []) 1_000_000_000

parse_user : List Text → Text → Result Claims
parse_user methods raw =
    if any (λ m. text_eq (codes "RS256") m) methods then ok user_claims else err (failure [])

parse_user-ok :
    (methods : List Text) (raw : Text) (c : Claims)
    → parse_user methods raw ≡ ok c
    → Memᴰ (codes "RS256") methods × Unit {0}
unfolding parse_user
parse_user-ok methods raw c h = elim (Bool-cases (any (λ m. text_eq (codes "RS256") m) methods)) [
  | inr b ↦ absurd (ground (arith, b, h))
  | inl b ↦
      let (m, inside, e) = mem_of_any (λ m. text_eq (codes "RS256") m) methods b in
      (subst (λ t. Memᴰ t methods) (sym (eq_of_text_eq (codes "RS256") m e)) inside, tt)
]

abbrev reader : Library
reader = record {
  algorithm = λ raw. codes "RS256";
  SignedBy = λ k raw. Unit {0};
  InKeySet = λ raw. Unit {0};
  parse = λ key_func raw. err (failure []);
  parse_jwks = parse_user;
  parse-ok = λ key_func raw c h. absurd (ground arith);
  parse_jwks-ok = parse_user-ok;
}

abbrev edge_verifier : Verifier
edge_verifier = record {
  config = record {
    issuers = codes "auth" ∷ [];
    jwks_urls = [];
    audience = codes "app";
    dev_secret = [];
  };
  has_jwks = true;
}

parse_minted : parse_user key_set_methods (codes "rs") ≡ ok user_claims
unfolding parse_user texts_compute
parse_minted = refl

verify-access_token_example :
    verify reader edge_verifier 500_000_000 (codes "rs")
    ≡ ok (record {
      request_id = [];
      user_id = codes "u";
      tenant_id = [];
      roles = codes "user" ∷ [];
      scopes = [];
      subject = codes "u";
    })
unfolding access_token signed_by codes
verify-access_token_example =
    verify-access_token keys reader issuer edge_verifier 0 500_000_000 (codes "u") []
      (codes "user" ∷ []) 1_000_000_000 (codes "rs") (λ k e h. parse_minted) refl refl
      (Memᴰ.head refl) (inr (refl, refl)) (omega arith) refl (refl, tt) refl
