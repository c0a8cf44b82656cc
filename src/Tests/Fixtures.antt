-- ===== src/Tests/Fixtures.antt =====
-- The inputs of the tests: a JWT library that signs a token by being equal to the key, a user, an
-- edge with a development secret, and the sets of definitions that compute.
use ting_boundless.Redis.Model.{Store}
use ting_boundless.Session
use ting_boundless.Revocation
use ting_boundless.Http.{Request, Headers}
use ting_boundless.Jwt.{
  dev_key, scopes_claim, string_slice_claim, string_claim, map_claims, enabled,
  validate_standard_claims, validated, parse_with_hmac, verify_hmac, verify, Verifier, Config,
  Library, Claims, Claim, ClaimName,
}
use ting_boundless.Base.{
  ◌^◌, ◌*◌, refl, join, split, trim_space, sym, trim_prefix, subst, text_eq_iff, has_prefix,
  mem_of_any, arith, keep, any, text_eq, String, List, Text, Option, codes, ◌&&◌, ◌∷◌, ◌≡◌,
  if◌then◌else◌, false, true, some, none, [],
}
use ting_boundless.Base.Results.{>>=-eq-ok, failure, Result, ◌>>=◌, err, ok}
use ting_boundless.Identity.{empty_identity, Identity}
use ting_boundless.Gateway.Authenticate.{Edge}
use mathlib.Core.List.{Memᴰ}

unfoldable pub texts_compute : Unit {0}
unfolding codes text_eq any keep has_prefix trim_prefix trim_space split join
texts_compute = tt

-- The claims of every token: the subject is Alice.
abbrev pub alice_claim : ClaimName → Option Claim
alice_claim ClaimName.sub = some (Claim.text (codes "alice"))
alice_claim _ = none

abbrev pub alice_claims : Claims
alice_claims = record { claim = alice_claim; expiration = 1000 }

unfoldable pub algorithm : Text → Text
algorithm raw = if text_eq raw (codes "rs") then codes "RS256" else codes "HS256"

abbrev refused {ℓ} : {A : Type ℓ} → Result A
refused = err (failure (codes "refused"))

abbrev checked_by : Text → Text → Result Claims
checked_by raw k = if text_eq k raw then ok alice_claims else refused

unfoldable pub parse : (Text → Result Text) → Text → Result Claims
unfolding algorithm
parse key_func raw = key_func (algorithm raw) >>= checked_by raw

unfoldable pub parse_jwks : List Text → Text → Result Claims
unfolding algorithm
parse_jwks methods raw =
    if any (λ m. text_eq (algorithm raw) m) methods && text_eq raw (codes "rs")
    then ok alice_claims
    else refused

pub parse-ok :
    (key_func : Text → Result Text) (raw : Text) (c : Claims)
    → parse key_func raw ≡ ok c
    → (k : Text) × (key_func (algorithm raw) ≡ ok k) × (k ≡ raw)
unfolding parse
parse-ok key_func raw c h =
    let (k, key, same) = >>=-eq-ok (key_func (algorithm raw)) (checked_by raw) h in
    (k, key, ground (arith, same, text_eq_iff k raw))

pub parse_jwks-ok :
    (methods : List Text) (raw : Text) (c : Claims)
    → parse_jwks methods raw ≡ ok c
    → Memᴰ (algorithm raw) methods × (raw ≡ codes "rs")
unfolding parse_jwks
parse_jwks-ok methods raw c h =
    let (m, inside, e) = mem_of_any (λ m. text_eq (algorithm raw) m) methods (ground arith) in
    (
      subst (λ t. Memᴰ t methods) (sym ((text_eq_iff (algorithm raw) m).0 e)) inside,
      (text_eq_iff raw (codes "rs")).0 (ground arith),
    )

unfoldable pub library : Library
unfolding algorithm parse parse_jwks
library = record {
  algorithm = algorithm;
  SignedBy = λ k raw. k ≡ raw;
  InKeySet = λ raw. raw ≡ codes "rs";
  parse = parse;
  parse_jwks = parse_jwks;
  parse-ok = parse-ok;
  parse_jwks-ok = parse_jwks-ok;
}

abbrev pub no_config : Config
no_config = record { issuers = []; jwks_urls = []; audience = []; dev_secret = codes "k" }

abbrev pub dev_verifier : Verifier
dev_verifier = record { config = no_config; has_jwks = false }

-- Alice as a verified token names her.
abbrev pub alice : Identity
alice = record empty_identity { user_id = codes "alice"; subject = codes "alice" }

abbrev pub no_headers : Headers
no_headers k = []

abbrev pub request_to : String → Headers → Option Text → Request
request_to path h cookie = record {
  method = codes "GET";
  path = codes path;
  headers = h;
  remote_addr = codes "192.0.2.1:1";
  query = λ k. [];
  cookie = λ k. cookie;
}

abbrev pub sessions : Session.Store
sessions = record {
  connected = true;
  ttl = 3600 * 10 ^ 9;
  cookie_name = codes "tb_session";
  prefix = codes "s:";
}

abbrev pub blocklist : Revocation.Store
blocklist = record { connected = true; prefix = codes "r:"; ttl = 0 }

abbrev pub edge : Edge
edge = record {
  verifier = some dev_verifier;
  sessions = some sessions;
  anon = record { exact = []; prefix = codes "/open/" ∷ [] };
  resolver = none;
  revocations = some blocklist;
  sensitive = codes "/v1/files/" ∷ [];
  has_audit = true;
}

abbrev pub empty_store : Store
empty_store k = none

pub alice_token : verify library dev_verifier 5 (codes "k") ≡ ok alice
unfolding texts_compute verify verify_hmac parse_with_hmac validated validate_standard_claims
    enabled map_claims string_claim string_slice_claim scopes_claim dev_key library
alice_token = refl

pub bob_token : verify library dev_verifier 5 (codes "bob") ≡ err (failure (codes "refused"))
unfolding texts_compute verify verify_hmac parse_with_hmac validated validate_standard_claims
    enabled map_claims string_claim string_slice_claim scopes_claim dev_key library
bob_token = refl
