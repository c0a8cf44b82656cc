-- ===== src/Storage/Sign.antt =====
-- The AWS signatures, version 4: `signS3Request` and the functions below it in go/pkg/storage/client.go.
pub mod Laws
use ting_boundless.Base.{
  any, map, has_prefix, Option, ltb, arranged, is_nil, join, codes, trim_space, keep, text_eq, Bool,
  ℕ, Text, List, ◌==◌, ◌||◌, ◌&&◌, ◌++◌, ◌∷◌, if◌then◌else◌, false, true, [],
}
use ting_boundless.Storage.{Url}
use ting_boundless.Trace.{hex}
use ting_boundless.Storage.Encode.{utf8}

-- What signing calls of Go's library: HMAC and SHA-256 on bytes, and the two formats of a UTC time.
pub record Signing : Type 0 where
  pub hmac : List ℕ → List ℕ → List ℕ
  pub sha256 : List ℕ → List ℕ
  pub amz_date : ℕ → Text
  pub date_stamp : ℕ → Text

-- `<=` on strings.
unfoldable pub text_leb : Text → Text → Bool
text_leb [] t = true
text_leb (c ∷ s) [] = false
text_leb (c ∷ s) (d ∷ t) = ltb c d || c == d && text_leb s t

-- The fields of an outgoing request's header: each name in lower case, and its value.
abbrev pub Fields : Type 0
Fields = List (Text × Text)

unfoldable pub field : Fields → Text → Text
field [] k = []
field ((j, v) ∷ h) k = let rest = field h k in if text_eq j k then v else rest

unfoldable pub set_field : Text → Text → Fields → Fields
set_field k v [] = (k, v) ∷ []
set_field k v ((j, w) ∷ h) =
    let rest = set_field k v h in if text_eq j k then (k, v) ∷ h else (j, w) ∷ rest

-- The parts of an outgoing request that the client sets.
pub record Outgoing : Type 0 where
  pub method : Text
  pub url : Url
  pub fields : Fields
  pub length : Option ℕ
  pub body : Text

unfoldable pub is_signed : Text → Bool
is_signed k =
    text_eq k (codes "host") || text_eq k (codes "content-type") || has_prefix k (codes "x-amz-")

-- `signedHeaderNames`.
unfoldable pub signed_header_names : Fields → List Text
unfolding is_signed
signed_header_names h =
    let names = keep is_signed (map (λ f. f.0) h) in
    if any (λ n. text_eq n (codes "host")) names then names else names ++ codes "host" ∷ []

unfoldable pub canonical_headers : Fields → List Text → Text
canonical_headers h [] = []
canonical_headers h (k ∷ ks) = k ++ b':' ∷ trim_space (field h k) ++ b'\n' ∷ canonical_headers h ks

unfoldable pub canonical_request : Outgoing → List Text → Text → Text
unfolding canonical_headers
canonical_request r names payload_hash =
    join
      (r.method
        ∷ (if is_nil r.url.escaped_path then codes "/" else r.url.escaped_path)
        ∷ r.url.raw_query
        ∷ canonical_headers r.fields names
        ∷ join names b';'
        ∷ payload_hash
        ∷ [])
      b'\n'

unfoldable pub with_host : Text → Fields → Fields
unfolding field set_field
with_host host h = if is_nil (field h (codes "host")) then set_field (codes "host") host h else h

-- The names in the order in which they are signed.
unfoldable pub signed_names : Outgoing → List Text
unfolding signed_header_names text_leb
signed_names r = arranged text_leb (signed_header_names r.fields)

module _ (signing : Signing) where
  open signing use {hmac, sha256, amz_date, date_stamp}

  -- `sha256Hex`.
  unfoldable pub sha256_hex : Text → Text
  sha256_hex t = hex (sha256 (utf8 t))

  -- `deriveSigningKey`.
  unfoldable pub derive_signing_key : Text → Text → Text → Text → List ℕ
  derive_signing_key secret date region service =
      hmac
        (hmac (hmac (hmac (utf8 (codes "AWS4" ++ secret)) (utf8 date)) (utf8 region))
          (utf8 service))
        (utf8 (codes "aws4_request"))

  unfoldable pub credential_scope : ℕ → Text → Text
  credential_scope now region = date_stamp now ++ b'/' ∷ region ++ codes "/s3/aws4_request"

  -- The signature of a canonical request.
  unfoldable pub signature : ℕ → Text → Text → Text → Text
  unfolding sha256_hex derive_signing_key credential_scope
  signature now secret region request = hex (
      hmac (derive_signing_key secret (date_stamp now) region (codes "s3")) (
        utf8 (
          join
            (codes "AWS4-HMAC-SHA256"
              ∷ amz_date now
              ∷ credential_scope now region
              ∷ sha256_hex request
              ∷ [])
            b'\n')))

  -- The fields that are signed: those of the request, with the date and the host.
  unfoldable pub dated : ℕ → Outgoing → Outgoing
  unfolding with_host set_field
  dated now r = record r {
    fields = with_host r.url.host (set_field (codes "x-amz-date") (amz_date now) r.fields);
  }

  unfoldable pub authorization_of : ℕ → Text → Text → Text → Text → List Text → Outgoing → Text
  unfolding signature canonical_request credential_scope
  authorization_of now access secret region payload_hash names r =
      codes "AWS4-HMAC-SHA256 Credential="
      ++ access
      ++ b'/' ∷ credential_scope now region
      ++ codes ", SignedHeaders="
      ++ join names b';'
      ++ codes ", Signature="
      ++ signature now secret region (canonical_request r names payload_hash)

  -- `signS3Request`.
  unfoldable pub sign_s3_request : ℕ → Text → Text → Text → Text → Outgoing → Outgoing
  unfolding dated authorization_of signed_names
  sign_s3_request now access secret region payload_hash r =
      let t = dated now r in
      record t {
        fields =
            set_field (codes "authorization")
              (authorization_of now access secret region payload_hash (signed_names t) t) t.fields;
      }
