-- ===== src/Storage/Presign.antt =====
-- Links to objects that are signed for some time: go/pkg/storage/presign.go. A `time.Duration` is an
-- int64, here its two's complement, and a time is in nanoseconds.
pub mod Laws
use ting_boundless.Base.{
  not, codes, arranged, join, Option, ltb, Text, leb, ℕ, ◌==◌, ◌||◌, ◌^◌, ◌/◌, ◌*◌, ◌+◌, ◌++◌, ◌∷◌,
  if◌then◌else◌, some, none, [],
}
use ting_boundless.Base.Results.{failure, Result, err, ok}
use ting_boundless.Storage.Sign.{signature, credential_scope, text_leb, Signing}
use ting_boundless.Storage.{enabled, object_path, origin, Client}
use ting_boundless.Storage.Encode.{aws_uri_encode, aws_canonical_uri, build_canonical_query}

abbrev pub nanos : ℕ
nanos = 10 ^ 9

abbrev pub max_presign_expiry : ℕ
max_presign_expiry = 7 * 24 * 3600 * nanos

-- The lifetime of a link: an hour where the one asked for is not positive, and at most seven days.
unfoldable pub lifetime : ℕ → ℕ
lifetime expires =
    if leb (2 ^ 63) expires || expires == 0
    then 3600 * nanos
    else if ltb max_presign_expiry expires
    then max_presign_expiry
    else expires

-- `itoa` is `strconv.Itoa`.
module _ (signing : Signing) (itoa : ℕ → Text) where
  open signing use {amz_date}

  -- The query of a link without its signature, its names in order.
  unfoldable pub presign_query : Client → ℕ → ℕ → Text
  presign_query c expires now = build_canonical_query (
      arranged (λ p q. text_leb p.0 q.0)
        ((codes "X-Amz-Algorithm", codes "AWS4-HMAC-SHA256")
          ∷ (codes "X-Amz-Credential", c.access_key ++ b'/' ∷ credential_scope signing now c.region)
          ∷ (codes "X-Amz-Date", amz_date now)
          ∷ (codes "X-Amz-Expires", itoa (expires / nanos))
          ∷ (codes "X-Amz-SignedHeaders", codes "host")
          ∷ []))

  -- The request that a link makes, in its canonical form.
  unfoldable pub presign_request : Client → Text → ℕ → ℕ → Text
  unfolding presign_query
  presign_request c key expires now =
      join
        (codes "GET"
          ∷ aws_canonical_uri (object_path c key)
          ∷ presign_query c expires now
          ∷ (codes "host:" ++ c.host ++ codes "\n")
          ∷ codes "host"
          ∷ codes "UNSIGNED-PAYLOAD"
          ∷ [])
        b'\n'

  -- The query of a link.
  unfoldable pub signed_query : Client → Text → ℕ → ℕ → Text
  unfolding presign_query presign_request
  signed_query c key expires now =
      presign_query c expires now
      ++ codes "&X-Amz-Signature="
      ++ aws_uri_encode
          (signature signing now c.secret_key c.region (presign_request c key expires now))

  -- `presignGetURLAt`.
  unfoldable pub presign_get_url_at : Client → Text → ℕ → ℕ → Text × ℕ
  unfolding signed_query
  presign_get_url_at c key expires now = (
    origin c ++ aws_canonical_uri (object_path c key) ++ b'?' ∷ signed_query c key expires now,
    now + expires,
  )

  -- `PresignGetURL`.
  unfoldable pub presign_get_url : Option Client → ℕ → Text → ℕ → Result (Text × ℕ)
  unfolding lifetime presign_get_url_at
  presign_get_url none now key expires = err (failure (codes "s3 client not configured"))
  presign_get_url (some c) now key expires =
      if not (enabled (some c))
      then err (failure (codes "s3 client not configured"))
      else ok (presign_get_url_at c key (lifetime expires) now)
