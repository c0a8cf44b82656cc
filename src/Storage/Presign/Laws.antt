-- ===== src/Storage/Presign/Laws.antt =====
-- Where a signed link leads, for how long, and what its signature is of.
use ting_boundless.Base.{
  place, arranged, join, ◌/◌, ◌*◌, has_prefix, if-both, drop, All-append, All, suc, zero, [],
  trim_prefix, subst, codes, Bool-cases, Option, arith, ℕ, Text, ◌≤◌, ◌<◌, ◌^◌, ◌+◌, ◌++◌, ◌∷◌, ◌≡◌,
  refl, inr, inl, true, some, none,
}
use ting_boundless.Base.Results.{ok_eq, ok}
use ting_boundless.Storage.{enabled, object_path, origin, Client}
use ting_boundless.Storage.Presign.{
  presign_request, presign_query, nanos, signed_query, presign_get_url, presign_get_url_at,
  max_presign_expiry, lifetime,
}
use ting_boundless.Storage.Sign.{text_leb, credential_scope, signature, Signing}
use ting_boundless.Storage.Encode.Laws.{decode-aws_canonical_uri, IsUnicode, plain, percent_decode}
use ting_boundless.Storage.Encode.{
  utf8_of, is_unreserved, encode_byte, encode_bytes, query_part, build_canonical_query,
  aws_uri_encode, aws_canonical_uri, utf8,
}

-- A link to an object of the client, as the object storage checks it: under its origin, with a path that a
-- percent-decoder reads as the object's, a query that names a time and a number of seconds, and the
-- signature under the client's key of just that. The number of seconds is within seven days, and the time
-- reported as its end is that of the link up to a second, after it was made and no later than was
-- asked for.
pub record IsLink (signing : Signing) (itoa : ℕ → Text) (c : Client) (key : Text) (now expires : ℕ)
    (url : Text) (ends : ℕ) : Type 0 where
  pub uri : Text
  pub query : Text
  pub seconds : ℕ
  pub is_url :
      url
      ≡ origin c
        ++ uri
        ++ b'?'
          ∷ (query
              ++ codes "&X-Amz-Signature="
              ++ aws_uri_encode (
                  signature signing now c.secret_key c.region (
                    join
                      (codes "GET"
                        ∷ uri
                        ∷ query
                        ∷ (codes "host:" ++ c.host ++ codes "\n")
                        ∷ codes "host"
                        ∷ codes "UNSIGNED-PAYLOAD"
                        ∷ [])
                      b'\n')))
  pub is_query :
      query
      ≡ join
          (codes "X-Amz-Algorithm=AWS4-HMAC-SHA256"
            ∷ (codes "X-Amz-Credential="
                ++ aws_uri_encode (c.access_key ++ b'/' ∷ credential_scope signing now c.region))
            ∷ (codes "X-Amz-Date=" ++ aws_uri_encode (signing.amz_date now))
            ∷ (codes "X-Amz-Expires=" ++ aws_uri_encode (itoa seconds))
            ∷ codes "X-Amz-SignedHeaders=host"
            ∷ [])
          b'&'
  pub leads_to : percent_decode plain uri ≡ utf8 (object_path c key)
  pub within_week : seconds ≤ 7 * 24 * 3600
  pub ends_with_link : (now + seconds * nanos ≤ ends) × (ends < now + (seconds + 1) * nanos)
  pub after_now : now < ends
  pub as_asked : 0 < expires → expires < 2 ^ 63 → ends ≤ now + expires

All-drop : (P : ℕ → Type 0) (n : ℕ) (s : Text) → All P s → All P (drop n s)
All-drop P zero s h = h
All-drop P (suc n) [] h = tt
All-drop P (suc n) (c ∷ s) (h, hs) = All-drop P n s hs

object_path-IsUnicode :
    (c : Client) (key : Text) → IsUnicode c.bucket → IsUnicode key → IsUnicode (object_path c key)
unfolding object_path trim_prefix codes has_prefix
object_path-IsUnicode c key b k = (
  omega arith,
  All-append P c.bucket (b'/' ∷ trim_prefix key (codes "/")) b (
    omega arith,
    if-both (All P) (has_prefix key (codes "/")) (drop 1 key) key (λ _. All-drop P 1 key k)
        (λ _. k),
  ),
)
  where
    P : ℕ → Type 0
    P x = x < 0x200000

lifetime_bounds :
    (expires : ℕ)
    → (0 < lifetime expires)
      × (lifetime expires ≤ max_presign_expiry)
      × (0 < expires → expires < 2 ^ 63 → lifetime expires ≤ expires)
unfolding lifetime
lifetime_bounds expires = (ground arith, ground arith, λ p q. ground (arith, p, q))

whole_seconds :
    (n : ℕ)
    → n ≤ max_presign_expiry
    → (n / nanos ≤ 7 * 24 * 3600) × (n / nanos * nanos ≤ n) × (n < (n / nanos + 1) * nanos)
whole_seconds n h = (omega (arith, h), omega arith, omega arith)

module _ (signing : Signing) (itoa : ℕ → Text) where
  presign_query_lem :
      (c : Client) (expires now : ℕ)
      → presign_query signing itoa c expires now
        ≡ join
            (codes "X-Amz-Algorithm=AWS4-HMAC-SHA256"
              ∷ (codes "X-Amz-Credential="
                  ++ aws_uri_encode (c.access_key ++ b'/' ∷ credential_scope signing now c.region))
              ∷ (codes "X-Amz-Date=" ++ aws_uri_encode (signing.amz_date now))
              ∷ (codes "X-Amz-Expires=" ++ aws_uri_encode (itoa (expires / nanos)))
              ∷ codes "X-Amz-SignedHeaders=host"
              ∷ [])
            b'&'
  unfolding presign_query build_canonical_query query_part arranged place text_leb aws_uri_encode
      encode_bytes encode_byte is_unreserved utf8 utf8_of codes
  presign_query_lem c expires now = refl

  presign_get_url_at-IsLink :
      (c : Client) (key : Text) (expires now : ℕ)
      → IsUnicode c.bucket
      → IsUnicode key
      → let out = presign_get_url_at signing itoa c key (lifetime expires) now in
        IsLink signing itoa c key now expires out.0 out.1
  unfolding presign_get_url_at signed_query presign_request object_path
  presign_get_url_at-IsLink c key expires now b k =
      let (p, l, a) = lifetime_bounds expires in
      let (week, below, above) = whole_seconds (lifetime expires) l in
      record {
        uri = aws_canonical_uri (object_path c key);
        query = presign_query signing itoa c (lifetime expires) now;
        seconds = lifetime expires / nanos;
        is_url = refl;
        is_query = presign_query_lem c (lifetime expires) now;
        leads_to =
            decode-aws_canonical_uri (c.bucket ++ b'/' ∷ trim_prefix key (codes "/"))
              (object_path-IsUnicode c key b k).1;
        within_week = week;
        ends_with_link = (omega (arith, below), omega (arith, above));
        after_now = omega (arith, p);
        as_asked = λ h k. omega (arith, a h k);
      }

  -- A URL that is handed out leads to the object, and ends in time.
  pub presign_get_url-IsLink :
      (c : Option Client) (now expires : ℕ) (key url : Text) {ends : ℕ}
      → ((s : Client) → c ≡ some s → IsUnicode s.bucket)
      → IsUnicode key
      → presign_get_url signing itoa c now key expires ≡ ok (url, ends)
      → (s : Client) × (c ≡ some s)
        × (enabled c ≡ true)
        × IsLink signing itoa s key now expires url ends
  unfolding presign_get_url
  presign_get_url-IsLink none now expires key url u v h = absurd (ground (arith, h))
  presign_get_url-IsLink (some c) now expires key url {ends} u v h =
      elim (Bool-cases (enabled (some c))) [
        | inr b ↦ absurd (ground (arith, b, h))
        | inl b ↦
            let e : presign_get_url_at signing itoa c key (lifetime expires) now ≡ (url, ends) =
              ok_eq (ground (arith, b, h)) in
            (
              c,
              refl,
              b,
              subst (λ o. IsLink signing itoa c key now expires o.0 o.1) e
                  (presign_get_url_at-IsLink c key expires now (u c refl) v),
            )
      ]
