-- ===== src/Storage/Encode.antt =====
-- The encoding of paths and queries for signatures: the end of go/pkg/storage/presign.go.
pub mod Laws
use ting_boundless.Base.{
  split, map, codes, leb, join, is_nil, has_prefix, Bool, ltb, List, Text, ℕ, ◌==◌, ◌||◌, ◌&&◌, ◌%◌,
  ◌/◌, ◌-◌, ◌+◌, ◌++◌, ◌∷◌, if◌then◌else◌, [],
}

-- The UTF-8 of one code point, and of a text.
unfoldable pub utf8_of : ℕ → List ℕ
utf8_of c =
    if ltb c 0x80
    then c ∷ []
    else if ltb c 0x800
    then (0xC0 + c / 64) ∷ (0x80 + c % 64) ∷ []
    else if ltb c 0x10000
    then (0xE0 + c / 4096) ∷ (0x80 + c / 64 % 64) ∷ (0x80 + c % 64) ∷ []
    else (0xF0 + c / 262144) ∷ (0x80 + c / 4096 % 64) ∷ (0x80 + c / 64 % 64) ∷ (0x80 + c % 64) ∷ []

unfoldable pub utf8 : Text → List ℕ
unfolding utf8_of
utf8 [] = []
utf8 (c ∷ s) = utf8_of c ++ utf8 s

-- The bytes that `awsURIEncode` leaves.
unfoldable pub is_unreserved : ℕ → Bool
is_unreserved c =
    leb b'A' c && leb c b'Z'
    || leb b'a' c && leb c b'z'
    || leb b'0' c && leb c b'9'
    || c == b'_'
    || c == b'-'
    || c == b'.'
    || c == b'~'

unfoldable pub upper_digit : ℕ → ℕ
upper_digit n = if ltb n 10 then n + b'0' else n - 10 + b'A'

unfoldable pub encode_byte : ℕ → Text
unfolding is_unreserved upper_digit
encode_byte c =
    if is_unreserved c then c ∷ [] else b'%' ∷ upper_digit (c / 16) ∷ upper_digit (c % 16) ∷ []

unfoldable pub encode_bytes : List ℕ → Text
unfolding encode_byte
encode_bytes [] = []
encode_bytes (c ∷ s) = encode_byte c ++ encode_bytes s

-- `awsURIEncode`.
unfoldable pub aws_uri_encode : Text → Text
unfolding utf8 encode_bytes
aws_uri_encode s = encode_bytes (utf8 s)

unfoldable pub with_slash : Text → Text
with_slash path = if has_prefix path (codes "/") then path else b'/' ∷ path

-- `awsCanonicalURI`.
unfoldable pub aws_canonical_uri : Text → Text
unfolding with_slash aws_uri_encode
aws_canonical_uri path =
    if is_nil path
    then codes "/"
    else with_slash (join (map aws_uri_encode (split (with_slash path) b'/')) b'/')

unfoldable pub query_part : Text × Text → Text
unfolding aws_uri_encode
query_part (k, v) = aws_uri_encode k ++ b'=' ∷ aws_uri_encode v

-- `buildCanonicalQuery`.
unfoldable pub build_canonical_query : List (Text × Text) → Text
unfolding query_part
build_canonical_query pairs = join (map query_part pairs) b'&'
