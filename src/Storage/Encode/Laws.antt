-- ===== src/Storage/Encode/Laws.antt =====
-- That what was encoded is read back: percent-decoding (RFC 3986) undoes the encoding of a path.
use ting_boundless.Base.{
  split_not_nil, has_prefix, codes, subst, ==_iff, ap₂, push_head, map, is_nil, ltb, split_by,
  All-append, if-both, split, join, sym, ap, ◌∙◌, ◌%◌, ◌/◌, false, true, All, Bool-cases, arith,
  List, leb, Text, ℕ, ◌==◌, ◌<◌, ◌*◌, ◌-◌, ◌+◌, ◌++◌, ◌∷◌, ◌≡◌, if◌then◌else◌, refl, inr, inl, [],
}
use ting_boundless.Storage.Encode.{
  with_slash, aws_canonical_uri, aws_uri_encode, utf8, utf8_of, is_unreserved, encode_bytes,
  encode_byte, upper_digit,
}
use ting_boundless.Base.{append_assoc}

-- What a percent-decoder has read of the current byte.
pub data Reading : Type 0 where
  plain after_percent : Reading
  after_high : ℕ → Reading

unfoldable pub digit_value : ℕ → ℕ
digit_value c = if leb b'a' c then c - b'a' + 10 else if leb b'A' c then c - b'A' + 10 else c - b'0'

unfoldable pub read_char : Reading → ℕ → List ℕ × Reading
unfolding digit_value
read_char plain c = if c == b'%' then ([], after_percent) else (c ∷ [], plain)
read_char after_percent c = ([], after_high (digit_value c))
read_char (after_high h) c = ((16 * h + digit_value c) ∷ [], plain)

unfoldable pub percent_decode : Reading → Text → List ℕ
unfolding read_char
percent_decode p [] = []
percent_decode p (c ∷ s) = let (out, q) = read_char p c in out ++ percent_decode q s

digit_value-upper_digit : (n : ℕ) → n < 16 → digit_value (upper_digit n) ≡ n
unfolding digit_value upper_digit
digit_value-upper_digit n h = ground arith

unreserved_plain : (b : ℕ) → is_unreserved b ≡ true → (b == b'%') ≡ false
unfolding is_unreserved
unreserved_plain b u = ground (arith, u)

decode-encode_byte :
    (b : ℕ) (s : Text)
    → b < 256
    → percent_decode plain (encode_byte b ++ s) ≡ b ∷ percent_decode plain s
unfolding percent_decode encode_byte read_char
decode-encode_byte b s h = elim (Bool-cases (is_unreserved b)) [
  | inl u ↦ rw (u, unreserved_plain b u) refl
  | inr u ↦ rw u (ap (λ c. c ∷ percent_decode plain s) value)
]
  where
    value : 16 * digit_value (upper_digit (b / 16)) + digit_value (upper_digit (b % 16)) ≡ b
    value = omega (
      arith,
      digit_value-upper_digit (b / 16) (omega arith),
      digit_value-upper_digit (b % 16) (omega arith),
    )

decode-encode_bytes :
    (bs : List ℕ) (s : Text)
    → All (λ b. b < 256) bs
    → percent_decode plain (encode_bytes bs ++ s) ≡ bs ++ percent_decode plain s
unfolding encode_bytes
decode-encode_bytes [] s h = refl
decode-encode_bytes (b ∷ bs) s (h, hs) =
    ap (percent_decode plain) (append_assoc (encode_byte b) (encode_bytes bs) s)
    ∙ decode-encode_byte b (encode_bytes bs ++ s) h
    ∙ ap (λ r. b ∷ r) (decode-encode_bytes bs s hs)

-- The code points that UTF-8 has room for.
abbrev pub IsUnicode : Text → Type 0
IsUnicode s = All (λ c. c < 0x200000) s

utf8_of-bytes : (c : ℕ) → c < 0x200000 → All (λ b. b < 256) (utf8_of c)
unfolding utf8_of
utf8_of-bytes c h =
    if-both (All (λ b. b < 256)) (ltb c 0x80) _ _ (λ k. (ground arith, tt))
      (λ _.
        if-both (All (λ b. b < 256)) (ltb c 0x800) _ _ (λ k. (ground arith, (omega arith, tt)))
          (λ _.
            if-both (All (λ b. b < 256)) (ltb c 0x10000) _ _
              (λ k. (ground arith, (omega arith, (omega arith, tt))))
              (λ _. (omega arith, (omega arith, (omega arith, (omega arith, tt)))))))

utf8-bytes : (s : Text) → IsUnicode s → All (λ b. b < 256) (utf8 s)
unfolding utf8
utf8-bytes [] h = tt
utf8-bytes (c ∷ s) (h, hs) =
    All-append (λ b. b < 256) (utf8_of c) (utf8 s) (utf8_of-bytes c h) (utf8-bytes s hs)

-- A path encoded character by character, the slashes left.
encoded_char : ℕ → Text
encoded_char c = if c == b'/' then c ∷ [] else encode_bytes (utf8_of c)

encoded_path : Text → Text
unfolding encoded_char
encoded_path [] = []
encoded_path (c ∷ s) = encoded_char c ++ encoded_path s

encode_bytes-append : (s t : List ℕ) → encode_bytes (s ++ t) ≡ encode_bytes s ++ encode_bytes t
unfolding encode_bytes
encode_bytes-append [] t = refl
encode_bytes-append (b ∷ s) t =
    ap (λ r. encode_byte b ++ r) (encode_bytes-append s t)
    ∙ sym (append_assoc (encode_byte b) (encode_bytes s) (encode_bytes t))

join_push :
    (c : ℕ) (ps : List Text)
    → is_nil ps ≡ false
    → join (map aws_uri_encode (push_head c ps)) b'/'
      ≡ encode_bytes (utf8_of c) ++ join (map aws_uri_encode ps) b'/'
unfolding join aws_uri_encode utf8
join_push c [] n = absurd (ground arith)
join_push c (p ∷ []) n = encode_bytes-append (utf8_of c) (utf8 p)
join_push c (p ∷ q ∷ ps) n =
    ap (λ t. t ++ b'/' ∷ join (map aws_uri_encode (q ∷ ps)) b'/')
      (encode_bytes-append (utf8_of c) (utf8 p))
    ∙ append_assoc (encode_bytes (utf8_of c)) (encode_bytes (utf8 p))
        (b'/' ∷ join (map aws_uri_encode (q ∷ ps)) b'/')

join_slash :
    (ps : List Text)
    → is_nil ps ≡ false
    → join ([] ∷ map aws_uri_encode ps) b'/' ≡ b'/' ∷ join (map aws_uri_encode ps) b'/'
unfolding join
join_slash [] n = absurd (ground arith)
join_slash (p ∷ ps) n = refl

join-split : (s : Text) → join (map aws_uri_encode (split s b'/')) b'/' ≡ encoded_path s
unfolding split split_by encoded_path encoded_char join aws_uri_encode utf8 encode_bytes
join-split [] = refl
join-split (c ∷ s) = elim (Bool-cases (c == b'/')) [
  | inl b ↦ rw b (
      join_slash (split s b'/') (split_not_nil s b'/')
      ∙ ap₂ (λ d t. d ∷ t) (sym ((==_iff c b'/').0 b)) (join-split s))
  | inr b ↦ rw b (
      join_push c (split s b'/') (split_not_nil s b'/')
      ∙ ap (λ t. encode_bytes (utf8_of c) ++ t) (join-split s))
]

decode-encoded_path : (s : Text) → IsUnicode s → percent_decode plain (encoded_path s) ≡ utf8 s
unfolding percent_decode read_char encoded_path encoded_char utf8
decode-encoded_path [] h = refl
decode-encoded_path (c ∷ s) (h, hs) = elim (Bool-cases (c == b'/')) [
  | inl b ↦
      let e : c ≡ b'/' = (==_iff c b'/').0 b in
      subst (λ d. percent_decode plain (encoded_char d ++ encoded_path s) ≡ utf8_of d ++ utf8 s)
        (sym e) (unfold utf8_of in ap (λ t. b'/' ∷ t) (decode-encoded_path s hs))
  | inr b ↦ rw b (
      decode-encode_bytes (utf8_of c) (encoded_path s) (utf8_of-bytes c h)
      ∙ ap (λ t. utf8_of c ++ t) (decode-encoded_path s hs))
]

-- A path that starts with a slash is read back from its canonical URI by a percent-decoder.
pub decode-aws_canonical_uri :
    (s : Text) → IsUnicode s → percent_decode plain (aws_canonical_uri (b'/' ∷ s)) ≡ utf8 (b'/' ∷ s)
decode-aws_canonical_uri s h =
    ap (percent_decode plain) canonical ∙ decode-encoded_path (b'/' ∷ s) (omega arith, h)
  where
    slashed : with_slash (encoded_path (b'/' ∷ s)) ≡ encoded_path (b'/' ∷ s)
    slashed = unfold with_slash encoded_path encoded_char codes has_prefix in refl

    canonical : aws_canonical_uri (b'/' ∷ s) ≡ encoded_path (b'/' ∷ s)
    canonical =
        unfold aws_canonical_uri codes has_prefix in ap with_slash (join-split (b'/' ∷ s)) ∙ slashed
