-- ===== src/Trace/RoundTrip.antt =====
-- A traceparent that the code makes carries the trace id that the logs read back.
use ting_boundless.Trace.{
  second, new_traceparent, trace_id_from_parent, trace_id_of, lower_hex, hex_digit, hex, not_hex,
}
use ting_boundless.Base.{
  split_by-append, trim_space-append, trim_right-append, ap, split, trim_space, trim_right, Text,
  ◌∙◌, ◌++◌, codes, map, Lacks, any, All, ◌%◌, ◌/◌, ◌≢◌, refl, [], ◌∷◌, arith, ◌*◌, false, ◌≡◌,
  length, ◌<◌, ℕ, List, is_space,
}

hex_digit-lt : (n : ℕ) → n < 16 → not_hex (hex_digit n) ≡ false
unfolding not_hex hex_digit
hex_digit-lt n h = ground arith

hex_digit-ne-space :
    (n : ℕ)
    → n < 16
    → (is_space (hex_digit n) ≡ false)
      × (hex_digit n ≢ b'-')
      × (lower_hex (hex_digit n) ≡ hex_digit n)
unfolding is_space hex_digit lower_hex
hex_digit-ne-space n h = ground arith

length-hex : (bs : List ℕ) → length (hex bs) ≡ 2 * length bs
unfolding hex
length-hex [] = refl
length-hex (b ∷ bs) = omega (arith, length-hex bs)

-- Random bytes.
abbrev pub AreBytes : List ℕ → Type 0
AreBytes bs = All (λ b. b < 256) bs

-- What the characters of `hex` have in common.
hex_facts :
    (bs : List ℕ)
    → AreBytes bs
    → Lacks b'-' (hex bs) × (any not_hex (hex bs) ≡ false) × (map lower_hex (hex bs) ≡ hex bs)
unfolding hex any
hex_facts [] h = (tt, refl, refl)
hex_facts (b ∷ bs) (h, hs) =
    let (l, n, m) = hex_facts bs hs in
    let hi : b / 16 < 16 = omega arith in
    let lo : b % 16 < 16 = omega arith in
    let (s1, d1, e1) = hex_digit-ne-space (b / 16) hi in
    let (s2, d2, e2) = hex_digit-ne-space (b % 16) lo in
    ((d1, (d2, l)), rw (hex_digit-lt (b / 16) hi, hex_digit-lt (b % 16) lo) n, rw (e1, e2, m) refl)

trace_id_of-hex : (bs : List ℕ) → AreBytes bs → length bs ≡ 16 → trace_id_of (hex bs) ≡ hex bs
unfolding trace_id_of
trace_id_of-hex bs h e =
    let (_, n, m) = hex_facts bs h in
    let k : length (hex bs) ≡ 32 = omega (arith, length-hex bs) in rw (k, n) m

-- What follows the trace id.
abbrev after : List ℕ → Text
after span_id = b'-' ∷ (hex span_id ++ codes "-01")

trim_right-after : (span_id : List ℕ) → trim_right (after span_id) ≡ after span_id
unfolding codes trim_right
trim_right-after s = trim_right-append (b'-' ∷ hex s) (codes "-01") refl refl

trim_traceparent :
    (trace_id span_id : List ℕ)
    → trim_space (new_traceparent trace_id span_id) ≡ new_traceparent trace_id span_id
unfolding new_traceparent codes is_space
trim_traceparent t s =
    trim_space-append b'0' (b'0' ∷ b'-' ∷ hex t) (after s) refl refl (trim_right-after s)

split_traceparent :
    (id rest : Text)
    → Lacks b'-' id
    → split (codes "00-" ++ (id ++ b'-' ∷ rest)) b'-' ≡ codes "00" ∷ id ∷ split rest b'-'
unfolding split codes
split_traceparent id rest h =
    split_by-append b'-' (codes "00") (id ++ b'-' ∷ rest) (omega arith)
    ∙ ap (λ l. codes "00" ∷ l) (split_by-append b'-' id rest h)

-- The logs read back the trace id of a traceparent that the code makes: the hexadecimal digits of
-- its sixteen random bytes.
pub trace_id_from_parent-new :
    (trace_id span_id : List ℕ)
    → AreBytes trace_id
    → length trace_id ≡ 16
    → trace_id_from_parent (new_traceparent trace_id span_id) ≡ hex trace_id
unfolding trace_id_from_parent new_traceparent
trace_id_from_parent-new t s h e =
    ap (λ u. second (split u b'-')) (trim_traceparent t s)
    ∙ ap second (split_traceparent (hex t) (hex s ++ codes "-01") (hex_facts t h).0)
    ∙ trace_id_of-hex t h e
