-- ===== src/Trace.antt =====
-- W3C trace context: go/pkg/trace/traceparent.go.
pub mod RoundTrip
use ting_boundless.Base.{
  ℕ, ◌+◌, ◌-◌, ◌/◌, ◌%◌, Bool, true, false, not, ◌&&◌, ◌||◌, Option, none, some, List, [], ◌∷◌,
  ◌++◌, map, Text, codes, is_nil, any, length, trim_space, split, leb, ltb, ◌==◌, if◌then◌else◌,
}
use ting_boundless.Http.{Headers, get, set, traceparent}

-- One digit of `hex.EncodeToString`.
unfoldable pub hex_digit : ℕ → ℕ
hex_digit n = if ltb n 10 then n + b'0' else n - 10 + b'a'

-- `hex.EncodeToString`.
unfoldable pub hex : List ℕ → Text
unfolding hex_digit
hex [] = []
hex (b ∷ bs) = hex_digit (b / 16) ∷ hex_digit (b % 16) ∷ hex bs

-- The test that the loop over the trace id makes of a character it refuses.
unfoldable pub not_hex : ℕ → Bool
not_hex c = (ltb c b'0' || ltb b'9' c) && (ltb c b'a' || ltb b'f' c) && (ltb c b'A' || ltb b'F' c)

-- `strings.ToLower` on a text of hexadecimal digits.
lower_hex : ℕ → ℕ
lower_hex c = if leb b'A' c && leb c b'Z' then c + 32 else c

-- The length test and the loop over `parts[1]`.
unfoldable pub trace_id_of : Text → Text
unfolding not_hex lower_hex
trace_id_of id =
    if not (length id == 32) then [] else if any not_hex id then [] else map lower_hex id

second : List Text → Text
unfolding trace_id_of
second (p ∷ id ∷ ps) = trace_id_of id
second _ = []

-- `TraceIDFromParent`.
unfoldable pub trace_id_from_parent : Text → Text
unfolding second
trace_id_from_parent tp = second (split (trim_space tp) b'-')

-- `NewTraceparent`, from the sixteen and the eight random bytes that it draws.
unfoldable pub new_traceparent : List ℕ → List ℕ → Text
new_traceparent trace_id span_id =
    codes "00-" ++ (hex trace_id ++ (b'-' ∷ (hex span_id ++ codes "-01")))

-- `EnsureRequest`, from the bytes that a new traceparent would draw: the request's headers and the
-- response's, and the traceparent returned.
unfoldable pub ensure_request : List ℕ → List ℕ → Headers → Headers → Headers × Headers × Text
ensure_request trace_id span_id request response =
    let present = get request traceparent in
    let tp = if is_nil present then new_traceparent trace_id span_id else present in
    (
      if is_nil present then set request traceparent tp else request,
      set response traceparent tp,
      tp,
    )
