-- ===== src/Httpx/Paths.antt =====
-- The paths of the access log: go/pkg/httpx/pathnorm.go.
pub mod Laws
use ting_boundless.Base.{
  has_prefix, split, map, join, length, is_none, text_eq, codes, not, leb, is_nil, Bool, Text,
  Option, ℕ, ◌==◌, ◌||◌, ◌&&◌, ◌∷◌, if◌then◌else◌, true, some, none, suc, zero, [],
}

-- `[0-9a-f]`, in either case.
unfoldable pub is_hex_char : ℕ → Bool
is_hex_char c = leb b'0' c && leb c b'9' || leb b'a' c && leb c b'f' || leb b'A' c && leb c b'F'

-- `[0-9a-z]` in either case, with the two code points outside ASCII that fold to k and s.
unfoldable pub is_id_char : ℕ → Bool
is_id_char c =
    leb b'0' c && leb c b'9'
    || leb b'a' c && leb c b'z'
    || leb b'A' c && leb c b'Z'
    || c == 0x17F
    || c == 0x212A

unfoldable pub is_digit : ℕ → Bool
is_digit c = leb b'0' c && leb c b'9'

unfoldable pub all_of : (ℕ → Bool) → Text → Bool
all_of p [] = true
all_of p (c ∷ s) = p c && all_of p s

-- What follows so many characters that pass the test, if the text starts with these.
unfoldable pub after_run : (ℕ → Bool) → ℕ → Text → Option Text
after_run p zero s = some s
after_run p (suc n) [] = none
after_run p (suc n) (c ∷ s) = let rest = after_run p n s in if p c then rest else none

unfoldable pub after_dash : Option Text → Option Text
after_dash none = none
after_dash (some []) = none
after_dash (some (c ∷ s)) = if c == b'-' then some s else none

unfoldable pub then_hex : ℕ → Option Text → Option Text
unfolding after_run is_hex_char
then_hex n none = none
then_hex n (some s) = after_run is_hex_char n s

-- Whether the text starts with a UUID.
unfoldable pub starts_uuid : Text → Bool
unfolding then_hex after_dash
starts_uuid s =
    let one = after_dash (then_hex 8 (some s)) in
    let two = after_dash (then_hex 4 one) in
    let three = after_dash (then_hex 4 two) in
    let four = after_dash (then_hex 4 three) in not (is_none (then_hex 12 four))

-- `uuidSegment.MatchString`.
unfoldable pub uuid_segment : Text → Bool
unfolding starts_uuid
uuid_segment [] = starts_uuid []
uuid_segment (c ∷ s) = starts_uuid (c ∷ s) || uuid_segment s

-- `idSegment.MatchString`.
unfoldable pub id_segment : Text → Bool
unfolding all_of is_id_char
id_segment s = leb 12 (length s) && all_of is_id_char s

-- `numSegment.MatchString`.
unfoldable pub num_segment : Text → Bool
unfolding all_of is_digit
num_segment s = not (is_nil s) && all_of is_digit s

unfoldable pub names_one : Text → Bool
unfolding uuid_segment id_segment num_segment
names_one s = uuid_segment s || id_segment s || num_segment s

unfoldable pub normalize_part : Text → Text
unfolding names_one
normalize_part s = if is_nil s then s else if names_one s then codes ":id" else s

-- `NormalizePath`.
unfoldable pub normalize_path : Text → Text
unfolding normalize_part
normalize_path path =
    if is_nil path || text_eq path (codes "/")
    then path
    else let out = join (map normalize_part (split path b'/')) b'/' in
      if has_prefix out (codes "/") then out else b'/' ∷ out
