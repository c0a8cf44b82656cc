-- ===== src/Gateway/Proxy/Routing.antt =====
-- The longest prefix wins, in whatever order the route table is walked.
use ting_boundless.Base.{
  sort_by-IsSorted, mem-sort_by, IsSorted, sym, ap, subst, ◌↔◌, refl, false, none, has_prefix,
  arith, Bool-cases, length, All, Text, ℕ, List, ◌≤◌, ◌∷◌, ◌≡◌, inr, inl, true, some, [],
}
use ting_boundless.Gateway.Proxy.{first_match, sort_by_length}
use mathlib.Core.List.{Memᴰ}

pub sort-IsSorted : (ps : List Text) → IsSorted length (sort_by_length ps)
unfolding sort_by_length
sort-IsSorted ps = sort_by-IsSorted length ps

pub mem-sort : (x : Text) (ps : List Text) → Memᴰ x (sort_by_length ps) ↔ Memᴰ x ps
unfolding sort_by_length
mem-sort x ps = mem-sort_by length ps

-- The key is the longest of the keys that the path starts with.
abbrev pub IsLongest : List Text → Text → Text → Type 0
IsLongest ks path p =
    Memᴰ p ks
    × (has_prefix path p ≡ true)
    × ((q : Text) → Memᴰ q ks → has_prefix path q ≡ true → length q ≤ length p)

le_of_All :
    {n : ℕ} (x : Text) (ps : List Text) → All (λ q. length q ≤ n) ps → Memᴰ x ps → length x ≤ n
le_of_All {n} x (p ∷ ps) (h, hs) (Memᴰ.head e) = subst (λ t. length t ≤ n) (sym e) h
le_of_All x (p ∷ ps) (h, hs) (Memᴰ.tail m) = le_of_All x ps hs m
le_of_All x [] h m = elim m [ ]

IsLongest-later :
    (p path x : Text) (ps : List Text)
    → has_prefix path p ≡ false
    → IsLongest ps path x
    → IsLongest (p ∷ ps) path x
IsLongest-later p path x ps h (m, k, longest) = (Memᴰ.tail m, k, upper)
  where
    upper : (q : Text) → Memᴰ q (p ∷ ps) → has_prefix path q ≡ true → length q ≤ length x
    upper q (Memᴰ.head e) j = absurd (ground (arith, ap (has_prefix path) e))
    upper q (Memᴰ.tail m') j = longest q m' j

IsLongest-here :
    (p path : Text) (ps : List Text)
    → has_prefix path p ≡ true
    → All (λ q. length q ≤ length p) ps
    → IsLongest (p ∷ ps) path p
IsLongest-here p path ps h s = (Memᴰ.head refl, h, upper)
  where
    upper : (q : Text) → Memᴰ q (p ∷ ps) → has_prefix path q ≡ true → length q ≤ length p
    upper q (Memᴰ.head e) j = rw e (omega arith)
    upper q (Memᴰ.tail m') j = le_of_All q ps s m'

pub first_match-IsLongest :
    (ps : List Text) (path p : Text)
    → IsSorted length ps
    → first_match ps path ≡ some p
    → IsLongest ps path p
unfolding first_match
first_match-IsLongest [] path p s h = cc
first_match-IsLongest (q ∷ qs) path p (s, ss) h = elim (Bool-cases (has_prefix path q)) [
  | inl e ↦ subst (λ t. IsLongest (q ∷ qs) path t) (ground arith) (IsLongest-here q path qs e s)
  | inr e ↦ IsLongest-later q path p qs e (first_match-IsLongest qs path p ss (ground arith))
]

pub first_match-eq-none :
    (ps : List Text) (path p : Text)
    → first_match ps path ≡ none
    → Memᴰ p ps
    → has_prefix path p ≡ false
unfolding first_match
first_match-eq-none (q ∷ qs) path p h (Memᴰ.head e) = ground (arith, ap (has_prefix path) e)
first_match-eq-none (q ∷ qs) path p h (Memᴰ.tail m) = first_match-eq-none qs path p (ground arith) m
first_match-eq-none [] path p h m = elim m [ ]
