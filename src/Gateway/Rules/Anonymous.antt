-- ===== src/Gateway/Rules/Anonymous.antt =====
-- What the rules for anonymous paths allow, and that no configuration of them is empty.
use ting_boundless.Base.{
  is_nil-append_one, All-append, is_nil, List, trim_space, split, text_eq_iff, ◌∷◌, false, [], sym,
  subst, mem_of_any, any, has_prefix-append, has_prefix-drop, arith, length, text_eq_refl, drop,
  text_eq, has_prefix, any_of_mem, Bool-cases, All, codes, Text, ◌++◌, ◌↔◌, ◌⊎◌, ◌≡◌, refl, inr,
  inl, true,
}
use ting_boundless.Gateway.Rules.{
  env, with_exact, parse_anon_prefixes, default_anon_env, Environment, resolve_anon_prefixes,
  is_empty, parse_parts, add_parts, add_exact, default_anon_prefixes, rooted, allows, add_part,
  AnonPrefixes,
}
use mathlib.Core.List.{Memᴰ}

-- What the default rules compute with.
default_computes : Unit {0}
unfolding default_anon_prefixes parse_parts add_parts add_part add_exact rooted split trim_space
    has_prefix codes is_empty
default_computes = tt

-- `Allows` holds exactly of a path that is an exact rule or that starts with a prefix rule.
pub allows_iff :
    (p : AnonPrefixes) (path : Text)
    → (allows p path ≡ true)
      ↔ (Memᴰ path p.exact ⊎ ((q : Text) × Memᴰ q p.prefix × ((rest : Text) × (path ≡ q ++ rest))))
allows_iff p path = (to, from)
  where
    from :
        (Memᴰ path p.exact ⊎ ((q : Text) × Memᴰ q p.prefix × ((rest : Text) × (path ≡ q ++ rest))))
        → allows p path ≡ true
    from (inl m) =
        unfold allows in rw (any_of_mem (λ e. text_eq path e) p.exact m (text_eq_refl path)) refl
    from (inr (q, m, (rest, e))) =
        unfold allows in
        ground
          (arith, any_of_mem (λ q. has_prefix path q) p.prefix m (rw e (has_prefix-append q rest)))

    to :
        allows p path ≡ true
        → (Memᴰ path p.exact
            ⊎ ((q : Text) × Memᴰ q p.prefix × ((rest : Text) × (path ≡ q ++ rest))))
    to h = elim (Bool-cases (any (λ e. text_eq path e) p.exact)) [
      | inl e ↦
          let (x, m, k) = mem_of_any (λ e. text_eq path e) p.exact e in
          inl (subst (λ t. Memᴰ t p.exact) (sym ((text_eq_iff path x).0 k)) m)
      | inr e ↦
          let (q, m, k) =
            mem_of_any (λ q. has_prefix path q) p.prefix (unfold allows in ground arith) in
          inr (q, m, (drop (length q) path, has_prefix-drop path q k))
    ]

-- A rule starts with a slash.
abbrev pub IsRooted : Text → Type 0
IsRooted path = (rest : Text) × (path ≡ codes "/" ++ rest)

rooted-IsRooted : (path : Text) → IsRooted (rooted path)
rooted-IsRooted path =
    unfold rooted in
    elim (Bool-cases (has_prefix path (codes "/"))) [
      | inl e ↦ rw e (drop (length (codes "/")) path, has_prefix-drop path (codes "/") e)
      | inr e ↦ rw e (path, refl)
    ]

abbrev pub IsWellFormed : AnonPrefixes → Type 0
IsWellFormed p = All IsRooted p.exact × All IsRooted p.prefix

rooted_one : (path : Text) → All IsRooted (rooted path ∷ [])
rooted_one path = (rooted-IsRooted path, tt)

add_part-IsWellFormed :
    (raw : Text) (out : AnonPrefixes) → IsWellFormed out → IsWellFormed (add_part raw out)
unfolding add_part add_exact
add_part-IsWellFormed raw out (he, hp) =
    let part = trim_space raw in
    let path = trim_space (drop 1 part) in
    elim (Bool-cases (is_nil part)) [
      | inl e ↦ rw e (he, hp)
      | inr e ↦ elim (Bool-cases (has_prefix part (codes "="))) [
        | inl x ↦ elim (Bool-cases (is_nil path)) [
          | inl b ↦ rw (e, x, b) (he, hp)
          | inr b ↦ rw (e, x, b) (All-append IsRooted out.exact _ he (rooted_one path), hp)
        ]
        | inr x ↦ rw (e, x) (he, All-append IsRooted out.prefix _ hp (rooted_one part))
      ]
    ]

add_parts-IsWellFormed :
    (parts : List Text) (out : AnonPrefixes) → IsWellFormed out → IsWellFormed (add_parts parts out)
unfolding add_parts
add_parts-IsWellFormed [] out h = h
add_parts-IsWellFormed (part ∷ parts) out h =
    add_parts-IsWellFormed parts (add_part part out) (add_part-IsWellFormed part out h)

parse_parts-IsWellFormed : (raw : Text) → IsWellFormed (parse_parts raw)
unfolding parse_parts
parse_parts-IsWellFormed raw = add_parts-IsWellFormed (split raw b',') _ (tt, tt)

default_not_empty : is_empty default_anon_prefixes ≡ false
unfolding default_computes
default_not_empty = refl

-- The rules are well formed, and there is one.
abbrev pub IsConfigured : AnonPrefixes → Type 0
IsConfigured p = IsWellFormed p × (is_empty p ≡ false)

default-IsConfigured : IsConfigured default_anon_prefixes
unfolding default_anon_prefixes
default-IsConfigured = (parse_parts-IsWellFormed default_anon_env, default_not_empty)

parse-IsConfigured : (text : Text) → IsConfigured (parse_anon_prefixes text)
unfolding parse_anon_prefixes
parse-IsConfigured text =
    let raw = trim_space text in
    elim (Bool-cases (is_nil raw)) [
      | inl e ↦ rw e default-IsConfigured
      | inr e ↦ elim (Bool-cases (is_empty (parse_parts raw))) [
        | inl x ↦ rw (e, x) default-IsConfigured
        | inr x ↦ rw (e, x) (parse_parts-IsWellFormed raw, x)
      ]
    ]

is_empty-with_exact :
    (path : Text) (p : AnonPrefixes) → is_empty p ≡ false → is_empty (with_exact path p) ≡ false
unfolding is_empty with_exact
is_empty-with_exact path p h = ground (arith, is_nil-append_one p.exact path)

with_exact-IsConfigured :
    (path : Text) (p : AnonPrefixes)
    → IsRooted path
    → IsConfigured p
    → IsConfigured (with_exact path p)
with_exact-IsConfigured path p r ((he, hp), n) = (
  unfold with_exact in
      elim (Bool-cases (any (λ e. text_eq e path) p.exact)) [
        | inl e ↦ rw e (he, hp)
        | inr e ↦ rw e (All-append IsRooted p.exact (path ∷ []) he (r, tt), hp)
      ],
  is_empty-with_exact path p n,
)

-- Whatever GATEWAY_ANON_PREFIXES and GATEWAY_BFF_DEV_LOGIN say, the Gateway has a rule, and each of
-- its rules starts with a slash: no rule is the empty prefix, which would let every path pass.
pub resolve_anon_prefixes-IsConfigured : (e : Environment) → IsConfigured (resolve_anon_prefixes e)
unfolding resolve_anon_prefixes
resolve_anon_prefixes-IsConfigured e =
    let parsed = parse-IsConfigured (env e (codes "GATEWAY_ANON_PREFIXES") []) in
    elim (Bool-cases (text_eq (env e (codes "GATEWAY_BFF_DEV_LOGIN") []) (codes "true"))) [
      | inl x ↦ rw x (
          with_exact-IsConfigured (codes "/sign-in/dev") _
            (codes "sign-in/dev", unfold codes in refl) parsed)
      | inr x ↦ rw x parsed
    ]
