-- ===== src/Gateway/Proxy/Longest.antt =====
-- Routing as the table says it, whatever the order in which the table was walked.
use ting_boundless.Base.{
  eq_of_text_eq, Bool-cases, text_eq_refl, text_eq, subst, ◌∷◌, refl, [], codes, has_prefix, ap,
  sym, arith, Option-cases, prefix_unique, Text, List, ◌∙◌, ◌↔◌, ◌⊎◌, ◌≡◌, inr, inl, false, some,
}
use ting_boundless.Base.Results.{>>=-eq-ok, Result, ok}
use ting_boundless.Gateway.Proxy.{
  proxied, target_of, unrouted, parse_all, directed, upstream, keys, sort_by_length, Router,
  first_match, routed, serve, new,
}
use mathlib.Core.List.{Memᴰ}
use ting_boundless.Gateway.Proxy.Routing.{
  first_match-eq-none, mem-sort, sort-IsSorted, first_match-IsLongest, IsLongest,
}
use ting_boundless.Http.{not_found, x_request_id, write_error, Request, get}

new-eq-ok :
    (parse : Text → Result (Unit {0})) (routes : List (Text × Text)) (token : Text)
    (router : Router)
    → new parse routes token ≡ ok router
    → (router.prefixes ≡ sort_by_length (keys routes))
      × (router.internal_token ≡ token)
      × (router.targets ≡ routes)
unfolding new
new-eq-ok parse routes token router h = ground (
  arith,
  (>>=-eq-ok (parse_all parse routes)
      (λ _. ok (record {
        prefixes = sort_by_length (keys routes);
        targets = routes;
        internal_token = token;
      }))
      h).2,
)

first_match-sort-IsLongest :
    (ks : List Text) (path p : Text)
    → first_match (sort_by_length ks) path ≡ some p
    → IsLongest ks path p
first_match-sort-IsLongest ks path p h =
    let (m, k, longest) = first_match-IsLongest (sort_by_length ks) path p (sort-IsSorted ks) h in
    ((mem-sort p ks).0 m, k, λ q m'. longest q ((mem-sort q ks).1 m'))

-- A prefix of the table has a proxy, to an upstream that the table gives it.
target_of-Mem :
    (p : Text) (m : List (Text × Text))
    → Memᴰ p (keys m)
    → (t : Text) × (target_of p m ≡ some t) × Memᴰ (p, t) m
unfolding keys target_of
target_of-Mem p ((k, t) ∷ m) h = elim (Bool-cases (text_eq k p)) [
  | inl b ↦ rw b (t, refl, Memᴰ.head (ap (λ x. (x, t)) (sym (eq_of_text_eq k p b))))
  | inr b ↦ rw b (let (u, q, n) = target_of-Mem p m (later b h) in (u, q, Memᴰ.tail n))
]
  where
    later : text_eq k p ≡ false → Memᴰ p (k ∷ keys m) → Memᴰ p (keys m)
    later b (Memᴰ.head e) = absurd (ground (arith, b, ap (text_eq k) e, text_eq_refl k))
    later b (Memᴰ.tail n) = n
target_of-Mem p [] h = elim h [ ]

-- A request is routed in one of two ways. Either it goes to an upstream that the table gives the longest
-- route prefix that its path starts with, with the internal token set if there is one; or its path starts with no
-- route prefix, and 404 is answered.
pub serve_cases :
    (parse : Text → Result (Unit {0})) (routes : List (Text × Text)) (token : Text)
    (router : Router) (r : Request)
    → new parse routes token ≡ ok router
    → ((p target : Text) × IsLongest (keys routes) r.path p
        × Memᴰ (p, target) routes
        × (serve router r ≡ upstream target (directed token r)))
      ⊎ ((q : Text) → Memᴰ q (keys routes) → has_prefix r.path q ≡ false)
        × (serve router r
            ≡ unrouted (
                write_error
                  (get r.headers x_request_id)
                  (not_found (codes "route.not_found") (codes "no route"))))
unfolding serve routed proxied
serve_cases parse routes token router r h =
    let (ps, t, ts) = new-eq-ok parse routes token router h in
    let sorted = sort_by_length (keys routes) in
    elim (Option-cases (first_match sorted r.path)) [
      | inl e ↦ inr (
        λ q m. first_match-eq-none sorted r.path q e ((mem-sort q (keys routes)).1 m),
        ap (routed router r) (ap (λ l. first_match l r.path) ps ∙ e),
      )
      | inr (p, e) ↦
          let longest = first_match-sort-IsLongest (keys routes) r.path p e in
          let (target, q, m) = target_of-Mem p routes longest.0 in
          inl (
            p,
            target,
            longest,
            m,
            ap (routed router r) (ap (λ l. first_match l r.path) ps ∙ e)
                ∙ ap (proxied router.internal_token r) (ap (target_of p) ts ∙ q)
                ∙ ap (λ k. upstream target (directed k r)) t,
          )
    ]

IsLongest-unique :
    (ks ls : List Text) (path p q : Text)
    → ((x : Text) → Memᴰ x ks ↔ Memᴰ x ls)
    → IsLongest ks path p
    → IsLongest ls path q
    → p ≡ q
IsLongest-unique ks ls path p q same (m, h, up) (m', h', up') =
    prefix_unique path p q h h' (omega (arith, up q ((same q).1 m') h', up' p ((same p).0 m) h))

mem-keys : (p t : Text) (m : List (Text × Text)) → Memᴰ (p, t) m → Memᴰ p (keys m)
unfolding keys
mem-keys p t (q ∷ m) (Memᴰ.head e) = Memᴰ.head (ap (λ x. x.0) e)
mem-keys p t (q ∷ m) (Memᴰ.tail n) = Memᴰ.tail (mem-keys p t m n)
mem-keys p t [] h = elim h [ ]

-- The prefixes of a table are among those of another whose entries hold its own.
keys_among :
    (m n : List (Text × Text))
    → ((x : Text × Text) → Memᴰ x m → Memᴰ x n)
    → (p : Text) → Memᴰ p (keys m)
    → Memᴰ p (keys n)
keys_among m n same p h = let (t, q, i) = target_of-Mem p m h in mem-keys p t n (same (p, t) i)

-- Every prefix has one upstream, as in a Go map.
abbrev pub IsMap : List (Text × Text) → Type 0
IsMap m = (p t u : Text) → Memᴰ (p, t) m → Memᴰ (p, u) m → t ≡ u

-- Two routers that were built from one map of prefixes to upstreams, walked in any two orders, route every
-- request alike, to the same upstream: Go's random order of walking a map does not show.
pub serve_order_independent :
    (parse : Text → Result (Unit {0})) (routes routes' : List (Text × Text)) (token : Text)
    (router router' : Router) (r : Request)
    → IsMap routes
    → ((x : Text × Text) → Memᴰ x routes ↔ Memᴰ x routes')
    → new parse routes token ≡ ok router
    → new parse routes' token ≡ ok router'
    → serve router r ≡ serve router' r
serve_order_independent parse routes routes' token router router' r one same h h' =
    let there = keys_among routes routes' (λ x. (same x).0) in
    let back = keys_among routes' routes (λ x. (same x).1) in
    elim (serve_cases parse routes token router r h) [
      | inl (p, t, longest, m, e) ↦ elim (serve_cases parse routes' token router' r h') [
        | inl (q, u, longest', m', e') ↦
            let p_eq =
              IsLongest-unique (keys routes) (keys routes') r.path p q (λ x. (there x, back x))
                longest longest' in
            let t_eq =
              one p t u m (subst (λ k. Memᴰ (k, u) routes) (sym p_eq) ((same (q, u)).1 m')) in
            e ∙ ap (λ k. upstream k (directed token r)) t_eq ∙ sym e'
        | inr (nothing, e') ↦ absurd (ground (arith, nothing p (there p longest.0), longest.1))
      ]
      | inr (nothing, e) ↦ elim (serve_cases parse routes' token router' r h') [
        | inl (q, u, longest', m', e') ↦
            absurd (ground (arith, nothing q (back q longest'.0), longest'.1))
        | inr (nothing', e') ↦ e ∙ sym e'
      ]
    ]
