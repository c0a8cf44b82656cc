-- ===== src/Gateway/Resolver/Laws.antt =====
-- That the user the Gateway is told is the one the subject is mapped to.
use ting_boundless.Httpx.{internal_token_ok, internal_auth}
use ting_boundless.Base.{
  sym, text_eq_iff, ◌≢◌, if◌then◌else◌, [], text_eq, ◌&&◌, subst, codes, ap, Option, Bool-cases,
  ◌∙◌, some, none, arith, not, is_nil, if-both, ◌||◌, Text, ℕ, List, ◌==◌, ◌⊎◌, ◌≡◌, refl, inr, inl,
  false,
}
use ting_boundless.Base.Results.{Result, err, ok}
use ting_boundless.Accounts.Api.{
  resolved, failed, ResolveReply, resolve_decoded, ResolveRequest, serve_resolve, answered_with,
}
use ting_boundless.Gateway.Resolver.{
  headers_of, call_route, resolve, Client, resolve_logto, user_of, status_and_body, read_response,
  Wire, route,
}
use ting_boundless.Http.{x_request_id, get, Headers, ErrorReply, write_error}
use ting_boundless.Accounts.{Store, resolve_provider_user}
use ting_boundless.Accounts.Validity.{IsValid}
use ting_boundless.Accounts.Growth.{HasUser, Maps}
use ting_boundless.Accounts.Laws.{resolve_provider_user-Maps}
use ting_boundless.Gateway.Authenticate.{map_platform_user_id}
use ting_boundless.Identity.{Identity}

-- What auth-service answers: an error, or the user that `ResolveProviderUser` returned.
abbrev Answers : Result (List ℕ) → ResolveRequest → Store → ResolveReply × Store → Type 0
Answers random req s out =
    ((e : ErrorReply) × (out.0 ≡ failed e) × ((e.status == 200) ≡ false))
    ⊎ ((x : Text) × (out.0 ≡ resolved x)
        × (resolve_provider_user random req.provider req.provider_uid s ≡ (ok x, out.1)))

answered_with-Answers :
    (random : Result (List ℕ)) (req : ResolveRequest) (rid : Text) (s : Store)
    (r : Result Text × Store)
    → resolve_provider_user random req.provider req.provider_uid s ≡ r
    → Answers random req s (answered_with rid r)
unfolding answered_with write_error
answered_with-Answers random req rid s (ok x, t) h = inr (x, refl, h)
answered_with-Answers random req rid s (err e, t) h = inl (_, refl, refl)

resolve_decoded-Answers :
    (random : Result (List ℕ)) (req : ResolveRequest) (rid : Text) (s : Store)
    → Answers random req s (resolve_decoded rid random (ok req) s)
unfolding resolve_decoded write_error
resolve_decoded-Answers random req rid s =
    if-both (Answers random req s) (is_nil req.provider || is_nil req.provider_uid) _ _
      (λ _. inl (_, refl, refl))
      (λ _.
        answered_with-Answers random req rid s
          (resolve_provider_user random req.provider req.provider_uid s) refl)

route-Answers :
    (wire : Wire) (token : Text) (random : Result (List ℕ)) (h : Headers) (body : Text)
    (req : ResolveRequest) (s : Store)
    → wire.decode_request body ≡ ok req
    → Answers random req s (route wire token random h body s)
unfolding route internal_auth serve_resolve write_error
route-Answers wire token random h body req s d =
    if-both (Answers random req s) (is_nil token) _ _ (λ _. inl (_, refl, refl))
      (λ _.
        if-both (Answers random req s) (not (internal_token_ok h token)) _ _
          (λ _. inl (_, refl, refl))
          (λ _. rw d (resolve_decoded-Answers random req (get h x_request_id) s)))

-- What the client makes of an answer.
read_response-ok :
    (wire : Wire) (post : Text → Headers → Text → Store → Result (ℕ × Text) × Store)
    (random : Result (List ℕ)) (req : ResolveRequest) (s : Store) (out : ResolveReply × Store)
    {x : Text}
    → ((y : Text) → wire.decode_user (wire.encode_user y) ≡ ok y)
    → Answers random req s out
    → (read_response wire post (status_and_body wire out)).0 ≡ ok x
    → resolve_provider_user random req.provider req.provider_uid s
      ≡ (ok x, (read_response wire post (status_and_body wire out)).1)
unfolding read_response status_and_body user_of
read_response-ok wire post random req s (failed e, t) u (inl (f, p, q)) h =
    let n : (e.status == 200) ≡ false = ground (arith, p, q) in absurd (ground (arith, n, h))
read_response-ok wire post random req s (failed e, t) u (inr (y, p, q)) h =
    absurd (ground (arith, p))
read_response-ok wire post random req s (resolved z, t) u (inl (f, p, q)) h =
    absurd (ground (arith, p))
read_response-ok wire post random req s (resolved z, t) {x} u (inr (y, p, q)) h =
    elim (Bool-cases (is_nil z)) [
      | inl b ↦ absurd (ground (arith, u z, b, h))
      | inr b ↦
          let first : y ≡ z = ground (arith, p) in
          let second : z ≡ x = ground (arith, u z, b, h) in q ∙ ap (λ v. (ok v, t)) (first ∙ second)
    ]

module _ (wire : Wire) (token : Text) (random : Result (List ℕ))
    (round_trip : (req : ResolveRequest) → wire.decode_request (wire.encode_request req) ≡ ok req)
    (user_round_trip : (x : Text) → wire.decode_user (wire.encode_user x) ≡ ok x) where
  abbrev pub asked : Option Client → Text → Text → Store → Result Text × Store
  asked c sub rid s = resolve_logto wire (call_route wire token random) c sub rid s

  resolve_logto-ok :
      (c : Option Client) (sub rid : Text) (s : Store) {x : Text}
      → (asked c sub rid s).0 ≡ ok x
      → resolve_provider_user random (codes "logto") sub s ≡ (ok x, (asked c sub rid s).1)
  unfolding resolve_logto resolve call_route
  resolve_logto-ok none sub rid s h = absurd (ground (arith, h))
  resolve_logto-ok (some c) sub rid s h =
      let req : ResolveRequest = record { provider = codes "logto"; provider_uid = sub } in
      let h' = headers_of c rid in
      read_response-ok wire (call_route wire token random) random req s
        (route wire token random h' (wire.encode_request req) s) user_round_trip
        (route-Answers wire token random h' (wire.encode_request req) req s (round_trip req)) h

  -- When the Gateway's client of auth-service is told a user, over the route of auth-service whatever
  -- the tokens on both sides are, the tables of the identity store were valid before, and what is read of
  -- the JSON is what was written: the provider `logto` and the subject are mapped to that user afterwards,
  -- the user exists, and the tables are valid again.
  pub resolve_logto-Maps :
      (c : Option Client) (sub rid : Text) (s : Store) {x : Text}
      → IsValid s.tables
      → (asked c sub rid s).0 ≡ ok x
      → Maps (codes "logto") sub x (asked c sub rid s).1.tables
        × HasUser x (asked c sub rid s).1.tables
        × IsValid (asked c sub rid s).1.tables
  resolve_logto-Maps c sub rid s {x} v h =
      let e = resolve_logto-ok c sub rid s h in
      let (w, m) = resolve_provider_user-Maps random (codes "logto") sub s v in
      let (n, u) = m x (ap (λ o. o.0) e) in
      subst (λ o. Maps (codes "logto") sub x o.1.tables × HasUser x o.1.tables × IsValid o.1.tables)
        e (n, u, w)

  -- The Gateway's mapping over the client and the route, whatever the tokens on both sides are, where
  -- what is read of the JSON is what was written and the tables of the identity store were valid. An
  -- identity with a subject that has no user id, or its subject as the user id, and for which
  -- auth-service answers a user gets that user's id; the store maps the subject under the provider
  -- `logto` to it afterwards, and the user exists.
  pub map_platform_user_id-Maps :
      (c : Option Client) (id : Identity) (rid : Text) (s : Store) {x : Text}
      → IsValid s.tables
      → id.subject ≢ []
      → (id.user_id ≡ []) ⊎ (id.user_id ≡ id.subject)
      → (asked c id.subject rid s).0 ≡ ok x
      → let mapped = map_platform_user_id (some (λ sub r. (asked c sub r s).0)) id rid in
        (mapped ≡ record id { user_id = x })
        × Maps (codes "logto") id.subject mapped.user_id (asked c id.subject rid s).1.tables
        × HasUser mapped.user_id (asked c id.subject rid s).1.tables
  unfolding map_platform_user_id
  map_platform_user_id-Maps c id rid s {x} v n u h =
      let (m, has, w) = resolve_logto-Maps c id.subject rid s v h in
      subst
        (λ i.
          (i ≡ record id { user_id = x })
          × Maps (codes "logto") id.subject i.user_id (asked c id.subject rid s).1.tables
          × HasUser i.user_id (asked c id.subject rid s).1.tables)
        (sym (asks (asked c id.subject rid s).0 h)) (refl, m, has)
    where
      asks :
          (answer : Result Text)
          → answer ≡ ok x
          → (if is_nil id.subject
              then id
              else if not (is_nil id.user_id) && not (text_eq id.user_id id.subject)
              then id
              else elim answer [ ok user ↦ record id { user_id = user } | err e ↦ id ])
            ≡ record id { user_id = x }
      asks answer q = ground (arith, q, n, u, text_eq_iff id.user_id id.subject)
