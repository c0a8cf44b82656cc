-- ===== src/Audit/Query/Laws.antt =====
-- Who is shown a listing of audit events, and what it holds.
use ting_boundless.Audit.{Event}
use ting_boundless.Http.{Request}
use mathlib.Core.List.{Memᴰ}
use ting_boundless.Base.{
  text_eq, is_nil, eq_of_text_eq, ◌∷◌, refl, false, codes, Option, Bool, sym, length, arith, subst,
  Bool-cases, List, Text, ◌∙◌, ◌≤◌, ◌⊎◌, ◌≢◌, ◌≡◌, inr, inl, true, some, [],
}
use ting_boundless.Base.Results.{Result, err, ok}
use ting_boundless.Audit.Query.{
  failed, page, listing, context_identity, filter_of, listed, filtered_by, ListFilter, audit_events,
  serve_query, Reader, is_selected, list,
}
use ting_boundless.Audit.Query.Rows.{row_limit_bounds, IsCollation}
use ting_boundless.Audit.Query.Reads.{read_rows-Reads, Reads-IsListing, only_details, IsListing}
use ting_boundless.Identity.{Identity, from_headers}
use ting_boundless.Httpx.Guards.{trusted_role_cases}

list-IsListing :
    (d : Reader) (f : ListFilter) (rows out : List Event)
    → IsCollation d.at_most
    → list d f rows ≡ ok out
    → IsListing d f rows out
unfolding list
list-IsListing d f rows out c h = elim (Bool-cases d.connected) [
  | inr b ↦ absurd (ground (arith, b, h))
  | inl b ↦ elim (Bool-cases d.answers) [
    | inr a ↦ absurd (ground (arith, b, a, h))
    | inl a ↦
        Reads-IsListing d f rows out c
          (read_rows-Reads d (page d.at_most f rows) out (ground (arith, b, a, h)))
  ]
]

-- An event is of the tenant or of none.
abbrev pub IsOwn : Text → Event → Type 0
IsOwn tenant e = (e.tenant_id ≡ tenant) ⊎ (e.tenant_id ≡ [])

nil_of_is_nil : (t : Text) → is_nil t ≡ true → t ≡ []
nil_of_is_nil [] h = refl
nil_of_is_nil (c ∷ t) h = ground (arith, h)

not_nil : (t : Text) → t ≢ [] → is_nil t ≡ false
not_nil [] n = absurd (n refl)
not_nil (c ∷ t) n = refl

selected-IsOwn :
    (f : ListFilter) (e : Event) → f.tenant_id ≢ [] → is_selected f e ≡ true → IsOwn f.tenant_id e
unfolding is_selected filtered_by
selected-IsOwn f e n h = elim (Bool-cases (text_eq e.tenant_id f.tenant_id)) [
  | inl b ↦ inl (eq_of_text_eq e.tenant_id f.tenant_id b)
  | inr b ↦ inr (nil_of_is_nil e.tenant_id (ground (arith, b, not_nil f.tenant_id n, h)))
]

shown-IsOwn :
    (d : Reader) (f : ListFilter) (rows out : List Event)
    → f.tenant_id ≢ []
    → IsListing d f rows out
    → (e : Event) → Memᴰ e out
    → IsOwn f.tenant_id e
shown-IsOwn d f rows out n l e m =
    let (s, k, h, q) = l.sound e m in
    subst (IsOwn f.tenant_id) (only_details d s e q) (selected-IsOwn f s n h)

listing_of :
    (rid : Text) (r : Result (List Event)) (out : List Event)
    → listed rid r ≡ listing out
    → r ≡ ok out
unfolding listed
listing_of rid (ok es) out h = ground (arith, h)
listing_of rid (err e) out h = absurd (ground (arith, h))

served_listing :
    (d : Reader) (has_events : Bool) (rows out : List Event) (id : Identity) (r : Request)
    → serve_query d has_events rows (some id) r ≡ listing out
    → list d (filter_of d id r) rows ≡ ok out
unfolding serve_query context_identity
served_listing d has_events rows out id r h = elim (Bool-cases (text_eq r.method (codes "GET"))) [
  | inr b ↦ absurd (ground (arith, b, h))
  | inl b ↦ elim (Bool-cases has_events) [
    | inr a ↦ absurd (ground (arith, b, a, h))
    | inl a ↦
        listing_of id.request_id (list d (filter_of d id r) rows) out (ground (arith, b, a, h))
  ]
]

-- A request to `GET /v1/audit/events` that is answered with events carries an identity with a user and the
-- role `admin`; the events are rows of the table of that identity's tenant or of none, where it has a
-- tenant, that match the type and the source asked for; there are at most a hundred, the newest first, and
-- a row that matches is left out only for newer ones, when the page is full. The collation of the ids is
-- a total order.
pub audit_events-IsListing :
    (d : Reader) (has_events : Bool) (rows out : List Event) (ctx : Option Identity) (r : Request)
    → IsCollation d.at_most
    → audit_events d has_events rows ctx r ≡ listing out
    → let id = from_headers r.headers in
      (id.user_id ≢ [])
      × Memᴰ (codes "admin") id.roles
      × (length out ≤ 100)
      × (id.tenant_id ≢ [] → (e : Event) → Memᴰ e out → IsOwn id.tenant_id e)
      × IsListing d (filter_of d id r) rows out
unfolding audit_events filter_of
audit_events-IsListing d has_events rows out ctx r c h =
    elim (trusted_role_cases failed (codes "admin") (serve_query d has_events rows) ctx r) [
      | inr (inl (u, n, q)) ↦ absurd (ground (arith, q, h))
      | inr (inr (u, q)) ↦ absurd (ground (arith, q, h))
      | inl (u, n, m, q) ↦
          let f = filter_of d (from_headers r.headers) r in
          let l =
            list-IsListing d f rows out c
              (served_listing d has_events rows out (from_headers r.headers) r (sym q ∙ h)) in
          (
            u,
            m,
            omega (arith, l.bounded, row_limit_bounds f.limit),
            λ t e k. shown-IsOwn d f rows out t l e k,
            l,
          )
    ]
