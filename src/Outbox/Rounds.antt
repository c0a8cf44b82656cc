-- ===== src/Outbox/Rounds.antt =====
-- A round of the dispatcher as a sequence of steps: an event of some row is stored, or a row whose event
-- is stored is marked.
use ting_boundless.Base.Results.{
  Fate-cases, next_fate, is_err, Fate, Err, Result-cases, Result, err, ok, answered, refused, lost,
}
use ting_boundless.Audit.{
  body_limit, Event, Codec, store_event, emit, as_row, find_event, insert_unless,
}
use ting_boundless.Outbox.{
  or_first, post, is_published, dispatch_batch, oldest_first, pass, dispatch_once, batch,
  publish_all, publish_event, marked, mark, event_of, event_decoded, System, OutboxRow, publish_row,
  row_to_event,
}
use ting_boundless.Base.{
  mem_of_take, mem-reversed, mem-sort_by, mem-keep, sym, not, subst, keep, Option, is_nil,
  text_eq_refl, Bool-cases, arith, Option-cases, take, ap, List, Text, ◌∙◌, ◌∷◌, ◌≡◌, refl, inr,
  inl, false, true, some, none, [],
}
use mathlib.Core.List.{Memᴰ}
use ting_boundless.Outbox.Steps.{emit-Stores, Stores}

-- An event of that id is stored.
abbrev pub IsStored : Text → List Event → Type 0
IsStored id es = (e : Event) × (find_event id es ≡ some e)

-- The marks and the events that are reached from a system by its dispatcher.
pub data Steps (codec : Codec) (s : System) : List Text → List Event → Type 0 where
  here : Steps codec s s.published s.events
  stores :
      {ps : List Text} {es : List Event} (r : OutboxRow) (ev e : Event)
      → Memᴰ r s.rows
      → row_to_event codec r ≡ ok ev
      → as_row e ≡ as_row ev
      → Steps codec s ps es
      → Steps codec s ps (store_event e es)
  marks :
      {ps : List Text} {es : List Event} (r : OutboxRow)
      → Memᴰ r s.rows
      → IsStored r.id es
      → Steps codec s ps es
      → Steps codec s (r.id ∷ ps) es

abbrev pub Leads : Codec → System → System → Type 0
Leads codec s t = (t.rows ≡ s.rows) × Steps codec s t.published t.events

pub find_event-store : (e : Event) (es : List Event) → IsStored e.id (store_event e es)
unfolding store_event insert_unless find_event as_row
find_event-store e es = elim (Option-cases (find_event e.id es)) [
  | inl k ↦ rw k (as_row e, ground (arith, text_eq_refl e.id))
  | inr (f, k) ↦ rw k (f, k)
]

-- The id of a row's event is the row's.
pub row_to_event-id :
    (codec : Codec) (r : OutboxRow) {ev : Event} → row_to_event codec r ≡ ok ev → ev.id ≡ r.id
unfolding row_to_event event_decoded event_of
row_to_event-id codec r h = elim (Bool-cases (is_nil r.payload)) [
  | inl b ↦ ground (arith, b, h)
  | inr b ↦ elim (Result-cases (codec.object r.payload)) [
    | inl (o, q) ↦ ground (arith, b, q, h)
    | inr (e, q) ↦ absurd (ground (arith, b, q, h))
  ]
]

pub as_row-id : (e ev : Event) → as_row e ≡ as_row ev → e.id ≡ ev.id
unfolding as_row
as_row-id e ev h = ap (λ x. x.id) h

-- The next system, where only the marks or the events differ from the last one.
moved :
    (codec : Codec) (s t u : System)
    → Leads codec s t
    → u.rows ≡ t.rows
    → Steps codec s u.published u.events
    → Leads codec s u
moved codec s t u (h, g) k g' = (k ∙ h, g')

module _ (codec : Codec)
    (decodes : (ev e : Event)
      → codec.decode (take body_limit (codec.encode ev)) ≡ ok e
      → as_row e ≡ as_row ev) where
  mark-Leads :
      (s t : System) (r : OutboxRow)
      → Memᴰ r s.rows
      → IsStored r.id t.events
      → Leads codec s t
      → Leads codec s (mark r t).1
  unfolding mark pass is_published
  mark-Leads s t r m i (h, g) = elim (Fate-cases (next_fate t.turns)) [
    | inl f ↦ elim (Bool-cases (is_published t r)) [
      | inl b ↦ rw (f, b) (h, g)
      | inr b ↦ rw (f, b) (h, marks r m i g)
    ]
    | inr (inl f) ↦ rw f (h, g)
    | inr (inr f) ↦ elim (Bool-cases (is_published t r)) [
      | inl b ↦ rw (f, b) (h, g)
      | inr b ↦ rw (f, b) (h, marks r m i g)
    ]
  ]

  marked-Leads :
      (s t : System) (r : OutboxRow) (ev : Event) (out : Result (Unit {0}) × System)
      → Memᴰ r s.rows
      → row_to_event codec r ≡ ok ev
      → Leads codec s t
      → Stores codec decodes ev t (is_err out.0) out.1
      → Leads codec s (marked r out).1
  unfolding marked
  marked-Leads s t r ev (ok x, u) m q (h, g) (a, b, inl (c, d)) = absurd (ground arith)
  marked-Leads s t r ev (err x, u) m q (h, g) (a, b, inl (c, d)) = (a ∙ h, rw (b, c) g)
  marked-Leads s t r ev (err x, u) m q (h, g) (a, b, inr (e, c, d)) =
      (a ∙ h, rw (b, d) (stores r ev e m q c g))
  marked-Leads s t r ev (ok x, u) m q (h, g) (a, b, inr (e, c, d)) =
      mark-Leads s u r m (stored_of d) (a ∙ h, rw (b, d) (stores r ev e m q c g))
    where
      id_of : e.id ≡ r.id
      id_of = as_row-id e ev c ∙ row_to_event-id codec r q

      stored_of : u.events ≡ store_event e t.events → IsStored r.id u.events
      stored_of d =
          subst (λ es. IsStored r.id es) (sym d)
            (subst (λ i. IsStored i (store_event e t.events)) id_of (find_event-store e t.events))

  publish_row-Leads :
      (s t : System) (r : OutboxRow)
      → Memᴰ r s.rows
      → Leads codec s t
      → Leads codec s (publish_row codec r t).1
  unfolding publish_row publish_event
  publish_row-Leads s t r m l = elim (Result-cases (row_to_event codec r)) [
    | inr (e, q) ↦ rw q l
    | inl (ev, q) ↦ rw q (
        marked-Leads s t r ev (emit codec.encode (post codec) true ev t) m q l
          (emit-Stores codec decodes ev t))
  ]

  publish_all-Leads :
      (s t : System) (rs : List OutboxRow) (first : Option Err)
      → ((r : OutboxRow) → Memᴰ r rs → Memᴰ r s.rows)
      → Leads codec s t
      → Leads codec s (publish_all codec rs first t).1
  unfolding publish_all
  publish_all-Leads s t [] first sub l = l
  publish_all-Leads s t (r ∷ rs) first sub l =
      publish_all-Leads s (publish_row codec r t).1 rs (or_first first (publish_row codec r t).0)
        (λ x m. sub x (Memᴰ.tail m)) (publish_row-Leads s t r (sub r (Memᴰ.head refl)) l)

  -- The rows of a batch are rows of the table, not published.
  pub mem_of_batch :
      (s : System) {r : OutboxRow} → Memᴰ r (batch s) → Memᴰ r s.rows × (is_published s r ≡ false)
  unfolding batch oldest_first
  mem_of_batch s m =
      let kept = keep (λ r. not (is_published s r)) s.rows in
      let k =
        (mem-keep (λ r. not (is_published s r)) s.rows).0
          ((mem-sort_by (λ r. r.created_at) kept).0 ((mem-reversed _).0 (mem_of_take 50 _ m))) in
      (k.0, ground (arith, k.1))

  -- A round leads on, whatever becomes of its calls.
  pub dispatch_once-Leads : (s : System) → Leads codec s (dispatch_once codec s).1
  unfolding dispatch_once dispatch_batch pass
  dispatch_once-Leads s = by_fate (next_fate s.turns)
    where
      by_fate : (f : Fate) → Leads codec s (dispatch_batch codec f s).1
      by_fate answered =
          publish_all-Leads s (pass s) (batch s) none (λ r m. (mem_of_batch s m).0) (refl, here)
      by_fate refused = (refl, here)
      by_fate lost = (refl, here)
