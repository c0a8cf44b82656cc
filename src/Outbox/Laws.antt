-- ===== src/Outbox/Laws.antt =====
-- That every row of the outbox reaches the audit table once, as its event.
use ting_boundless.Audit.{body_limit, Event, Codec, store_event, as_row, find_event, insert_unless}
use ting_boundless.Outbox.{is_published, dispatch_once, System, OutboxRow, row_to_event}
use ting_boundless.Outbox.Rounds.{
  dispatch_once-Leads, row_to_event-id, here, stores, marks, as_row-id, Steps, Leads, IsStored,
}
use ting_boundless.Base.{
  take, ap, ◌≢◌, eq_of_text_eq, Bool-cases, arith, sym, Option-cases, text_eq, subst, any, Text,
  List, ◌∙◌, ◌∷◌, ◌⊎◌, ◌≡◌, inr, inl, true, some, none, [],
}
use ting_boundless.Base.Results.{Fate, ok}
use mathlib.Core.List.{Memᴰ}

-- No two rows of the audit table have the same id.
abbrev pub HasUniqueIds : List Event → Type 0
HasUniqueIds [] = Unit
HasUniqueIds (e ∷ es) = (find_event e.id es ≡ none) × HasUniqueIds es

-- A stored event of the row's id is the row's event.
abbrev pub IsEventOf : Codec → OutboxRow → List Event → Type 0
IsEventOf codec r es =
    (e : Event)
    → find_event r.id es ≡ some e
    → (ev : Event) × (row_to_event codec r ≡ ok ev) × (e ≡ as_row ev)

-- Ids are unique in both tables, a stored event of a row's id is that row's event, and one is stored for
-- every id that is marked.
abbrev pub IsConsistent : Codec → System → Type 0
IsConsistent codec s =
    ((r q : OutboxRow) → Memᴰ r s.rows → Memᴰ q s.rows → r.id ≡ q.id → r ≡ q)
    × HasUniqueIds s.events
    × ((r : OutboxRow) → Memᴰ r s.rows → IsEventOf codec r s.events)
    × ((id : Text) → any (text_eq id) s.published ≡ true → IsStored id s.events)

store-HasUniqueIds :
    (e : Event) (es : List Event) → HasUniqueIds es → HasUniqueIds (store_event e es)
unfolding store_event insert_unless as_row
store-HasUniqueIds e es h = elim (Option-cases (find_event e.id es)) [
  | inl k ↦ rw k (k, h)
  | inr (f, k) ↦ rw k h
]

-- What a lookup finds after an event was stored: what it found before, or that event.
find-store_event :
    (id : Text) (e : Event) (es : List Event) {x : Event}
    → find_event id (store_event e es) ≡ some x
    → (find_event id es ≡ some x) ⊎ (e.id ≡ id) × (x ≡ as_row e)
unfolding store_event insert_unless as_row find_event
find-store_event id e es h = elim (Option-cases (find_event e.id es)) [
  | inr (f, k) ↦ inl (ground (arith, k, h))
  | inl k ↦ elim (Bool-cases (text_eq e.id id)) [
    | inl b ↦ inr (eq_of_text_eq e.id id b, ground (arith, k, b, h))
    | inr b ↦ inl (ground (arith, k, b, h))
  ]
]

pub IsStored-store :
    (id : Text) (e : Event) (es : List Event) → IsStored id es → IsStored id (store_event e es)
unfolding store_event insert_unless as_row find_event
IsStored-store id e es (x, h) = elim (Option-cases (find_event e.id es)) [
  | inr (f, k) ↦ rw k (x, h)
  | inl k ↦ elim (Bool-cases (text_eq e.id id)) [
    | inl b ↦ rw k (as_row e, ground (arith, b))
    | inr b ↦ rw k (x, ground (arith, b, h))
  ]
]

module _ (codec : Codec) (s : System) (c : IsConsistent codec s) where
  -- The part of consistency that steps could break.
  abbrev Kept : List Text → List Event → Type 0
  Kept ps es =
      HasUniqueIds es
      × ((r : OutboxRow) → Memᴰ r s.rows → IsEventOf codec r es)
      × ((id : Text) → any (text_eq id) ps ≡ true → IsStored id es)

  store-IsEventOf :
      (r q : OutboxRow) (ev e : Event) (es : List Event)
      → Memᴰ r s.rows
      → Memᴰ q s.rows
      → row_to_event codec r ≡ ok ev
      → as_row e ≡ as_row ev
      → IsEventOf codec q es
      → IsEventOf codec q (store_event e es)
  store-IsEventOf r q ev e es m n h k old x found = elim (find-store_event q.id e es found) [
    | inl f ↦ old x f
    | inr (i, g) ↦
        let same = c.0 r q m n (sym (row_to_event-id codec r h) ∙ sym (as_row-id e ev k) ∙ i) in
        (ev, subst (λ o. row_to_event codec o ≡ ok ev) same h, g ∙ k)
  ]

  mark-IsStored :
      (r : OutboxRow) (ps : List Text) (es : List Event)
      → IsStored r.id es
      → ((id : Text) → any (text_eq id) ps ≡ true → IsStored id es)
      → (id : Text) → any (text_eq id) (r.id ∷ ps) ≡ true
      → IsStored id es
  unfolding any
  mark-IsStored r ps es i old id h = elim (Bool-cases (text_eq id r.id)) [
    | inl b ↦ subst (λ j. IsStored j es) (sym (eq_of_text_eq id r.id b)) i
    | inr b ↦ old id (ground (arith, b, h))
  ]

  Steps-Kept : {ps : List Text} {es : List Event} → Steps codec s ps es → Kept ps es
  Steps-Kept here = (c.1, c.2, c.3)
  Steps-Kept (stores {ps} {es} r ev e m h k g) =
      let (u, v, w) = Steps-Kept g in
      (
        store-HasUniqueIds e es u,
        λ q n. store-IsEventOf r q ev e es m n h k (v q n),
        λ id i. IsStored-store id e es (w id i),
      )
  Steps-Kept (marks {ps} {es} r m i g) =
      let (u, v, w) = Steps-Kept g in (u, v, mark-IsStored r ps es i w)

  pub Leads-IsConsistent : (t : System) → Leads codec s t → IsConsistent codec t
  Leads-IsConsistent t (h, g) =
      let (u, v, w) = Steps-Kept g in
      (
        subst (λ rows. (r q : OutboxRow) → Memᴰ r rows → Memᴰ q rows → r.id ≡ q.id → r ≡ q) (sym h)
            c.0,
        u,
        λ r m. v r (subst (λ rows. Memᴰ r rows) h m),
        w,
      )

-- The systems that are reached from empty tables: by rounds, whatever becomes of their calls, by new rows
-- with a fresh id, and by events of other services, whose ids are not those of rows.
pub data Runs (codec : Codec) : System → Type 0 where
  start :
      (ts : List Fate) → Runs codec (record { rows = []; published = []; events = []; turns = ts })
  dispatched :
      {s : System} (ts : List Fate)
      → Runs codec s
      → Runs codec (dispatch_once codec (record s { turns = ts })).1
  enqueued :
      {s : System} (r : OutboxRow)
      → ((q : OutboxRow) → Memᴰ q s.rows → q.id ≢ r.id)
      → find_event r.id s.events ≡ none
      → Runs codec s
      → Runs codec (record s { rows = r ∷ s.rows })
  reported :
      {s : System} (e : Event)
      → ((q : OutboxRow) → Memᴰ q s.rows → q.id ≢ e.id)
      → Runs codec s
      → Runs codec (record s { events = store_event e s.events })

enqueue-IsConsistent :
    (codec : Codec) (s : System) (r : OutboxRow)
    → ((q : OutboxRow) → Memᴰ q s.rows → q.id ≢ r.id)
    → find_event r.id s.events ≡ none
    → IsConsistent codec s
    → IsConsistent codec (record s { rows = r ∷ s.rows })
enqueue-IsConsistent codec s r new free (c, u, v, w) = (unique, u, faithful, w)
  where
    unique : (p q : OutboxRow) → Memᴰ p (r ∷ s.rows) → Memᴰ q (r ∷ s.rows) → p.id ≡ q.id → p ≡ q
    unique p q (Memᴰ.head e) (Memᴰ.head f) i = e ∙ sym f
    unique p q (Memᴰ.head e) (Memᴰ.tail n) i = absurd (new q n (sym i ∙ ap (λ o. o.id) e))
    unique p q (Memᴰ.tail m) (Memᴰ.head f) i = absurd (new p m (i ∙ ap (λ o. o.id) f))
    unique p q (Memᴰ.tail m) (Memᴰ.tail n) i = c p q m n i

    faithful : (q : OutboxRow) → Memᴰ q (r ∷ s.rows) → IsEventOf codec q s.events
    faithful q (Memᴰ.tail m) x h = v q m x h
    faithful q (Memᴰ.head e) x h = absurd (ground (arith, ap (λ o. find_event o.id s.events) e))

report-IsConsistent :
    (codec : Codec) (s : System) (e : Event)
    → ((q : OutboxRow) → Memᴰ q s.rows → q.id ≢ e.id)
    → IsConsistent codec s
    → IsConsistent codec (record s { events = store_event e s.events })
report-IsConsistent codec s e other (c, u, v, w) = (
  c,
  store-HasUniqueIds e s.events u,
  λ r m x h. elim (find-store_event r.id e s.events h) [
    | inl f ↦ v r m x f
    | inr (i, g) ↦ absurd (other r m (sym i))
  ],
  λ id i. IsStored-store id e s.events (w id i),
)

module _ (codec : Codec)
    (decodes : (ev e : Event)
      → codec.decode (take body_limit (codec.encode ev)) ≡ ok e
      → as_row e ≡ as_row ev) where
  -- Where the audit service decodes from a body, cut to its limit, no event but the one that the worker
  -- encoded: every round, whatever becomes of its calls, keeps the tables consistent.
  pub dispatch_once-IsConsistent :
      (s : System) → IsConsistent codec s → IsConsistent codec (dispatch_once codec s).1
  dispatch_once-IsConsistent s c =
      Leads-IsConsistent codec s c (dispatch_once codec s).1 (dispatch_once-Leads codec decodes s)

  pub Runs-IsConsistent : (s : System) → Runs codec s → IsConsistent codec s
  unfolding any
  Runs-IsConsistent _ (start ts) =
      (λ r q m. elim m [ ], tt, λ r m. elim m [ ], λ id h. absurd (ground arith))
  Runs-IsConsistent _ (dispatched {s} ts g) =
      dispatch_once-IsConsistent (record s { turns = ts }) (Runs-IsConsistent s g)
  Runs-IsConsistent _ (enqueued {s} r new free g) =
      enqueue-IsConsistent codec s r new free (Runs-IsConsistent s g)
  Runs-IsConsistent _ (reported {s} e other g) =
      report-IsConsistent codec s e other (Runs-IsConsistent s g)

  -- Exactly once: where the audit service decodes from a body, cut to its limit, no event but the one
  -- that the worker encoded, and in every system that rounds, new rows with a fresh id and events of
  -- other ids reach from empty tables, whichever calls were refused or lost their answer: a row that is
  -- published is stored in the audit table as its event, and no two rows there have the same id.
  pub exactly_once :
      (s : System) (r : OutboxRow)
      → Runs codec s
      → Memᴰ r s.rows
      → is_published s r ≡ true
      → HasUniqueIds s.events
        × ((ev : Event) × (row_to_event codec r ≡ ok ev)
            × (find_event r.id s.events ≡ some (as_row ev)))
  unfolding is_published
  exactly_once s r g m p =
      let (c, u, v, w) = Runs-IsConsistent s g in
      let (x, f) = w r.id p in let (ev, h, k) = v r m x f in (u, (ev, h, f ∙ ap some k))
