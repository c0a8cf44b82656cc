-- ===== src/Audit/Entry/Laws.antt =====
-- That an entry event reaches the audit table, in whatever order the goroutines run.
use ting_boundless.Http.{Request}
use mathlib.Core.List.{Memᴰ}
use ting_boundless.Base.{
  ℕ, text_eq, mem-append_left, eq_of_text_eq, mem-append_right, ap, mem_of_append, some, none, leb,
  is_none, is_nil, Text, if-both, text_eq_refl, sym, Bool-cases, arith, subst, Option-cases, List,
  take, ◌∙◌, ◌++◌, ◌∷◌, refl, codes, ◌||◌, ◌⊎◌, ◌≡◌, inr, inl, false, true, [],
}
use ting_boundless.Base.Results.{Result, failure, answered, Result-cases, err, ok}
use ting_boundless.Audit.{
  Codec, insert, status_of, Reply, persisted, as_row, body_limit, posted, take_in, find_event, emit,
  read_body, insert_unless, Event, ingest, store_event,
}
use ting_boundless.Audit.Entry.{
  entry_event, Members, finished, sends, Runs, post_answered, schedule, Background, emit_entry,
  emit_answered,
}
use ting_boundless.Outbox.Steps.{take_in_cases}

-- An event that the audit service takes: its JSON is read back within the limit, it is complete, and it
-- passes the check of its contract.
pub record IsSendable (codec : Codec) (e : Event) : Type 0 where
  pub decodes : codec.decode (take body_limit (codec.encode e)) ≡ ok e
  pub complete : (is_nil e.id || is_nil e.source || is_nil e.type || is_none e.time) ≡ false
  pub validates : codec.validates e ≡ true

-- What is stored under an id.
module _ (id : Text) where
  find_event-store_kept :
      (g x : Event) (es : List Event)
      → find_event id es ≡ some x
      → find_event id (store_event g es) ≡ some x
  unfolding store_event insert_unless as_row find_event
  find_event-store_kept g x es h = elim (Option-cases (find_event g.id es)) [
    | inr (f, k) ↦ rw k h
    | inl k ↦ elim (Bool-cases (text_eq g.id id)) [
      | inl b ↦ absurd (ground (arith, k, h, ap (λ i. find_event i es) (eq_of_text_eq g.id id b)))
      | inr b ↦ rw k (ground (arith, b, h))
    ]
  ]

  find_event-store_other :
      (g : Event) (es : List Event)
      → text_eq g.id id ≡ false
      → find_event id es ≡ none
      → find_event id (store_event g es) ≡ none
  unfolding store_event insert_unless as_row find_event
  find_event-store_other g es b h = elim (Option-cases (find_event g.id es)) [
    | inr (f, k) ↦ rw k h
    | inl k ↦ rw k (ground (arith, b, h))
  ]

find_event-store_new :
    (e : Event) (es : List Event)
    → find_event e.id es ≡ none
    → find_event e.id (store_event e es) ≡ some (as_row e)
unfolding store_event insert_unless as_row find_event
find_event-store_new e es h = rw h (ground (arith, text_eq_refl e.id))

-- A call of the audit service stores the event that it reads, or leaves the table.
ingest_kept :
    (codec : Codec) (body : Text) (es : List Event)
    → let out = (ingest codec true true [] answered (ok body) es).1 in
      (out ≡ es)
      ⊎ ((f : Event) × (codec.decode (take body_limit body) ≡ ok f) × (out ≡ store_event f es))
unfolding ingest read_body take_in
ingest_kept codec body es = elim (Result-cases (codec.decode (take body_limit body))) [
  | inr (x, q) ↦ rw q (inl refl)
  | inl (f, q) ↦ rw q (elim (take_in_cases codec [] answered f es) [
    | inl (h, v) ↦ inl h
    | inr h ↦ inr (f, refl, h)
  ])
]

emit_answered-world :
    (codec : Codec) (e : Event) (es : List Event)
    → (is_nil e.id || is_nil e.source || is_nil e.type) ≡ false
    → (emit_answered codec e es).1 ≡ (ingest codec true true [] answered (ok (codec.encode e)) es).1
unfolding emit_answered emit posted post_answered
emit_answered-world codec e es b = rw b (
    if-both (λ (o : Result (Unit {0}) × List Event). o.1 ≡ out.1) (leb 300 (status_of out.0))
      (err (failure (codes "audit post: status")), out.1) (ok tt, out.1) (λ h. refl) (λ h. refl))
  where
    out : Reply × List Event
    out = ingest codec true true [] answered (ok (codec.encode e)) es

-- Sending an event leaves the table, or stores what the audit service reads of it.
emit_answered-cases :
    (codec : Codec) (e : Event) (es : List Event)
    → let out = (emit_answered codec e es).1 in
      (out ≡ es)
      ⊎ ((f : Event) × (codec.decode (take body_limit (codec.encode e)) ≡ ok f)
          × (out ≡ store_event f es))
emit_answered-cases codec e es =
    elim (Bool-cases (is_nil e.id || is_nil e.source || is_nil e.type)) [
      | inl b ↦ inl (nothing b)
      | inr b ↦
          subst Cases (sym (emit_answered-world codec e es b))
            (ingest_kept codec (codec.encode e) es)
    ]
  where
    Cases : List Event → Type 0
    Cases out =
        (out ≡ es)
        ⊎ ((f : Event) × (codec.decode (take body_limit (codec.encode e)) ≡ ok f)
            × (out ≡ store_event f es))

    nothing :
        (is_nil e.id || is_nil e.source || is_nil e.type) ≡ true → (emit_answered codec e es).1 ≡ es
    nothing b = unfold emit_answered emit in rw b refl

emit-sends :
    (codec : Codec) (e : Event) (es : List Event)
    → IsSendable codec e
    → (emit_answered codec e es).1 ≡ store_event e es
unfolding ingest read_body take_in insert persisted
emit-sends codec e es s = emit_answered-world codec e es (ground (arith, s.complete)) ∙ stored
  where
    stored : (ingest codec true true [] answered (ok (codec.encode e)) es).1 ≡ store_event e es
    stored = rw (s.decodes, s.complete, s.validates) refl

mem-append_one :
    (f : Event) {g : Event} (front later : List Event)
    → Memᴰ g (front ++ later)
    → Memᴰ g (front ++ f ∷ later)
mem-append_one f front later m = elim (mem_of_append front later m) [
  | inl n ↦ mem-append_left front (f ∷ later) n
  | inr n ↦ mem-append_right front (f ∷ later) (Memᴰ.tail n)
]

-- The audit service reads no event of the id from what is sent for the event.
abbrev pub IsOther : Codec → Text → Event → Type 0
IsOther codec id f =
    (g : Event) → codec.decode (take body_limit (codec.encode f)) ≡ ok g → text_eq g.id id ≡ false

module _ (codec : Codec) (e : Event) (s : IsSendable codec e) where
  -- The events to be sent are this one or of other ids, and this one is still to be sent, or its row is
  -- the only one that was stored under its id.
  abbrev Underway : Background (List Event) → Type 0
  Underway b =
      ((f : Event) → Memᴰ f b.pending → (f ≡ e) ⊎ IsOther codec e.id f)
      × (Memᴰ e b.pending × (find_event e.id b.world ≡ none)
          ⊎ (find_event e.id b.world ≡ some (as_row e)))

  removed :
      (front : List Event) (f : Event) (later : List Event)
      → Memᴰ e (front ++ f ∷ later)
      → Memᴰ e (front ++ later) ⊎ (f ≡ e)
  removed [] f later (Memᴰ.head q) = inr (sym q)
  removed [] f later (Memᴰ.tail m) = inl m
  removed (g ∷ front) f later (Memᴰ.head q) = inl (Memᴰ.head q)
  removed (g ∷ front) f later (Memᴰ.tail m) = elim (removed front f later m) [
    | inl n ↦ inl (Memᴰ.tail n)
    | inr q ↦ inr q
  ]

  sent_here :
      (f : Event) (w : List Event)
      → f ≡ e
      → find_event e.id w ≡ none
      → find_event e.id (emit_answered codec f w).1 ≡ some (as_row e)
  sent_here f w q h =
      ap (λ g. find_event e.id (emit_answered codec g w).1) q
      ∙ ap (find_event e.id) (emit-sends codec e w s)
      ∙ find_event-store_new e w h

  sent_other :
      (f : Event) (w : List Event)
      → IsOther codec e.id f
      → find_event e.id w ≡ none
      → find_event e.id (emit_answered codec f w).1 ≡ none
  sent_other f w o h = elim (emit_answered-cases codec f w) [
    | inl k ↦ ap (find_event e.id) k ∙ h
    | inr (g, d, k) ↦ ap (find_event e.id) k ∙ find_event-store_other e.id g w (o g d) h
  ]

  sent_after :
      (f : Event) (w : List Event)
      → find_event e.id w ≡ some (as_row e)
      → find_event e.id (emit_answered codec f w).1 ≡ some (as_row e)
  sent_after f w h = elim (emit_answered-cases codec f w) [
    | inl k ↦ ap (find_event e.id) k ∙ h
    | inr (g, d, k) ↦ ap (find_event e.id) k ∙ find_event-store_kept e.id g (as_row e) w h
  ]

  Runs-Underway :
      {b c : Background (List Event)} → Runs (emit_answered codec) b c → Underway b → Underway c
  Runs-Underway finished u = u
  Runs-Underway (sends front f later w runs) (own, inr h) =
      Runs-Underway runs (λ g m. own g (mem-append_one f front later m), inr (sent_after f w h))
  Runs-Underway (sends front f later w runs) (own, inl (m, h)) = elim (removed front f later m) [
    | inr q ↦
        Runs-Underway runs (λ g n. own g (mem-append_one f front later n), inr (sent_here f w q h))
    | inl left ↦ elim (own f (mem-append_right front (f ∷ later) (Memᴰ.head refl))) [
      | inl q ↦
          Runs-Underway runs
            (λ g n. own g (mem-append_one f front later n), inr (sent_here f w q h))
      | inr o ↦
          Runs-Underway runs
            (λ g n. own g (mem-append_one f front later n), inl (left, sent_other f w o h))
    ]
  ]

-- While the audit service answers, an entry event that is emitted through an `Async`
-- is in the audit table, as it was made, once all goroutines have run, in whatever order they do. The audit service
-- can take the event, its id is not in the table yet, and what is read of the other events underway
-- has other ids.
pub emit_entry-IsStored :
    (codec : Codec) (object : Members → Text) (random : Result (List ℕ)) (now : ℕ) (r : Request)
    (rid type : Text) (extra : Members) (b c : Background (List Event))
    → let e = entry_event object random now type r rid extra in
      IsSendable codec e
      → find_event e.id b.world ≡ none
      → ((f : Event) → Memᴰ f b.pending → IsOther codec e.id f)
      → Runs (emit_answered codec) (emit_entry true true object random now r rid type extra b) c
      → c.pending ≡ []
      → find_event e.id c.world ≡ some (as_row e)
unfolding emit_entry schedule
emit_entry-IsStored codec object random now r rid type extra b c s fresh others runs q =
    elim (Runs-Underway codec e s runs (own, inl (Memᴰ.head refl, fresh))).1 [
      | inl (m, h) ↦ elim (subst (λ ps. Memᴰ e ps) q m) [ ]
      | inr i ↦ i
    ]
  where
    e : Event
    e = entry_event object random now type r rid extra

    own : (f : Event) → Memᴰ f (e ∷ b.pending) → (f ≡ e) ⊎ IsOther codec e.id f
    own f (Memᴰ.head h) = inl h
    own f (Memᴰ.tail m) = inr (others f m)
