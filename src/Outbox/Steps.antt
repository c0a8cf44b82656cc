-- ===== src/Outbox/Steps.antt =====
-- What one row's publication does to the tables: it stores the row's event, and marks the row only
-- when an event of its id is stored.
use ting_boundless.Http.{write_error}
use ting_boundless.Base.Results.{
  next_fate, is_err, Result-cases, carried_out, Fate, ok, answered, refused, lost,
}
use ting_boundless.Audit.{
  read_body, body_limit, db_error, Event, Codec, Reply, take_in, status_of, persisted, insert,
  store_event, posted, emit, ingest, as_row,
}
use ting_boundless.Outbox.{lost_answer, pass, post, ingested, System}
use ting_boundless.Base.{
  is_none, is_nil, Bool-cases, leb, Bool, List, take, Text, ◌||◌, ◌⊎◌, ◌≡◌, refl, inr, inl, true,
  [],
}

-- The row's fate in the audit service, whatever its answer: nothing is stored and the answer is an
-- error, or the event is.
pub take_in_cases :
    (codec : Codec) (rid : Text) (fate : Fate) (e : Event) (es : List Event)
    → let out = take_in codec true rid fate (ok e) es in
      (out.1 ≡ es) × (leb 300 (status_of out.0) ≡ true) ⊎ (out.1 ≡ store_event e es)
unfolding take_in status_of persisted insert write_error
take_in_cases codec rid fate e es =
    elim (Bool-cases (is_nil e.id || is_nil e.source || is_nil e.type || is_none e.time)) [
      | inl b ↦ rw b (inl (refl, refl))
      | inr b ↦ elim (Bool-cases (codec.validates e)) [
        | inr v ↦ rw (b, v) (inl (refl, refl))
        | inl v ↦ rw (b, v) (fate_cases fate)
      ]
    ]
  where
    fate_cases :
        (f : Fate)
        → let out = persisted rid e.id (carried_out f db_error es (ok tt, store_event e es)) in
          (out.1 ≡ es) × (leb 300 (status_of out.0) ≡ true) ⊎ (out.1 ≡ store_event e es)
    fate_cases answered = inr refl
    fate_cases refused = inl (refl, refl)
    fate_cases lost = inr refl

module _ (codec : Codec)
    (decodes : (ev e : Event)
      → codec.decode (take body_limit (codec.encode ev)) ≡ ok e
      → as_row e ≡ as_row ev) where
  -- The outcome of a call that stores an event, or leaves the table and fails.
  abbrev pub Stores : Event → System → Bool → System → Type 0
  Stores ev s failed t =
      (t.rows ≡ s.rows)
      × (t.published ≡ s.published)
      × ((t.events ≡ s.events) × (failed ≡ true)
          ⊎ ((e : Event) × (as_row e ≡ as_row ev) × (t.events ≡ store_event e s.events)))

  ingest_cases :
      (rid : Text) (fate : Fate) (ev : Event) (es : List Event)
      → let out = ingest codec true true rid fate (ok (codec.encode ev)) es in
        (out.1 ≡ es) × (leb 300 (status_of out.0) ≡ true)
        ⊎ ((e : Event) × (as_row e ≡ as_row ev) × (out.1 ≡ store_event e es))
  unfolding ingest read_body take_in status_of write_error
  ingest_cases rid fate ev es =
      elim (Result-cases (codec.decode (take body_limit (codec.encode ev)))) [
        | inr (x, q) ↦ rw q (inl (refl, refl))
        | inl (e, q) ↦ elim (take_in_cases codec rid fate e es) [
          | inl (h, k) ↦ rw q (inl (h, k))
          | inr h ↦ rw q (inr (e, decodes ev e q, h))
        ]
      ]

  posted_cases :
      (ev : Event) (s next : System) (f : Fate) (out : Reply × List Event)
      → next.rows ≡ s.rows
      → next.published ≡ s.published
      → next.events ≡ s.events
      → (out.1 ≡ s.events) × (leb 300 (status_of out.0) ≡ true)
        ⊎ ((e : Event) × (as_row e ≡ as_row ev) × (out.1 ≡ store_event e s.events))
      → let r =
          posted codec.encode (post codec) (carried_out f lost_answer next (ingested next out)) in
        Stores ev s (is_err r.0) r.1
  unfolding posted ingested
  posted_cases ev s next refused out h k l c = (h, k, inl (l, refl))
  posted_cases ev s next lost out h k l (inl (q, v)) = (h, k, inl (q, refl))
  posted_cases ev s next lost out h k l (inr q) = (h, k, inr q)
  posted_cases ev s next answered (reply, es) h k l (inl (q, v)) = rw v (h, k, inl (q, refl))
  posted_cases ev s next answered (reply, es) h k l (inr q) =
      elim (Bool-cases (leb 300 (status_of reply))) [
        | inl v ↦ rw v (h, k, inr q)
        | inr v ↦ rw v (h, k, inr q)
      ]

  -- `Emit` stores the event, or fails and stores nothing.
  pub emit-Stores :
      (ev : Event) (s : System)
      → let r = emit codec.encode (post codec) true ev s in Stores ev s (is_err r.0) r.1
  unfolding emit post pass
  emit-Stores ev s = elim (Bool-cases (is_nil ev.id || is_nil ev.source || is_nil ev.type)) [
    | inl b ↦ rw b (refl, refl, inl (refl, refl))
    | inr b ↦ rw b (
        posted_cases ev s (pass (pass s)) (next_fate s.turns)
          (ingest codec true true [] (next_fate (pass s).turns) (ok (codec.encode ev)) s.events)
          refl refl refl (ingest_cases [] (next_fate (pass s).turns) ev s.events))
  ]
