-- ===== src/Outbox/Delivery.antt =====
-- That a round publishes the rows it takes on while its calls are answered.
use ting_boundless.Audit.{
  Event, Codec, posted, ingest, emit, read_body, take_in, insert, persisted, status_of, body_limit,
}
use ting_boundless.Outbox.{
  or_first, oldest_first, batch, dispatch_batch, publish_all, is_published, ingested, post, pass,
  marked, mark, publish_event, publish_row, System, OutboxRow, dispatch_once, row_to_event,
}
use ting_boundless.Base.{
  mem-keep, mem-sort_by, mem-reversed, length-sort_by, length-reversed, sort_by, reversed, not,
  keep, length, Option, List, text_eq, sym, leb, ap, subst, Text, ℕ, ◌∙◌, ◌≤◌, ◌∷◌, none, suc, zero,
  take, drop, text_eq_refl, arith, is_none, take, Bool-cases, any, is_nil, ◌||◌, ◌≡◌, refl, inr,
  inl, false, true, [],
}
use ting_boundless.Base.Results.{Err, Result-cases, Fate-cases, next_fate, Result, err, ok}
use mathlib.Core.List.{Memᴰ}

-- The audit service takes the row's event in.
pub record IsAcceptable (codec : Codec) (r : OutboxRow) : Type 0 where
  pub event : Event
  pub received : Event
  pub is_event : row_to_event codec r ≡ ok event
  pub is_complete : (is_nil event.id || is_nil event.source || is_nil event.type) ≡ false
  pub is_decoded : codec.decode (take body_limit (codec.encode event)) ≡ ok received
  pub is_received_complete :
      (is_nil received.id
        || is_nil received.source
        || is_nil received.type
        || is_none received.time)
      ≡ false
  pub is_valid : codec.validates received ≡ true

-- The row is published and all later calls are answered.
abbrev IsDone : OutboxRow → System → Type 0
IsDone r s = (is_published s r ≡ true) × (s.turns ≡ [])

module _ (codec : Codec) where
  emit-answered :
      (r : OutboxRow) (a : IsAcceptable codec r) (s : System)
      → s.turns ≡ []
      → let out = emit codec.encode (post codec) true a.event s in
        (out.0 ≡ ok tt) × (out.1.turns ≡ [])
  unfolding emit post posted ingested ingest read_body take_in insert persisted status_of pass
  emit-answered r a s t =
      rw (a.is_complete, t, a.is_decoded, a.is_received_complete, a.is_valid) (refl, refl)

  marked-IsDone :
      (r : OutboxRow) (out : Result (Unit {0}) × System)
      → (out.0 ≡ ok tt) × (out.1.turns ≡ [])
      → IsDone r (marked r out).1
  unfolding marked mark pass is_published any
  marked-IsDone r (err e, s) (h, t) = absurd (ground arith)
  marked-IsDone r (ok x, s) (h, t) = elim (Bool-cases (is_published s r)) [
    | inl b ↦ rw (t, b) (b, refl)
    | inr b ↦ rw (t, b) (ground (arith, text_eq_refl r.id), refl)
  ]

  publish_row-IsDone :
      (r : OutboxRow)
      → IsAcceptable codec r
      → (s : System) → s.turns ≡ []
      → IsDone r (publish_row codec r s).1
  unfolding publish_row publish_event
  publish_row-IsDone r a s t =
      rw a.is_event
        (marked-IsDone r (emit codec.encode (post codec) true a.event s) (emit-answered r a s t))

  -- What another row's publication leaves as it was.
  abbrev Keeps : OutboxRow → System → System → Type 0
  Keeps r s u = (is_published s r ≡ true → is_published u r ≡ true) × (s.turns ≡ [] → u.turns ≡ [])

  posted_state : (out : Result ℕ × System) → (posted codec.encode (post codec) out).1 ≡ out.1
  unfolding posted
  posted_state (err e, s) = refl
  posted_state (ok status, s) = elim (Bool-cases (leb 300 status)) [
    | inl b ↦ rw b refl
    | inr b ↦ rw b refl
  ]

  -- A call of the audit service leaves the marks, and all later calls answered.
  IsCalled : System → System → Type 0
  IsCalled s u = (u.published ≡ s.published) × (s.turns ≡ [] → u.turns ≡ [])

  post-IsCalled : (body : Text) (s : System) → IsCalled s (post codec body s).1
  unfolding IsCalled post ingested pass
  post-IsCalled body s = elim (Fate-cases (next_fate s.turns)) [
    | inl f ↦ rw f (refl, λ t. ap (λ ts. drop 1 (drop 1 ts)) t)
    | inr (inl f) ↦ rw f (refl, λ t. ap (λ ts. drop 1 (drop 1 ts)) t)
    | inr (inr f) ↦ rw f (refl, λ t. ap (λ ts. drop 1 (drop 1 ts)) t)
  ]

  emit-IsCalled :
      (ev : Event) (s : System) → IsCalled s (emit codec.encode (post codec) true ev s).1
  unfolding IsCalled emit
  emit-IsCalled ev s = elim (Bool-cases (is_nil ev.id || is_nil ev.source || is_nil ev.type)) [
    | inl b ↦ rw b (refl, λ t. t)
    | inr b ↦ rw b (
        subst (λ u. IsCalled s u) (sym (posted_state (post codec (codec.encode ev) s)))
          (post-IsCalled (codec.encode ev) s))
  ]

  mark-Keeps : (r q : OutboxRow) (s : System) → Keeps r s (mark q s).1
  unfolding mark pass is_published any
  mark-Keeps r q s = elim (Fate-cases (next_fate s.turns)) [
    | inr (inl f) ↦ rw f (λ h. h, λ t. ap (λ ts. drop 1 ts) t)
    | inl f ↦ elim (Bool-cases (is_published s q)) [
      | inl b ↦ rw (f, b) (λ h. h, λ t. ap (λ ts. drop 1 ts) t)
      | inr b ↦ rw (f, b) (λ h. ground (arith, h), λ t. ap (λ ts. drop 1 ts) t)
    ]
    | inr (inr f) ↦ elim (Bool-cases (is_published s q)) [
      | inl b ↦ rw (f, b) (λ h. h, λ t. ap (λ ts. drop 1 ts) t)
      | inr b ↦ rw (f, b) (λ h. ground (arith, h), λ t. ap (λ ts. drop 1 ts) t)
    ]
  ]

  marked-Keeps :
      (r q : OutboxRow) (s : System) (out : Result (Unit {0}) × System)
      → IsCalled s out.1
      → Keeps r s (marked q out).1
  unfolding IsCalled marked is_published
  marked-Keeps r q s (err e, u) (h, k) = (λ p. ap (λ ps. any (text_eq r.id) ps) h ∙ p, k)
  marked-Keeps r q s (ok x, u) (h, k) = (
    λ p. (mark-Keeps r q u).0 (ap (λ ps. any (text_eq r.id) ps) h ∙ p),
    λ t. (mark-Keeps r q u).1 (k t),
  )

  publish_row-Keeps : (r q : OutboxRow) (s : System) → Keeps r s (publish_row codec q s).1
  unfolding publish_row publish_event
  publish_row-Keeps r q s = elim (Result-cases (row_to_event codec q)) [
    | inr (e, h) ↦ rw h (λ p. p, λ t. t)
    | inl (ev, h) ↦
        rw h (marked-Keeps r q s (emit codec.encode (post codec) true ev s) (emit-IsCalled ev s))
  ]

  publish_all-Keeps :
      (r : OutboxRow) (rs : List OutboxRow) (first : Option Err) (s : System)
      → Keeps r s (publish_all codec rs first s).1
  unfolding publish_all
  publish_all-Keeps r [] first s = (λ p. p, λ t. t)
  publish_all-Keeps r (q ∷ rs) first s =
      let next = (publish_row codec q s).1 in
      let rest = publish_all-Keeps r rs (or_first first (publish_row codec q s).0) next in
      let step = publish_row-Keeps r q s in (λ p. rest.0 (step.0 p), λ t. rest.1 (step.1 t))

  publish_all_publishes :
      (r : OutboxRow)
      → IsAcceptable codec r
      → (rs : List OutboxRow) (first : Option Err) (s : System) → Memᴰ r rs
      → s.turns ≡ []
      → is_published (publish_all codec rs first s).1 r ≡ true
  unfolding publish_all
  publish_all_publishes r a [] first s m t = elim m [ ]
  publish_all_publishes r a (q ∷ rs) first s (Memᴰ.head e) t =
      (publish_all-Keeps r rs (or_first first (publish_row codec q s).0)
          (publish_row codec q s).1).0
        (subst (λ o. is_published (publish_row codec o s).1 r ≡ true) e
          (publish_row-IsDone r a s t).0)
  publish_all_publishes r a (q ∷ rs) first s (Memᴰ.tail m) t =
      publish_all_publishes r a rs (or_first first (publish_row codec q s).0)
        (publish_row codec q s).1 m ((publish_row-Keeps r q s).1 t)

  -- Where every call is answered, a round publishes each row of its batch that the audit service takes
  -- in, whatever the other rows of the batch are.
  pub dispatch_once_publishes :
      (s : System) (r : OutboxRow)
      → s.turns ≡ []
      → IsAcceptable codec r
      → Memᴰ r (batch s)
      → is_published (dispatch_once codec s).1 r ≡ true
  unfolding dispatch_once dispatch_batch pass
  dispatch_once_publishes s r t a m =
      subst (λ f. is_published (dispatch_batch codec f s).1 r ≡ true) (sym (ap next_fate t))
        (publish_all_publishes r a (batch s) none (pass s) m (ap (λ ts. drop 1 ts) t))

  dispatch_once-Keeps :
      (s : System) (r : OutboxRow)
      → s.turns ≡ []
      → is_published s r ≡ true
      → is_published (dispatch_once codec s).1 r ≡ true
  unfolding dispatch_once dispatch_batch pass is_published
  dispatch_once-Keeps s r t p =
      subst (λ f. is_published (dispatch_batch codec f s).1 r ≡ true) (sym (ap next_fate t))
        ((publish_all-Keeps r (batch s) none (pass s)).0 p)

  take_all : {A : Type 0} (n : ℕ) (xs : List A) → length xs ≤ n → take n xs ≡ xs
  take_all zero [] h = refl
  take_all zero (x ∷ xs) h = absurd (omega (arith, h))
  take_all (suc n) [] h = refl
  take_all (suc n) (x ∷ xs) h = ap (λ ys. x ∷ ys) (take_all n xs (omega (arith, h)))

  -- Liveness: where every call is answered and at most fifty rows are not yet published, one round
  -- publishes each of them that the audit service takes in.
  pub dispatch_once_drains :
      (s : System) (r : OutboxRow)
      → s.turns ≡ []
      → length (keep (λ q. not (is_published s q)) s.rows) ≤ 50
      → Memᴰ r s.rows
      → IsAcceptable codec r
      → is_published (dispatch_once codec s).1 r ≡ true
  unfolding batch oldest_first
  dispatch_once_drains s r t few m a = elim (Bool-cases (is_published s r)) [
    | inl p ↦ kept_mark p
    | inr p ↦
        dispatch_once_publishes s r t a
          (subst (Memᴰ r) (sym (take_all 50 sorted small)) (in_sorted p))
  ]
    where
      pending : List OutboxRow
      pending = keep (λ q. not (is_published s q)) s.rows

      sorted : List OutboxRow
      sorted = reversed (sort_by (λ q. q.created_at) pending)

      small : length sorted ≤ 50
      small = omega (
        arith,
        length-reversed (sort_by (λ q. q.created_at) pending),
        length-sort_by (λ q. q.created_at) pending,
        few,
      )

      in_sorted : is_published s r ≡ false → Memᴰ r sorted
      in_sorted p = (mem-reversed (sort_by (λ q. q.created_at) pending)).1 (
          (mem-sort_by (λ q. q.created_at) pending).1
            ((mem-keep (λ q. not (is_published s q)) s.rows).1 (m, ground (arith, p))))

      kept_mark : is_published s r ≡ true → is_published (dispatch_once codec s).1 r ≡ true
      kept_mark p = dispatch_once-Keeps s r t p
