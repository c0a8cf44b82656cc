-- ===== src/Audit/Query/Reads.antt =====
-- The events that are read from the rows of a listing.
use ting_boundless.Audit.{Event}
use mathlib.Core.List.{Memᴰ}
use ting_boundless.Base.{
  codes, text_eq, is_nil, Option, sym, ap, subst, ◌∙◌, ◌||◌, refl, some, none, suc, All, length,
  IsArranged, Bool-cases, arith, List, Text, ◌≤◌, ◌∷◌, ◌⊎◌, ◌≡◌, inr, inl, true, [],
}
use ting_boundless.Base.Results.{Result, Result-cases, ok_eq, err, ok}
use ting_boundless.Audit.Query.{
  is_selected, with_details, ListFilter, newest_first, read_next, read_details, read_rows, read_row,
  Reader, row_limit, page,
}
use ting_boundless.Audit.Query.Rows.{
  page_complete, page-IsArranged, mem-page, length-page_le, IsCollation,
}

-- A row of the table, and the event that is read from it.
abbrev pub IsRead : Reader → Event → Event → Type 0
IsRead d s e = read_row d.unmarshal s ≡ ok e

abbrev pub Reads : Reader → List Event → List Event → Type 0
Reads d [] [] = Unit
Reads d (s ∷ ss) (e ∷ es) = IsRead d s e × Reads d ss es
Reads d _ _ = ⊥

-- Only the data are read.
is_record :
    (s : Event) (d : Option Text) (e : Event)
    → ok (record s { details = d }) ≡ ok e
    → record s { details = e.details } ≡ e
is_record s d e h = subst (λ f. record s { details = f.details } ≡ f) (ok_eq h) refl

read_details-record :
    (unmarshal : Text → Result (Option Text)) (s : Event) (d : Option Text) (e : Event)
    → s.details ≡ d
    → read_details unmarshal s d ≡ ok e
    → record s { details = e.details } ≡ e
unfolding read_details with_details
read_details-record unmarshal s none e q h = is_record s s.details e h
read_details-record unmarshal s (some raw) e q h =
    elim (Bool-cases (is_nil raw || text_eq raw (codes "null"))) [
      | inl b ↦ is_record s none e (ground (arith, b, h))
      | inr b ↦ elim (Result-cases (unmarshal raw)) [
        | inl (d, r) ↦ is_record s d e (ground (arith, b, r, h))
        | inr (x, r) ↦ absurd (ground (arith, b, r, h))
      ]
    ]

pub only_details : (d : Reader) (s e : Event) → IsRead d s e → record s { details = e.details } ≡ e
unfolding read_row
only_details d s e h = read_details-record d.unmarshal s s.details e refl h

read_next-Reads :
    (d : Reader) (s row : Event) (ss : List Event) (rest : Result (List Event)) (es : List Event)
    → ((fs : List Event) → rest ≡ ok fs → Reads d ss fs)
    → IsRead d s row
    → read_next row rest ≡ ok es
    → Reads d (s ∷ ss) es
unfolding read_next
read_next-Reads d s row ss (ok fs) es k r h = subst (Reads d (s ∷ ss)) (ok_eq h) (r, k fs refl)
read_next-Reads d s row ss (err x) es k r h = absurd (ground (arith, h))

pub read_rows-Reads :
    (d : Reader) (ss es : List Event) → read_rows d.unmarshal ss ≡ ok es → Reads d ss es
unfolding read_rows
read_rows-Reads d [] es h = subst (Reads d []) (ok_eq h) tt
read_rows-Reads d (s ∷ ss) es h = elim (Result-cases (read_row d.unmarshal s)) [
  | inl (row, r) ↦
      read_next-Reads d s row ss (read_rows d.unmarshal ss) es (read_rows-Reads d ss) r
        (ground (arith, r, h))
  | inr (x, r) ↦ absurd (ground (arith, r, h))
]

length-Reads : (d : Reader) (ss es : List Event) → Reads d ss es → length es ≡ length ss
length-Reads d [] [] r = refl
length-Reads d [] (e ∷ es) r = elim r [ ]
length-Reads d (s ∷ ss) [] r = elim r [ ]
length-Reads d (s ∷ ss) (e ∷ es) (r, rs) = ap (λ n. suc n) (length-Reads d ss es rs)

row_behind :
    (d : Reader) (ss es : List Event) {e : Event}
    → Reads d ss es
    → Memᴰ e es
    → (s : Event) × Memᴰ s ss × IsRead d s e
row_behind d ss [] r m = elim m [ ]
row_behind d [] (f ∷ es) r m = elim r [ ]
row_behind d (s ∷ ss) (f ∷ es) (r, rs) (Memᴰ.head q) =
    (s, Memᴰ.head refl, r ∙ ap (λ x. ok x) (sym q))
row_behind d (s ∷ ss) (f ∷ es) (r, rs) (Memᴰ.tail m) =
    let (t, n, k) = row_behind d ss es rs m in (t, Memᴰ.tail n, k)

event_from :
    (d : Reader) (ss es : List Event) {s : Event}
    → Reads d ss es
    → Memᴰ s ss
    → (e : Event) × Memᴰ e es × IsRead d s e
event_from d [] es r m = elim m [ ]
event_from d (t ∷ ss) [] r m = elim r [ ]
event_from d (t ∷ ss) (f ∷ es) (r, rs) (Memᴰ.head q) =
    (f, Memᴰ.head refl, ap (λ x. read_row d.unmarshal x) q ∙ r)
event_from d (t ∷ ss) (f ∷ es) (r, rs) (Memᴰ.tail m) =
    let (e, n, k) = event_from d ss es rs m in (e, Memᴰ.tail n, k)

-- What is read is ordered as the rows are, on both sides.
module _ (d : Reader) where
  same_order :
      (s e t f : Event)
      → IsRead d s e
      → IsRead d t f
      → newest_first d.at_most s t ≡ true
      → newest_first d.at_most e f ≡ true
  unfolding newest_first
  same_order s e t f r q h =
      let u = only_details d s e r in
      let v = only_details d t f q in
      subst (λ x. newest_first d.at_most x f ≡ true) u
        (subst (λ x. newest_first d.at_most s x ≡ true) v h)

  All-Reads :
      (s e : Event) (ss es : List Event)
      → IsRead d s e
      → Reads d ss es
      → All (λ t. newest_first d.at_most s t ≡ true) ss
      → All (λ f. newest_first d.at_most e f ≡ true) es
  All-Reads s e [] [] r rs h = tt
  All-Reads s e [] (f ∷ es) r rs h = elim rs [ ]
  All-Reads s e (t ∷ ss) [] r rs h = elim rs [ ]
  All-Reads s e (t ∷ ss) (f ∷ es) r (q, rs) (h, hs) =
      (same_order s e t f r q h, All-Reads s e ss es r rs hs)

  IsArranged-Reads :
      (ss es : List Event)
      → Reads d ss es
      → IsArranged (newest_first d.at_most) ss
      → IsArranged (newest_first d.at_most) es
  IsArranged-Reads [] [] rs h = tt
  IsArranged-Reads [] (f ∷ es) rs h = elim rs [ ]
  IsArranged-Reads (t ∷ ss) [] rs h = elim rs [ ]
  IsArranged-Reads (t ∷ ss) (f ∷ es) (q, rs) (h, hs) =
      (All-Reads t f ss es q rs h, IsArranged-Reads ss es rs hs)

  All-before_Reads :
      (s : Event) (ss es : List Event)
      → Reads d ss es
      → All (λ t. newest_first d.at_most t s ≡ true) ss
      → All (λ f. newest_first d.at_most f s ≡ true) es
  All-before_Reads s [] [] rs h = tt
  All-before_Reads s [] (f ∷ es) rs h = elim rs [ ]
  All-before_Reads s (t ∷ ss) [] rs h = elim rs [ ]
  All-before_Reads s (t ∷ ss) (f ∷ es) (q, rs) (h, hs) = (
    unfold newest_first in subst (λ x. newest_first d.at_most x s ≡ true) (only_details d t f q) h,
    All-before_Reads s ss es rs hs,
  )

-- The events are the rows that the filter selects, at most so many as the limit says, newest first, and
-- none is left out for an older one.
pub record IsListing (d : Reader) (f : ListFilter) (rows out : List Event) : Type 0 where
  pub bounded : length out ≤ row_limit f.limit
  pub sound :
      (e : Event) → Memᴰ e out → (s : Event) × Memᴰ s rows × (is_selected f s ≡ true) × IsRead d s e
  pub ordered : IsArranged (newest_first d.at_most) out
  pub complete :
      (s : Event)
      → Memᴰ s rows
      → is_selected f s ≡ true
      → ((e : Event) × Memᴰ e out × IsRead d s e)
        ⊎ ((length out ≡ row_limit f.limit) × All (λ e. newest_first d.at_most e s ≡ true) out)

pub Reads-IsListing :
    (d : Reader) (f : ListFilter) (rows out : List Event)
    → IsCollation d.at_most
    → Reads d (page d.at_most f rows) out
    → IsListing d f rows out
Reads-IsListing d f rows out c r =
    let shown = page d.at_most f rows in
    let l = length-Reads d shown out r in
    record {
      bounded = omega (arith, l, length-page_le d.at_most f rows);
      sound = λ e m.
          let (s, n, q) = row_behind d shown out r m in
          let (k, h) = mem-page d.at_most f rows n in (s, k, h, q);
      ordered = IsArranged-Reads d shown out r (page-IsArranged d.at_most c f rows);
      complete = λ s m h. elim (page_complete d.at_most c f rows m h) [
        | inl n ↦ inl (event_from d shown out r n)
        | inr (n, k) ↦ inr (l ∙ n, All-before_Reads d s shown out r k)
      ];
    }
