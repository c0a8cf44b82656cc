-- ===== src/Audit/Query/Rows.antt =====
-- The rows that a listing of audit events selects, and their order.
use ting_boundless.Audit.{Event}
use mathlib.Core.List.{Memᴰ}
use ting_boundless.Base.{
  arranged, keep, ℕ, Bool, mem_of_take, mem-arranged, arranged-IsArranged, mem-keep, among_first,
  length-take_le, All, take-IsArranged, length, IsArranged, Bool-cases, arith, List, Text, ◌≤◌, ◌⊎◌,
  ◌≡◌, inr, inl, false, true,
}
use ting_boundless.Audit.Query.{is_selected, ListFilter, newest_first, row_limit, page}

-- The collation of the ids is a total order.
pub record IsCollation (at_most : Text → Text → Bool) : Type 0 where
  pub total : (s t : Text) → at_most s t ≡ false → at_most t s ≡ true
  pub trans : (s t u : Text) → at_most s t ≡ true → at_most t u ≡ true → at_most s u ≡ true

module _ (at_most : Text → Text → Bool) (collation : IsCollation at_most) where
  open collation use {total, trans}

  newest_first_total :
      (e f : Event) → newest_first at_most e f ≡ false → newest_first at_most f e ≡ true
  unfolding newest_first
  newest_first_total e f h = elim (Bool-cases (at_most f.id e.id)) [
    | inl b ↦ ground (arith, b, h)
    | inr b ↦ ground (arith, b, total f.id e.id b, h)
  ]

  newest_first_trans :
      (e f g : Event)
      → newest_first at_most e f ≡ true
      → newest_first at_most f g ≡ true
      → newest_first at_most e g ≡ true
  unfolding newest_first
  newest_first_trans e f g h k = ground (arith, h, k, trans g.id f.id e.id)

  pub page-IsArranged :
      (f : ListFilter) (es : List Event) → IsArranged (newest_first at_most) (page at_most f es)
  unfolding page
  page-IsArranged f es =
      take-IsArranged (newest_first at_most) (row_limit f.limit)
        (arranged (newest_first at_most) (keep (is_selected f) es))
        (arranged-IsArranged (newest_first at_most) newest_first_total newest_first_trans
          (keep (is_selected f) es))

  pub page_complete :
      (f : ListFilter) (es : List Event) {s : Event}
      → Memᴰ s es
      → is_selected f s ≡ true
      → Memᴰ s (page at_most f es)
        ⊎ ((length (page at_most f es) ≡ row_limit f.limit)
            × All (λ e. newest_first at_most e s ≡ true) (page at_most f es))
  unfolding page
  page_complete f es {s} m h =
      let kept = keep (is_selected f) es in
      among_first (newest_first at_most) (row_limit f.limit) (arranged (newest_first at_most) kept)
        (arranged-IsArranged (newest_first at_most) newest_first_total newest_first_trans kept)
        ((mem-arranged (newest_first at_most) kept).1 ((mem-keep (is_selected f) es).1 (m, h)))

pub mem-page :
    (at_most : Text → Text → Bool) (f : ListFilter) (es : List Event) {s : Event}
    → Memᴰ s (page at_most f es)
    → Memᴰ s es × (is_selected f s ≡ true)
unfolding page
mem-page at_most f es m =
    let kept = keep (is_selected f) es in
    (mem-keep (is_selected f) es).0 (
      (mem-arranged (newest_first at_most) kept).0
        (mem_of_take (row_limit f.limit) (arranged (newest_first at_most) kept) m))

pub row_limit_bounds : (n : ℕ) → row_limit n ≤ 100
unfolding row_limit
row_limit_bounds n = ground arith

pub length-page_le :
    (at_most : Text → Text → Bool) (f : ListFilter) (es : List Event)
    → length (page at_most f es) ≤ row_limit f.limit
unfolding page
length-page_le at_most f es =
    length-take_le (row_limit f.limit) (arranged (newest_first at_most) (keep (is_selected f) es))
