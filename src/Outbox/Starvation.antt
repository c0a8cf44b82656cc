-- ===== src/Outbox/Starvation.antt =====
-- What happens when no row of a batch has an event.
use ting_boundless.Audit.{Codec}
use ting_boundless.Base.Results.{Err, Result-cases, is_err, Fate-cases, next_fate}
use ting_boundless.Outbox.{
  or_first, is_published, oldest_first, pass, publish_event, batch, dispatch_batch, publish_all,
  publish_row, System, OutboxRow, dispatch_once, row_to_event,
}
use ting_boundless.Base.{
  ap₂, text_eq, any, not, keep, sort_by, reversed, take, arith, subst, Text, Option, List, ℕ, ◌∙◌,
  ◌∷◌, ◌≡◌, refl, inr, inl, true, none, suc, zero, [],
}
use mathlib.Core.List.{Memᴰ}

module _ (codec : Codec) where
  -- `Run` of the dispatcher for so many ticks: one round after another, the errors only logged.
  unfoldable pub rounds : ℕ → System → System
  rounds zero s = s
  rounds (suc n) s = (dispatch_once codec (rounds n s)).1

  -- The tables are the same.
  abbrev pub IsSame : System → System → Type 0
  IsSame s t = (t.rows ≡ s.rows) × (t.published ≡ s.published) × (t.events ≡ s.events)

  publish_row-IsSame :
      (r : OutboxRow) (s : System)
      → is_err (row_to_event codec r) ≡ true
      → IsSame s (publish_row codec r s).1
  unfolding publish_row publish_event
  publish_row-IsSame r s h = elim (Result-cases (row_to_event codec r)) [
    | inl (ev, q) ↦ absurd (ground (arith, q, h))
    | inr (e, q) ↦ rw q (refl, refl, refl)
  ]

  publish_all-IsSame :
      (rs : List OutboxRow) (first : Option Err) (s : System)
      → ((r : OutboxRow) → Memᴰ r rs → is_err (row_to_event codec r) ≡ true)
      → IsSame s (publish_all codec rs first s).1
  unfolding publish_all
  publish_all-IsSame [] first s h = (refl, refl, refl)
  publish_all-IsSame (r ∷ rs) first s h =
      let (a, b, c) = publish_row-IsSame r s (h r (Memᴰ.head refl)) in
      let (d, e, f) =
        publish_all-IsSame rs (or_first first (publish_row codec r s).0) (publish_row codec r s).1
          (λ q m. h q (Memᴰ.tail m)) in
      (d ∙ a, e ∙ b, f ∙ c)

  dispatch_once-IsSame :
      (s : System)
      → ((r : OutboxRow) → Memᴰ r (batch s) → is_err (row_to_event codec r) ≡ true)
      → IsSame s (dispatch_once codec s).1
  unfolding dispatch_once dispatch_batch pass
  dispatch_once-IsSame s h = elim (Fate-cases (next_fate s.turns)) [
    | inl f ↦ rw f (publish_all-IsSame (batch s) none (pass s) h)
    | inr (inl f) ↦ rw f (refl, refl, refl)
    | inr (inr f) ↦ rw f (refl, refl, refl)
  ]

  batch-IsSame : (s t : System) → IsSame s t → batch t ≡ batch s
  unfolding batch oldest_first is_published
  batch-IsSame s t (a, b, c) = ap₂ (λ rows ps. batch_of rows ps) a b
    where
      batch_of : List OutboxRow → List Text → List OutboxRow
      batch_of rows ps =
          take 50
            (reversed (sort_by (λ r. r.created_at) (keep (λ r. not (any (text_eq r.id) ps)) rows)))

  -- When no row of a batch has a payload that decodes, no number of rounds publishes or stores anything,
  -- so that a row behind the batch is never taken on.
  pub rounds-IsSame :
      (n : ℕ) (s : System)
      → ((r : OutboxRow) → Memᴰ r (batch s) → is_err (row_to_event codec r) ≡ true)
      → IsSame s (rounds n s) × (batch (rounds n s) ≡ batch s)
  unfolding rounds
  rounds-IsSame zero s h = ((refl, refl, refl), refl)
  rounds-IsSame (suc n) s h =
      let ((a, b, c), e) = rounds-IsSame n s h in
      let t = rounds n s in
      let (d, f, g) = dispatch_once-IsSame t (λ r m. h r (subst (Memᴰ r) e m)) in
      ((d ∙ a, f ∙ b, g ∙ c), batch-IsSame t (dispatch_once codec t).1 (d, f, g) ∙ e)
