-- ===== src/Worker/Effects/Laws.antt =====
-- That a job has one effect, however often it is delivered.
use ting_boundless.Worker.{
  parse_job, handle_delivery, Delivery, handle_job, with_item, recorded, acked, requeued,
  dead_lettered, Job, Disposal,
}
use ting_boundless.Base.Results.{
  ok_eq, failure, carried_out, Fate, Err, Result, err, ok, refused, lost, is_err, answered,
  next_fate,
}
use ting_boundless.Worker.Effects.{
  not_connected, db_error, insert_once, effect_of, is_of_job, next_turn, record_effect, insert_once,
  Effects, Effect,
}
use ting_boundless.Base.{
  sym, subst, Option, codes, not, text_eq, if-both, ◌∙◌, ◌⊎◌, refl, some, none, is_nil,
  text_eq_refl, ℕ, Bool-cases, arith, Bool, any, Text, List, ◌||◌, ◌∷◌, ◌≡◌, inr, inl, false, true,
  [],
}
use mathlib.Core.List.{Memᴰ}
use ting_boundless.Worker.Attempts.{handle_delivery_cases}

-- No two rows are of one job.
abbrev pub HasUniqueJobs : List Effect → Type 0
HasUniqueJobs [] = Unit
HasUniqueJobs (e ∷ es) = (any (is_of_job e.job_id) es ≡ false) × HasUniqueJobs es

abbrev pub Keeps : Effects → Effects → Type 0
Keeps s t = (e : Effect) → Memᴰ e s.rows → Memᴰ e t.rows

abbrev pub HasEffect : Text → Effects → Type 0
HasEffect id s = any (is_of_job id) s.rows ≡ true

-- What a call leaves that succeeds only when the job has an effect.
abbrev pub Once : {A : Type 0} → Text → Effects → Result A × Effects → Type 0
Once id s out =
    HasUniqueJobs out.1.rows × Keeps s out.1 × (is_err out.0 ≡ false → HasEffect id out.1)

Once-err :
    (A : Type 0) (id : Text) (s : Effects) (e : Err)
    → HasUniqueJobs s.rows
    → Once {A = A} id s (err e, s)
Once-err A id s e u = (u, λ x m. m, λ h. absurd (ground arith))

insert_once-Once :
    (e : Effect) (s : Effects) → HasUniqueJobs s.rows → Once e.job_id s (insert_once e s)
unfolding insert_once any is_of_job
insert_once-Once e s u = elim (Bool-cases (any (is_of_job e.job_id) s.rows)) [
  | inl b ↦ rw b (u, λ x m. m, λ h. b)
  | inr b ↦ rw b ((b, u), λ x m. Memᴰ.tail m, λ h. ground (arith, text_eq_refl e.job_id))
]

carried_out-Once :
    (id : Text) (f : Fate) (e : Err) (s t : Effects) (out : Result Bool × Effects)
    → t.rows ≡ s.rows
    → HasUniqueJobs s.rows
    → Once id s out
    → Once id s (carried_out f e t out)
carried_out-Once id answered e s t out q u h = h
carried_out-Once id refused e s t out q u h =
    (subst HasUniqueJobs (sym q) u, λ x m. subst (Memᴰ x) (sym q) m, λ k. absurd (ground arith))
carried_out-Once id lost e s t out q u (h, k, l) = (h, k, λ m. absurd (ground arith))

record_effect-Once :
    (now : ℕ) (j : Job) (resource : Text) (s : Effects)
    → HasUniqueJobs s.rows
    → Once j.id s (record_effect now j resource s)
unfolding record_effect next_turn effect_of
record_effect-Once now j resource s u =
    if-both (Once j.id s) (not s.connected) _ _ (λ _. Once-err Bool j.id s not_connected u)
      λ _.
        if-both (Once j.id s) (is_nil j.id || is_nil j.type) _ _
          (λ _. Once-err Bool j.id s (failure (codes "job id and type are required")) u)
          λ _.
            carried_out-Once j.id (next_fate s.turns) (db_error (codes "record job effect")) s
              (next_turn s) (insert_once (effect_of now j resource) (next_turn s)) refl u
              (insert_once-Once (effect_of now j resource) (next_turn s) u)

no_err :
    {d : Disposal} {r : Result (Unit {0})} {P Q O : Type 0}
    → (r ≡ ok tt) × (d ≡ acked) ⊎ P × Q × (d ≡ requeued) ⊎ P × O × (d ≡ dead_lettered)
    → d ≡ acked
    → is_err r ≡ false
no_err (inl (a, b)) k = ground (arith, a)
no_err (inr (inl (a, b, c))) k = absurd (ground (arith, c, k))
no_err (inr (inr (a, b, c))) k = absurd (ground (arith, c, k))

-- A job of the kinds that have effects.
abbrev pub IsBusiness : Job → Type 0
IsBusiness j =
    (text_eq j.type (codes "business.item.created")
      || text_eq j.type (codes "business.item.updated")
      || text_eq j.type (codes "business.item.deleted"))
    ≡ true

recorded-Once :
    (id : Text) (s : Effects) (out : Result Bool × Effects)
    → Once id s out
    → Once id s (recorded out)
unfolding recorded
recorded-Once id s (ok inserted, t) h = h
recorded-Once id s (err e, t) h = h

module _ (now : ℕ) where
  with_item-Once :
      (j : Job) (s : Effects) (item : Option Text)
      → HasUniqueJobs s.rows
      → Once j.id s (with_item (some (record_effect now)) j s item)
  unfolding with_item
  with_item-Once j s none u =
      Once-err (Unit {0}) j.id s (failure (codes "job payload missing item_id")) u
  with_item-Once j s (some item) u =
      if-both (Once j.id s) (is_nil item) _ _
        (λ _.
          Once-err (Unit {0}) j.id s
            (failure (codes "job payload item_id must be a non-empty string")) u)
        λ _. recorded-Once j.id s (record_effect now j item s) (record_effect-Once now j item s u)

  -- The same for any job: it has an effect afterwards if it is of the kinds that have one.
  abbrev pub Handled : {A : Type 0} → Job → Effects → Result A × Effects → Type 0
  Handled j s out =
      HasUniqueJobs out.1.rows
      × Keeps s out.1
      × (is_err out.0 ≡ false → IsBusiness j → HasEffect j.id out.1)

  handle_job-Handled :
      (j : Job) (s : Effects)
      → HasUniqueJobs s.rows
      → Handled j s (handle_job (some (record_effect now)) j s)
  unfolding handle_job
  handle_job-Handled j s u =
      if-both (Handled j s)
        (text_eq j.type (codes "business.item.created")
          || text_eq j.type (codes "business.item.updated")
          || text_eq j.type (codes "business.item.deleted"))
        _ _ (λ _. let (a, b, c) = with_item-Once j s j.item_id u in (a, b, λ h i. c h))
        λ k. (u, λ x m. m, λ h i. absurd (ground (arith, k, i)))

  -- One effect for each job: on a table without two rows of one job, whatever becomes of the
  -- statement, handling a delivery leaves such a table, keeps its rows, and, when a delivery of a
  -- business job is acknowledged, the job has a row.
  pub handle_delivery-Keeps :
      (decode : Text → Result Job) (max_retries : ℕ) (d : Delivery) (s : Effects)
      → HasUniqueJobs s.rows
      → let out =
          handle_delivery decode now (handle_job (some (record_effect now))) max_retries d s in
        HasUniqueJobs out.1.rows
        × Keeps s out.1
        × ((j : Job)
            → parse_job decode now d.body ≡ ok j
            → out.0 ≡ acked
            → IsBusiness j
            → HasEffect j.id out.1)
  handle_delivery-Keeps decode max_retries d s u =
      elim (handle_delivery_cases decode now (handle_job (some (record_effect now))) max_retries d
        s) [
          | inl (e, q, o) ↦ rw o (u, λ x m. m, λ j r k. absurd (ground (arith, k)))
          | inr (j, q, w, c) ↦
              let (a, b, h) = handle_job-Handled j s u in
              (
                subst (λ t. HasUniqueJobs t.rows) (sym w) a,
                subst (λ t. Keeps s t) (sym w) b,
                λ i r k l.
                    subst (λ t. HasEffect i.id t) (sym w)
                      (subst (λ o. HasEffect o.id (handle_job (some (record_effect now)) j s).1)
                        (same_job q r) (h (no_err c k) (subst IsBusiness (sym (same_job q r)) l))),
              )
        ]
    where
      same_job :
          {j i : Job}
          → parse_job decode now d.body ≡ ok j
          → parse_job decode now d.body ≡ ok i
          → j ≡ i
      same_job q r = ok_eq (sym q ∙ r)
