-- ===== src/Worker/Queue/Laws.antt =====
-- That a job that is published is the job that is handled.
use ting_boundless.Worker.Queue.{stamped, marshal, publish_job, publish_body, Channel, WorkQueue}
use ting_boundless.Base.{
  ap, arith, Bool-cases, Option, is_nil, Text, ℕ, ◌∙◌, ◌||◌, ◌≡◌, refl, inr, inl, false, some, none,
}
use ting_boundless.Base.Results.{Result, ok}
use ting_boundless.Worker.{
  handle_delivery, Job, death_count, disposed, Delivery, handled, parse_job, stamped_time,
}

marshal-named :
    (encode : Job → Result Text) (now : ℕ) (j : Job) {body : Text}
    → marshal encode now j ≡ ok body
    → ((is_nil j.type || is_nil j.id) ≡ false) × (encode (stamped now j) ≡ ok body)
unfolding marshal
marshal-named encode now j h = elim (Bool-cases (is_nil j.type || is_nil j.id)) [
  | inl b ↦ absurd (ground (arith, b, h))
  | inr b ↦ (b, ground (arith, b, h))
]

-- A time that was stamped is not stamped again.
stamped_twice :
    (later now : ℕ) (o : Option ℕ)
    → let t : Option ℕ = elim o [ none ↦ some now | some t ↦ some t ] in stamped_time later t ≡ t
unfolding stamped_time
stamped_twice later now none = refl
stamped_twice later now (some t) = refl

parse-stamped :
    (decode : Text → Result Job) (later now : ℕ) (j : Job) (body : Text)
    → (is_nil j.type || is_nil j.id) ≡ false
    → decode body ≡ ok (stamped now j)
    → parse_job decode later body ≡ ok (stamped now j)
unfolding parse_job stamped
parse-stamped decode later now j body n d =
    let a : is_nil j.type ≡ false = ground (arith, n) in
    let b : is_nil j.id ≡ false = ground (arith, n) in
    rw (d, a, b) (ap (λ t. ok (record j { time = t })) (stamped_twice later now j.time))

-- A job that `Marshal` makes a body of, with the zero time replaced by the current one, is sent as that
-- body to the exchange of the publisher's queue with its key; and a consumer that is delivered the body,
-- at any later time and after any number of deaths, runs its handler on that job and disposes of the
-- delivery by what the handler returned. The JSON of a job is read back as it was written.
pub publish_job-handled :
    {W V : Type 0} (channel : Channel W) (encode : Job → Result Text) (decode : Text → Result Job)
    (now later : ℕ) (q : WorkQueue) (j : Job) (body : Text) (w : W)
    (handler : Job → V → Result (Unit {0}) × V) (max_retries : ℕ) (d : Delivery) (v : V)
    → ((k : Job) (raw : Text) → encode k ≡ ok raw → decode raw ≡ ok k)
    → marshal encode now j ≡ ok body
    → d.body ≡ body
    → (publish_job channel encode now (some q) j w
        ≡ channel.publish q.exchange q.routing_key body w)
      × (handle_delivery decode later handler max_retries d v
          ≡ disposed max_retries (death_count d) (handler (stamped now j) v))
unfolding publish_job publish_body handle_delivery handled
publish_job-handled channel encode decode now later q j body w handler max_retries d v law h same =
    let (n, e) = marshal-named encode now j h in
    (
      rw h refl,
      ap (handled handler max_retries (death_count d) v) (
          ap (parse_job decode later) same
          ∙ parse-stamped decode later now j body n (law (stamped now j) body e)),
    )
