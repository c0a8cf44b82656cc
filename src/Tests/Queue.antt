-- ===== src/Tests/Queue.antt =====
-- A job that is published and then handled.
use ting_boundless.Worker.Queue.{publish_job, WorkQueue, Channel, stamped, marshal}
use ting_boundless.Base.{
  sym, ap, ℕ_discrete, arith, codes, Text, List, ◌∷◌, ◌≡◌, refl, some, none, [],
}
use ting_boundless.Base.Results.{failure, Result, err, ok}
use ting_boundless.Worker.{disposed, death_count, Delivery, handle_delivery, Death, Job}
use ting_boundless.Worker.Queue.Laws.{publish_job-handled}

abbrev ping : Job
ping = record {
  id = codes "1";
  type = codes "ping";
  time = some 5;
  actor = [];
  tenant = [];
  item_id = none;
}

abbrev delivery : List Death → Delivery
delivery ds = record { body = codes "ping"; deaths = some ds }

abbrev always_fails : Job → Unit {0} → Result (Unit {0}) × Unit {0}
always_fails j w = (err (failure (codes "no")), tt)

abbrev decode_ping : Text → Result Job
decode_ping raw = ok ping

-- A queue that keeps the bodies sent to it.
abbrev jobs_channel : Channel (List Text)
jobs_channel = record {
  call = λ d w. (ok tt, w);
  publish = λ exchange key body w. (ok tt, body ∷ w);
}

abbrev jobs_queue : WorkQueue
jobs_queue = record {
  exchange = codes "jobs";
  queue = codes "jobs.platform";
  dlx = codes "jobs.dlx";
  dlq = codes "jobs.platform.dlq";
  routing_key = codes "platform";
}

-- A JSON of jobs that writes one job.
Job-discrete : Discrete Job
Job-discrete = hlevel ℕ_discrete

written : {P : Type 0} → Dec P → Result Text
written (Dec.yes p) = ok (codes "ping")
written (Dec.no n) = err (failure [])

encode_ping : Job → Result Text
unfolding written
encode_ping j = written (Job-discrete j ping)

written-ok : {P : Type 0} (d : Dec P) {raw : Text} → written d ≡ ok raw → P
unfolding written
written-ok (Dec.yes p) h = p
written-ok (Dec.no n) h = absurd (ground (arith, h))

written_yes : {P : Type 0} (d : Dec P) → P → written d ≡ ok (codes "ping")
unfolding written
written_yes (Dec.yes p) q = refl
written_yes (Dec.no n) q = absurd (n q)

ping_marshalled : marshal encode_ping 5 ping ≡ ok (codes "ping")
unfolding marshal stamped encode_ping codes
ping_marshalled = written_yes (Job-discrete ping ping) refl

publish_job-handled_example :
    (publish_job jobs_channel encode_ping 5 (some jobs_queue) ping [] ≡ (ok tt, codes "ping" ∷ []))
    × (handle_delivery decode_ping 9 always_fails 3 (delivery []) tt
        ≡ disposed 3 (death_count (delivery [])) (always_fails (stamped 5 ping) tt))
publish_job-handled_example =
    publish_job-handled jobs_channel encode_ping decode_ping 5 9 jobs_queue ping (codes "ping") []
      always_fails 3 (delivery []) tt (λ k raw h. ap (λ j. ok j) (sym (of_written k h)))
      ping_marshalled refl
  where
    of_written : (k : Job) {raw : Text} → encode_ping k ≡ ok raw → k ≡ ping
    of_written k h = unfold encode_ping in written-ok (Job-discrete k ping) h
