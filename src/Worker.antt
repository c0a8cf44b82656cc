-- ===== src/Worker.antt =====
-- The worker's side of the message queue: go/pkg/mq/consumer.go (handleDelivery, deathCount),
-- go/pkg/mq/job.go (ParseJob) and go/services/worker/internal/jobs/router.go. The broker is not modelled:
-- handling a delivery gives what the consumer asks of it.
pub mod Attempts
pub mod Effects
pub mod Queue
use ting_boundless.Base.{
  is_nil, codes, ltb, text_eq, Bool, Option, List, ℕ, Text, ◌||◌, ◌+◌, ◌∷◌, if◌then◌else◌, some,
  none, [],
}
use ting_boundless.Base.Results.{◌>>=◌, wrapped, failure, Result, err, ok}

-- `Job`, with the part of its payload that the router reads: `none` is a missing `item_id`, and one
-- that is not a string is empty. `none` as the time is the zero time.
pub record Job : Type 0 where
  pub id : Text
  pub type : Text
  pub time : Option ℕ
  pub actor : Text
  pub tenant : Text
  pub item_id : Option Text

-- One entry of the header `x-death`: its count, where it is a table with a number.
pub data Death : Type 0 where
  counted : ℕ → Death
  uncounted : Death

-- `amqp.Delivery`; `none` is a header that is absent or no list.
pub record Delivery : Type 0 where
  pub body : Text
  pub deaths : Option (List Death)

-- What is asked of the broker: Ack, Nack without requeue (to the dead-letter queue), or Nack with it.
pub data Disposal : Type 0 where
  acked dead_lettered requeued : Disposal

unfoldable pub stamped_time : ℕ → Option ℕ → Option ℕ
stamped_time now none = some now
stamped_time now (some t) = some t

-- `ParseJob`; `decode` is `json.Unmarshal`.
unfoldable pub parse_job : (Text → Result Job) → ℕ → Text → Result Job
unfolding stamped_time
parse_job decode now raw = do
  j ← decode raw
  if is_nil j.type
      then err (failure (codes "job type is required"))
      else if is_nil j.id
      then err (failure (codes "job id is required"))
      else ok (record j { time = stamped_time now j.time })

count_of : Death → ℕ
count_of (counted n) = n
count_of uncounted = 0

total : List Death → ℕ
unfolding count_of
total [] = 0
total (d ∷ ds) = count_of d + total ds

deaths_of : Option (List Death) → ℕ
unfolding total
deaths_of none = 0
deaths_of (some ds) = total ds

-- `deathCount`.
unfoldable pub death_count : Delivery → ℕ
unfolding deaths_of
death_count d = deaths_of d.deaths

-- `effects.Record`, whose result says whether it was the first delivery of the job.
abbrev pub RecordEffect : Type 0 → Type 0
RecordEffect W = Job → Text → W → Result Bool × W

module _ {W : Type 0} where
  unfoldable pub recorded : Result Bool × W → Result (Unit {0}) × W
  recorded (ok inserted, w) = (ok tt, w)
  recorded (err e, w) = (err (wrapped (codes "record business item effect") e), w)

  unfoldable pub with_item : Option (RecordEffect W) → Job → W → Option Text → Result (Unit {0}) × W
  unfolding recorded
  with_item effects j w none = (err (failure (codes "job payload missing item_id")), w)
  with_item effects j w (some item) =
      if is_nil item
      then (err (failure (codes "job payload item_id must be a non-empty string")), w)
      else elim effects [
        | none ↦ (ok tt, w)
        | some record_effect ↦ recorded (record_effect j item w)
      ]

  -- `Router.Handle` and `handleBusinessItem`; `none` is no store of effects.
  unfoldable pub handle_job : Option (RecordEffect W) → Job → W → Result (Unit {0}) × W
  unfolding with_item
  handle_job effects j w =
      if text_eq j.type (codes "business.item.created")
        || text_eq j.type (codes "business.item.updated")
        || text_eq j.type (codes "business.item.deleted")
      then with_item effects j w j.item_id
      else (ok tt, w)

  unfoldable pub disposed : ℕ → ℕ → Result (Unit {0}) × W → Disposal × W
  disposed max_retries deaths (ok _, w) = (acked, w)
  disposed max_retries deaths (err e, w) =
      (if ltb (deaths + 1) max_retries then requeued else dead_lettered, w)

  unfoldable pub handled : (Job → W → Result (Unit {0}) × W) → ℕ → ℕ → W → Result Job → Disposal × W
  unfolding disposed
  handled handler max_retries deaths w (err e) = (dead_lettered, w)
  handled handler max_retries deaths w (ok j) = disposed max_retries deaths (handler j w)

  -- `handleDelivery`.
  unfoldable pub handle_delivery :
      (Text → Result Job) → ℕ → (Job → W → Result (Unit {0}) × W) → ℕ → Delivery → W → Disposal × W
  handle_delivery decode now handler max_retries d w =
      handled handler max_retries (death_count d) w (parse_job decode now d.body)
