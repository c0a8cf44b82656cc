-- ===== src/Worker/Queue.antt =====
-- The queue of jobs: go/pkg/mq (topology.go, publish.go, the marshalling of job.go, and NewConsumer and Run
-- of consumer.go). The AMQP library is a record of what its calls answer and change.
pub mod Laws
use ting_boundless.Base.{
  leb, not, Bool, codes, Option, is_nil, ℕ, List, Text, ◌||◌, ◌++◌, ◌∷◌, if◌then◌else◌, some, none,
  [],
}
use ting_boundless.Base.Results.{failure, wrapped, Result, err, ok}
use ting_boundless.Httpx.{env, Environment}
use ting_boundless.Worker.{handle_delivery, Disposal, Delivery, Job}

-- `WorkQueue`.
pub record WorkQueue : Type 0 where
  pub exchange : Text
  pub queue : Text
  pub dlx : Text
  pub dlq : Text
  pub routing_key : Text

-- `DefaultWorkQueue`.
unfoldable pub default_work_queue : Environment → WorkQueue
default_work_queue e =
    let prefix = env e (codes "RABBITMQ_QUEUE_PREFIX") (codes "ting.jobs") in
    record {
      exchange = prefix;
      queue = prefix ++ codes ".platform";
      dlx = prefix ++ codes ".dlx";
      dlq = prefix ++ codes ".platform.dlq";
      routing_key = codes "platform";
    }

-- The queue where its exchange is named, and else the default one.
unfoldable pub queue_or_default : Environment → WorkQueue → WorkQueue
queue_or_default e q = if is_nil q.exchange then default_work_queue e else q

-- The calls on a channel that declare: a durable direct exchange, a durable queue with the exchange and
-- the key to which it dead-letters, and a binding of a queue by a key to an exchange.
pub data Declaration : Type 0 where
  exchange_declare : Text → Declaration
  queue_declare : Text → Option (Text × Text) → Declaration
  queue_bind : Text → Text → Text → Declaration

-- A channel: what a declaration answers, and what a publication of a persistent JSON message by a key to
-- an exchange does.
pub record Channel (W : Type 0) : Type 0 where
  pub call : Declaration → W → Result (Unit {0}) × W
  pub publish : Text → Text → Text → W → Result (Unit {0}) × W

-- What `Declare` asks for, each with the words its error is wrapped in.
unfoldable pub declarations : WorkQueue → List (Text × Declaration)
declarations q =
    (codes "declare exchange", exchange_declare q.exchange)
    ∷ (codes "declare dlx", exchange_declare q.dlx)
    ∷ (codes "declare dlq", queue_declare q.dlq none)
    ∷ (codes "bind dlq", queue_bind q.dlq q.routing_key q.dlx)
    ∷ (codes "declare queue", queue_declare q.queue (some (q.dlx, q.routing_key)))
    ∷ (codes "bind queue", queue_bind q.queue q.routing_key q.exchange)
    ∷ []

-- `Marshal`; `encode` is `json.Marshal` of a job.
unfoldable pub stamped : ℕ → Job → Job
stamped now j = record j { time = elim j.time [ none ↦ some now | some t ↦ some t ] }

unfoldable pub marshal : (Job → Result Text) → ℕ → Job → Result Text
unfolding stamped
marshal encode now j =
    if is_nil j.type || is_nil j.id
    then err (failure (codes "job id and type are required"))
    else encode (stamped now j)

module _ {W : Type 0} (channel : Channel W) where
  open channel use {call, publish}

  unfoldable pub declare_next :
      Text → (W → Result (Unit {0}) × W) → Result (Unit {0}) × W → Result (Unit {0}) × W
  declare_next what next (ok _, w) = next w
  declare_next what next (err e, w) = (err (wrapped what e), w)

  unfoldable pub declare_all : List (Text × Declaration) → W → Result (Unit {0}) × W
  unfolding declare_next
  declare_all [] w = (ok tt, w)
  declare_all ((what, d) ∷ ds) w = declare_next what (declare_all ds) (call d w)

  -- `Declare` on a channel that is not nil.
  unfoldable pub declare : WorkQueue → W → Result (Unit {0}) × W
  unfolding declare_all declarations
  declare q w = declare_all (declarations q) w

  unfoldable pub publish_body : WorkQueue → Result Text → W → Result (Unit {0}) × W
  publish_body q (err e) w = (err e, w)
  publish_body q (ok body) w = publish q.exchange q.routing_key body w

  -- `Publish`; `none` is a nil publisher or channel.
  unfoldable pub publish_job :
      (Job → Result Text) → ℕ → Option WorkQueue → Job → W → Result (Unit {0}) × W
  unfolding publish_body marshal
  publish_job encode now none j w = (err (failure (codes "publisher unavailable")), w)
  publish_job encode now (some q) j w = publish_body q (marshal encode now j) w

  unfoldable pub declared_publisher :
      WorkQueue → Result (Unit {0}) × W → Result (Option WorkQueue) × W
  declared_publisher q (ok _, w) = (ok (some q), w)
  declared_publisher q (err e, w) = (err e, w)

-- `NewPublisher`: a connection opens a channel, or fails to; `none` is a nil connection. The publisher is
-- its queue, on that channel.
unfoldable pub new_publisher :
    {W : Type 0}
    → Environment
    → Option (Result (Channel W))
    → WorkQueue
    → W
    → Result (Option WorkQueue) × W
unfolding queue_or_default declared_publisher declare
new_publisher e none q w = (err (failure (codes "rabbitmq connection is nil")), w)
new_publisher e (some (err x)) q w = (err (wrapped (codes "open channel") x), w)
new_publisher e (some (ok channel)) q w =
    declared_publisher channel (queue_or_default e q) (declare channel (queue_or_default e q) w)

-- `ConsumerConfig`, without the connection, the handler and the logger.
pub record ConsumerConfig : Type 0 where
  pub queue : WorkQueue
  pub prefetch : ℕ
  pub max_retries : ℕ

unfoldable pub int_or : ℕ → Option ℕ → ℕ
int_or default none = default
int_or default (some n) = n

-- `envInt`; `atoi` is `strconv.Atoi` with `none` for an error and for a number below 0.
unfoldable pub setting : (Text → Option ℕ) → Environment → Text → ℕ → ℕ
unfolding int_or
setting atoi e key default =
    let v = env e key [] in if is_nil v then default else int_or default (atoi v)

-- `NewConsumer`; `none` is nil. A number that is not positive is 0.
unfoldable pub new_consumer :
    (Text → Option ℕ) → Environment → Bool → Bool → ConsumerConfig → Option ConsumerConfig
unfolding setting queue_or_default
new_consumer atoi e has_conn has_handler cfg =
    if not has_conn || not has_handler
    then none
    else some (record {
      queue = queue_or_default e cfg.queue;
      prefetch =
          if leb cfg.prefetch 0
          then setting atoi e (codes "RABBITMQ_PREFETCH") 10
          else cfg.prefetch;
      max_retries =
          if leb cfg.max_retries 0
          then setting atoi e (codes "RABBITMQ_MAX_RETRIES") 3
          else cfg.max_retries;
    })

-- The loop of `Run` over the deliveries that arrive until it ends: what is asked of the broker for each.
unfoldable pub run_deliveries :
    {W : Type 0}
    → (Text → Result Job)
    → ℕ
    → (Job → W → Result (Unit {0}) × W)
    → ConsumerConfig
    → List Delivery
    → W
    → List Disposal × W
run_deliveries decode now handler cfg [] w = ([], w)
run_deliveries decode now handler cfg (d ∷ ds) w =
    let out = handle_delivery decode now handler cfg.max_retries d w in
    let rest = run_deliveries decode now handler cfg ds out.1 in (out.0 ∷ rest.0, rest.1)
