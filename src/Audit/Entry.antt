-- ===== src/Audit/Entry.antt =====
-- The Gateway's entry events: go/pkg/audit/entry.go and async.go, with the emitter and the audit service
-- behind them.
pub mod Laws
use ting_boundless.Base.{
  is_nil, not, text_eq, codes, Bool, ℕ, Text, List, ◌&&◌, ◌++◌, ◌∷◌, if◌then◌else◌, false, true,
  some, none, suc, zero, [],
}
use ting_boundless.Base.Results.{answered, Result, err, ok}
use ting_boundless.Http.{x_real_ip, x_forwarded_for, get, Request}
use ting_boundless.Trace.{hex}
use ting_boundless.Audit.{Event, Codec, status_of, emit, ingest}

-- The data of an event, as the members of the JSON object.
abbrev pub Members : Type 0
Members = List (Text × Text)

-- `m[k] = v`.
unfoldable pub put : Text → Text → Members → Members
put k v [] = (k, v) ∷ []
put k v ((j, w) ∷ m) = let rest = put k v m in if text_eq j k then (k, v) ∷ m else (j, w) ∷ rest

unfoldable pub put_all : Members → Members → Members
unfolding put
put_all [] m = m
put_all ((k, v) ∷ extra) m = put_all extra (put k v m)

-- `clientIP`.
unfoldable pub client_ip : Request → Text
client_ip r =
    if not (is_nil (get r.headers x_forwarded_for))
    then get r.headers x_forwarded_for
    else if not (is_nil (get r.headers x_real_ip))
    then get r.headers x_real_ip
    else r.remote_addr

unfoldable pub zeros : ℕ → List ℕ
zeros zero = []
zeros (suc n) = 0 ∷ zeros n

-- `newID`, from what `rand.Read` gave: the error is ignored, and then the bytes are zeros.
unfoldable pub new_id : Result (List ℕ) → Text
unfolding zeros
new_id (ok bytes) = hex bytes
new_id (err e) = hex (zeros 16)

-- `NewEvent`.
unfoldable pub new_event : Result (List ℕ) → ℕ → Text → Text → Event
unfolding new_id
new_event random now source type = record {
  id = new_id random;
  source = source;
  type = type;
  subject = [];
  time = some now;
  tenant_id = [];
  actor_user_id = [];
  details = none;
}

unfoldable pub with_client_ip : Text → Members → Members
unfolding put
with_client_ip ip m = if is_nil ip then m else put (codes "client_ip") ip m

unfoldable pub entry_members : Request → Text → Members → Members
unfolding put_all with_client_ip client_ip
entry_members r rid extra = put_all extra (
    with_client_ip (client_ip r)
      ((codes "path", r.path) ∷ (codes "method", r.method) ∷ (codes "request_id", rid) ∷ []))

-- `EntryEvent`; `object` is the JSON of the data.
unfoldable pub entry_event :
    (Members → Text) → Result (List ℕ) → ℕ → Text → Request → Text → Members → Event
unfolding new_event entry_members
entry_event object random now type r rid extra =
    record (new_event random now (codes "gateway") type) {
      subject = r.method ++ b' ' ∷ r.path;
      details = some (object (entry_members r rid extra));
    }

-- The events whose goroutines have not run yet, and what the emitter behind changes.
pub record Background (W : Type 0) : Type 0 where
  pub pending : List Event
  pub world : W

-- `NewAsync`, as whether there is an `Async` afterwards; `is_http` says that the emitter is an
-- `HTTPEmitter`, and `enabled` what its `Enabled` answers.
unfoldable pub new_async : Bool → Bool → Bool → Bool
new_async has_inner is_http enabled =
    if not has_inner then false else if is_http && not enabled then false else true

module _ {W : Type 0} where
  -- `Emit` of an `Async` that may be nil: the event is left to a goroutine.
  unfoldable pub schedule : Bool → Event → Background W → Result (Unit {0}) × Background W
  schedule has_async e b =
      if not has_async then (ok tt, b) else (ok tt, record b { pending = e ∷ b.pending })

  -- `EmitEntry`, which ignores the error; `has_emitter` says that the emitter is not nil, and the
  -- arguments of `EntryEvent` are as there.
  unfoldable pub emit_entry :
      Bool
      → Bool
      → (Members → Text)
      → Result (List ℕ)
      → ℕ
      → Request
      → Text
      → Text
      → Members
      → Background W
      → Background W
  unfolding schedule entry_event
  emit_entry has_emitter has_async object random now r rid type extra b =
      if not has_emitter
      then b
      else (schedule has_async (entry_event object random now type r rid extra) b).1

  -- One goroutine runs, whichever: it emits its event, and an error is only logged.
  pub data Runs (inner : Event → W → Result (Unit {0}) × W)
      : Background W → Background W → Type 0 where
    finished : {b : Background W} → Runs inner b b
    sends :
        {c : Background W} (front : List Event) (e : Event) (later : List Event) (w : W)
        → Runs inner (record { pending = front ++ later; world = (inner e w).1 }) c
        → Runs inner (record { pending = front ++ e ∷ later; world = w }) c

-- The inner emitter over the handler of the audit service, all calls of which are answered. The
-- world is the table of events.
unfoldable pub post_answered : Codec → Text → List Event → Result ℕ × List Event
post_answered codec body es =
    let out = ingest codec true true [] answered (ok body) es in (ok (status_of out.0), out.1)

unfoldable pub emit_answered : Codec → Event → List Event → Result (Unit {0}) × List Event
unfolding post_answered
emit_answered codec e es = emit codec.encode (post_answered codec) true e es
