-- ===== src/Audit.antt =====
-- Audit events: go/pkg/audit (audit.go, httpemit.go), and audit-service's store of them and the handler
-- that takes them in, go/services/audit-service/internal (store/events.go, ingest/handler.go).
pub mod Query
pub mod Entry
use ting_boundless.Base.Results.{Err, Result, ok, err, wrapped, failure, Fate, carried_out}
use ting_boundless.Base.{
  is_none, leb, take, is_nil, not, text_eq, codes, ℕ, Bool, List, Option, Text, ◌||◌, ◌^◌, ◌∷◌,
  if◌then◌else◌, some, none, [],
}
use ting_boundless.Http.{bad_request, internal, write_error, ErrorReply}

-- `Event`. The data are the text of a JSON object, `none` being a nil map; `none` as the time is the
-- zero time.
pub record Event : Type 0 where
  pub id : Text
  pub source : Text
  pub type : Text
  pub subject : Text
  pub time : Option ℕ
  pub tenant_id : Text
  pub actor_user_id : Text
  pub details : Option Text

or_empty_object : Option Text → Text
or_empty_object none = codes "{}"
or_empty_object (some o) = o

-- An event as its row reads: no data are the empty object.
unfoldable pub as_row : Event → Event
unfolding or_empty_object
as_row e = record e { details = some (or_empty_object e.details) }

-- The rows of `audit_events`, without the time of receipt.
unfoldable pub find_event : Text → List Event → Option Event
find_event id [] = none
find_event id (e ∷ es) = let rest = find_event id es in if text_eq e.id id then some e else rest

unfoldable pub insert_unless : Option Event → Event → List Event → List Event
insert_unless none e es = as_row e ∷ es
insert_unless (some f) e es = es

-- `INSERT INTO audit_events … ON CONFLICT (id) DO NOTHING`.
unfoldable pub store_event : Event → List Event → List Event
unfolding insert_unless
store_event e es = insert_unless (find_event e.id es) e es

unfoldable pub db_error : Err
db_error = wrapped (codes "insert audit event") (failure (codes "database error"))

-- `Insert`; `connected` says that the pool is not nil.
unfoldable pub insert : Bool → Fate → Event → List Event → Result (Unit {0}) × List Event
insert connected fate e es =
    if connected
    then carried_out fate db_error es (ok tt, store_event e es)
    else (err (failure (codes "database not connected")), es)

-- What the handlers call of Go's library and of go/pkg/contracts: the JSON of an event, the decoder of
-- one, the decoder of an object (`none` is null), its members that are strings (empty where there is
-- none), and `ValidateAuditEvent`.
pub record Codec : Type 0 where
  pub encode : Event → Text
  pub decode : Text → Result Event
  pub object : Text → Result (Option Text)
  pub member : Text → Text → Text
  pub validates : Event → Bool

pub data Reply : Type 0 where
  failed : ErrorReply → Reply
  accepted : Text → Reply  -- 202 with the event's id

unfoldable pub status_of : Reply → ℕ
status_of (failed e) = e.status
status_of (accepted id) = 202

unfoldable pub persisted : Text → Text → Result (Unit {0}) × List Event → Reply × List Event
persisted rid id (ok _, es) = (accepted id, es)
persisted rid id (err e, es) = (
  failed
      (write_error rid (internal (codes "persist_failed") (codes "failed to persist audit event"))),
  es,
)

-- The request's body is cut after so many bytes.
abbrev pub body_limit : ℕ
body_limit = 2 ^ 20

abbrev pub malformed : Text → Text → Text → Reply
malformed rid code message = failed (write_error rid (bad_request code message))

module _ (codec : Codec) (connected : Bool) where
  unfoldable pub take_in : Text → Fate → Result Event → List Event → Reply × List Event
  unfolding persisted
  take_in rid fate (err e) es =
      (malformed rid (codes "invalid_event") (codes "malformed audit event"), es)
  take_in rid fate (ok e) es =
      if is_nil e.id || is_nil e.source || is_nil e.type || is_none e.time
      then (
        malformed rid (codes "invalid_event") (codes "id, source, type, and time are required"),
        es,
      )
      else if not (codec.validates e)
      then (
        malformed rid (codes "invalid_event_data") (codes "event data is not contract-compatible"),
        es,
      )
      else persisted rid e.id (insert connected fate e es)

  unfoldable pub read_body : Text → Fate → Result Text → List Event → Reply × List Event
  unfolding take_in
  read_body rid fate (err e) es =
      (malformed rid (codes "invalid_body") (codes "could not read request body"), es)
  read_body rid fate (ok raw) es = take_in rid fate (codec.decode (take body_limit raw)) es

  -- `handle`; `has_events` says that the writer is not nil, and the body is what reading it gave.
  unfoldable pub ingest : Bool → Text → Fate → Result Text → List Event → Reply × List Event
  unfolding read_body
  ingest has_events rid fate body es =
      if not has_events
      then (
        failed (
            write_error rid
              (internal (codes "database_unavailable") (codes "audit database not connected"))),
        es,
      )
      else read_body rid fate body es

module _ {W : Type 0} (encode : Event → Text) (post : Text → W → Result ℕ × W) where
  unfoldable pub posted : Result ℕ × W → Result (Unit {0}) × W
  posted (err e, w) = (err (wrapped (codes "audit post") e), w)
  posted (ok status, w) =
      if leb 300 status then (err (failure (codes "audit post: status")), w) else (ok tt, w)

  -- `HTTPEmitter.Emit`; `enabled` says that there is a base URL, and `post` sends a body to it.
  unfoldable pub emit : Bool → Event → W → Result (Unit {0}) × W
  unfolding posted
  emit enabled e w =
      if not enabled
      then (ok tt, w)
      else if is_nil e.id || is_nil e.source || is_nil e.type
      then (err (failure (codes "audit event: id, source, and type are required")), w)
      else posted (post (encode e) w)
