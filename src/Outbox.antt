-- ===== src/Outbox.antt =====
-- The outbox dispatcher of the worker, go/services/worker/internal/outbox/dispatch.go, with the audit
-- emitter and the audit service behind it (Audit). The turns say what becomes of each next call.
pub mod Steps
pub mod Rounds
pub mod Laws
pub mod Delivery
pub mod Starvation
use ting_boundless.Base.Results.{
  answered, Err, Fate, carried_out, next_fate, Result, ok, err, wrapped, failure,
}
use ting_boundless.Audit.{Reply, Event, Codec, emit, ingest, status_of}
use ting_boundless.Base.{
  not, keep, sort_by, text_eq, take, reversed, codes, any, ℕ, is_nil, Option, drop, Bool, List,
  Text, ◌++◌, ◌∷◌, if◌then◌else◌, true, some, none, [],
}

-- A row of `business_outbox`; its payload is JSON. Whether `published_at` is null is kept beside the
-- rows, in `published`.
pub record OutboxRow : Type 0 where
  pub id : Text
  pub event_type : Text
  pub payload : Text
  pub created_at : ℕ

-- The table of the outbox, the ids of its rows that have a `published_at`, the table of the audit
-- service, and the fates of the next calls.
pub record System : Type 0 where
  pub rows : List OutboxRow
  pub published : List Text
  pub events : List Event
  pub turns : List Fate

unfoldable pub is_published : System → OutboxRow → Bool
is_published s r = any (text_eq r.id) s.published

unfoldable pub db_error : Err
db_error = failure (codes "database error")

-- `ORDER BY created_at`.
unfoldable pub oldest_first : List OutboxRow → List OutboxRow
oldest_first rows = reversed (sort_by (λ r. r.created_at) rows)

-- The rows that a round takes on.
unfoldable pub batch : System → List OutboxRow
unfolding oldest_first
batch s = take 50 (oldest_first (keep (λ r. not (is_published s r)) s.rows))

unfoldable pub pass : System → System
pass s = record s { turns = drop 1 s.turns }

unfoldable pub lost_answer : Err
lost_answer = failure (codes "no answer")

unfoldable pub ingested : System → Reply × List Event → Result ℕ × System
ingested s (reply, es) = (ok (status_of reply), record s { events = es })

-- `UPDATE business_outbox SET published_at = now() WHERE id = $1 AND published_at IS NULL`.
unfoldable pub mark : OutboxRow → System → Result (Unit {0}) × System
unfolding db_error
mark r s =
    carried_out (next_fate s.turns) db_error (pass s) (
      ok tt,
      if is_published s r then pass s else record (pass s) { published = r.id ∷ s.published },
    )

unfoldable pub marked : OutboxRow → Result (Unit {0}) × System → Result (Unit {0}) × System
marked r (err e, s) = (err e, s)
marked r (ok _, s) = mark r s

-- The error that is returned: the first one.
unfoldable pub or_first : Option Err → Result (Unit {0}) → Option Err
or_first (some e) r = some e
or_first none (err e) = some e
or_first none (ok _) = none

module _ (codec : Codec) where
  -- A member of the payload that is a string, or empty.
  unfoldable pub member_of : Option Text → Text → Text
  member_of none key = []
  member_of (some o) key = codec.member o key

  unfoldable pub some_object : Option Text → Text
  some_object none = codes "{}"
  some_object (some o) = o

  unfoldable pub event_of : OutboxRow → Option Text → Event
  unfolding member_of some_object
  event_of r o = record {
    id = r.id;
    source = codes "business-service";
    type = r.event_type;
    subject =
        if is_nil (member_of o (codes "item_id"))
        then []
        else codes "item:" ++ member_of o (codes "item_id");
    time = some r.created_at;
    tenant_id = member_of o (codes "tenant_id");
    actor_user_id = member_of o (codes "actor_user_id");
    details = some (some_object o);
  }

  unfoldable pub event_decoded : OutboxRow → Result (Option Text) → Result Event
  unfolding event_of
  event_decoded r (err e) = err (wrapped (codes "payload json") e)
  event_decoded r (ok o) = ok (event_of r o)

  -- `rowToEvent`.
  unfoldable pub row_to_event : OutboxRow → Result Event
  unfolding event_decoded event_of
  row_to_event r =
      if is_nil r.payload then ok (event_of r none) else event_decoded r (codec.object r.payload)

  -- A POST of the audit service: the request's own turn, and that of the statement it leads to.
  unfoldable pub post : Text → System → Result ℕ × System
  unfolding ingested lost_answer
  post body s =
      let next = pass (pass s) in
      carried_out (next_fate s.turns) lost_answer next
        (ingested next (ingest codec true true [] (next_fate (pass s).turns) (ok body) s.events))

  unfoldable pub publish_event : OutboxRow → System → Result Event → Result (Unit {0}) × System
  unfolding marked
  publish_event r s (err e) = (err e, s)
  publish_event r s (ok ev) = marked r (emit codec.encode post true ev s)

  -- `publishRow`.
  unfoldable pub publish_row : OutboxRow → System → Result (Unit {0}) × System
  unfolding publish_event
  publish_row r s = publish_event r s (row_to_event r)

  unfoldable pub publish_all : List OutboxRow → Option Err → System → Option Err × System
  unfolding or_first
  publish_all [] first s = (first, s)
  publish_all (r ∷ rs) first s =
      let out = publish_row r s in publish_all rs (or_first first out.0) out.1

  unfoldable pub dispatch_batch : Fate → System → Option Err × System
  unfolding db_error
  dispatch_batch answered s = publish_all (batch s) none (pass s)
  dispatch_batch _ s = (some db_error, pass s)

  -- `dispatchOnce`.
  unfoldable pub dispatch_once : System → Option Err × System
  unfolding dispatch_batch
  dispatch_once s = dispatch_batch (next_fate s.turns) s
