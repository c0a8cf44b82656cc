-- ===== src/Audit/Query.antt =====
-- Reading audit events: `List` of go/services/audit-service/internal/store/events.go and the handler of
-- go/services/audit-service/internal/query/handler.go.
pub mod Rows
pub mod Reads
pub mod Laws
use ting_boundless.Base.{
  keep, not, codes, arranged, take, ltb, text_eq, is_nil, leb, List, Bool, Option, ℕ, Text, ◌==◌,
  ◌||◌, ◌&&◌, ◌∷◌, if◌then◌else◌, some, none, suc, [],
}
use ting_boundless.Base.Results.{failure, wrapped, Result, err, ok}
use ting_boundless.Audit.{Event}
use ting_boundless.Http.{bad_request, internal, write_error, Request, ErrorReply}
use ting_boundless.Identity.{empty_identity, Identity}
use ting_boundless.Httpx.{trusted_role, Handler}

-- `ListFilter`; a limit below 0 is 0.
pub record ListFilter : Type 0 where
  pub tenant_id : Text
  pub type : Text
  pub source : Text
  pub limit : ℕ

-- The cap of `List` on a limit.
unfoldable pub row_limit : ℕ → ℕ
row_limit n = if leb n 0 then 50 else if ltb 100 n then 100 else n

-- One of the conditions that are only added for a filter that is not empty.
unfoldable pub filtered_by : Text → Bool → Bool
filtered_by value matches = is_nil value || matches

-- The WHERE clause. An empty text is stored as NULL, and NULL reads as the empty text.
unfoldable pub is_selected : ListFilter → Event → Bool
unfolding filtered_by
is_selected f e =
    filtered_by f.tenant_id (text_eq e.tenant_id f.tenant_id || is_nil e.tenant_id)
    && filtered_by f.type (text_eq e.type f.type)
    && filtered_by f.source (text_eq e.source f.source)

-- The zero time is before every other one.
unfoldable pub instant : Option ℕ → ℕ
instant none = 0
instant (some t) = suc t

-- `ORDER BY event_time DESC, id DESC`; `at_most` is the collation of the ids.
unfoldable pub newest_first : (Text → Text → Bool) → Event → Event → Bool
unfolding instant
newest_first at_most e f =
    ltb (instant f.time) (instant e.time) || instant f.time == instant e.time && at_most f.id e.id

-- The rows that the statement of `List` returns.
unfoldable pub page : (Text → Text → Bool) → ListFilter → List Event → List Event
unfolding row_limit is_selected newest_first
page at_most f es =
    take (row_limit f.limit) (arranged (newest_first at_most) (keep (is_selected f) es))

unfoldable pub with_details : Event → Result (Option Text) → Result Event
with_details e (ok d) = ok (record e { details = d })
with_details e (err x) = err (wrapped (codes "unmarshal data") x)

unfoldable pub read_details : (Text → Result (Option Text)) → Event → Option Text → Result Event
unfolding with_details
read_details unmarshal e none = ok e
read_details unmarshal e (some raw) =
    if is_nil raw || text_eq raw (codes "null")
    then ok (record e { details = none })
    else with_details e (unmarshal raw)

-- A row scanned; `unmarshal` is the JSON decoder of the data.
unfoldable pub read_row : (Text → Result (Option Text)) → Event → Result Event
unfolding read_details
read_row unmarshal e = read_details unmarshal e e.details

unfoldable pub read_next : Event → Result (List Event) → Result (List Event)
read_next e (ok es) = ok (e ∷ es)
read_next e (err x) = err x

-- The loop over the rows, which stops at the first that does not scan.
unfoldable pub read_rows : (Text → Result (Option Text)) → List Event → Result (List Event)
unfolding read_row read_next
read_rows unmarshal [] = ok []
read_rows unmarshal (e ∷ es) =
    let rest = read_rows unmarshal es in
    elim (read_row unmarshal e) [ ok row ↦ read_next row rest | err x ↦ err x ]

-- What the rows are read with: whether the pool is not nil, whether the database answers, the
-- collation of the ids, the decoder of the data, and `strconv.Atoi` (a number below 0 being 0).
pub record Reader : Type 0 where
  pub connected : Bool
  pub answers : Bool
  pub at_most : Text → Text → Bool
  pub unmarshal : Text → Result (Option Text)
  pub atoi : Text → Option ℕ

-- `List`.
unfoldable pub list : Reader → ListFilter → List Event → Result (List Event)
unfolding page read_rows
list d f es =
    if not d.connected
    then err (failure (codes "database not connected"))
    else if not d.answers
    then err (wrapped (codes "list audit events") (failure (codes "database error")))
    else read_rows d.unmarshal (page d.at_most f es)

pub data QueryReply : Type 0 where
  failed : ErrorReply → QueryReply
  listing : List Event → QueryReply

unfoldable pub listed : Text → Result (List Event) → QueryReply
listed rid (ok es) = listing es
listed rid (err e) =
    failed (write_error rid (internal (codes "query_failed") (codes "failed to list audit events")))

unfoldable pub limit_of : Option ℕ → ℕ
limit_of none = 50
limit_of (some n) = n

-- The limit that a request asks for.
unfoldable pub query_limit : (Text → Option ℕ) → Text → ℕ
unfolding limit_of
query_limit atoi raw = if is_nil raw then 50 else limit_of (atoi raw)

-- The identity of the context, the empty one where there is none.
unfoldable pub context_identity : Option Identity → Identity
context_identity none = empty_identity
context_identity (some id) = id

unfoldable pub filter_of : Reader → Identity → Request → ListFilter
unfolding query_limit
filter_of d id r = record {
  tenant_id = id.tenant_id;
  type = r.query (codes "type");
  source = r.query (codes "source");
  limit = query_limit d.atoi (r.query (codes "limit"));
}

-- `ServeHTTP` over a table; `has_events` says that the store is not nil.
unfoldable pub serve_query : Reader → Bool → List Event → Handler QueryReply
unfolding listed list filter_of context_identity
serve_query d has_events es ctx r =
    let id = context_identity ctx in
    if not (text_eq r.method (codes "GET"))
    then failed
        (write_error id.request_id (bad_request (codes "method_not_allowed") (codes "use GET")))
    else if not has_events
    then failed (
        write_error id.request_id
          (internal (codes "database_unavailable") (codes "audit database not connected")))
    else listed id.request_id (list d (filter_of d id r) es)

-- The route `GET /v1/audit/events`: the handler behind the role `admin`.
unfoldable pub audit_events : Reader → Bool → List Event → Handler QueryReply
unfolding serve_query
audit_events d has_events es = trusted_role failed (codes "admin") (serve_query d has_events es)
