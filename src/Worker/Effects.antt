-- ===== src/Worker/Effects.antt =====
-- The effects of jobs: `Record` and `List` of go/services/worker/internal/store/effects.go and the
-- handler of go/services/worker/internal/effects/handler.go. A row's payload, the job's, is left out.
pub mod Laws
use ting_boundless.Base.Results.{
  answered, Err, Fate, carried_out, next_fate, Result, ok, err, wrapped, failure,
}
use ting_boundless.Worker.{Job}
use ting_boundless.Base.{
  keep, sort_by, take, ltb, Option, is_nil, leb, not, any, text_eq, List, drop, ℕ, codes, Bool,
  Text, ◌||◌, ◌&&◌, ◌∷◌, if◌then◌else◌, false, true, some, none,
}
use ting_boundless.Http.{bad_request, x_request_id, get, Request, internal, write_error, ErrorReply}

-- A row of `worker_job_effects`; its primary key is the job's id.
pub record Effect : Type 0 where
  pub job_id : Text
  pub job_type : Text
  pub tenant_id : Text
  pub actor_user_id : Text
  pub resource_id : Text
  pub processed_at : ℕ

-- `Effects` and the table behind its pool, and the fates of the next statements.
pub record Effects : Type 0 where
  pub connected : Bool
  pub rows : List Effect
  pub turns : List Fate

unfoldable pub not_connected : Err
not_connected = failure (codes "database not connected")

unfoldable pub db_error : Text → Err
db_error what = wrapped what (failure (codes "database error"))

unfoldable pub is_of_job : Text → Effect → Bool
is_of_job id e = text_eq e.job_id id

unfoldable pub effect_of : ℕ → Job → Text → Effect
effect_of now j resource = record {
  job_id = j.id;
  job_type = j.type;
  tenant_id = j.tenant;
  actor_user_id = j.actor;
  resource_id = resource;
  processed_at = now;
}

unfoldable pub next_turn : Effects → Effects
next_turn s = record s { turns = drop 1 s.turns }

-- `INSERT … ON CONFLICT (job_id) DO NOTHING RETURNING job_id`: whether a row came back.
unfoldable pub insert_once : Effect → Effects → Result Bool × Effects
unfolding is_of_job
insert_once e s =
    if any (is_of_job e.job_id) s.rows
    then (ok false, s)
    else (ok true, record s { rows = e ∷ s.rows })

-- `Record`.
unfoldable pub record_effect : ℕ → Job → Text → Effects → Result Bool × Effects
unfolding not_connected db_error
record_effect now j resource s =
    if not s.connected
    then (err not_connected, s)
    else if is_nil j.id || is_nil j.type
    then (err (failure (codes "job id and type are required")), s)
    else carried_out (next_fate s.turns) (db_error (codes "record job effect")) (next_turn s)
        (insert_once (effect_of now j resource) (next_turn s))

-- `ListFilter`; a negative limit is not told from 0.
pub record ListFilter : Type 0 where
  pub tenant_id : Text
  pub job_type : Text
  pub limit : ℕ

unfoldable pub limit_or_cap : ℕ → ℕ
limit_or_cap limit = if leb limit 0 then 50 else if ltb 100 limit then 100 else limit

-- The `WHERE` of the statement.
unfoldable pub is_listed : ListFilter → Effect → Bool
is_listed f e =
    (is_nil f.tenant_id || text_eq e.tenant_id f.tenant_id)
    && (is_nil f.job_type || text_eq e.job_type f.job_type)

-- `List`.
unfoldable pub list_effects : Effects → ListFilter → Result (List Effect)
unfolding not_connected db_error
list_effects s f = if not s.connected then err not_connected else elim (next_fate s.turns) [
  | answered ↦
      ok (take (limit_or_cap f.limit) (sort_by (λ e. e.processed_at) (keep (is_listed f) s.rows)))
  | _ ↦ err (db_error (codes "list job effects"))
]

pub data Reply : Type 0 where
  failed : ErrorReply → Reply
  listing : List Effect → Reply

-- The limit of the query: 50 where it is absent or no number.
query_limit : (Text → Option ℕ) → Text → ℕ
query_limit atoi raw = elim (atoi raw) [ none ↦ 50 | some n ↦ if is_nil raw then 50 else n ]

listed : Text → Result (List Effect) → Reply
listed rid (ok es) = listing es
listed rid (err e) =
    failed (write_error rid (internal (codes "query_failed") (codes "failed to list job effects")))

-- `ServeHTTP`; `none` is a store that is nil, and `atoi` is `strconv.Atoi`, a negative number being 0.
unfoldable pub serve_effects : (Text → Option ℕ) → Option Effects → Request → Reply
unfolding query_limit listed
serve_effects atoi effects r =
    let rid = get r.headers x_request_id in
    if not (text_eq r.method (codes "GET"))
    then failed (write_error rid (bad_request (codes "method_not_allowed") (codes "use GET")))
    else elim effects [
      | none ↦ failed (
          write_error rid
            (internal (codes "database_unavailable") (codes "database not connected")))
      | some s ↦ listed rid (
          list_effects s (record {
            tenant_id = r.query (codes "tenant_id");
            job_type = r.query (codes "job_type");
            limit = query_limit atoi (r.query (codes "limit"));
          }))
    ]
