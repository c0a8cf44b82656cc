-- ===== src/Files.antt =====
-- The metadata of uploaded files: go/services/file-service/internal/store/files.go. The table of the
-- database is its list of rows; `answers` says whether the database carries out the next statement.
pub mod Laws
pub mod Access
pub mod Upload
use ting_boundless.Base.{
  sort_by, take, keep, any, ltb, is_nil, not, codes, leb, text_eq, List, ℕ, Bool, Text, ◌||◌, ◌&&◌,
  ◌∷◌, if◌then◌else◌, [],
}
use ting_boundless.Base.Results.{wrapped, Result, failure, Err, err, ok}

-- `File`; the creation time is in nanoseconds.
pub record File : Type 0 where
  pub id : Text
  pub tenant_id : Text
  pub owner_id : Text
  pub bucket : Text
  pub object_key : Text
  pub content_type : Text
  pub size_bytes : ℕ
  pub created_at : ℕ

-- `Files` and the table behind its pool; `connected` says that the pool is not nil.
pub record Files : Type 0 where
  pub connected : Bool
  pub answers : Bool
  pub rows : List File

unfoldable pub not_connected : Err
not_connected = failure (codes "database not connected")

-- The database refused or lost the statement.
unfoldable pub db_error : Err
db_error = failure (codes "database error")

unfoldable pub has_id : Text → File → Bool
has_id id f = text_eq f.id id

-- `INSERT … RETURNING`: the primary key is unique, and the table sets the creation time.
unfoldable pub inserted : Files → ℕ → File → Result File × Files
unfolding has_id db_error
inserted s now f =
    let row = record f { created_at = now } in
    if not s.answers || any (has_id f.id) s.rows
    then (err (wrapped (codes "insert file") db_error), s)
    else (ok row, record s { rows = row ∷ s.rows })

-- `Insert`.
unfoldable pub insert : Files → ℕ → File → Result File × Files
unfolding inserted not_connected
insert s now f = if not s.connected then (err not_connected, s) else inserted s now f

unfoldable pub first_row : List File → Result File
first_row [] = err Err.no_rows
first_row (f ∷ _) = ok f

-- `GetByID`.
unfoldable pub get_by_id : Files → Text → Result File
unfolding has_id first_row not_connected db_error
get_by_id s id =
    if not s.connected
    then err not_connected
    else if not s.answers
    then err (wrapped (codes "get file") db_error)
    else first_row (keep (has_id id) s.rows)

-- `owner_id = $1 AND ($2 = '' OR tenant_id = '' OR tenant_id = $2)`.
unfoldable pub owned_by : Text → Text → File → Bool
owned_by owner tenant f =
    text_eq f.owner_id owner && (is_nil tenant || is_nil f.tenant_id || text_eq f.tenant_id tenant)

unfoldable pub limit_or_default : ℕ → ℕ
limit_or_default limit = if leb limit 0 || ltb 200 limit then 50 else limit

-- `ListByOwner`; a negative limit is not told from 0.
unfoldable pub list_by_owner : Files → Text → Text → ℕ → Result (List File)
unfolding not_connected db_error
list_by_owner s owner tenant limit =
    if not s.connected
    then err not_connected
    else if not s.answers
    then err (wrapped (codes "list files") db_error)
    else ok (
        take (limit_or_default limit)
          (sort_by (λ f. f.created_at) (keep (owned_by owner tenant) s.rows)))

-- The rows that the statement of `DeleteByID` selects.
unfoldable pub selected : Text → Text → Text → File → Bool
unfolding has_id
selected id owner tenant f = has_id id f && owned_by owner tenant f

deleted : Files → Text → Text → Text → Result (Unit {0}) × Files
deleted s id owner tenant =
    if any (selected id owner tenant) s.rows
    then (ok tt, record s { rows = keep (λ f. not (selected id owner tenant f)) s.rows })
    else (err Err.no_rows, s)

-- `DeleteByID`.
unfoldable pub delete_by_id : Files → Text → Text → Text → Result (Unit {0}) × Files
unfolding not_connected db_error deleted
delete_by_id s id owner tenant =
    if not s.connected
    then (err not_connected, s)
    else if not s.answers
    then (err (wrapped (codes "delete file") db_error), s)
    else deleted s id owner tenant
