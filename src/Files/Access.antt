-- ===== src/Files/Access.antt =====
-- Access to uploaded files: go/services/file-service/internal/access (handler.go, list.go,
-- delete.go).
pub mod Laws
use ting_boundless.Http.{forbidden, bad_request, internal, write_error, ErrorReply, not_found}
use ting_boundless.Files.{get_by_id, delete_by_id, list_by_owner, Files, File, insert}
use ting_boundless.Base.{
  codes, text_eq, String, leb, ltb, is_nil, not, List, ℕ, Option, Bool, Text, ◌^◌, ◌%◌, ◌*◌, ◌&&◌,
  if◌then◌else◌, false, true, some, none,
}
use ting_boundless.Base.Results.{is_no_rows, Result, err, ok}
use ting_boundless.Identity.{Identity}

-- What the handlers answer. `fileJSON` lists every field of a row, so a row stands for its JSON.
pub data Reply : Type 0 where
  failed : ErrorReply → Reply
  metadata : File → Reply
  download : Option Text → Option ℕ → Option Text → Text → Reply  -- Content-Type, Content-Length, filename, body
  link : Text → Text → ℕ → Reply  -- file_id, url, expires_at
  listing : List File → Reply
  no_content : Reply

-- An object as the storage returns it: its Content-Type header and its body.
pub record Object : Type 0 where
  pub content_type : Text
  pub body : Text

-- The `blobStore` that the handlers are given. A time to live is a `time.Duration`, an int64 that is
-- here its two's complement.
pub record Blobs : Type 1 where
  pub State : Type 0
  pub enabled : Bool
  pub get_object : Text → State → Result Object
  pub presign_get_url : Text → ℕ → Result (Text × ℕ)
  pub delete_object : Text → State → Result (Unit {0}) × State

-- `canAccess`.
unfoldable pub can_access : Identity → File → Bool
can_access id f =
    if not (text_eq id.user_id f.owner_id)
    then false
    else if not (is_nil id.tenant_id)
        && not (is_nil f.tenant_id)
        && not (text_eq id.tenant_id f.tenant_id)
    then false
    else true

abbrev pub database_unavailable : Text → ErrorReply
database_unavailable rid =
    write_error rid (internal (codes "database_unavailable") (codes "database not connected"))

abbrev pub storage_unavailable : Text → ErrorReply
storage_unavailable rid =
    write_error rid (internal (codes "storage_unavailable") (codes "object storage not configured"))

abbrev pub file_not_found : Text → ErrorReply
file_not_found rid = write_error rid (not_found (codes "file_not_found") (codes "file not found"))

abbrev pub lookup_failed : Text → ErrorReply
lookup_failed rid =
    write_error rid (internal (codes "lookup_failed") (codes "could not load file metadata"))

abbrev pub file_forbidden : Text → ErrorReply
file_forbidden rid =
    write_error rid (forbidden (codes "file_forbidden") (codes "not allowed to access this file"))

abbrev pub file_id_required : Text → ErrorReply
file_id_required rid =
    write_error rid (bad_request (codes "file_id_required") (codes "file id is required"))

-- The steps that the four handlers of one file share, from the id of the path to the row that the
-- caller may access; `fail` sends an error reply.
module _ {R : Type 0} (fail : ErrorReply → R) where
  unfoldable pub permitted : Identity → (File → R) → Result File → R
  permitted id next (err e) =
      if is_no_rows e
      then fail (file_not_found id.request_id)
      else fail (lookup_failed id.request_id)
  permitted id next (ok row) =
      if not (can_access id row) then fail (file_forbidden id.request_id) else next row

  unfoldable pub with_file : Files → Identity → Text → (File → R) → R
  unfolding permitted
  with_file files id file_id next =
      if is_nil file_id
      then fail (file_id_required id.request_id)
      else permitted id next (get_by_id files file_id)

-- `MetaHandler.ServeHTTP`; `none` is a store that is nil.
unfoldable pub serve_meta : Option Files → Identity → Text → Reply
serve_meta none id file_id = failed (database_unavailable id.request_id)
serve_meta (some files) id file_id = with_file failed files id file_id metadata

module _ (blobs : Blobs) where
  open blobs use {State, get_object, presign_get_url, delete_object}

  -- The row's content type, or else the object's; `none` sets no header.
  unfoldable pub content_type_of : File → Object → Option Text
  content_type_of row o =
      if not (is_nil row.content_type)
      then some row.content_type
      else if not (is_nil o.content_type)
      then some o.content_type
      else none

  -- `name` is `filepath.Base` of the row's object key.
  unfoldable pub fetched : Text → File → Text → Result Object → Reply
  fetched rid row name (err e) =
      failed (write_error rid (internal (codes "download_failed") (codes "failed to fetch object")))
  fetched rid row name (ok o) =
      download (content_type_of row o) (if ltb 0 row.size_bytes then some row.size_bytes else none)
        (if not (is_nil name) && not (text_eq name (codes ".")) then some name else none) o.body

  -- `DownloadHandler.ServeHTTP`; `base` is `filepath.Base`.
  unfoldable pub serve_download : (Text → Text) → Option Files → Identity → Text → State → Reply
  unfolding fetched content_type_of
  serve_download base none id file_id s = failed (database_unavailable id.request_id)
  serve_download base (some files) id file_id s =
      if not blobs.enabled
      then failed (storage_unavailable id.request_id)
      else with_file failed files id file_id
          (λ row. fetched id.request_id row (base row.object_key) (get_object row.object_key s))

  presigned : Text → File → Result (Text × ℕ) → Reply
  presigned rid row (err e) =
      failed (
        write_error rid (internal (codes "presign_failed") (codes "could not create download URL")))
  presigned rid row (ok (url, expires_at)) = link row.id url expires_at

  linked : Text → File → Option ℕ → Reply
  unfolding presigned
  linked rid row none = failed (
      write_error rid (
        bad_request (codes "invalid_expires")
          (codes "expires must be a positive number of seconds")))
  linked rid row (some expiry) = presigned rid row (presign_get_url row.object_key expiry)

  -- `URLHandler`, with its default of one hour and its limit of seven days, in nanoseconds.
  unfoldable pub default_expiry : ℕ → ℕ
  default_expiry configured = if ltb 0 configured then configured else 3600 * 1_000_000_000

  abbrev pub max_expiry : ℕ
  max_expiry = 7 * 24 * 3600 * 1_000_000_000

  -- `if expiry > h.maxExpiry`, on an int64.
  unfoldable pub capped : ℕ → ℕ
  capped expiry = if ltb max_expiry expiry && ltb expiry (2 ^ 63) then max_expiry else expiry

  of_seconds : Option ℕ → Option ℕ
  of_seconds none = none
  of_seconds (some sec) = if leb sec 0 then none else some (capped (sec * 1_000_000_000 % 2 ^ 64))

  -- The time to live that the query asks for, `none` where it is refused; `atoi` is `strconv.Atoi`,
  -- where a number that is not positive is given as 0.
  unfoldable pub link_expiry : (Text → Option ℕ) → ℕ → Text → Option ℕ
  unfolding of_seconds
  link_expiry atoi default raw = if is_nil raw then some (capped default) else of_seconds (atoi raw)

  -- `URLHandler.ServeHTTP`.
  unfoldable pub serve_url : (Text → Option ℕ) → ℕ → Option Files → Identity → Text → Text → Reply
  unfolding linked
  serve_url atoi default none id file_id raw = failed (database_unavailable id.request_id)
  serve_url atoi default (some files) id file_id raw =
      if not blobs.enabled
      then failed (storage_unavailable id.request_id)
      else with_file failed files id file_id
          (λ row. linked id.request_id row (link_expiry atoi default raw))

  delete_failed : Text → String → Reply
  delete_failed rid message =
      failed (write_error rid (internal (codes "delete_failed") (codes message)))

  -- After `DeleteByID`.
  row_deleted : Text → State → Result (Unit {0}) × Files → Reply × Files × State
  unfolding delete_failed
  row_deleted rid s (ok _, files) = (no_content, files, s)
  row_deleted rid s (err e, files) =
      if is_no_rows e
      then (failed (file_not_found rid), files, s)
      else (delete_failed rid "failed to remove file metadata", files, s)

  -- After `DeleteObject`.
  unfoldable pub object_deleted :
      Files → Identity → Text → Result (Unit {0}) × State → Reply × Files × State
  unfolding delete_failed row_deleted
  object_deleted files id file_id (err e, s) =
      (delete_failed id.request_id "failed to remove object", files, s)
  object_deleted files id file_id (ok _, s) =
      row_deleted id.request_id s (delete_by_id files file_id id.user_id id.tenant_id)

  -- `DeleteHandler.ServeHTTP` with a store and a storage that are not nil.
  unfoldable pub serve_delete : Files → Identity → Text → State → Reply × Files × State
  serve_delete files id file_id s =
      if not blobs.enabled
      then (failed (storage_unavailable id.request_id), files, s)
      else with_file (λ e. (failed e, files, s)) files id file_id
          (λ row. object_deleted files id file_id (delete_object row.object_key s))

listed : Text → Result (List File) → Reply
listed rid (ok rows) = listing rows
listed rid (err e) =
    failed (write_error rid (internal (codes "list_failed") (codes "could not list files")))

positive_or_fifty : Option ℕ → ℕ
positive_or_fifty none = 50
positive_or_fifty (some n) = if ltb 0 n then n else 50

-- `ListHandler.ServeHTTP`; `atoi` as above.
unfoldable pub serve_list : (Text → Option ℕ) → Option Files → Identity → Text → Reply
unfolding listed positive_or_fifty
serve_list atoi none id raw = failed (database_unavailable id.request_id)
serve_list atoi (some files) id raw = listed id.request_id (
    list_by_owner files id.user_id id.tenant_id
      (if is_nil raw then 50 else positive_or_fifty (atoi raw)))
