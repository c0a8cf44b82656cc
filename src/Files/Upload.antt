-- ===== src/Files/Upload.antt =====
-- Uploading a file: go/services/file-service/internal/upload/handler.go.
pub mod Laws
use ting_boundless.Http.{write_error, ErrorReply, internal, bad_request}
use ting_boundless.Files.{Files, File, insert}
use ting_boundless.Files.Access.{Blobs}
use ting_boundless.Base.Results.{Result, ok, err}
use ting_boundless.Base.{
  ltb, take, text_eq, not, codes, is_nil, trim_space, leb, Option, ℕ, Text, List, ◌||◌, ◌^◌, ◌*◌,
  ◌+◌, ◌∷◌, if◌then◌else◌, some, none, [],
}
use ting_boundless.Httpx.{env, Environment}
use ting_boundless.Identity.{Identity}
use ting_boundless.Trace.{hex}

-- What the handler calls of Go's library: `path.Join`, `filepath.Base` and `strconv.ParseInt` of a
-- number above 0.
pub record Paths : Type 0 where
  pub join : List Text → Text
  pub base : Text → Text
  pub parse_positive : Text → Option ℕ

-- The part `file` of a multipart form; its size is that of its header.
pub record Part : Type 0 where
  pub filename : Text
  pub size : ℕ
  pub content_type : Text
  pub body : Text

-- A request's form: it cannot be parsed, or it has the part or not.
pub data Form : Type 0 where
  unparsed missing : Form
  with_part : Part → Form

abbrev pub default_max_bytes : ℕ
default_max_bytes = 20 * 2 ^ 20

-- `New`: the largest size, where a setting of 0 or below is 0.
unfoldable pub max_bytes_of : ℕ → ℕ
max_bytes_of max = if leb max 0 then default_max_bytes else max

-- `MaxBytesFromEnv`.
unfoldable pub max_bytes_from_env : Paths → Environment → ℕ
max_bytes_from_env paths e =
    let s = env e (codes "FILE_MAX_BYTES") [] in
    if is_nil s
    then default_max_bytes
    else elim (paths.parse_positive s) [ none ↦ default_max_bytes | some n ↦ n ]

-- `sanitizeFilename`.
unfoldable pub sanitize_filename : Paths → Text → Text
sanitize_filename paths name =
    let base = paths.base (trim_space name) in
    if is_nil base || text_eq base (codes ".") || text_eq base (codes "..")
    then codes "upload"
    else base

-- `objectKey`.
unfoldable pub object_key : Paths → Text → Text → Text → Text → Text
object_key paths tenant_id owner_id file_id filename = paths.join (
    (if is_nil tenant_id then codes "_" else tenant_id)
    ∷ owner_id
    ∷ file_id
    ∷ sanitize_filename paths filename
    ∷ [])

-- `newFileID`, from the result of reading sixteen random bytes.
unfoldable pub new_file_id : Result (List ℕ) → Result Text
new_file_id (ok bytes) = ok (hex bytes)
new_file_id (err e) = err e

-- The replies; `fileJSON` lists every field of the row.
pub data Reply : Type 0 where
  failed : ErrorReply → Reply
  created : File → Reply

unfoldable pub type_or_default : Text → Text
type_or_default t = if is_nil t then codes "application/octet-stream" else t

unfoldable pub row_of : Paths → Identity → Text → Text → Part → File
unfolding type_or_default
row_of paths id bucket file_id part = record {
  id = file_id;
  tenant_id = id.tenant_id;
  owner_id = id.user_id;
  bucket = bucket;
  object_key = object_key paths id.tenant_id id.user_id file_id part.filename;
  content_type = type_or_default part.content_type;
  size_bytes = part.size;
  created_at = 0;
}

unfoldable pub saved : Text → Result File × Files → Reply × Files
saved rid (ok row, files) = (created row, files)
saved rid (err e, files) = (
  failed (
      write_error rid
        (internal (codes "metadata_failed") (codes "upload stored but metadata failed"))),
  files,
)

module _ (paths : Paths) (blobs : Blobs) (bucket : Text)
    (put_object : Text → Text → ℕ → Text → blobs.State → Result (Unit {0}) × blobs.State) where
  open blobs use {State}

  unfoldable pub stored :
      ℕ → Identity → File → Files → Result (Unit {0}) × State → Reply × Files × State
  unfolding saved
  stored now id row files (err e, s) = (
    failed (
        write_error id.request_id
          (internal (codes "upload_failed") (codes "failed to store object"))),
    files,
    s,
  )
  stored now id row files (ok _, s) =
      let out = saved id.request_id (insert files now row) in (out.0, out.1, s)

  -- From the file's id on; the reader ends one byte after the largest size.
  unfoldable pub store_part :
      ℕ → ℕ → Identity → Part → Result Text → Files → State → Reply × Files × State
  unfolding stored row_of
  store_part max now id part (err e) files s = (
    failed (
        write_error id.request_id
          (internal (codes "id_error") (codes "could not allocate file id"))),
    files,
    s,
  )
  store_part max now id part (ok file_id) files s =
      let row = row_of paths id bucket file_id part in
      stored now id row files
        (put_object row.object_key (take (max + 1) part.body) part.size row.content_type s)

  unfoldable pub take_form :
      ℕ → ℕ → Identity → Result (List ℕ) → Form → Files → State → Reply × Files × State
  unfolding store_part
  take_form max now id random unparsed files s = (
    failed (
        write_error id.request_id
          (bad_request (codes "invalid_multipart") (codes "could not parse multipart form"))),
    files,
    s,
  )
  take_form max now id random missing files s = (
    failed (
        write_error id.request_id
          (bad_request (codes "file_required") (codes "multipart field 'file' is required"))),
    files,
    s,
  )
  take_form max now id random (with_part part) files s =
      if ltb max part.size
      then (
        failed (
            write_error id.request_id
              (bad_request (codes "file_too_large") (codes "file exceeds size limit"))),
        files,
        s,
      )
      else store_part max now id part (new_file_id random) files s

  -- `ServeHTTP` of a handler whose store is not nil; `parse` is the form that is parsed with a limit.
  unfoldable pub serve_upload :
      ℕ → ℕ → Identity → Result (List ℕ) → (ℕ → Form) → Files → State → Reply × Files × State
  unfolding take_form
  serve_upload setting now id random parse files s =
      if not blobs.enabled
      then (
        failed (
            write_error id.request_id
              (internal (codes "storage_unavailable") (codes "object storage not configured"))),
        files,
        s,
      )
      else take_form (max_bytes_of setting) now id random (parse (max_bytes_of setting)) files s

  -- `ServeHTTP` of a handler whose store may be nil.
  unfoldable pub serve_upload_or_fail :
      ℕ
      → ℕ
      → Identity
      → Result (List ℕ)
      → (ℕ → Form)
      → Option Files
      → State
      → Reply × Option Files × State
  unfolding serve_upload
  serve_upload_or_fail setting now id random parse none s = (
    failed (
        write_error id.request_id
          (internal (codes "database_unavailable") (codes "database not connected"))),
    none,
    s,
  )
  serve_upload_or_fail setting now id random parse (some files) s =
      let out = serve_upload setting now id random parse files s in (out.0, some out.1, out.2)
