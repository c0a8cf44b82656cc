-- ===== src/Files/Upload/Laws.antt =====
-- That a file that was uploaded is downloaded by its owner.
use ting_boundless.Files.Access.{Blobs, serve_download, download}
use ting_boundless.Identity.{Identity}
use ting_boundless.Files.{Files, File}
use ting_boundless.Files.Upload.{row_of, Reply, type_or_default, stored, Paths, Part}
use ting_boundless.Base.{
  ◌+◌, codes, text_eq, ltb, is_nil, take, ◌&&◌, if◌then◌else◌, some, none, not, Text, ℕ, ◌≡◌,
}
use ting_boundless.Base.Results.{Result, ok}

module _ (paths : Paths) (blobs : Blobs) (bucket : Text)
    (put_object : Text → Text → ℕ → Text → blobs.State → Result (Unit {0}) × blobs.State) where
  -- What the owner of an uploaded part reads of it.
  abbrev pub Downloads : Identity → Part → File → Reply × Files × blobs.State → Type 0
  Downloads id part row out =
      (row.owner_id ≡ id.user_id)
      × (row.tenant_id ≡ id.tenant_id)
      × (row.content_type ≡ type_or_default part.content_type)
      × (serve_download blobs paths.base (some out.1) id row.id out.2
          ≡ download (some row.content_type) (if ltb 0 part.size then some part.size else none)
              (if not (is_nil (paths.base row.object_key))
                  && not (text_eq (paths.base row.object_key) (codes "."))
                then some (paths.base row.object_key)
                else none)
              part.body)

  abbrev PutGet : Type 0
  PutGet =
      (k b ct : Text) (n : ℕ) (t : blobs.State)
      → (put_object k b n ct t).0 ≡ ok tt
      → blobs.get_object k (put_object k b n ct t).1 ≡ ok (record { content_type = ct; body = b })

  shown : Part → File → ℕ → ting_boundless.Files.Access.Reply
  shown part row size =
      download (some row.content_type) (if ltb 0 size then some size else none)
        (if not (is_nil (paths.base row.object_key))
            && not (text_eq (paths.base row.object_key) (codes "."))
          then some (paths.base row.object_key)
          else none)
        part.body

  -- The outcome of the two writes of a part.
  abbrev both : ℕ → ℕ → Identity → Part → Text → Files → blobs.State → Reply × Files × blobs.State
  both max now id part file_id files s =
      let row = row_of paths id bucket file_id part in
      stored paths blobs bucket put_object now id row files
        (put_object row.object_key (take (max + 1) part.body) part.size row.content_type s)
