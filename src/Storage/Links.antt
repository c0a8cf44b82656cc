-- ===== src/Storage/Links.antt =====
-- The links that file-service gives out over the object storage client.
use ting_boundless.Base.{All-mem, All, Option, Text, ℕ, ◌≡◌, some}
use ting_boundless.Storage.Objects.{client_blobs, Transport}
use ting_boundless.Storage.{Client}
use ting_boundless.Files.{File, Files}
use ting_boundless.Identity.{Identity}
use ting_boundless.Storage.Encode.Laws.{IsUnicode}
use ting_boundless.Files.Access.{link, serve_url}
use ting_boundless.Files.Access.Laws.{serve_url-IsPermitted, IsPermitted}
use ting_boundless.Storage.Presign.Laws.{presign_get_url-IsLink, IsLink}

-- A link that file-service gives out for a file belongs to a row with the id asked for which the caller
-- may access: it lies under the origin of the client's storage, its path, percent-decoded, is that of
-- the row's object. Its query names the time of the transport and a number of seconds within seven days, under
-- the signature that the client's key gives for that request, and the end that is reported is after now and that of
-- the link, up to a second. The bucket and the keys of the rows are within what UTF-8 encodes.
pub serve_url-IsLink :
    {W : Type 0} (t : Transport W) (itoa : ℕ → Text) (c : Option Client) (atoi : Text → Option ℕ)
    (default : ℕ) (files : Files) (id : Identity) (file_id raw fid url : Text) (ends : ℕ)
    → ((s : Client) → c ≡ some s → IsUnicode s.bucket)
    → All (λ f. IsUnicode f.object_key) files.rows
    → serve_url (client_blobs t itoa c) atoi default (some files) id file_id raw ≡ link fid url ends
    → (row : File) × (s : Client) × (expiry : ℕ) × IsPermitted files id file_id row
      × (c ≡ some s)
      × IsLink t.signing itoa s row.object_key t.now expiry url ends
serve_url-IsLink t itoa c atoi default files id file_id raw fid url ends u v h =
    let (row, expiry, p, e, k) =
      serve_url-IsPermitted (client_blobs t itoa c) files id file_id atoi default raw fid url ends
        h in
    let (s, q, b, l) =
      presign_get_url-IsLink t.signing itoa c t.now expiry row.object_key url u
        (All-mem (λ f. IsUnicode f.object_key) files.rows v p.0) k in
    (row, s, expiry, p, q, l)
