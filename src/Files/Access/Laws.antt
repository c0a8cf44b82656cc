-- ===== src/Files/Access/Laws.antt =====
-- No handler serves or deletes a file for a caller who may not access it.
use ting_boundless.Files.{has_id, delete_by_id, selected, get_by_id, File, owned_by, Files}
use ting_boundless.Base.{
  sym, ◌^◌, ◌%◌, Option-cases, leb, ℕ, Option, subst, is_nil, Bool-cases, ◌<◌, ◌*◌, ◌⊎◌, ◌≢◌,
  if◌then◌else◌, refl, inr, inl, some, [], text_eq_iff, arith, Text, ◌≡◌, true,
}
use ting_boundless.Files.Access.{
  row_deleted, file_forbidden, lookup_failed, storage_unavailable, file_id_required, file_not_found,
  Object, link, download, object_deleted, presigned, capped, linked, fetched, failed, of_seconds,
  serve_delete, serve_url, serve_download, metadata, with_file, permitted, link_expiry, Blobs,
  serve_meta, ErrorReply, can_access,
}
use ting_boundless.Identity.{Identity}
use mathlib.Core.List.{Memᴰ}
use ting_boundless.Base.Results.{Result-cases, is_no_rows, Result, err, ok}
use ting_boundless.Files.Laws.{delete_by_id_exact, get_by_id-eq-ok}

-- `canAccess` is the clause that the statements on the table use.
pub can_access-owned_by :
    (id : Identity) (f : File) → can_access id f ≡ owned_by id.user_id id.tenant_id f
unfolding can_access owned_by
can_access-owned_by id f = ground (
  arith,
  text_eq_iff id.user_id f.owner_id,
  text_eq_iff f.owner_id id.user_id,
  text_eq_iff id.tenant_id f.tenant_id,
  text_eq_iff f.tenant_id id.tenant_id,
)

-- The row is in the table, has the id asked for, and the caller may access it.
abbrev pub IsPermitted : Files → Identity → Text → File → Type 0
IsPermitted files id file_id row =
    Memᴰ row files.rows × (row.id ≡ file_id) × (can_access id row ≡ true)

-- Whatever a handler does with a row, it does with one that is permitted, or it answers an error.
module _ {R : Type 0} (fail : ErrorReply → R) (files : Files) (id : Identity) (file_id : Text) where
  permitted_cases :
      (next : File → R) (got : Result File)
      → get_by_id files file_id ≡ got
      → ((e : ErrorReply) × (permitted fail id next got ≡ fail e))
        ⊎ ((row : File) × IsPermitted files id file_id row
            × (permitted fail id next got ≡ next row))
  unfolding permitted
  permitted_cases next (err e) g = elim (Bool-cases (is_no_rows e)) [
    | inl b ↦ inl (file_not_found id.request_id, rw b refl)
    | inr b ↦ inl (lookup_failed id.request_id, rw b refl)
  ]
  permitted_cases next (ok row) g = elim (Bool-cases (can_access id row)) [
    | inl a ↦
        let (m, same) = get_by_id-eq-ok files file_id row g in inr (row, (m, same, a), rw a refl)
    | inr a ↦ inl (file_forbidden id.request_id, rw a refl)
  ]

  pub with_file_cases :
      (next : File → R)
      → ((e : ErrorReply) × (with_file fail files id file_id next ≡ fail e))
        ⊎ ((row : File) × IsPermitted files id file_id row
            × (with_file fail files id file_id next ≡ next row))
  unfolding with_file
  with_file_cases next = elim (Bool-cases (is_nil file_id)) [
    | inl e ↦ inl (file_id_required id.request_id, rw e refl)
    | inr e ↦ rw e (permitted_cases next (get_by_id files file_id) refl)
  ]

module _ (files : Files) (id : Identity) (file_id : Text) where
  -- The metadata that is served is that of a row with the id asked for which the caller may access.
  pub serve_meta-IsPermitted :
      (row : File)
      → serve_meta (some files) id file_id ≡ metadata row
      → IsPermitted files id file_id row
  unfolding serve_meta
  serve_meta-IsPermitted row h = elim (with_file_cases failed files id file_id metadata) [
    | inl (e, q) ↦ absurd (ground (arith, q))
    | inr (f, p, q) ↦ subst (IsPermitted files id file_id) (ground (arith, q)) p
  ]

module _ (blobs : Blobs) (files : Files) (id : Identity) (file_id : Text) where
  open blobs use {State, get_object, presign_get_url, delete_object}

  -- A download that is served is the object of a row with the id asked for which the caller may
  -- access.
  pub serve_download-IsPermitted :
      (base : Text → Text) (s : State) (kind : Option Text) (size : Option ℕ) (name : Option Text)
      (body : Text)
      → serve_download blobs base (some files) id file_id s ≡ download kind size name body
      → (row : File) × (o : Object) × IsPermitted files id file_id row
        × (get_object row.object_key s ≡ ok o)
        × (o.body ≡ body)
  unfolding serve_download fetched
  serve_download-IsPermitted base s kind size name body h =
      elim (with_file_cases failed files id file_id (λ row.
        fetched blobs id.request_id row (base row.object_key) (get_object row.object_key s))) [
          | inl (e, q) ↦ absurd (ground (arith, q))
          | inr (row, p, q) ↦ elim (Result-cases (get_object row.object_key s)) [
            | inl (o, g) ↦ (row, o, p, g, ground (arith, q, g))
            | inr (e, g) ↦ absurd (ground (arith, q, g))
          ]
        ]

  -- A link that is given out was signed for the object of a row with the id asked for which the
  -- caller may access.
  pub serve_url-IsPermitted :
      (atoi : Text → Option ℕ) (default : ℕ) (raw fid url : Text) (expires_at : ℕ)
      → serve_url blobs atoi default (some files) id file_id raw ≡ link fid url expires_at
      → (row : File) × (expiry : ℕ) × IsPermitted files id file_id row
        × (link_expiry blobs atoi default raw ≡ some expiry)
        × (presign_get_url row.object_key expiry ≡ ok (url, expires_at))
  unfolding serve_url linked presigned
  serve_url-IsPermitted atoi default raw fid url expires_at h =
      elim (with_file_cases failed files id file_id
        (λ row. linked blobs id.request_id row (link_expiry blobs atoi default raw))) [
          | inl (e, q) ↦ absurd (ground (arith, q))
          | inr (row, p, q) ↦ elim (Option-cases (link_expiry blobs atoi default raw)) [
            | inl g ↦ absurd (ground (arith, q, g))
            | inr (expiry, g) ↦ elim (Result-cases (presign_get_url row.object_key expiry)) [
              | inl (u, k) ↦ (row, expiry, p, g, ground (arith, q, g, k))
              | inr (e, k) ↦ absurd (ground (arith, q, g, k))
            ]
          ]
        ]

  -- A request to delete a file either is answered with an error and leaves the table as it was, or
  -- it found a row with the id asked for which the caller may access, and asked the storage to delete
  -- its object; then the row goes only if the storage reported no error.
  pub serve_delete_cases :
      (s : State)
      → ((e : ErrorReply) × (serve_delete blobs files id file_id s ≡ (failed e, files, s)))
        ⊎ ((row : File) × IsPermitted files id file_id row
            × (serve_delete blobs files id file_id s
                ≡ object_deleted blobs files id file_id (delete_object row.object_key s)))
  unfolding serve_delete
  serve_delete_cases s = elim (Bool-cases blobs.enabled) [
    | inl b ↦
        elim (with_file_cases (λ e. (failed e, files, s)) files id file_id
          (λ row. object_deleted blobs files id file_id (delete_object row.object_key s))) [
            | inl (e, q) ↦ inl (e, ground (arith, b, q))
            | inr (row, p, q) ↦ inr (row, p, ground (arith, b, q))
          ]
    | inr b ↦ inl (storage_unavailable id.request_id, ground (arith, b))
  ]

  -- Where the object's deletion failed, the table is as it was; else it is as `DeleteByID` leaves it.
  object_deleted_rows :
      (gone : Result (Unit {0}) × State)
      → ((object_deleted blobs files id file_id gone).1 ≡ files)
        ⊎ (gone.0 ≡ ok tt)
          × ((object_deleted blobs files id file_id gone).1
              ≡ (delete_by_id files file_id id.user_id id.tenant_id).1)
  unfolding object_deleted row_deleted
  object_deleted_rows (err e, s) = inl refl
  object_deleted_rows (ok tt, s) = inr (refl, ground arith)

  deleted_rows_permitted :
      (f : File)
      → files.connected ≡ true
      → files.answers ≡ true
      → Memᴰ f files.rows
      → ¬ Memᴰ f (delete_by_id files file_id id.user_id id.tenant_id).1.rows
      → (f.id ≡ file_id) × (can_access id f ≡ true)
  unfolding selected has_id
  deleted_rows_permitted f c a m lost =
      let kept = (delete_by_id_exact files c a file_id id.user_id id.tenant_id f).0.1 in
      ground (arith, m, lost, kept, can_access-owned_by id f, text_eq_iff f.id file_id)

  -- A row that a request to delete a file took out of the table has the id asked for and the caller
  -- may access it, and the storage had reported the deletion of such a row's object without error.
  pub serve_delete_safe :
      (s : State) (f : File)
      → files.connected ≡ true
      → files.answers ≡ true
      → Memᴰ f files.rows
      → ¬ Memᴰ f (serve_delete blobs files id file_id s).1.rows
      → (f.id ≡ file_id)
        × (can_access id f ≡ true)
        × ((row : File) × IsPermitted files id file_id row
            × ((delete_object row.object_key s).0 ≡ ok tt))
  serve_delete_safe s f c a m lost = elim (serve_delete_cases s) [
    | inl (e, q) ↦ absurd (lost (subst (λ o. Memᴰ f o.1.rows) (sym q) m))
    | inr (row, p, q) ↦
        let lost' = subst (λ o. ¬ Memᴰ f o.1.rows) q lost in
        elim (object_deleted_rows (delete_object row.object_key s)) [
          | inl same ↦ absurd (lost' (subst (λ o. Memᴰ f o.rows) (sym same) m))
          | inr (gone, same) ↦
              let (i, k) =
                deleted_rows_permitted f c a m (subst (λ o. ¬ Memᴰ f o.rows) same lost') in
              (i, k, (row, p, gone))
        ]
  ]

mod_small : (n : ℕ) → n < 9_223_372_036_000_000_000 → n % 2 ^ 64 ≡ n
mod_small n h = omega (arith, h)

-- The time to live of a link, where the query asks for one: a positive number of seconds that
-- multiplies into an int64 of nanoseconds is granted up to seven days, and cut to that above.
pub link_expiry_bounds :
    (blobs : Blobs) (atoi : Text → Option ℕ) (default : ℕ) (raw : Text) (sec : ℕ)
    → raw ≢ []
    → atoi raw ≡ some sec
    → 0 < sec
    → sec < 9_223_372_036
    → link_expiry blobs atoi default raw
      ≡ some ((if leb sec 604_800 then sec else 604_800) * 1_000_000_000)
unfolding link_expiry of_seconds capped
link_expiry_bounds blobs atoi default raw sec n a p b =
    ground (arith, a, mod_small (sec * 1_000_000_000) (omega (arith, b)))
