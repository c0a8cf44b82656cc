-- ===== src/Tests/FileAccess.antt =====
-- File access: an owner, a stranger, and a row.
use ting_boundless.Files.{
  has_id, limit_or_default, list_by_owner, get_by_id, owned_by, selected, Files, File, delete_by_id,
}
use ting_boundless.Base.{insert_by, sort_by, codes, ◌∷◌, ◌≡◌, refl, true, some, []}
use ting_boundless.Base.Results.{ok}
use ting_boundless.Files.Access.{
  object_deleted, capped, with_file, serve_delete, serve_url, link_expiry, Object, serve_download,
  can_access, Blobs,
}
use ting_boundless.Tests.Fixtures.{alice, texts_compute}
use mathlib.Core.List.{Memᴰ}
use ting_boundless.Files.Access.Laws.{serve_delete_safe, serve_download-IsPermitted, IsPermitted}

abbrev notes : File
notes = record {
  id = codes "f1";
  tenant_id = [];
  owner_id = codes "alice";
  bucket = codes "b";
  object_key = codes "k";
  content_type = codes "text/plain";
  size_bytes = 3;
  created_at = 5;
}

abbrev table : Files
table = record { connected = true; answers = true; rows = notes ∷ [] }

abbrev blobs : Blobs
blobs = record {
  State = Unit {0};
  enabled = true;
  get_object = λ key s. ok (record { content_type = []; body = codes "abc" });
  presign_get_url = λ key expiry. ok (codes "u", expiry);
  delete_object = λ key s. (ok tt, s);
}

files_compute : Unit {0}
unfolding texts_compute serve_download serve_url serve_delete with_file get_by_id link_expiry capped
    can_access object_deleted delete_by_id list_by_owner limit_or_default owned_by selected has_id
    sort_by insert_by
files_compute = tt

serve_download-IsPermitted_example :
    (row : File) × (o : Object) × IsPermitted table alice (codes "f1") row
    × (blobs.get_object row.object_key tt ≡ ok o)
    × (o.body ≡ codes "abc")
unfolding files_compute
serve_download-IsPermitted_example =
    serve_download-IsPermitted blobs table alice (codes "f1") (λ k. k) tt
      (some (codes "text/plain")) (some 3) (some (codes "k")) (codes "abc") refl

absent : {f : File} → Memᴰ f [] → ⊥
absent m = elim m [ ]

serve_delete_safe_example :
    (notes.id ≡ codes "f1")
    × (can_access alice notes ≡ true)
    × ((row : File) × IsPermitted table alice (codes "f1") row
        × ((blobs.delete_object row.object_key tt).0 ≡ ok tt))
unfolding files_compute
serve_delete_safe_example =
    serve_delete_safe blobs table alice (codes "f1") tt notes refl refl (Memᴰ.head refl) absent
