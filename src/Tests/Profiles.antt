-- ===== src/Tests/Profiles.antt =====
-- An upload that is downloaded again, and a profile that is renamed and read back.
use ting_boundless.Users.Laws.{serve_me-Shows, Shows, patched, read_back}
use ting_boundless.Users.{byte_length, Users}
use ting_boundless.Trace.{hex, hex_digit}
use ting_boundless.Files.Access.{Object, Blobs}
use ting_boundless.Files.{Files, File, insert, inserted, has_id}
use ting_boundless.Tests.Fixtures.{texts_compute, alice}
use ting_boundless.Files.Upload.{
  max_bytes_of, type_or_default, new_file_id, row_of, saved, stored, store_part, take_form, Reply,
  with_part, serve_upload, object_key, Paths, Part,
}
use ting_boundless.Base.{
  arith, trim_space, ℕ, List, Text, Option, codes, ◌∷◌, ◌≡◌, refl, true, some, none, [],
}
use ting_boundless.Base.Results.{Result, failure, err, ok}

abbrev paths : Paths
paths = record { join = λ parts. codes "k"; base = λ p. p; parse_positive = λ s. none }

abbrev notes_part : Part
notes_part = record {
  filename = codes "a.txt";
  size = 3;
  content_type = codes "text/plain";
  body = codes "abc";
}

-- A store of one object.
abbrev one_object : Blobs
one_object = record {
  State = Option Object;
  enabled = true;
  get_object = λ key s. elim s [ none ↦ err (failure []) | some o ↦ ok o ];
  presign_get_url = λ key expiry. ok (key, expiry);
  delete_object = λ key s. (ok tt, none);
}

abbrev put_one : Text → Text → ℕ → Text → Option Object → Result (Unit {0}) × Option Object
put_one key body size content_type s =
    (ok tt, some (record { content_type = content_type; body = body }))

abbrev no_files : Files
no_files = record { connected = true; answers = true; rows = [] }

abbrev uploaded : File
uploaded = record {
  id = codes "0a";
  tenant_id = [];
  owner_id = codes "alice";
  bucket = codes "b";
  object_key = codes "k";
  content_type = codes "text/plain";
  size_bytes = 3;
  created_at = 7;
}

abbrev upload : Reply × Files × Option Object
upload =
    serve_upload paths one_object (codes "b") put_one 0 7 alice (ok (10 ∷ []))
      (λ limit. with_part notes_part) no_files none

upload_computes : Unit {0}
unfolding texts_compute serve_upload take_form store_part stored saved row_of new_file_id hex
    hex_digit object_key type_or_default insert inserted max_bytes_of has_id
upload_computes = tt

abbrev profiles : Users
profiles = record { connected = true; rows = []; turns = [] }

abbrev decode_name : List ℕ → Result (Option Text)
decode_name body = ok (some (codes " Ann "))

serve_me-Shows_example :
    (t u : Users) × ((patched decode_name 1 2 alice profiles []).1 ≡ some t)
    × Shows alice
        (trim_space (codes " Ann "))
        profiles
        ((patched decode_name 1 2 alice profiles []).0, t)
    × ((read_back decode_name 1 2 alice profiles []).1 ≡ some u)
    × Shows alice
        (trim_space (codes " Ann "))
        t
        ((read_back decode_name 1 2 alice profiles []).0, u)
unfolding texts_compute byte_length
serve_me-Shows_example =
    serve_me-Shows decode_name 1 2 alice profiles [] (codes " Ann ") (refl, refl, refl) refl refl
      (omega arith)
