-- ===== src/Tests/Linked.antt =====
-- A link to a file over the object storage client.
use ting_boundless.Storage.{enabled, Client}
use ting_boundless.Base.{
  subst, arith, Text, ℕ, codes, ◌^◌, ◌*◌, ◌∷◌, ◌≡◌, refl, true, some, none, [],
}
use ting_boundless.Base.Results.{failure, err}
use ting_boundless.Storage.Objects.{client_blobs, Transport}
use ting_boundless.Files.{has_id, get_by_id, Files, File}
use ting_boundless.Tests.Fixtures.{alice, texts_compute}
use ting_boundless.Files.Access.{capped, link_expiry, can_access, link, with_file, serve_url}
use ting_boundless.Storage.Presign.{presign_get_url, lifetime, presign_get_url_at}
use ting_boundless.Files.Access.Laws.{IsPermitted}
use ting_boundless.Storage.Presign.Laws.{IsLink}
use ting_boundless.Storage.Links.{serve_url-IsLink}
use ting_boundless.Storage.Encode.Laws.{IsUnicode}

-- A hash that forgets everything, and an object storage that answers nothing.
abbrev transport : Transport (Unit {0})
transport = record {
  parse_url = λ t. err (failure []);
  signing = record { hmac = λ k d. []; sha256 = λ d. []; amz_date = λ t. []; date_stamp = λ t. [] };
  now = 7;
  send = λ r w. (err (failure []), w);
}

abbrev client : Client
client = record {
  host = codes "h";
  secure = true;
  access_key = codes "a";
  secret_key = codes "s";
  bucket = codes "b";
  region = codes "r";
}

abbrev note : File
note = record {
  id = codes "f1";
  tenant_id = [];
  owner_id = codes "alice";
  bucket = codes "b";
  object_key = codes "a b";
  content_type = [];
  size_bytes = 3;
  created_at = 5;
}

abbrev table : Files
table = record { connected = true; answers = true; rows = note ∷ [] }

abbrev itoa : ℕ → Text
itoa n = []

abbrev made : Text × ℕ
made = presign_get_url_at transport.signing itoa client (codes "a b") (lifetime (60 * 10 ^ 9)) 7

links_compute : Unit {0}
unfolding texts_compute serve_url with_file get_by_id has_id can_access link_expiry presign_get_url
    enabled capped
links_compute = tt

link_lem :
    serve_url
      (client_blobs transport itoa (some client))
      (λ t. none)
      (60 * 10 ^ 9)
      (some table)
      alice
      (codes "f1")
      []
    ≡ link (codes "f1") made.0 made.1
unfolding links_compute
link_lem = refl

serve_url-IsLink_example :
    (row : File) × (s : Client) × (expiry : ℕ) × IsPermitted table alice (codes "f1") row
    × (some client ≡ some s)
    × IsLink transport.signing itoa s row.object_key 7 expiry made.0 made.1
unfolding texts_compute
serve_url-IsLink_example =
    serve_url-IsLink transport itoa (some client) (λ t. none) (60 * 10 ^ 9) table alice (codes "f1")
      [] (codes "f1") made.0 made.1
      (λ s e. subst (λ t. IsUnicode t.bucket) (same e) (omega arith, tt))
      ((omega arith, (omega arith, (omega arith, tt))), tt) link_lem
  where
    same : {s : Client} → some client ≡ some s → client ≡ s
    same e = ground (arith, e)
