-- ===== src/Storage/Objects.antt =====
-- The requests of the object storage client: `PutObject`, `GetObject` and `DeleteObject` of
-- go/pkg/storage/client.go, and the client as the storage of file-service.
use ting_boundless.Base.{
  not, leb, is_nil, codes, Option, Text, ℕ, ◌++◌, if◌then◌else◌, some, none, [],
}
use ting_boundless.Base.Results.{wrapped, failure, Result, Err, err, ok}
use ting_boundless.Storage.Sign.{sign_s3_request, Signing, Outgoing, set_field}
use ting_boundless.Storage.{object_url, enabled, Url, Client}
use ting_boundless.Files.Access.{Blobs, Object}
use ting_boundless.Storage.Presign.{presign_get_url}

-- A response, the parts that are read.
pub record Response : Type 0 where
  pub status : ℕ
  pub content_type : Text
  pub body : Text

abbrev pub not_configured : Err
not_configured = failure (codes "s3 client not configured")

abbrev pub unsigned_payload : Text
unsigned_payload = codes "UNSIGNED-PAYLOAD"

abbrev pub empty_payload_hash : Text
empty_payload_hash = codes "e3b0c44298fc1c149afbf4c8996fb92427ae41e4649b934ca495991b7852b855"

-- The parser of URLs, the cryptography, the current time, and what the HTTP client does with a
-- request: its response, and what it changes.
pub record Transport (W : Type 0) : Type 0 where
  pub parse_url : Text → Result Url
  pub signing : Signing
  pub now : ℕ
  pub send : Outgoing → W → Result Response × W

-- An answer with a status from 300 on is an error.
unfoldable pub checked : Text → Result Response → Result Response
checked what (err e) = err (wrapped what e)
checked what (ok r) = if leb 300 r.status then err (failure (what ++ codes ": status")) else ok r

unfoldable pub type_or_octets : Text → Text
type_or_octets t = if is_nil t then codes "application/octet-stream" else t

unfoldable pub put_request : Url → Text → Option ℕ → Text → Outgoing
unfolding type_or_octets set_field
put_request u body size content_type = record {
  method = codes "PUT";
  url = u;
  fields =
      set_field (codes "x-amz-content-sha256") unsigned_payload
        (set_field (codes "content-type") (type_or_octets content_type) []);
  length = size;
  body = body;
}

unfoldable pub bare_request : Text → Url → Outgoing
bare_request method u = record { method = method; url = u; fields = []; length = none; body = [] }

unfoldable pub without_response : {W : Type 0} → Result Response × W → Result (Unit {0}) × W
without_response (ok r, w) = (ok tt, w)
without_response (err e, w) = (err e, w)

module _ {W : Type 0} (t : Transport W) where
  open t use {parse_url, signing, now, send}

  unfoldable pub sign : Client → Text → Outgoing → Outgoing
  sign c payload_hash r =
      sign_s3_request signing now c.access_key c.secret_key c.region payload_hash r

  unfoldable pub sent : Text → Client → Text → Outgoing → W → Result Response × W
  unfolding sign checked
  sent what c payload_hash r w =
      let out = send (sign c payload_hash r) w in (checked what out.0, out.1)

  -- The request of a method for an object, where its URL parses.
  unfoldable pub with_url :
      Text → Client → Text → (Url → Outgoing) → Result Url → W → Result Response × W
  unfolding sent
  with_url what c payload_hash request (err e) w = (err e, w)
  with_url what c payload_hash request (ok u) w = sent what c payload_hash (request u) w

  unfoldable pub on_object :
      Text → Text → (Url → Outgoing) → Option Client → Text → W → Result Response × W
  unfolding with_url
  on_object what payload_hash request none key w = (err not_configured, w)
  on_object what payload_hash request (some c) key w =
      if not (enabled (some c))
      then (err not_configured, w)
      else with_url what c payload_hash request (parse_url (object_url c key)) w

  -- `PutObject`; the size is `none` where it is negative.
  unfoldable pub put_object :
      Option Client → Text → Text → Option ℕ → Text → W → Result (Unit {0}) × W
  unfolding on_object put_request without_response
  put_object c key body size content_type w = without_response (
      on_object (codes "s3 put") unsigned_payload (λ u. put_request u body size content_type) c key
        w)

  -- `GetObject`.
  unfoldable pub get_object : Option Client → Text → W → Result Response × W
  unfolding on_object bare_request
  get_object c key w =
      on_object (codes "s3 get") empty_payload_hash (bare_request (codes "GET")) c key w

  -- `DeleteObject`.
  unfoldable pub delete_object : Option Client → Text → W → Result (Unit {0}) × W
  unfolding on_object bare_request without_response
  delete_object c key w =
      without_response
        (on_object (codes "s3 delete") empty_payload_hash (bare_request (codes "DELETE")) c key w)

unfoldable pub object_of : Result Response → Result Object
object_of (err e) = err e
object_of (ok r) = ok (record { content_type = r.content_type; body = r.body })

-- The client as the `blobStore` of file-service, which reads what a GET returns and not what it changes.
abbrev pub client_blobs : {W : Type 0} → Transport W → (ℕ → Text) → Option Client → Blobs
client_blobs {W} t itoa c = record {
  State = W;
  enabled = enabled c;
  get_object = λ key w. object_of (get_object t c key w).0;
  presign_get_url = presign_get_url t.signing itoa c t.now;
  delete_object = delete_object t c;
}
