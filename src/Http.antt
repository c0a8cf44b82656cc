-- ===== src/Http.antt =====
-- Requests, headers and the error envelope: net/http as the code uses it, go/pkg/errs/errs.go and
-- go/pkg/httpx/errors.go.
pub mod Laws
use ting_boundless.Base.{
  ℕ, ◌≡◌, refl, Bool, true, false, Option, none, some, List, [], ◌∷◌, Text, is_nil, ℕ_discrete,
  if◌then◌else◌,
}
use mathlib.Core.Logic.{ite}

-- The header fields that the code names; `http.Header` keys are canonical, so the field names
-- compare as values. `other` is any further field.
pub data HeaderName : Type 0 where
  x_request_id x_user_id x_tenant_id x_roles x_scopes x_auth_subject : HeaderName
  x_internal_token authorization traceparent x_forwarded_for x_real_ip retry_after : HeaderName
  content_type content_length content_disposition logto_signature : HeaderName
  other : Text → HeaderName

unfoldable pub HeaderName-discrete : Discrete HeaderName
HeaderName-discrete = hlevel ℕ_discrete

-- `http.Header`: the values of each field, in order; no value is an absent field.
abbrev pub Headers : Type 0
Headers = HeaderName → List Text

abbrev pub first_or_empty : List Text → Text
first_or_empty [] = []
first_or_empty (v ∷ _) = v

-- `h.Get(k)`.
unfoldable pub get : Headers → HeaderName → Text
get h k = first_or_empty (h k)

-- `h.Set(k, v)`.
unfoldable pub set : Headers → HeaderName → Text → Headers
unfolding HeaderName-discrete
set h k v j = ite (HeaderName-discrete k j) (v ∷ []) (h j)

-- `h.Del(k)`.
unfoldable pub del : Headers → HeaderName → Headers
unfolding HeaderName-discrete
del h k j = ite (HeaderName-discrete k j) [] (h j)

-- The parts of `http.Request` that the code reads.
pub record Request : Type 0 where
  pub method : Text
  pub path : Text  -- r.URL.Path
  pub headers : Headers
  pub remote_addr : Text
  pub query : Text → Text  -- r.URL.Query().Get
  pub cookie : Text → Option Text  -- the value of r.Cookie

-- `errs.Error`.
pub record ApiError : Type 0 where
  pub status : ℕ
  pub code : Text
  pub message : Text

abbrev pub bad_request : Text → Text → ApiError
bad_request c m = record { status = 400; code = c; message = m }

abbrev pub unauthorized : Text → Text → ApiError
unauthorized c m = record { status = 401; code = c; message = m }

abbrev pub forbidden : Text → Text → ApiError
forbidden c m = record { status = 403; code = c; message = m }

abbrev pub not_found : Text → Text → ApiError
not_found c m = record { status = 404; code = c; message = m }

abbrev pub internal : Text → Text → ApiError
internal c m = record { status = 500; code = c; message = m }

-- The reply that `httpx.WriteError` writes: the status, and the envelope's code, message and request
-- id, which is left out when it is empty.
pub record ErrorReply : Type 0 where
  pub status : ℕ
  pub code : Text
  pub message : Text
  pub request_id : Option Text

unfoldable pub write_error : Text → ApiError → ErrorReply
write_error rid e = record {
  status = e.status;
  code = e.code;
  message = e.message;
  request_id = if is_nil rid then none else some rid;
}
